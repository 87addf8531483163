-- ===== src/SizeClass/Table.antt =====
-- The constants of memtagmalloc/src/mtmalloc_size_classes.h.
use sanitizers.Base.{ℕ, ◌-◌, List, [], ◌∷◌, length, get_or}

abbrev pub sc_array : List ℕ
sc_array =
    16 ∷ 32 ∷ 48 ∷ 64 ∷ 80 ∷ 96 ∷ 112 ∷ 128 ∷ 144 ∷ 160 ∷ 176 ∷ 192 ∷ 208 ∷ 224 ∷ 240 ∷ 256 ∷ 272
    ∷ 288 ∷ 336 ∷ 368 ∷ 448 ∷ 480 ∷ 512 ∷ 576 ∷ 640 ∷ 704 ∷ 768 ∷ 896 ∷ 1024 ∷ 1152 ∷ 1280 ∷ 1408
    ∷ 1536 ∷ 1792 ∷ 2048 ∷ 2304 ∷ 2688 ∷ 2816 ∷ 3200 ∷ 3456 ∷ 3584 ∷ 4096 ∷ 4736 ∷ 5376 ∷ 6144
    ∷ 6528 ∷ 7168 ∷ 8192 ∷ 9216 ∷ 10240 ∷ 12288 ∷ 14336 ∷ 16384 ∷ 20480 ∷ 24576 ∷ 28672 ∷ 32768
    ∷ 40960 ∷ 49152 ∷ 57344 ∷ 65536 ∷ 73728 ∷ 81920 ∷ 98304 ∷ 131072 ∷ 172032 ∷ 262144 ∷ []

abbrev pub num_size_classes : ℕ
num_size_classes = length sc_array

abbrev pub max_size_class : ℕ
max_size_class = get_or sc_array (num_size_classes - 1) 0
