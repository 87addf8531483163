-- ===== src/SizeClass/Filled.antt =====
-- `SCDescr` as `InitAll` leaves it: range, number of chunks, sixteenth of the size, multiplier.
use sanitizers.Base.{ℕ, [], ◌∷◌}
use sanitizers.SizeClass.{SizeClassDescr, Descrs}

abbrev pub descr : ℕ → ℕ → ℕ → ℕ → SizeClassDescr
descr range chunks size mul = record {
  range_num = range;
  num_chunks = chunks;
  chunk_size_div16 = size;
  chunk_size_mul_div = mul;
}

abbrev pub filled_descrs : Descrs
filled_descrs =
    descr 0 30840 1 2147483648
    ∷ descr 0 15887 2 1073741824
    ∷ descr 0 10699 3 715827883
    ∷ descr 0 8065 4 536870912
    ∷ descr 0 6472 5 429496730
    ∷ descr 0 5405 6 357913942
    ∷ descr 0 4639 7 306783379
    ∷ descr 0 4064 8 268435456
    ∷ descr 0 3615 9 238609295
    ∷ descr 0 3256 10 214748365
    ∷ descr 0 2962 11 195225787
    ∷ descr 0 2716 12 178956971
    ∷ descr 0 2508 13 165191050
    ∷ descr 0 2330 14 153391690
    ∷ descr 0 2175 15 143165577
    ∷ descr 0 2040 16 134217728
    ∷ descr 0 1920 17 126322568
    ∷ descr 0 1814 18 119304648
    ∷ descr 0 1555 21 102261127
    ∷ descr 0 1420 23 93368855
    ∷ descr 0 1167 28 76695845
    ∷ descr 0 1089 30 71582789
    ∷ descr 0 1022 32 67108864
    ∷ descr 0 908 36 59652324
    ∷ descr 0 817 40 53687092
    ∷ descr 0 743 44 48806447
    ∷ descr 0 681 48 44739243
    ∷ descr 0 584 56 38347923
    ∷ descr 1 512 64 33554432
    ∷ descr 0 454 72 29826162
    ∷ descr 0 409 80 26843546
    ∷ descr 0 372 88 24403224
    ∷ descr 0 341 96 22369622
    ∷ descr 0 292 112 19173962
    ∷ descr 1 256 128 16777216
    ∷ descr 0 227 144 14913081
    ∷ descr 0 194 168 12782641
    ∷ descr 0 186 176 12201612
    ∷ descr 0 163 200 10737419
    ∷ descr 0 151 216 9942054
    ∷ descr 0 146 224 9586981
    ∷ descr 1 128 256 8388608
    ∷ descr 0 110 296 7255013
    ∷ descr 0 97 336 6391321
    ∷ descr 1 85 384 5592406
    ∷ descr 0 80 408 5263441
    ∷ descr 1 73 448 4793491
    ∷ descr 1 64 512 4194304
    ∷ descr 1 56 576 3728271
    ∷ descr 1 51 640 3355444
    ∷ descr 1 42 768 2796203
    ∷ descr 1 36 896 2396746
    ∷ descr 1 32 1024 2097152
    ∷ descr 1 25 1280 1677722
    ∷ descr 1 21 1536 1398102
    ∷ descr 1 18 1792 1198373
    ∷ descr 1 16 2048 1048576
    ∷ descr 1 12 2560 838861
    ∷ descr 1 10 3072 699051
    ∷ descr 1 9 3584 599187
    ∷ descr 1 8 4096 524288
    ∷ descr 1 7 4608 466034
    ∷ descr 1 6 5120 419431
    ∷ descr 1 5 6144 349526
    ∷ descr 1 4 8192 262144
    ∷ descr 1 3 10752 199729
    ∷ descr 1 2 16384 131072
    ∷ []
