-- ===== src/ShadowPages/Maps.antt =====
-- The constructor of `Map`, `read_maps` and the search of `main` for the two shadows, of
-- hwaddress-sanitizer/scan.cc. The regular expressions are the argument `parse`, which says what a
-- line of /proc/PID/smaps is.
pub mod Sections
use sanitizers.Base.{
  Outcome, ok, trap, ◌>>=◌, ◌>>◌, check, ◌==◌, if◌then◌else◌, ℕ, ◌+◌, Bool, true, false, ◌&&◌, ◌||◌,
  Option, none, some, List, [], ◌∷◌, ◌++◌, get_or,
}
use sanitizers.ShadowPages.{Map}

-- What a line matches: `name_regex` with the permissions and the name, `rss_regex`, `pss_regex`, or
-- none of them.
pub data Line : Type 0 where
  header : (start end_ : ℕ) (permissions name : List ℕ) → Line
  rss_line : ℕ → Line
  pss_line : ℕ → Line
  other_line : Line

-- The characters `r`, `w`, `x` and `-`, and the bits PROT_READ, PROT_WRITE and PROT_EXEC.
abbrev pub is_flag : ℕ → ℕ → Bool
is_flag letter c = (c == letter) || (c == 45)

abbrev pub flag_bit : ℕ → ℕ → ℕ → ℕ
flag_bit letter bit c = if c == letter then bit else 0

-- The constructor; `p` has three characters at least, since it matched.
unfoldable pub make_map : ℕ → ℕ → List ℕ → List ℕ → Outcome Map
make_map start finish p name = do
  check (is_flag 114 (get_or p 0 0))
  check (is_flag 119 (get_or p 1 0))
  check (is_flag 120 (get_or p 2 0))
  ok (record {
    start = start;
    end_ = finish;
    name = name;
    rss = 0;
    pss = 0;
    shadow_pages = 0;
    prot =
        flag_bit 114 1 (get_or p 0 0)
        + flag_bit 119 2 (get_or p 1 0)
        + flag_bit 120 4 (get_or p 2 0);
  })

-- `if (current) maps.push_back(current);`
unfoldable pub push_current : List Map → Option Map → List Map
push_current maps none = maps
push_current maps (some m) = maps ++ (m ∷ [])

-- `assert(current);` and the assignment to its field.
unfoldable pub with_current : Option Map → (Map → Map) → Outcome (Option Map)
with_current none f = trap
with_current (some m) f = ok (some (f m))

abbrev pub set_rss : ℕ → Map → Map
set_rss n m = record m { rss = n }

abbrev pub set_pss : ℕ → Map → Map
set_pss n m = record m { pss = n }

-- The loop over the lines.
unfoldable pub read_lines : List Line → List Map → Option Map → Outcome (List Map)
read_lines [] maps current = ok (push_current maps current)
read_lines (header start finish p name ∷ lines) maps current =
    make_map start finish p name >>= λ m. read_lines lines (push_current maps current) (some m)
read_lines (rss_line n ∷ lines) maps current =
    with_current current (set_rss n) >>= λ next. read_lines lines maps next
read_lines (pss_line n ∷ lines) maps current =
    with_current current (set_pss n) >>= λ next. read_lines lines maps next
read_lines (other_line ∷ lines) maps current = read_lines lines maps current

abbrev pub parse_all : (List ℕ → Line) → List (List ℕ) → List Line
parse_all parse [] = []
parse_all parse (l ∷ ls) = parse l ∷ parse_all parse ls

unfoldable pub read_maps : (List ℕ → Line) → List (List ℕ) → Outcome (List Map)
read_maps parse lines = read_lines (parse_all parse lines) [] none

abbrev pub same_name : List ℕ → List ℕ → Bool
same_name [] [] = true
same_name [] (d ∷ ds) = false
same_name (c ∷ cs) [] = false
same_name (c ∷ cs) (d ∷ ds) = (c == d) && same_name cs ds

-- "[anon:low shadow]" and "[anon:high shadow]"
abbrev pub low_shadow_name : List ℕ
low_shadow_name =
    91 ∷ 97 ∷ 110 ∷ 111 ∷ 110 ∷ 58 ∷ 108 ∷ 111 ∷ 119 ∷ 32 ∷ 115 ∷ 104 ∷ 97 ∷ 100 ∷ 111 ∷ 119 ∷ 93
    ∷ []

abbrev pub high_shadow_name : List ℕ
high_shadow_name =
    91 ∷ 97 ∷ 110 ∷ 111 ∷ 110 ∷ 58 ∷ 104 ∷ 105 ∷ 103 ∷ 104 ∷ 32 ∷ 115 ∷ 104 ∷ 97 ∷ 100 ∷ 111 ∷ 119
    ∷ 93 ∷ []

-- The loop of `main` over the mappings, for the low and the high shadow.
unfoldable pub find_shadows : List Map → Option Map × Option Map → Option Map × Option Map
find_shadows [] found = found
find_shadows (m ∷ ms) (low_shadow, high_shadow) = find_shadows ms (
    if same_name m.name low_shadow_name
    then (some m, high_shadow)
    else if same_name m.name high_shadow_name
    then (low_shadow, some m)
    else (low_shadow, high_shadow))
