-- ===== src/ShadowPages/Flags.antt =====
-- `PageFlagsReader` of hwaddress-sanitizer/scan.cc, where the flags of page frames are read from a
-- file once and kept, and the loop of `scan` that uses it.
pub mod Found
use sanitizers.Base.{
  Outcome, ok, trap, ◌>>=◌, ◌==◌, if◌then◌else◌, add64, ℕ, ◌/◌, ◌%◌, ◌^◌, bit_and, Bool, true,
  false, not, Option, none, some, List, [], ◌∷◌, ◌++◌, ◌-◌,
}

-- The member `flags`, a map from page frames to their flags.
abbrev pub Flags : Type 0
Flags = List (ℕ × ℕ)

-- `flags.find(pfn)`
unfoldable pub find_flags : Flags → ℕ → Option ℕ
find_flags [] pfn = none
find_flags ((k, x) ∷ rest) pfn =
    let found = find_flags rest pfn in if k == pfn then some x else found

-- `LoadFlags`; `kpageflags` is what the file gives for a page frame, `none` if `fseek` or `fread`
-- fails there, which the assertions stop.
unfoldable pub load_flags : (ℕ → Option ℕ) → Flags → ℕ → Outcome Flags
load_flags kpageflags flags pfn = with_read (kpageflags pfn)
  where
    with_read : Option ℕ → Outcome Flags
    with_read none = trap
    with_read (some x) = ok ((pfn, x) ∷ flags)

-- The flags of a page frame from the map, which holds them by then.
unfoldable pub found_or : ℕ → Option ℕ → ℕ
found_or default none = default
found_or default (some x) = x

unfoldable pub looked_up : (ℕ → Option ℕ) → Flags → ℕ → Option ℕ → Outcome (ℕ × Flags)
looked_up kpageflags flags pfn (some x) = ok (x, flags)
looked_up kpageflags flags pfn none = do
  loaded ← load_flags kpageflags flags pfn
  ok (found_or 0 (find_flags loaded pfn), loaded)

unfoldable pub get_flags : (ℕ → Option ℕ) → Flags → ℕ → Outcome (ℕ × Flags)
get_flags kpageflags flags pfn = looked_up kpageflags flags pfn (find_flags flags pfn)

-- `IsZeroPage`
unfoldable pub zero_page : (ℕ → Option ℕ) → Flags → ℕ → Outcome (Bool × Flags)
zero_page kpageflags flags pfn = do
  (x, flags') ← get_flags kpageflags flags pfn
  ok (x / 2 ^ 24 % 2 == 1, flags')

-- An entry of the page map: whether the page is in memory, and its page frame.
abbrev pub is_resident : ℕ → Bool
is_resident v = v / 2 ^ 63 % 2 == 1

abbrev pub frame_of : ℕ → ℕ
frame_of v = bit_and v (2 ^ 54 - 1)

-- Whether the page of an entry is pushed; the flags of resident pages alone are looked up.
unfoldable pub is_pushed : (ℕ → Option ℕ) → Flags → ℕ → Outcome (Bool × Flags)
is_pushed kpageflags flags v =
    if is_resident v
    then (do (zero, flags') ← zero_page kpageflags flags (frame_of v); ok (not zero, flags'))
    else ok (false, flags)

-- The loop of `scan`. The entries of the page map from the one offset to the other are `entries`: each
-- `fread` gives what it is asked for.
unfoldable pub scan_pages : (ℕ → Option ℕ) → Flags → ℕ → List ℕ → List ℕ → Outcome (List ℕ × Flags)
scan_pages kpageflags flags addr [] resident_pages = ok (resident_pages, flags)
scan_pages kpageflags flags addr (v ∷ vs) resident_pages = do
  (pushed, flags') ← is_pushed kpageflags flags v
  let pages : List ℕ = if pushed then resident_pages ++ (addr ∷ []) else resident_pages
  scan_pages kpageflags flags' (add64 addr 4096) vs pages
