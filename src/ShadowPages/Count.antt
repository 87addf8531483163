-- ===== src/ShadowPages/Count.antt =====
-- No user page of a resident shadow page is lost or counted twice.
use sanitizers.Base.{
  length, ok, ltb, ◌==◌, if◌then◌else◌, lt→ltb, Bool-cases, add64, sub64, mul64, ℕ, zero, suc, ◌+◌,
  ◌*◌, ◌%◌, ◌^◌, ◌<◌, bit_and, ◌≡◌, refl, ◌∙◌, ◌⊎◌, inl, inr, true, false, Option, none, some, List,
  [], ◌∷◌, arith,
}
use sanitizers.ShadowPages.{
  Map, lower_bound, check_found, find_map, Walk, count_at, readable, visit, walk_pages,
  do_magic_from, do_magic,
}
use sanitizers.ShadowPages.Find.{map_at, FirstBehind, behind, lower_bound-FirstBehind}

unfoldable pub total : List Map → ℕ
total [] = 0
total (m ∷ ms) = m.shadow_pages + total ms

count_at-total :
    (maps : List Map) (i n : ℕ)
    → i < length maps
    → (total (count_at maps i n) % 2 ^ 64 ≡ (total maps + n) % 2 ^ 64)
      × (length (count_at maps i n) ≡ length maps)
unfolding total count_at
count_at-total [] i n h = absurd (omega arith)
count_at-total (m ∷ ms) zero n h = (omega arith, refl)
count_at-total (m ∷ ms) (suc i) n h =
    let (sum, len) = count_at-total ms i n (omega arith) in (omega arith, omega arith)

-- The index of a mapping, if there is one, is one of the list.
unfoldable IsIndex : ℕ → Option ℕ → Type 0
IsIndex n none = Unit {0}
IsIndex n (some i) = i < n

readable-IsIndex :
    (maps : List Map) (addr : ℕ) (r : Option (ℕ × Map))
    → FirstBehind maps addr 0 r
    → (found : Option (ℕ × Map)) × (check_found addr r ≡ ok found)
      × IsIndex (length maps) (readable found)
unfolding check_found readable IsIndex
readable-IsIndex maps addr none b = (none, refl, tt)
readable-IsIndex maps addr _ (behind i below past before) =
    elim (Bool-cases (ltb addr (map_at maps i).start)) [
      | inl gap ↦ (none, rw (lt→ltb addr (map_at maps i).end_ past, gap) refl, tt)
      | inr inside ↦ (
        some (0 + i, map_at maps i),
        rw (lt→ltb addr (map_at maps i).end_ past, inside) refl,
        index (Bool-cases (bit_and (map_at maps i).prot 3 == 0)),
      )
    ]
  where
    index :
        ((bit_and (map_at maps i).prot 3 == 0) ≡ true)
          ⊎ ((bit_and (map_at maps i).prot 3 == 0) ≡ false)
        → IsIndex (length maps) (if bit_and (map_at maps i).prot 3 == 0 then none else some (0 + i))
    index (inl e) = rw e tt
    index (inr e) = rw e (omega arith)

-- The pages that a walk has given to mappings or holds back, modulo 2 ^ 64.
abbrev sum_of : Walk → ℕ
sum_of w = (total w.maps + w.unknown_pages) % 2 ^ 64

-- After a walk, `pages` more pages are counted, and the list has as many mappings as before.
record Counted (w w' : Walk) (pages : ℕ) : Type 0 where
  sum : sum_of w' ≡ (total w.maps + w.unknown_pages + pages) % 2 ^ 64
  len : length w'.maps ≡ length w.maps
  index : IsIndex (length w'.maps) w'.last_map

walk_at : List Map → ℕ → Option ℕ → Walk
walk_at maps unknown last = record { maps = maps; unknown_pages = unknown; last_map = last }

miss-Counted :
    (maps : List Map) (unknown : ℕ) (last : Option ℕ)
    → IsIndex (length maps) last
    → Counted (walk_at maps unknown last) (visit (walk_at maps unknown last) none) 1
unfolding visit IsIndex walk_at
miss-Counted maps unknown none h = record { sum = omega arith; len = refl; index = tt }
miss-Counted maps unknown (some i) h =
    let (sum, len) = count_at-total maps i 1 h in
    record { sum = omega arith; len = len; index = rw len h }

visit-Counted :
    (w : Walk) (r : Option ℕ)
    → IsIndex (length w.maps) w.last_map
    → IsIndex (length w.maps) r
    → Counted w (visit w r) 1
unfolding visit IsIndex walk_at
visit-Counted w (some i) last h =
    let (sum, len) = count_at-total w.maps i (add64 1 w.unknown_pages) h in
    record { sum = omega arith; len = len; index = rw len h }
visit-Counted w none last h = miss-Counted w.maps w.unknown_pages w.last_map last

walk_pages-Counted :
    (rounds user : ℕ) (w : Walk)
    → IsIndex (length w.maps) w.last_map
    → (w' : Walk) × (walk_pages rounds user w ≡ ok w') × Counted w w' rounds
unfolding walk_pages find_map
walk_pages-Counted zero user w last =
    (w, refl, record { sum = omega arith; len = refl; index = last })
walk_pages-Counted (suc rounds) user w last =
    let (found, eq, index) =
      readable-IsIndex w.maps user (lower_bound w.maps user 0)
        (lower_bound-FirstBehind w.maps user 0) in
    let c = visit-Counted w (readable found) last index in
    let (w', eq', c') =
      walk_pages-Counted rounds (add64 user 4096) (visit w (readable found)) c.index in
    (
      w',
      rw eq eq',
      record { sum = omega (arith, c.sum, c'.sum); len = c'.len ∙ c.len; index = c'.index },
    )

do_magic_from-Counted :
    (base : ℕ) (shadows : List ℕ) (maps : List Map) (unallocated : ℕ)
    → (u : ℕ) × (maps' : List Map) × (do_magic_from base shadows maps unallocated ≡ ok (u, maps'))
      × ((total maps' + u) % 2 ^ 64 ≡ (total maps + unallocated + 16 * length shadows) % 2 ^ 64)
      × (length maps' ≡ length maps)
unfolding do_magic_from IsIndex walk_at
do_magic_from-Counted base [] maps unallocated = (unallocated, maps, refl, omega arith, refl)
do_magic_from-Counted base (shadow ∷ shadows) maps unallocated =
    let (w, eq, c) =
      walk_pages-Counted 16 (mul64 (sub64 shadow base) 16) (walk_at maps 0 none) tt in
    let (u, maps', eq', sum, len) =
      do_magic_from-Counted base shadows w.maps (add64 unallocated w.unknown_pages) in
    (u, maps', rw eq eq', omega (arith, c.sum), len ∙ c.len)

-- `do_magic` passes its assertions for any mappings and any resident shadow pages, keeps the number
-- of mappings, and accounts for 16 user pages of each shadow page: modulo 2 ^ 64, the pages of all
-- mappings together with the result have grown by 16 times the number of shadow pages.
pub do_magic-total :
    (base : ℕ) (maps : List Map) (shadows : List ℕ)
    → (u : ℕ) × (maps' : List Map) × (do_magic base maps shadows ≡ ok (u, maps'))
      × ((total maps' + u) % 2 ^ 64 ≡ (total maps + 16 * length shadows) % 2 ^ 64)
      × (length maps' ≡ length maps)
unfolding do_magic
do_magic-total base maps shadows =
    let (u, maps', eq, sum, len) = do_magic_from-Counted base shadows maps 0 in
    (u, maps', eq, omega (arith, sum), len)
