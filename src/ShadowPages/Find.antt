-- ===== src/ShadowPages/Find.antt =====
-- `find_map` on the mappings of a process.
use sanitizers.Base.{
  length, get_or, ok, ltb, leb, ltb→lt, lt→ltb, leb→le, Bool-cases, ℕ, zero, suc, ◌+◌, ◌≤◌, ◌<◌,
  ◌≡◌, refl, ◌⊎◌, inl, inr, Bool, true, false, ◌&&◌, Option, none, some, List, [], ◌∷◌, arith,
}
use sanitizers.ShadowPages.{Map, lower_bound, check_found, find_map}
use native.Mathlib.Decide.{dec_lt}

abbrev pub zero_map : Map
zero_map = record { start = 0; end_ = 0; name = []; rss = 0; pss = 0; shadow_pages = 0; prot = 0 }

abbrev pub map_at : List Map → ℕ → Map
map_at maps i = get_or maps i zero_map

-- What `lower_bound` returns: the first mapping that ends behind the address.
pub data FirstBehind (maps : List Map) (addr first : ℕ) : Option (ℕ × Map) → Type 0 where
  all_before :
      ((i : ℕ) → i < length maps → (map_at maps i).end_ ≤ addr) → FirstBehind maps addr first none
  behind :
      (i : ℕ)
      → i < length maps
      → addr < (map_at maps i).end_
      → ((j : ℕ) → j < i → (map_at maps j).end_ ≤ addr)
      → FirstBehind maps addr first (some (first + i, map_at maps i))

next_first :
    (m : Map) (ms : List Map) (addr first : ℕ)
    → m.end_ ≤ addr
    → (r : Option (ℕ × Map)) → FirstBehind ms addr (first + 1) r
    → FirstBehind (m ∷ ms) addr first r
next_first m ms addr first h none (all_before before) = all_before (earlier before)
  where
    earlier :
        ((i : ℕ) → i < length ms → (map_at ms i).end_ ≤ addr)
        → (i : ℕ) → i < length (m ∷ ms)
        → (map_at (m ∷ ms) i).end_ ≤ addr
    earlier before zero below = h
    earlier before (suc i) below = before i (omega arith)
next_first m ms addr first h _ (behind i below past before) =
    let e : first + 1 + i ≡ first + suc i = omega arith in
    rw e (behind (suc i) (omega arith) past (earlier before))
  where
    earlier :
        ((j : ℕ) → j < i → (map_at ms j).end_ ≤ addr)
        → (j : ℕ) → j < suc i
        → (map_at (m ∷ ms) j).end_ ≤ addr
    earlier before zero inside = h
    earlier before (suc j) inside = before j (omega arith)

pub lower_bound-FirstBehind :
    (maps : List Map) (addr first : ℕ) → FirstBehind maps addr first (lower_bound maps addr first)
unfolding lower_bound
lower_bound-FirstBehind [] addr first = all_before (λ i h. absurd (omega arith))
lower_bound-FirstBehind (m ∷ ms) addr first = elim (Bool-cases (leb m.end_ addr)) [
  | inl before ↦ rw before (
      next_first m ms addr first (leb→le m.end_ addr before) _
        (lower_bound-FirstBehind ms addr (first + 1)))
  | inr past ↦ rw past (here past)
]
  where
    here : leb m.end_ addr ≡ false → FirstBehind (m ∷ ms) addr first (some (first, m))
    here past =
        let e : first + 0 ≡ first = omega arith in
        let inside : addr < m.end_ = ground arith in
        let found : FirstBehind (m ∷ ms) addr first (some (first + 0, m)) =
          behind 0 (omega arith) inside (λ j h. absurd (omega arith)) in
        rw e at found

-- Mappings in the order of their addresses, none in another.
pub record IsSorted (maps : List Map) : Type 0 where
  pub apart : (i j : ℕ) → i < j → j < length maps → (map_at maps i).end_ ≤ (map_at maps j).start

abbrev pub holds : Map → ℕ → Bool
holds m addr = leb m.start addr && ltb addr m.end_

in_gap :
    (maps : List Map) (addr i : ℕ)
    → IsSorted maps
    → ((j : ℕ) → j < i → (map_at maps j).end_ ≤ addr)
    → i < length maps
    → addr < (map_at maps i).end_
    → addr < (map_at maps i).start
    → (k : ℕ) → k < length maps
    → holds (map_at maps k) addr ≡ false
in_gap maps addr i sorted before below past gap k h = elim (dec_lt k i) [
  | yes lower ↦ let ended = before k lower in ground arith
  | no not_lower ↦ elim (dec_lt i k) [
    | yes higher ↦ let later = sorted.apart i k higher h in ground arith
    | no not_higher ↦ let same : k ≡ i = omega arith in rw same (ground arith)
  ]
]

check_found_lem :
    (maps : List Map) (addr : ℕ)
    → IsSorted maps
    → (r : Option (ℕ × Map)) → FirstBehind maps addr 0 r
    → ((i : ℕ) × (check_found addr r ≡ ok (some (i, map_at maps i)))
        × (i < length maps)
        × (holds (map_at maps i) addr ≡ true))
      ⊎ ((check_found addr r ≡ ok none)
          × ((i : ℕ) → i < length maps → holds (map_at maps i) addr ≡ false))
unfolding check_found
check_found_lem maps addr sorted none (all_before before) =
    inr (refl, λ i h. let ended = before i h in ground arith)
check_found_lem maps addr sorted _ (behind i below past before) =
    elim (Bool-cases (ltb addr (map_at maps i).start)) [
      | inl gap ↦ inr (
        rw (lt→ltb addr (map_at maps i).end_ past, gap) refl,
        in_gap maps addr i sorted before below past (ltb→lt addr (map_at maps i).start gap),
      )
      | inr inside ↦ inl (
        i,
        (let e : 0 + i ≡ i = omega arith in
            rw (e, lt→ltb addr (map_at maps i).end_ past, inside) refl),
        below,
        ground arith,
      )
    ]

-- On sorted mappings `find_map` passes its assertion. It returns a mapping that holds the address,
-- with its index, or null, and then none of the mappings holds the address.
pub find_map_lem :
    (maps : List Map) (addr : ℕ)
    → IsSorted maps
    → ((i : ℕ) × (find_map maps addr ≡ ok (some (i, map_at maps i)))
        × (i < length maps)
        × (holds (map_at maps i) addr ≡ true))
      ⊎ ((find_map maps addr ≡ ok none)
          × ((i : ℕ) → i < length maps → holds (map_at maps i) addr ≡ false))
unfolding find_map
find_map_lem maps addr sorted =
    check_found_lem maps addr sorted (lower_bound maps addr 0) (lower_bound-FirstBehind maps addr 0)
