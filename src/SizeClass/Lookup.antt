-- ===== src/SizeClass/Lookup.antt =====
-- `SizeToSizeClass` once the table is filled.
use sanitizers.Base.{
  length, get_or, every_below, every_below_lem, leb, ◌==◌, leb→le, le→leb, ==_iff, Bool-cases, u8,
  add64, sub64, ℕ, zero, suc, ◌+◌, ◌-◌, ◌*◌, ◌/◌, ◌≤◌, ◌<◌, ◌≡◌, refl, ap, ◌∙◌, inl, inr, true,
  some, [], ◌∷◌, arith,
}
use sanitizers.SizeClass.{
  max_size_class, SizeClassDescr, zero_descr, chunk_size, Descrs, first_fit, size_to_size_class,
}
use sanitizers.SizeClass.Table.{max_size_class}
use sanitizers.SizeClass.Filled.{filled_descrs}

-- The class at an index of `descrs`.
abbrev pub class_at : Descrs → ℕ → SizeClassDescr
class_at descrs i = get_or descrs i zero_descr

-- `j` is the first class of `descrs` that holds `size` bytes.
pub record IsFirstFit (descrs : Descrs) (size j : ℕ) : Type 0 where
  pub inside : j < length descrs
  pub holds : size ≤ chunk_size (class_at descrs j)
  pub first : (i : ℕ) → i < j → chunk_size (class_at descrs i) < size

IsFirstFit-head :
    (d : SizeClassDescr) (ds : Descrs) (size : ℕ) → size ≤ chunk_size d → IsFirstFit (d ∷ ds) size 0
IsFirstFit-head d ds size fits = record {
  inside = omega arith;
  holds = fits;
  first = λ i lt. absurd (omega arith);
}

IsFirstFit-tail :
    (d : SizeClassDescr) (ds : Descrs) (size j : ℕ)
    → chunk_size d < size
    → IsFirstFit ds size j
    → IsFirstFit (d ∷ ds) size (suc j)
IsFirstFit-tail d ds size j small f = record {
  inside = omega arith;
  holds = f.holds;
  first = earlier;
}
  where
    earlier : (i : ℕ) → i < suc j → chunk_size (class_at (d ∷ ds) i) < size
    earlier zero lt = small
    earlier (suc i) lt = f.first i (omega arith)

first_fit_from :
    (size idx k : ℕ) (ds : Descrs)
    → k < length ds
    → size ≤ chunk_size (class_at ds k)
    → (j : ℕ) × (first_fit size idx ds ≡ some (idx + j, class_at ds j)) × IsFirstFit ds size j
unfolding first_fit
first_fit_from size idx k [] h fits = absurd (omega arith)
first_fit_from size idx zero (d ∷ ds) h fits =
    rw (le→leb size (chunk_size d) fits)
      (0, ap (λ (t : ℕ). some (t, d)) (omega arith), IsFirstFit-head d ds size fits)
first_fit_from size idx (suc k) (d ∷ ds) h fits = elim (Bool-cases (leb size (chunk_size d))) [
  | inl holds ↦
      rw holds
        (0, ap (λ (t : ℕ). some (t, d)) (omega arith), IsFirstFit-head d ds size (leb→le _ _ holds))
  | inr small ↦
      let (j, eq, f) = first_fit_from size (idx + 1) k ds (omega arith) fits in
      rw small (
        suc j,
        eq ∙ ap (λ (t : ℕ). some (t, class_at ds j)) (omega arith),
        IsFirstFit-tail d ds size j (ground arith) f,
      )
]

small_sizes : every_below 16 (λ j. chunk_size (class_at filled_descrs j) == 16 * (j + 1)) ≡ true
small_sizes = refl

small_class : (j : ℕ) → j < 16 → chunk_size (class_at filled_descrs j) ≡ 16 * (j + 1)
small_class j h = (==_iff _ _).0 (
    every_below_lem 16 (λ i. chunk_size (class_at filled_descrs i) == 16 * (i + 1)) j small_sizes h)

-- The branch of the sizes up to 256.
small-IsFirstFit :
    (size j : ℕ) → size ≤ 16 * (j + 1) → 16 * j < size → j < 16 → IsFirstFit filled_descrs size j
small-IsFirstFit size j le lt h = record {
  inside = omega arith;
  holds = rw (small_class j h) le;
  first = λ i below. rw (small_class i (omega arith)) (omega arith);
}

-- Once `InitAll` has filled the table, `SizeToSizeClass` returns, for every size from 1 to the
-- largest class, the first class that holds the size, with its description.
pub size_to_size_class-IsFirstFit :
    (size : ℕ)
    → 0 < size
    → size ≤ max_size_class
    → (j : ℕ) × (size_to_size_class filled_descrs size ≡ (j, class_at filled_descrs j))
      × IsFirstFit filled_descrs size j
unfolding size_to_size_class
size_to_size_class-IsFirstFit size pos top = elim (Bool-cases (leb size 256)) [
  | inl small ↦
      let le : size ≤ 256 = leb→le _ _ small in
      let j = (size + 15) / 16 - 1 in
      let idx : u8 (sub64 (add64 size 15 / 16) 1) ≡ j = omega arith in
      rw (small, idx) (j, refl, small-IsFirstFit size j (omega arith) (omega arith) (omega arith))
  | inr large ↦
      let (j, eq, f) = first_fit_from size 0 66 filled_descrs (omega arith) top in
      let inside : j < 67 = f.inside in
      let idx : u8 (0 + j) ≡ j = omega arith in rw (large, eq, idx) (j, refl, f)
]
