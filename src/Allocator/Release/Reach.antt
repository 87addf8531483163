-- ===== src/Allocator/Release/Reach.antt =====
-- Which super pages the release thread comes to.
use native.Mathlib.Nat.{add-mod_right, mul_assoc, mod-add-div, mod-eq_of_lt}
use native.Mathlib.Decide.{ℕ_discrete}
use sanitizers.Base.{
  Bool-cases, ◌==◌, if◌then◌else◌, ℕ, ◌+◌, ◌*◌, ◌/◌, ◌%◌, ◌≤◌, ◌<◌, ◌≡◌, ◌↔◌, ◌⊎◌, inl, inr, refl,
  sym, ap, ◌∙◌, Option, none, some, arith, false,
}
use sanitizers.Allocator.State.{Allocator, get_num_super_pages}
use sanitizers.Allocator.Release.{release_target}

-- The parity of a remainder by an even number.
parity_of_mod : (x n : ℕ) → n % 2 ≡ 0 → x % n % 2 ≡ x % 2
parity_of_mod x n even =
    let half : n ≡ 2 * (n / 2) = omega (arith, even) in
    let whole : n * (x / n) ≡ 2 * (n / 2 * (x / n)) =
      ap (λ (t : ℕ). t * (x / n)) half ∙ mul_assoc 2 (n / 2) (x / n) in
    omega (arith, mod-add-div x n, whole)

positive : {n : ℕ} → 0 < n → (n == 0) ≡ false
positive h = ground arith

some_pair : {p q : ℕ × ℕ} → some p ≡ some q → (p.0 ≡ q.0) × (p.1 ≡ q.1)
some_pair {p} {q} e =
    let same : p ≡ q = cc in (ap (λ (x : ℕ × ℕ). x.0) same, ap (λ (x : ℕ × ℕ). x.1) same)

abbrev target_of : ℕ → ℕ → ℕ → Option (ℕ × ℕ)
target_of n r x = if n == 0 then none else some (r, x)

some_target :
    (n : ℕ) {r x range_num idx : ℕ}
    → target_of n r x ≡ some (range_num, idx)
    → (r ≡ range_num) × (x ≡ idx)
some_target n {r} {x} {range_num} {idx} e = elim (Bool-cases (n == 0)) [
  | inl empty ↦ absurd (none_some {A = ℕ × ℕ} (rw empty at e))
  | inr full ↦ some_pair {p = (r, x)} {q = (range_num, idx)} (rw full at e)
]
  where
    none_some : {A : Type 0} {y : A} → none ≡ some y → ⊥
    none_some e = cc

-- The release thread comes to a super page in some iteration exactly if the number of super pages
-- of its range is odd or its index has the parity of the range: of an even number it never
-- comes to half of them.
pub release_target_iff :
    (a : Allocator) (range_num idx : ℕ)
    → range_num ≤ 1
    → idx < get_num_super_pages a range_num
    → ((iter : ℕ) × (release_target a iter ≡ some (range_num, idx)))
      ↔ ((get_num_super_pages a range_num % 2 ≡ 1) ⊎ (idx % 2 ≡ range_num))
unfolding release_target
release_target_iff a range_num idx two known = (to, from)
  where
    to :
        (iter : ℕ) × (release_target a iter ≡ some (range_num, idx))
        → (get_num_super_pages a range_num % 2 ≡ 1) ⊎ (idx % 2 ≡ range_num)
    to (iter, e) =
        let (same_range, same_idx) = some_target (get_num_super_pages a (iter % 2)) e in
        let at_idx : iter % get_num_super_pages a range_num ≡ idx = rw same_range at same_idx in
        elim (ℕ_discrete (get_num_super_pages a range_num % 2) 1) [
          | yes odd ↦ inl odd
          | no even ↦
              let parity =
                parity_of_mod iter (get_num_super_pages a range_num) (omega (arith, even)) in
              inr (ap (λ (t : ℕ). t % 2) (sym at_idx) ∙ parity ∙ same_range)
        ]

    visited :
        (iter : ℕ)
        → iter % 2 ≡ range_num
        → iter % get_num_super_pages a range_num ≡ idx
        → release_target a iter ≡ some (range_num, idx)
    visited iter e e' =
        let some_page : (get_num_super_pages a range_num == 0) ≡ false =
          positive (omega (arith, known)) in
        rw (e, some_page, e') refl

    from :
        (get_num_super_pages a range_num % 2 ≡ 1) ⊎ (idx % 2 ≡ range_num)
        → (iter : ℕ) × (release_target a iter ≡ some (range_num, idx))
    from (inr same) = (idx, visited idx same (mod-eq_of_lt known))
    from (inl odd) = elim (ℕ_discrete (idx % 2) range_num) [
      | yes same ↦ (idx, visited idx same (mod-eq_of_lt known))
      | no other ↦ (
        idx + get_num_super_pages a range_num,
        visited (idx + get_num_super_pages a range_num) (omega (arith, odd, other, two))
            (add-mod_right idx (get_num_super_pages a range_num) ∙ mod-eq_of_lt known),
      )
    ]
