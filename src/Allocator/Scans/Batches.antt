-- ===== src/Allocator/Scans/Batches.antt =====
-- The batches of `ScanLoop` against one pass over the super pages of a range.
use sanitizers.Base.{
  ap, lt→leb, Mem, Outcome, ok, trap, ◌>>=◌, leb, ltb, ◌==◌, if◌then◌else◌, Bool-cases, leb→le,
  le→leb, ltb→lt, add64, ℕ, zero, suc, ◌+◌, ◌-◌, ◌*◌, ◌/◌, ◌^◌, ◌≤◌, ◌<◌, ◌≡◌, refl, sym, ◌∙◌, true,
  inl, inr, arith,
}
use sanitizers.SuperPage.{Env, mark_all_live_pointers}
use sanitizers.Allocator.{get_super_page}
use sanitizers.Allocator.Scans.{mark_batch, scan_range}

then_same {ℓ κ} :
    {A : Type ℓ} {B : Type κ} (x : Outcome A) (f g : A → Outcome B)
    → ((a : A) → f a ≡ g a)
    → (x >>= f) ≡ (x >>= g)
then_same trap f g same = refl
then_same (ok a) f g same = same a

then_then {ℓ κ ι} :
    {A : Type ℓ} {B : Type κ} {C : Type ι} (x : Outcome A) (f : A → Outcome B) (g : B → Outcome C)
    → (x >>= λ a. f a >>= g) ≡ ((x >>= f) >>= g)
then_then trap f g = refl
then_then (ok a) f g = refl

module _ (env : Env) (n0 n1 range_num : ℕ) where
  -- The number of super pages of the range.
  abbrev n : ℕ
  n = if range_num == 0 then n0 else n1

  mark_batch-add :
      (a b : ℕ) (m : Mem) (idx : ℕ)
      → mark_batch env n0 n1 range_num (a + b) m idx ≡ (
          mark_batch env n0 n1 range_num a m idx >>= λ m'.
          mark_batch env n0 n1 range_num b m' (idx + a))
  unfolding mark_batch
  mark_batch-add zero b m idx =
      let e : 0 + b ≡ b = omega arith in let e' : idx + 0 ≡ idx = omega arith in rw (e, e') refl
  mark_batch-add (suc a) b m idx =
      let e : suc a + b ≡ suc (a + b) = omega arith in
      let e' : idx + suc a ≡ idx + 1 + a = omega arith in
      rw (e, e')
        (then_same (get_super_page range_num idx) _ _ (λ sp.
            then_same (mark_all_live_pointers env m sp n0 n1) _ _
              (λ m'. mark_batch-add a b m' (idx + 1))
            ∙ then_then (mark_all_live_pointers env m sp n0 n1) _ _)
          ∙ then_then (get_super_page range_num idx) _ _)

  -- The result of a pass over `left` super pages from `p` on.
  abbrev result : ℕ → ℕ → ℕ → Mem → Outcome (ℕ × ℕ × Mem)
  result left p done m = ok (done + left, p + 1024 * ((left + 1023) / 1024 + 1), m)

  -- What one pass over the super pages from `p` on gives.
  unfoldable pub one_pass : Mem → ℕ → ℕ → Outcome (ℕ × ℕ × Mem)
  one_pass m p done = mark_batch env n0 n1 range_num (n - p) m p >>= result (n - p) p done

  scan_range-ended :
      (rounds : ℕ) (m : Mem) (p done : ℕ)
      → n ≤ p
      → p + 1024 < 2 ^ 64
      → scan_range env n0 n1 range_num (suc rounds) m p done ≡ ok (done, p + 1024, m)
  unfolding scan_range
  scan_range-ended rounds m p done h small =
      let e : add64 p 1024 ≡ p + 1024 = omega arith in rw (le→leb n p h, e) refl

  -- A batch that is not the last, and the last one.
  scan_range-next :
      (rounds : ℕ) (m : Mem) (p done : ℕ)
      → p < n
      → p + 1024 < 2 ^ 64
      → scan_range env n0 n1 range_num (suc rounds) m p done ≡ (
          mark_batch env n0 n1 range_num ((if ltb (p + 1024) n then p + 1024 else n) - p) m p
          >>= λ m'.
              scan_range env n0 n1 range_num rounds m'
                (p + 1024)
                (done + ((if ltb (p + 1024) n then p + 1024 else n) - p)))
  unfolding scan_range
  scan_range-next rounds m p done h small =
      let e : add64 p 1024 ≡ p + 1024 = omega arith in rw (lt→leb n p h, e) refl

  one_pass-ended : (m : Mem) (p done : ℕ) → n ≤ p → one_pass m p done ≡ ok (done, p + 1024, m)
  unfolding one_pass mark_batch
  one_pass-ended m p done h =
      let none_left : n - p ≡ 0 = omega arith in
      let same : done + 0 ≡ done = omega arith in
      let last : p + 1024 * ((0 + 1023) / 1024 + 1) ≡ p + 1024 = omega arith in
      rw (none_left, same, last) refl

  one_pass-whole :
      (m : Mem) (p done : ℕ)
      → p < n
      → ltb (p + 1024) n ≡ true
      → (mark_batch env n0 n1 range_num 1024 m p >>= λ m'. one_pass m' (p + 1024) (done + 1024))
        ≡ one_pass m p done
  unfolding one_pass
  one_pass-whole m p done h whole =
      let below = ltb→lt (p + 1024) n whole in
      let split : n - p ≡ 1024 + (n - (p + 1024)) = omega arith in
      let count : done + 1024 + (n - (p + 1024)) ≡ done + (n - p) = omega arith in
      let last : p + 1024 + 1024 * ((n - (p + 1024) + 1023) / 1024 + 1)
          ≡ p + 1024 * ((n - p + 1023) / 1024 + 1) =
        omega arith in
      let all_batches : mark_batch env n0 n1 range_num (n - p) m p ≡ (
          mark_batch env n0 n1 range_num 1024 m p >>= λ m'.
          mark_batch env n0 n1 range_num (n - (p + 1024)) m' (p + 1024)) =
        ap (λ rounds. mark_batch env n0 n1 range_num rounds m p) split
        ∙ mark_batch-add 1024 (n - (p + 1024)) m p in
      let same_result : (m' : Mem)
          → result (n - (p + 1024)) (p + 1024) (done + 1024) m' ≡ result (n - p) p done m' =
        λ m'. rw (count, last) refl in
      then_same (mark_batch env n0 n1 range_num 1024 m p) _ _ (λ m'.
        then_same (mark_batch env n0 n1 range_num (n - (p + 1024)) m' (p + 1024)) _ _ same_result)
      ∙ then_then (mark_batch env n0 n1 range_num 1024 m p) _ (result (n - p) p done)
      ∙ sym (ap (λ x. x >>= result (n - p) p done) all_batches)

  one_pass-last :
      (m : Mem) (p done : ℕ)
      → p < n
      → n ≤ p + 1024
      → (mark_batch env n0 n1 range_num (n - p) m p >>= λ m'.
          one_pass m' (p + 1024) (done + (n - p)))
        ≡ one_pass m p done
  unfolding one_pass
  one_pass-last m p done h end =
      let last : p + 1024 + 1024 ≡ p + 1024 * ((n - p + 1023) / 1024 + 1) = omega arith in
      then_same (mark_batch env n0 n1 range_num (n - p) m p) _ _ (λ m'.
        one_pass-ended m' (p + 1024) (done + (n - p)) end
        ∙ ap (λ after. ok (done + (n - p), after, m')) last)

  one_pass-next :
      (m : Mem) (p done : ℕ)
      → p < n
      → (mark_batch env n0 n1 range_num ((if ltb (p + 1024) n then p + 1024 else n) - p) m p
          >>= λ m'.
              one_pass m' (p + 1024) (done + ((if ltb (p + 1024) n then p + 1024 else n) - p)))
        ≡ one_pass m p done
  one_pass-next m p done h = elim (Bool-cases (ltb (p + 1024) n)) [
    | inl whole ↦
        let size : p + 1024 - p ≡ 1024 = omega arith in
        rw (whole, size) (one_pass-whole m p done h whole)
    | inr short ↦ let end : n ≤ p + 1024 = ground arith in rw short (one_pass-last m p done h end)
  ]

  -- `ScanLoop` on one range, in batches of 1024 from position `p` on: with a round for each batch
  -- and one more it comes to its end, and it does what one pass over the super pages from `p` to
  -- the last does, counts those, and moves the position by 1024 for each batch and once more.
  pub scan_range-eq-one_pass :
      (rounds : ℕ) (m : Mem) (p done : ℕ)
      → n ≤ p + 1024 * rounds
      → p + 1024 * rounds + 1024 < 2 ^ 64
      → scan_range env n0 n1 range_num (suc rounds) m p done ≡ one_pass m p done
  scan_range-eq-one_pass zero m p done enough small =
      scan_range-ended zero m p done (omega arith) (omega arith)
      ∙ sym (one_pass-ended m p done (omega arith))
  scan_range-eq-one_pass (suc rounds) m p done enough small = elim (Bool-cases (leb n p)) [
    | inl ended ↦
        scan_range-ended (suc rounds) m p done (leb→le n p ended) (omega arith)
        ∙ sym (one_pass-ended m p done (leb→le n p ended))
    | inr more ↦
        let below : p < n = ground arith in
        scan_range-next (suc rounds) m p done below (omega arith)
        ∙ then_same (mark_batch env n0 n1 range_num _ m p) _ _ (λ m'.
          scan_range-eq-one_pass rounds m' (p + 1024)
            (done + ((if ltb (p + 1024) n then p + 1024 else n) - p)) (omega arith) (omega arith))
        ∙ one_pass-next m p done below
  ]
