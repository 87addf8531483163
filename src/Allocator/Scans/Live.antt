-- ===== src/Allocator/Scans/Live.antt =====
-- `MarkAllLivePointers` marks every chunk in quarantine that a chunk in use points to.
use sanitizers.Base.{
  Mem, ok, load64, ℕ, zero, suc, ◌+◌, ◌*◌, ◌/◌, ◌≤◌, ◌<◌, ◌≡◌, ◌≢◌, ◌==◌, ==_iff, refl, ◌∙◌, inl,
  inr, false, arith, Bool-cases,
}
use native.Mathlib.Nat.{mul-le-mul_right}
use native.Mathlib.Decide.{ℕ_discrete}
use sanitizers.SizeClass.{SizeClassDescr, chunk_size}
use sanitizers.SuperPage.{Env, states_of, mark_chunks, mark_all_live_pointers}
use sanitizers.SuperPage.State.{used_mixed, marked}
use sanitizers.SuperPage.Chunk.{IsSuperPage, address_of_chunk_lem, in_space}
use sanitizers.Allocator.Scans.Marks.{
  IsState, Advances, Advances-refl, Advances-trans, chunk-not-IsState, IsSuperPage-Advances,
  marked-Advances, true-false,
}
use sanitizers.Allocator.Scans.Pointers.{IsHeap, Freed, state_of, PointsTo, mark_words-Advances}

-- Some word of a chunk in use, of those from chunk `first` on, points to the chunk `v`.
pub record IsReached (env : Env) (m : Mem) (n0 n1 sp : ℕ) (d : SizeClassDescr) (first : ℕ)
    (v : Freed env m n0 n1) : Type 0 where
  pub chunk : ℕ
  pub word : ℕ
  pub from : first ≤ chunk
  pub below : chunk < d.num_chunks
  pub in_use : m (states_of sp d + chunk) ≡ used_mixed
  pub inside : 8 * word + 8 ≤ chunk_size d
  pub points : PointsTo (load64 m (sp + chunk * chunk_size d + 8 * word)) v

succ_le : {a b : ℕ} → a < b → a + 1 ≤ b
succ_le h = omega arith

module _ (env : Env) (m0 : Mem) (n0 n1 : ℕ) (heap : IsHeap env m0 n0 n1) {sp : ℕ}
    {d : SizeClassDescr} (page : IsSuperPage env m0 sp d) where
  used_kept :
      (m : Mem) (p : ℕ)
      → Advances env m0 m0 m
      → m0 (states_of sp d + p) ≡ used_mixed
      → m (states_of sp d + p) ≡ used_mixed
  used_kept m p adv in_use = elim (adv (states_of sp d + p)) [
    | inl same ↦ same ∙ in_use
    | inr (_, was, _) ↦ absurd (omega (arith, was, in_use))
  ]

  chunk_plain :
      (p : ℕ)
      → p < d.num_chunks
      → (a : ℕ) → sp + p * chunk_size d ≤ a
      → a < sp + p * chunk_size d + 8 * ((chunk_size d + 7) / 8)
      → ¬ IsState env m0 a
  chunk_plain p below a lo hi =
      chunk-not-IsState a page (omega (arith, lo))
        (omega (arith, hi, mul-le-mul_right (chunk_size d) (succ_le below)))

  IsReached-later :
      (v : Freed env m0 n0 n1) (idx : ℕ) (r : IsReached env m0 n0 n1 sp d idx v)
      → r.chunk ≢ idx
      → IsReached env m0 n0 n1 sp d (idx + 1) v
  IsReached-later v idx r ne = record {
    chunk = r.chunk;
    word = r.word;
    from = omega (arith, r.from, ne);
    below = r.below;
    in_use = r.in_use;
    inside = r.inside;
    points = r.points;
  }

  -- A chunk that is passed over is in no state that counts as in use.
  not_this :
      (m : Mem) (idx : ℕ)
      → Advances env m0 m0 m
      → (m (states_of sp d + idx) == used_mixed) ≡ false
      → {v : Freed env m0 n0 n1} (r : IsReached env m0 n0 n1 sp d idx v) → r.chunk ≢ idx
  not_this m idx adv unused r now =
      let used = used_kept m idx adv (rw now at r.in_use) in
      true-false ((==_iff (m (states_of sp d + idx)) used_mixed).1 used) unused

  mark_chunks-Advances :
      (rounds : ℕ) (m : Mem) (idx : ℕ)
      → idx + rounds ≡ d.num_chunks
      → Advances env m0 m0 m
      → (m' : Mem) × (mark_chunks env n0 n1 sp d rounds m idx ≡ ok m')
        × Advances env m0 m m'
        × ((v : Freed env m0 n0 n1) → IsReached env m0 n0 n1 sp d idx v → m' (state_of v) ≡ marked)
  unfolding mark_chunks
  mark_chunks-Advances zero m idx e adv =
      (m, refl, Advances-refl env m0 m, λ v r. absurd (omega (arith, r.from, r.below)))
  mark_chunks-Advances (suc rounds) m idx e adv =
      elim (Bool-cases (m (states_of sp d + idx) == used_mixed)) [
        | inr unused ↦
            let (m2, eq, adv2, rest) = mark_chunks-Advances rounds m (idx + 1) (omega arith) adv in
            rw (unused, eq)
              (
                m2,
                refl,
                adv2,
                λ v r. rest v (IsReached-later v idx r (not_this m idx adv unused r)),
              )
        | inl used ↦
            let below : idx < d.num_chunks = omega (arith, e) in
            let (m1, eq1, adv1, first) =
              mark_words-Advances env m0 n0 n1 heap ((chunk_size d + 7) / 8) m
                (sp + idx * chunk_size d) (omega (arith, in_space page.place)) adv
                (chunk_plain idx below) in
            let (m2, eq2, adv2, rest) =
              mark_chunks-Advances rounds m1 (idx + 1) (omega arith)
                (Advances-trans env m0 adv adv1) in
            rw (used, address_of_chunk_lem page.place idx below, eq1, eq2)
              (
                m2,
                refl,
                Advances-trans env m0 adv1 adv2,
                λ v r. elim (ℕ_discrete r.chunk idx) [
                  | no later ↦ rest v (IsReached-later v idx r later)
                  | yes now ↦
                      let points' : PointsTo (load64 m0 (sp + idx * chunk_size d + 8 * r.word)) v =
                        rw now at r.points in
                      marked-Advances (state_of v) adv2
                        (first v r.word (omega (arith, r.inside)) points')
                ],
              )
      ]

  -- `MarkAllLivePointers` on a super page, with every pointer of a chunk in use.
  pub mark_all_live_pointers-Advances :
      (m : Mem)
      → Advances env m0 m0 m
      → (m' : Mem) × (mark_all_live_pointers env m sp n0 n1 ≡ ok m')
        × Advances env m0 m m'
        × ((v : Freed env m0 n0 n1) → IsReached env m0 n0 n1 sp d 0 v → m' (state_of v) ≡ marked)
  unfolding mark_all_live_pointers
  mark_all_live_pointers-Advances m adv =
      let s = IsSuperPage-Advances adv page in
      let (m', eq, adv', all) = mark_chunks-Advances d.num_chunks m 0 (omega arith) adv in
      rw (s.class, eq) (m', refl, adv', all)
