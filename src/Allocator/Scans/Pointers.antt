-- ===== src/Allocator/Scans/Pointers.antt =====
-- The words of memory that `MarkAllLivePointers` takes for pointers.
use sanitizers.Base.{
  Mem, ok, load64, ℕ, zero, suc, ◌+◌, ◌*◌, ◌-◌, ◌^◌, ◌≤◌, ◌<◌, ◌≡◌, if◌then◌else◌, refl, inl, inr,
  arith, Bool-cases,
}
use native.Mathlib.Decide.{ℕ_discrete}
use sanitizers.Layout.{super_page_size}
use sanitizers.Util.{round_down_to}
use sanitizers.SizeClass.{SizeClassDescr}
use sanitizers.SuperPage.{Env, states_of, mark, mark_words}
use sanitizers.SuperPage.State.{marked}
use sanitizers.SuperPage.Chunk.{IsSuperPage, chunk_end}
use sanitizers.Allocator.Allocate.Pages.{range_capacity, page_at}
use sanitizers.Allocator.Scans.Marks.{
  IsState, Advances, Advances-refl, Advances-trans, same_class, InQuarantine, InQuarantine-Advances,
  marked-Advances, PointsInto, mark-Advances,
}
use sanitizers.Allocator.Scans.Ranges.{
  pages_of, is_outside, InPage, inside_page, outside_page, start_of_page, same_page,
}

-- Each index below the number of a range is a super page of some class, and above the shadows
-- stand bytes.
pub record IsHeap (env : Env) (m : Mem) (n0 n1 : ℕ) : Type 0 where
  pub few0 : n0 ≤ range_capacity
  pub few1 : n1 ≤ range_capacity
  pub pages :
      (range_num idx : ℕ)
      → range_num ≤ 1
      → idx < pages_of n0 n1 range_num
      → (d : SizeClassDescr) × IsSuperPage env m (page_at range_num idx) d
  pub bytes : (a : ℕ) → 0x5000_0000_0000 ≤ a → m a < 2 ^ 8

-- A chunk in quarantine.
pub record Freed (env : Env) (m : Mem) (n0 n1 : ℕ) : Type 0 where
  pub range_num : ℕ
  pub idx : ℕ
  pub d : SizeClassDescr
  pub chunk : ℕ
  pub two : range_num ≤ 1
  pub known : idx < pages_of n0 n1 range_num
  pub page : IsSuperPage env m (page_at range_num idx) d
  pub below : chunk < d.num_chunks
  pub in_quarantine : InQuarantine (m (states_of (page_at range_num idx) d + chunk))

abbrev pub state_of : {env : Env} {m : Mem} {n0 n1 : ℕ} → Freed env m n0 n1 → ℕ
state_of v = states_of (page_at v.range_num v.idx) v.d + v.chunk

-- The scan takes a word for an untagged address; one with a tag points to no chunk.
abbrev pub PointsTo : {env : Env} {m : Mem} {n0 n1 : ℕ} → ℕ → Freed env m n0 n1 → Type 0
PointsTo value v = PointsInto (page_at v.range_num v.idx) v.d v.chunk value

load64_bound :
    (m : Mem) (a : ℕ)
    → ((b : ℕ) → 0x5000_0000_0000 ≤ b → m b < 2 ^ 8)
    → 0x5000_0000_0000 ≤ a
    → load64 m a < 2 ^ 64
unfolding load64
load64_bound m a bytes high = omega (
  arith,
  bytes a (omega arith),
  bytes (a + 1) (omega arith),
  bytes (a + 2) (omega arith),
  bytes (a + 3) (omega arith),
  bytes (a + 4) (omega arith),
  bytes (a + 5) (omega arith),
  bytes (a + 6) (omega arith),
  bytes (a + 7) (omega arith),
)

-- What was shown of a super page, for an equal one.
moved_reach :
    {sp sp' : ℕ} {d d' : SizeClassDescr} (m m' : Mem) (value p : ℕ)
    → sp' ≡ sp
    → d' ≡ d
    → ((q : ℕ)
        → PointsInto sp d q value
        → InQuarantine (m (states_of sp d + q))
        → m' (states_of sp d + q) ≡ marked)
    → PointsInto sp' d' p value
    → InQuarantine (m (states_of sp' d' + p))
    → m' (states_of sp' d' + p) ≡ marked
moved_reach m m' value p e e' reaches points in_q =
    rw (e, e') (reaches p (rw (e, e') at points) (rw (e, e') at in_q))

module _ (env : Env) (m0 : Mem) (n0 n1 : ℕ) (heap : IsHeap env m0 n0 n1) where
  point-InPage :
      (v : Freed env m0 n0 n1) (value : ℕ) → PointsTo value v → InPage v.range_num v.idx value
  point-InPage v value (below, low, high) =
      (omega (arith, low), omega (arith, high, chunk_end v.page.place v.chunk below))

  pub few_pages : (r i : ℕ) → i < pages_of n0 n1 r → i < range_capacity
  few_pages r i known = ground (arith, heap.few0, heap.few1)

  -- One value.
  mark_value :
      (m : Mem) (value : ℕ)
      → Advances env m0 m0 m
      → value < 2 ^ 64
      → (m' : Mem) × ((if is_outside n0 n1 value
            then ok m
            else mark env m (round_down_to value super_page_size) value)
          ≡ ok m')
        × Advances env m0 m m'
        × ((v : Freed env m0 n0 n1) → PointsTo value v → m' (state_of v) ≡ marked)
  mark_value m value adv small = elim (Bool-cases (is_outside n0 n1 value)) [
    | inl outside ↦ rw outside (
      m,
      refl,
      Advances-refl env m0 m,
      λ v points. absurd (
          outside_page n0 n1 value v.range_num v.idx heap.few0 heap.few1 outside v.two v.known
            (point-InPage v value points)),
    )
    | inr inside ↦
        let (r, i, two, known, in_page) =
          inside_page n0 n1 value heap.few0 heap.few1 small inside in
        let (d, page) = heap.pages r i two known in
        let few : i < range_capacity = few_pages r i known in
        let (m', eq, adv', reaches) = mark-Advances env m0 m adv page value in_page.0 in_page.1 in
        rw (inside, start_of_page r i value two few in_page)
          (
            m',
            eq,
            adv',
            λ v points.
                let there =
                  same_page v.range_num v.idx r i value v.two two (point-InPage v value points)
                    in_page in
                let moved : IsSuperPage env m0 (page_at r i) v.d = rw there at v.page in
                let class = same_class moved page in
                moved_reach m m' value v.chunk there class reaches points
                  (InQuarantine-Advances (state_of v) adv v.in_quarantine),
          )
  ]

  byte_kept : (m : Mem) (a : ℕ) → Advances env m0 m0 m → ¬ IsState env m0 a → m a ≡ m0 a
  byte_kept m a adv plain = elim (adv a) [
    | inl same ↦ same
    | inr (state, _, _) ↦ absurd (plain state)
  ]

  word_kept :
      (m : Mem) (word : ℕ)
      → Advances env m0 m0 m
      → ((a : ℕ) → word ≤ a → a < word + 8 → ¬ IsState env m0 a)
      → load64 m word ≡ load64 m0 word
  unfolding load64
  word_kept m word adv plain =
      rw
        (
          byte_kept m word adv (plain word (omega arith) (omega arith)),
          byte_kept m (word + 1) adv (plain (word + 1) (omega arith) (omega arith)),
          byte_kept m (word + 2) adv (plain (word + 2) (omega arith) (omega arith)),
          byte_kept m (word + 3) adv (plain (word + 3) (omega arith) (omega arith)),
          byte_kept m (word + 4) adv (plain (word + 4) (omega arith) (omega arith)),
          byte_kept m (word + 5) adv (plain (word + 5) (omega arith) (omega arith)),
          byte_kept m (word + 6) adv (plain (word + 6) (omega arith) (omega arith)),
          byte_kept m (word + 7) adv (plain (word + 7) (omega arith) (omega arith)),
        )
        refl

  -- The words from `word` on, which no state of a chunk is part of.
  pub mark_words-Advances :
      (rounds : ℕ) (m : Mem) (word : ℕ)
      → 0x5000_0000_0000 ≤ word
      → Advances env m0 m0 m
      → ((a : ℕ) → word ≤ a → a < word + 8 * rounds → ¬ IsState env m0 a)
      → (m' : Mem) × (mark_words env n0 n1 rounds m word ≡ ok m')
        × Advances env m0 m m'
        × ((v : Freed env m0 n0 n1) (j : ℕ)
            → j < rounds
            → PointsTo (load64 m0 (word + 8 * j)) v
            → m' (state_of v) ≡ marked)
  unfolding mark_words
  mark_words-Advances zero m word high adv plain =
      (m, refl, Advances-refl env m0 m, λ v j lt. absurd (omega (arith, lt)))
  mark_words-Advances (suc rounds) m word high adv plain =
      let same = word_kept m word adv (λ a lo hi. plain a lo (omega arith)) in
      let (m1, eq1, adv1, first) =
        mark_value m (load64 m word) adv (rw same (load64_bound m0 word heap.bytes high)) in
      let (m2, eq2, adv2, rest) =
        mark_words-Advances rounds m1 (word + 8) (omega arith) (Advances-trans env m0 adv adv1)
          (λ a lo hi. plain a (omega arith) (omega arith)) in
      rw (eq1, eq2)
        (
          m2,
          refl,
          Advances-trans env m0 adv1 adv2,
          λ v j lt points. elim (ℕ_discrete j 0) [
            | yes now ↦
                let here : word + 8 * j ≡ word = omega (arith, now) in
                let points' : PointsTo (load64 m word) v = rw same (rw here at points) in
                marked-Advances (state_of v) adv2 (first v points')
            | no later ↦
                let there : word + 8 * j ≡ word + 8 + 8 * (j - 1) = omega (arith, later) in
                rest v (j - 1) (omega (arith, later, lt)) (rw there at points)
          ],
        )
