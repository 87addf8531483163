-- ===== src/SuperPage/Search.antt =====
-- The search of `TryAllocate`: `FindByte_Plain` with the compare-and-swap as its callback.
use native.Mathlib.Decide.{dec_lt}
use sanitizers.Base.{
  Mem, store8, ok, leb, ◌==◌, if◌then◌else◌, le→ltb, ==_iff, Bool-cases, ℕ, zero, suc, ◌+◌, ◌-◌,
  ◌≤◌, ◌<◌, ◌≡◌, refl, ◌≢◌, inl, inr, Option, none, some, arith,
}
use sanitizers.SuperPage.{available, try_pos}
use sanitizers.SuperPage.State.{available}
use sanitizers.SuperPage.Find.{find_from, find_byte}

-- The index that round `i` looks at.
abbrev wrap : ℕ → ℕ → ℕ → ℕ
wrap n hint i = if leb n (i + hint) then i + hint - n else i + hint

-- What a search over the `n` bytes from `states` on that has `i` rounds behind it may return.
data Found (m : Mem) (states n hint new_state i : ℕ) : Option ℕ × Mem → Type 0 where
  hit :
      (p : ℕ)
      → p < n
      → m (states + p) ≡ available
      → Found m states n hint new_state i (some p, store8 m (states + p) new_state)
  miss :
      ((j : ℕ) → i ≤ j → j < n → m (states + wrap n hint j) ≢ available)
      → Found m states n hint new_state i (none, m)

module _ (m : Mem) (states n hint new_state : ℕ) (in_range : hint ≤ n) where
  earlier :
      (i : ℕ) (r : Option ℕ × Mem)
      → m (states + wrap n hint i) ≢ available
      → Found m states n hint new_state (i + 1) r
      → Found m states n hint new_state i r
  earlier i _ ne (hit p h e) = hit p h e
  earlier i _ ne (miss all) = miss (λ j le lt. elim (dec_lt i j) [
    | yes later ↦ all j (omega arith) lt
    | no now ↦ let same : j ≡ i = omega arith in rw same ne
  ])

  find_from-Found :
      (rounds i : ℕ)
      → i + rounds ≡ n
      → Found m states n hint new_state i
          (find_from rounds m states available n hint (λ m pos. try_pos m states new_state pos) i)
  unfolding find_from try_pos
  find_from-Found zero i e = miss (λ j le lt. absurd (omega arith))
  find_from-Found (suc rounds) i e = elim (Bool-cases (m (states + wrap n hint i) == available)) [
    | inl free ↦ rw free (hit (wrap n hint i) (ground arith) ((==_iff _ _).0 free))
    | inr busy ↦ rw busy (earlier i _ (ground arith) (find_from-Found rounds (i + 1) (omega arith)))
  ]

  -- Every index is looked at in some round.
  round_of : (p : ℕ) → p < n → (j : ℕ) × (j < n) × (wrap n hint j ≡ p)
  round_of p h = elim (dec_lt p hint) [
    | yes below ↦ (p + n - hint, omega arith, ground arith)
    | no above ↦ (p - hint, omega arith, ground arith)
  ]

-- Outcomes of the search as `TryAllocate` sees them.
pub data Searched (m : Mem) (states n new_state : ℕ) : Option ℕ × Mem → Type 0 where
  taken :
      (p : ℕ)
      → p < n
      → m (states + p) ≡ available
      → Searched m states n new_state (some p, store8 m (states + p) new_state)
  none_left :
      ((p : ℕ) → p < n → m (states + p) ≢ available) → Searched m states n new_state (none, m)

-- From a hint in range the search takes an available byte and changes that byte alone, or finds
-- that no byte is available and changes nothing.
pub find_byte-Searched :
    (m : Mem) (states n hint new_state : ℕ)
    → hint ≤ n
    → (r : Option ℕ × Mem) × (find_byte m states available n hint
          (λ m pos. try_pos m states new_state pos)
        ≡ ok r)
      × Searched m states n new_state r
unfolding find_byte
find_byte-Searched m states n hint new_state h =
    rw (le→ltb n hint h)
      (_, refl, conclude _ (find_from-Found m states n hint new_state h n 0 (omega arith)))
  where
    conclude :
        (r : Option ℕ × Mem) → Found m states n hint new_state 0 r → Searched m states n new_state r
    conclude _ (hit p lt e) = taken p lt e
    conclude _ (miss all) = none_left (λ p lt.
        let (j, below, eq) = round_of m states n hint new_state h p lt in
        rw eq at (all j (omega arith) below))
