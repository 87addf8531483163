-- ===== src/SuperPage/Pext/Search.antt =====
-- The search on x86-64 does what the portable one promises.
use native.Mathlib.Nat.{zero-div}
use native.Mathlib.Decide.{dec_lt, ℕ_discrete}
use sanitizers.Base.{
  Mem, store8, load64, ok, leb→le, leb, le→ltb, ◌==◌, if◌then◌else◌, Bool-cases, ℕ, zero, suc, ◌+◌,
  ◌*◌, ◌-◌, ◌/◌, ◌%◌, ◌^◌, ◌≤◌, ◌<◌, ◌≡◌, ◌≢◌, ◌⊎◌, inl, inr, refl, ap, ◌∙◌, false, Option, none,
  some, arith,
}
use sanitizers.Util.{ctz_below, round_up_to, round_down_to}
use sanitizers.Util.Rounding.{round_up_to_lem, round_down_to_lem}
use sanitizers.SuperPage.{available, try_pos}
use sanitizers.SuperPage.State.{available}
use sanitizers.SuperPage.Search.{Searched, taken, none_left}
use sanitizers.SuperPage.Pext.{Pext, scan_mask, or_next, mask_of, find_tuples, find_byte_pext}
use sanitizers.SuperPage.Pext.Bits.{IsPext, ctz_lowest, mask_of-bits}

-- The eight bytes from `idx` on, as far as they are below `n`.
abbrev NoneIn : Mem → ℕ → ℕ → ℕ → Type 0
NoneIn m states n idx = (k : ℕ) → k < 8 → idx + k < n → m (states + (idx + k)) ≢ available

-- What the search of one tuple, or of all tuples from some round on, may return.
data Taken (m : Mem) (states n new_state : ℕ) (Missed : Type 0) : Option ℕ × Mem → Type 0 where
  hit :
      (p : ℕ)
      → p < n
      → m (states + p) ≡ available
      → Taken m states n new_state Missed (some p, store8 m (states + p) new_state)
  miss : Missed → Taken m states n new_state Missed (none, m)

busy_bit : (v b : ℕ) → b ≡ 1 - v % 2 → b ≡ 0 → v ≢ available
busy_bit v b e clear free = omega (arith, e, clear, free)

free_bit : (v b : ℕ) → b ≡ 1 - v % 2 → b ≡ 1 → (v ≡ available) ⊎ (v % 2 ≡ 1) → v ≡ available
free_bit v b e set cases = elim cases [
  | inl free ↦ free
  | inr is_odd ↦ absurd (omega (arith, e, set, is_odd))
]

leb-lt : {a b : ℕ} → leb a b ≡ false → b < a
leb-lt e = ground arith

not_zero : (a : ℕ) → a ≢ 0 → (a == 0) ≡ false
not_zero a h = ground arith

-- The index of the tuple that round `i` looks at.
abbrev wrap : ℕ → ℕ → ℕ → ℕ
wrap n_rounded hint i = if leb n_rounded (i + hint) then i + hint - n_rounded else i + hint

module _ (pext : Pext) (is_pext : IsPext pext) (m : Mem) (states n new_state : ℕ)
    (bytes : (b : ℕ) → m b < 2 ^ 8)
    (odd : (p : ℕ) → p < n → (m (states + p) ≡ available) ⊎ (m (states + p) % 2 ≡ 1)) where
  scan_mask-Taken :
      (idx mask : ℕ)
      → mask < 256
      → ((k : ℕ) → k < 8 → mask / 2 ^ k % 2 ≡ 1 - m (states + (idx + k)) % 2)
      → Taken m states n new_state
          (NoneIn m states n idx)
          (scan_mask 8 m n idx (λ m pos. try_pos m states new_state pos) mask)
  unfolding scan_mask try_pos
  scan_mask-Taken idx mask small bits = elim (ℕ_discrete mask 0) [
    | yes empty ↦ rw empty (
        miss (λ k lt inside free.
          busy_bit (m (states + (idx + k))) (mask / 2 ^ k % 2) (bits k lt)
            (rw empty (ap (λ (x : ℕ). x % 2) (zero-div (2 ^ k)))) free))
    | no some_bit ↦
        let (below, set, clear) = ctz_lowest mask small some_bit in
        let nonzero : (mask == 0) ≡ false = not_zero mask some_bit in
        elim (Bool-cases (leb n (idx + ctz_below 64 mask))) [
          | inl past ↦
              rw (nonzero, past)
                (miss (λ k lt inside free. elim (dec_lt k (ctz_below 64 mask)) [
                  | yes early ↦
                      busy_bit (m (states + (idx + k))) (mask / 2 ^ k % 2) (bits k lt)
                        (clear k early) free
                  | no late ↦ omega (arith, late, inside, leb→le n (idx + ctz_below 64 mask) past)
                ]))
          | inr inside ↦
              let free : m (states + (idx + ctz_below 64 mask)) ≡ available =
                free_bit (m (states + (idx + ctz_below 64 mask))) (mask / 2 ^ ctz_below 64 mask % 2)
                  (bits (ctz_below 64 mask) below) set
                  (odd (idx + ctz_below 64 mask) (leb-lt inside)) in
              rw (nonzero, inside, free) (hit (idx + ctz_below 64 mask) (leb-lt inside) free)
        ]
  ]

  tuple-Taken :
      (idx : ℕ)
      → Taken m states n new_state (NoneIn m states n idx) (
          scan_mask 8 m n idx
            (λ m pos. try_pos m states new_state pos)
            (mask_of pext (load64 m (states + idx))))
  tuple-Taken idx =
      scan_mask-Taken idx (mask_of pext (load64 m (states + idx)))
        (mask_of-bits pext m (states + idx) 0 is_pext bytes (omega arith)).0
        (λ k lt.
          let assoc : states + idx + k ≡ states + (idx + k) = omega arith in
          rw assoc at (mask_of-bits pext m (states + idx) k is_pext bytes lt).1)

  -- No tuple of these rounds has an available byte.
  abbrev NoneFrom : ℕ → ℕ → ℕ → ℕ → Type 0
  NoneFrom n_rounded hint rounds i =
      (j : ℕ) → j < rounds → NoneIn m states n (wrap n_rounded hint (i + 8 * j))

  or_next-Taken :
      (n_rounded hint rounds i : ℕ) (r : Option ℕ × Mem) (next : Mem → Option ℕ × Mem)
      → Taken m states n new_state (NoneIn m states n (wrap n_rounded hint i)) r
      → Taken m states n new_state (NoneFrom n_rounded hint rounds (i + 8)) (next m)
      → Taken m states n new_state (NoneFrom n_rounded hint (suc rounds) i) (or_next r next)
  unfolding or_next
  or_next-Taken n_rounded hint rounds i _ next (hit p lt free) rest = hit p lt free
  or_next-Taken n_rounded hint rounds i _ next (miss first) rest = widen first rest
    where
      widen :
          {r : Option ℕ × Mem}
          → NoneIn m states n (wrap n_rounded hint i)
          → Taken m states n new_state (NoneFrom n_rounded hint rounds (i + 8)) r
          → Taken m states n new_state (NoneFrom n_rounded hint (suc rounds) i) r
      widen first (hit p lt free) = hit p lt free
      widen first (miss others) = miss (λ j lt. elim (ℕ_discrete j 0) [
        | yes now ↦ let here : i + 8 * j ≡ i = omega (arith, now) in rw here first
        | no later ↦
            let there : i + 8 * j ≡ i + 8 + 8 * (j - 1) = omega (arith, later) in
            rw there (others (j - 1) (omega (arith, later, lt)))
      ])

  find_tuples-Taken :
      (n_rounded hint rounds i : ℕ)
      → Taken m states n new_state (NoneFrom n_rounded hint rounds i) (
          find_tuples pext rounds m states n n_rounded hint
            (λ m pos. try_pos m states new_state pos)
            i)
  unfolding find_tuples
  find_tuples-Taken n_rounded hint zero i = miss (λ j lt. absurd (omega (arith, lt)))
  find_tuples-Taken n_rounded hint (suc rounds) i =
      or_next-Taken n_rounded hint rounds i _ _ (tuple-Taken (wrap n_rounded hint i))
        (find_tuples-Taken n_rounded hint rounds (i + 8))

  -- Every tuple is looked at in some round.
  wrap-reaches :
      (n_rounded hint q : ℕ)
      → n_rounded % 8 ≡ 0
      → hint % 8 ≡ 0
      → q % 8 ≡ 0
      → hint ≤ n_rounded
      → q < n_rounded
      → (j : ℕ) × (j < n_rounded / 8) × (wrap n_rounded hint (0 + 8 * j) ≡ q)
  wrap-reaches n_rounded hint q e e' e'' h lt = elim (dec_lt q hint) [
    | yes below ↦ ((q + n_rounded - hint) / 8, omega arith, ground arith)
    | no above ↦ ((q - hint) / 8, omega arith, ground arith)
  ]

  conclude :
      (n_rounded hint : ℕ) (r : Option ℕ × Mem)
      → n_rounded ≡ (n + 7) / 8 * 8
      → hint % 8 ≡ 0
      → hint ≤ n
      → Taken m states n new_state (NoneFrom n_rounded hint ((n + 7) / 8) 0) r
      → Searched m states n new_state r
  conclude n_rounded hint _ e e' h (hit p lt free) = taken p lt free
  conclude n_rounded hint _ e e' h (miss all) = none_left (λ p lt free.
      let (j, below, at_q) =
        wrap-reaches n_rounded hint (p / 8 * 8) (omega (arith, e)) e' (omega arith)
          (omega (arith, e, h)) (omega (arith, e, lt)) in
      let same : p / 8 * 8 + p % 8 ≡ p = omega arith in
      let busy = all j (omega (arith, below, e)) (p % 8) (omega arith) in
      let busy' : p / 8 * 8 + p % 8 < n → m (states + (p / 8 * 8 + p % 8)) ≢ available =
        rw at_q at busy in
      busy' (omega (arith, lt)) (rw same free))

  -- `FindByte_PEXT` does what `FindByte_Plain` promises where the instruction behaves as documented and every byte is
  -- 0 or odd: from a hint in range it takes an available byte and changes that byte alone, or finds
  -- that no byte is available and changes nothing.
  pub find_byte_pext-Searched :
      (hint : ℕ)
      → hint ≤ n
      → n + 8 ≤ 2 ^ 64
      → (r : Option ℕ × Mem) × (find_byte_pext pext m states available n hint
            (λ m pos. try_pos m states new_state pos)
          ≡ ok r)
        × Searched m states n new_state r
  unfolding find_byte_pext
  find_byte_pext-Searched hint h small =
      let up : round_up_to n 8 ≡ (n + 7) / 8 * 8 =
        round_up_to_lem 3 n (omega arith) small ∙ omega arith in
      let down : round_down_to hint 8 ≡ hint / 8 * 8 =
        round_down_to_lem 3 hint (omega arith) (omega arith) in
      rw (le→ltb n hint h) (
        _,
        refl,
        conclude (round_up_to n 8) (round_down_to hint 8) _ up (rw down (omega arith))
            (rw down (omega arith))
            (find_tuples-Taken (round_up_to n 8) (round_down_to hint 8) ((n + 7) / 8) 0),
      )
