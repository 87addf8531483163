-- ===== src/SuperPage/Find.antt =====
-- `FindByte_Plain`, the search for a byte from a hint on. `cb` is the callback: it may change the
-- memory, and the search ends where it returns true.
use sanitizers.Base.{
  Mem, Outcome, ok, ◌>>◌, trap_if, ltb, leb, ◌==◌, if◌then◌else◌, ℕ, zero, suc, ◌+◌, ◌-◌, Bool,
  Option, none, some,
}

abbrev pub Callback : Type 0
Callback = Mem → ℕ → Bool × Mem

-- The loop, `rounds` values of `i` to go.
unfoldable pub find_from : ℕ → Mem → ℕ → ℕ → ℕ → ℕ → Callback → ℕ → Option ℕ × Mem
find_from zero m bytes value n hint cb i = (none, m)
find_from (suc rounds) m bytes value n hint cb i =
    let idx = if leb n (i + hint) then i + hint - n else i + hint in
    if m (bytes + idx) == value
    then (let (done, m') = cb m idx in
        let rest = find_from rounds m' bytes value n hint cb (i + 1) in
        if done then (some idx, m') else rest)
    else (let rest = find_from rounds m bytes value n hint cb (i + 1) in rest)

-- `none` is the result `-1`.
unfoldable pub find_byte : Mem → ℕ → ℕ → ℕ → ℕ → Callback → Outcome (Option ℕ × Mem)
find_byte m bytes value n hint cb =
    trap_if (ltb n hint) >> ok (find_from n m bytes value n hint cb 0)
