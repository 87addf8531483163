-- ===== src/SuperPage/Pext.antt =====
-- `FindByte_PEXT` of memtagmalloc/src/mtmalloc.h, the search for a byte on x86-64, eight bytes at a
-- time. `pext` is the instruction behind `_pext_u64`.
pub mod Bits
pub mod Search
pub mod Alloc
use sanitizers.Base.{
  Mem, load64, Outcome, ok, ◌>>◌, check, trap_if, ltb, leb, ◌==◌, if◌then◌else◌, not64, bit_and, ℕ,
  zero, suc, ◌+◌, ◌-◌, ◌/◌, ◌^◌, Option, none, some,
}
use sanitizers.Util.{round_up_to, round_down_to, ctz_below}
use sanitizers.SuperPage.Find.{Callback}

abbrev pub Pext : Type 0
Pext = ℕ → ℕ → ℕ

-- `while (Mask)`, for `rounds` bits at most.
unfoldable pub scan_mask : ℕ → Mem → ℕ → ℕ → Callback → ℕ → Option ℕ × Mem
scan_mask zero m n idx cb mask = (none, m)
scan_mask (suc rounds) m n idx cb mask =
    let bit_idx = ctz_below 64 mask in
    let pos = idx + bit_idx in
    let (done, m') = cb m pos in
    let rest = scan_mask rounds m' n idx cb (bit_and mask (not64 (2 ^ bit_idx))) in
    if mask == 0
    then (none, m)
    else if leb n pos
    then (none, m)
    else if done
    then (some pos, m')
    else rest

-- What a tuple gave, or what the next ones give.
unfoldable pub or_next : Option ℕ × Mem → (Mem → Option ℕ × Mem) → Option ℕ × Mem
or_next (some p, m) next = (some p, m)
or_next (none, m) next = next m

-- A bit for each byte of a tuple whose lowest bit is 0.
unfoldable pub mask_of : Pext → ℕ → ℕ
mask_of pext tuple = bit_and (not64 (pext tuple 0x0101_0101_0101_0101)) 255

-- The loop over the tuples, `rounds` of them from `i` on.
unfoldable pub find_tuples : Pext → ℕ → Mem → ℕ → ℕ → ℕ → ℕ → Callback → ℕ → Option ℕ × Mem
find_tuples pext zero m bytes n n_rounded hint cb i = (none, m)
find_tuples pext (suc rounds) m bytes n n_rounded hint cb i =
    let idx = if leb n_rounded (i + hint) then i + hint - n_rounded else i + hint in
    or_next (scan_mask 8 m n idx cb (mask_of pext (load64 m (bytes + idx))))
      (λ m'. find_tuples pext rounds m' bytes n n_rounded hint cb (i + 8))

unfoldable pub find_byte_pext : Pext → Mem → ℕ → ℕ → ℕ → ℕ → Callback → Outcome (Option ℕ × Mem)
find_byte_pext pext m bytes value n start_pos_hint cb =
    let n_rounded = round_up_to n 8 in
    let hint = round_down_to start_pos_hint 8 in
    check (value == 0)
    >> trap_if (ltb n start_pos_hint)
    >> ok (find_tuples pext ((n + 7) / 8) m bytes n n_rounded hint cb 0)
