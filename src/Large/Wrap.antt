-- ===== src/Large/Wrap.antt =====
-- Sizes whose rounding to pages wraps.
use sanitizers.Base.{
  Mem, ok, add64, sub64, ℕ, ◌+◌, ◌-◌, ◌%◌, ◌^◌, ◌≤◌, ◌<◌, ◌≡◌, refl, ◌∙◌, true, List, arith,
}
use sanitizers.Util.{round_up_to, round_down_to}
use sanitizers.Util.Rounding.{round_down_to_lem, round_up_to_bounds}
use sanitizers.Large.{
  Mmap, write_header, slack_for_alignment, effective_alignment, mapping_length, large_allocate,
  large_chunk_size,
}
use sanitizers.Large.Headers.{write_header_lem}
use sanitizers.Large.Placing.{place_lem}

round_up_to-wraps :
    (size : ℕ) → 2 ^ 64 - 2 ^ 12 < size → size < 2 ^ 64 → round_up_to size (2 ^ 12) ≡ 0
unfolding round_up_to round_down_to
round_up_to-wraps size low high =
    let below : sub64 (add64 size (2 ^ 12)) 1 < 2 ^ 12 = omega arith in
    round_down_to_lem 12 (sub64 (add64 size (2 ^ 12)) 1) (omega arith) (omega arith)
    ∙ omega (arith, below)

mapping_length-wraps :
    (size : ℕ) → 2 ^ 64 - 2 ^ 12 < size → size < 2 ^ 64 → mapping_length size (2 ^ 12) ≡ 2 ^ 12
unfolding mapping_length slack_for_alignment effective_alignment
mapping_length-wraps size low high = rw (round_up_to-wraps size low high) refl

page_of :
    (start : ℕ)
    → start % 2 ^ 12 ≡ 0
    → start ≤ 2 ^ 56
    → round_up_to (start + 1) (2 ^ 12) ≡ start + 2 ^ 12
page_of start aligned top =
    let (lower, upper, whole) = round_up_to_bounds 12 (start + 1) (omega arith) (omega arith) in
    omega arith

-- For a size less than a page below 2 ^ 64, where `mmap` gives a page, `Allocate` succeeds without
-- a trap, although the chunk that it returns has no usable byte.
pub large_allocate-wraps :
    (mmap : Mmap) (m : Mem) {size : ℕ}
    → 2 ^ 64 - 2 ^ 12 < size
    → size < 2 ^ 64
    → (mmap m (2 ^ 12)).0 % 2 ^ 12 ≡ 0
    → (mmap m (2 ^ 12)).0 + 2 ^ 12 ≤ 2 ^ 56
    → (ret : ℕ) × (cut : List (ℕ × ℕ)) × (m' : Mem) × (large_allocate mmap m size (2 ^ 12)
        ≡ ok (ret, cut, m'))
      × (large_chunk_size m' ret ≡ ok 0)
unfolding large_allocate effective_alignment
large_allocate-wraps mmap m {size} low high aligned top =
    let start = (mmap m (2 ^ 12)).0 in
    let m' = (mmap m (2 ^ 12)).1 in
    let ret = start + 2 ^ 12 in
    let back : ret - 2 ^ 12 ≡ start = omega arith in
    let placed =
      place_lem (2 ^ 12) 0 (2 ^ 12) start ret m' (page_of start aligned (omega arith)) (omega arith)
        (omega arith) (omega arith) in
    let header = (write_header_lem m' start (2 ^ 12) true (omega arith) (omega arith)).0 in
    let chunk : large_chunk_size (write_header m' (ret - 2 ^ 12) (2 ^ 12)) ret ≡ ok 0 =
      rw back header in
    rw (mapping_length-wraps size low high, round_up_to-wraps size low high)
      (_, _, _, placed, chunk)
