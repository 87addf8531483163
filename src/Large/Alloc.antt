-- ===== src/Large/Alloc.antt =====
-- `Allocate` of the large allocator, for mappings that the system call may return.
use sanitizers.Base.{
  inl, inr, add64, ◌==◌, trap, List, pow_join, ap, ◌*◌, Mem, ok, ltb, leb, sub64, ℕ, ◌+◌, ◌-◌, ◌%◌,
  ◌^◌, ◌≤◌, ◌<◌, ◌≡◌, refl, sym, ◌∙◌, ◌⊎◌, Bool, true, not, ◌&&◌, ◌++◌, arith,
}
use sanitizers.Util.{round_up_to}
use sanitizers.Util.Rounding.{round_up_to_bounds}
use sanitizers.Large.{
  Mmap, mapping_length, large_allocate, place, write_header, slack, slack_for_alignment,
  effective_alignment, large_chunk_size, large_deallocate,
}
use sanitizers.Large.Headers.{write_header_lem}
use sanitizers.Large.Placing.{covers, slacks-covers, place_lem}
use native.Mathlib.Nat.{pow-le-pow_right, mul-mod_right, dvd_of_mod-eq-zero, mod-mod_of_dvd}

-- The address that `mmap` returns for `n` bytes: `MAP_FAILED`, or a page that begins a range of
-- user addresses.
pub data IsMapping (n : ℕ) : ℕ → Type 0 where
  failed : IsMapping n (2 ^ 64 - 1)
  mapped : (start : ℕ) → start % 2 ^ 12 ≡ 0 → start + n ≤ 2 ^ 56 → IsMapping n start

-- The alignments that a caller gives, and the exponent of the one that is used.
pub data IsAlignment : ℕ → ℕ → Type 0 where
  page : {given : ℕ} → given ≤ 2 ^ 12 → IsAlignment given 12
  power : {k : ℕ} → 12 ≤ k → k ≤ 46 → IsAlignment (2 ^ k) k

page_le : (k : ℕ) → 12 ≤ k → 2 ^ 12 ≤ 2 ^ k
page_le k h = pow-le-pow_right {n = 2} (omega arith) h

pow_le46 : (k : ℕ) → k ≤ 46 → 2 ^ k ≤ 2 ^ 46
pow_le46 k h = pow-le-pow_right {n = 2} (omega arith) h

page-divides : (k x : ℕ) → 12 ≤ k → x % 2 ^ k ≡ 0 → x % 2 ^ 12 ≡ 0
page-divides k x h e =
    let at_zero : x % 2 ^ k % 2 ^ 12 ≡ 0 = rw e refl in
    sym (mod-mod_of_dvd (2 ^ 12) x (dvd_of_mod-eq-zero (2 ^ 12) divides)) ∙ at_zero
  where
    split : 2 ^ k ≡ 2 ^ 12 * 2 ^ (k - 12)
    split = let e : k ≡ 12 + (k - 12) = omega arith in ap (λ j. 2 ^ j) e ∙ pow_join 12 (k - 12)

    divides : 2 ^ k % 2 ^ 12 ≡ 0
    divides = rw split (mul-mod_right (2 ^ 12) (2 ^ (k - 12)))

effective_alignment_lem :
    {given k : ℕ} → IsAlignment given k → (effective_alignment given ≡ 2 ^ k) × (12 ≤ k) × (k ≤ 46)
unfolding effective_alignment
effective_alignment_lem (page {given} h) = (ground arith, omega arith, omega arith)
effective_alignment_lem (power {k} h h') = let low = page_le k h in (ground arith, h, h')

slack_for_alignment_lem :
    (w k : ℕ)
    → 12 ≤ k
    → k ≤ 46
    → w ≤ 2 ^ 47
    → ((2 ^ k ≡ 2 ^ 12) × (slack_for_alignment w (2 ^ k) ≡ w))
      ⊎ (slack_for_alignment w (2 ^ k) ≡ w + 2 ^ k)
unfolding slack_for_alignment
slack_for_alignment_lem w k h h' small =
    let low = page_le k h in let high = pow_le46 k h' in ground arith

ret_lem :
    (start k : ℕ)
    → 12 ≤ k
    → k ≤ 46
    → start % 2 ^ 12 ≡ 0
    → start ≤ 2 ^ 56
    → (round_up_to (start + 1) (2 ^ k) % 2 ^ k ≡ 0)
      × (round_up_to (start + 1) (2 ^ k) % 2 ^ 12 ≡ 0)
      × (start + 2 ^ 12 ≤ round_up_to (start + 1) (2 ^ k))
      × (round_up_to (start + 1) (2 ^ k) ≤ start + 2 ^ k)
ret_lem start k h h' aligned small =
    let (lower, upper, whole) =
      round_up_to_bounds k (start + 1) (omega arith) (omega (arith, pow_le46 k h')) in
    let whole_page = page-divides k (round_up_to (start + 1) (2 ^ k)) h whole in
    (whole, whole_page, omega arith, omega arith)

-- A chunk for `size` bytes at alignment `2 ^ k`, in the mapping of `n` bytes at `start`, in terms
-- of the result of `Allocate`: the pointer, the ranges given back and the memory.
pub record Placed (start n size k : ℕ) (ret : ℕ) (cut : List (ℕ × ℕ)) (m : Mem) : Type 0 where
  pub usable : ℕ
  pub usable_lower : size ≤ usable
  pub usable_upper : usable < size + 2 ^ 12
  pub aligned : ret % 2 ^ k ≡ 0
  pub aligned_page : ret % 2 ^ 12 ≡ 0
  pub header_in : start + 2 ^ 12 ≤ ret
  pub end_in : ret + usable ≤ start + n
  pub given_back :
      (a : ℕ)
      → covers cut a
        ≡ ((leb start a && ltb a (start + n)) && not (leb (ret - 2 ^ 12) a && ltb a (ret + usable)))
  pub chunk_size : large_chunk_size m ret ≡ ok usable
  pub released :
      (protect : Bool)
      → large_deallocate m ret protect ≡ ok (ret - 2 ^ 12, usable + 2 ^ 12, protect)

-- The placement from the numbers alone: `usable` is the rounded size, `ret` the pointer.
slack-Placed :
    (start n size k usable ret : ℕ) (m : Mem)
    → (size ≤ usable) × (usable < size + 2 ^ 12) × (usable ≤ 2 ^ 47)
    → (ret % 2 ^ k ≡ 0) × (ret % 2 ^ 12 ≡ 0) × (start + 2 ^ 12 ≤ ret)
    → ret + usable ≤ start + n
    → start + n ≤ 2 ^ 56
    → Placed start n size k ret
        (slack start (ret - 2 ^ 12) ++ slack (ret + usable) (start + n))
        (write_header m (ret - 2 ^ 12) (usable + 2 ^ 12))
slack-Placed start n size k usable ret m (low, high, small) (whole, whole_page, above) inside top =
    record {
      usable = usable;
      usable_lower = low;
      usable_upper = high;
      aligned = whole;
      aligned_page = whole_page;
      header_in = above;
      end_in = inside;
      given_back = λ a.
          slacks-covers start (ret - 2 ^ 12) (ret + usable) (start + n) a (omega arith)
            (omega arith) inside (omega arith);
      chunk_size = chunk;
      released = λ protect.
          rw back at
            (write_header_lem m (ret - 2 ^ 12) (usable + 2 ^ 12) protect (omega arith)
              (omega arith)).1;
    }
  where
    back : ret - 2 ^ 12 + 2 ^ 12 ≡ ret
    back = omega arith

    chunk : large_chunk_size (write_header m (ret - 2 ^ 12) (usable + 2 ^ 12)) ret ≡ ok usable
    chunk =
        let whole_size : sub64 (usable + 2 ^ 12) (2 ^ 12) ≡ usable = omega arith in
        rw (back, whole_size) at
          (write_header_lem m (ret - 2 ^ 12) (usable + 2 ^ 12) true (omega arith) (omega arith)).0

place-Placed :
    (start size k n alignment : ℕ) (m : Mem)
    → size ≤ 2 ^ 46
    → alignment ≡ 2 ^ k
    → 12 ≤ k
    → k ≤ 46
    → n ≡ slack_for_alignment (add64 (round_up_to size (2 ^ 12)) (2 ^ 12)) alignment
    → start % 2 ^ 12 ≡ 0
    → start + n ≤ 2 ^ 56
    → (ret : ℕ) × (cut : List (ℕ × ℕ)) × (m' : Mem) × (place alignment
          (round_up_to size (2 ^ 12))
          n
          start
          m
        ≡ ok (ret, cut, m'))
      × Placed start n size k ret cut m'
place-Placed start size k n alignment m small e h h' length aligned top =
    let usable = round_up_to size (2 ^ 12) in
    let (lower, upper, _) = round_up_to_bounds 12 size (omega arith) (omega arith) in
    let ret = round_up_to (start + 1) (2 ^ k) in
    let (whole, whole_page, above, near) = ret_lem start k h h' aligned (omega arith) in
    let header : add64 usable (2 ^ 12) ≡ usable + 2 ^ 12 = omega arith in
    let slacks = slack_for_alignment_lem (usable + 2 ^ 12) k h h' (omega arith) in
    let length' : n ≡ slack_for_alignment (usable + 2 ^ 12) (2 ^ k) = rw (header, e) at length in
    let inside : ret + usable ≤ start + n = omega arith in
    rw e (
      _,
      _,
      _,
      place_lem (2 ^ k) usable n start ret m refl above inside top,
      slack-Placed start n size k usable ret m (lower, upper, omega arith)
          (whole, whole_page, above) inside top,
    )

IsMapping-cases :
    {n start : ℕ}
    → IsMapping n start
    → (start ≡ 2 ^ 64 - 1) ⊎ ((start % 2 ^ 12 ≡ 0) × (start + n ≤ 2 ^ 56))
IsMapping-cases failed = inl refl
IsMapping-cases (mapped start aligned top) = inr (aligned, top)

place-trap :
    (alignment usable n start : ℕ) (m : Mem)
    → start ≡ 2 ^ 64 - 1
    → place alignment usable n start m ≡ trap
unfolding place
place-trap alignment usable n start m e =
    let f : (start == 2 ^ 64 - 1) ≡ true = ground arith in rw f refl

-- `Allocate` of at most 2 ^ 46 bytes, at an alignment up to a page or a power of two up to
-- 2 ^ 46, traps if `mmap` fails and otherwise passes its assertions. Then the pointer is aligned,
-- a page above the start of the mapping or more; the usable bytes, the size rounded up to pages,
-- lie in the mapping; the ranges given back are, address by address, what the mapping holds beside
-- the header page and the usable bytes; `GetPtrChunkSize` returns the number of usable bytes, and
-- `Deallocate` gives back the header page and those bytes.
pub large_allocate-Placed :
    (mmap : Mmap) (m : Mem) {size given k : ℕ}
    → size ≤ 2 ^ 46
    → IsAlignment given k
    → IsMapping (mapping_length size given) ((mmap m (mapping_length size given)).0)
    → (((mmap m (mapping_length size given)).0 ≡ 2 ^ 64 - 1)
        × (large_allocate mmap m size given ≡ trap))
      ⊎ ((ret : ℕ) × (cut : List (ℕ × ℕ)) × (m' : Mem) × (large_allocate mmap m size given
            ≡ ok (ret, cut, m'))
          × Placed
              ((mmap m (mapping_length size given)).0)
              (mapping_length size given)
              size
              k
              ret
              cut
              m')
unfolding large_allocate mapping_length
large_allocate-Placed mmap m {size} {given} {k} small alignment law =
    let (e, h, h') = effective_alignment_lem alignment in
    let n = mapping_length size given in
    let start = (mmap m n).0 in
    let m' = (mmap m n).1 in
    elim (IsMapping-cases law) [
      | inl no_memory ↦ inl (
        no_memory,
        place-trap (effective_alignment given) (round_up_to size (2 ^ 12)) n start m' no_memory,
      )
      | inr ok_map ↦ inr (
          place-Placed start size k n (effective_alignment given) m' small e h h' refl ok_map.0
            ok_map.1)
    ]
