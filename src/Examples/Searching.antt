-- ===== src/Examples/Searching.antt =====
-- The search on x86-64, with the instruction as a function.
use native.Mathlib.Nat.{mod-lt}
use sanitizers.Base.{
  Mem, ok, ℕ, zero, suc, ◌+◌, ◌*◌, ◌/◌, ◌%◌, ◌^◌, ◌<◌, ◌≡◌, refl, inl, arith, Option, false,
}
use sanitizers.SuperPage.{try_pos}
use sanitizers.SuperPage.State.{available, used_mixed}
use sanitizers.SuperPage.Search.{Searched}
use sanitizers.SuperPage.Pext.{Pext, find_byte_pext}
use sanitizers.SuperPage.Pext.Bits.{IsPext}
use sanitizers.SuperPage.Pext.Alloc.{try_allocate_pext, try_allocate_pext-Allocated}
use sanitizers.SuperPage.Alloc.{Allocated}
use sanitizers.SuperPage.Pext.Search.{find_byte_pext-Searched}
use sanitizers.Examples.Pages.{fresh, env, d, sp, sp-IsPlaced}

-- Bit `8 * k` of a word.
bit : ℕ → ℕ → ℕ
bit t k = t / 2 ^ (8 * k) % 2

abbrev gather : Pext
gather t mask =
    bit t 0
    + 2
      * (bit t 1
          + 2
            * (bit t 2
                + 2 * (bit t 3 + 2 * (bit t 4 + 2 * (bit t 5 + 2 * (bit t 6 + 2 * bit t 7))))))

small : (t k : ℕ) → bit t k < 2
unfolding bit
small t k = mod-lt (t / 2 ^ (8 * k)) (omega arith)

gathered : (t k : ℕ) → k < 8 → gather t 0x0101_0101_0101_0101 / 2 ^ k % 2 ≡ bit t k
gathered t zero lt =
    omega (
      arith,
      small t 0,
      small t 1,
      small t 2,
      small t 3,
      small t 4,
      small t 5,
      small t 6,
      small t 7,
    )
gathered t (suc zero) lt =
    omega (
      arith,
      small t 0,
      small t 1,
      small t 2,
      small t 3,
      small t 4,
      small t 5,
      small t 6,
      small t 7,
    )
gathered t (suc (suc zero)) lt =
    omega (
      arith,
      small t 0,
      small t 1,
      small t 2,
      small t 3,
      small t 4,
      small t 5,
      small t 6,
      small t 7,
    )
gathered t (suc (suc (suc zero))) lt =
    omega (
      arith,
      small t 0,
      small t 1,
      small t 2,
      small t 3,
      small t 4,
      small t 5,
      small t 6,
      small t 7,
    )
gathered t (suc (suc (suc (suc zero)))) lt =
    omega (
      arith,
      small t 0,
      small t 1,
      small t 2,
      small t 3,
      small t 4,
      small t 5,
      small t 6,
      small t 7,
    )
gathered t (suc (suc (suc (suc (suc zero))))) lt =
    omega (
      arith,
      small t 0,
      small t 1,
      small t 2,
      small t 3,
      small t 4,
      small t 5,
      small t 6,
      small t 7,
    )
gathered t (suc (suc (suc (suc (suc (suc zero)))))) lt =
    omega (
      arith,
      small t 0,
      small t 1,
      small t 2,
      small t 3,
      small t 4,
      small t 5,
      small t 6,
      small t 7,
    )
gathered t (suc (suc (suc (suc (suc (suc (suc zero))))))) lt =
    omega (
      arith,
      small t 0,
      small t 1,
      small t 2,
      small t 3,
      small t 4,
      small t 5,
      small t 6,
      small t 7,
    )
gathered t (suc (suc (suc (suc (suc (suc (suc (suc k)))))))) lt = absurd (omega (arith, lt))

gather-IsPext : IsPext gather
unfolding bit
gather-IsPext = record {
  eight = λ t. omega (
    arith,
    small t 0,
    small t 1,
    small t 2,
    small t 3,
    small t 4,
    small t 5,
    small t 6,
    small t 7,
  );
  gathers = λ t k lt. gathered t k lt;
}

find_byte_pext-Searched_example :
    (r : Option ℕ × Mem) × (find_byte_pext gather fresh 4096 available 20 3
        (λ m pos. try_pos m 4096 used_mixed pos)
      ≡ ok r)
    × Searched fresh 4096 20 used_mixed r
find_byte_pext-Searched_example =
    find_byte_pext-Searched gather gather-IsPext fresh 4096 20 used_mixed (λ b. omega arith)
      (λ p lt. inl refl) 3 (omega arith) (omega arith)

try_allocate_pext-Allocated_example :
    (out : Option ℕ × ℕ × Mem) × (try_allocate_pext gather env fresh false d 3 sp ≡ ok out)
    × Allocated env fresh d 3 sp used_mixed out
try_allocate_pext-Allocated_example =
    try_allocate_pext-Allocated gather gather-IsPext env fresh false 3 sp-IsPlaced (omega arith)
      (λ b. omega arith) (λ p lt. inl refl)
