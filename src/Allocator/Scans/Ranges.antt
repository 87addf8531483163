-- ===== src/Allocator/Scans/Ranges.antt =====
-- The values that lie in super pages.
use sanitizers.Base.{
  ℕ, ◌+◌, ◌/◌, ◌-◌, ◌^◌, ◌≤◌, ◌<◌, ◌≡◌, ◌==◌, if◌then◌else◌, inl, inr, true, false, ◌&&◌, leb,
  sub64, mul64, arith, Bool, Bool-cases,
}
use native.Mathlib.Decide.{ℕ_discrete}
use sanitizers.Layout.{super_page_size, first_super_page}
use sanitizers.Util.{round_down_to}
use sanitizers.Util.Rounding.{round_down_to_lem}
use sanitizers.Allocator.Allocate.Pages.{range_capacity, page_at}

abbrev pub pages_of : ℕ → ℕ → ℕ → ℕ
pages_of n0 n1 range_num = if range_num == 0 then n0 else n1

-- The test of a value in `MarkAllLivePointers`.
abbrev pub is_outside : ℕ → ℕ → ℕ → Bool
is_outside n0 n1 value =
    leb (mul64 n0 super_page_size) (sub64 value (first_super_page 0))
    && leb (mul64 n1 super_page_size) (sub64 value (first_super_page 1))

-- A value in the super page with an index.
abbrev pub InPage : ℕ → ℕ → ℕ → Type 0
InPage range_num idx value =
    (page_at range_num idx ≤ value) × (value < page_at range_num idx + super_page_size)

pub inside_page :
    (n0 n1 value : ℕ)
    → n0 ≤ range_capacity
    → n1 ≤ range_capacity
    → value < 2 ^ 64
    → is_outside n0 n1 value ≡ false
    → (range_num idx : ℕ) × (range_num ≤ 1)
      × (idx < pages_of n0 n1 range_num)
      × InPage range_num idx value
inside_page n0 n1 value few0 few1 small e =
    elim (Bool-cases (leb (mul64 n0 super_page_size) (sub64 value (first_super_page 0)))) [
      | inr first ↦
          let inside : sub64 value (first_super_page 0) < mul64 n0 super_page_size = ground arith in
          (
            0,
            (value - first_super_page 0) / super_page_size,
            omega arith,
            omega arith,
            (omega arith, omega arith),
          )
      | inl not_first ↦
          let inside : sub64 value (first_super_page 1) < mul64 n1 super_page_size = ground arith in
          (
            1,
            (value - first_super_page 1) / super_page_size,
            omega arith,
            omega arith,
            (omega arith, omega arith),
          )
    ]

pub outside_page :
    (n0 n1 value range_num idx : ℕ)
    → n0 ≤ range_capacity
    → n1 ≤ range_capacity
    → is_outside n0 n1 value ≡ true
    → range_num ≤ 1
    → idx < pages_of n0 n1 range_num
    → ¬ InPage range_num idx value
outside_page n0 n1 value range_num idx few0 few1 e two known (low, high) =
    elim (ℕ_discrete range_num 0) [
      | yes first ↦
          let e0 : (range_num == 0) ≡ true = ground arith in
          let known0 : idx < n0 = rw e0 at known in
          let low0 = rw first at low in let high0 = rw first at high in ground arith
      | no second ↦
          let e1 : range_num ≡ 1 = omega arith in
          let known1 : idx < n1 = rw e1 at known in
          let low0 = rw e1 at low in let high0 = rw e1 at high in ground arith
    ]

pub start_of_page :
    (range_num idx value : ℕ)
    → range_num ≤ 1
    → idx < range_capacity
    → InPage range_num idx value
    → round_down_to value super_page_size ≡ page_at range_num idx
start_of_page range_num idx value two few (low, high) =
    rw (round_down_to_lem 19 value (omega arith) (ground arith)) (ground arith)

pub same_page :
    (r i r' i' value : ℕ)
    → r ≤ 1
    → r' ≤ 1
    → InPage r i value
    → InPage r' i' value
    → page_at r i ≡ page_at r' i'
same_page r i r' i' value two two' (low, high) (low', high') = ground arith
