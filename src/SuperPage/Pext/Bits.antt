-- ===== src/SuperPage/Pext/Bits.antt =====
-- The mask of `FindByte_PEXT`.
use sanitizers.Base.{
  Mem, load64, every_below, every_below_lem, ltb, leb, ◌==◌, ==_iff, not64, bit_and,
  bit_and-low_mask, ℕ, zero, suc, ◌+◌, ◌*◌, ◌-◌, ◌/◌, ◌%◌, ◌^◌, ◌<◌, ◌≡◌, ◌≢◌, refl, ◌∙◌, Bool,
  true, false, ◌&&◌, ◌||◌, arith, lt→leb, ltb→lt,
}
use sanitizers.Util.{ctz_below}
use sanitizers.SuperPage.Pext.{Pext, mask_of}

-- What `_pext_u64` is documented to do for this mask: bit `k` of the result is bit `8 * k`, and there
-- are eight of them.
pub record IsPext (pext : Pext) : Type 0 where
  pub eight : (t : ℕ) → pext t 0x0101_0101_0101_0101 < 2 ^ 8
  pub gathers : (t k : ℕ) → k < 8 → pext t 0x0101_0101_0101_0101 / 2 ^ k % 2 ≡ t / 2 ^ (8 * k) % 2

abbrev lowest_bit : ℕ → Bool
lowest_bit mask =
    let b = ctz_below 64 mask in
    (mask == 0)
    || (ltb b 8
        && ((mask / 2 ^ b % 2 == 1) && every_below 8 (λ j. leb b j || (mask / 2 ^ j % 2 == 0))))

table_lowest : every_below 256 lowest_bit ≡ true
unfolding ctz_below
table_lowest = refl

not_zero : (n : ℕ) → n ≢ 0 → (n == 0) ≡ false
not_zero n h = ground arith

three :
    {w x y z : Bool}
    → w ≡ false
    → (w || (x && (y && z))) ≡ true
    → (x ≡ true) × (y ≡ true) × (z ≡ true)
three e h = ground arith

zero_below :
    (b j mask : ℕ) → j < b → (leb b j || (mask / 2 ^ j % 2 == 0)) ≡ true → mask / 2 ^ j % 2 ≡ 0
zero_below b j mask lt e =
    let later : leb b j ≡ false = lt→leb b j lt in (==_iff _ _).0 (rw later at e)

-- The lowest bit of a mask that is set.
pub ctz_lowest :
    (mask : ℕ)
    → mask < 256
    → mask ≢ 0
    → (ctz_below 64 mask < 8)
      × (mask / 2 ^ ctz_below 64 mask % 2 ≡ 1)
      × ((j : ℕ) → j < ctz_below 64 mask → mask / 2 ^ j % 2 ≡ 0)
ctz_lowest mask small nonzero =
    let all = every_below_lem 256 lowest_bit mask table_lowest small in
    let none_zero : (mask == 0) ≡ false = not_zero mask nonzero in
    let (below, one, zeros) = three none_zero all in
    (
      ltb→lt _ _ below,
      (==_iff _ _).0 one,
      λ j lt. zero_below (ctz_below 64 mask) j mask lt (
          every_below_lem 8 (λ j. leb (ctz_below 64 mask) j || (mask / 2 ^ j % 2 == 0)) j zeros
            (omega (arith, lt, ltb→lt _ _ below))),
    )

abbrev complement_bits : ℕ → Bool
complement_bits g = every_below 8 (λ k. (255 - g) / 2 ^ k % 2 == 1 - g / 2 ^ k % 2)

table_complement : every_below 256 complement_bits ≡ true
table_complement = refl

complement_bit : (g k : ℕ) → g < 256 → k < 8 → (255 - g) / 2 ^ k % 2 ≡ 1 - g / 2 ^ k % 2
complement_bit g k small lt = (==_iff _ _).0 (
    every_below_lem 8 (λ k. (255 - g) / 2 ^ k % 2 == 1 - g / 2 ^ k % 2) k
      (every_below_lem 256 complement_bits g table_complement small) lt)

byte_parity :
    (m : Mem) (a k : ℕ)
    → ((b : ℕ) → m b < 2 ^ 8)
    → k < 8
    → load64 m a / 2 ^ (8 * k) % 2 ≡ m (a + k) % 2
unfolding load64
byte_parity m a zero bytes lt =
    let e : a + 0 ≡ a = omega arith in
    rw e (
      omega (
        arith,
        bytes a,
        bytes (a + 1),
        bytes (a + 2),
        bytes (a + 3),
        bytes (a + 4),
        bytes (a + 5),
        bytes (a + 6),
        bytes (a + 7),
      ))
byte_parity m a (suc zero) bytes lt = omega (
  arith,
  bytes a,
  bytes (a + 1),
  bytes (a + 2),
  bytes (a + 3),
  bytes (a + 4),
  bytes (a + 5),
  bytes (a + 6),
  bytes (a + 7),
)
byte_parity m a (suc (suc zero)) bytes lt = omega (
  arith,
  bytes a,
  bytes (a + 1),
  bytes (a + 2),
  bytes (a + 3),
  bytes (a + 4),
  bytes (a + 5),
  bytes (a + 6),
  bytes (a + 7),
)
byte_parity m a (suc (suc (suc zero))) bytes lt = omega (
  arith,
  bytes a,
  bytes (a + 1),
  bytes (a + 2),
  bytes (a + 3),
  bytes (a + 4),
  bytes (a + 5),
  bytes (a + 6),
  bytes (a + 7),
)
byte_parity m a (suc (suc (suc (suc zero)))) bytes lt = omega (
  arith,
  bytes a,
  bytes (a + 1),
  bytes (a + 2),
  bytes (a + 3),
  bytes (a + 4),
  bytes (a + 5),
  bytes (a + 6),
  bytes (a + 7),
)
byte_parity m a (suc (suc (suc (suc (suc zero))))) bytes lt = omega (
  arith,
  bytes a,
  bytes (a + 1),
  bytes (a + 2),
  bytes (a + 3),
  bytes (a + 4),
  bytes (a + 5),
  bytes (a + 6),
  bytes (a + 7),
)
byte_parity m a (suc (suc (suc (suc (suc (suc zero)))))) bytes lt = omega (
  arith,
  bytes a,
  bytes (a + 1),
  bytes (a + 2),
  bytes (a + 3),
  bytes (a + 4),
  bytes (a + 5),
  bytes (a + 6),
  bytes (a + 7),
)
byte_parity m a (suc (suc (suc (suc (suc (suc (suc zero))))))) bytes lt = omega (
  arith,
  bytes a,
  bytes (a + 1),
  bytes (a + 2),
  bytes (a + 3),
  bytes (a + 4),
  bytes (a + 5),
  bytes (a + 6),
  bytes (a + 7),
)
byte_parity m a (suc (suc (suc (suc (suc (suc (suc (suc k)))))))) bytes lt =
    absurd (omega (arith, lt))

-- A bit of the mask says that the lowest bit of its byte is 0.
pub mask_of-bits :
    (pext : Pext) (m : Mem) (a k : ℕ)
    → IsPext pext
    → ((b : ℕ) → m b < 2 ^ 8)
    → k < 8
    → (mask_of pext (load64 m a) < 256)
      × (mask_of pext (load64 m a) / 2 ^ k % 2 ≡ 1 - m (a + k) % 2)
unfolding mask_of
mask_of-bits pext m a k p bytes lt =
    let g = pext (load64 m a) 0x0101_0101_0101_0101 in
    let small : g < 256 = p.eight (load64 m a) in
    let e : bit_and (not64 g) 255 ≡ 255 - g = bit_and-low_mask 8 (not64 g) ∙ omega arith in
    rw (e, complement_bit g k small lt, p.gathers (load64 m a) k lt, byte_parity m a k bytes lt)
      (omega arith, refl)
