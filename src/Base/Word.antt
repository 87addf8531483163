-- ===== src/Base/Word.antt =====
-- Machine words as native numbers: unsigned wrap by `%`, shifts by `/` and `*`.
use Prim.Native.Nat.{ℕ, ◌+◌, ◌-◌, ◌*◌, ◌/◌, ◌%◌, ◌^◌}

abbrev pub u8 : ℕ → ℕ
u8 a = a % 2 ^ 8

abbrev pub u32 : ℕ → ℕ
u32 a = a % 2 ^ 32

abbrev pub u64 : ℕ → ℕ
u64 a = a % 2 ^ 64

-- `size_t` operations on values below 2 ^ 64.
abbrev pub add64 : ℕ → ℕ → ℕ
add64 a b = (a + b) % 2 ^ 64

abbrev pub sub64 : ℕ → ℕ → ℕ
sub64 a b = (a + 2 ^ 64 - b) % 2 ^ 64

abbrev pub mul64 : ℕ → ℕ → ℕ
mul64 a b = a * b % 2 ^ 64

abbrev pub not64 : ℕ → ℕ
not64 a = 2 ^ 64 - 1 - a

abbrev pub shl64 : ℕ → ℕ → ℕ
shl64 a k = a * 2 ^ k % 2 ^ 64

abbrev pub shr : ℕ → ℕ → ℕ
shr a k = a / 2 ^ k
