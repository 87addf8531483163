-- ===== src/Base/Memory.antt =====
-- The address space: a byte at each address.
use Prim.Native.Nat.{ℕ, zero, suc, ◌+◌, ◌-◌, ◌*◌, ◌/◌, ◌%◌, ◌^◌, ◌≤◌, ◌<◌}
use mathlib.Core.Path.{◌≡◌, refl}
use mathlib.Core.Bool.{◌&&◌}
use mathlib.Core.Logic.{◌≢◌, ◌⊎◌}
use native.Mathlib.Omega.{arith}
use sanitizers.Base.Tests.{ltb, leb, ◌==◌, if◌then◌else◌}

abbrev pub Mem : Type 0
Mem = ℕ → ℕ

unfoldable pub store8 : Mem → ℕ → ℕ → Mem
store8 m a v b = if b == a then v else m b

pub load-store8 : (m : Mem) (a v b : ℕ) → store8 m a v b ≡ (if b == a then v else m b)
unfolding store8
load-store8 m a v b = refl

pub load-store8_self : (m : Mem) (a v : ℕ) → store8 m a v a ≡ v
unfolding store8
load-store8_self m a v = ground arith

pub load-store8_ne : (m : Mem) (a v b : ℕ) → b ≢ a → store8 m a v b ≡ m b
unfolding store8
load-store8_ne m a v b h = ground arith

-- A function that differs at one argument.
abbrev pub update {ℓ} : {A : Type ℓ} → (ℕ → A) → ℕ → A → ℕ → A
update f i a j = if j == i then a else f j

-- A 64-bit little-endian load.
unfoldable pub load64 : Mem → ℕ → ℕ
load64 m a =
    m a
    + 256
      * (m (a + 1)
          + 256
            * (m (a + 2)
                + 256
                  * (m (a + 3)
                      + 256
                        * (m (a + 4) + 256 * (m (a + 5) + 256 * (m (a + 6) + 256 * m (a + 7)))))))

-- The bytes of a word, from the lowest on.
unfoldable pub nth_byte : ℕ → ℕ → ℕ
nth_byte v zero = v % 256
nth_byte v (suc k) = nth_byte (v / 256) k

-- A 64-bit little-endian store.
unfoldable pub store64 : Mem → ℕ → ℕ → Mem
store64 m a v b = if leb a b && ltb b (a + 8) then nth_byte v (b - a) else m b

digits_of :
    (v : ℕ)
    → v < 2 ^ 64
    → nth_byte v 0
        + 256
          * (nth_byte v 1
              + 256
                * (nth_byte v 2
                    + 256
                      * (nth_byte v 3
                          + 256
                            * (nth_byte v 4
                                + 256
                                  * (nth_byte v 5 + 256 * (nth_byte v 6 + 256 * nth_byte v 7))))))
      ≡ v
unfolding nth_byte
digits_of v h = omega arith

store64_byte : (m : Mem) (a v k : ℕ) → k < 8 → store64 m a v (a + k) ≡ nth_byte v k
unfolding store64
store64_byte m a v k h = let e : a + k - a ≡ k = omega arith in rw e (ground arith)

pub load64-store64_self : (m : Mem) (a v : ℕ) → v < 2 ^ 64 → load64 (store64 m a v) a ≡ v
unfolding load64
load64-store64_self m a v h =
    let first : store64 m a v a ≡ nth_byte v 0 =
      let z : a + 0 ≡ a = omega arith in rw z at (store64_byte m a v 0 (omega arith)) in
    rw
      (
        first,
        store64_byte m a v 1 (omega arith),
        store64_byte m a v 2 (omega arith),
        store64_byte m a v 3 (omega arith),
        store64_byte m a v 4 (omega arith),
        store64_byte m a v 5 (omega arith),
        store64_byte m a v 6 (omega arith),
        store64_byte m a v 7 (omega arith),
      )
      (digits_of v h)

pub load-store64_out : (m : Mem) (a v b : ℕ) → (b < a) ⊎ (a + 8 ≤ b) → store64 m a v b ≡ m b
unfolding store64
load-store64_out m a v b out = ground arith

pub load64-store64_ne :
    (m : Mem) (a v b : ℕ) → (b + 8 ≤ a) ⊎ (a + 8 ≤ b) → load64 (store64 m a v) b ≡ load64 m b
unfolding load64
load64-store64_ne m a v b apart =
    rw
      (
        load-store64_out m a v b (omega arith),
        load-store64_out m a v (b + 1) (omega arith),
        load-store64_out m a v (b + 2) (omega arith),
        load-store64_out m a v (b + 3) (omega arith),
        load-store64_out m a v (b + 4) (omega arith),
        load-store64_out m a v (b + 5) (omega arith),
        load-store64_out m a v (b + 6) (omega arith),
        load-store64_out m a v (b + 7) (omega arith),
      )
      refl
