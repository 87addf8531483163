-- ===== src/Base/Trap.antt =====
-- The outcome of a call that may stop the process by `TRAP()`, `__builtin_trap()` or `assert`.
use mathlib.Core.Bool.{Bool, true, false}
use mathlib.Core.Logic.{◌⊎◌, inl, inr}
use mathlib.Core.Path.{◌≡◌, refl}

pub data Outcome {ℓ} (A : Type ℓ) : Type ℓ where
  ok : A → Outcome A
  trap : Outcome A

infixl 5 ◌>>=◌ ◌>>◌
abbrev pub ◌>>=◌ {ℓ κ} : {A : Type ℓ} {B : Type κ} → Outcome A → (A → Outcome B) → Outcome B
ok result >>= next = next result
trap >>= next = trap

abbrev pub ◌>>◌ {ℓ} : {A : Type ℓ} → Outcome (Unit {0}) → Outcome A → Outcome A
first >> second = first >>= λ _. second

-- `if (bad) TRAP();`
abbrev pub trap_if : Bool → Outcome (Unit {0})
trap_if true = trap
trap_if false = ok tt

-- `assert(good);`
abbrev pub check : Bool → Outcome (Unit {0})
check true = ok tt
check false = trap

pub ok-injective {ℓ} : {A : Type ℓ} {x y : A} → ok x ≡ ok y → x ≡ y
ok-injective e = cc

-- A chain that ends well has gone through its first part.
pub bind_ok {ℓ κ} :
    {A : Type ℓ} {B : Type κ} (first : Outcome A) (next : A → Outcome B) {y : B}
    → (first >>= next) ≡ ok y
    → (x : A) × (first ≡ ok x) × (next x ≡ ok y)
bind_ok (ok x) next eq = (x, refl, eq)
bind_ok trap next eq = cc

pub Outcome-cases {ℓ} : {A : Type ℓ} (out : Outcome A) → ((x : A) × (out ≡ ok x)) ⊎ (out ≡ trap)
Outcome-cases trap = inr refl
Outcome-cases (ok x) = inl (x, refl)
