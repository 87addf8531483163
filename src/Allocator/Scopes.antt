-- ===== src/Allocator/Scopes.antt =====
-- `DataOnlyScope`: nested scopes.
use sanitizers.Base.{
  length, Outcome, ok, trap, ◌>>=◌, ◌==◌, add64, sub64, ℕ, ◌+◌, ◌^◌, ◌<◌, ◌≡◌, refl, false, List,
  [], ◌∷◌, ◌++◌, arith,
}
use sanitizers.Base.Int.{ℤ, pos, negsuc}
use sanitizers.Allocator.{Allocator, data_only_scope}
use sanitizers.Allocator.State.{Allocator}

-- The calls of a run, one after the other.
unfoldable pub run_scopes : List ℤ → Allocator → Outcome Allocator
run_scopes [] a = ok a
run_scopes (level ∷ levels) a = data_only_scope level a >>= run_scopes levels

-- The calls of a program that leaves each scope that it enters, in the order of nesting.
pub data IsBalanced : List ℤ → Type 0 where
  none_left : IsBalanced []
  nest :
      {inner rest : List ℤ}
      → IsBalanced inner
      → IsBalanced rest
      → IsBalanced (pos 1 ∷ (inner ++ (negsuc 0 ∷ rest)))

run_scopes-append :
    (xs ys : List ℤ) (a : Allocator) → run_scopes (xs ++ ys) a ≡ (run_scopes xs a >>= run_scopes ys)
unfolding run_scopes
run_scopes-append [] ys a = refl
run_scopes-append (x ∷ xs) ys a = then_rest (run_scopes-append xs ys) (data_only_scope x a)
  where
    then_rest :
        ((b : Allocator) → run_scopes (xs ++ ys) b ≡ (run_scopes xs b >>= run_scopes ys))
        → (r : Outcome Allocator)
        → (r >>= run_scopes (xs ++ ys)) ≡ ((r >>= run_scopes xs) >>= run_scopes ys)
    then_rest same trap = refl
    then_rest same (ok b) = same b

length-append : (xs ys : List ℤ) → length (xs ++ ys) ≡ length xs + length ys
length-append [] ys = omega arith
length-append (x ∷ xs) ys = let rest = length-append xs ys in omega arith

abbrev at_level : Allocator → ℕ → Allocator
at_level a level = record a { data_only_scope_level = level }

-- A balanced run of `DataOnlyScope` calls, which is shorter than the counter has values left, never
-- traps, and leaves the allocator as it was.
pub run_scopes-balanced :
    {levels : List ℤ} (a : Allocator)
    → IsBalanced levels
    → a.data_only_scope_level + length levels < 2 ^ 64
    → run_scopes levels a ≡ ok a
unfolding run_scopes data_only_scope
run_scopes-balanced a none_left h = refl
run_scopes-balanced a (nest {inner} {rest} b b') h =
    let level = a.data_only_scope_level in
    let len = length-append inner (negsuc 0 ∷ rest) in
    let up : add64 level 1 ≡ level + 1 = omega arith in
    let down : sub64 (level + 1) 1 ≡ level = omega arith in
    let entered : (level + 1 == 0) ≡ false = ground arith in
    rw
      (
        up,
        run_scopes-append inner (negsuc 0 ∷ rest) (at_level a (level + 1)),
        run_scopes-balanced (at_level a (level + 1)) b (omega arith),
        entered,
        down,
      )
      (run_scopes-balanced a b' (omega arith))
