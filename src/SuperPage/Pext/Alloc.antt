-- ===== src/SuperPage/Pext/Alloc.antt =====
-- `TryAllocate` of memtagmalloc/src/mtmalloc.h as it is on x86-64, where `FindByte` is
-- `FindByte_PEXT`.
use sanitizers.Base.{
  Mem, Outcome, ok, ◌>>=◌, if◌then◌else◌, ℕ, ◌+◌, ◌%◌, ◌^◌, ◌≤◌, ◌<◌, ◌≡◌, ◌⊎◌, Bool, Option, arith,
}
use sanitizers.SizeClass.{SizeClassDescr}
use sanitizers.SuperPage.{Env, states_of, hand_out, try_pos}
use sanitizers.SuperPage.State.{available, used_mixed, used_data}
use sanitizers.SuperPage.Chunk.{IsPlaced, num_chunks-le}
use sanitizers.SuperPage.Alloc.{Allocated, hand_out-Allocated}
use sanitizers.SuperPage.Pext.{Pext, find_byte_pext}
use sanitizers.SuperPage.Pext.Bits.{IsPext}
use sanitizers.SuperPage.Pext.Search.{find_byte_pext-Searched}

unfoldable pub try_allocate_pext :
    Pext → Env → Mem → Bool → SizeClassDescr → ℕ → ℕ → Outcome (Option ℕ × ℕ × Mem)
try_allocate_pext pext env m data_only scd hint sp =
    let states = states_of sp scd in
    let new_state : ℕ = if data_only then used_data else used_mixed in
    find_byte_pext pext m states available scd.num_chunks hint
      (λ m pos. try_pos m states new_state pos)
    >>= hand_out env scd hint sp

-- With the instruction as it is documented, and states of which each is available or odd, as all
-- others are: `TryAllocate` on x86-64, on a placed super page with a hint up to its number of chunks,
-- never traps. If a chunk is available it takes one: that state byte alone changes, to the used state
-- asked for, the result is the chunk's address with the tag of its memory and the new hint is the
-- next index. Otherwise it returns null and changes nothing.
pub try_allocate_pext-Allocated :
    (pext : Pext)
    → IsPext pext
    → (env : Env) (m : Mem) (data_only : Bool) {d : SizeClassDescr} (hint : ℕ) {sp : ℕ}
    → IsPlaced sp d
    → hint ≤ d.num_chunks
    → ((a : ℕ) → m a < 2 ^ 8)
    → ((p : ℕ)
        → p < d.num_chunks
        → (m (states_of sp d + p) ≡ available) ⊎ (m (states_of sp d + p) % 2 ≡ 1))
    → (out : Option ℕ × ℕ × Mem) × (try_allocate_pext pext env m data_only d hint sp ≡ ok out)
      × Allocated env m d hint sp (if data_only then used_data else used_mixed) out
unfolding try_allocate_pext
try_allocate_pext-Allocated pext is_pext env m data_only {d} hint {sp} s h bytes odd =
    let new_state : ℕ = if data_only then used_data else used_mixed in
    let (r, eq, found) =
      find_byte_pext-Searched pext is_pext m (states_of sp d) d.num_chunks new_state bytes odd hint
        h (omega (arith, num_chunks-le s)) in
    rw eq (hand_out-Allocated env m hint new_state s r found)
