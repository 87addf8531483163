-- ===== src/SuperPage/Alloc.antt =====
-- `TryAllocate` on one super page.
use sanitizers.Base.{
  Mem, store8, ok, if◌then◌else◌, lt→leb, ℕ, ◌+◌, ◌≤◌, ◌<◌, ◌≡◌, refl, ◌≢◌, Bool, Option, none,
  some,
}
use sanitizers.SizeClass.{SizeClassDescr}
use sanitizers.Tags.{apply_address_tag, get_memory_tag}
use sanitizers.Tags.Memory.{get_memory_tag_total}
use sanitizers.SuperPage.{
  available, used_mixed, used_data, Env, states_of, address_of_chunk, hand_out, try_allocate,
}
use sanitizers.SuperPage.State.{available, used_mixed, used_data}
use sanitizers.SuperPage.Search.{Searched, taken, none_left, find_byte-Searched}
use sanitizers.SuperPage.Chunk.{IsPlaced, chunk-InAllocator}

-- What `TryAllocate` may return from a super page with memory `m`.
pub data Allocated (env : Env) (m : Mem) (d : SizeClassDescr) (hint sp new_state : ℕ)
    : Option ℕ × ℕ × Mem → Type 0 where
  got :
      (p tag : ℕ)
      → p < d.num_chunks
      → m (states_of sp d + p) ≡ available
      → get_memory_tag env.target
          (store8 m (states_of sp d + p) new_state)
          (address_of_chunk sp p d)
        ≡ ok tag
      → Allocated env m d hint sp new_state (
        some (apply_address_tag env.target (address_of_chunk sp p d) tag),
        p + 1,
        store8 m (states_of sp d + p) new_state,
      )
  full :
      ((p : ℕ) → p < d.num_chunks → m (states_of sp d + p) ≢ available)
      → Allocated env m d hint sp new_state (none, hint, m)

pub hand_out-Allocated :
    (env : Env) (m : Mem) {d : SizeClassDescr} (hint : ℕ) {sp : ℕ} (new_state : ℕ)
    → IsPlaced sp d
    → (r : Option ℕ × Mem) → Searched m (states_of sp d) d.num_chunks new_state r
    → (out : Option ℕ × ℕ × Mem) × (hand_out env d hint sp r ≡ ok out)
      × Allocated env m d hint sp new_state out
unfolding hand_out
hand_out-Allocated env m {d} hint {sp} new_state s _ (none_left busy) = (_, refl, full busy)
hand_out-Allocated env m {d} hint {sp} new_state s _ (taken p h free) =
    let m' = store8 m (states_of sp d + p) new_state in
    let (tag, eq) =
      get_memory_tag_total env.target m' (address_of_chunk sp p d) (chunk-InAllocator s p h) in
    rw (lt→leb d.num_chunks p h, eq) (_, refl, got p tag h free eq)

-- `TryAllocate` on a placed super page, with a hint up to its number of chunks, never traps. If a
-- chunk is available it takes one: that state byte alone changes, to the used state asked for, the
-- result is the chunk's address with the tag of its memory and the new hint is the next index.
-- Otherwise it returns null and changes nothing.
pub try_allocate-Allocated :
    (env : Env) (m : Mem) (data_only : Bool) {d : SizeClassDescr} (hint : ℕ) {sp : ℕ}
    → IsPlaced sp d
    → hint ≤ d.num_chunks
    → (out : Option ℕ × ℕ × Mem) × (try_allocate env m data_only d hint sp ≡ ok out)
      × Allocated env m d hint sp (if data_only then used_data else used_mixed) out
unfolding try_allocate
try_allocate-Allocated env m data_only {d} hint {sp} s h =
    let new_state : ℕ = if data_only then used_data else used_mixed in
    let (r, eq, found) = find_byte-Searched m (states_of sp d) d.num_chunks hint new_state h in
    rw eq (hand_out-Allocated env m hint new_state s r found)
