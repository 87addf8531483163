-- ===== src/SuperPage.antt =====
-- `SuperPage` of memtagmalloc/src/mtmalloc.h. A super page is its address `sp`; its states, its
-- chunks, the shadows and the tags of memory are bytes of one memory `m`.
pub mod State
pub mod Find
pub mod Search
pub mod Chunk
pub mod Alloc
pub mod Free
pub mod Retags
pub mod Sweep
pub mod Meta
pub mod Pext
pub mod Contract
pub mod Serve
pub use State.*
use sanitizers.Base.{
  get_or, Mem, store8, load64, Outcome, ok, ◌>>=◌, ◌>>◌, trap_if, leb, ◌==◌, if◌then◌else◌, u8,
  add64, sub64, mul64, ℕ, zero, suc, ◌+◌, ◌*◌, ◌/◌, ◌%◌, bit_and, Bool, true, false, not, ◌&&◌,
  Option, none, some,
}
use sanitizers.Layout.{super_page_size, first_super_page}
use sanitizers.Util.{round_down_to}
use sanitizers.Shadow.{is_mine, get_shadow_ptr, get, put, super_page_metadata, second_range_meta}
use sanitizers.Tags.{Target, apply_address_tag, set_memory_tag, get_memory_tag}
use sanitizers.SizeClass.{
  SizeClassDescr, zero_descr, chunk_size, Descrs, div_by_size_via_mul, size_of_inline_meta,
}
use Find.{find_byte}

-- What does not change after `InitAll`: the target and the table of size classes.
pub record Env : Type 0 where
  pub target : Target
  pub descrs : Descrs

unfoldable pub get_size_class : Mem → ℕ → Outcome ℕ
get_size_class m ptr = do
  trap_if (not (is_mine super_page_metadata ptr))
  ok (get super_page_metadata m ptr)

unfoldable pub set_size_class : Mem → ℕ → ℕ → Outcome Mem
set_size_class m ptr sc = do
  trap_if (not (is_mine super_page_metadata ptr))
  put super_page_metadata m ptr sc

-- The index is a byte of memory; beyond the table the model reads a zero description.
unfoldable pub get_scd : Env → Mem → ℕ → Outcome SizeClassDescr
get_scd env m sp = do sc ← get_size_class m sp; ok (get_or env.descrs sc zero_descr)

-- `State(NumChunks, RangeNum)`: where the state bytes begin.
unfoldable pub state_array : ℕ → ℕ → ℕ → ℕ
state_array sp num_chunks range_num =
    if range_num == 1
    then get_shadow_ptr second_range_meta sp
    else sub64 (add64 sp super_page_size) (size_of_inline_meta num_chunks 0)

abbrev pub states_of : ℕ → SizeClassDescr → ℕ
states_of sp scd = state_array sp scd.num_chunks scd.range_num

unfoldable pub address_of_chunk : ℕ → ℕ → SizeClassDescr → ℕ
address_of_chunk sp idx scd = add64 sp (mul64 idx (chunk_size scd))

-- `__atomic_compare_exchange_n` with no other thread in between.
unfoldable pub try_pos : Mem → ℕ → ℕ → ℕ → Bool × Mem
try_pos m states new_state pos =
    if m (states + pos) == available then (true, store8 m (states + pos) new_state) else (false, m)

-- `TryAllocate` after its search: the chunk's tagged address, if any, the new hint, the memory.
unfoldable pub hand_out :
    Env → SizeClassDescr → ℕ → ℕ → Option ℕ × Mem → Outcome (Option ℕ × ℕ × Mem)
hand_out env scd hint sp (none, m) = ok (none, hint, m)
hand_out env scd hint sp (some p, m) = do
  trap_if (leb scd.num_chunks p)
  let res = address_of_chunk sp p scd
  tag ← get_memory_tag env.target m res
  ok (some (apply_address_tag env.target res tag), p + 1, m)

unfoldable pub try_allocate :
    Env → Mem → Bool → SizeClassDescr → ℕ → ℕ → Outcome (Option ℕ × ℕ × Mem)
try_allocate env m data_only scd hint sp =
    let states = states_of sp scd in
    let new_state : ℕ = if data_only then used_data else used_mixed in
    find_byte m states available scd.num_chunks hint (λ m pos. try_pos m states new_state pos)
    >>= hand_out env scd hint sp

unfoldable pub compute_state_ptr : ℕ → ℕ → SizeClassDescr → Outcome ℕ
compute_state_ptr sp ptr scd =
    let offset = ptr % super_page_size in
    let idx = div_by_size_via_mul offset scd.chunk_size_mul_div in
    do
      trap_if (not (mul64 idx (chunk_size scd) == offset))
      trap_if (leb scd.num_chunks idx)
      ok (states_of sp scd + idx)

unfoldable pub mark : Env → Mem → ℕ → ℕ → Outcome Mem
mark env m sp p = do
  scd ← get_scd env m sp
  let idx = div_by_size_via_mul (p % super_page_size) scd.chunk_size_mul_div
  let s = states_of sp scd + idx
  ok (if leb scd.num_chunks idx then m else if m s == quarantined then store8 m s marked else m)

-- The loops of `IterateStates`: one that writes each state, one that counts.
unfoldable pub update_from : ℕ → (ℕ → ℕ) → Mem → ℕ → Mem
update_from zero f m pos = m
update_from (suc rounds) f m pos = update_from rounds f (store8 m pos (f (m pos))) (pos + 1)

unfoldable pub count_from : ℕ → ℕ → Mem → ℕ → ℕ
count_from zero state m pos = 0
count_from (suc rounds) state m pos =
    (if m pos == state then 1 else 0) + count_from rounds state m (pos + 1)

unfoldable pub count_states : Env → Mem → ℕ → ℕ → Outcome ℕ
count_states env m sp state = do
  scd ← get_scd env m sp
  ok (count_from scd.num_chunks state m (states_of sp scd))

unfoldable pub all_available : Env → Mem → ℕ → Outcome Bool
all_available env m sp = do
  scd ← get_scd env m sp
  n ← count_states env m sp available
  ok (n == scd.num_chunks)

unfoldable pub update_states : Env → (ℕ → ℕ) → Mem → ℕ → Outcome Mem
update_states env f m sp = do
  scd ← get_scd env m sp
  ok (update_from scd.num_chunks f m (states_of sp scd))

unfoldable pub move_from_quarantine_to_available : Env → Mem → ℕ → Outcome Mem
move_from_quarantine_to_available env m sp = update_states env swept m sp

unfoldable pub unmark : Env → Mem → ℕ → Outcome Mem
unmark env m sp = update_states env (λ s. if s == marked then quarantined else s) m sp

unfoldable pub exchange_and_check_for_double_free : Mem → ℕ → ℕ → Outcome Mem
exchange_and_check_for_double_free m s new_value = do
  let old_value = m s
  let m' = store8 m s new_value
  trap_if (not (old_value == used_mixed) && not (old_value == used_data))
  ok m'

unfoldable pub update_memory_tag_on_free : Env → Mem → ℕ → ℕ → Outcome (ℕ × Mem)
update_memory_tag_on_free env m p size = do
  old_tag ← get_memory_tag env.target m p
  let new_tag = u8 (old_tag + 1)
  m' ← set_memory_tag env.target m p size new_tag
  ok (new_tag, m')

unfoldable pub deallocate : Env → Mem → ℕ → ℕ → Outcome Mem
deallocate env m sp ptr = do
  scd ← get_scd env m sp
  s ← compute_state_ptr sp ptr scd
  (new_tag, m') ← update_memory_tag_on_free env m ptr (chunk_size scd)
  exchange_and_check_for_double_free m' s available

-- The state that `Quarantine` stores, from the flag `UseTag` and the new tag of the memory.
unfoldable pub state_on_free : ℕ → ℕ → ℕ
state_on_free use_tag new_tag =
    let v = if (use_tag == 1) && not (bit_and new_tag 15 == 0) then available else quarantined in
    if (use_tag == 2) && not (bit_and new_tag 255 == 0) then available else v

-- The number of bytes that go to the quarantine, and the memory.
unfoldable pub quarantine : Env → Mem → ℕ → ℕ → Outcome (ℕ × Mem)
quarantine env m sp ptr = do
  scd ← get_scd env m sp
  s ← compute_state_ptr sp ptr scd
  (new_tag, m') ← update_memory_tag_on_free env m ptr (chunk_size scd)
  let new_value = state_on_free env.target.config.use_tag new_tag
  m'' ← exchange_and_check_for_double_free m' s new_value
  ok (if new_value == available then 0 else chunk_size scd, m'')

-- The loop over the words of a chunk, `rounds` of them from `word` on. A word is compared as it is, so
-- an address with a tag in it is outside of both ranges.
unfoldable pub mark_words : Env → ℕ → ℕ → ℕ → Mem → ℕ → Outcome Mem
mark_words env n0 n1 zero m word = ok m
mark_words env n0 n1 (suc rounds) m word =
    let value = load64 m word in
    let outside =
      leb (mul64 n0 super_page_size) (sub64 value (first_super_page 0))
      && leb (mul64 n1 super_page_size) (sub64 value (first_super_page 1)) in
    (if outside then ok m else mark env m (round_down_to value super_page_size) value) >>= λ m'.
    mark_words env n0 n1 rounds m' (word + 8)

-- The loop over the chunks, `rounds` of them from `idx` on.
unfoldable pub mark_chunks : Env → ℕ → ℕ → ℕ → SizeClassDescr → ℕ → Mem → ℕ → Outcome Mem
mark_chunks env n0 n1 sp scd zero m idx = ok m
mark_chunks env n0 n1 sp scd (suc rounds) m idx =
    (if m (states_of sp scd + idx) == used_mixed
      then mark_words env n0 n1 ((chunk_size scd + 7) / 8) m (address_of_chunk sp idx scd)
      else ok m)
    >>= λ m'. mark_chunks env n0 n1 sp scd rounds m' (idx + 1)

-- `n0` and `n1` are the numbers of super pages in the two ranges.
unfoldable pub mark_all_live_pointers : Env → Mem → ℕ → ℕ → ℕ → Outcome Mem
mark_all_live_pointers env m sp n0 n1 = do
  scd ← get_scd env m sp
  mark_chunks env n0 n1 sp scd scd.num_chunks m 0

-- The compare-and-swap loop of `MaybeReleaseToOs` takes each available chunk; `madvise` is the
-- system call that drops the pages of a range.
unfoldable pub maybe_release_to_os : (Mem → ℕ → ℕ → Mem) → Env → Mem → ℕ → Outcome Mem
maybe_release_to_os madvise env m sp = do
  scd ← get_scd env m sp
  ava ← count_states env m sp available
  let ready = count_from scd.num_chunks available m (states_of sp scd)
  if not (ava == scd.num_chunks) then ok m else (do
    m' ← update_states env (λ s. if s == available then releasing else s) m sp
    if ready == scd.num_chunks
        then after_release (madvise m' sp super_page_size) scd
        else update_states env (λ s. if s == releasing then available else s) m' sp)
  where
    after_release : Mem → SizeClassDescr → Outcome Mem
    after_release m'' scd =
        if scd.range_num == 1 then update_states env (λ s. available) m'' sp else ok m''
