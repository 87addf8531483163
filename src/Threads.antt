-- ===== src/Threads.antt =====
-- Threads on one super page between scans: `TryAllocate`, `Deallocate`, `Quarantine` and
-- `MaybeReleaseToOs` of memtagmalloc/src/mtmalloc.h as interleavings of their loads, stores and
-- compare-and-swaps of state bytes. The program frees a chunk only once. No scan marks or sweeps in
-- the meantime.
pub mod Invariant
pub mod Moves
pub mod Release
pub mod Safety
use sanitizers.Base.{update, ◌==◌, if◌then◌else◌, ℕ, ◌+◌, ◌≤◌, ◌<◌, ◌≡◌, ◌≢◌, Bool, ◌||◌}
use sanitizers.SuperPage.State.{available, used_mixed, used_data, quarantined, releasing}

-- Where a thread stands in `ExchangeAndCheckForDoubleFree`: `old` is what it loaded, `new_value`
-- what it stores.
pub data Pc : Type 0 where
  idle : Pc
  loaded : (idx old new_value : ℕ) → Pc
  stored : (old : ℕ) → Pc
  trapped : Pc

-- Where the release thread stands in `MaybeReleaseToOs`, with the index of its loop and its count.
pub data ReleasePc : Type 0 where
  resting : ReleasePc
  counting : (i ava : ℕ) → ReleasePc
  taking : (i taken : ℕ) → ReleasePc
  dropping : ReleasePc
  refilling : (i : ℕ) → ReleasePc
  undoing : (i : ℕ) → ReleasePc
  undo_found : (i : ℕ) → ReleasePc

-- Who has the pointer to a chunk: the program, or a thread that frees it.
pub data Holder : Type 0 where
  nobody : Holder
  program : Holder
  freeing : (t : ℕ) → Holder

pub record System : Type 0 where
  pub states : ℕ → ℕ
  pub pc : ℕ → Pc
  pub holder : ℕ → Holder
  pub release : ReleasePc

abbrev pub is_used_state : ℕ → Bool
is_used_state s = (s == used_mixed) || (s == used_data)

-- One step of some thread on a super page of `n` chunks in the range `range_num`. Its pages are
-- `shared` if the tags are in address aliases.
pub data Step (n : ℕ) (shared : Bool) (range_num : ℕ) : System → System → Type 0 where
  -- The compare-and-swap of `TryPos` succeeds.
  allocate :
      (s : System) (idx : ℕ) (data_only : Bool)
      → idx < n
      → s.states idx ≡ available
      → Step n shared range_num s (record s {
        states = update s.states idx (if data_only then used_data else used_mixed);
        holder = update s.holder idx program;
      })
  -- The load of the old value, by a thread to which the program gives its pointer.
  load_old :
      (s : System) (t idx : ℕ) (keep : Bool)
      → idx < n
      → s.pc t ≡ idle
      → s.holder idx ≡ program
      → Step n shared range_num s (record s {
        pc = update s.pc t (loaded idx (s.states idx) (if keep then quarantined else available));
        holder = update s.holder idx (freeing t);
      })
  store_new :
      (s : System) (t idx old new_value : ℕ)
      → s.pc t ≡ loaded idx old new_value
      → Step n shared range_num s (record s {
        states = update s.states idx new_value;
        pc = update s.pc t (stored old);
        holder = update s.holder idx nobody;
      })
  check_old :
      (s : System) (t old : ℕ)
      → s.pc t ≡ stored old
      → Step n shared range_num s
          (record s { pc = update s.pc t (if is_used_state old then idle else trapped) })
  count_start :
      (s : System)
      → s.release ≡ resting
      → Step n shared range_num s (record s { release = counting 0 0 })
  count_one :
      (s : System) (i ava : ℕ)
      → s.release ≡ counting i ava
      → i < n
      → Step n shared range_num s (record s {
        release = counting (i + 1) (if s.states i == available then ava + 1 else ava);
      })
  count_end :
      (s : System) (i ava : ℕ)
      → s.release ≡ counting i ava
      → n ≤ i
      → Step n shared range_num s (record s { release = if ava == n then taking 0 0 else resting })
  take_win :
      (s : System) (i taken : ℕ)
      → s.release ≡ taking i taken
      → i < n
      → s.states i ≡ available
      → Step n shared range_num s
          (record s { states = update s.states i releasing; release = taking (i + 1) (taken + 1) })
  take_lose :
      (s : System) (i taken : ℕ)
      → s.release ≡ taking i taken
      → i < n
      → s.states i ≢ available
      → Step n shared range_num s (record s { release = taking (i + 1) taken })
  take_end :
      (s : System) (i taken : ℕ)
      → s.release ≡ taking i taken
      → n ≤ i
      → Step n shared range_num s
          (record s { release = if taken == n then dropping else undoing 0 })
  -- `madvise` drops all bytes of the super page, in range 0 its states among them, if the pages are
  -- private; the bytes of shared pages stay.
  drop_pages :
      (s : System)
      → s.release ≡ dropping
      → Step n shared range_num s (record s {
        states = if shared || (range_num == 1) then s.states else (λ i. available);
        release = if range_num == 1 then refilling 0 else resting;
      })
  refill_one :
      (s : System) (i : ℕ)
      → s.release ≡ refilling i
      → i < n
      → Step n shared range_num s
          (record s { states = update s.states i available; release = refilling (i + 1) })
  refill_end :
      (s : System) (i : ℕ)
      → s.release ≡ refilling i
      → n ≤ i
      → Step n shared range_num s (record s { release = resting })
  undo_load :
      (s : System) (i : ℕ)
      → s.release ≡ undoing i
      → i < n
      → Step n shared range_num s
          (record s { release = if s.states i == releasing then undo_found i else undoing (i + 1) })
  undo_store :
      (s : System) (i : ℕ)
      → s.release ≡ undo_found i
      → Step n shared range_num s
          (record s { states = update s.states i available; release = undoing (i + 1) })
  undo_end :
      (s : System) (i : ℕ)
      → s.release ≡ undoing i
      → n ≤ i
      → Step n shared range_num s (record s { release = resting })

-- A super page whose chunks are all available, and idle threads.
abbrev pub init : System
init = record { states = λ i. available; pc = λ t. idle; holder = λ i. nobody; release = resting }

pub data Reach (n : ℕ) (shared : Bool) (range_num : ℕ) : System → Type 0 where
  start : Reach n shared range_num init
  later :
      {s t : System}
      → Reach n shared range_num s
      → Step n shared range_num s t
      → Reach n shared range_num t
