-- ===== src/Allocator/Kill.antt =====
-- `KillAllThreadsButMyself` of memtagmalloc/src/mtmalloc.h, which sends a signal to each thread that
-- a listing of the threads shows and that was not seen before, until a listing shows no new one. What
-- `IterateTIDs` gives in each round of the loop is an argument: a trap, or the threads in the order of
-- its callbacks. The array of the threads seen is a list with the newest first.
pub mod Ends
use sanitizers.Base.{
  Outcome, ok, trap, ◌>>=◌, ◌>>◌, trap_if, ltb, ◌==◌, ◌||◌, if◌then◌else◌, ℕ, zero, suc, ◌+◌, Bool,
  true, false, List, [], ◌∷◌, length,
}
use sanitizers.Layout.{max_threads}

-- What the process and the system are at the call: `getpid`, `GetTID` and the listings.
pub record Process : Type 0 where
  pub my_pid : ℕ
  pub my_tid : ℕ
  pub listing : ℕ → Outcome (List ℕ)

-- The arguments of a call of `TGKill`; the system's number of SIGUSR2 is left out.
pub record Signal : Type 0 where
  pub pid : ℕ
  pub tid : ℕ

-- `SeenThreads`, and the signals sent, the last one first.
pub record Seen : Type 0 where
  pub threads : List ℕ
  pub signals : List Signal

-- `std::find` on the array.
unfoldable pub contains : List ℕ → ℕ → Bool
contains [] tid = false
contains (x ∷ xs) tid = (x == tid) || contains xs tid

-- The callback, on one thread: whether it is new, and what was seen and sent.
unfoldable pub visit_thread : ℕ → Seen → ℕ → Outcome (Bool × Seen)
visit_thread my_pid s tid =
    if contains s.threads tid
    then ok (false, s)
    else trap_if (ltb max_threads (length s.threads + 1))
      >> ok (
        true,
        record {
          threads = tid ∷ s.threads;
          signals = record { pid = my_pid; tid = tid } ∷ s.signals;
        },
      )

-- One listing.
unfoldable pub visit_all : ℕ → List ℕ → Seen → Outcome (Bool × Seen)
visit_all my_pid [] s = ok (false, s)
visit_all my_pid (tid ∷ tids) s = do
  (changed, s') ← visit_thread my_pid s tid
  (changed', s'') ← visit_all my_pid tids s'
  ok (changed || changed', s'')

-- The loop from listing `k` on, for `rounds` listings at most; it traps if they are too few.
unfoldable pub kill_from : Process → ℕ → ℕ → Seen → Outcome Seen
kill_from p zero k s = trap
kill_from p (suc rounds) k s = do
  tids ← p.listing k
  (changed, s') ← visit_all p.my_pid tids s
  let rest = kill_from p rounds (k + 1) s'
  if changed then rest else ok s'

-- The length of the list of threads is the result of the function.
unfoldable pub kill_all_threads_but_myself : Process → Outcome Seen
kill_all_threads_but_myself p =
    kill_from p max_threads 0 (record { threads = p.my_tid ∷ []; signals = [] })
