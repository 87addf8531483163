-- ===== src/Allocator/Kill/Ends.antt =====
-- `KillAllThreadsButMyself` comes to an end.
use sanitizers.Base.{
  Outcome-cases, Outcome, ok, trap, ◌>>=◌, ltb, ◌||◌, if◌then◌else◌, ℕ, zero, suc, ◌+◌, ◌<◌, ◌≤◌,
  ◌≡◌, ◌≢◌, inl, inr, refl, ap, Bool, true, false, Bool-cases, List, [], ◌∷◌, ◌++◌, length, arith,
}
use sanitizers.Layout.{max_threads}
use sanitizers.Allocator.Kill.{
  Process, Signal, Seen, contains, visit_thread, visit_all, kill_from, kill_all_threads_but_myself,
}

-- No thread is there twice.
pub data IsDistinct : List ℕ → Type 0 where
  set_end : IsDistinct []
  set_next : {x : ℕ} {xs : List ℕ} → contains xs x ≡ false → IsDistinct xs → IsDistinct (x ∷ xs)

pub data Every (P : ℕ → Type 0) : List ℕ → Type 0 where
  every_end : Every P []
  every_next : {x : ℕ} {xs : List ℕ} → P x → Every P xs → Every P (x ∷ xs)

-- Every thread of the first list is in the second.
abbrev pub Covers : List ℕ → List ℕ → Type 0
Covers tids seen = Every (λ t. contains seen t ≡ true) tids

-- The calls of `TGKill` for some threads, in their order.
unfoldable pub signals_to : ℕ → List ℕ → List Signal
signals_to my_pid [] = []
signals_to my_pid (tid ∷ tids) = record { pid = my_pid; tid = tid } ∷ signals_to my_pid tids

-- What the threads seen and the signals sent always are: distinct threads with the property `P`, and
-- one signal to each of them but this thread `me`, in the order in which they were seen.
pub record IsSeen (my_pid me : ℕ) (P : ℕ → Type 0) (s : Seen) : Type 0 where
  pub distinct : IsDistinct s.threads
  pub known : Every P s.threads
  pub others : List ℕ
  pub split : s.threads ≡ others ++ (me ∷ [])
  pub sent : s.signals ≡ signals_to my_pid others

-- One thread more than the array has room for: all that fit were seen, and a new one.
pub record TooMany (my_pid me : ℕ) (P : ℕ → Type 0) : Type 0 where
  pub full : Seen
  pub seen : IsSeen my_pid me P full
  pub all_used : length full.threads ≡ max_threads
  pub extra : ℕ
  pub extra_known : P extra
  pub new : contains full.threads extra ≡ false

-- After a listing.
pub data Listed (my_pid me : ℕ) (P : ℕ → Type 0) (s : Seen) (tids : List ℕ)
    : Outcome (Bool × Seen) → Type 0 where
  overflow : TooMany my_pid me P → Listed my_pid me P s tids trap
  listed :
      (changed : Bool) (s' : Seen)
      → IsSeen my_pid me P s'
      → length s'.threads ≤ max_threads
      → (changed ≡ true → length s.threads < length s'.threads)
      → length s.threads ≤ length s'.threads
      → ((t : ℕ) → contains s.threads t ≡ true → contains s'.threads t ≡ true)
      → Covers tids s'.threads
      → Listed my_pid me P s tids (ok (changed, s'))

contains_head : (t : ℕ) (seen : List ℕ) → contains (t ∷ seen) t ≡ true
unfolding contains
contains_head t seen = ground arith

contains_tail : (x t : ℕ) (seen : List ℕ) → contains seen t ≡ true → contains (x ∷ seen) t ≡ true
unfolding contains
contains_tail x t seen e = ground arith

false-true : false ≢ true
false-true e = cc

-- A thread of the listing that was seen before, and one that is new.
after_old :
    {my_pid me : ℕ} {P : ℕ → Type 0} (tid : ℕ) (tids : List ℕ) (s : Seen)
    {out : Outcome (Bool × Seen)}
    → contains s.threads tid ≡ true
    → Listed my_pid me P s tids out
    → Listed my_pid me P s (tid ∷ tids) (out >>= λ (changed, s'). ok (false || changed, s'))
after_old tid tids s old (overflow many) = overflow many
after_old tid tids s old (listed changed s' is_seen few grows more keeps covers) =
    listed changed s' is_seen few grows more keeps (every_next (keeps tid old) covers)

-- The state of the loop with a new thread.
abbrev with_thread : ℕ → ℕ → Seen → Seen
with_thread my_pid tid s = record {
  threads = tid ∷ s.threads;
  signals = record { pid = my_pid; tid = tid } ∷ s.signals;
}

after_new :
    {my_pid me : ℕ} {P : ℕ → Type 0} (tid : ℕ) (tids : List ℕ) (s : Seen)
    {out : Outcome (Bool × Seen)}
    → Listed my_pid me P (with_thread my_pid tid s) tids out
    → Listed my_pid me P s (tid ∷ tids) (out >>= λ (changed, s'). ok (true || changed, s'))
after_new tid tids s (overflow many) = overflow many
after_new tid tids s (listed changed s' is_seen few grows more keeps covers) =
    listed true s' is_seen few (λ e. omega (arith, more)) (omega (arith, more))
      (λ t e. keeps t (contains_tail tid t s.threads e))
      (every_next (keeps tid (contains_head tid s.threads)) covers)

with_thread-IsSeen :
    {my_pid me : ℕ} {P : ℕ → Type 0} {s : Seen} (tid : ℕ)
    → P tid
    → contains s.threads tid ≡ false
    → IsSeen my_pid me P s
    → IsSeen my_pid me P (with_thread my_pid tid s)
unfolding signals_to
with_thread-IsSeen {my_pid} {s = s} tid known new i = record {
  distinct = set_next new i.distinct;
  known = every_next known i.known;
  others = tid ∷ i.others;
  split = ap (λ xs. tid ∷ xs) i.split;
  sent = ap (λ (xs : List Signal). record { pid = my_pid; tid = tid } ∷ xs) i.sent;
}

visit_all-Listed :
    (my_pid me : ℕ) (P : ℕ → Type 0) (tids : List ℕ) (s : Seen)
    → Every P tids
    → IsSeen my_pid me P s
    → length s.threads ≤ max_threads
    → Listed my_pid me P s tids (visit_all my_pid tids s)
unfolding visit_all visit_thread
visit_all-Listed my_pid me P [] s every_end i few =
    listed false s i few (λ e. absurd (false-true e)) (omega arith) (λ t e. e) every_end
visit_all-Listed my_pid me P (tid ∷ tids) s (every_next p ps) i few =
    elim (Bool-cases (contains s.threads tid)) [
      | inl old ↦ rw old (after_old tid tids s old (visit_all-Listed my_pid me P tids s ps i few))
      | inr new ↦ elim (Bool-cases (ltb max_threads (length s.threads + 1))) [
        | inl long ↦
            rw (new, long)
              (overflow (record {
                full = s;
                seen = i;
                all_used = ground arith;
                extra = tid;
                extra_known = p;
                new = new;
              }))
        | inr short ↦
            rw (new, short)
              (after_new tid tids s (
                visit_all-Listed my_pid me P tids (with_thread my_pid tid s) ps
                  (with_thread-IsSeen tid p new i) (ground arith)))
      ]
    ]

-- How the loop ends: a listing fails, the array overflows, or some listing shows no thread that is
-- not seen.
pub data Ended (p : Process) (P : ℕ → Type 0) : Outcome Seen → Type 0 where
  unlisted : (k : ℕ) → p.listing k ≡ trap → Ended p P trap
  overflowed : TooMany p.my_pid p.my_tid P → Ended p P trap
  all_seen :
      (s : Seen) (k : ℕ) (tids : List ℕ)
      → IsSeen p.my_pid p.my_tid P s
      → length s.threads ≤ max_threads
      → p.listing k ≡ ok tids
      → Covers tids s.threads
      → Ended p P (ok s)

module _ (p : Process) (P : ℕ → Type 0)
    (all : (k : ℕ) (tids : List ℕ) → p.listing k ≡ ok tids → Every P tids) where
  round-Ended :
      (rounds k : ℕ) (s : Seen) (tids : List ℕ)
      → p.listing k ≡ ok tids
      → ((s' : Seen)
          → IsSeen p.my_pid p.my_tid P s'
          → length s'.threads ≤ max_threads
          → length s.threads < length s'.threads
          → Ended p P (kill_from p rounds (k + 1) s'))
      → (out : Outcome (Bool × Seen)) → Listed p.my_pid p.my_tid P s tids out
      → Ended p P (
          out >>= λ (changed, s').
          let rest = kill_from p rounds (k + 1) s' in if changed then rest else ok s')
  round-Ended rounds k s tids e next _ (overflow many) = overflowed many
  round-Ended rounds k s tids e next _ (listed true s' i few grows more keeps covers) =
      next s' i few (grows refl)
  round-Ended rounds k s tids e next _ (listed false s' i few grows more keeps covers) =
      all_seen s' k tids i few e covers

  kill_from-Ended :
      (rounds k : ℕ) (s : Seen)
      → IsSeen p.my_pid p.my_tid P s
      → length s.threads ≤ max_threads
      → max_threads < rounds + length s.threads
      → Ended p P (kill_from p rounds k s)
  unfolding kill_from
  kill_from-Ended zero k s i few enough = absurd (omega arith)
  kill_from-Ended (suc rounds) k s i few enough = elim (Outcome-cases (p.listing k)) [
    | inl (tids, e) ↦ rw e (
        round-Ended rounds k s tids e
          (λ s' i' few' grown.
            kill_from-Ended rounds (k + 1) s' i' few' (omega (arith, grown, enough)))
          (visit_all p.my_pid tids s)
          (visit_all-Listed p.my_pid p.my_tid P tids s (all k tids e) i few))
    | inr failed ↦ rw failed (unlisted k failed)
  ]

  -- `KillAllThreadsButMyself` comes to its end after at most as many listings as threads fit the
  -- array, whatever the listings show. Where `P` holds of this thread and of all that the listings
  -- show, it traps after a listing that failed; or it traps when all the array's entries hold distinct
  -- such threads and another one appears; or it returns: the threads seen are distinct, at most as
  -- many as fit, all have `P`, one signal went to each of them but this one, with the number of this
  -- process, and some listing shows only threads that were seen.
  pub kill_all_threads_but_myself-Ended : P p.my_tid → Ended p P (kill_all_threads_but_myself p)
  unfolding kill_all_threads_but_myself contains signals_to
  kill_all_threads_but_myself-Ended mine =
      kill_from-Ended max_threads 0 (record { threads = p.my_tid ∷ []; signals = [] })
        (record {
          distinct = set_next refl set_end;
          known = every_next mine every_end;
          others = [];
          split = refl;
          sent = refl;
        })
        (omega arith) (omega arith)
