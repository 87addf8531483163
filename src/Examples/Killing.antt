-- ===== src/Examples/Killing.antt =====
-- Threads that appear while the others are signalled.
use sanitizers.Base.{
  ℕ, ◌==◌, if◌then◌else◌, List, [], ◌∷◌, ok, ok-injective, ◌≡◌, refl, Bool-cases, inl, inr, arith,
  ◌<◌, subst,
}
use sanitizers.Allocator.Kill.{
  Process, kill_all_threads_but_myself, contains, visit_thread, visit_all, kill_from,
}
use sanitizers.Allocator.Kill.Ends.{
  Every, every_end, every_next, Ended, kill_all_threads_but_myself-Ended,
}

-- Thread 12 is there from the second listing on.
abbrev pub threads_at : ℕ → List ℕ
threads_at k = if k == 0 then 10 ∷ 11 ∷ [] else 10 ∷ 11 ∷ 12 ∷ []

abbrev pub process : Process
process = record { my_pid = 10; my_tid = 10; listing = λ k. ok (threads_at k) }

threads_at-Every : (k : ℕ) → Every (λ t. t < 13) (threads_at k)
threads_at-Every k = elim (Bool-cases (k == 0)) [
  | inl first ↦ rw first (every_next (omega arith) (every_next (omega arith) every_end))
  | inr later ↦
      rw later
        (every_next (omega arith) (every_next (omega arith) (every_next (omega arith) every_end)))
]

kill_all_threads_but_myself-Ended_example :
    Ended process (λ t. t < 13) (kill_all_threads_but_myself process)
kill_all_threads_but_myself-Ended_example =
    kill_all_threads_but_myself-Ended process (λ t. t < 13)
      (λ k tids e. subst (Every (λ t. t < 13)) (ok-injective e) (threads_at-Every k)) (omega arith)

-- The signals go to threads 11 and 12 of process 10.
killed :
    kill_all_threads_but_myself process
    ≡ ok (record {
      threads = 12 ∷ 11 ∷ 10 ∷ [];
      signals = record { pid = 10; tid = 12 } ∷ record { pid = 10; tid = 11 } ∷ [];
    })
unfolding kill_all_threads_but_myself contains visit_thread visit_all kill_from
killed = refl
