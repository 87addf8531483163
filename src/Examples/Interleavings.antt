-- ===== src/Examples/Interleavings.antt =====
-- Threads on a super page, at concrete interleavings.
use sanitizers.Base.{ℕ, ◌≡◌, ◌<◌, ◌≢◌, ◌⊎◌, refl, arith, false, true}
use sanitizers.SuperPage.State.{releasing}
use sanitizers.Threads.{
  System, init, Reach, start, later, count_start, count_one, count_end, take_win, take_end,
  allocate, load_old, nobody, trapped, loaded, resting,
}
use sanitizers.Threads.Safety.{dropping-unheld, no_false_alarm}

record Run (n : ℕ) : Type 0 where
  last : System
  reach : Reach n true 0 last

-- The release thread counts the chunk of a super page, takes it and finds that it has them all.
abbrev about_to_drop : Run 1
about_to_drop = record {
  last = _;
  reach =
      later
        (later
          (later (later (later start (count_start init refl)) (count_one _ 0 0 refl (omega arith)))
            (count_end _ 1 1 refl (omega arith)))
          (take_win _ 0 0 refl (omega arith) refl))
        (take_end _ 1 1 refl (omega arith));
}

dropping-unheld_example :
    (about_to_drop.last.states 0 ≡ releasing) × (about_to_drop.last.holder 0 ≡ nobody)
dropping-unheld_example = dropping-unheld about_to_drop.reach refl 0 (omega arith)

-- Two chunks, of which the first is allocated while the release thread counts, and is being freed.
abbrev freed_while_counting : Run 2
freed_while_counting = record {
  last = _;
  reach =
      later (later (later start (count_start init refl)) (allocate _ 0 false (omega arith) refl))
        (load_old _ 7 0 true (omega arith) refl refl);
}

no_false_alarm_example :
    ((t : ℕ) → freed_while_counting.last.pc t ≢ trapped)
    × ((t t' idx old old' v v' : ℕ)
        → freed_while_counting.last.pc t ≡ loaded idx old v
        → freed_while_counting.last.pc t' ≡ loaded idx old' v'
        → t ≡ t')
    × (freed_while_counting.last.release ≡ resting
        → ((idx : ℕ) → idx < 2 → freed_while_counting.last.states idx ≢ releasing)
          ⊎ ((true ≡ true)
              × (◌≢◌ {A = ℕ} 0 1)
              × ((idx : ℕ) → idx < 2 → freed_while_counting.last.states idx ≡ releasing)))
no_false_alarm_example = no_false_alarm freed_while_counting.reach
