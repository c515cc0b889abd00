-- ===== src/Threads/Condition/Main/Returns.antt =====
-- How `main` of thread/producerAndConsumer/conditionSolution.cpp and its two threads come to their
-- end.
use linux_study_notes.Threads.Condition.Main.{
  MainPlace, creates_producer, creates_consumer, joins_producer, joins_consumer, destroys_condc,
  destroys_condp, destroys_mutex, returned, Program, is_created, is_done, run_main, Runner,
  run_program, initial,
}
use linux_study_notes.Threads.Condition.Main.Joins.{IsSound, run_program-IsSound, initial-IsSound}
use linux_study_notes.Threads.Condition.Progress.{goes, IsFinished, safe-GoesOn}
use linux_study_notes.Threads.Condition.Safety.{begun, IsSafe}
use linux_study_notes.Threads.Condition.{rounds, System, runs, move, produce_at, consume_at}
use linux_study_notes.Threads.Semaphore.{Thread, producer, consumer}
use linux_study_notes.Prelude.{◌+◌, ◌≤◌, ◌≡◌, ◌≢◌, refl, true, false, List, inl, inr, ◌⊎◌, arith}

done_stops : (t : Thread) (s : System) → is_done t s ≡ true → goes (move (runs t) s) ≡ false
unfolding is_done move produce_at consume_at
done_stops producer s h = ground arith
done_stops consumer s h = ground arith

-- `main` makes a call that does not block, a thread that is there can make its next one, or `main`
-- has returned when every item was consumed in order.
abbrev pub ProgramGoesOn : Program → Type 0
ProgramGoesOn p =
    ((run_main p.main_at p).main_at ≢ p.main_at)
    ⊎ ((t : Thread) × (is_created t p.main_at ≡ true) × (goes (move (runs t) p.system) ≡ true))
    ⊎ ((p.main_at ≡ returned) × IsFinished p.system)

abbrev GoesAt : MainPlace → Program → Type 0
GoesAt place p =
    ((run_main place p).main_at ≢ place)
    ⊎ ((t : Thread) × (is_created t place ≡ true) × (goes (move (runs t) p.system) ≡ true))
    ⊎ ((place ≡ returned) × IsFinished p.system)

-- A thread that has ended its rounds is at the head of its loop.
rounds_are_done :
    (t : Thread) (s : System)
    → s.produced + begun s.producer_at ≤ rounds
    → s.taken + begun s.consumer_at ≤ rounds
    → s.produced ≡ rounds
    → s.taken ≡ rounds
    → is_done t s ≡ true
unfolding is_done
rounds_are_done producer s p c e f = ground arith
rounds_are_done consumer s p c e f = ground arith

finished_is_done : (t : Thread) (s : System) → IsSafe s → IsFinished s → is_done t s ≡ true
finished_is_done t s h f =
    rounds_are_done t s h.produced_most h.taken_most f.all_produced f.all_taken

joined-IsFinished :
    (s : System)
    → IsSafe s
    → (is_done producer s ≡ true) × (is_done consumer s ≡ true)
    → IsFinished s
joined-IsFinished s h d = elim (safe-GoesOn s h) [
  | inl goes_on ↦ let e = done_stops producer s d.0 in cc
  | inr (inl goes_on) ↦ let e = done_stops consumer s d.1 in cc
  | inr (inr finished) ↦ finished
]

goes_at : (place : MainPlace) (p : Program) → IsSound place p → GoesAt place p
unfolding run_main is_created
goes_at creates_producer p h = inl (λ e. cc)
goes_at creates_consumer p h = inl (λ e. cc)
goes_at joins_producer p h = elim (safe-GoesOn p.system h.safe) [
  | inl goes_on ↦ inr (inl (producer, refl, goes_on))
  | inr (inl goes_on) ↦ inr (inl (consumer, refl, goes_on))
  | inr (inr finished) ↦ inl (rw (finished_is_done producer p.system h.safe finished) (λ e. cc))
]
goes_at joins_consumer p h = elim (safe-GoesOn p.system h.safe) [
  | inl goes_on ↦ inr (inl (producer, refl, goes_on))
  | inr (inl goes_on) ↦ inr (inl (consumer, refl, goes_on))
  | inr (inr finished) ↦ inl (rw (finished_is_done consumer p.system h.safe finished) (λ e. cc))
]
goes_at destroys_condc p h = inl (λ e. cc)
goes_at destroys_condp p h = inl (λ e. cc)
goes_at destroys_mutex p h = inl (λ e. cc)
goes_at returned p h = inr (inr (refl, joined-IsFinished p.system h.safe h.joined))

-- Under every schedule the program is not stuck: it goes on until `main` has returned with every
-- item consumed in order.
pub run_program-GoesOn : (rs : List Runner) → ProgramGoesOn (run_program rs initial)
run_program-GoesOn rs =
    let p = run_program rs initial in
    goes_at p.main_at p (run_program-IsSound rs initial initial-IsSound)
