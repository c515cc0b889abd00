-- ===== src/Threads/Examples.antt =====
-- The theorems on thread/producerAndConsumer, at a few schedules.
use linux_study_notes.Prelude.{replicate, flatten, map, true, false, ◌≡◌, refl, ◌++◌, List, [], ◌∷◌}
use linux_study_notes.Threads.Condition.{move, Event, runs, wakes_up}
use linux_study_notes.Threads.Semaphore.{Thread, producer, consumer}
use linux_study_notes.Threads.Condition
use linux_study_notes.Threads.Semaphore
use linux_study_notes.Threads.Semaphore.Main.{main_thread, worker, run_program, initial}
use linux_study_notes.Threads.Semaphore.Main.Schedules.{run_program-destroyed_first}
use linux_study_notes.Threads.Condition.Main
use linux_study_notes.Threads.Condition.Main.Joins.{run_program-unharmed}
use linux_study_notes.Threads.Condition.Main.Returns.{ProgramGoesOn, run_program-GoesOn}
use linux_study_notes.Threads.Semaphore.Safety.{every_schedule-IsSafe}
use linux_study_notes.Threads.Semaphore.Progress.{every_schedule-GoesOn}

-- The producer puts an item in, the consumer comes for it.
abbrev turns : List Thread
turns =
    producer ∷ producer ∷ producer ∷ producer ∷ consumer ∷ producer ∷ consumer ∷ consumer ∷ consumer
    ∷ []

-- The consumer sleeps first, and is woken with no signal.
abbrev events : List Event
events =
    runs consumer
    ∷ runs consumer
    ∷ wakes_up consumer
    ∷ runs consumer
    ∷ runs consumer
    ∷ runs producer
    ∷ runs producer
    ∷ runs producer
    ∷ runs producer
    ∷ runs producer
    ∷ []

every_schedule-IsSafe_example :
    linux_study_notes.Threads.Semaphore.Invariant.IsSafe
      (linux_study_notes.Threads.Semaphore.schedule turns linux_study_notes.Threads.Semaphore.start)
every_schedule-IsSafe_example = every_schedule-IsSafe turns

every_schedule-GoesOn_example :
    linux_study_notes.Threads.Semaphore.Progress.GoesOn
      (linux_study_notes.Threads.Semaphore.schedule turns linux_study_notes.Threads.Semaphore.start)
every_schedule-GoesOn_example = every_schedule-GoesOn turns

run_program-destroyed_first_example :
    (run_program
      (main_thread
        ∷ main_thread
        ∷ main_thread
        ∷ main_thread
        ∷ worker consumer
        ∷ worker producer
        ∷ [])
      initial).misused
    ≡ true
run_program-destroyed_first_example = run_program-destroyed_first consumer (worker producer ∷ [])

-- The producer does all its rounds, and then the consumer.
abbrev one_by_one : List Thread
one_by_one = replicate 25 producer ++ replicate 25 consumer

-- The producer is there before the consumer, and `main` waits for it.
abbrev program_runs : List Main.Runner
program_runs =
    Main.main_thread
    ∷ Main.worker (runs producer)
    ∷ Main.main_thread
    ∷ Main.main_thread
    ∷ map Main.worker events

run_program-unharmed_example :
    ((Main.run_program program_runs Main.initial).misused ≡ false)
    × linux_study_notes.Threads.Condition.Safety.IsSafe
        (Main.run_program program_runs Main.initial).system
run_program-unharmed_example = run_program-unharmed program_runs

run_program-GoesOn_example : ProgramGoesOn (Main.run_program program_runs Main.initial)
run_program-GoesOn_example = run_program-GoesOn program_runs

-- The two threads in turn, and `main` at the end: it returns.
abbrev in_turns : List Main.Runner
in_turns =
    Main.main_thread
    ∷ Main.main_thread
    ∷ (flatten (replicate 120 (Main.worker (runs producer) ∷ Main.worker (runs consumer) ∷ []))
        ++ replicate 6 Main.main_thread)

main_returns : (Main.run_program in_turns Main.initial).main_at ≡ Main.returned
unfolding Main.run_program move Condition.consume_at Condition.produce_at
main_returns = refl
