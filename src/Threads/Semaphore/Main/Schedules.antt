-- ===== src/Threads/Semaphore/Main/Schedules.antt =====
-- The schedules of `main` of thread/producerAndConsumer/semaphoreSolution.cpp and its two threads.
use linux_study_notes.Threads.Semaphore.Main.{
  MainPlace, creates_producer, creates_consumer, destroys_full, destroys_empty, joins_producer,
  joins_consumer, returned, Semaphore, full_one, empty_one, Program, is_created, is_done,
  semaphore_of, is_misuse, run_main, run_thread, Runner, main_thread, worker, run_program, initial,
}
use linux_study_notes.Threads.Semaphore.{
  Thread, producer, consumer, System, move, or_stay, schedule, start,
}
use linux_study_notes.Threads.Semaphore.Invariant.{IsSafe}
use linux_study_notes.Threads.Semaphore.Safety.{every_schedule-IsSafe}
use linux_study_notes.Prelude.{
  ◌≡◌, refl, ap, sym, subst, ◌∙◌, true, false, List, [], ◌∷◌, ◌++◌, Option, none, some, map,
  Bool-cases, inl, inr,
}

run_main-system : (place : MainPlace) (p : Program) → (run_main place p).system ≡ p.system
unfolding run_main
run_main-system creates_producer p = refl
run_main-system creates_consumer p = refl
run_main-system destroys_full p = refl
run_main-system destroys_empty p = refl
run_main-system joins_producer p = refl
run_main-system joins_consumer p = refl
run_main-system returned p = refl

run_thread-moved :
    (t : Thread) (p : Program)
    → is_created t p.main_at ≡ true
    → (run_thread t p).system ≡ or_stay p.system (move t p.system)
unfolding run_thread
run_thread-moved t p h = rw h refl

run_thread-kept :
    (t : Thread) (p : Program) → is_created t p.main_at ≡ false → (run_thread t p).system ≡ p.system
unfolding run_thread
run_thread-kept t p h = rw h refl

run_program-schedule :
    (rs : List Runner) (p : Program)
    → (ts : List Thread) × ((run_program rs p).system ≡ schedule ts p.system)
unfolding run_program schedule
run_program-schedule [] p = ([], refl)
run_program-schedule (main_thread ∷ rs) p =
    let (ts, e) = run_program-schedule rs (run_main p.main_at p) in
    (ts, e ∙ ap (schedule ts) (run_main-system p.main_at p))
run_program-schedule (worker t ∷ rs) p = elim (Bool-cases (is_created t p.main_at)) [
  | inl there ↦
      let (ts, e) = run_program-schedule rs (run_thread t p) in
      (t ∷ ts, e ∙ ap (schedule ts) (run_thread-moved t p there))
  | inr not_yet ↦
      let (ts, e) = run_program-schedule rs (run_thread t p) in
      (ts, e ∙ ap (schedule ts) (run_thread-kept t p not_yet))
]

-- With `main` in between, the threads do nothing that they do not under a schedule of their own, so
-- that all that holds of those holds of the program.
pub run_program-IsSafe :
    (rs : List Runner)
    → (ts : List Thread) × ((run_program rs initial).system ≡ schedule ts start)
      × IsSafe (run_program rs initial).system
run_program-IsSafe rs =
    let (ts, e) = run_program-schedule rs initial in
    (ts, e, subst IsSafe (sym e) (every_schedule-IsSafe ts))

run_main-misused : (place : MainPlace) (p : Program) → (run_main place p).misused ≡ p.misused
unfolding run_main
run_main-misused creates_producer p = refl
run_main-misused creates_consumer p = refl
run_main-misused destroys_full p = refl
run_main-misused destroys_empty p = refl
run_main-misused joins_producer p = refl
run_main-misused joins_consumer p = refl
run_main-misused returned p = refl

run_thread-misused : (t : Thread) (p : Program) → p.misused ≡ true → (run_thread t p).misused ≡ true
unfolding run_thread
run_thread-misused t p h = elim (Bool-cases (is_created t p.main_at)) [
  | inl there ↦ rw (there, h) refl
  | inr not_yet ↦ rw not_yet h
]

-- What was misused stays so.
run_program-misused :
    (rs : List Runner) (p : Program) → p.misused ≡ true → (run_program rs p).misused ≡ true
unfolding run_program
run_program-misused [] p h = h
run_program-misused (main_thread ∷ rs) p h =
    run_program-misused rs (run_main p.main_at p) (run_main-misused p.main_at p ∙ h)
run_program-misused (worker t ∷ rs) p h =
    run_program-misused rs (run_thread t p) (run_thread-misused t p h)

-- If `main` makes its four calls before either thread makes its first, then that first call, of
-- whichever thread, is on a semaphore that is destroyed, whatever comes later.
pub run_program-destroyed_first :
    (t : Thread) (rs : List Runner)
    → (run_program
        (main_thread ∷ main_thread ∷ main_thread ∷ main_thread ∷ worker t ∷ rs)
        initial).misused
      ≡ true
unfolding run_program run_main run_thread is_created semaphore_of is_misuse
run_program-destroyed_first producer rs = run_program-misused rs _ refl
run_program-destroyed_first consumer rs = run_program-misused rs _ refl

run_program-append :
    (xs ys : List Runner) (p : Program)
    → run_program (xs ++ ys) p ≡ run_program ys (run_program xs p)
unfolding run_program
run_program-append [] ys p = refl
run_program-append (main_thread ∷ xs) ys p = run_program-append xs ys (run_main p.main_at p)
run_program-append (worker t ∷ xs) ys p = run_program-append xs ys (run_thread t p)

-- Between the creation of the threads and the first `sem_destroy`.
abbrev pub threads_only : System → Program
threads_only s = record initial { system = s; main_at = destroys_full }

no_misuse : (o : Option Semaphore) (s : System) → is_misuse o (threads_only s) ≡ false
unfolding is_misuse
no_misuse none s = refl
no_misuse (some full_one) s = refl
no_misuse (some empty_one) s = refl

both_created : (t : Thread) → is_created t destroys_full ≡ true
unfolding is_created
both_created producer = refl
both_created consumer = refl

run_thread-threads_only :
    (t : Thread) (s : System) → run_thread t (threads_only s) ≡ threads_only (or_stay s (move t s))
unfolding run_thread
run_thread-threads_only t s = rw (both_created t, no_misuse (semaphore_of t s) s) refl

run_program-threads_only :
    (ts : List Thread) (s : System)
    → run_program (map worker ts) (threads_only s) ≡ threads_only (schedule ts s)
unfolding run_program schedule
run_program-threads_only [] s = refl
run_program-threads_only (t ∷ ts) s =
    ap (run_program (map worker ts)) (run_thread-threads_only t s)
    ∙ run_program-threads_only ts (or_stay s (move t s))

-- If `main` creates both threads and is not run again before both are done, then no semaphore is
-- misused, `main` returns, and all has gone as under the schedule of the two threads alone.
pub run_program-waited :
    (ts : List Thread)
    → is_done producer (schedule ts start) ≡ true
    → is_done consumer (schedule ts start) ≡ true
    → run_program
        (main_thread
          ∷ main_thread
          ∷ (map worker ts ++ main_thread ∷ main_thread ∷ main_thread ∷ main_thread ∷ []))
        initial
      ≡ record {
        system = schedule ts start;
        main_at = returned;
        has_full = false;
        has_empty = false;
        misused = false;
      }
unfolding run_program run_main
run_program-waited ts pro con =
    run_program-append (map worker ts) (main_thread ∷ main_thread ∷ main_thread ∷ main_thread ∷ [])
      (threads_only start)
    ∙ ap (run_program (main_thread ∷ main_thread ∷ main_thread ∷ main_thread ∷ []))
        (run_program-threads_only ts start)
    ∙ rw (pro, con) refl
