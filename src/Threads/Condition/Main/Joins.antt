-- ===== src/Threads/Condition/Main/Joins.antt =====
-- The schedules of `main` of thread/producerAndConsumer/conditionSolution.cpp and its two threads.
use linux_study_notes.Threads.Condition.Main.{
  MainPlace, creates_producer, creates_consumer, joins_producer, joins_consumer, destroys_condc,
  destroys_condp, destroys_mutex, returned, Program, is_created, is_done, Uses, uses_none, used_by,
  is_misuse, run_main, thread_of, run_thread, Runner, main_thread, worker, run_program, initial,
}
use linux_study_notes.Threads.Condition.Progress.{move-Kept, or_stay-IsSafe, start-IsSafe}
use linux_study_notes.Threads.Condition.Safety.{IsSafe}
use linux_study_notes.Threads.Condition.{
  System, Event, runs, wakes_up, move, or_stay, produce_at, consume_at,
}
use linux_study_notes.Threads.Semaphore.{Thread, producer, consumer}
use linux_study_notes.Prelude.{
  ◌≡◌, refl, sym, subst, ◌∙◌, Bool, true, false, List, [], ◌∷◌, Bool-cases, inl, inr, arith,
}

-- A thread whose loop has ended uses nothing.
done_uses_none : (t : Thread) (s : System) → is_done t s ≡ true → used_by t s ≡ uses_none
unfolding is_done used_by
done_uses_none producer s h = ground arith
done_uses_none consumer s h = ground arith

done_stays :
    (t : Thread) (e : Event) (s : System)
    → is_done t s ≡ true
    → is_done t (or_stay s (move e s)) ≡ true
unfolding is_done move produce_at consume_at
done_stays producer (runs producer) s h = ground arith
done_stays producer (runs consumer) s h = ground arith
done_stays producer (wakes_up producer) s h = ground arith
done_stays producer (wakes_up consumer) s h = ground arith
done_stays consumer (runs producer) s h = ground arith
done_stays consumer (runs consumer) s h = ground arith
done_stays consumer (wakes_up producer) s h = ground arith
done_stays consumer (wakes_up consumer) s h = ground arith

-- Whom `main` has waited for, and what it has not destroyed.
abbrev pub Joined : MainPlace → System → Type 0
Joined creates_producer s = Unit
Joined creates_consumer s = Unit
Joined joins_producer s = Unit
Joined joins_consumer s = is_done producer s ≡ true
Joined destroys_condc s = (is_done producer s ≡ true) × (is_done consumer s ≡ true)
Joined destroys_condp s = (is_done producer s ≡ true) × (is_done consumer s ≡ true)
Joined destroys_mutex s = (is_done producer s ≡ true) × (is_done consumer s ≡ true)
Joined returned s = (is_done producer s ≡ true) × (is_done consumer s ≡ true)

abbrev pub HasAll : Program → Type 0
HasAll p = (p.has_condc ≡ true) × (p.has_condp ≡ true) × (p.has_mutex ≡ true)

abbrev pub Keeps : MainPlace → Program → Type 0
Keeps creates_producer p = HasAll p
Keeps creates_consumer p = HasAll p
Keeps joins_producer p = HasAll p
Keeps joins_consumer p = HasAll p
Keeps destroys_condc p = Unit
Keeps destroys_condp p = Unit
Keeps destroys_mutex p = Unit
Keeps returned p = Unit

-- Before the joins nothing is destroyed, and behind them nobody is left.
pub record IsSound (place : MainPlace) (p : Program) : Type 0 where
  pub safe : IsSafe p.system
  pub joined : Joined place p.system
  pub keeps : Keeps place p
  pub unharmed : p.misused ≡ false

all_there : (u : Uses) (p : Program) → HasAll p → is_misuse u p ≡ false
unfolding is_misuse
all_there u p h = ground arith

none_left :
    (t : Thread) (p : Program)
    → is_done t p.system ≡ true
    → is_misuse (used_by t p.system) p ≡ false
unfolding is_misuse
none_left t p h = rw (done_uses_none t p.system h) refl

both_left :
    (t : Thread) (p : Program)
    → (is_done producer p.system ≡ true) × (is_done consumer p.system ≡ true)
    → is_misuse (used_by t p.system) p ≡ false
both_left producer p h = none_left producer p h.0
both_left consumer p h = none_left consumer p h.1

no_misuse :
    (place : MainPlace) (t : Thread) (p : Program)
    → Joined place p.system
    → Keeps place p
    → is_misuse (used_by t p.system) p ≡ false
no_misuse creates_producer t p j k = all_there (used_by t p.system) p k
no_misuse creates_consumer t p j k = all_there (used_by t p.system) p k
no_misuse joins_producer t p j k = all_there (used_by t p.system) p k
no_misuse joins_consumer t p j k = all_there (used_by t p.system) p k
no_misuse destroys_condc t p j k = both_left t p j
no_misuse destroys_condp t p j k = both_left t p j
no_misuse destroys_mutex t p j k = both_left t p j
no_misuse returned t p j k = both_left t p j

Joined-moved :
    (place : MainPlace) (e : Event) (s : System)
    → Joined place s
    → Joined place (or_stay s (move e s))
Joined-moved creates_producer e s j = tt
Joined-moved creates_consumer e s j = tt
Joined-moved joins_producer e s j = tt
Joined-moved joins_consumer e s j = done_stays producer e s j
Joined-moved destroys_condc e s j = (done_stays producer e s j.0, done_stays consumer e s j.1)
Joined-moved destroys_condp e s j = (done_stays producer e s j.0, done_stays consumer e s j.1)
Joined-moved destroys_mutex e s j = (done_stays producer e s j.0, done_stays consumer e s j.1)
Joined-moved returned e s j = (done_stays producer e s j.0, done_stays consumer e s j.1)

Keeps-moved :
    (place : MainPlace) (p : Program) (s : System) (m : Bool)
    → Keeps place p
    → Keeps place (record p { system = s; misused = m })
Keeps-moved creates_producer p s m k = k
Keeps-moved creates_consumer p s m k = k
Keeps-moved joins_producer p s m k = k
Keeps-moved joins_consumer p s m k = k
Keeps-moved destroys_condc p s m k = tt
Keeps-moved destroys_condp p s m k = tt
Keeps-moved destroys_mutex p s m k = tt
Keeps-moved returned p s m k = tt

run_thread-IsSound :
    (e : Event) (p : Program)
    → IsSound p.main_at p
    → IsSound (run_thread e p).main_at (run_thread e p)
unfolding run_thread
run_thread-IsSound e p h = elim (Bool-cases (is_created (thread_of e) p.main_at)) [
  | inr not_yet ↦ rw not_yet h
  | inl there ↦
      let s = or_stay p.system (move e p.system) in
      let free = no_misuse p.main_at (thread_of e) p h.joined h.keeps in
      rw there record {
        safe = or_stay-IsSafe p.system (move e p.system) h.safe (move-Kept e p.system h.safe);
        joined = Joined-moved p.main_at e p.system h.joined;
        keeps = Keeps-moved p.main_at p s _ h.keeps;
        unharmed = rw (h.unharmed, free) refl;
      }
]

kept :
    {from to : MainPlace} {p q : Program}
    → IsSound from p
    → Joined to q.system
    → Keeps to q
    → q.system ≡ p.system
    → q.misused ≡ p.misused
    → IsSound to q
kept h joined keeps same quiet = record {
  safe = subst IsSafe (sym same) h.safe;
  joined = joined;
  keeps = keeps;
  unharmed = quiet ∙ h.unharmed;
}

run_main-IsSound :
    (place : MainPlace) (p : Program)
    → IsSound place p
    → IsSound (run_main place p).main_at (run_main place p)
unfolding run_main
run_main-IsSound creates_producer p h = kept h tt h.keeps refl refl
run_main-IsSound creates_consumer p h = kept h tt h.keeps refl refl
run_main-IsSound joins_producer p h = elim (Bool-cases (is_done producer p.system)) [
  | inl done ↦ rw done (kept h done h.keeps refl refl)
  | inr busy ↦ rw busy (kept h tt h.keeps refl refl)
]
run_main-IsSound joins_consumer p h = elim (Bool-cases (is_done consumer p.system)) [
  | inl done ↦ rw done (kept h (h.joined, done) tt refl refl)
  | inr busy ↦ rw busy (kept h h.joined h.keeps refl refl)
]
run_main-IsSound destroys_condc p h = kept h h.joined tt refl refl
run_main-IsSound destroys_condp p h = kept h h.joined tt refl refl
run_main-IsSound destroys_mutex p h = kept h h.joined tt refl refl
run_main-IsSound returned p h = kept h h.joined tt refl refl

pub run_program-IsSound :
    (rs : List Runner) (p : Program)
    → IsSound p.main_at p
    → IsSound (run_program rs p).main_at (run_program rs p)
unfolding run_program
run_program-IsSound [] p h = h
run_program-IsSound (main_thread ∷ rs) p h =
    run_program-IsSound rs (run_main p.main_at p) (run_main-IsSound p.main_at p h)
run_program-IsSound (worker e ∷ rs) p h =
    run_program-IsSound rs (run_thread e p) (run_thread-IsSound e p h)

pub initial-IsSound : IsSound creates_producer initial
initial-IsSound = record {
  safe = start-IsSafe;
  joined = tt;
  keeps = (refl, refl, refl);
  unharmed = refl;
}

-- Under every schedule of `main` and the two threads, wake-ups with no signal included, no thread
-- uses the mutex or a condition that `main` has destroyed, and what holds of the threads alone
-- still does.
pub run_program-unharmed :
    (rs : List Runner)
    → ((run_program rs initial).misused ≡ false) × IsSafe (run_program rs initial).system
run_program-unharmed rs =
    let h = run_program-IsSound rs initial initial-IsSound in (h.unharmed, h.safe)
