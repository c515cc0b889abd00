-- ===== src/Threads/Condition/Main.antt =====
-- `main` of thread/producerAndConsumer/conditionSolution.cpp with the two threads that it starts.
pub mod Joins
pub mod Returns
use linux_study_notes.Threads.Condition.{
  rounds, locks, tests, sleeps, woken, works, signals, unlocks, System, Event, runs, wakes_up, move,
  or_stay, start,
}
use linux_study_notes.Threads.Semaphore.{Thread, producer, consumer}
use linux_study_notes.Prelude.{
  ℕ, ◌==◌, Bool, true, false, not, ◌&&◌, ◌||◌, List, [], ◌∷◌, Option, none, some, ltb, leb,
  if◌then◌else◌,
}

-- The next call of `main` behind the three initialisations.
pub data MainPlace : Type 0 where
  creates_producer creates_consumer joins_producer joins_consumer destroys_condc destroys_condp
        destroys_mutex returned :
      MainPlace

-- The threads, `main`, which of the mutex and the conditions are there, and whether one was used
-- that was not.
pub record Program : Type 0 where
  pub system : System
  pub main_at : MainPlace
  pub has_condc : Bool
  pub has_condp : Bool
  pub has_mutex : Bool
  pub misused : Bool

-- Whether `pthread_create` has been called for the thread.
unfoldable pub is_created : Thread → MainPlace → Bool
is_created producer creates_producer = false
is_created consumer creates_producer = false
is_created consumer creates_consumer = false
is_created t place = true

-- The loop of the thread has ended.
unfoldable pub is_done : Thread → System → Bool
is_done producer s = elim s.producer_at [ locks ↦ leb rounds s.produced | _ ↦ false ]
is_done consumer s = elim s.consumer_at [ locks ↦ leb rounds s.taken | _ ↦ false ]

-- What the next step of the thread uses of the mutex and the conditions: in `pthread_cond_wait` it
-- uses both.
pub record Uses : Type 0 where
  pub condc : Bool
  pub condp : Bool
  pub mutex : Bool

abbrev pub uses_none : Uses
uses_none = record { condc = false; condp = false; mutex = false }

abbrev pub uses_mutex : Uses
uses_mutex = record { condc = false; condp = false; mutex = true }

unfoldable pub used_by : Thread → System → Uses
used_by producer s = elim s.producer_at [
  | locks ↦ record { condc = false; condp = false; mutex = ltb s.produced rounds }
  | tests ↦
      let waits = not (s.buffer == 0) in record { condc = false; condp = waits; mutex = waits }
  | sleeps ↦ record { condc = false; condp = true; mutex = true }
  | woken ↦ record { condc = false; condp = true; mutex = true }
  | works ↦ uses_none
  | signals ↦ record { condc = true; condp = false; mutex = false }
  | unlocks ↦ uses_mutex
]
used_by consumer s = elim s.consumer_at [
  | locks ↦ record { condc = false; condp = false; mutex = ltb s.taken rounds }
  | tests ↦ let waits = s.buffer == 0 in record { condc = waits; condp = false; mutex = waits }
  | sleeps ↦ record { condc = true; condp = false; mutex = true }
  | woken ↦ record { condc = true; condp = false; mutex = true }
  | works ↦ uses_none
  | signals ↦ record { condc = false; condp = true; mutex = false }
  | unlocks ↦ uses_mutex
]

unfoldable pub is_misuse : Uses → Program → Bool
is_misuse u p =
    (u.condc && not p.has_condc) || (u.condp && not p.has_condp) || (u.mutex && not p.has_mutex)

-- One call of `main`; `pthread_join` waits for the end of the thread.
unfoldable pub run_main : MainPlace → Program → Program
unfolding is_done
run_main creates_producer p = record p { main_at = creates_consumer }
run_main creates_consumer p = record p { main_at = joins_producer }
run_main joins_producer p = record p {
  main_at = if is_done producer p.system then joins_consumer else joins_producer;
}
run_main joins_consumer p = record p {
  main_at = if is_done consumer p.system then destroys_condc else joins_consumer;
}
run_main destroys_condc p = record p { main_at = destroys_condp; has_condc = false }
run_main destroys_condp p = record p { main_at = destroys_mutex; has_condp = false }
run_main destroys_mutex p = record p { main_at = returned; has_mutex = false }
run_main returned p = record p { main_at = returned }

abbrev pub thread_of : Event → Thread
thread_of (runs t) = t
thread_of (wakes_up t) = t

-- One event of a thread that has been created.
unfoldable pub run_thread : Event → Program → Program
unfolding is_created used_by is_misuse
run_thread e p =
    if is_created (thread_of e) p.main_at
    then record p {
      system = or_stay p.system (move e p.system);
      misused = p.misused || is_misuse (used_by (thread_of e) p.system) p;
    }
    else p

pub data Runner : Type 0 where
  main_thread : Runner
  worker : Event → Runner

-- A schedule of the three.
unfoldable pub run_program : List Runner → Program → Program
unfolding run_main run_thread
run_program [] p = p
run_program (main_thread ∷ rs) p = run_program rs (run_main p.main_at p)
run_program (worker e ∷ rs) p = run_program rs (run_thread e p)

-- Behind `pthread_mutex_init` and both calls of `pthread_cond_init`.
abbrev pub initial : Program
initial = record {
  system = start;
  main_at = creates_producer;
  has_condc = true;
  has_condp = true;
  has_mutex = true;
  misused = false;
}
