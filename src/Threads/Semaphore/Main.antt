-- ===== src/Threads/Semaphore/Main.antt =====
-- `main` of thread/producerAndConsumer/semaphoreSolution.cpp with the two threads that it starts.
pub mod Schedules
use linux_study_notes.Threads.Semaphore.{
  max_size, Thread, producer, consumer, waits, posts, System, move, or_stay, start,
}
use linux_study_notes.Prelude.{
  Bool, true, false, not, ◌||◌, List, [], ◌∷◌, Option, none, some, ltb, leb, if◌then◌else◌,
}

-- The next call of `main` behind the `sem_init`s.
pub data MainPlace : Type 0 where
  creates_producer creates_consumer destroys_full destroys_empty joins_producer joins_consumer
        returned :
      MainPlace

pub data Semaphore : Type 0 where
  full_one empty_one : Semaphore

-- The threads, `main`, which semaphores are there, and whether one was used that was not.
pub record Program : Type 0 where
  pub system : System
  pub main_at : MainPlace
  pub has_full : Bool
  pub has_empty : Bool
  pub misused : Bool

-- Whether `pthread_create` has been called for the thread.
unfoldable pub is_created : Thread → MainPlace → Bool
is_created producer creates_producer = false
is_created consumer creates_producer = false
is_created consumer creates_consumer = false
is_created t place = true

-- The loop of the thread has ended.
unfoldable pub is_done : Thread → System → Bool
is_done producer s = elim s.producer_at [ waits ↦ leb max_size s.produced | _ ↦ false ]
is_done consumer s = elim s.consumer_at [ waits ↦ leb max_size s.taken | _ ↦ false ]

-- The semaphore that the next call of the thread uses.
unfoldable pub semaphore_of : Thread → System → Option Semaphore
semaphore_of producer s = elim s.producer_at [
  | waits ↦ if ltb s.produced max_size then some empty_one else none
  | posts ↦ some full_one
  | _ ↦ none
]
semaphore_of consumer s = elim s.consumer_at [
  | waits ↦ if ltb s.taken max_size then some full_one else none
  | posts ↦ some empty_one
  | _ ↦ none
]

unfoldable pub is_misuse : Option Semaphore → Program → Bool
is_misuse none p = false
is_misuse (some full_one) p = not p.has_full
is_misuse (some empty_one) p = not p.has_empty

-- One call of `main`; `pthread_join` waits for the end of the thread.
unfoldable pub run_main : MainPlace → Program → Program
unfolding is_done
run_main creates_producer p = record p { main_at = creates_consumer }
run_main creates_consumer p = record p { main_at = destroys_full }
run_main destroys_full p = record p { main_at = destroys_empty; has_full = false }
run_main destroys_empty p = record p { main_at = joins_producer; has_empty = false }
run_main joins_producer p = record p {
  main_at = if is_done producer p.system then joins_consumer else joins_producer;
}
run_main joins_consumer p = record p {
  main_at = if is_done consumer p.system then returned else joins_consumer;
}
run_main returned p = p

-- One call of a thread that has been created.
unfoldable pub run_thread : Thread → Program → Program
unfolding is_created semaphore_of is_misuse
run_thread t p =
    if is_created t p.main_at
    then record p {
      system = or_stay p.system (move t p.system);
      misused = p.misused || is_misuse (semaphore_of t p.system) p;
    }
    else p

pub data Runner : Type 0 where
  main_thread : Runner
  worker : Thread → Runner

-- A schedule of the three.
unfoldable pub run_program : List Runner → Program → Program
unfolding run_main run_thread
run_program [] p = p
run_program (main_thread ∷ rs) p = run_program rs (run_main p.main_at p)
run_program (worker t ∷ rs) p = run_program rs (run_thread t p)

-- Behind both calls of `sem_init`.
abbrev pub initial : Program
initial = record {
  system = start;
  main_at = creates_producer;
  has_full = true;
  has_empty = true;
  misused = false;
}
