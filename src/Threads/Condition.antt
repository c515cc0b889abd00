-- ===== src/Threads/Condition.antt =====
-- thread/producerAndConsumer/conditionSolution.cpp: the two threads, one call at a time.
pub mod Safety
pub mod Steps
pub mod Producing
pub mod Consuming
pub mod Progress
pub mod Main
use linux_study_notes.Prelude.{
  ℕ, suc, ◌+◌, Bool, true, false, ◌&&◌, List, [], ◌∷◌, ◌++◌, Option, none, some, ltb, ◌==◌,
  if◌then◌else◌,
}
use linux_study_notes.Threads.Semaphore.{Thread, producer, consumer, is_free}

-- `MAX`
abbrev pub rounds : ℕ
rounds = 10

-- What a thread does next: lock the mutex, test `buffer`, go on with the call of
-- `pthread_cond_wait` until it is woken or until it has the mutex again, use the buffer, signal,
-- unlock.
pub data Place : Type 0 where
  locks tests sleeps woken works signals unlocks : Place

-- The globals, how many rounds each thread has ended, and the items that were consumed, oldest
-- first.
pub record System : Type 0 where
  pub buffer : ℕ
  pub owner : Option Thread
  pub produced : ℕ
  pub producer_at : Place
  pub taken : ℕ
  pub consumer_at : Place
  pub consumed : List ℕ

-- `pthread_cond_signal` on a condition that only one thread waits for.
abbrev pub wake : Place → Place
wake sleeps = woken
wake locks = locks
wake tests = tests
wake woken = woken
wake works = works
wake signals = signals
wake unlocks = unlocks

-- The next call of the producer, `none` while it blocks and when its loop has ended. Item `i` is
-- one more than the rounds that have ended.
unfoldable pub produce_at : Place → System → Option System
produce_at locks s =
    if ltb s.produced rounds && is_free s.owner
    then some (record s { owner = some producer; producer_at = tests })
    else none
produce_at tests s =
    if s.buffer == 0
    then some (record s { producer_at = works })
    else some (record s { owner = none; producer_at = sleeps })
produce_at sleeps s = none
produce_at woken s =
    if is_free s.owner then some (record s { owner = some producer; producer_at = tests }) else none
produce_at works s = some (record s { buffer = s.produced + 1; producer_at = signals })
produce_at signals s = some (record s { consumer_at = wake s.consumer_at; producer_at = unlocks })
produce_at unlocks s =
    some (record s { owner = none; produced = s.produced + 1; producer_at = locks })

unfoldable pub consume_at : Place → System → Option System
consume_at locks s =
    if ltb s.taken rounds && is_free s.owner
    then some (record s { owner = some consumer; consumer_at = tests })
    else none
consume_at tests s =
    if s.buffer == 0
    then some (record s { owner = none; consumer_at = sleeps })
    else some (record s { consumer_at = works })
consume_at sleeps s = none
consume_at woken s =
    if is_free s.owner then some (record s { owner = some consumer; consumer_at = tests }) else none
consume_at works s =
    some (record s { consumed = s.consumed ++ s.buffer ∷ []; buffer = 0; consumer_at = signals })
consume_at signals s = some (record s { producer_at = wake s.producer_at; consumer_at = unlocks })
consume_at unlocks s = some (record s { owner = none; taken = s.taken + 1; consumer_at = locks })

-- What the scheduler does: it runs a thread, or it wakes one with no signal, which
-- `pthread_cond_wait` may do.
pub data Event : Type 0 where
  runs : Thread → Event
  wakes_up : Thread → Event

unfoldable pub move : Event → System → Option System
move (runs producer) s = produce_at s.producer_at s
move (runs consumer) s = consume_at s.consumer_at s
move (wakes_up producer) s = some (record s { producer_at = wake s.producer_at })
move (wakes_up consumer) s = some (record s { consumer_at = wake s.consumer_at })

abbrev pub or_stay : System → Option System → System
or_stay s none = s
or_stay s (some s') = s'

unfoldable pub schedule : List Event → System → System
schedule [] s = s
schedule (e ∷ es) s = schedule es (or_stay s (move e s))

abbrev pub start : System
start = record {
  buffer = 0;
  owner = none;
  produced = 0;
  producer_at = locks;
  taken = 0;
  consumer_at = locks;
  consumed = [];
}
