-- ===== src/Threads/Semaphore.antt =====
-- thread/producerAndConsumer/semaphoreSolution.cpp: the two threads, one call at a time.
pub mod Invariant
pub mod Moves
pub mod Safety
pub mod Progress
pub mod Main
use linux_study_notes.Prelude.{
  ℕ, suc, ◌+◌, ◌-◌, Bool, true, false, ◌&&◌, List, [], ◌∷◌, ◌++◌, Option, none, some, ltb,
  if◌then◌else◌,
}

-- `MAX_SIZE`
abbrev pub max_size : ℕ
max_size = 5

pub data Thread : Type 0 where
  producer consumer : Thread

-- Which call a thread makes next: `sem_wait`, `pthread_mutex_lock`, its work on the buffer,
-- `pthread_mutex_unlock`, or `sem_post` with the end of the round.
pub data Place : Type 0 where
  waits locks works unlocks posts : Place

-- The globals, the locals `i` and `nMsgCount`, the values that were consumed, oldest first, and
-- whether the front of an empty vector has been read.
pub record System : Type 0 where
  pub buffer : List ℕ
  pub full : ℕ
  pub empty : ℕ
  pub owner : Option Thread
  pub produced : ℕ
  pub producer_at : Place
  pub taken : ℕ
  pub consumer_at : Place
  pub consumed : List ℕ
  pub broken : Bool

abbrev pub is_free : Option Thread → Bool
is_free none = true
is_free (some t) = false

-- The next call of the producer, `none` while it blocks and when its loop has ended.
unfoldable pub produce_at : Place → System → Option System
produce_at waits s =
    if ltb s.produced max_size && ltb 0 s.empty
    then some (record s { empty = s.empty - 1; producer_at = locks })
    else none
produce_at locks s =
    if is_free s.owner then some (record s { owner = some producer; producer_at = works }) else none
produce_at works s = some (record s { buffer = s.buffer ++ s.produced ∷ []; producer_at = unlocks })
produce_at unlocks s = some (record s { owner = none; producer_at = posts })
produce_at posts s =
    some (record s { full = s.full + 1; produced = s.produced + 1; producer_at = waits })

-- `*buffer.begin()` and `erase`
unfoldable pub take_front : List ℕ → System → System
take_front [] s = record s { broken = true; consumer_at = unlocks }
take_front (value ∷ rest) s = record s {
  buffer = rest;
  consumed = s.consumed ++ value ∷ [];
  consumer_at = unlocks;
}

unfoldable pub consume_at : Place → System → Option System
consume_at waits s =
    if ltb s.taken max_size && ltb 0 s.full
    then some (record s { full = s.full - 1; consumer_at = locks })
    else none
consume_at locks s =
    if is_free s.owner then some (record s { owner = some consumer; consumer_at = works }) else none
consume_at works s = some (take_front s.buffer s)
consume_at unlocks s = some (record s { owner = none; consumer_at = posts })
consume_at posts s =
    some (record s { empty = s.empty + 1; taken = s.taken + 1; consumer_at = waits })

unfoldable pub move : Thread → System → Option System
move producer s = produce_at s.producer_at s
move consumer s = consume_at s.consumer_at s

abbrev pub or_stay : System → Option System → System
or_stay s none = s
or_stay s (some s') = s'

-- A schedule: the thread that is run next, each time. One that blocks changes nothing.
unfoldable pub schedule : List Thread → System → System
schedule [] s = s
schedule (t ∷ ts) s = schedule ts (or_stay s (move t s))

-- `sem_init(&full,0,0)`, `sem_init(&empty,0,MAX_SIZE)`
abbrev pub start : System
start = record {
  buffer = [];
  full = 0;
  empty = max_size;
  owner = none;
  produced = 0;
  producer_at = waits;
  taken = 0;
  consumer_at = waits;
  consumed = [];
  broken = false;
}
