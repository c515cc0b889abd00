-- ===== src/Threads/Semaphore/Safety.antt =====
-- The invariant of thread/producerAndConsumer/semaphoreSolution.cpp under every schedule.
use linux_study_notes.Prelude.{refl, List, [], ◌∷◌, Option, none, some, arith}
use linux_study_notes.Threads.Semaphore.{
  Thread, producer, consumer, System, move, or_stay, schedule, start,
}
use linux_study_notes.Threads.Semaphore.Invariant.{IsSafe, Kept}
use linux_study_notes.Threads.Semaphore.Moves.{produce_at-Kept, consume_at-Kept}

or_stay-IsSafe : (s : System) (r : Option System) → IsSafe s → Kept r → IsSafe (or_stay s r)
or_stay-IsSafe s none h k = h
or_stay-IsSafe s (some s') h k = k

move-Kept : (t : Thread) (s : System) → IsSafe s → Kept (move t s)
unfolding move
move-Kept producer s h = produce_at-Kept s.producer_at s h
move-Kept consumer s h = consume_at-Kept s.consumer_at s h

pub schedule-IsSafe : (ts : List Thread) (s : System) → IsSafe s → IsSafe (schedule ts s)
unfolding schedule
schedule-IsSafe [] s h = h
schedule-IsSafe (t ∷ ts) s h =
    schedule-IsSafe ts (or_stay s (move t s)) (or_stay-IsSafe s (move t s) h (move-Kept t s h))

start-IsSafe : IsSafe start
start-IsSafe = record {
  fulls = refl;
  empties = refl;
  order = refl;
  counted = refl;
  exclusive = refl;
  lock = refl;
  sound = refl;
  produced_most = omega arith;
  taken_most = omega arith;
}

-- Under every schedule of the two threads: the semaphores count what is in the buffer and what is
-- free, at most one thread is inside the lock, the front of an empty vector is never read, and what
-- was consumed and what waits in the buffer are the produced numbers, each once and in order.
pub every_schedule-IsSafe : (ts : List Thread) → IsSafe (schedule ts start)
every_schedule-IsSafe ts = schedule-IsSafe ts start start-IsSafe
