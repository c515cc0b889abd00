-- ===== src/Threads/Semaphore/Invariant.antt =====
-- What holds between two calls of thread/producerAndConsumer/semaphoreSolution.cpp.
use linux_study_notes.Prelude.{
  ℕ, zero, suc, ◌+◌, ◌≤◌, ◌≡◌, refl, Bool, true, false, ◌&&◌, List, [], ◌∷◌, ◌++◌, Option, none,
  some, length,
}
use linux_study_notes.Threads.Semaphore.{
  max_size, Thread, producer, consumer, Place, waits, locks, works, unlocks, posts, System, is_free,
}

-- A token that is taken and not used yet, and work that is done and not posted.
abbrev pub holding : Place → ℕ
holding waits = 0
holding locks = 1
holding works = 1
holding unlocks = 0
holding posts = 0

abbrev pub after_work : Place → ℕ
after_work waits = 0
after_work locks = 0
after_work works = 0
after_work unlocks = 1
after_work posts = 1

abbrev pub inside : Place → Bool
inside waits = false
inside locks = false
inside works = true
inside unlocks = true
inside posts = false

abbrev pub holder : Bool → Bool → Option Thread
holder true c = some producer
holder false true = some consumer
holder false false = none

-- 0, 1, ..., n - 1
abbrev pub upto : ℕ → List ℕ
upto zero = []
upto (suc n) = upto n ++ n ∷ []

-- The semaphores count the buffer, the lock has one owner, and what was consumed and what is in the
-- buffer are the numbers that were produced, in order.
pub record Holds (p c : Place) (s : System) : Type 0 where
  pub fulls : s.full + holding c + after_work p ≡ length s.buffer
  pub empties : s.empty + holding p + length s.buffer + after_work c ≡ max_size
  pub order : s.consumed ++ s.buffer ≡ upto (s.produced + after_work p)
  pub counted : s.taken + after_work c ≡ length s.consumed
  pub exclusive : (inside p && inside c) ≡ false
  pub lock : s.owner ≡ holder (inside p) (inside c)
  pub sound : s.broken ≡ false
  pub produced_most : s.produced + holding p + after_work p ≤ max_size
  pub taken_most : s.taken + holding c + after_work c ≤ max_size

abbrev pub IsSafe : System → Type 0
IsSafe s = Holds s.producer_at s.consumer_at s

abbrev pub Kept : Option System → Type 0
Kept none = Unit
Kept (some s) = IsSafe s

pub free_of : (p c : Bool) → is_free (holder p c) ≡ true → (p ≡ false) × (c ≡ false)
free_of true c e = cc
free_of false true e = cc
free_of false false e = (refl, refl)
