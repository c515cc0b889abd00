-- ===== src/Threads/Condition/Progress.antt =====
-- Schedules of thread/producerAndConsumer/conditionSolution.cpp: their states, and who can move in
-- them.
use linux_study_notes.Prelude.{
  ℕ, zero, suc, ◌+◌, ◌≤◌, ◌<◌, ◌≡◌, ◌≢◌, refl, sym, ap, ◌∙◌, Bool, true, false, List, [], ◌∷◌, ◌++◌,
  append-nil, Option, none, some, ltb, ◌==◌, if◌then◌else◌, arith, length, length-append,
  Bool-cases, inl, inr, ◌⊎◌, lt→ltb,
}
use linux_study_notes.Threads.Condition.Safety.{
  used, items, in_buffer, Holds, IsSafe, wake_producer, wake_consumer,
}
use linux_study_notes.Threads.Condition.Steps.{Kept}
use linux_study_notes.Threads.Condition.Producing.{produce_at-Kept}
use linux_study_notes.Threads.Condition.Consuming.{consume_at-Kept}
use linux_study_notes.Threads.Condition.{
  rounds, Place, locks, tests, sleeps, woken, works, signals, unlocks, System, produce_at,
  consume_at, Event, runs, wakes_up, move, or_stay, schedule, start,
}
use linux_study_notes.Threads.Semaphore.{producer, consumer}

pub or_stay-IsSafe : (s : System) (r : Option System) → IsSafe s → Kept r → IsSafe (or_stay s r)
or_stay-IsSafe s none h k = h
or_stay-IsSafe s (some s') h k = k

pub move-Kept : (e : Event) (s : System) → IsSafe s → Kept (move e s)
unfolding move
move-Kept (runs producer) s h = produce_at-Kept s.producer_at s h
move-Kept (runs consumer) s h = consume_at-Kept s.consumer_at s h
move-Kept (wakes_up producer) s h =
    let w = wake_producer s.producer_at s.consumer_at s h in
    record {
      order = w.order;
      counted = w.counted;
      exclusive = w.exclusive;
      lock = w.lock;
      producer_works = w.producer_works;
      producer_sleeps = w.producer_sleeps;
      consumer_works = w.consumer_works;
      consumer_sleeps = w.consumer_sleeps;
      produced_most = w.produced_most;
      taken_most = w.taken_most;
    }
move-Kept (wakes_up consumer) s h =
    let w = wake_consumer s.producer_at s.consumer_at s h in
    record {
      order = w.order;
      counted = w.counted;
      exclusive = w.exclusive;
      lock = w.lock;
      producer_works = w.producer_works;
      producer_sleeps = w.producer_sleeps;
      consumer_works = w.consumer_works;
      consumer_sleeps = w.consumer_sleeps;
      produced_most = w.produced_most;
      taken_most = w.taken_most;
    }

schedule-IsSafe : (es : List Event) (s : System) → IsSafe s → IsSafe (schedule es s)
unfolding schedule
schedule-IsSafe [] s h = h
schedule-IsSafe (e ∷ es) s h =
    schedule-IsSafe es (or_stay s (move e s)) (or_stay-IsSafe s (move e s) h (move-Kept e s h))

pub start-IsSafe : IsSafe start
start-IsSafe = record {
  order = refl;
  counted = refl;
  exclusive = refl;
  lock = refl;
  producer_works = λ e. cc;
  producer_sleeps = λ e f. cc;
  consumer_works = λ e. cc;
  consumer_sleeps = λ e f. cc;
  produced_most = omega arith;
  taken_most = omega arith;
}

-- Under every schedule, wake-ups with no signal included: at most one thread is inside the mutex,
-- the buffer is only overwritten when it is empty and only consumed when it is full, and the items
-- that were consumed and the one in the buffer are those that were produced, each once and in
-- order.
pub every_run-IsSafe : (es : List Event) → IsSafe (schedule es start)
every_run-IsSafe es = schedule-IsSafe es start start-IsSafe

abbrev pub goes : Option System → Bool
goes none = false
goes (some s) = true

-- Both loops have ended, and every item was consumed in order.
pub record IsFinished (s : System) : Type 0 where
  pub all_produced : s.produced ≡ rounds
  pub all_taken : s.taken ≡ rounds
  pub in_order : s.consumed ≡ items rounds

abbrev pub GoesOn : System → Type 0
GoesOn s =
    (goes (move (runs producer) s) ≡ true) ⊎ (goes (move (runs consumer) s) ≡ true) ⊎ IsFinished s

abbrev GoesAt : Place → Place → System → Type 0
GoesAt p c s = (goes (produce_at p s) ≡ true) ⊎ (goes (consume_at c s) ≡ true) ⊎ IsFinished s

length-items : (n : ℕ) → length (items n) ≡ n
length-items zero = refl
length-items (suc n) = omega (arith, length-append (items n) (suc n ∷ []), length-items n)

length-in_buffer : (b : ℕ) → (b ≢ 0 → length (in_buffer b) ≡ 1) × (length (in_buffer b) ≤ 1)
length-in_buffer zero = (λ ne. absurd (ne refl), omega arith)
length-in_buffer (suc b) = (λ ne. refl, omega arith)

amount :
    (p c : Place) (s : System)
    → Holds p c s
    → length s.consumed + length (in_buffer s.buffer) ≡ s.produced + used p
amount p c s h =
    sym (length-append s.consumed (in_buffer s.buffer))
    ∙ ap length h.order
    ∙ length-items (s.produced + used p)

-- Both stand in front of the mutex: one can take it, or both have ended.
both_outside : (s : System) → Holds locks locks s → GoesAt locks locks s
unfolding produce_at consume_at
both_outside s h = elim (Bool-cases (ltb s.produced rounds)) [
  | inl more ↦ inl (rw more (rw (h.lock) refl))
  | inr made ↦ elim (Bool-cases (ltb s.taken rounds)) [
    | inl more ↦ inr (inl (rw more (rw (h.lock) refl)))
    | inr got ↦
        let all_made : s.produced ≡ rounds = ground (arith, h.produced_most) in
        let all_got : s.taken ≡ rounds = ground (arith, h.taken_most) in
        let none_left : length (in_buffer s.buffer) ≡ 0 =
          omega (arith, amount locks locks s h, h.counted) in
        inr (
          inr record {
            all_produced = all_made;
            all_taken = all_got;
            in_order =
                sym (append-nil s.consumed)
                ∙ ap (λ l. s.consumed ++ l) (sym (nothing (in_buffer s.buffer) none_left))
                ∙ h.order
                ∙ ap items {x = s.produced + 0} {y = rounds} (omega arith);
          })
  ]
]
  where
    nothing : (xs : List ℕ) → length xs ≡ 0 → xs ≡ []
    nothing [] e = refl
    nothing (x ∷ xs) e = absurd (omega arith)

tests_go : (b : ℕ) (s s' : System) → goes (if b == 0 then some s else some s') ≡ true
tests_go b s s' = elim (Bool-cases (b == 0)) [
  | inl is_empty ↦ rw is_empty refl
  | inr is_full ↦ rw is_full refl
]

-- A sleeping consumer has a producer that can still come.
consumer_waits : (s : System) → Holds locks sleeps s → s.produced < rounds
consumer_waits s h =
    let is_empty = h.consumer_sleeps refl refl in
    let none_in : length (in_buffer s.buffer) ≡ 0 = rw is_empty refl in
    omega (arith, amount locks sleeps s h, h.counted, h.taken_most)

producer_waits : (s : System) → Holds sleeps locks s → s.taken < rounds
producer_waits s h =
    let one_in = (length-in_buffer s.buffer).0 (h.producer_sleeps refl refl) in
    omega (arith, amount sleeps locks s h, h.counted, h.produced_most)

goes_at : (p c : Place) (s : System) → Holds p c s → GoesAt p c s
unfolding produce_at consume_at
goes_at tests c s h = inl (tests_go s.buffer _ _)
goes_at works c s h = inl refl
goes_at signals c s h = inl refl
goes_at unlocks c s h = inl refl
goes_at p tests s h = inr (inl (tests_go s.buffer _ _))
goes_at p works s h = inr (inl refl)
goes_at p signals s h = inr (inl refl)
goes_at p unlocks s h = inr (inl refl)
goes_at woken locks s h = inl (rw (h.lock) refl)
goes_at woken sleeps s h = inl (rw (h.lock) refl)
goes_at woken woken s h = inl (rw (h.lock) refl)
goes_at locks woken s h = inr (inl (rw (h.lock) refl))
goes_at sleeps woken s h = inr (inl (rw (h.lock) refl))
goes_at sleeps sleeps s h = absurd (h.producer_sleeps refl refl (h.consumer_sleeps refl refl))
goes_at locks sleeps s h =
    inl (rw (lt→ltb s.produced rounds (consumer_waits s h)) (rw (h.lock) refl))
goes_at sleeps locks s h =
    inr (inl (rw (lt→ltb s.taken rounds (producer_waits s h)) (rw (h.lock) refl)))
goes_at locks locks s h = both_outside s h

pub safe-GoesOn : (s : System) → IsSafe s → GoesOn s
unfolding move
safe-GoesOn s h = goes_at s.producer_at s.consumer_at s h

-- Under every schedule, one of the threads can make its next call with no other wake-up, or both
-- loops have ended with every item consumed in order: no signal is lost, and the threads do not
-- sleep for each other.
pub every_run-GoesOn : (es : List Event) → GoesOn (schedule es start)
every_run-GoesOn es = safe-GoesOn (schedule es start) (every_run-IsSafe es)
