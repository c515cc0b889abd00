-- ===== src/Threads/Condition/Producing.antt =====
-- The calls of the producer of thread/producerAndConsumer/conditionSolution.cpp.
use linux_study_notes.Prelude.{
  suc, ◌+◌, ◌<◌, ◌≡◌, refl, sym, ap, ◌∙◌, true, false, ◌&&◌, [], ◌∷◌, ◌++◌, append-nil, some, ltb,
  ◌==◌, arith, Bool-cases, inl, inr,
}
use linux_study_notes.Threads.Condition.Safety.{
  used, inside, signalling, items, in_buffer, Holds, IsSafe, wake_consumer, not_asleep,
}
use linux_study_notes.Threads.Condition.{
  rounds, Place, locks, tests, sleeps, woken, works, signals, unlocks, System, produce_at,
}
use linux_study_notes.Threads.Semaphore.Invariant.{holder}
use linux_study_notes.Threads.Semaphore.{producer, is_free}
use linux_study_notes.Threads.Condition.Steps.{Kept, free_of}

-- The mutex is taken by the producer, from `locks` or from `woken`.
enter_producer :
    (p : Place) (s : System)
    → Holds p s.consumer_at s
    → inside p ≡ false
    → used p ≡ 0
    → signalling p ≡ false
    → is_free s.owner ≡ true
    → s.produced < rounds
    → IsSafe (record s { owner = some producer; producer_at = tests })
enter_producer p s h out fresh quiet free more =
    let (a, b) = free_of (inside p) (inside s.consumer_at) (ap is_free (sym h.lock) ∙ free) in
    record {
      order = h.order ∙ ap (λ k. items (s.produced + k)) fresh;
      counted = h.counted;
      exclusive = b;
      lock = refl;
      producer_works = λ e. cc;
      producer_sleeps = λ e f. cc;
      consumer_works = h.consumer_works;
      consumer_sleeps = λ e f. h.consumer_sleeps e quiet;
      produced_most = omega arith;
      taken_most = h.taken_most;
    }

produce_locks : (s : System) → Holds locks s.consumer_at s → Kept (produce_at locks s)
unfolding produce_at
produce_locks s h = elim (Bool-cases (ltb s.produced rounds && is_free s.owner)) [
  | inr blocked ↦ rw blocked tt
  | inl goes ↦ rw goes (enter_producer locks s h refl refl refl (ground arith) (ground arith))
]

produce_tests : (s : System) → Holds tests s.consumer_at s → Kept (produce_at tests s)
unfolding produce_at
produce_tests s h = elim (Bool-cases (s.buffer == 0)) [
  | inl is_empty ↦ rw is_empty record {
    order = h.order;
    counted = h.counted;
    exclusive = h.exclusive;
    lock = h.lock;
    producer_works = λ e. ground arith;
    producer_sleeps = λ e f. cc;
    consumer_works = h.consumer_works;
    consumer_sleeps = λ e f. h.consumer_sleeps e refl;
    produced_most = h.produced_most;
    taken_most = h.taken_most;
  }
  | inr is_full ↦ rw is_full record {
    order = h.order;
    counted = h.counted;
    exclusive = refl;
    lock = sym (ap (holder false) h.exclusive);
    producer_works = λ e. cc;
    producer_sleeps = λ e f. ground arith;
    consumer_works = h.consumer_works;
    consumer_sleeps = λ e f. h.consumer_sleeps e refl;
    produced_most = h.produced_most;
    taken_most = h.taken_most;
  }
]

produce_woken : (s : System) → Holds woken s.consumer_at s → Kept (produce_at woken s)
unfolding produce_at
produce_woken s h = elim (Bool-cases (is_free s.owner)) [
  | inr blocked ↦ rw blocked tt
  | inl goes ↦
      rw goes (enter_producer woken s h refl refl refl goes (omega (arith, h.produced_most)))
]

produce_works : (s : System) → Holds works s.consumer_at s → Kept (produce_at works s)
unfolding produce_at
produce_works s h =
    let was : s.buffer ≡ 0 = h.producer_works refl in
    let one_more : s.produced + 1 ≡ suc s.produced = omega arith in
    record {
      order =
          ap (λ k. s.consumed ++ in_buffer k) one_more
          ∙ ap (λ l. l ++ suc s.produced ∷ [])
              (sym (append-nil s.consumed)
                ∙ ap (λ k. s.consumed ++ in_buffer k) (sym was)
                ∙ h.order
                ∙ ap items {x = s.produced + 0} {y = s.produced} (omega arith))
          ∙ ap items (sym one_more);
      counted = h.counted;
      exclusive = h.exclusive;
      lock = h.lock;
      producer_works = λ e. cc;
      producer_sleeps = λ e f. cc;
      consumer_works = λ e. omega arith;
      consumer_sleeps = λ e f. cc;
      produced_most = h.produced_most;
      taken_most = h.taken_most;
    }

produce_signals : (s : System) → Holds signals s.consumer_at s → Kept (produce_at signals s)
unfolding produce_at
produce_signals s h =
    let w = wake_consumer signals s.consumer_at s h in
    record {
      order = w.order;
      counted = w.counted;
      exclusive = w.exclusive;
      lock = w.lock;
      producer_works = λ e. cc;
      producer_sleeps = λ e f. cc;
      consumer_works = w.consumer_works;
      consumer_sleeps = λ e f. absurd (not_asleep s.consumer_at e);
      produced_most = w.produced_most;
      taken_most = w.taken_most;
    }

produce_unlocks : (s : System) → Holds unlocks s.consumer_at s → Kept (produce_at unlocks s)
unfolding produce_at
produce_unlocks s h = record {
  order = h.order ∙ ap items {x = s.produced + 1} {y = s.produced + 1 + 0} (omega arith);
  counted = h.counted;
  exclusive = refl;
  lock = sym (ap (holder false) h.exclusive);
  producer_works = λ e. cc;
  producer_sleeps = λ e f. cc;
  consumer_works = h.consumer_works;
  consumer_sleeps = λ e f. h.consumer_sleeps e refl;
  produced_most = omega (arith, h.produced_most);
  taken_most = h.taken_most;
}

pub produce_at-Kept : (p : Place) (s : System) → Holds p s.consumer_at s → Kept (produce_at p s)
unfolding produce_at
produce_at-Kept locks s h = produce_locks s h
produce_at-Kept tests s h = produce_tests s h
produce_at-Kept sleeps s h = tt
produce_at-Kept woken s h = produce_woken s h
produce_at-Kept works s h = produce_works s h
produce_at-Kept signals s h = produce_signals s h
produce_at-Kept unlocks s h = produce_unlocks s h
