-- ===== src/Threads/Condition/Consuming.antt =====
-- The calls of the consumer of thread/producerAndConsumer/conditionSolution.cpp.
use linux_study_notes.Prelude.{
  ℕ, zero, suc, ◌<◌, ◌≡◌, ◌≢◌, refl, sym, ap, ◌∙◌, true, false, ◌&&◌, [], ◌∷◌, ◌++◌, append-nil,
  some, ltb, ◌==◌, arith, length-append, Bool-cases, inl, inr,
}
use linux_study_notes.Threads.Condition.Safety.{
  used, inside, signalling, in_buffer, Holds, IsSafe, wake_producer, not_asleep,
}
use linux_study_notes.Threads.Condition.{
  rounds, Place, locks, tests, sleeps, woken, works, signals, unlocks, System, consume_at,
}
use linux_study_notes.Threads.Semaphore.{consumer, is_free}
use linux_study_notes.Threads.Condition.Steps.{Kept, free_of}

-- The mutex is taken by the consumer, from `locks` or from `woken`.
enter_consumer :
    (c : Place) (s : System)
    → Holds s.producer_at c s
    → inside c ≡ false
    → used c ≡ 0
    → signalling c ≡ false
    → is_free s.owner ≡ true
    → s.taken < rounds
    → IsSafe (record s { owner = some consumer; consumer_at = tests })
enter_consumer c s h out fresh quiet free more =
    let (a, b) = free_of (inside s.producer_at) (inside c) (ap is_free (sym h.lock) ∙ free) in
    record {
      order = h.order;
      counted = omega (arith, h.counted);
      exclusive = rw a refl;
      lock = rw a refl;
      producer_works = h.producer_works;
      producer_sleeps = λ e f. h.producer_sleeps e quiet;
      consumer_works = λ e. cc;
      consumer_sleeps = λ e f. cc;
      produced_most = h.produced_most;
      taken_most = omega arith;
    }

-- What stands in a buffer that is not empty.
in_buffer_full : (b : ℕ) → b ≢ 0 → in_buffer b ≡ b ∷ []
in_buffer_full zero ne = absurd (ne refl)
in_buffer_full (suc b) ne = refl

consume_locks : (s : System) → Holds s.producer_at locks s → Kept (consume_at locks s)
unfolding consume_at
consume_locks s h = elim (Bool-cases (ltb s.taken rounds && is_free s.owner)) [
  | inr blocked ↦ rw blocked tt
  | inl goes ↦ rw goes (enter_consumer locks s h refl refl refl (ground arith) (ground arith))
]

consume_tests : (s : System) → Holds s.producer_at tests s → Kept (consume_at tests s)
unfolding consume_at
consume_tests s h =
    let out : inside s.producer_at ≡ false = ground (arith, h.exclusive) in
    elim (Bool-cases (s.buffer == 0)) [
      | inl is_empty ↦ rw is_empty record {
        order = h.order;
        counted = h.counted;
        exclusive = rw out refl;
        lock = rw out refl;
        producer_works = h.producer_works;
        producer_sleeps = λ e f. h.producer_sleeps e refl;
        consumer_works = λ e. cc;
        consumer_sleeps = λ e f. ground arith;
        produced_most = h.produced_most;
        taken_most = h.taken_most;
      }
      | inr is_full ↦ rw is_full record {
        order = h.order;
        counted = h.counted;
        exclusive = h.exclusive;
        lock = h.lock;
        producer_works = h.producer_works;
        producer_sleeps = λ e f. h.producer_sleeps e refl;
        consumer_works = λ e. ground arith;
        consumer_sleeps = λ e f. cc;
        produced_most = h.produced_most;
        taken_most = h.taken_most;
      }
    ]

consume_woken : (s : System) → Holds s.producer_at woken s → Kept (consume_at woken s)
unfolding consume_at
consume_woken s h = elim (Bool-cases (is_free s.owner)) [
  | inr blocked ↦ rw blocked tt
  | inl goes ↦ rw goes (enter_consumer woken s h refl refl refl goes (omega (arith, h.taken_most)))
]

consume_works : (s : System) → Holds s.producer_at works s → Kept (consume_at works s)
unfolding consume_at
consume_works s h = record {
  order =
      append-nil (s.consumed ++ s.buffer ∷ [])
      ∙ ap (λ l. s.consumed ++ l) (sym (in_buffer_full s.buffer (h.consumer_works refl)))
      ∙ h.order;
  counted = omega (arith, h.counted, length-append s.consumed (s.buffer ∷ []));
  exclusive = h.exclusive;
  lock = h.lock;
  producer_works = λ e. refl;
  producer_sleeps = λ e f. cc;
  consumer_works = λ e. cc;
  consumer_sleeps = λ e f. cc;
  produced_most = h.produced_most;
  taken_most = h.taken_most;
}

consume_signals : (s : System) → Holds s.producer_at signals s → Kept (consume_at signals s)
unfolding consume_at
consume_signals s h =
    let w = wake_producer s.producer_at signals s h in
    record {
      order = w.order;
      counted = w.counted;
      exclusive = w.exclusive;
      lock = w.lock;
      producer_works = w.producer_works;
      producer_sleeps = λ e f. absurd (not_asleep s.producer_at e);
      consumer_works = λ e. cc;
      consumer_sleeps = λ e f. cc;
      produced_most = w.produced_most;
      taken_most = w.taken_most;
    }

consume_unlocks : (s : System) → Holds s.producer_at unlocks s → Kept (consume_at unlocks s)
unfolding consume_at
consume_unlocks s h =
    let out : inside s.producer_at ≡ false = ground (arith, h.exclusive) in
    record {
      order = h.order;
      counted = omega (arith, h.counted);
      exclusive = rw out refl;
      lock = rw out refl;
      producer_works = h.producer_works;
      producer_sleeps = λ e f. h.producer_sleeps e refl;
      consumer_works = λ e. cc;
      consumer_sleeps = λ e f. cc;
      produced_most = h.produced_most;
      taken_most = omega (arith, h.taken_most);
    }

pub consume_at-Kept : (c : Place) (s : System) → Holds s.producer_at c s → Kept (consume_at c s)
unfolding consume_at
consume_at-Kept locks s h = consume_locks s h
consume_at-Kept tests s h = consume_tests s h
consume_at-Kept sleeps s h = tt
consume_at-Kept woken s h = consume_woken s h
consume_at-Kept works s h = consume_works s h
consume_at-Kept signals s h = consume_signals s h
consume_at-Kept unlocks s h = consume_unlocks s h
