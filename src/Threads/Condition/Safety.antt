-- ===== src/Threads/Condition/Safety.antt =====
-- The invariant of thread/producerAndConsumer/conditionSolution.cpp, and its wake-ups.
use linux_study_notes.Prelude.{
  ℕ, zero, suc, ◌+◌, ◌≤◌, ◌≡◌, ◌≢◌, refl, sym, ap, ◌∙◌, Bool, true, false, ◌&&◌, List, [], ◌∷◌,
  ◌++◌, arith, length,
}
use linux_study_notes.Threads.Condition.{
  rounds, Place, locks, tests, sleeps, woken, works, signals, unlocks, System, wake,
}
use linux_study_notes.Threads.Semaphore.Invariant.{holder}

-- The buffer has been used in this round.
abbrev pub used : Place → ℕ
used locks = 0
used tests = 0
used sleeps = 0
used woken = 0
used works = 0
used signals = 1
used unlocks = 1

-- A round has begun.
abbrev pub begun : Place → ℕ
begun locks = 0
begun tests = 1
begun sleeps = 1
begun woken = 1
begun works = 1
begun signals = 1
begun unlocks = 1

abbrev pub inside : Place → Bool
inside locks = false
inside tests = true
inside sleeps = false
inside woken = false
inside works = true
inside signals = true
inside unlocks = true

-- 1, 2, ..., n
abbrev pub items : ℕ → List ℕ
items zero = []
items (suc n) = items n ++ suc n ∷ []

-- The item in the buffer, if there is one.
abbrev pub in_buffer : ℕ → List ℕ
in_buffer zero = []
in_buffer (suc n) = suc n ∷ []

abbrev pub working : Place → Bool
working locks = false
working tests = false
working sleeps = false
working woken = false
working works = true
working signals = false
working unlocks = false

abbrev pub sleeping : Place → Bool
sleeping locks = false
sleeping tests = false
sleeping sleeps = true
sleeping woken = false
sleeping works = false
sleeping signals = false
sleeping unlocks = false

abbrev pub signalling : Place → Bool
signalling locks = false
signalling tests = false
signalling sleeps = false
signalling woken = false
signalling works = false
signalling signals = true
signalling unlocks = false

-- The consumed items and the one in the buffer are those that were produced, in order; the mutex
-- has one owner; each thread uses the buffer in the state that it has waited for; and one that
-- sleeps does so while it has to wait, or its signal is about to come.
pub record Holds (p c : Place) (s : System) : Type 0 where
  pub order : s.consumed ++ in_buffer s.buffer ≡ items (s.produced + used p)
  pub counted : s.taken + used c ≡ length s.consumed
  pub exclusive : (inside p && inside c) ≡ false
  pub lock : s.owner ≡ holder (inside p) (inside c)
  pub producer_works : working p ≡ true → s.buffer ≡ 0
  pub producer_sleeps : sleeping p ≡ true → signalling c ≡ false → s.buffer ≢ 0
  pub consumer_works : working c ≡ true → s.buffer ≢ 0
  pub consumer_sleeps : sleeping c ≡ true → signalling p ≡ false → s.buffer ≡ 0
  pub produced_most : s.produced + begun p ≤ rounds
  pub taken_most : s.taken + begun c ≤ rounds

abbrev pub IsSafe : System → Type 0
IsSafe s = Holds s.producer_at s.consumer_at s

-- A wake-up changes nothing but that the thread no longer sleeps.
record IsWoken (p : Place) : Type 0 where
  same_used : used (wake p) ≡ used p
  same_begun : begun (wake p) ≡ begun p
  same_inside : inside (wake p) ≡ inside p
  same_working : working (wake p) ≡ working p
  same_signalling : signalling (wake p) ≡ signalling p
  awake : sleeping (wake p) ≡ false

unmoved : (p : Place) → wake p ≡ p → sleeping p ≡ false → IsWoken p
unmoved p same quiet = record {
  same_used = ap used same;
  same_begun = ap begun same;
  same_inside = ap inside same;
  same_working = ap working same;
  same_signalling = ap signalling same;
  awake = ap sleeping same ∙ quiet;
}

wake-IsWoken : (p : Place) → IsWoken p
wake-IsWoken locks = unmoved locks refl refl
wake-IsWoken tests = unmoved tests refl refl
wake-IsWoken sleeps = record {
  same_used = refl;
  same_begun = refl;
  same_inside = refl;
  same_working = refl;
  same_signalling = refl;
  awake = refl;
}
wake-IsWoken woken = unmoved woken refl refl
wake-IsWoken works = unmoved works refl refl
wake-IsWoken signals = unmoved signals refl refl
wake-IsWoken unlocks = unmoved unlocks refl refl

pub wake_producer : (p c : Place) (s : System) → Holds p c s → Holds (wake p) c s
wake_producer p c s h =
    let w = wake-IsWoken p in
    record {
      order = h.order ∙ ap (λ k. items (s.produced + k)) (sym w.same_used);
      counted = h.counted;
      exclusive = rw (w.same_inside) h.exclusive;
      lock = rw (w.same_inside) h.lock;
      producer_works = λ e. h.producer_works (sym w.same_working ∙ e);
      producer_sleeps = λ e f. absurd (ground (arith, w.awake));
      consumer_works = h.consumer_works;
      consumer_sleeps = λ e f. h.consumer_sleeps e (sym w.same_signalling ∙ f);
      produced_most = omega (arith, h.produced_most, w.same_begun);
      taken_most = h.taken_most;
    }

pub wake_consumer : (p c : Place) (s : System) → Holds p c s → Holds p (wake c) s
wake_consumer p c s h =
    let w = wake-IsWoken c in
    record {
      order = h.order;
      counted = omega (arith, h.counted, w.same_used);
      exclusive = rw (w.same_inside) h.exclusive;
      lock = rw (w.same_inside) h.lock;
      producer_works = h.producer_works;
      producer_sleeps = λ e f. h.producer_sleeps e (sym w.same_signalling ∙ f);
      consumer_works = λ e. h.consumer_works (sym w.same_working ∙ e);
      consumer_sleeps = λ e f. absurd (ground (arith, w.awake));
      produced_most = h.produced_most;
      taken_most = omega (arith, h.taken_most, w.same_begun);
    }

pub not_asleep : (p : Place) → sleeping (wake p) ≡ true → ⊥
not_asleep p e = absurd (ground (arith, (wake-IsWoken p).awake))
