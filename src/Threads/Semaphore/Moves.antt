-- ===== src/Threads/Semaphore/Moves.antt =====
-- The single calls of thread/producerAndConsumer/semaphoreSolution.cpp.
use linux_study_notes.Prelude.{
  ℕ, suc, ◌+◌, ◌≡◌, refl, sym, ap, ◌∙◌, false, ◌&&◌, List, [], ◌∷◌, ◌++◌, append_assoc, ltb, arith,
  length, length-append, Bool-cases, inl, inr,
}
use linux_study_notes.Threads.Semaphore.{
  max_size, Place, waits, locks, works, unlocks, posts, System, is_free, produce_at, take_front,
  consume_at,
}
use linux_study_notes.Threads.Semaphore.Invariant.{
  after_work, inside, holder, upto, Holds, IsSafe, Kept, free_of,
}

produce_waits : (s : System) → Holds waits s.consumer_at s → Kept (produce_at waits s)
unfolding produce_at
produce_waits s h = elim (Bool-cases (ltb s.produced max_size && ltb 0 s.empty)) [
  | inr blocked ↦ rw blocked tt
  | inl goes ↦ rw goes record {
    fulls = omega (arith, h.fulls);
    empties = ground (arith, h.empties);
    order = h.order;
    counted = h.counted;
    exclusive = h.exclusive;
    lock = h.lock;
    sound = h.sound;
    produced_most = ground arith;
    taken_most = h.taken_most;
  }
]

produce_locks : (s : System) → Holds locks s.consumer_at s → Kept (produce_at locks s)
unfolding produce_at
produce_locks s h = elim (Bool-cases (is_free s.owner)) [
  | inr blocked ↦ rw blocked tt
  | inl goes ↦
      let (a, b) = free_of (inside locks) (inside s.consumer_at) (ap is_free (sym h.lock) ∙ goes) in
      rw goes record {
        fulls = h.fulls;
        empties = h.empties;
        order = h.order;
        counted = h.counted;
        exclusive = b;
        lock = refl;
        sound = h.sound;
        produced_most = h.produced_most;
        taken_most = h.taken_most;
      }
]

produce_works : (s : System) → Holds works s.consumer_at s → Kept (produce_at works s)
unfolding produce_at
produce_works s h = record {
  fulls = omega (arith, h.fulls, length-append s.buffer (s.produced ∷ []));
  empties = omega (arith, h.empties, length-append s.buffer (s.produced ∷ []));
  order =
      sym (append_assoc s.consumed s.buffer (s.produced ∷ []))
      ∙ ap (λ l. l ++ s.produced ∷ [])
          (h.order ∙ ap upto {x = s.produced + 0} {y = s.produced} (omega arith))
      ∙ ap upto {x = suc s.produced} {y = s.produced + after_work unlocks} (omega arith);
  counted = h.counted;
  exclusive = h.exclusive;
  lock = h.lock;
  sound = h.sound;
  produced_most = omega (arith, h.produced_most);
  taken_most = h.taken_most;
}

produce_unlocks : (s : System) → Holds unlocks s.consumer_at s → Kept (produce_at unlocks s)
unfolding produce_at
produce_unlocks s h = record {
  fulls = h.fulls;
  empties = h.empties;
  order = h.order;
  counted = h.counted;
  exclusive = refl;
  lock = sym (ap (holder false) h.exclusive);
  sound = h.sound;
  produced_most = h.produced_most;
  taken_most = h.taken_most;
}

produce_posts : (s : System) → Holds posts s.consumer_at s → Kept (produce_at posts s)
unfolding produce_at
produce_posts s h = record {
  fulls = omega (arith, h.fulls);
  empties = h.empties;
  order =
      h.order
      ∙ ap upto {x = s.produced + after_work posts} {y = s.produced + 1 + after_work waits}
          (omega arith);
  counted = h.counted;
  exclusive = refl;
  lock = h.lock;
  sound = h.sound;
  produced_most = omega (arith, h.produced_most);
  taken_most = h.taken_most;
}

pub produce_at-Kept : (p : Place) (s : System) → Holds p s.consumer_at s → Kept (produce_at p s)
produce_at-Kept waits s h = produce_waits s h
produce_at-Kept locks s h = produce_locks s h
produce_at-Kept works s h = produce_works s h
produce_at-Kept unlocks s h = produce_unlocks s h
produce_at-Kept posts s h = produce_posts s h

take_front-Holds :
    (p : Place) (b : List ℕ) (s : System)
    → s.buffer ≡ b
    → s.producer_at ≡ p
    → Holds p works s
    → IsSafe (take_front b s)
unfolding take_front
take_front-Holds p [] s e at h = absurd (omega (arith, h.fulls, ap length e))
take_front-Holds p (v ∷ rest) s e at h = rw at record {
  fulls = omega (arith, h.fulls, ap length e);
  empties = omega (arith, h.empties, ap length e);
  order = append_assoc s.consumed (v ∷ []) rest ∙ ap (λ l. s.consumed ++ l) (sym e) ∙ h.order;
  counted = omega (arith, h.counted, length-append s.consumed (v ∷ []));
  exclusive = h.exclusive;
  lock = h.lock;
  sound = h.sound;
  produced_most = h.produced_most;
  taken_most = omega (arith, h.taken_most);
}

consume_waits : (s : System) → Holds s.producer_at waits s → Kept (consume_at waits s)
unfolding consume_at
consume_waits s h = elim (Bool-cases (ltb s.taken max_size && ltb 0 s.full)) [
  | inr blocked ↦ rw blocked tt
  | inl goes ↦ rw goes record {
    fulls = ground (arith, h.fulls);
    empties = h.empties;
    order = h.order;
    counted = h.counted;
    exclusive = h.exclusive;
    lock = h.lock;
    sound = h.sound;
    produced_most = h.produced_most;
    taken_most = ground arith;
  }
]

consume_locks : (s : System) → Holds s.producer_at locks s → Kept (consume_at locks s)
unfolding consume_at
consume_locks s h = elim (Bool-cases (is_free s.owner)) [
  | inr blocked ↦ rw blocked tt
  | inl goes ↦
      let (a, b) = free_of (inside s.producer_at) (inside locks) (ap is_free (sym h.lock) ∙ goes) in
      rw goes record {
        fulls = h.fulls;
        empties = h.empties;
        order = h.order;
        counted = h.counted;
        exclusive = rw a refl;
        lock = rw a refl;
        sound = h.sound;
        produced_most = h.produced_most;
        taken_most = h.taken_most;
      }
]

consume_works : (s : System) → Holds s.producer_at works s → Kept (consume_at works s)
unfolding consume_at
consume_works s h = take_front-Holds s.producer_at s.buffer s refl refl h

consume_unlocks : (s : System) → Holds s.producer_at unlocks s → Kept (consume_at unlocks s)
unfolding consume_at
consume_unlocks s h =
    let out : inside s.producer_at ≡ false = ground (arith, h.exclusive) in
    record {
      fulls = h.fulls;
      empties = h.empties;
      order = h.order;
      counted = h.counted;
      exclusive = rw out refl;
      lock = rw out refl;
      sound = h.sound;
      produced_most = h.produced_most;
      taken_most = h.taken_most;
    }

consume_posts : (s : System) → Holds s.producer_at posts s → Kept (consume_at posts s)
unfolding consume_at
consume_posts s h = record {
  fulls = h.fulls;
  empties = omega (arith, h.empties);
  order = h.order;
  counted = omega (arith, h.counted);
  exclusive = h.exclusive;
  lock = h.lock;
  sound = h.sound;
  produced_most = h.produced_most;
  taken_most = omega (arith, h.taken_most);
}

pub consume_at-Kept : (c : Place) (s : System) → Holds s.producer_at c s → Kept (consume_at c s)
consume_at-Kept waits s h = consume_waits s h
consume_at-Kept locks s h = consume_locks s h
consume_at-Kept works s h = consume_works s h
consume_at-Kept unlocks s h = consume_unlocks s h
consume_at-Kept posts s h = consume_posts s h
