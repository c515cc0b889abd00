-- ===== src/Threads/Semaphore/Progress.antt =====
-- Who can move in the states of thread/producerAndConsumer/semaphoreSolution.cpp.
use linux_study_notes.Prelude.{
  ℕ, zero, suc, ◌+◌, ◌≡◌, refl, sym, ap, ◌∙◌, Bool, true, false, ◌&&◌, List, [], ◌∷◌, ◌++◌,
  append-nil, Option, none, some, ltb, arith, length, length-append, Bool-cases, inl, inr, ◌⊎◌,
}
use linux_study_notes.Threads.Semaphore.Invariant.{upto, Holds}
use linux_study_notes.Threads.Semaphore.Safety.{every_schedule-IsSafe}
use linux_study_notes.Threads.Semaphore.{
  max_size, Thread, producer, consumer, Place, waits, locks, works, unlocks, posts, System,
  produce_at, consume_at, move, schedule, start,
}

abbrev pub goes : Option System → Bool
goes none = false
goes (some s) = true

-- Both loops have ended, and everything was consumed in order.
pub record IsFinished (s : System) : Type 0 where
  pub all_produced : s.produced ≡ max_size
  pub all_taken : s.taken ≡ max_size
  pub in_order : s.consumed ≡ upto max_size
  pub nothing_left : s.buffer ≡ []

abbrev pub GoesOn : System → Type 0
GoesOn s = (goes (move producer s) ≡ true) ⊎ (goes (move consumer s) ≡ true) ⊎ IsFinished s

abbrev GoesAt : Place → Place → System → Type 0
GoesAt p c s = (goes (produce_at p s) ≡ true) ⊎ (goes (consume_at c s) ≡ true) ⊎ IsFinished s

length-upto : (n : ℕ) → length (upto n) ≡ n
length-upto zero = refl
length-upto (suc n) = omega (arith, length-append (upto n) (n ∷ []), length-upto n)

no_elements : (xs : List ℕ) → length xs ≡ 0 → xs ≡ []
no_elements [] e = refl
no_elements (x ∷ xs) e = absurd (omega arith)

-- Both threads stand in front of their semaphores.
both_wait : (s : System) → Holds waits waits s → GoesAt waits waits s
unfolding produce_at consume_at
both_wait s h =
    let amount : length s.consumed + length s.buffer ≡ s.produced + 0 =
      sym (length-append s.consumed s.buffer) ∙ ap length h.order ∙ length-upto (s.produced + 0) in
    elim (Bool-cases (ltb s.produced max_size && ltb 0 s.empty)) [
      | inl yes_p ↦ inl (rw yes_p refl)
      | inr no_p ↦ elim (Bool-cases (ltb s.taken max_size && ltb 0 s.full)) [
        | inl yes_c ↦ inr (inl (rw yes_c refl))
        | inr no_c ↦
            let (made, got) : (s.produced ≡ max_size) × (s.taken ≡ max_size) =
              ground (arith, h.fulls, h.empties, h.counted, h.produced_most, h.taken_most) in
            let gone : s.buffer ≡ [] = no_elements s.buffer (omega (arith, h.counted)) in
            inr (
              inr record {
                all_produced = made;
                all_taken = got;
                in_order =
                    sym (append-nil s.consumed)
                    ∙ ap (λ l. s.consumed ++ l) (sym gone)
                    ∙ h.order
                    ∙ ap upto {x = s.produced + 0} {y = max_size} (omega arith);
                nothing_left = gone;
              })
      ]
    ]

goes_at : (p c : Place) (s : System) → Holds p c s → GoesAt p c s
unfolding produce_at consume_at
goes_at works c s h = inl refl
goes_at unlocks c s h = inl refl
goes_at posts c s h = inl refl
goes_at p works s h = inr (inl refl)
goes_at p unlocks s h = inr (inl refl)
goes_at p posts s h = inr (inl refl)
goes_at locks waits s h = inl (rw (h.lock) refl)
goes_at locks locks s h = inl (rw (h.lock) refl)
goes_at waits locks s h = inr (inl (rw (h.lock) refl))
goes_at waits waits s h = both_wait s h

-- Under every schedule one of the threads can make its next call, or both loops have ended, and
-- then the consumer has had all the numbers in order and the buffer is empty.
pub every_schedule-GoesOn : (ts : List Thread) → GoesOn (schedule ts start)
unfolding move
every_schedule-GoesOn ts =
    let s = schedule ts start in goes_at s.producer_at s.consumer_at s (every_schedule-IsSafe ts)
