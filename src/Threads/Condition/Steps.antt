-- ===== src/Threads/Condition/Steps.antt =====
-- What the single calls of thread/producerAndConsumer/conditionSolution.cpp keep.
use linux_study_notes.Prelude.{◌≡◌, refl, Bool, true, false, Option, none, some}
use linux_study_notes.Threads.Condition.Safety.{IsSafe}
use linux_study_notes.Threads.Condition.{System}
use linux_study_notes.Threads.Semaphore.Invariant.{holder}
use linux_study_notes.Threads.Semaphore.{is_free}

abbrev pub Kept : Option System → Type 0
Kept none = Unit
Kept (some s) = IsSafe s

pub free_of : (p c : Bool) → is_free (holder p c) ≡ true → (p ≡ false) × (c ≡ false)
free_of true c e = cc
free_of false true e = cc
free_of false false e = (refl, refl)
