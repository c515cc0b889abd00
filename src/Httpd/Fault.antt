-- ===== src/Httpd/Fault.antt =====
-- How a request can leave the defined behaviour of C, and the results of code that may do so.
use linux_study_notes.Prelude.{ℕ, List, ◌≡◌, refl, Option, none, some}

pub data Fault : Type 0 where
  -- a read behind the end of `buf`
  read_past_end : Fault
  -- `fclose` of a null pointer, with what had been sent before
  null_close : List ℕ → Fault
  -- `sprintf` behind the end of an array
  overflow : Fault

-- What C code may do: leave its defined behaviour, or go on with a value.
pub data Result {ℓ} (A : Type ℓ) : Type ℓ where
  fault : Fault → Result A
  ok : A → Result A

infixl 5 ◌>>=◌
abbrev pub ◌>>=◌ {ℓ κ} : {A : Type ℓ} {B : Type κ} → Result A → (A → Result B) → Result B
fault why >>= next = fault why
ok value >>= next = next value

-- An access that `none` shows to be out of range.
abbrev pub read {ℓ} : {A : Type ℓ} → Option A → Result A
read none = fault read_past_end
read (some a) = ok a

-- Where a chain goes on to the end, its first part did.
pub first_went_on {ℓ κ} :
    {A : Type ℓ} {B : Type κ} {end : B} (next : A → Result B) (first : Result A)
    → ◌≡◌ {A = Result B} (first >>= next) (ok end)
    → (value : A) × (first ≡ ok value) × (next value ≡ ok end)
first_went_on next (fault why) went = cc
first_went_on next (ok value) went = (value, refl, went)
