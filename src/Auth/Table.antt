-- ===== src/Auth/Table.antt =====
-- The rows of the table of protobufTest/auth_database.sql under the update of `add_unique_code`.
use linux_study_notes.Auth.Database.{Row, any, is_login, holds_code, set_code}
use linux_study_notes.Libc.{equal, equal_iff}
use linux_study_notes.Prelude.{ℕ, ◌≡◌, ◌⊎◌, inl, inr, refl, true, List, [], ◌∷◌, Bool-cases, arith}

pub equal_refl : (xs : List ℕ) → equal xs xs ≡ true
equal_refl xs = (equal_iff xs xs).1 refl

-- A login that names a row leaves its code in the table.
pub any-set_code :
    (code u w : List ℕ) (rows : List Row)
    → any (is_login u w) rows ≡ true
    → any (holds_code code) (set_code code u w rows) ≡ true
unfolding holds_code
any-set_code code u w [] h = h
any-set_code code u w (row ∷ rows) h = elim (Bool-cases (is_login u w row)) [
  | inl same ↦ rw (same, equal_refl code) refl
  | inr other ↦
      let later = any-set_code code u w rows (rw other at h) in rw (other, later) (ground arith)
]

-- The same users in the same order, each with the code that it had or with `code`.
abbrev pub Kept : List ℕ → List Row → List Row → Type 0
Kept code [] [] = Unit
Kept code [] (row ∷ rows) = ⊥
Kept code (old ∷ olds) [] = ⊥
Kept code (old ∷ olds) (row ∷ rows) =
    (row.username ≡ old.username)
    × (row.password ≡ old.password)
    × ((row.logged_in ≡ old.logged_in) ⊎ (row.logged_in ≡ code))
    × Kept code olds rows

pub Kept-same : (code : List ℕ) (rows : List Row) → Kept code rows rows
Kept-same code [] = tt
Kept-same code (row ∷ rows) = (refl, refl, inl refl, Kept-same code rows)

pub Kept-set_code :
    (code u w : List ℕ) (olds rows : List Row)
    → Kept code olds rows
    → Kept code olds (set_code code u w rows)
Kept-set_code code u w [] [] k = tt
Kept-set_code code u w (old ∷ olds) (row ∷ rows) k =
    let (name, word, changed, later) = k in
    elim (Bool-cases (is_login u w row)) [
      | inl same ↦ rw same (name, word, inr refl, Kept-set_code code u w olds rows later)
      | inr other ↦ rw other (name, word, changed, Kept-set_code code u w olds rows later)
    ]
Kept-set_code code u w [] (row ∷ rows) k = absurd k
Kept-set_code code u w (old ∷ olds) [] k = absurd k
