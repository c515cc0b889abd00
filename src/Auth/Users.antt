-- ===== src/Auth/Users.antt =====
-- The table of protobufTest/auth_database.sql as a bag of rows, and the auth server of
-- protobufTest/AuthServer.cpp on it: the order of the rows is forgotten.
use mathlib.Core.Bool.{Bool-set}
use mathlib.Core.HLevel.{→_prop}
use mathlib.Core.List.{Perm}
use mathlib.Core.List.Perm
use mathlib.Core.List.Permᴰ.{Permᴰ}
use mathlib.Core.Logic.{∥∥₁_elim}
use mathlib.Core.Quot
use mathlib.Core.Quot.{Quot, Quot-set}
use linux_study_notes.Auth.Database.{
  Sqlite, Row, any, is_login, holds_code, set_code, IsTable, IsWorking, auth_code,
}
use linux_study_notes.Auth.Login.{
  check_login-granted, check_login-refused, auth_code_sound, auth_code_complete,
}
use linux_study_notes.Auth.Packet.{Protobuf, code_header}
use linux_study_notes.Auth.Server.{check_login, unique_code, failure}
use linux_study_notes.Auth.Table.{any-set_code}
use linux_study_notes.Libc.{c_str}
use linux_study_notes.Prelude.{
  ℕ, ◌≡◌, ◌↔◌, refl, ap, ap₂, ◌∙◌, Bool, true, false, ◌||◌, List, [], ◌∷◌, map, if◌then◌else◌,
  Bool-cases, inl, inr,
}

-- The rows, in no order.
abbrev pub Users : Type 0
Users = Quot (Perm {A = Row})

or_swap : (a b c : Bool) → (a || (b || c)) ≡ (b || (a || c))
or_swap true true c = refl
or_swap true false c = refl
or_swap false b c = refl

any-permᴰ : (test : Row → Bool) {xs ys : List Row} → Permᴰ xs ys → any test xs ≡ any test ys
any-permᴰ test Permᴰ.nil = refl
any-permᴰ test (Permᴰ.cons e p) = ap₂ ◌||◌ (ap test e) (any-permᴰ test p)
any-permᴰ test (Permᴰ.swap {a} {b} {l} e f) =
    or_swap (test a) (test b) (any test l) ∙ ap₂ (λ x y. test x || (test y || any test l)) f e
any-permᴰ test (Permᴰ.trans p q) = any-permᴰ test p ∙ any-permᴰ test q

pub any-perm : (test : Row → Bool) (xs ys : List Row) → Perm xs ys → any test xs ≡ any test ys
any-perm test xs ys p = ∥∥₁_elim p (Bool-set _ _) (any-permᴰ test)

-- `set_code` on one row.
abbrev give : List ℕ → List ℕ → List ℕ → Row → Row
give code u w row = if is_login u w row then record row { logged_in = code } else row

set_code-map :
    (code u w : List ℕ) (rows : List Row) → set_code code u w rows ≡ map (give code u w) rows
set_code-map code u w [] = refl
set_code-map code u w (row ∷ rows) = ap (◌∷◌ (give code u w row)) (set_code-map code u w rows)

pub set_code-perm :
    (code u w : List ℕ) (xs ys : List Row)
    → Perm xs ys
    → Perm (set_code code u w xs) (set_code code u w ys)
set_code-perm code u w xs ys p =
    rw (set_code-map code u w xs, set_code-map code u w ys) (Perm.map (give code u w) p)

-- A user with this name and password, or one that holds this code.
abbrev pub has_login : List ℕ → List ℕ → Users → Bool
has_login u w = Quot.lift Bool-set (any (is_login u w)) (any-perm (is_login u w))

abbrev pub has_code : List ℕ → Users → Bool
has_code code = Quot.lift Bool-set (any (holds_code code)) (any-perm (holds_code code))

abbrev pub give_code : List ℕ → List ℕ → List ℕ → Users → Users
give_code code u w =
    Quot.lift Quot-set (λ rows. Quot.mk (set_code code u w rows))
      (λ xs ys p. Quot.sound (set_code-perm code u w xs ys p))

-- What the auth server promises: a known user gets the code, all others "failure".
unfoldable pub log_in : Protobuf → List ℕ → List ℕ → Users → Users × List ℕ
log_in p u w users =
    if has_login u w users
    then (give_code unique_code u w users, p.serialize (code_header unique_code))
    else (users, failure)

module _ {Db : Type 0} (p : Protobuf) (s : Sqlite Db) (rows : Db → List Row) (name : List ℕ) where
  -- The users that a database holds.
  abbrev pub users_of : Db → Users
  users_of db = Quot.mk (rows db)

  -- On a database that works, `check_login` does what is promised, and so nothing that it answers
  -- or leaves depends on the order of the rows.
  pub check_login-log_in :
      IsTable s rows
      → IsWorking s rows
      → (u w : List ℕ) (db : Db)
      → (users_of (check_login p s name u w db).0 ≡ (log_in p (c_str u) (c_str w) (users_of db)).0)
        × ((check_login p s name u w db).1 ≡ (log_in p (c_str u) (c_str w) (users_of db)).1)
  unfolding log_in
  check_login-log_in table works u w db =
      elim (Bool-cases (any (is_login (c_str u) (c_str w)) (rows db))) [
        | inl known ↦
            let (answer, left) = check_login-granted p s rows name table works u w db known in
            rw known (ap Quot.mk left, answer)
        | inr unknown ↦
            let (answer, left) = check_login-refused p s rows name table u w db unknown in
            rw unknown (ap Quot.mk left, answer)
      ]

  -- `auth_code` says whether some user holds the code.
  pub auth_code-has_code :
      IsTable s rows
      → IsWorking s rows
      → (code : List ℕ) (db : Db)
      → ((auth_code s name code db).1 ≡ 1) ↔ (has_code (c_str code) (users_of db) ≡ true)
  auth_code-has_code table works code db = (
    auth_code_sound s rows name table code db,
    auth_code_complete s rows name table works code db,
  )

-- Who has logged in holds a code, in every bag of users.
pub log_in-has_code :
    (p : Protobuf) (u w : List ℕ) (users : Users)
    → has_login u w users ≡ true
    → has_code unique_code (log_in p u w users).0 ≡ true
unfolding log_in
log_in-has_code p u w =
    Quot.ind (λ users. →_prop (Bool-set _ _)) (λ rows h. rw h (any-set_code unique_code u w rows h))
