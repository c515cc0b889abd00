-- ===== src/Auth/Login.antt =====
-- What `check_login` of protobufTest/AuthServer.cpp and the functions of AuthDatabaseHandler.cpp
-- answer, by the rows of the table.
use linux_study_notes.Auth.Database.{
  Sqlite, database_connect, add_unique_code, found_row, auth_code, auth_user, auth_code_sql,
  auth_user_sql, Row, any, is_login, holds_code, set_code, IsTable, IsWorking,
}
use linux_study_notes.Auth.Packet.{Protobuf, auth_code_packet, code_header}
use linux_study_notes.Auth.Server.{check_login, unique_code, failure}
use linux_study_notes.Libc.{c_str}
use linux_study_notes.Prelude.{
  ℕ, ◌≡◌, ◌⊎◌, inl, inr, refl, ap, ◌∙◌, true, false, List, [], ◌∷◌, ◌==◌, ==_iff, Bool-cases, arith,
}

module _ {Db : Type 0} (s : Sqlite Db) (rows : Db → List Row) (name : List ℕ) where
  -- A query that keeps the table, behind the call that opens it.
  found_row-keeps :
      IsTable s rows
      → (sql : List ℕ) (texts : List (List ℕ)) (db : Db)
      → ((d : Db) → rows (s.steps sql texts d).0 ≡ rows d)
      → rows (found_row s name sql texts db).0 ≡ rows db
  unfolding found_row database_connect
  found_row-keeps table sql texts db keeps = elim (Bool-cases (s.opens name db).1) [
    | inl opened ↦ rw opened (keeps (s.opens name db).0 ∙ table.opens_keeps name db)
    | inr refused ↦ rw refused (table.opens_keeps name db)
  ]

  found_row-positive :
      (sql : List ℕ) (texts : List (List ℕ)) (db : Db)
      → (found_row s name sql texts db).1 ≡ 1
      → (s.steps sql texts (s.opens name db).0).1 ≡ 100
  unfolding found_row database_connect
  found_row-positive sql texts db h = ground arith

  found_row-works :
      IsWorking s rows
      → (sql : List ℕ) (texts : List (List ℕ)) (db : Db)
      → (s.steps sql texts (s.opens name db).0).1 ≡ 100
      → (found_row s name sql texts db).1 ≡ 1
  unfolding found_row database_connect
  found_row-works works sql texts db h = rw (works.opened name db, h) refl

  -- Neither query changes the table.
  pub auth_user-keeps :
      IsTable s rows → (u w : List ℕ) (db : Db) → rows (auth_user s name u w db).0 ≡ rows db
  unfolding auth_user
  auth_user-keeps table u w db =
      found_row-keeps table auth_user_sql (c_str u ∷ c_str w ∷ []) db
        (table.user_keeps (c_str u) (c_str w))

  pub auth_code-keeps :
      IsTable s rows → (c : List ℕ) (db : Db) → rows (auth_code s name c db).0 ≡ rows db
  unfolding auth_code
  auth_code-keeps table c db =
      found_row-keeps table auth_code_sql (c_str c ∷ []) db (table.code_keeps (c_str c))

  -- A positive answer comes from a row.
  pub auth_user_sound :
      IsTable s rows
      → (u w : List ℕ) (db : Db) → (auth_user s name u w db).1 ≡ 1
      → any (is_login (c_str u) (c_str w)) (rows db) ≡ true
  unfolding auth_user
  auth_user_sound table u w db h = rw (← table.opens_keeps name db) (
      table.user_found (c_str u) (c_str w) (s.opens name db).0
        (found_row-positive auth_user_sql (c_str u ∷ c_str w ∷ []) db h))

  pub auth_code_sound :
      IsTable s rows
      → (c : List ℕ) (db : Db) → (auth_code s name c db).1 ≡ 1
      → any (holds_code (c_str c)) (rows db) ≡ true
  unfolding auth_code
  auth_code_sound table c db h = rw (← table.opens_keeps name db) (
      table.code_found (c_str c) (s.opens name db).0
        (found_row-positive auth_code_sql (c_str c ∷ []) db h))

  -- On a database that works, a row gives a positive answer.
  pub auth_user_complete :
      IsTable s rows
      → IsWorking s rows
      → (u w : List ℕ) (db : Db) → any (is_login (c_str u) (c_str w)) (rows db) ≡ true
      → (auth_user s name u w db).1 ≡ 1
  unfolding auth_user
  auth_user_complete table works u w db h =
      found_row-works works auth_user_sql (c_str u ∷ c_str w ∷ []) db
        (works.user_row (c_str u) (c_str w) (s.opens name db).0 (rw (table.opens_keeps name db) h))

  pub auth_code_complete :
      IsTable s rows
      → IsWorking s rows
      → (c : List ℕ) (db : Db) → any (holds_code (c_str c)) (rows db) ≡ true
      → (auth_code s name c db).1 ≡ 1
  unfolding auth_code
  auth_code_complete table works c db h =
      found_row-works works auth_code_sql (c_str c ∷ []) db
        (works.code_row (c_str c) (s.opens name db).0 (rw (table.opens_keeps name db) h))

  pub add_unique_code-written :
      IsTable s rows
      → IsWorking s rows
      → (u w c : List ℕ) (db : Db)
      → rows (add_unique_code s name u w c db).0 ≡ set_code (c_str c) (c_str u) (c_str w) (rows db)
  unfolding add_unique_code database_connect
  add_unique_code-written table works u w c db = rw (works.opened name db) (
      works.code_written (c_str c) (c_str u) (c_str w) (s.opens name db).0
      ∙ ap (set_code (c_str c) (c_str u) (c_str w)) (table.opens_keeps name db))

  -- Whatever fails, the table is what it was or has the code in the rows of the user.
  pub add_unique_code-cases :
      IsTable s rows
      → (u w c : List ℕ) (db : Db)
      → (rows (add_unique_code s name u w c db).0
          ≡ set_code (c_str c) (c_str u) (c_str w) (rows db))
        ⊎ (rows (add_unique_code s name u w c db).0 ≡ rows db)
  unfolding add_unique_code database_connect
  add_unique_code-cases table u w c db = elim (Bool-cases (s.opens name db).1) [
    | inr refused ↦ rw refused (inr (table.opens_keeps name db))
    | inl opened ↦
        rw (opened, ← table.opens_keeps name db)
          (table.code_set (c_str c) (c_str u) (c_str w) (s.opens name db).0)
  ]

module _ {Db : Type 0} (p : Protobuf) (s : Sqlite Db) (rows : Db → List Row) (name : List ℕ) where
  -- On a database that works, `check_login` answers with the code and stores it in the rows of the
  -- user if there are any, and otherwise answers "failure" and keeps the table.
  pub check_login-granted :
      IsTable s rows
      → IsWorking s rows
      → (u w : List ℕ) (db : Db) → any (is_login (c_str u) (c_str w)) (rows db) ≡ true
      → ((check_login p s name u w db).1 ≡ p.serialize (code_header unique_code))
        × (rows (check_login p s name u w db).0
            ≡ set_code unique_code (c_str u) (c_str w) (rows db))
  unfolding check_login auth_code_packet
  check_login-granted table works u w db h =
      rw (auth_user_complete s rows name table works u w db h) (
        refl,
        add_unique_code-written s rows name table works u w unique_code (auth_user s name u w db).0
            ∙ ap (set_code unique_code (c_str u) (c_str w))
                (auth_user-keeps s rows name table u w db),
      )

  pub check_login-refused :
      IsTable s rows
      → (u w : List ℕ) (db : Db) → any (is_login (c_str u) (c_str w)) (rows db) ≡ false
      → ((check_login p s name u w db).1 ≡ failure)
        × (rows (check_login p s name u w db).0 ≡ rows db)
  unfolding check_login
  check_login-refused table u w db h = elim (Bool-cases ((auth_user s name u w db).1 == 1)) [
    | inl found ↦
        let row_found = auth_user_sound s rows name table u w db ((==_iff _ 1).0 found) in cc
    | inr missing ↦ rw missing (refl, auth_user-keeps s rows name table u w db)
  ]
