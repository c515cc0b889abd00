-- ===== src/Auth/Database.antt =====
-- protobufTest/AuthDatabaseHandler.cpp. SQLite is the parameter `Sqlite`, and its table
-- `auth_login` (protobufTest/auth_database.sql) is described by the rows.
use linux_study_notes.Libc.{codes, c_str, equal}
use linux_study_notes.Prelude.{
  ℕ, ◌≡◌, ◌⊎◌, Bool, true, false, ◌&&◌, ◌||◌, List, [], ◌∷◌, Option, none, some, ltb, ◌==◌,
  if◌then◌else◌, length,
}

-- `sqlite3_open`, with whether it worked; and `sqlite3_prepare_v2` of a statement,
-- `sqlite3_bind_text` of its texts, one `sqlite3_step`, `sqlite3_finalize` and `sqlite3_close`,
-- with what the step returned. `Db` is all that the calls depend on.
pub record Sqlite (Db : Type 0) : Type 0 where
  pub opens : List ℕ → Db → Db × Bool
  pub steps : List ℕ → List (List ℕ) → Db → Db × ℕ

abbrev pub add_code_sql : List ℕ
add_code_sql = codes "update auth_login set logged_in=? where username=? and password=?"

abbrev pub auth_code_sql : List ℕ
auth_code_sql = codes "select * from auth_login where logged_in=?"

abbrev pub auth_user_sql : List ℕ
auth_user_sql = codes "select * from auth_login where username=? and password=?"

-- The constructor: `strcpy` into `m_databaseName[50]`; `none` is a write behind its end.
unfoldable pub auth_database_handler : List ℕ → Option (List ℕ)
unfolding c_str
auth_database_handler database_name =
    if ltb (length (c_str database_name)) 50 then some (c_str database_name) else none

module _ {Db : Type 0} (s : Sqlite Db) (name : List ℕ) where
  -- Each function gives its value behind the database; `char *` arguments are C strings.
  unfoldable pub database_connect : Db → Db × ℕ
  database_connect db = let opened = s.opens name db in (opened.0, if opened.1 then 1 else 0)

  unfoldable pub add_unique_code : List ℕ → List ℕ → List ℕ → Db → Db × ℕ
  unfolding c_str database_connect
  add_unique_code username password code db =
      let conn = database_connect db in
      let texts = c_str code ∷ c_str username ∷ c_str password ∷ [] in
      if conn.1 == 0 then (conn.0, 0) else ((s.steps add_code_sql texts conn.0).0, 1)

  -- 100 is `SQLITE_ROW`.
  unfoldable pub found_row : List ℕ → List (List ℕ) → Db → Db × ℕ
  unfolding database_connect
  found_row sql texts db =
      let conn = database_connect db in
      let stepped = s.steps sql texts conn.0 in
      if conn.1 == 0 then (conn.0, 0) else (stepped.0, if stepped.1 == 100 then 1 else 0)

  unfoldable pub auth_code : List ℕ → Db → Db × ℕ
  unfolding c_str found_row
  auth_code code db = found_row auth_code_sql (c_str code ∷ []) db

  unfoldable pub auth_user : List ℕ → List ℕ → Db → Db × ℕ
  unfolding c_str found_row
  auth_user username password db = found_row auth_user_sql (c_str username ∷ c_str password ∷ []) db

pub record Row : Type 0 where
  pub username : List ℕ
  pub password : List ℕ
  pub logged_in : List ℕ

abbrev pub any : (Row → Bool) → List Row → Bool
any test [] = false
any test (row ∷ rows) = test row || any test rows

unfoldable pub is_login : List ℕ → List ℕ → Row → Bool
unfolding equal
is_login username password row = equal row.username username && equal row.password password

unfoldable pub holds_code : List ℕ → Row → Bool
unfolding equal
holds_code code row = equal row.logged_in code

abbrev pub set_code : List ℕ → List ℕ → List ℕ → List Row → List Row
set_code code username password [] = []
set_code code username password (row ∷ rows) =
    (if is_login username password row then record row { logged_in = code } else row)
    ∷ set_code code username password rows

-- What the three statements do to the table, and what a row that was found says of it. A statement
-- may fail, so an update may do nothing.
pub record IsTable {Db : Type 0} (s : Sqlite Db) (rows : Db → List Row) : Type 0 where
  pub opens_keeps : (name : List ℕ) (db : Db) → rows (s.opens name db).0 ≡ rows db
  pub user_keeps :
      (u p : List ℕ) (db : Db) → rows (s.steps auth_user_sql (u ∷ p ∷ []) db).0 ≡ rows db
  pub code_keeps : (c : List ℕ) (db : Db) → rows (s.steps auth_code_sql (c ∷ []) db).0 ≡ rows db
  pub user_found :
      (u p : List ℕ) (db : Db)
      → (s.steps auth_user_sql (u ∷ p ∷ []) db).1 ≡ 100
      → any (is_login u p) (rows db) ≡ true
  pub code_found :
      (c : List ℕ) (db : Db)
      → (s.steps auth_code_sql (c ∷ []) db).1 ≡ 100
      → any (holds_code c) (rows db) ≡ true
  pub code_set :
      (c u p : List ℕ) (db : Db)
      → (rows (s.steps add_code_sql (c ∷ u ∷ p ∷ []) db).0 ≡ set_code c u p (rows db))
        ⊎ (rows (s.steps add_code_sql (c ∷ u ∷ p ∷ []) db).0 ≡ rows db)

-- A database on which no call fails.
pub record IsWorking {Db : Type 0} (s : Sqlite Db) (rows : Db → List Row) : Type 0 where
  pub opened : (name : List ℕ) (db : Db) → (s.opens name db).1 ≡ true
  pub user_row :
      (u p : List ℕ) (db : Db)
      → any (is_login u p) (rows db) ≡ true
      → (s.steps auth_user_sql (u ∷ p ∷ []) db).1 ≡ 100
  pub code_row :
      (c : List ℕ) (db : Db)
      → any (holds_code c) (rows db) ≡ true
      → (s.steps auth_code_sql (c ∷ []) db).1 ≡ 100
  pub code_written :
      (c u p : List ℕ) (db : Db)
      → rows (s.steps add_code_sql (c ∷ u ∷ p ∷ []) db).0 ≡ set_code c u p (rows db)
