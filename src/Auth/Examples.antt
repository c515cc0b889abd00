-- ===== src/Auth/Examples.antt =====
-- Runs of the programs of protobufTest on the table of protobufTest/auth_database.sql, and the
-- properties on it.
use linux_study_notes.Auth.Arrays.{drop-replicate}
use linux_study_notes.Auth.Client.{exited}
use linux_study_notes.Auth.Database.{Row, is_login, auth_database_handler}
use linux_study_notes.Auth.Packet.{login_header}
use linux_study_notes.Auth.Repeats.{round-cut}
use linux_study_notes.Auth.Round.{round, new_thread, Service, got, closed, max_line}
use linux_study_notes.Auth.Server.{check_login, failure}
use linux_study_notes.Auth.Session.{Arrays, session}
use linux_study_notes.Auth.Session.Steps.{Arrives, IsTyped}
use linux_study_notes.Auth.Session.Whole.{session-refused}
use linux_study_notes.Auth.Toy.{
  toy_protobuf, toy_sqlite, all_rows, pack_header, unpack_header, toy_protobuf-IsInverse,
  toy_sqlite-IsTable, toy_sqlite-IsWorking,
}
use linux_study_notes.Auth.Users.{users_of, log_in, check_login-log_in}
use linux_study_notes.Auth.World.{World, Event, accepted, received, serve}
use linux_study_notes.Auth.World.Sound.{IsSound}
use linux_study_notes.Auth.World.Invariant.{every_event-IsSound}
use linux_study_notes.Libc.{codes, NoNul, c_str, c_str-NoNul}
use linux_study_notes.Libc.Int.{pos}
use linux_study_notes.Prelude.{
  ℕ, zero, suc, ◌<◌, ◌≡◌, refl, List, [], ◌∷◌, ◌++◌, some, length, replicate, arith,
}

-- The three rows that auth_database.sql inserts.
abbrev first_rows : List Row
first_rows =
    record { username = codes "ashpe"; password = codes "pass"; logged_in = [] }
    ∷ record { username = codes "ash"; password = codes "pass"; logged_in = [] }
    ∷ record { username = codes "root"; password = []; logged_in = [] }
    ∷ []

abbrev database : List ℕ
database = codes "auth_database"

abbrev zeros : List ℕ
zeros = replicate max_line 0

abbrev arrays : Arrays
arrays = record {
  username = replicate 20 7;
  password = replicate 20 7;
  auth_buf = zeros;
  code_buf = zeros;
  game_buf = zeros;
  client_buf = zeros;
}

abbrev ash_login : List ℕ
ash_login = pack_header (login_header (codes "ash") (codes "pass") (pos 1))

abbrev wrong_login : List ℕ
wrong_login = pack_header (login_header (codes "ash") (codes "word") (pos 1))

-- The name of the database fits into its array.
name_fits : auth_database_handler database ≡ some database
unfolding auth_database_handler c_str
name_fits = refl

zeros-Arrives :
    (bytes : List ℕ)
    → NoNul bytes
    → 0 < length bytes
    → length bytes < max_line
    → Arrives zeros bytes
zeros-Arrives bytes n some_byte fits =
    (n, some_byte, fits, drop-replicate (length bytes) max_line fits)

wrong_login-Arrives : Arrives zeros wrong_login
unfolding c_str pack_header
wrong_login-Arrives =
    zeros-Arrives wrong_login (c_str-NoNul wrong_login) (omega arith) (omega arith)

failure-Arrives : Arrives zeros failure
unfolding c_str
failure-Arrives = zeros-Arrives failure (c_str-NoNul failure) (omega arith) (omega arith)

ash-IsTyped : IsTyped (codes "ash")
ash-IsTyped = ((refl, (refl, (refl, tt))), (refl, (refl, (refl, tt))), omega arith)

check_login-log_in_example :
    (users_of toy_protobuf toy_sqlite all_rows database
        (check_login toy_protobuf toy_sqlite database (codes "ash") (codes "pass") first_rows).0
      ≡ (log_in toy_protobuf
          (codes "ash")
          (codes "pass")
          (users_of toy_protobuf toy_sqlite all_rows database first_rows)).0)
    × ((check_login toy_protobuf toy_sqlite database (codes "ash") (codes "pass") first_rows).1
        ≡ (log_in toy_protobuf
            (codes "ash")
            (codes "pass")
            (users_of toy_protobuf toy_sqlite all_rows database first_rows)).1)
unfolding c_str
check_login-log_in_example =
    check_login-log_in toy_protobuf toy_sqlite all_rows database toy_sqlite-IsTable
      toy_sqlite-IsWorking (codes "ash") (codes "pass") first_rows

word-IsTyped : IsTyped (codes "word")
word-IsTyped = ((refl, (refl, (refl, (refl, tt)))), (refl, (refl, (refl, (refl, tt)))), omega arith)

session-refused_example :
    session toy_protobuf toy_sqlite database arrays
      (codes "ash" ++ b'\n' ∷ (codes "word" ++ b'\n' ∷ []))
      first_rows
    ≡ exited
unfolding is_login unpack_header
session-refused_example =
    session-refused toy_protobuf toy_sqlite database toy_protobuf-IsInverse toy_sqlite-IsTable
      arrays (codes "ash") (codes "word") [] first_rows ash-IsTyped word-IsTyped wrong_login-Arrives
      failure-Arrives refl refl

-- A connection that has been answered, and a message of a kind that the server does not handle.
abbrev answered : Service (List Row)
answered = record { buf = zeros; resp = failure; sent = failure ∷ []; db = first_rows }

abbrev other_message : List ℕ
other_message = codes "xyz"

sevens-NoNul : (n : ℕ) → NoNul (replicate n 7)
sevens-NoNul zero = tt
sevens-NoNul (suc n) = (refl, sevens-NoNul n)

-- Two connections: one logs in, the other fails, and the first goes on.
abbrev events : List Event
events =
    accepted zeros
    ∷ accepted zeros
    ∷ received 0 (got ash_login)
    ∷ received 1 (got wrong_login)
    ∷ received 0 (got other_message)
    ∷ received 0 closed
    ∷ []

every_event-IsSound_example :
    (after : World (List Row)) × (serve toy_protobuf toy_sqlite database events
        (record { threads = []; db = first_rows })
      ≡ some after)
    × IsSound toy_protobuf all_rows first_rows after
unfolding pack_header
every_event-IsSound_example =
    every_event-IsSound toy_protobuf toy_sqlite all_rows database toy_sqlite-IsTable events
      first_rows (refl, (refl, (omega arith, (omega arith, (omega arith, (tt, tt))))))

-- What protobuf makes of `connected_packet(false)`: two bytes, the second of them 0.
round-cut_example :
    round toy_protobuf
      (λ header resp db. (db, []))
      (got (0x12 ∷ 0 ∷ []))
      (new_thread zeros first_rows)
    ≡ some (new_thread zeros first_rows)
unfolding unpack_header
round-cut_example =
    round-cut toy_protobuf (λ header resp db. (db, [])) (0x12 ∷ []) [] (new_thread zeros first_rows)
      (refl, tt) (omega arith)
