-- ===== src/Auth/World.antt =====
-- protobufTest/AuthServer.cpp as a whole: its connections, one thread each, and the database that
-- they share, over what arrives at which of them.
pub mod Sound
pub mod Invariant
use linux_study_notes.Auth.Database.{Sqlite, Row, set_code, IsTable, add_unique_code, auth_user}
use linux_study_notes.Auth.Login.{auth_user-keeps, add_unique_code-cases}
use linux_study_notes.Auth.Packet.{
  Protobuf, LoginPacket, PacketHeader, text_of, auth_code_packet, code_header,
}
use linux_study_notes.Auth.Round.{
  new_thread, Received, closed, failed, got, Service, round, handle_string, send_reply, string_of,
  recv_into, max_line,
}
use linux_study_notes.Auth.Server.{unique_code, failure, check_login, login_reply, read_data}
use linux_study_notes.Auth.Table.{Kept, Kept-same, Kept-set_code}
use linux_study_notes.Libc.{c_str}
use linux_study_notes.Prelude.{
  ℕ, zero, suc, ◌≡◌, ◌⊎◌, inl, inr, refl, ap, sym, ◌∙◌, Bool, true, false, List, [], ◌∷◌, ◌++◌,
  Option, none, some, get_elem?, set, length, ◌==◌, Bool-cases, subst, arith, replicate,
  if◌then◌else◌,
}

-- `main` has accepted a connection, whose `buf` holds what the stack held; or `recv` has returned
-- in the thread of a connection.
pub data Event : Type 0 where
  accepted : List ℕ → Event
  received : ℕ → Received → Event

pub record World (Db : Type 0) : Type 0 where
  pub threads : List (Service Db)
  pub db : Db

module _ {Db : Type 0} (p : Protobuf) (s : Sqlite Db) (name : List ℕ) where
  -- A round of one thread on the database as it is now.
  unfoldable pub serve_thread : ℕ → Received → Option (Service Db) → World Db → Option (World Db)
  unfolding read_data
  serve_thread i r none w = some w
  serve_thread i r (some t) w = elim (read_data p s name r (record t { db = w.db })) [
    | none ↦ none
    | some after ↦ some (record { threads = set w.threads i after; db = after.db })
  ]

  unfoldable pub serve_event : Event → World Db → Option (World Db)
  unfolding serve_thread
  serve_event (accepted buf) w = some (record w { threads = w.threads ++ new_thread buf w.db ∷ [] })
  serve_event (received i r) w = serve_thread i r (get_elem? w.threads i) w

  unfoldable pub serve : List Event → World Db → Option (World Db)
  unfolding serve_event
  serve [] w = some w
  serve (e ∷ es) w = elim (serve_event e w) [ none ↦ none | some after ↦ serve es after ]
