-- ===== src/Auth/Server.antt =====
-- protobufTest/AuthServer.cpp: `check_login`, and the rounds of the connections.
use linux_study_notes.Auth.Database.{Sqlite, auth_user, add_unique_code}
use linux_study_notes.Auth.Packet.{LoginPacket, Protobuf, text_of, auth_code_packet}
use linux_study_notes.Auth.Round.{Received, Service, round}
use linux_study_notes.Libc.{codes}
use linux_study_notes.Prelude.{ℕ, List, Option, none, some, ◌==◌, if◌then◌else◌}

abbrev pub unique_code : List ℕ
unique_code = codes "uniqueauthcode"

abbrev pub failure : List ℕ
failure = codes "failure"

module _ {Db : Type 0} (p : Protobuf) (s : Sqlite Db) (name : List ℕ) where
  unfoldable pub check_login : List ℕ → List ℕ → Db → Db × List ℕ
  unfolding auth_user add_unique_code auth_code_packet
  check_login username password db =
      let user = auth_user s name username password db in
      let added = add_unique_code s name username password unique_code user.0 in
      if user.1 == 1 then (added.0, auth_code_packet p unique_code) else (user.0, failure)

  -- `if (header.has_login_packet()) resp = check_login(...)`
  unfoldable pub login_reply : Option LoginPacket → List ℕ → Db → Db × List ℕ
  unfolding check_login
  login_reply none resp db = (db, resp)
  login_reply (some login) resp db =
      check_login (text_of login.username) (text_of login.password) db

  unfoldable pub read_data : Received → Service Db → Option (Service Db)
  unfolding round login_reply
  read_data received t = round p (λ header. login_reply header.login_packet) received t
