-- ===== src/Auth/Game.antt =====
-- protobufTest/GameServer.cpp: what it does with an auth code.
use linux_study_notes.Auth.Database.{Sqlite, auth_code}
use linux_study_notes.Auth.Packet.{Protobuf, connected_packet}
use linux_study_notes.Auth.Round.{Received, Service, round}
use linux_study_notes.Prelude.{ℕ, true, false, List, Option, none, some, ◌==◌, if◌then◌else◌}

module _ {Db : Type 0} (p : Protobuf) (s : Sqlite Db) (name : List ℕ) where
  -- `if (header.has_auth_code()) ...`
  unfoldable pub code_reply : Option (List ℕ) → List ℕ → Db → Db × List ℕ
  unfolding auth_code connected_packet
  code_reply none resp db = (db, resp)
  code_reply (some code) resp db =
      let answer = auth_code s name code db in
      (answer.0, if answer.1 == 1 then connected_packet p true else connected_packet p false)

  unfoldable pub read_data : Received → Service Db → Option (Service Db)
  unfolding round code_reply
  read_data received t = round p (λ header. code_reply header.auth_code) received t
