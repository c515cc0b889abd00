-- ===== src/Auth/Session.antt =====
-- `main` of protobufTest/GameClient.cpp with both servers, each message delivered in one piece.
pub mod Steps
pub mod Whole
use linux_study_notes.Auth.Arrays.{EndsIn, string_of-recv_into, typed_line}
use linux_study_notes.Auth.Client.{
  Flow, read_behind, exited, waits, went_on, ◌>>=◌, inside, name_len, login_string, fgets_array,
  get_auth_code, code_string, code_or_exit, connected_or_exit,
}
use linux_study_notes.Auth.Client
use linux_study_notes.Auth.Database.{
  Sqlite, auth_code, Row, any, is_login, holds_code, set_code, IsTable, IsWorking,
}
use linux_study_notes.Auth.Game
use linux_study_notes.Auth.Login.{check_login-granted, check_login-refused, auth_code_complete}
use linux_study_notes.Auth.Packet.{
  Protobuf, IsInverse, login_packet, login_header, auth_code_packet, code_header, connected_packet,
}
use linux_study_notes.Auth.Round.{
  new_thread, Received, got, Service, max_line, round, handle_string, send_reply, string_of,
  recv_into,
}
use linux_study_notes.Auth.Server.{unique_code, failure, login_reply, check_login}
use linux_study_notes.Auth.Server
use linux_study_notes.Auth.Table.{any-set_code}
use linux_study_notes.Libc.{NoNul, c_str, c_str_of_NoNul, c_str_all, c_str-NoNul}
use linux_study_notes.Libc.Int.{pos}
use linux_study_notes.Libc.Stdio.{NoNewline, fgets_line}
use linux_study_notes.Prelude.{
  ℕ, ◌+◌, ◌<◌, ◌≡◌, refl, ap, ap₂, ◌∙◌, Bool, true, false, lt→ltb, List, [], ◌∷◌, ◌++◌, some, none,
  ltb, if◌then◌else◌, replicate, length, arith,
}

-- The arrays that are not initialised.
pub record Arrays : Type 0 where
  pub username : List ℕ
  pub password : List ℕ
  pub auth_buf : List ℕ
  pub code_buf : List ℕ
  pub game_buf : List ℕ
  pub client_buf : List ℕ

-- What a peer that has received these messages gets from `recv`.
unfoldable pub first_message : List (List ℕ) → Flow Received
first_message [] = waits
first_message (message ∷ more) = went_on (got message)

module _ {Db : Type 0} (p : Protobuf) (s : Sqlite Db) (name : List ℕ) where
  -- Up to the code: what the user types goes to the auth server, and its answer to the client.
  unfoldable pub log_in : Arrays → List ℕ → Db → Flow (Db × List ℕ)
  unfolding login_string get_auth_code first_message
  log_in a stdin db = login_string p a.username a.password stdin >>= λ request.
      inside (Server.read_data p s name (got request) (new_thread a.auth_buf db)) >>= λ server.
      first_message server.sent >>= λ answer.
      get_auth_code p a.code_buf answer >>= λ code. went_on (server.db, code)

  -- From the code on: it goes to the game server, whose answer comes to the last loop of `main`.
  unfoldable pub enter : Arrays → List ℕ → Db → Flow Bool
  unfolding code_string first_message
  enter a code db = code_string p code >>= λ request.
      inside (Game.read_data p s name (got request) (new_thread a.game_buf db)) >>= λ server.
      first_message server.sent >>= λ answer. Client.read_data p a.client_buf answer

  unfoldable pub session : Arrays → List ℕ → Db → Flow Bool
  unfolding log_in enter
  session a stdin db = log_in a stdin db >>= λ r. enter a r.1 r.0
