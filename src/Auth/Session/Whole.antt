-- ===== src/Auth/Session/Whole.antt =====
-- A session of protobufTest from the typed name to the game server.
use linux_study_notes.Auth.Session.{Arrays, first_message, log_in, enter, session}
use linux_study_notes.Auth.Session.Steps.{
  IsTyped, Arrives, login_string_lem, code_string-sent, Arrives-whole, server_login, game_code,
}
use linux_study_notes.Auth.Client.{
  Flow, read_behind, exited, waits, went_on, ◌>>=◌, inside, name_len, login_string, fgets_array,
  get_auth_code, code_string, code_or_exit, connected_or_exit,
}
use linux_study_notes.Auth.Client
use linux_study_notes.Auth.Database.{
  Sqlite, auth_code, Row, any, is_login, holds_code, set_code, IsTable, IsWorking,
}
use linux_study_notes.Auth.Game
use linux_study_notes.Auth.Login.{check_login-granted, check_login-refused, auth_code_complete}
use linux_study_notes.Auth.Packet.{Protobuf, IsInverse, login_header, code_header, connected_packet}
use linux_study_notes.Auth.Server.{unique_code, failure}
use linux_study_notes.Libc.{NoNul, c_str_all}
use linux_study_notes.Libc.Int.{pos}
use linux_study_notes.Prelude.{
  ℕ, ◌≡◌, refl, ap, ap₂, ◌∙◌, true, false, List, [], ◌∷◌, ◌++◌, some, none,
}

module _ {Db : Type 0} (p : Protobuf) (s : Sqlite Db) (name : List ℕ) where
  -- A login that names a row gives the client its code, which then stands in the table.
  pub log_in-granted :
      IsInverse p
      → {rows : Db → List Row} → IsTable s rows
      → IsWorking s rows
      → (a : Arrays) (u w rest : List ℕ) (db : Db) → IsTyped u
      → IsTyped w
      → Arrives a.auth_buf (p.serialize (login_header u w (pos 1)))
      → Arrives a.code_buf (p.serialize (code_header unique_code))
      → any (is_login u w) (rows db) ≡ true
      → (after : Db) × (log_in p s name a (u ++ b'\n' ∷ (w ++ b'\n' ∷ rest)) db
          ≡ went_on (after, unique_code))
        × (rows after ≡ set_code unique_code u w (rows db))
  unfolding log_in first_message get_auth_code code_or_exit
  log_in-granted inverse {rows} table works a u w rest db tu tw asks answers row =
      let cu = c_str_all u tu.0 in
      let cw = c_str_all w tw.0 in
      let (says, stored) = check_login-granted p s rows name table works u w db (rw (cu, cw) row) in
      let (t, e, sent, kept) =
        server_login p s name inverse u w a.auth_buf db asks (rw says answers.1) in
      (
        t.db,
        rw
            (
              login_string_lem p a.username a.password u w rest tu tw,
              e,
              sent,
              says,
              Arrives-whole a.code_buf (p.serialize (code_header unique_code)) answers,
              inverse.code_back unique_code,
            )
            refl,
        ap rows kept ∙ stored ∙ ap₂ (λ x y. set_code unique_code x y (rows db)) cu cw,
      )

  code_reply-yes :
      (code : List ℕ) (db : Db)
      → (auth_code s name code db).1 ≡ 1
      → (Game.code_reply p s name (some code) [] db).1 ≡ connected_packet p true
  unfolding Game.code_reply
  code_reply-yes code db h = rw h refl

  -- A code that a row has opens the game server.
  pub enter-granted :
      IsInverse p
      → {rows : Db → List Row} → IsTable s rows
      → IsWorking s rows
      → (a : Arrays) (code : List ℕ) (db : Db) → NoNul code
      → Arrives a.game_buf (p.serialize (code_header code))
      → Arrives a.client_buf (connected_packet p true)
      → any (holds_code code) (rows db) ≡ true
      → enter p s name a code db ≡ went_on true
  unfolding enter first_message Client.read_data connected_or_exit connected_packet
  enter-granted inverse {rows} table works a code db n asks answers row =
      let says : (Game.code_reply p s name (some code) [] db).1 ≡ connected_packet p true =
        code_reply-yes code db
          (auth_code_complete s rows name table works code db (rw (c_str_all code n) row)) in
      let (t, e, sent) = game_code p s name inverse code a.game_buf db asks says answers.1 in
      rw
        (
          code_string-sent p code n asks.1,
          e,
          sent,
          Arrives-whole a.client_buf (connected_packet p true) answers,
          inverse.connected_back true,
        )
        refl

  -- Who types a name and a password, each a line with no NUL of fewer than 19 bytes, that no row
  -- has is not let in, whatever calls of the database fail: the client calls `exit`. The login
  -- message and the answer "failure" have no NUL, are not empty, are shorter than the arrays and
  -- have a NUL behind them there; the library reads back what it writes, and finds no code in
  -- "failure".
  pub session-refused :
      IsInverse p
      → {rows : Db → List Row} → IsTable s rows
      → (a : Arrays) (u w rest : List ℕ) (db : Db) → IsTyped u
      → IsTyped w
      → Arrives a.auth_buf (p.serialize (login_header u w (pos 1)))
      → Arrives a.code_buf failure
      → (p.parse failure).auth_code ≡ none
      → any (is_login u w) (rows db) ≡ false
      → session p s name a (u ++ b'\n' ∷ (w ++ b'\n' ∷ rest)) db ≡ exited
  unfolding session log_in first_message get_auth_code code_or_exit
  session-refused inverse {rows} table a u w rest db tu tw asks answers unknown row =
      let (says, kept) =
        check_login-refused p s rows name table u w db
          (rw (c_str_all u tu.0, c_str_all w tw.0) row) in
      let (t, e, sent, after) =
        server_login p s name inverse u w a.auth_buf db asks (rw says answers.1) in
      rw
        (
          login_string_lem p a.username a.password u w rest tu tw,
          e,
          sent,
          says,
          Arrives-whole a.code_buf failure answers,
          unknown,
        )
        refl
