-- ===== src/Auth/Session/Steps.antt =====
-- The single steps of a session of protobufTest: what the client makes of a line, and what either
-- server makes of a message that arrives whole.
use linux_study_notes.Auth.Arrays.{EndsIn, string_of-recv_into, typed_line}
use linux_study_notes.Auth.Client.{exited, went_on, name_len, login_string, code_string}
use linux_study_notes.Auth.Database.{Sqlite}
use linux_study_notes.Auth.Game
use linux_study_notes.Auth.Packet.{
  Protobuf, IsInverse, login_packet, login_header, auth_code_packet, code_header, connected_packet,
}
use linux_study_notes.Auth.Round.{
  new_thread, got, Service, max_line, round, handle_string, send_reply, string_of, recv_into,
}
use linux_study_notes.Auth.Server.{unique_code, failure, login_reply, check_login}
use linux_study_notes.Auth.Server
use linux_study_notes.Libc.{NoNul, c_str, c_str_of_NoNul, c_str_all, c_str-NoNul}
use linux_study_notes.Libc.Int.{pos}
use linux_study_notes.Libc.Stdio.{NoNewline, fgets_line}
use linux_study_notes.Prelude.{
  ℕ, ◌+◌, ◌<◌, ◌≡◌, refl, ap, ap₂, ◌∙◌, true, lt→ltb, List, [], ◌∷◌, ◌++◌, some, ltb, if◌then◌else◌,
  replicate, length, arith,
}

-- A name or a password that is typed as a line: no NUL, and short enough for the array with its
-- line feed.
abbrev pub IsTyped : List ℕ → Type 0
IsTyped line = NoNul line × NoNewline line × (length line + 1 < name_len)

-- A message that arrives whole in an array.
abbrev pub Arrives : List ℕ → List ℕ → Type 0
Arrives buf bytes = NoNul bytes × (0 < length bytes) × (length bytes < max_line) × EndsIn buf bytes

pub unique_code-NoNul : NoNul unique_code
unfolding c_str
unique_code-NoNul = c_str-NoNul unique_code

pub Arrives-whole :
    (buf bytes : List ℕ) → Arrives buf bytes → string_of (recv_into (got bytes) buf) ≡ some bytes
Arrives-whole buf bytes (n, some_byte, fits, ends) = string_of-recv_into bytes buf n fits ends

pub code_string-sent :
    (p : Protobuf) (code : List ℕ)
    → NoNul code
    → 0 < length (p.serialize (code_header code))
    → code_string p code ≡ went_on (p.serialize (code_header code))
unfolding code_string auth_code_packet
code_string-sent p code n some_byte =
    ap
      (λ c.
        let packet = p.serialize (code_header c) in
        if ltb 0 (length packet) then went_on packet else exited)
      (c_str_all code n)
    ∙ rw (lt→ltb 0 (length (p.serialize (code_header code))) some_byte) refl

pub login_string_lem :
    (p : Protobuf) (a b u w rest : List ℕ)
    → IsTyped u
    → IsTyped w
    → login_string p a b (u ++ b'\n' ∷ (w ++ b'\n' ∷ rest))
      ≡ went_on (p.serialize (login_header u w (pos 1)))
unfolding login_string login_packet
login_string_lem p a b u w rest (un, ul, us) (wn, wl, ws) =
    let (end, e) = typed_line a u (w ++ b'\n' ∷ rest) un ul in
    let (tail, t) = typed_line b w rest wn wl in
    rw
      (
        fgets_line 19 u (w ++ b'\n' ∷ rest) ul (omega arith),
        fgets_line 19 w rest wl (omega arith),
        e,
        t,
      )
      (ap₂ (λ x y. went_on (p.serialize (login_header x y (pos 1)))) (c_str_of_NoNul u end un)
        (c_str_of_NoNul w tail wn))

module _ {Db : Type 0} (p : Protobuf) (s : Sqlite Db) (name : List ℕ) where
  -- A message that arrives in the first round of a connection is answered by what its header says.
  pub server_first :
      (buf bytes : List ℕ) (db : Db)
      → Arrives buf bytes
      → Server.read_data p s name (got bytes) (new_thread buf db)
        ≡ handle_string p
            (λ header. login_reply p s name header.login_packet)
            (some bytes)
            (new_thread buf db)
  unfolding Server.read_data round
  server_first buf bytes db arrives = rw (Arrives-whole buf bytes arrives) refl

  pub game_first :
      (buf bytes : List ℕ) (db : Db)
      → Arrives buf bytes
      → Game.read_data p s name (got bytes) (new_thread buf db)
        ≡ handle_string p
            (λ header. Game.code_reply p s name header.auth_code)
            (some bytes)
            (new_thread buf db)
  unfolding Game.read_data round
  game_first buf bytes db arrives = rw (Arrives-whole buf bytes arrives) refl

  pub send_reply_some : (m : List ℕ) → 0 < length m → send_reply m [] ≡ m ∷ []
  send_reply_some m h = ground arith

  -- The round of the auth server on a login, and the one of the game server on a code.
  pub server_login :
      IsInverse p
      → (u w buf : List ℕ) (db : Db) → Arrives buf (p.serialize (login_header u w (pos 1)))
      → 0 < length (check_login p s name u w db).1
      → (t : Service Db) × (Server.read_data p s name
            (got (p.serialize (login_header u w (pos 1))))
            (new_thread buf db)
          ≡ some t)
        × (t.sent ≡ (check_login p s name u w db).1 ∷ [])
        × (t.db ≡ (check_login p s name u w db).0)
  unfolding handle_string login_reply
  server_login inverse u w buf db arrives some_byte =
      let answer = check_login p s name u w db in
      (
        record {
          buf = replicate max_line 0;
          resp = answer.1;
          sent = send_reply answer.1 [];
          db = answer.0;
        },
        server_first buf (p.serialize (login_header u w (pos 1))) db arrives
            ∙ rw (inverse.login_back u w (pos 1)) refl,
        send_reply_some answer.1 some_byte,
        refl,
      )

  pub game_code :
      IsInverse p
      → (code buf : List ℕ) (db : Db) → Arrives buf (p.serialize (code_header code))
      → (Game.code_reply p s name (some code) [] db).1 ≡ connected_packet p true
      → 0 < length (connected_packet p true)
      → (t : Service Db) × (Game.read_data p s name
            (got (p.serialize (code_header code)))
            (new_thread buf db)
          ≡ some t)
        × (t.sent ≡ connected_packet p true ∷ [])
  unfolding handle_string
  game_code inverse code buf db arrives says some_byte =
      let answer = Game.code_reply p s name (some code) [] db in
      (
        record {
          buf = replicate max_line 0;
          resp = answer.1;
          sent = send_reply answer.1 [];
          db = answer.0;
        },
        game_first buf (p.serialize (code_header code)) db arrives
            ∙ rw (inverse.code_back code) refl,
        rw says (send_reply_some (connected_packet p true) some_byte),
      )
