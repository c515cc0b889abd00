-- ===== src/Auth/Client.antt =====
-- protobufTest/GameClient.cpp.
use linux_study_notes.Auth.Packet.{ConnectedPacket, Protobuf, login_packet, auth_code_packet}
use linux_study_notes.Auth.Round.{Received, closed, failed, got, recv_into, string_of}
use linux_study_notes.Libc.Int.{pos}
use linux_study_notes.Libc.Stdio.{Chunk, fgets}
use linux_study_notes.Prelude.{
  ℕ, ◌+◌, ◌-◌, Bool, true, false, List, [], ◌∷◌, ◌++◌, Option, none, some, ltb, ◌==◌, if◌then◌else◌,
  length, drop,
}

-- What code of the client may do: read behind an array, `exit`, wait for ever, or go on with a
-- value.
pub data Flow (A : Type 0) : Type 0 where
  read_behind exited waits : Flow A
  went_on : A → Flow A

infixl 5 ◌>>=◌
abbrev pub ◌>>=◌ : {A B : Type 0} → Flow A → (A → Flow B) → Flow B
read_behind >>= next = read_behind
exited >>= next = exited
waits >>= next = waits
went_on value >>= next = next value

abbrev pub inside : {A : Type 0} → Option A → Flow A
inside none = read_behind
inside (some value) = went_on value

-- The array behind `fgets(array, size, stdin)`, which is kept where the input is at its end.
unfoldable pub fgets_array : List ℕ → Chunk → List ℕ
fgets_array array chunk =
    if length chunk.line == 0 then array else chunk.line ++ 0 ∷ drop (length chunk.line + 1) array

-- `chomp`: the first line feed of the C string becomes a NUL.
chomp_cons : ℕ → Option (List ℕ) → Option (List ℕ)
chomp_cons c none = none
chomp_cons c (some array) = some (c ∷ array)

unfoldable pub chomp : List ℕ → Option (List ℕ)
unfolding chomp_cons
chomp [] = none
chomp (c ∷ array) =
    let more = chomp_cons c (chomp array) in
    if c == 0 then some (c ∷ array) else if c == b'\n' then some (0 ∷ array) else more

-- `USERNAME_LEN` and `PASSWORD_LEN` are both 20.
abbrev pub name_len : ℕ
name_len = 20

module _ (p : Protobuf) where
  -- `login_string` of `main`, from both arrays and the standard input.
  unfoldable pub login_string : List ℕ → List ℕ → List ℕ → Flow (List ℕ)
  unfolding fgets fgets_array chomp login_packet
  login_string username password stdin =
      let first = fgets (name_len - 1) stdin in
      let second = fgets (name_len - 1) first.left in
      inside (chomp (fgets_array username first)) >>= λ u.
      inside (chomp (fgets_array password second)) >>= λ w. went_on (login_packet p u w (pos 1))

  -- The branches on what was parsed: `get_auth_code` and `read_data`.
  unfoldable pub code_or_exit : Option (List ℕ) → Flow (List ℕ)
  code_or_exit none = exited
  code_or_exit (some code) = went_on code

  unfoldable pub get_auth_code : List ℕ → Received → Flow (List ℕ)
  unfolding recv_into string_of code_or_exit
  get_auth_code buf closed = went_on []
  get_auth_code buf failed =
      inside (string_of buf) >>= λ text. code_or_exit (p.parse text).auth_code
  get_auth_code buf (got bytes) = inside (string_of (recv_into (got bytes) buf)) >>= λ text.
      code_or_exit (p.parse text).auth_code

  -- Whether a round of the last loop has printed the success.
  unfoldable pub connected_or_exit : Option ConnectedPacket → Flow Bool
  connected_or_exit none = went_on false
  connected_or_exit (some packet) = elim packet.connected [ none ↦ exited | some _ ↦ went_on true ]

  unfoldable pub read_data : List ℕ → Received → Flow Bool
  unfolding recv_into string_of connected_or_exit
  read_data buf closed = went_on false
  read_data buf failed =
      inside (string_of buf) >>= λ text. connected_or_exit (p.parse text).connected_packet
  read_data buf (got bytes) = inside (string_of (recv_into (got bytes) buf)) >>= λ text.
      connected_or_exit (p.parse text).connected_packet

  -- `auth_code` of `main`, and what is sent to the game server.
  unfoldable pub code_string : List ℕ → Flow (List ℕ)
  unfolding auth_code_packet
  code_string code =
      let packet = auth_code_packet p code in
      if ltb 0 (length packet) then went_on packet else exited
