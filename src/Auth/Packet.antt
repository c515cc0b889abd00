-- ===== src/Auth/Packet.antt =====
-- protobufTest/PacketHandler.cpp over the messages of protobufTest/packet.proto. The code that
-- protoc generates from it and the library behind it are the parameter `Protobuf`.
use linux_study_notes.Libc.{c_str}
use linux_study_notes.Libc.Int.{ℤ, pos}
use linux_study_notes.Prelude.{ℕ, ◌≡◌, Bool, List, [], Option, none, some, if◌then◌else◌}

pub record LoginPacket : Type 0 where
  pub username : Option (List ℕ)
  pub password : Option (List ℕ)
  pub version : Option ℤ

pub record ConnectedPacket : Type 0 where
  pub connected : Option ℤ
  pub character_list : Option (List ℕ)

pub record PacketHeader : Type 0 where
  pub login_packet : Option LoginPacket
  pub connected_packet : Option ConnectedPacket
  pub auth_code : Option (List ℕ)

-- `SerializeToString`, and the message that `ParseFromString` leaves, whatever it returns: none of
-- its callers looks at that.
pub record Protobuf : Type 0 where
  pub serialize : PacketHeader → List ℕ
  pub parse : List ℕ → PacketHeader

-- What an accessor gives for a string that is not set.
abbrev pub text_of : Option (List ℕ) → List ℕ
text_of none = []
text_of (some text) = text

abbrev pub empty_header : PacketHeader
empty_header = record { login_packet = none; connected_packet = none; auth_code = none }

abbrev pub login_header : List ℕ → List ℕ → ℤ → PacketHeader
login_header username password version = record empty_header {
  login_packet =
      some (record { username = some username; password = some password; version = some version });
}

abbrev pub connected_header : Bool → PacketHeader
connected_header conn = record empty_header {
  connected_packet =
      some (record { connected = if conn then some (pos 1) else none; character_list = none });
}

abbrev pub code_header : List ℕ → PacketHeader
code_header code = record empty_header { auth_code = some code }

-- The three functions of `PacketHandler`; their `char *` arguments are C strings.
unfoldable pub connected_packet : Protobuf → Bool → List ℕ
connected_packet p conn = p.serialize (connected_header conn)

unfoldable pub login_packet : Protobuf → List ℕ → List ℕ → ℤ → List ℕ
unfolding c_str
login_packet p username pwd version =
    p.serialize (login_header (c_str username) (c_str pwd) version)

unfoldable pub auth_code_packet : Protobuf → List ℕ → List ℕ
unfolding c_str
auth_code_packet p code = p.serialize (code_header (c_str code))

-- Documented: `ParseFromString` undoes `SerializeToString` on a message whose required fields are
-- set. These are the messages of that kind that the programs make.
pub record IsInverse (p : Protobuf) : Type 0 where
  pub login_back :
      (username password : List ℕ) (version : ℤ)
      → p.parse (p.serialize (login_header username password version))
        ≡ login_header username password version
  pub connected_back :
      (conn : Bool) → p.parse (p.serialize (connected_header conn)) ≡ connected_header conn
  pub code_back : (code : List ℕ) → p.parse (p.serialize (code_header code)) ≡ code_header code
