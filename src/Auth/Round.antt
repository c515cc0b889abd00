-- ===== src/Auth/Round.antt =====
-- The loop over `recv` that protobufTest/AuthServer.cpp and protobufTest/GameServer.cpp both have,
-- one round at a time.
use linux_study_notes.Auth.Packet.{PacketHeader, Protobuf}
use linux_study_notes.Libc.{c_str}
use linux_study_notes.Prelude.{
  ℕ, List, [], ◌∷◌, ◌++◌, Option, none, some, ltb, ◌==◌, if◌then◌else◌, length, take, drop,
  replicate,
}

-- `MAXLINE`
abbrev pub max_line : ℕ
max_line = 4096

-- What `recv` returns: 0 when the peer has closed, -1, or a count of bytes. Its flags are the
-- uninitialised `n`; here they are 0.
pub data Received : Type 0 where
  closed failed : Received
  got : List ℕ → Received

-- The array behind the call, which takes at most `sizeof buf` bytes.
unfoldable pub recv_into : Received → List ℕ → List ℕ
recv_into closed buf = buf
recv_into failed buf = buf
recv_into (got bytes) buf = take max_line bytes ++ drop (length bytes) buf

-- `std::string` of a `char` array; `none` is a read behind its end.
unfoldable pub string_of : List ℕ → Option (List ℕ)
unfolding c_str
string_of buf = if ltb (length (c_str buf)) (length buf) then some (c_str buf) else none

-- The locals of `read_data`, the messages that it has sent, and the database.
pub record Service (Db : Type 0) : Type 0 where
  pub buf : List ℕ
  pub resp : List ℕ
  pub sent : List (List ℕ)
  pub db : Db

-- The locals at the start: `buf` holds what the stack held.
abbrev pub new_thread : {Db : Type 0} → List ℕ → Db → Service Db
new_thread buf db = record { buf = buf; resp = []; sent = []; db = db }

-- `if (resp.length() > 0) send(...)`
abbrev pub send_reply : List ℕ → List (List ℕ) → List (List ℕ)
send_reply resp sent = if length resp == 0 then sent else sent ++ resp ∷ []

module _ {Db : Type 0} (p : Protobuf) where
  -- The body of the `if (recv(...))`. `reply` is what the server does with a header: the new
  -- `resp`, which stays as it was where nothing assigns it, and the database.
  unfoldable pub handle_string :
      (PacketHeader → List ℕ → Db → Db × List ℕ)
      → Option (List ℕ)
      → Service Db
      → Option (Service Db)
  handle_string reply none t = none
  handle_string reply (some text) t =
      let next = reply (p.parse text) t.resp t.db in
      some (record {
        buf = replicate max_line 0;
        resp = next.1;
        sent = send_reply next.1 t.sent;
        db = next.0;
      })

  unfoldable pub round :
      (PacketHeader → List ℕ → Db → Db × List ℕ) → Received → Service Db → Option (Service Db)
  unfolding recv_into string_of handle_string
  round reply closed t = some t
  round reply failed t = handle_string reply (string_of t.buf) t
  round reply (got bytes) t = handle_string reply (string_of (recv_into (got bytes) t.buf)) t
