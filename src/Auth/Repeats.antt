-- ===== src/Auth/Repeats.antt =====
-- What the rounds of protobufTest/AuthServer.cpp do with `resp` and `buf` from one to the next.
use linux_study_notes.Auth.Arrays.{EndsIn, string_of-recv_into, string_of-ended}
use linux_study_notes.Auth.Database.{Sqlite}
use linux_study_notes.Auth.Packet.{PacketHeader, Protobuf}
use linux_study_notes.Auth.Round.{
  got, Service, max_line, round, handle_string, send_reply, string_of, recv_into,
}
use linux_study_notes.Auth.Server.{login_reply, read_data}
use linux_study_notes.Libc.{NoNul, c_str_all}
use linux_study_notes.Prelude.{
  ℕ, ◌<◌, ◌≤◌, ◌≡◌, refl, List, ◌∷◌, ◌++◌, drop, none, some, length, drop_all, take_all, append-nil,
  append_assoc, replicate, le→not_ltb, arith,
}

module _ {Db : Type 0} (p : Protobuf) (s : Sqlite Db) (name : List ℕ) where
  -- A message with no login makes the thread send its last answer once more.
  pub read_data-repeats :
      (bytes : List ℕ) (t : Service Db)
      → NoNul bytes
      → length bytes < max_line
      → EndsIn t.buf bytes
      → (p.parse bytes).login_packet ≡ none
      → read_data p s name (got bytes) t
        ≡ some (record t { buf = replicate max_line 0; sent = send_reply t.resp t.sent })
  unfolding read_data round handle_string login_reply
  read_data-repeats bytes t n fits ends plain =
      rw (string_of-recv_into bytes t.buf n fits ends, plain) refl

  -- A message with no NUL that fills the array is read behind its end.
  pub read_data-full :
      (bytes : List ℕ) (t : Service Db)
      → NoNul bytes
      → length bytes ≡ max_line
      → length t.buf ≡ max_line
      → read_data p s name (got bytes) t ≡ none
  unfolding read_data round handle_string string_of recv_into
  read_data-full bytes t n full size =
      rw
        (
          take_all max_line bytes (omega arith),
          drop_all (length bytes) t.buf (omega arith),
          append-nil bytes,
          c_str_all bytes n,
          le→not_ltb (length bytes) (length bytes) (omega arith),
        )
        refl

-- A message with a NUL inside is read up to it.
string_of-cut :
    (front rest buf : List ℕ)
    → NoNul front
    → length (front ++ 0 ∷ rest) ≤ max_line
    → string_of (recv_into (got (front ++ 0 ∷ rest)) buf) ≡ some front
unfolding recv_into
string_of-cut front rest buf n fits =
    let tail = drop (length (front ++ 0 ∷ rest)) buf in
    rw (take_all max_line (front ++ 0 ∷ rest) fits, append_assoc front (0 ∷ rest) tail)
      (string_of-ended front (rest ++ tail) n)

-- Of a message with a NUL inside, a round of either server handles what stands in front of it,
-- whatever stands behind.
pub round-cut :
    {Db : Type 0} (p : Protobuf) (reply : PacketHeader → List ℕ → Db → Db × List ℕ)
    (front rest : List ℕ) (t : Service Db)
    → NoNul front
    → length (front ++ 0 ∷ rest) ≤ max_line
    → round p reply (got (front ++ 0 ∷ rest)) t
      ≡ some (record {
        buf = replicate max_line 0;
        resp = (reply (p.parse front) t.resp t.db).1;
        sent = send_reply (reply (p.parse front) t.resp t.db).1 t.sent;
        db = (reply (p.parse front) t.resp t.db).0;
      })
unfolding round handle_string
round-cut p reply front rest t n fits = rw (string_of-cut front rest t.buf n fits) refl
