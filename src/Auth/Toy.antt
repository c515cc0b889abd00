-- ===== src/Auth/Toy.antt =====
-- A message format and a database of the kind that protobufTest takes from its libraries.
use linux_study_notes.Auth.Database.{
  Sqlite, Row, any, is_login, holds_code, set_code, IsTable, IsWorking,
}
use linux_study_notes.Auth.Packet.{
  LoginPacket, ConnectedPacket, PacketHeader, Protobuf, text_of, empty_header, login_header,
  connected_header, code_header, IsInverse,
}
use linux_study_notes.Libc.{equal}
use linux_study_notes.Libc.Int.{ℤ, pos, negsuc}
use linux_study_notes.Prelude.{
  ℕ, zero, suc, sym, ◌≡◌, refl, ap, inl, Bool, true, false, List, [], ◌∷◌, ◌++◌, append-nil, Option,
  none, some, if◌then◌else◌, arith, ◌∙◌,
}

-- A string: each byte 2 higher, and a 1.
unfoldable pub pack : List ℕ → List ℕ
pack [] = 1 ∷ []
pack (c ∷ text) = suc (suc c) ∷ pack text

unpack_cons : ℕ → List ℕ × List ℕ → List ℕ × List ℕ
unpack_cons c r = (c ∷ r.0, r.1)

unfoldable pub unpack : List ℕ → List ℕ × List ℕ
unfolding unpack_cons
unpack [] = ([], [])
unpack (zero ∷ bytes) = ([], bytes)
unpack (suc zero ∷ bytes) = ([], bytes)
unpack (suc (suc c) ∷ bytes) = unpack_cons c (unpack bytes)

unpack-pack : (text rest : List ℕ) → unpack (pack text ++ rest) ≡ (text, rest)
unfolding unpack pack
unpack-pack [] rest = refl
unpack-pack (c ∷ text) rest = rw (unpack-pack text rest) refl

unfoldable pub pack_version : Option ℤ → List ℕ
pack_version none = 1 ∷ 1 ∷ []
pack_version (some (pos n)) = 1 ∷ suc n ∷ []
pack_version (some (negsuc n)) = 2 ∷ suc n ∷ []

unfoldable pub pack_login : LoginPacket → List ℕ
unfolding pack pack_version
pack_login l =
    1 ∷ (pack_version l.version ++ (pack (text_of l.username) ++ pack (text_of l.password)))

unfoldable pub pack_connected : ConnectedPacket → List ℕ
pack_connected c = elim c.connected [ none ↦ 2 ∷ 1 ∷ [] | some _ ↦ 2 ∷ 2 ∷ [] ]

unfoldable pub pack_header : PacketHeader → List ℕ
unfolding pack_login pack_connected pack
pack_header h = elim h.login_packet [
  | some l ↦ pack_login l
  | none ↦ elim h.connected_packet [
    | some c ↦ pack_connected c
    | none ↦ elim h.auth_code [ none ↦ [] | some code ↦ 3 ∷ pack code ]
  ]
]

unpack_two : ℤ → List ℕ × List ℕ → PacketHeader
unfolding unpack
unpack_two version r = login_header r.0 (unpack r.1).0 version

unfoldable pub unpack_header : List ℕ → PacketHeader
unfolding unpack unpack_two
unpack_header (suc zero ∷ suc zero ∷ suc n ∷ bytes) = unpack_two (pos n) (unpack bytes)
unpack_header (suc zero ∷ suc (suc k) ∷ suc n ∷ bytes) = unpack_two (negsuc n) (unpack bytes)
unpack_header (suc (suc zero) ∷ suc zero ∷ []) = connected_header false
unpack_header (suc (suc zero) ∷ suc (suc k) ∷ []) = connected_header true
unpack_header (suc (suc (suc zero)) ∷ bytes) = code_header (unpack bytes).0
unpack_header bytes = empty_header

abbrev pub toy_protobuf : Protobuf
toy_protobuf = record { serialize = pack_header; parse = unpack_header }

unpack-pack_all : (text : List ℕ) → unpack (pack text) ≡ (text, [])
unpack-pack_all text =
    ap unpack {y = pack text ++ []} (sym (append-nil (pack text))) ∙ unpack-pack text []

login_back_lem :
    (u w : List ℕ) (version : ℤ)
    → unpack_header (pack_header (login_header u w version)) ≡ login_header u w version
unfolding pack_header unpack_header unpack_two
login_back_lem u w (pos n) = rw (unpack-pack u (pack w), unpack-pack_all w) refl
login_back_lem u w (negsuc n) = rw (unpack-pack u (pack w), unpack-pack_all w) refl

connected_back_lem :
    (conn : Bool) → unpack_header (pack_header (connected_header conn)) ≡ connected_header conn
unfolding pack_header unpack_header
connected_back_lem true = refl
connected_back_lem false = refl

code_back_lem : (code : List ℕ) → unpack_header (pack_header (code_header code)) ≡ code_header code
unfolding pack_header unpack_header
code_back_lem code = rw (unpack-pack_all code) refl

pub toy_protobuf-IsInverse : IsInverse toy_protobuf
toy_protobuf-IsInverse = record {
  login_back = login_back_lem;
  connected_back = connected_back_lem;
  code_back = code_back_lem;
}

-- The rows themselves, with the three statements.
unfoldable pub toy_steps : List ℕ → List (List ℕ) → List Row → List Row × ℕ
unfolding equal
toy_steps sql (a ∷ []) rows = (rows, if any (holds_code a) rows then 100 else 101)
toy_steps sql (a ∷ b ∷ []) rows = (rows, if any (is_login a b) rows then 100 else 101)
toy_steps sql (a ∷ b ∷ c ∷ []) rows = (set_code a b c rows, 101)
toy_steps sql texts rows = (rows, 1)

abbrev pub toy_sqlite : Sqlite (List Row)
toy_sqlite = record { opens = λ name rows. (rows, true); steps = toy_steps }

abbrev pub all_rows : List Row → List Row
all_rows rows = rows

found : (b : Bool) → ◌≡◌ {A = ℕ} (if b then 100 else 101) 100 → b ≡ true
found true h = refl
found false h = absurd (omega arith)

pub toy_sqlite-IsTable : IsTable toy_sqlite all_rows
unfolding toy_steps
toy_sqlite-IsTable = record {
  opens_keeps = λ name rows. refl;
  user_keeps = λ u p rows. refl;
  code_keeps = λ c rows. refl;
  user_found = λ u p rows h. found (any (is_login u p) rows) h;
  code_found = λ c rows h. found (any (holds_code c) rows) h;
  code_set = λ c u p rows. inl refl;
}

pub toy_sqlite-IsWorking : IsWorking toy_sqlite all_rows
unfolding toy_steps
toy_sqlite-IsWorking = record {
  opened = λ name rows. refl;
  user_row = λ u p rows h. rw h refl;
  code_row = λ c rows h. rw h refl;
  code_written = λ c u p rows. refl;
}
