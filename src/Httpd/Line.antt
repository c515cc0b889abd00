-- ===== src/Httpd/Line.antt =====
pub mod Scan
pub mod Ends
pub mod Bounds
-- `get_line` of tinyhttpd/httpd.c. The socket is the list of the bytes that the client has sent and
-- that have not been received; `recv` on the empty list returns 0 or -1, which the code treats
-- alike.
use linux_study_notes.Prelude.{ℕ, zero, suc, ◌+◌, ◌-◌, List, [], ◌∷◌, ◌==◌, if◌then◌else◌, set}

-- What `get_line` returns, the array after it, and what is left in the socket.
pub record GotLine : Type 0 where
  pub numchars : ℕ
  pub buf : List ℕ
  pub rest : List ℕ

-- The `MSG_PEEK` after a carriage return: a line feed is taken too, anything else stays.
unfoldable pub after_cr : List ℕ → List ℕ
after_cr [] = []
after_cr (d ∷ sock) = if d == b'\n' then sock else d ∷ sock

-- `c` after the branch on '\r', and the socket.
unfoldable pub fold_cr : ℕ → List ℕ → ℕ × List ℕ
unfolding after_cr
fold_cr c sock = if c == b'\r' then (b'\n', after_cr sock) else (c, sock)

-- The `while` loop, `room` being `size - 1 - i`. A failed `recv` sets `c` to '\n', which ends it.
unfoldable pub get_line_loop : ℕ → ℕ → List ℕ → List ℕ → GotLine
unfolding fold_cr
get_line_loop zero i buf sock = record { numchars = i; buf = buf; rest = sock }
get_line_loop (suc room) i buf [] = record { numchars = i; buf = buf; rest = [] }
get_line_loop (suc room) i buf (c ∷ sock) =
    let got = fold_cr c sock in
    let buf' = set buf i got.0 in
    let more = get_line_loop room (i + 1) buf' got.1 in
    if got.0 == b'\n' then record { numchars = i + 1; buf = buf'; rest = got.1 } else more

unfoldable pub get_line : List ℕ → List ℕ → ℕ → GotLine
unfolding get_line_loop
get_line sock buf size =
    let g = get_line_loop (size - 1) 0 buf sock in record g { buf = set g.buf g.numchars 0 }
