-- ===== src/Httpd/File.antt =====
-- `cat` and `serve_file` of tinyhttpd/httpd.c, and the loop that reads and discards headers.
use linux_study_notes.Httpd.Conn.{Host, Conn, send}
use linux_study_notes.Httpd.Fault.{Result, ok, fault, null_close}
use linux_study_notes.Httpd.Line.{GotLine, get_line}
use linux_study_notes.Httpd.Reply.{headers, not_found}
use linux_study_notes.Httpd.Request.{buf_size}
use linux_study_notes.Libc.{codes, c_str, str_eq}
use linux_study_notes.Libc.Stdio.{fgets}
use linux_study_notes.Prelude.{
  ℕ, zero, suc, ◌+◌, ◌-◌, Bool, not, ◌&&◌, List, [], ◌++◌, Option, none, some, ltb, if◌then◌else◌,
  length, set,
}

-- `(numchars > 0) && strcmp("\n", buf)`
unfoldable pub more_headers : GotLine → Bool
unfolding str_eq
more_headers g = ltb 0 g.numchars && not (str_eq (codes "\n") g.buf)

-- `while (...) numchars = get_line(client, buf, sizeof(buf));`, at most `fuel` rounds.
unfoldable pub discard_loop : ℕ → GotLine → GotLine
discard_loop zero g = g
discard_loop (suc fuel) g =
    let more = discard_loop fuel (get_line g.rest g.buf buf_size) in
    if more_headers g then more else g

-- `buf[0] = 'A'; buf[1] = '\0';`
abbrev pub start_buf : List ℕ → List ℕ
start_buf junk = set (set junk 0 b'A') 1 0

-- Each round but the last takes a byte from the socket, so its length and 2 rounds are enough.
unfoldable pub discard_headers : List ℕ → List ℕ → GotLine
discard_headers junk sock =
    discard_loop (length sock + 2) (record { numchars = 1; buf = start_buf junk; rest = sock })

-- The bytes that the loop of `cat` sends; each is `strlen(buf)` long. A round that goes on has read
-- a byte, so the length of the file and 1 rounds are enough.
unfoldable pub cat_loop : ℕ → List ℕ → List ℕ
unfolding fgets c_str
cat_loop zero file = []
cat_loop (suc fuel) file =
    let got = fgets (buf_size - 1) file in
    let more = c_str got.line ++ cat_loop fuel got.left in if got.eof then [] else more

unfoldable pub cat : List ℕ → Conn → Conn
cat file k = send (cat_loop (length file + 1) file) k

-- `fclose(resource)` stands behind both branches.
unfoldable pub serve_opened : Option (List ℕ) → Conn → Result Conn
serve_opened none k = fault (null_close (not_found k).sent)
serve_opened (some file) k = ok (cat file (headers k))

unfoldable pub serve_file : Host → List ℕ → List ℕ → Conn → Result Conn
serve_file h filename junk k =
    serve_opened (h.open_file filename) (record k { sock = (discard_headers junk k.sock).rest })
