-- ===== src/Httpd/Cgi.antt =====
pub mod Body
pub mod Length
-- `execute_cgi` of tinyhttpd/httpd.c.
use linux_study_notes.Httpd.Conn.{Host, Junk, Conn, Script, send}
use linux_study_notes.Httpd.Fault.{Result, ok, fault, overflow, ◌>>=◌}
use linux_study_notes.Httpd.File.{more_headers, discard_headers, start_buf}
use linux_study_notes.Httpd.Line.{GotLine, get_line}
use linux_study_notes.Httpd.Reply.{say, cannot_execute, bad_request}
use linux_study_notes.Httpd.Request.{buf_size, is_get, is_post}
use linux_study_notes.Libc.Int.{ℤ, negsuc, pos_part, is_minus_one}
use linux_study_notes.Libc.{c_str, codes, str_case_eq, atoi, show_int}
use linux_study_notes.Prelude.{
  ℕ, zero, suc, ◌+◌, not, List, [], ◌∷◌, ◌++◌, Option, none, some, leb, if◌then◌else◌, length, set,
  drop,
}

-- `sizeof(meth_env)`, `sizeof(query_env)`, `sizeof(length_env)`
abbrev pub env_size : ℕ
env_size = 255

-- The variable `content_length` and the state of the loop that reads the headers of a POST.
pub record Scanning : Type 0 where
  pub content_length : ℤ
  pub got : GotLine

-- One header: cut at 15, compared, and the number read behind the blank.
unfoldable pub read_header : Scanning → Scanning
unfolding str_case_eq atoi
read_header s =
    let buf = set s.got.buf 15 0 in
    record {
      content_length =
          if str_case_eq buf (codes "Content-Length:")
          then atoi (drop 16 buf)
          else s.content_length;
      got = record (s.got) { buf = buf };
    }

-- The `while` loop of the POST branch, at most `fuel` rounds.
unfoldable pub length_loop : ℕ → Scanning → Scanning
length_loop zero s = s
length_loop (suc fuel) s =
    let s' = read_header s in
    let more = length_loop fuel (record s' { got = get_line s'.got.rest s'.got.buf buf_size }) in
    if more_headers s.got then more else s

-- The POST branch up to its test: the first `get_line` stands before the loop.
unfoldable pub read_length : List ℕ → List ℕ → Scanning
read_length junk sock =
    length_loop (length sock + 1)
      (record { content_length = negsuc 0; got = get_line sock (start_buf junk) buf_size })

-- What the loop over the request's body has written to the script, and what is left.
pub record Relayed : Type 0 where
  pub written : List ℕ
  pub rest : List ℕ

abbrev pub relayed_cons : ℕ → Relayed → Relayed
relayed_cons c r = record r { written = c ∷ r.written }

-- `recv(client, &c, 1, 0); write(cgi_input[1], &c, 1);`, `n` times. A `recv` that gets nothing
-- leaves `c`, which is written all the same.
unfoldable pub relay : ℕ → ℕ → List ℕ → Relayed
relay zero c sock = record { written = []; rest = sock }
relay (suc n) c [] = relayed_cons c (relay n c [])
relay (suc n) c (d ∷ sock) = relayed_cons d (relay n d sock)

-- `sprintf` into one of the arrays for `putenv`.
abbrev pub env : List ℕ → Result (List ℕ)
env text = if leb (length text + 1) env_size then ok text else fault overflow

-- A GET has a query string, so `%s` of a null pointer is not reached.
abbrev pub query_text : Option (List ℕ) → List ℕ
query_text none = []
query_text (some q) = q

-- The environment that the child puts together: the method, then the query or the length.
unfoldable pub environment : List ℕ → Option (List ℕ) → ℤ → Result (List (List ℕ))
environment method query n =
    let arg =
      if is_get method
      then codes "QUERY_STRING=" ++ query_text query
      else codes "CONTENT_LENGTH=" ++ show_int n in
    env (codes "REQUEST_METHOD=" ++ c_str method) >>= λ m. env arg >>= λ a. ok (m ∷ a ∷ [])

-- Child and parent after `fork`: the body goes to the script, its output goes to the client. A
-- write behind an array of the child leaves the parent as it is. The child keeps its end of
-- `cgi_input` open while the body is written to it: the signal of a write with no reader is left
-- out.
unfoldable pub run_script : Host → List ℕ → List ℕ → Option (List ℕ) → ℤ → ℕ → Conn → Result Conn
run_script h path method query n byte k =
    let vars = environment method query n in
    let nothing : Relayed = record { written = []; rest = k.sock } in
    let body = if is_post method then relay (pos_part n) byte k.sock else nothing in
    let script : Script = record { program = path; environment = vars; stdin = body.written } in
    ok (send (h.output script) (record k { sock = body.rest; started = k.started ++ script ∷ [] }))

-- From the status line to the end: two pipes, then `fork`.
unfoldable pub respond : Host → List ℕ → List ℕ → Option (List ℕ) → ℤ → ℕ → Conn → Result Conn
respond h path method query n byte k =
    let k = say "HTTP/1.0 200 OK\r\n" k in
    if not h.pipe_output
    then ok (cannot_execute k)
    else if not h.pipe_input
    then ok (cannot_execute k)
    else if not h.can_fork
    then ok (cannot_execute k)
    else run_script h path method query n byte k

unfoldable pub execute_cgi : Host → List ℕ → List ℕ → Option (List ℕ) → Junk → Conn → Result Conn
execute_cgi h path method query junk k =
    let s = read_length junk.header_buf k.sock in
    let k' = record k { sock = s.got.rest } in
    if is_get method
    then respond h path method query (negsuc 0) junk.byte
        (record k { sock = (discard_headers junk.header_buf k.sock).rest })
    else if is_minus_one s.content_length
    then ok (bad_request junk.reply_buf k')
    else respond h path method query s.content_length junk.byte k'
