-- ===== src/Httpd/Server/Reference.antt =====
-- What tinyhttpd/httpd.c answers to a request, as a reference for `accept_request`: no arrays, no
-- loops over a socket, no parser.
use linux_study_notes.Httpd.Cgi.Body.{get_vars, post_vars, last_or}
use linux_study_notes.Httpd.Conn.{Host, Script, Conn, incoming}
use linux_study_notes.Httpd.Fault.{Result, ok, fault, overflow, null_close}
use linux_study_notes.Httpd.File.{cat_loop}
use linux_study_notes.Httpd.Request.{make_path}
use linux_study_notes.Httpd.Server.Get.{ok_head, not_found_text, answered}
use linux_study_notes.Httpd.Server.Run.{ok_status, ran}
use linux_study_notes.Httpd.Server.{is_executable, final_path}
use linux_study_notes.Libc.{codes}
use linux_study_notes.Prelude.{
  ℕ, ◌∷◌, ◌+◌, ◌-◌, Bool, true, false, ◌&&◌, ◌||◌, List, [], ◌++◌, Option, none, some, leb,
  if◌then◌else◌, length, take, drop, replicate,
}

abbrev pub refused_text : List ℕ
refused_text =
    codes "HTTP/1.0 500 Internal Server Error\r\nContent-type: text/html\r\n\r\n"
    ++ codes "<P>Error prohibited CGI execution.\r\n"

-- A script starts if both pipes and `fork` work; else the status line is followed by another.
abbrev pub run_or_refuse : Host → List ℕ → Script → List ℕ → Result Conn
run_or_refuse h body s rest =
    if h.pipe_output && (h.pipe_input && h.can_fork)
    then ok (ran h s rest)
    else ok (answered body (ok_status ++ refused_text))

-- `fclose` of a null pointer follows a failed `fopen`.
abbrev pub give_file : Option (List ℕ) → List ℕ → Result Conn
give_file none body = fault (null_close not_found_text)
give_file (some file) body = ok (answered body (ok_head ++ cat_loop (length file + 1) file))

abbrev pub query_of : Option (List ℕ) → List ℕ
query_of none = []
query_of (some q) = q

abbrev pub has_query : Option (List ℕ) → Bool
has_query none = false
has_query (some q) = true

-- The script gets the query in an array of 255 bytes; a longer one is written behind it, in the
-- child, and the server goes on.
abbrev pub get_script : Host → List ℕ → List ℕ → List ℕ → List ℕ → Result Conn
get_script h program method q body =
    run_or_refuse h body
      (record {
        program = program;
        environment = if leb (length q) 241 then ok (get_vars method q) else fault overflow;
        stdin = [];
      })
      body

-- A GET for the URL `u`, perhaps with a query, in front of `body`.
unfoldable pub answer_get : Host → List ℕ → List ℕ → Option (List ℕ) → List ℕ → Result Conn
answer_get h method u query body = elim (h.stat (make_path u)) [
  | none ↦ ok (answered body not_found_text)
  | some mode ↦
      let path = final_path (make_path u) mode in
      if has_query query || is_executable mode
      then get_script h path method (query_of query) body
      else give_file (h.open_file path) body
]

-- What a script reads if `n` bytes are declared: what comes, and then the last byte again and
-- again.
abbrev pub stdin_of : ℕ → ℕ → List ℕ → List ℕ
stdin_of n byte body =
    if leb n (length body)
    then take n body
    else body ++ replicate (n - length body) (last_or byte body)

-- A POST for the URL `u` that declares `n` bytes, in front of `body`.
unfoldable pub answer_post : Host → ℕ → List ℕ → List ℕ → ℕ → List ℕ → Result Conn
answer_post h byte method u n body = elim (h.stat (make_path u)) [
  | none ↦ ok (answered body not_found_text)
  | some mode ↦
      run_or_refuse h body
        (record {
          program = final_path (make_path u) mode;
          environment = ok (post_vars method n);
          stdin = stdin_of n byte body;
        })
        (drop n body)
]

abbrev pub bad_texts : List (List ℕ)
bad_texts =
    codes "HTTP/1.0 400 BAD REQUEST\r\n"
    ∷ codes "Content-type: text/html\r\n"
    ∷ codes "\r\n"
    ∷ codes "<P>Your browser sent a bad request, "
    ∷ codes "such as a POST without a Content-Length.\r\n"
    ∷ []

-- Of every text the whole array is sent that it is written over with its NUL: what stood in the
-- array comes behind the NUL.
unfoldable pub whole_arrays : List (List ℕ) → List ℕ → List ℕ
whole_arrays [] buf = []
whole_arrays (text ∷ texts) buf =
    let now = text ++ 0 ∷ drop (length text + 1) buf in now ++ whole_arrays texts now

-- A POST for the URL `u` that declares no length, or -1, in front of `body`.
unfoldable pub answer_unmeasured : Host → List ℕ → List ℕ → List ℕ → Result Conn
answer_unmeasured h reply_buf u body = elim (h.stat (make_path u)) [
  | none ↦ ok (answered body not_found_text)
  | some mode ↦ ok (answered body (whole_arrays bad_texts reply_buf))
]

abbrev pub unimplemented_text : List ℕ
unimplemented_text =
    codes "HTTP/1.0 501 Method Not Implemented\r\nServer:myhttpd/0.1.0\r\n"
    ++ codes "Content-Type: text/html\r\n\r\n<HTML><HEAD><TITLE>Method Not Implemented\r\n"
    ++ codes "</TITLE></HEAD>\r\n<BODY><P>HTTP request method not supported.\r\n"
    ++ codes "</BODY></HTML>\r\n"

-- Any other method: the socket stays open, and nothing behind the request line is read.
abbrev pub answer_unserved : List ℕ → Result Conn
answer_unserved rest = ok (record (incoming rest) { sent = unimplemented_text })
