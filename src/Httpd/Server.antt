-- ===== src/Httpd/Server.antt =====
pub mod Close
pub mod Run
pub mod Get
pub mod Accept
pub mod Reference
pub mod Branches
pub mod Answer
-- `accept_request` of tinyhttpd/httpd.c as a whole.
use Prim.Native.Nat.{bit_and}
use linux_study_notes.Httpd.Cgi.{execute_cgi}
use linux_study_notes.Httpd.Conn.{Host, Junk, Conn, close}
use linux_study_notes.Httpd.Fault.{Result, ok, ◌>>=◌}
use linux_study_notes.Httpd.File.{discard_loop, serve_file}
use linux_study_notes.Httpd.Line.{GotLine, get_line}
use linux_study_notes.Httpd.Reply.{not_found, unimplemented}
use linux_study_notes.Httpd.Request.{
  buf_size, Token, read_method, read_url, is_get, is_post, Target, target, make_path,
}
use linux_study_notes.Libc.{codes}
use linux_study_notes.Prelude.{
  ℕ, ◌+◌, Bool, not, ◌&&◌, ◌||◌, List, ◌++◌, Option, none, some, ◌==◌, if◌then◌else◌, length,
}

-- `(st_mode & S_IFMT) == S_IFDIR`, and any of the three bits for execution
unfoldable pub is_dir : ℕ → Bool
is_dir mode = bit_and mode 0o170000 == 0o040000

unfoldable pub is_executable : ℕ → Bool
is_executable mode =
    not (bit_and mode 0o100 == 0) || not (bit_and mode 0o010 == 0) || not (bit_and mode 0o001 == 0)

-- The path of a directory is extended; whether it is run is read from the same `st`.
abbrev pub final_path : List ℕ → ℕ → List ℕ
final_path path mode = if is_dir mode then path ++ codes "/index.html" else path

-- The branches on the result of `stat`.
unfoldable pub deliver :
    Host → Junk → List ℕ → GotLine → Target → List ℕ → Option ℕ → Conn → Result Conn
deliver h junk method g t path none k =
    ok (not_found (record k { sock = (discard_loop (length g.rest + 2) g).rest }))
deliver h junk method g t path (some mode) k =
    let path = final_path path mode in
    if not (t.cgi || is_executable mode)
    then serve_file h path junk.header_buf k
    else execute_cgi h path method t.query junk k

-- From the test of the method on: an unknown method is answered with no `close`.
unfoldable pub dispatch : Host → Junk → Token → GotLine → Conn → Result Conn
dispatch h junk method g k =
    if not (is_get method.text) && not (is_post method.text)
    then ok (unimplemented k)
    else read_url g.buf method.pos >>= λ url.
        let t = target method.text url.text in
        let path = make_path t.url in
        deliver h junk method.text g t path (h.stat path) k >>= λ k'. ok (close k')

unfoldable pub accept_request : Host → Junk → Conn → Result Conn
accept_request h junk k =
    let g = get_line k.sock junk.line_buf buf_size in
    read_method g.buf >>= λ method. dispatch h junk method g (record k { sock = g.rest })
