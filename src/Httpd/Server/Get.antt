-- ===== src/Httpd/Server/Get.antt =====
-- What a well-formed GET is answered by tinyhttpd/httpd.c, on each branch after `stat`.
use linux_study_notes.Httpd.Cat.{cat_whole}
use linux_study_notes.Httpd.Conn.{Host, Junk, Conn, incoming, close}
use linux_study_notes.Httpd.Fault.{ok, fault, null_close, ◌>>=◌}
use linux_study_notes.Httpd.File.{discard_loop, serve_file, serve_opened, cat, more_headers}
use linux_study_notes.Httpd.Headers.{
  Headers, header_bytes, IsHeaders, discard_headers_stops, more_headers-header,
  discard_loop-headers, count-le,
}
use linux_study_notes.Httpd.Line.Ends.{Ending}
use linux_study_notes.Httpd.Line.{GotLine}
use linux_study_notes.Httpd.Reply.{headers, not_found}
use linux_study_notes.Httpd.Request.Parse.{line_bytes}
use linux_study_notes.Httpd.Request.Paths.{NoQuestion, split_query_plain}
use linux_study_notes.Httpd.Request.{buf_size, is_get, Target, target, make_path}
use linux_study_notes.Httpd.Server.Accept.{
  Ask, ask_text, ask_bytes, IsAsk, asked, asked_target, accept_request-asked, line_of-bytes,
  line_of, length-line_of,
}
use linux_study_notes.Httpd.Server.{is_dir, is_executable, final_path, deliver, accept_request}
use linux_study_notes.Libc.{codes, NoNul, c_str_all}
use linux_study_notes.Prelude.{
  ℕ, ◌+◌, ◌≡◌, ◌≢◌, refl, ap, subst, ◌∙◌, true, false, List, [], ◌∷◌, ◌++◌, arith, length, none,
  some,
}

abbrev pub ok_head : List ℕ
ok_head = codes "HTTP/1.0 200 OK\r\nServer:myhttpd/0.1.0\r\nContent-Type: text/html\r\n\r\n"

abbrev pub not_found_text : List ℕ
not_found_text =
    codes "HTTP/1.0 404 NOT FOUND\r\nServer:myhttpd/0.1.0\r\nContent-Type: text/html\r\n\r\n"
    ++ codes "<HTML><TITLE>Not Found</TITLE>\r\n<BODY><P>The server could not fulfill\r\n"
    ++ codes "your request because the resource specified\r\nis unavailable or nonexistent.\r\n"
    ++ codes "</BODY></HTML>\r\n"

-- A connection that has been answered with `bytes`, that no script has seen, and that is closed.
abbrev pub answered : List ℕ → List ℕ → Conn
answered body bytes = record { sock = body; sent = bytes; is_open = false; started = [] }

-- A GET for a URL with no query.
pub record IsPlainGet (a : Ask) : Type 0 where
  pub get : is_get a.method ≡ true
  pub no_nul : NoNul (a.first ∷ a.url)
  pub no_query : NoQuestion (a.first ∷ a.url)

pub plain_target :
    (a : Ask)
    → IsPlainGet a
    → asked_target a ≡ record { url = a.first ∷ a.url; query = some []; cgi = false }
unfolding target
plain_target a v =
    rw v.get
      (rw (c_str_all (a.first ∷ a.url) v.no_nul) (split_query_plain (a.first ∷ a.url) v.no_query))

serve_opened_whole :
    (body b : List ℕ)
    → NoNul (b ++ b'\n' ∷ [])
    → serve_opened (some (b ++ b'\n' ∷ [])) (incoming body)
      ≡ ok (record (answered body (ok_head ++ (b ++ b'\n' ∷ []))) { is_open = true })
unfolding serve_opened headers cat
serve_opened_whole body b n =
    ap (λ bytes. ok (record (incoming body) { sent = bytes }))
      (cat_whole b (record (incoming body) { sent = ok_head }) n)

pub not_found-sent :
    (body : List ℕ)
    → not_found (incoming body) ≡ record (answered body not_found_text) { is_open = true }
unfolding not_found
not_found-sent body = refl

append-cons-ne-nil : (xs : List ℕ) (y : ℕ) (ys : List ℕ) → xs ++ y ∷ ys ≢ []
append-cons-ne-nil [] y ys e = cc
append-cons-ne-nil (x ∷ xs) y ys e = cc

-- The loop of the 404 branch goes on from the request line in `buf`.
pub asked_headers_stop :
    (a : Ask) (hs : Headers) (last : Ending) (body junk : List ℕ)
    → IsAsk a (header_bytes hs last body)
    → IsHeaders hs last body
    → length junk ≡ buf_size
    → (discard_loop
        (length (header_bytes hs last body) + 2)
        (asked a junk (header_bytes hs last body))).rest
      ≡ body
asked_headers_stop a hs last body junk v vh b =
    let rest = header_bytes hs last body in
    let n = length (ask_text a) + 1 in
    let g : List ℕ → GotLine = λ buf. record { numchars = n; buf = buf; rest = rest } in
    discard_loop-headers hs last body (line_bytes (line_of a junk)) n (length rest + 2) vh
      (length-line_of a junk v.fits b) (omega (arith, count-le hs last body)) (asked a junk rest)
      refl
      (subst (λ buf. more_headers (g buf) ≡ true) (line_of-bytes a junk)
        (more_headers-header (ask_text a) junk rest v.plain
          (append-cons-ne-nil a.method b' ' (a.first ∷ (a.url ++ b' ' ∷ a.version)))))

-- The stack of the server: arrays of their full size.
pub record IsJunk (junk : Junk) : Type 0 where
  pub line : length junk.line_buf ≡ buf_size
  pub header : length junk.header_buf ≡ buf_size

module _ (h : Host) (junk : Junk) (a : Ask) (hs : Headers) (last : Ending) (body : List ℕ)
    (j : IsJunk junk) (v : IsAsk a (header_bytes hs last body)) (vh : IsHeaders hs last body)
    (g : IsPlainGet a) where
  deliver_file :
      (mode : ℕ)
      → is_executable mode ≡ false
      → deliver h junk a.method
          (asked a junk.line_buf (header_bytes hs last body))
          (asked_target a)
          (make_path (a.first ∷ a.url))
          (some mode)
          (incoming (header_bytes hs last body))
        ≡ serve_opened (h.open_file (final_path (make_path (a.first ∷ a.url)) mode)) (incoming body)
  unfolding deliver serve_file
  deliver_file mode x =
      rw (plain_target a g)
        (rw x (rw (discard_headers_stops hs last body junk.header_buf vh j.header)))

  asked_plain : accept_request h junk (incoming (ask_bytes a (header_bytes hs last body))) ≡ (
      deliver h junk a.method
        (asked a junk.line_buf (header_bytes hs last body))
        (asked_target a)
        (make_path (a.first ∷ a.url))
        (h.stat (make_path (a.first ∷ a.url)))
        (incoming (header_bytes hs last body))
      >>= λ k. ok (close k))
  asked_plain =
      accept_request-asked h junk a (header_bytes hs last body) v j.line
      ∙ ap
          (λ path.
            deliver h junk a.method (asked a junk.line_buf (header_bytes hs last body))
              (asked_target a) path (h.stat path) (incoming (header_bytes hs last body))
            >>= λ k. ok (close k))
          (ap (λ (t : Target). make_path t.url) (plain_target a g))

  -- A file with no NUL that is no directory, that no one may execute, and whose last byte is a line
  -- feed, is sent whole behind
  -- the fixed headers; the request's headers are read up to its body, and the socket is closed.
  pub get_file :
      (mode : ℕ) (b : List ℕ)
      → h.stat (make_path (a.first ∷ a.url)) ≡ some mode
      → is_dir mode ≡ false
      → is_executable mode ≡ false
      → h.open_file (make_path (a.first ∷ a.url)) ≡ some (b ++ b'\n' ∷ [])
      → NoNul (b ++ b'\n' ∷ [])
      → accept_request h junk (incoming (ask_bytes a (header_bytes hs last body)))
        ≡ ok (answered body (ok_head ++ (b ++ b'\n' ∷ [])))
  get_file mode b st d x op n =
      asked_plain
      ∙ rw st (rw (deliver_file mode x) (rw d (rw op (rw (serve_opened_whole body b n)))))

  -- Where `fopen` fails after a good `stat`, the 404 reply is sent, and then a null pointer is
  -- closed.
  pub get_unreadable :
      (mode : ℕ)
      → h.stat (make_path (a.first ∷ a.url)) ≡ some mode
      → is_dir mode ≡ false
      → is_executable mode ≡ false
      → h.open_file (make_path (a.first ∷ a.url)) ≡ none
      → accept_request h junk (incoming (ask_bytes a (header_bytes hs last body)))
        ≡ fault (null_close not_found_text)
  unfolding serve_opened
  get_unreadable mode st d x op =
      asked_plain ∙ rw st (rw (deliver_file mode x) (rw d (rw op (rw (not_found-sent body)))))

  -- Where `stat` fails, the headers are read up to the body, the 404 reply is sent, and the socket
  -- is closed.
  pub get_missing :
      h.stat (make_path (a.first ∷ a.url)) ≡ none
      → accept_request h junk (incoming (ask_bytes a (header_bytes hs last body)))
        ≡ ok (answered body not_found_text)
  unfolding deliver
  get_missing st =
      asked_plain
      ∙ rw st (
          rw (asked_headers_stop a hs last body junk.line_buf v vh j.line)
            (rw (not_found-sent body)))
