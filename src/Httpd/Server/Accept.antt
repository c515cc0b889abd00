-- ===== src/Httpd/Server/Accept.antt =====
-- A well-formed request on the way through `accept_request` of tinyhttpd/httpd.c.
use linux_study_notes.Httpd.Conn.{Host, Junk, Conn, incoming, close}
use linux_study_notes.Httpd.Fault.{ok, ◌>>=◌}
use linux_study_notes.Httpd.Line.Ends.{Plain, Ending, ending_bytes, Before, get_line-terminated}
use linux_study_notes.Httpd.Line.{GotLine, get_line}
use linux_study_notes.Httpd.Reply.{unimplemented}
use linux_study_notes.Httpd.Request.Parse.{NoSpace, Line, line_bytes, IsLine, read_tokens}
use linux_study_notes.Httpd.Request.{
  buf_size, token_max, Token, read_url, is_get, is_post, Target, target, make_path,
}
use linux_study_notes.Httpd.Server.{deliver, dispatch, accept_request}
use linux_study_notes.Libc.{is_space}
use linux_study_notes.Prelude.{
  ℕ, ◌+◌, ◌≤◌, ◌<◌, ◌≡◌, refl, ap, ◌∙◌, Bool, true, false, ◌||◌, List, [], ◌∷◌, ◌++◌, append_assoc,
  arith, length, length-append, length-drop, drop,
}

-- A request line with single blanks; the URL is `first` and `url`.
pub record Ask : Type 0 where
  pub method : List ℕ
  pub first : ℕ
  pub url : List ℕ
  pub version : List ℕ
  pub ending : Ending

abbrev pub ask_text : Ask → List ℕ
ask_text a = a.method ++ b' ' ∷ (a.first ∷ (a.url ++ b' ' ∷ a.version))

-- The request line, its terminator, and what follows.
abbrev pub ask_bytes : Ask → List ℕ → List ℕ
ask_bytes a rest = ask_text a ++ (ending_bytes a.ending ++ rest)

-- A request line that the parser takes apart, with a method that is served, or that is not.
pub record IsAskOf (served : Bool) (a : Ask) (rest : List ℕ) : Type 0 where
  pub plain : Plain (ask_text a)
  pub before : Before a.ending rest
  pub fits : length (ask_text a) + 1 < buf_size
  pub method_ok : NoSpace a.method
  pub method_fits : length a.method ≤ token_max
  pub first_ok : is_space a.first ≡ false
  pub url_ok : NoSpace a.url
  pub url_fits : length a.url < token_max
  pub known : (is_get a.method || is_post a.method) ≡ served

abbrev pub IsAsk : Ask → List ℕ → Type 0
IsAsk = IsAskOf true

-- The array after `get_line`, as the parser takes it apart.
abbrev pub line_of : Ask → List ℕ → Line
line_of a junk = record {
  method = a.method;
  blank = b' ';
  gap = [];
  first = a.first;
  url = a.url;
  after = b' ';
  tail = a.version ++ b'\n' ∷ 0 ∷ drop (length (ask_text a) + 2) junk;
}

abbrev pub asked : Ask → List ℕ → List ℕ → GotLine
asked a junk rest = record {
  numchars = length (ask_text a) + 1;
  buf = line_bytes (line_of a junk);
  rest = rest;
}

pub line_of-bytes :
    (a : Ask) (junk : List ℕ)
    → (ask_text a ++ b'\n' ∷ []) ++ 0 ∷ drop (length (ask_text a) + 2) junk
      ≡ line_bytes (line_of a junk)
line_of-bytes a junk = simp append_assoc

blank_is_space : is_space b' ' ≡ true
unfolding is_space
blank_is_space = refl

pub length-line_of :
    (a : Ask) (junk : List ℕ)
    → length (ask_text a) + 1 < buf_size
    → length junk ≡ buf_size
    → length (line_bytes (line_of a junk)) ≡ buf_size
length-line_of a junk h b = rw (← line_of-bytes a junk) (
    omega (
      arith,
      length-append (ask_text a ++ b'\n' ∷ []) (0 ∷ drop (length (ask_text a) + 2) junk),
      length-append (ask_text a) (b'\n' ∷ []),
      length-drop (length (ask_text a) + 2) junk,
    ))

line_of-IsLine :
    {served : Bool} (a : Ask) (rest junk : List ℕ)
    → IsAskOf served a rest
    → length junk ≡ buf_size
    → IsLine (line_of a junk)
line_of-IsLine a rest junk v b = record {
  method_ok = v.method_ok;
  method_fits = v.method_fits;
  blank_ok = blank_is_space;
  gap_ok = tt;
  first_ok = v.first_ok;
  url_ok = v.url_ok;
  url_fits = v.url_fits;
  after_ok = blank_is_space;
  line_fits = omega (arith, length-line_of a junk v.fits b);
}

abbrev pub asked_target : Ask → Target
asked_target a = target a.method (a.first ∷ a.url)

abbrev pub asked_path : Ask → List ℕ
asked_path a = make_path (asked_target a).url

get_line-asked :
    {served : Bool} (a : Ask) (rest junk : List ℕ)
    → IsAskOf served a rest
    → length junk ≡ buf_size
    → get_line (ask_bytes a rest) junk buf_size ≡ asked a junk rest
get_line-asked a rest junk v b =
    get_line-terminated (ask_text a) a.ending rest junk buf_size v.plain v.before v.fits
      (omega arith)
    ∙ ap (λ bytes. record { numchars = length (ask_text a) + 1; buf = bytes; rest = rest })
        (line_of-bytes a junk)

dispatch_known :
    (h : Host) (junk : Junk) (m u : Token) (g : GotLine) (k : Conn)
    → (is_get m.text || is_post m.text) ≡ true
    → read_url g.buf m.pos ≡ ok u
    → let path = make_path (target m.text u.text).url in
      dispatch h junk m g k ≡ (
        deliver h junk m.text g (target m.text u.text) path (h.stat path) k >>= λ k'. ok (close k'))
unfolding dispatch
dispatch_known h junk m u g k known e = rw e (ground arith)

-- The parser hands the branches on `stat` the method, the URL and the path of the request, with the
-- socket behind the request line, and closes the socket behind them.
pub accept_request-asked :
    (h : Host) (junk : Junk) (a : Ask) (rest : List ℕ)
    → IsAsk a rest
    → length junk.line_buf ≡ buf_size
    → accept_request h junk (incoming (ask_bytes a rest)) ≡ (
        deliver h junk a.method
          (asked a junk.line_buf rest)
          (asked_target a)
          (asked_path a)
          (h.stat (asked_path a))
          (incoming rest)
        >>= λ k. ok (close k))
unfolding accept_request
accept_request-asked h junk a rest v b =
    let tokens = read_tokens (line_of a junk.line_buf) (line_of-IsLine a rest junk.line_buf v b) in
    let g = asked a junk.line_buf rest in
    let m : Token = record { text = a.method; pos = length a.method } in
    rw (get_line-asked a rest junk.line_buf v b)
      (rw (tokens.0) (dispatch_known h junk m _ g (incoming rest) v.known tokens.1))

pub dispatch_unknown :
    (h : Host) (junk : Junk) (m : Token) (g : GotLine) (k : Conn)
    → (is_get m.text || is_post m.text) ≡ false
    → dispatch h junk m g k ≡ ok (unimplemented k)
unfolding dispatch
dispatch_unknown h junk m g k other = ground arith

-- A request with another method is answered when its line is read: the socket is left open, in
-- front of the headers.
pub accept_request-unimplemented :
    (h : Host) (junk : Junk) (a : Ask) (rest : List ℕ)
    → IsAskOf false a rest
    → length junk.line_buf ≡ buf_size
    → accept_request h junk (incoming (ask_bytes a rest)) ≡ ok (unimplemented (incoming rest))
unfolding accept_request
accept_request-unimplemented h junk a rest v b =
    let tokens = read_tokens (line_of a junk.line_buf) (line_of-IsLine a rest junk.line_buf v b) in
    let g = asked a junk.line_buf rest in
    let m : Token = record { text = a.method; pos = length a.method } in
    rw (get_line-asked a rest junk.line_buf v b)
      (rw (tokens.0) (dispatch_unknown h junk m g (incoming rest) v.known))
