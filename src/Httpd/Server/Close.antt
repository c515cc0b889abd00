-- ===== src/Httpd/Server/Close.antt =====
-- When tinyhttpd/httpd.c closes the connection.
use linux_study_notes.Httpd.Conn.{Host, Junk, Conn, close}
use linux_study_notes.Httpd.Fault.{Result, ok, ◌>>=◌, first_went_on}
use linux_study_notes.Httpd.Line.{GotLine, get_line}
use linux_study_notes.Httpd.Reply.{unimplemented}
use linux_study_notes.Httpd.Request.{
  buf_size, Token, read_method, read_url, is_get, is_post, target, make_path,
}
use linux_study_notes.Httpd.Server.Accept.{dispatch_unknown}
use linux_study_notes.Httpd.Server.{deliver, dispatch, accept_request}
use linux_study_notes.Prelude.{
  ◌≡◌, refl, sym, ap, ◌∙◌, true, false, ◌||◌, if◌then◌else◌, arith, Bool-cases, inl, inr,
}

ok_injective : {a b : Conn} → ◌≡◌ {A = Result Conn} (ok a) (ok b) → a ≡ b
ok_injective e = cc

-- The socket of a request whose method is known is closed; any other stays as it was.
abbrev pub ClosedFor : Token → Conn → Conn → Type 0
ClosedFor m k k' = k'.is_open ≡ (if is_get m.text || is_post m.text then false else k.is_open)

unimplemented-is_open : (k : Conn) → (unimplemented k).is_open ≡ k.is_open
unfolding unimplemented
unimplemented-is_open k = refl

-- The branches behind the test of the method.
abbrev served : Host → Junk → Token → GotLine → Conn → Token → Result Conn
served h junk m g k url =
    let t = target m.text url.text in
    deliver h junk m.text g t (make_path t.url) (h.stat (make_path t.url)) k >>= λ k'. ok (close k')

dispatch_known :
    (h : Host) (junk : Junk) (m : Token) (g : GotLine) (k : Conn)
    → (is_get m.text || is_post m.text) ≡ true
    → dispatch h junk m g k ≡ (read_url g.buf m.pos >>= served h junk m g k)
unfolding dispatch
dispatch_known h junk m g k e = ground arith

served-is_open :
    (h : Host) (junk : Junk) (m : Token) (g : GotLine) (k k' : Conn) (url : Token)
    → served h junk m g k url ≡ ok k'
    → k'.is_open ≡ false
served-is_open h junk m g k k' url e =
    let t = target m.text url.text in
    let d = deliver h junk m.text g t (make_path t.url) (h.stat (make_path t.url)) k in
    let (r, done, eq) = first_went_on (λ r. ok (close r)) d e in cc

dispatch-ClosedFor :
    (h : Host) (junk : Junk) (m : Token) (g : GotLine) (k k' : Conn)
    → dispatch h junk m g k ≡ ok k'
    → ClosedFor m k k'
dispatch-ClosedFor h junk m g k k' e = elim (Bool-cases (is_get m.text || is_post m.text)) [
  | inl known ↦
      let (url, read, rest) =
        first_went_on (served h junk m g k) (read_url g.buf m.pos)
          (sym (dispatch_known h junk m g k known) ∙ e) in
      rw known (served-is_open h junk m g k k' url rest)
  | inr other ↦
      let same : unimplemented k ≡ k' =
        ok_injective (sym (dispatch_unknown h junk m g k other) ∙ e) in
      rw other (ap (λ (r : Conn). r.is_open) (sym same) ∙ unimplemented-is_open k)
]

-- After a request that leads to no fault, whatever its branch, the server has closed the socket
-- exactly if the method is GET or POST: the reply to another method leaves it open.
pub accept_request-ClosedFor :
    (h : Host) (junk : Junk) (k k' : Conn)
    → accept_request h junk k ≡ ok k'
    → (m : Token) × (read_method (get_line k.sock junk.line_buf buf_size).buf ≡ ok m)
      × ClosedFor m k k'
unfolding accept_request
accept_request-ClosedFor h junk k k' e =
    let g = get_line k.sock junk.line_buf buf_size in
    let (m, read, rest) = first_went_on _ (read_method g.buf) e in
    (m, read, dispatch-ClosedFor h junk m g (record k { sock = g.rest }) k' rest)
