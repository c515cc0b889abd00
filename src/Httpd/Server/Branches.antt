-- ===== src/Httpd/Server/Branches.antt =====
-- The branches of tinyhttpd/httpd.c, each with what the reference says of it.
use linux_study_notes.Httpd.Cgi.Body.{relay_full, relay_short, last_or}
use linux_study_notes.Httpd.Cgi.{relay, run_script, respond}
use linux_study_notes.Httpd.Conn.{Host, Conn, incoming, close}
use linux_study_notes.Httpd.Fault.{Result, ok, ◌>>=◌}
use linux_study_notes.Httpd.File.{cat, serve_opened}
use linux_study_notes.Httpd.Reply.{bad_request, print, headers, not_found, cannot_execute}
use linux_study_notes.Httpd.Request.Paths.{NoQuestion, split_query_of_join, split_query_plain}
use linux_study_notes.Httpd.Request.{is_get, target}
use linux_study_notes.Httpd.Server.Accept.{Ask, asked_target}
use linux_study_notes.Httpd.Server.Get.{answered}
use linux_study_notes.Httpd.Server.Reference.{
  bad_texts, whole_arrays, refused_text, give_file, query_of, has_query, stdin_of,
}
use linux_study_notes.Httpd.Server.Run.{ok_status}
use linux_study_notes.Libc.Int.{ℤ}
use linux_study_notes.Libc.{NoNul, c_str_all}
use linux_study_notes.Prelude.{
  ℕ, ◌-◌, ◌≡◌, refl, ap, sym, subst, ◌∙◌, Bool, true, false, not, ◌&&◌, List, [], ◌∷◌, ◌++◌, arith,
  length, none, some, leb, leb→le, not_leb→lt, if◌then◌else◌, Option, take, drop, take-append-drop,
  append-nil, append_assoc, replicate, length-take, drop_all, Bool-cases, inl, inr,
}

-- The query as it stands in the request line.
abbrev pub mark : Option (List ℕ) → List ℕ
mark none = []
mark (some q) = b'?' ∷ q

-- A GET for the URL `u` with this query, or with none.
pub record IsGet (a : Ask) (u : List ℕ) (query : Option (List ℕ)) : Type 0 where
  pub get : is_get a.method ≡ true
  pub split : a.first ∷ a.url ≡ u ++ mark query
  pub no_nul : NoNul (u ++ mark query)
  pub no_question : NoQuestion u

pub get_target :
    (a : Ask) (u : List ℕ) (query : Option (List ℕ))
    → IsGet a u query
    → asked_target a ≡ record { url = u; query = some (query_of query); cgi = has_query query }
unfolding target
get_target a u none g =
    let whole : a.first ∷ a.url ≡ u = g.split ∙ append-nil u in
    let plain : NoNul u = subst NoNul (append-nil u) g.no_nul in
    rw g.get (rw whole (rw (c_str_all u plain) (split_query_plain u g.no_question)))
get_target a u (some q) g =
    rw g.get
      (rw g.split (rw (c_str_all (u ++ b'?' ∷ q) g.no_nul) (split_query_of_join u q g.no_question)))

-- The three tests in front of the fork.
tests :
    (a b c : Bool) (x y : Result Conn)
    → (if not a then x else if not b then x else if not c then x else y)
      ≡ (if a && (b && c) then y else x)
tests true true true x y = refl
tests true true false x y = refl
tests true false c x y = refl
tests false b c x y = refl

pub respond_by_tests :
    (h : Host) (path method : List ℕ) (query : Option (List ℕ)) (z : ℤ) (byte : ℕ) (sock : List ℕ)
    → respond h path method query z byte (incoming sock) ≡ (
        if h.pipe_output && (h.pipe_input && h.can_fork)
        then run_script h path method query z byte (record (incoming sock) { sent = ok_status })
        else ok (record (answered sock (ok_status ++ refused_text)) { is_open = true }))
unfolding respond cannot_execute
respond_by_tests h path method query z byte sock = tests h.pipe_output h.pipe_input h.can_fork _ _

pub serve_opened-give_file :
    (file : Option (List ℕ)) (body : List ℕ)
    → (serve_opened file (incoming body) >>= λ k. ok (close k)) ≡ give_file file body
unfolding serve_opened headers cat not_found
serve_opened-give_file none body = refl
serve_opened-give_file (some file) body = refl

-- The loop over the body of a POST.
pub relay-stdin_of :
    (n byte : ℕ) (body : List ℕ)
    → relay n byte body ≡ record { written = stdin_of n byte body; rest = drop n body }
relay-stdin_of n byte body = elim (Bool-cases (leb n (length body))) [
  | inl comes ↦
      let below = leb→le n (length body) comes in
      let cut : length (take n body) ≡ n = omega (arith, length-take n body) in
      rw comes (
        ap (λ l. relay n byte l) (sym (take-append-drop n body))
        ∙ ap (λ k. relay k byte (take n body ++ drop n body)) (sym cut)
        ∙ relay_full (take n body) (drop n body) byte)
  | inr early ↦
      let short = not_leb→lt n (length body) early in
      rw early (
        relay_short body n (n - length body) byte (omega arith)
        ∙ ap
            (λ l. record {
              written = body ++ replicate (n - length body) (last_or byte body);
              rest = l;
            })
            (sym (drop_all n body (omega arith))))
]

five_sent : (a b c d e : List ℕ) → (((a ++ b) ++ c) ++ d) ++ e ≡ a ++ (b ++ (c ++ (d ++ (e ++ []))))
five_sent a b c d e = simp (append_assoc, append-nil)

-- The five texts of `bad_request`, each in the whole array.
pub bad_request-whole_arrays :
    (junk body : List ℕ)
    → close (bad_request junk (incoming body)) ≡ answered body (whole_arrays bad_texts junk)
unfolding bad_request whole_arrays
bad_request-whole_arrays junk body =
    let status = print "HTTP/1.0 400 BAD REQUEST\r\n" junk in
    let kind = print "Content-type: text/html\r\n" status in
    let blank = print "\r\n" kind in
    let first = print "<P>Your browser sent a bad request, " blank in
    let second = print "such as a POST without a Content-Length.\r\n" first in
    ap (answered body) (five_sent status kind blank first second)
