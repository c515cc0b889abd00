-- ===== src/Httpd/Server/Answer.antt =====
-- `accept_request` of tinyhttpd/httpd.c does what the reference says.
use linux_study_notes.Httpd.Cgi.Body.{
  get_not_post, post_not_get, post_vars, environment_of_post, environment_of_get,
}
use linux_study_notes.Httpd.Cgi.Length.{declared, read_length-headers}
use linux_study_notes.Httpd.Cgi.{run_script, execute_cgi}
use linux_study_notes.Httpd.Conn.{Host, Junk, incoming, close}
use linux_study_notes.Httpd.Fault.{ok, ◌>>=◌}
use linux_study_notes.Httpd.File.{serve_file}
use linux_study_notes.Httpd.Headers.{Headers, header_bytes, IsHeaders, discard_headers_stops}
use linux_study_notes.Httpd.Line.Ends.{Ending}
use linux_study_notes.Httpd.Request.{is_get, is_post, Target, make_path}
use linux_study_notes.Httpd.Server.Accept.{
  Ask, ask_bytes, IsAsk, asked, asked_target, accept_request-asked,
}
use linux_study_notes.Httpd.Server.Branches.{bad_request-whole_arrays}
use linux_study_notes.Httpd.Server.Get.{
  not_found_text, answered, IsJunk, not_found-sent, asked_headers_stop,
}
use linux_study_notes.Httpd.Server.Reference.{
  run_or_refuse, query_of, has_query, get_script, answer_get, stdin_of, answer_post,
  answer_unmeasured, bad_texts, whole_arrays,
}
use linux_study_notes.Httpd.Server.Run.{post_target}
use linux_study_notes.Httpd.Server.{is_executable, final_path, deliver, accept_request}
use linux_study_notes.Libc.Int.{pos, negsuc}
use linux_study_notes.Libc.{NoNul}
use linux_study_notes.Prelude.{
  ℕ, ◌^◌, ◌<◌, ◌≡◌, refl, ap, ◌∙◌, true, ◌&&◌, ◌||◌, List, ◌∷◌, none, some, Option, drop,
  Bool-cases, Option-cases, inl, inr,
}
use linux_study_notes.Httpd.Server.Branches.{
  IsGet, get_target, respond_by_tests, serve_opened-give_file, relay-stdin_of,
}

module _ (h : Host) (junk : Junk) (a : Ask) (hs : Headers) (last : Ending) (body : List ℕ)
    (j : IsJunk junk) (v : IsAsk a (header_bytes hs last body)) (vh : IsHeaders hs last body) where
  abbrev block : List ℕ
  block = header_bytes hs last body

  -- The branches on `stat`, with the `close` behind them.
  accept_request-deliver :
      (t : Target)
      → asked_target a ≡ t
      → accept_request h junk (incoming (ask_bytes a block)) ≡ (
          deliver h junk a.method
            (asked a junk.line_buf block)
            t
            (make_path t.url)
            (h.stat (make_path t.url))
            (incoming block)
          >>= λ k. ok (close k))
  accept_request-deliver t e =
      accept_request-asked h junk a block v j.line
      ∙ ap
          (λ (t : Target).
            deliver h junk a.method (asked a junk.line_buf block) t (make_path t.url)
              (h.stat (make_path t.url)) (incoming block)
            >>= λ k. ok (close k))
          e

  deliver_missing :
      (t : Target) (path : List ℕ)
      → (deliver h junk a.method (asked a junk.line_buf block) t path none (incoming block) >>= λ k.
          ok (close k))
        ≡ ok (answered body not_found_text)
  unfolding deliver
  deliver_missing t path =
      rw (asked_headers_stop a hs last body junk.line_buf v vh j.line)
        (rw (not_found-sent body) refl)

  execute_cgi-get_script :
      (path q : List ℕ)
      → is_get a.method ≡ true
      → (execute_cgi h path a.method (some q) junk (incoming block) >>= λ k. ok (close k))
        ≡ get_script h path a.method q body
  unfolding execute_cgi run_script
  execute_cgi-get_script path q g =
      rw (g, discard_headers_stops hs last body junk.header_buf vh j.header)
        (rw (respond_by_tests h path a.method (some q) (negsuc 0) junk.byte body)
          (elim (Bool-cases (h.pipe_output && (h.pipe_input && h.can_fork))) [
            | inr refused ↦ rw refused refl
            | inl works ↦
                rw (works, environment_of_get a.method q (negsuc 0) g, post_not_get a.method g) refl
          ]))

  -- A well-formed GET, with a query or not, is answered as the reference says, whatever the host
  -- has: where the query is too long for an array of the child, the server still answers and
  -- closes.
  pub accept_request-answer_get :
      (u : List ℕ) (query : Option (List ℕ))
      → IsGet a u query
      → accept_request h junk (incoming (ask_bytes a block)) ≡ answer_get h a.method u query body
  unfolding answer_get deliver serve_file
  accept_request-answer_get u query g =
      let t : Target = record { url = u; query = some (query_of query); cgi = has_query query } in
      accept_request-deliver t (get_target a u query g)
      ∙ (elim (Option-cases (h.stat (make_path u))) [
        | inl nothing ↦ rw (answer_get, nothing) (deliver_missing t (make_path u))
        | inr (mode, found) ↦
            let path = final_path (make_path u) mode in
            rw (answer_get, found)
              (elim (Bool-cases (has_query query || is_executable mode)) [
                | inl runs ↦ rw runs (execute_cgi-get_script path (query_of query) g.get)
                | inr reads ↦
                    rw (reads, discard_headers_stops hs last body junk.header_buf vh j.header)
                      (serve_opened-give_file (h.open_file path) body)
              ])
      ])

  execute_cgi-run_or_refuse :
      (path : List ℕ) (n : ℕ)
      → is_post a.method ≡ true
      → declared hs (negsuc 0) ≡ pos n
      → n < 2 ^ 31
      → (execute_cgi h path a.method none junk (incoming block) >>= λ k. ok (close k))
        ≡ run_or_refuse h body
            (record {
              program = path;
              environment = ok (post_vars a.method n);
              stdin = stdin_of n junk.byte body;
            })
            (drop n body)
  unfolding execute_cgi run_script
  execute_cgi-run_or_refuse path n p d small =
      let lengths = read_length-headers hs last body junk.header_buf vh j.header in
      rw (get_not_post a.method p, lengths.0, d, lengths.1)
        (rw (respond_by_tests h path a.method none (pos n) junk.byte body)
          (elim (Bool-cases (h.pipe_output && (h.pipe_input && h.can_fork))) [
            | inr refused ↦ rw refused refl
            | inl works ↦
                rw
                  (
                    works,
                    environment_of_post a.method n p small,
                    p,
                    relay-stdin_of n junk.byte body,
                  )
                  refl
          ]))

  -- A well-formed POST with a length that an `int` holds is answered as the reference says,
  -- whatever the host has and however much of the body comes.
  pub accept_request-answer_post :
      (n : ℕ)
      → is_post a.method ≡ true
      → NoNul (a.first ∷ a.url)
      → declared hs (negsuc 0) ≡ pos n
      → n < 2 ^ 31
      → accept_request h junk (incoming (ask_bytes a block))
        ≡ answer_post h junk.byte a.method (a.first ∷ a.url) n body
  unfolding answer_post deliver
  accept_request-answer_post n p plain d small =
      let u = a.first ∷ a.url in
      let t : Target = record { url = u; query = none; cgi = true } in
      accept_request-deliver t (post_target a p plain)
      ∙ (elim (Option-cases (h.stat (make_path u))) [
        | inl nothing ↦ rw (answer_post, nothing) (deliver_missing t (make_path u))
        | inr (mode, found) ↦
            rw (answer_post, found)
              (execute_cgi-run_or_refuse (final_path (make_path u) mode) n p d small)
      ])

  execute_cgi-bad_request :
      (path : List ℕ)
      → is_post a.method ≡ true
      → declared hs (negsuc 0) ≡ negsuc 0
      → (execute_cgi h path a.method none junk (incoming block) >>= λ k. ok (close k))
        ≡ ok (answered body (whole_arrays bad_texts junk.reply_buf))
  unfolding execute_cgi
  execute_cgi-bad_request path p d =
      let lengths = read_length-headers hs last body junk.header_buf vh j.header in
      rw (get_not_post a.method p, lengths.0, d, lengths.1)
        (ap ok (bad_request-whole_arrays junk.reply_buf body))

  -- A well-formed POST without a length, or with -1, is answered as the reference says, whatever
  -- the host has, and its body is not read.
  pub accept_request-answer_unmeasured :
      is_post a.method ≡ true
      → NoNul (a.first ∷ a.url)
      → declared hs (negsuc 0) ≡ negsuc 0
      → accept_request h junk (incoming (ask_bytes a block))
        ≡ answer_unmeasured h junk.reply_buf (a.first ∷ a.url) body
  unfolding answer_unmeasured deliver
  accept_request-answer_unmeasured p plain d =
      let u = a.first ∷ a.url in
      let t : Target = record { url = u; query = none; cgi = true } in
      accept_request-deliver t (post_target a p plain)
      ∙ (elim (Option-cases (h.stat (make_path u))) [
        | inl nothing ↦ rw (answer_unmeasured, nothing) (deliver_missing t (make_path u))
        | inr (mode, found) ↦
            rw (answer_unmeasured, found)
              (execute_cgi-bad_request (final_path (make_path u) mode) p d)
      ])
