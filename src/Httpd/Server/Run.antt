-- ===== src/Httpd/Server/Run.antt =====
-- Requests that tinyhttpd/httpd.c answers by a script: which script runs, on what input, and what
-- the client is sent.
use linux_study_notes.Httpd.Cgi.Body.{get_not_post, post_not_get, get_vars, environment_of_get}
use linux_study_notes.Httpd.Cgi.Length.{declared, read_length-headers}
use linux_study_notes.Httpd.Cgi.{run_script, respond, execute_cgi}
use linux_study_notes.Httpd.Conn.{Host, Junk, Conn, Script, incoming, close}
use linux_study_notes.Httpd.Fault.{ok}
use linux_study_notes.Httpd.Headers.{Headers, header_bytes, IsHeaders, discard_headers_stops}
use linux_study_notes.Httpd.Line.Ends.{Ending}
use linux_study_notes.Httpd.Reply.{bad_request}
use linux_study_notes.Httpd.Request.{is_post, target, make_path}
use linux_study_notes.Httpd.Server.Accept.{
  Ask, ask_bytes, IsAsk, asked_target, accept_request-asked,
}
use linux_study_notes.Httpd.Server.Get.{IsJunk, IsPlainGet, plain_target}
use linux_study_notes.Httpd.Server.{is_dir, is_executable, deliver, accept_request}
use linux_study_notes.Libc.Int.{ℤ, negsuc}
use linux_study_notes.Libc.{codes, NoNul, c_str_all}
use linux_study_notes.Prelude.{ℕ, ◌≡◌, ◌∙◌, true, false, List, [], ◌∷◌, ◌++◌, Option, none, some}

abbrev pub ok_status : List ℕ
ok_status = codes "HTTP/1.0 200 OK\r\n"

-- A connection that `s` has answered.
abbrev pub ran : Host → Script → List ℕ → Conn
ran h s rest = record {
  sock = rest;
  sent = ok_status ++ h.output s;
  is_open = false;
  started = s ∷ [];
}

-- Both pipes and `fork` work.
pub record CanRun (h : Host) : Type 0 where
  pub pipe_output : h.pipe_output ≡ true
  pub pipe_input : h.pipe_input ≡ true
  pub can_fork : h.can_fork ≡ true

respond_run :
    (h : Host) (path method : List ℕ) (query : Option (List ℕ)) (z : ℤ) (byte : ℕ) (sock : List ℕ)
    → CanRun h
    → respond h path method query z byte (incoming sock)
      ≡ run_script h path method query z byte (record (incoming sock) { sent = ok_status })
unfolding respond
respond_run h path method query z byte sock can =
    rw can.pipe_output (rw can.pipe_input (rw can.can_fork))

pub post_target :
    (a : Ask)
    → is_post a.method ≡ true
    → NoNul (a.first ∷ a.url)
    → asked_target a ≡ record { url = a.first ∷ a.url; query = none; cgi = true }
unfolding target
post_target a p n = rw (get_not_post a.method p) (rw (c_str_all (a.first ∷ a.url) n))

module _ (h : Host) (junk : Junk) (a : Ask) (hs : Headers) (last : Ending) (j : IsJunk junk)
    (can : CanRun h) where
  -- A POST for a path that `stat` finds, whose headers declare no length (or the length -1), is
  -- answered by `bad_request`: no script runs, and the body is not read.
  pub post_without_length :
      (body : List ℕ) (mode : ℕ)
      → IsAsk a (header_bytes hs last body)
      → IsHeaders hs last body
      → is_post a.method ≡ true
      → NoNul (a.first ∷ a.url)
      → declared hs (negsuc 0) ≡ negsuc 0
      → h.stat (make_path (a.first ∷ a.url)) ≡ some mode
      → accept_request h junk (incoming (ask_bytes a (header_bytes hs last body)))
        ≡ ok (close (bad_request junk.reply_buf (incoming body)))
  unfolding deliver execute_cgi
  post_without_length body mode v vh p n d st =
      let lengths = read_length-headers hs last body junk.header_buf vh j.header in
      accept_request-asked h junk a (header_bytes hs last body) v j.line
      ∙ rw (post_target a p n)
          (rw st (rw (get_not_post a.method p) (rw (lengths.0) (rw d (rw (lengths.1))))))

  -- A directory that is asked for with no slash is searchable, so its mode has a bit for execution:
  -- its `index.html` is started as a script, whatever the mode of that file is, when both pipes and
  -- `fork` work.
  pub directory_runs_script :
      (body : List ℕ) (mode : ℕ)
      → IsAsk a (header_bytes hs last body)
      → IsHeaders hs last body
      → IsPlainGet a
      → h.stat (make_path (a.first ∷ a.url)) ≡ some mode
      → is_dir mode ≡ true
      → is_executable mode ≡ true
      → accept_request h junk (incoming (ask_bytes a (header_bytes hs last body)))
        ≡ ok (
            ran h
              (record {
                program = make_path (a.first ∷ a.url) ++ codes "/index.html";
                environment = ok (get_vars a.method []);
                stdin = [];
              })
              body)
  unfolding deliver execute_cgi run_script
  directory_runs_script body mode v vh g st d x =
      let path = make_path (a.first ∷ a.url) in
      accept_request-asked h junk a (header_bytes hs last body) v j.line
      ∙ rw (plain_target a g) (
          rw st (
            rw x (
              rw d (
                rw g.get (
                  rw (discard_headers_stops hs last body junk.header_buf vh j.header) (
                    rw
                      (respond_run h (path ++ codes "/index.html") a.method (some []) (negsuc 0)
                        junk.byte body can)
                      (rw (environment_of_get a.method [] (negsuc 0) g.get)
                        (rw (post_not_get a.method g.get)))))))))
