-- ===== src/Httpd/Examples.antt =====
-- The theorems on tinyhttpd/httpd.c at requests for a small site.
use linux_study_notes.Httpd.Cgi.Body.{post_vars, get_vars, last_or}
use linux_study_notes.Httpd.Cgi.Length.{declared, is_length, length_value}
use linux_study_notes.Httpd.Conn.{incoming}
use linux_study_notes.Httpd.Fault.{ok}
use linux_study_notes.Httpd.Headers.{Headers, end, header, header_bytes, IsHeaders}
use linux_study_notes.Httpd.Line.Ends.{lf, crlf}
use linux_study_notes.Httpd.Request.{Token, buf_size, read_method, is_get, is_post, make_path}
use linux_study_notes.Httpd.Server.Accept.{Ask, ask_bytes, IsAsk}
use linux_study_notes.Httpd.Server.Get.{
  IsJunk, IsPlainGet, answered, ok_head, not_found_text, get_file, get_missing,
}
use linux_study_notes.Httpd.Line.{get_line}
use linux_study_notes.Httpd.Server.Branches.{IsGet}
use linux_study_notes.Httpd.Server.Answer.{accept_request-answer_get, accept_request-answer_post}
use linux_study_notes.Httpd.Server.Reference.{answer_get, answer_post}
use linux_study_notes.Httpd.Server.Close.{ClosedFor, accept_request-ClosedFor}
use linux_study_notes.Httpd.Server.Run.{CanRun, ran}
use linux_study_notes.Httpd.Server.{accept_request, is_dir, is_executable}
use linux_study_notes.Httpd.Site.{stack, modes, site}
use linux_study_notes.Libc.Int.{pos, negsuc}
use linux_study_notes.Libc.{codes, is_space, equal, atoi}
use linux_study_notes.Prelude.{ℕ, ◌≡◌, refl, List, [], ◌∷◌, ◌++◌, arith, some, none}

abbrev pub page : Ask
page = record {
  method = codes "GET";
  first = b'/';
  url = codes "a.html";
  version = codes "HTTP/1.0";
  ending = crlf;
}

abbrev pub host_header : Headers
host_header = header (codes "Host: x") crlf end

pub page-IsAsk : IsAsk page (header_bytes host_header crlf [])
unfolding is_space is_get is_post
page-IsAsk = record {
  plain = ground arith;
  before = tt;
  fits = omega arith;
  method_ok = ground arith;
  method_fits = omega arith;
  first_ok = refl;
  url_ok = ground arith;
  url_fits = omega arith;
  known = refl;
}

pub host-IsHeaders : IsHeaders host_header crlf []
host-IsHeaders = (ground arith, ground arith, omega arith, tt, tt)

pub stack-IsJunk : IsJunk stack
stack-IsJunk = record { line = refl; header = refl }

pub page-IsPlainGet : IsPlainGet page
unfolding is_get
page-IsPlainGet = record { get = refl; no_nul = ground arith; no_query = ground arith }

get_file_example :
    accept_request
      (record site { open_file = λ _. some (codes "one\ntwo\n") })
      stack
      (incoming (ask_bytes page (header_bytes host_header crlf [])))
    ≡ ok (answered [] (ok_head ++ (codes "one\ntwo" ++ b'\n' ∷ [])))
unfolding modes equal is_dir is_executable make_path
get_file_example =
    get_file (record site { open_file = λ _. some (codes "one\ntwo\n") }) stack page host_header
      crlf [] stack-IsJunk page-IsAsk host-IsHeaders page-IsPlainGet 0o100644 (codes "one\ntwo")
      refl refl refl refl (ground arith)

abbrev pub form : Ask
form = record page { method = codes "POST"; url = codes "env.cgi" }

abbrev pub length_header : Headers
length_header = header (codes "content-length: 3") lf end

pub form-IsAsk : (rest : List ℕ) → IsAsk form rest
unfolding is_space is_get is_post
form-IsAsk rest = record {
  plain = ground arith;
  before = tt;
  fits = omega arith;
  method_ok = ground arith;
  method_fits = omega arith;
  first_ok = refl;
  url_ok = ground arith;
  url_fits = omega arith;
  known = refl;
}

pub length-IsHeaders : (body : List ℕ) → IsHeaders length_header crlf body
length-IsHeaders body = (ground arith, ground arith, omega arith, tt, tt)

pub length_declared : declared length_header (negsuc 0) ≡ pos 3
unfolding declared is_length length_value atoi
length_declared = refl

site-CanRun : CanRun site
site-CanRun = record { pipe_output = refl; pipe_input = refl; can_fork = refl }

abbrev pub query : Ask
query = record page { url = codes "env.cgi?a=1" }

pub query-IsAsk : IsAsk query (header_bytes host_header crlf [])
unfolding is_space is_get is_post
query-IsAsk = record {
  plain = ground arith;
  before = tt;
  fits = omega arith;
  method_ok = ground arith;
  method_fits = omega arith;
  first_ok = refl;
  url_ok = ground arith;
  url_fits = omega arith;
  known = refl;
}

accept_request-answer_post_example :
    accept_request site stack
      (incoming (ask_bytes form (header_bytes length_header crlf (codes "ab"))))
    ≡ ok (
        ran site
          (record {
            program = codes "htdocs/env.cgi";
            environment = ok (post_vars (codes "POST") 3);
            stdin = codes "abb";
          })
          [])
unfolding answer_post make_path modes equal is_dir is_post last_or
accept_request-answer_post_example =
    accept_request-answer_post site stack form length_header crlf (codes "ab") stack-IsJunk
      (form-IsAsk (header_bytes length_header crlf (codes "ab"))) (length-IsHeaders (codes "ab")) 3
      refl (ground arith) length_declared (omega arith)

pub query-IsGet : IsGet query (codes "/env.cgi") (some (codes "a=1"))
unfolding is_get
query-IsGet = record { get = refl; split = refl; no_nul = ground arith; no_question = ground arith }

accept_request-answer_get_example :
    accept_request site stack (incoming (ask_bytes query (header_bytes host_header crlf [])))
    ≡ ok (
        ran site
          (record {
            program = codes "htdocs/env.cgi";
            environment = ok (get_vars (codes "GET") (codes "a=1"));
            stdin = [];
          })
          [])
unfolding answer_get make_path modes equal is_dir is_get
accept_request-answer_get_example =
    accept_request-answer_get site stack query host_header crlf [] stack-IsJunk query-IsAsk
      host-IsHeaders (codes "/env.cgi") (some (codes "a=1")) query-IsGet

accept_request-ClosedFor_example :
    (m : Token) × (read_method
        (get_line (ask_bytes page (header_bytes host_header crlf [])) stack.line_buf buf_size).buf
      ≡ ok m)
    × ClosedFor m
        (incoming (ask_bytes page (header_bytes host_header crlf [])))
        (answered [] not_found_text)
accept_request-ClosedFor_example =
    accept_request-ClosedFor (record site { stat = λ _. none }) stack
      (incoming (ask_bytes page (header_bytes host_header crlf []))) (answered [] not_found_text)
      (get_missing (record site { stat = λ _. none }) stack page host_header crlf [] stack-IsJunk
        page-IsAsk host-IsHeaders page-IsPlainGet refl)
