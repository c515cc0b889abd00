-- ===== src/Httpd/StartExamples.antt =====
-- The theorems on `startup` and `main` of tinyhttpd/httpd.c at a small site and a small kernel.
use linux_study_notes.Httpd.Conn.{Host}
use linux_study_notes.Httpd.Examples.{
  page, host_header, page-IsAsk, host-IsHeaders, stack-IsJunk, page-IsPlainGet, form, length_header,
  form-IsAsk, length-IsHeaders, length_declared, query, query-IsAsk, query-IsGet,
}
use linux_study_notes.Httpd.Cgi.Body.{get_vars, post_vars, last_or}
use linux_study_notes.Httpd.Fault.{fault, null_close, ok}
use linux_study_notes.Httpd.Headers.{header_bytes}
use linux_study_notes.Httpd.Server.Run.{ran}
use linux_study_notes.Httpd.Server.Reference.{answer_get, answer_post, answer_unserved}
use linux_study_notes.Httpd.Startup.Guests.{
  Guest, guest, IsGuest, page_of, post_of, unserved, up_to_fault, serve_visitors-wanted,
}
use linux_study_notes.Httpd.Line.Ends.{crlf}
use linux_study_notes.Httpd.Request.{is_get, is_post, make_path}
use linux_study_notes.Httpd.Server.Get.{not_found_text}
use linux_study_notes.Httpd.Server.{is_dir, is_executable}
use linux_study_notes.Httpd.Site.{stack, modes, site}
use linux_study_notes.Httpd.Startup.{startup, serve_visitors, IsStarted, startup-IsStarted}
use linux_study_notes.Httpd.Startup.Visitors.{Visit, IsVisit, visitor, reply, serve_visitors-ended}
use linux_study_notes.Libc.{codes, equal, is_space}
use linux_study_notes.Sockets.Toy.{toy_kernel, toy_view, toy_kernel-IsKernel, machine}
use linux_study_notes.Prelude.{
  ℕ, ◌≡◌, refl, List, [], ◌∷◌, map, Option, none, some, if◌then◌else◌, arith,
}

startup-IsStarted_example : IsStarted toy_kernel toy_view 0 machine (startup toy_kernel 0 machine)
startup-IsStarted_example = startup-IsStarted toy_kernel-IsKernel 0 machine (omega arith)

only_a : List ℕ → Option (List ℕ)
unfolding equal
only_a path = if equal path (codes "htdocs/a.html") then some (codes "one\ntwo\n") else none

abbrev half_site : Host
half_site = record site { open_file = only_a }

abbrev visit : Visit
visit = record {
  ask = page;
  headers = host_header;
  last = crlf;
  body = [];
  junk = stack;
  mode = 0o100644;
  file = codes "one\ntwo";
}

visit-IsVisit : IsVisit half_site visit
unfolding modes equal is_dir is_executable make_path
visit-IsVisit = record {
  stack = stack-IsJunk;
  ask_ok = page-IsAsk;
  headers_ok = host-IsHeaders;
  get = page-IsPlainGet;
  found = refl;
  no_dir = refl;
  no_script = refl;
}

abbrev refused : Visit
refused = record visit { ask = record page { url = codes "index.html" } }

refused-IsVisit : IsVisit half_site refused
unfolding modes equal is_dir is_executable make_path is_space is_get is_post
refused-IsVisit = record {
  stack = stack-IsJunk;
  ask_ok = record {
    plain = ground arith;
    before = tt;
    fits = omega arith;
    method_ok = ground arith;
    method_fits = omega arith;
    first_ok = refl;
    url_ok = ground arith;
    url_fits = omega arith;
    known = refl;
  };
  headers_ok = host-IsHeaders;
  get = record { get = refl; no_nul = ground arith; no_query = ground arith };
  found = refl;
  no_dir = refl;
  no_script = refl;
}

serve_visitors-ended_example :
    serve_visitors half_site
      (some (visitor visit) ∷ some (visitor refused) ∷ some (visitor visit) ∷ [])
    ≡ reply visit ∷ fault (null_close not_found_text) ∷ []
unfolding only_a make_path
serve_visitors-ended_example =
    serve_visitors-ended half_site (visit ∷ []) refused (some (visitor visit) ∷ [])
      (visit-IsVisit, refl, ground arith, tt) refused-IsVisit refl

-- A GET with a query, and a POST that ends before the length that it declares.
abbrev asks : Guest
asks = record {
  ask = query;
  headers = host_header;
  last = crlf;
  body = [];
  junk = stack;
  wants = page_of (codes "/env.cgi") (some (codes "a=1"));
}

abbrev posts : Guest
posts = record {
  ask = form;
  headers = length_header;
  last = crlf;
  body = codes "ab";
  junk = stack;
  wants = post_of 3;
}

abbrev puts : Guest
puts = record asks { ask = record query { method = codes "PUT" }; wants = unserved }

puts-IsGuest : IsGuest puts
unfolding is_space is_get is_post
puts-IsGuest = record {
  stack = stack-IsJunk;
  ask_ok = record {
    plain = ground arith;
    before = tt;
    fits = omega arith;
    method_ok = ground arith;
    method_fits = omega arith;
    first_ok = refl;
    url_ok = ground arith;
    url_fits = omega arith;
    known = refl;
  };
  headers_ok = host-IsHeaders;
  fits = tt;
}

asks-IsGuest : IsGuest asks
asks-IsGuest = record {
  stack = stack-IsJunk;
  ask_ok = query-IsAsk;
  headers_ok = host-IsHeaders;
  fits = query-IsGet;
}

posts-IsGuest : IsGuest posts
unfolding is_post
posts-IsGuest = record {
  stack = stack-IsJunk;
  ask_ok = form-IsAsk (header_bytes length_header crlf (codes "ab"));
  headers_ok = length-IsHeaders (codes "ab");
  fits = (refl, ground arith, length_declared, omega arith);
}

serve_visitors-wanted_example :
    serve_visitors site (map guest (asks ∷ puts ∷ posts ∷ []))
    ≡ ok (
        ran site
          (record {
            program = codes "htdocs/env.cgi";
            environment = ok (get_vars (codes "GET") (codes "a=1"));
            stdin = [];
          })
          [])
      ∷ answer_unserved (header_bytes host_header crlf [])
      ∷ ok (
          ran site
            (record {
              program = codes "htdocs/env.cgi";
              environment = ok (post_vars (codes "POST") 3);
              stdin = codes "abb";
            })
            [])
      ∷ []
unfolding up_to_fault answer_get answer_post make_path modes equal is_dir is_get is_post last_or
serve_visitors-wanted_example =
    serve_visitors-wanted site (asks ∷ puts ∷ posts ∷ [])
      (asks-IsGuest, (puts-IsGuest, (posts-IsGuest, tt)))
