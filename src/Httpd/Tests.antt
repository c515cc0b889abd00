-- ===== src/Httpd/Tests.antt =====
-- Runs of the web server of tinyhttpd/httpd.c on a small tree of files.
use linux_study_notes.Httpd.Conn.{Conn, incoming}
use linux_study_notes.Httpd.Fault.{Result, ok}
use linux_study_notes.Httpd.Cgi.{
  execute_cgi, respond, run_script, environment, read_header, length_loop, read_length, relay,
}
use linux_study_notes.Httpd.File.{
  serve_file, serve_opened, cat, cat_loop, more_headers, discard_loop, discard_headers,
}
use linux_study_notes.Httpd.Line.{get_line}
use linux_study_notes.Httpd.Reply.{headers, not_found, cannot_execute, bad_request, unimplemented}
use linux_study_notes.Httpd.Request.{
  read_method, read_url, method_loop, skip_loop, url_loop, is_get, is_post, target, split_query,
  make_path,
}
use linux_study_notes.Httpd.Server.{accept_request, dispatch, deliver, is_dir, is_executable}
use linux_study_notes.Httpd.Site.{stack, modes, files, site}
use linux_study_notes.Libc.{codes, c_str, show_int, decimal}
use linux_study_notes.Prelude.{ℕ, ◌≡◌, refl, false, [], ◌∷◌}
use Prim.Native.String.{String}

-- The loops, for the runs below.
abbrev loops : ℕ
unfolding show_int decimal accept_request dispatch deliver execute_cgi respond run_script
    environment serve_file serve_opened cat read_header more_headers get_line method_loop skip_loop
    url_loop discard_loop cat_loop length_loop relay discard_headers read_length read_method
    read_url target is_get is_post make_path headers not_found cannot_execute bad_request
    unimplemented is_dir is_executable split_query c_str
loops = 0

abbrev ask : String → Result Conn
ask text = accept_request site stack (incoming (codes text))

get_runs :
    ask "GET /a.html HTTP/1.0\r\nHost: x\r\n\r\n"
    ≡ ok (record {
      sock = [];
      sent =
          codes "HTTP/1.0 200 OK\r\nServer:myhttpd/0.1.0\r\nContent-Type: text/html\r\n\r\none\n";
      is_open = false;
      started = [];
    })
unfolding loops modes files
get_runs = refl

post_runs :
    ask "POST /env.cgi HTTP/1.0\r\nContent-Length: 3\r\n\r\nabcd"
    ≡ ok (record {
      sock = codes "d";
      sent = codes "HTTP/1.0 200 OK\r\nabc!";
      is_open = false;
      started =
          record {
            program = codes "htdocs/env.cgi";
            environment = ok (codes "REQUEST_METHOD=POST" ∷ codes "CONTENT_LENGTH=3" ∷ []);
            stdin = codes "abc";
          }
          ∷ [];
    })
unfolding loops modes files
post_runs = refl
