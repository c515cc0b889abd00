-- ===== src/Httpd/PartExamples.antt =====
-- The theorems on the parts of tinyhttpd/httpd.c, at short texts.
use linux_study_notes.Httpd.Cat.{cat_sends_lines}
use linux_study_notes.Httpd.Cgi.Length.{declared, is_length, length_value, read_length-headers}
use linux_study_notes.Httpd.Cgi.{read_length}
use linux_study_notes.Httpd.Conn.{incoming}
use linux_study_notes.Httpd.File.{cat, discard_headers, more_headers}
use linux_study_notes.Httpd.Headers.{
  Headers, end, header, IsHeaders, discard_headers_ends, discard_headers_stops,
}
use linux_study_notes.Httpd.Line.Ends.{lf, crlf, cr, get_line-terminated}
use linux_study_notes.Httpd.Line.{get_line}
use linux_study_notes.Httpd.Request.Bounds.{tokens, BothRead, request_line_in_bounds}
use linux_study_notes.Httpd.Request.Parse.{Line, IsLine, NoSpace, AllSpace}
use linux_study_notes.Httpd.Request.{Token, buf_size}
use linux_study_notes.Libc.Int.{pos}
use linux_study_notes.Libc.{codes, is_space, atoi}
use linux_study_notes.Prelude.{
  ℕ, zero, suc, ◌≡◌, refl, true, false, List, [], ◌∷◌, ◌++◌, replicate, length-replicate, arith,
}

abbrev junk : List ℕ
junk = replicate 1024 0xcc

get_line-terminated_example :
    get_line (codes "abc\r\nrest") (replicate 8 7) 8
    ≡ record { numchars = 4; buf = codes "abc\n" ++ 0 ∷ replicate 3 7; rest = codes "rest" }
get_line-terminated_example =
    get_line-terminated (codes "abc") crlf (codes "rest") (replicate 8 7) 8 (ground arith) tt
      (omega arith) (omega arith)

abbrev get_a : Line
get_a = record {
  method = codes "GET";
  blank = b' ';
  gap = codes " \t";
  first = b'/';
  url = codes "a?b";
  after = b'\n';
  tail = 0 ∷ [];
}

get_a-IsLine : IsLine get_a
unfolding is_space
get_a-IsLine = record {
  method_ok = ground arith;
  method_fits = omega arith;
  blank_ok = refl;
  gap_ok = ground arith;
  first_ok = refl;
  url_ok = ground arith;
  url_fits = omega arith;
  after_ok = refl;
  line_fits = omega arith;
}

request_line_in_bounds_example :
    BothRead (tokens (get_line (codes "GET /\nHost: x\n") junk buf_size).buf)
request_line_in_bounds_example =
    request_line_in_bounds (codes "GET /") lf (codes "Host: x\n") junk (ground arith) tt
      (omega arith) (length-replicate {A = ℕ} 1024 0xcc)

replicate-NoSpace : (n c : ℕ) → is_space c ≡ false → NoSpace (replicate n c)
replicate-NoSpace zero c e = tt
replicate-NoSpace (suc n) c e = (e, replicate-NoSpace n c e)

replicate-AllSpace : (n c : ℕ) → is_space c ≡ true → AllSpace (replicate n c)
replicate-AllSpace zero c e = tt
replicate-AllSpace (suc n) c e = (e, replicate-AllSpace n c e)

abbrev slash_dir : Token
slash_dir = record { text = codes "/sub/"; pos = 9 }

discard_headers_ends_example : more_headers (discard_headers junk (codes "Host: x")) ≡ false
discard_headers_ends_example =
    discard_headers_ends junk (codes "Host: x") (length-replicate {A = ℕ} 1024 0xcc)

abbrev two_headers : Headers
two_headers = header (codes "Host: x") cr (header (codes "Content-Length: 12") lf end)

two_headers-IsHeaders : IsHeaders two_headers crlf (codes "body")
two_headers-IsHeaders = (
  ground arith,
  ground arith,
  omega arith,
  refl,
  (ground arith, ground arith, omega arith, tt, tt),
)

discard_headers_stops_example :
    (discard_headers junk (codes "Host: x\rContent-Length: 12\n\r\nbody")).rest ≡ codes "body"
discard_headers_stops_example =
    discard_headers_stops two_headers crlf (codes "body") junk two_headers-IsHeaders
      (length-replicate {A = ℕ} 1024 0xcc)

read_length-headers_example :
    let s = read_length junk (codes "Host: x\rContent-Length: 12\n\r\nbody") in
    (s.content_length ≡ pos 12) × (s.got.rest ≡ codes "body")
unfolding declared is_length length_value atoi
read_length-headers_example =
    read_length-headers two_headers crlf (codes "body") junk two_headers-IsHeaders
      (length-replicate {A = ℕ} 1024 0xcc)

cat_sends_lines_example :
    cat (codes "a\n\nb") (incoming []) ≡ record (incoming []) { sent = codes "a\n\n" }
cat_sends_lines_example =
    cat_sends_lines (codes "a\n\n") (codes "b") (incoming []) refl (ground arith) (ground arith)
      (omega arith)
