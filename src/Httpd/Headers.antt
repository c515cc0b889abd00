-- ===== src/Httpd/Headers.antt =====
-- Blocks of headers, and where the loops of tinyhttpd/httpd.c that discard them stop.
use linux_study_notes.Httpd.File.{more_headers, discard_loop, discard_headers, start_buf}
use linux_study_notes.Httpd.Line.Bounds.{get_line-InBounds}
use linux_study_notes.Httpd.Line.Ends.{
  Plain, Ending, lf, crlf, cr, ending_bytes, Before, get_line-terminated,
}
use linux_study_notes.Httpd.Line.{GotLine, get_line}
use linux_study_notes.Httpd.Request.{buf_size}
use linux_study_notes.Libc.{codes, str_eq}
use linux_study_notes.Prelude.{
  ℕ, zero, suc, ◌+◌, ◌≤◌, ◌<◌, ◌≡◌, refl, ap, ◌∙◌, true, false, not, ◌&&◌, List, [], ◌∷◌, ◌++◌, ltb,
  ◌==◌, if◌then◌else◌, arith, length, length-append, Bool-cases, inl, inr, drop, set, length-set,
  ◌≢◌, length-drop,
}

-- How many rounds the loop can still make.
abbrev rounds : GotLine → ℕ
rounds g = if g.numchars == 0 then 0 else length g.rest + 1

more_headers-numchars : (g : GotLine) → more_headers g ≡ true → 0 < g.numchars
unfolding more_headers
more_headers-numchars g h = elim (Bool-cases (ltb 0 g.numchars)) [
  | inl more ↦ ground arith
  | inr done ↦ let e : (false && not (str_eq (codes "\n") g.buf)) ≡ true = rw done at h in cc
]

rounds-zero : (g : GotLine) → rounds g ≤ 0 → more_headers g ≡ false
rounds-zero g h = elim (Bool-cases (more_headers g)) [
  | inl more ↦ let n = more_headers-numchars g more in absurd (ground arith)
  | inr done ↦ done
]

rounds-step :
    (g : GotLine)
    → length g.buf ≡ buf_size
    → 0 < g.numchars
    → rounds (get_line g.rest g.buf buf_size) < rounds g
rounds-step g b h =
    let step = get_line-InBounds g.rest g.buf buf_size (omega arith) (omega arith) in
    ground (arith, step.taken)

-- The loop ends by its own test, and not for want of fuel.
discard_loop_ends :
    (fuel : ℕ) (g : GotLine)
    → length g.buf ≡ buf_size
    → rounds g ≤ fuel
    → more_headers (discard_loop fuel g) ≡ false
unfolding discard_loop
discard_loop_ends zero g b h = rounds-zero g h
discard_loop_ends (suc fuel) g b h = elim (Bool-cases (more_headers g)) [
  | inl more ↦
      let n = more_headers-numchars g more in
      let kept = (get_line-InBounds g.rest g.buf buf_size (omega arith) (omega arith)).kept in
      rw more (
        discard_loop_ends fuel (get_line g.rest g.buf buf_size) (kept ∙ b)
          (omega (arith, rounds-step g b n)))
  | inr done ↦ rw done done
]

pub length-start_buf : (junk : List ℕ) → length (start_buf junk) ≡ length junk
length-start_buf junk = length-set (set junk 0 b'A') 1 0 ∙ length-set junk 0 b'A'

-- Whatever the client sends, the loop over the headers ends by its own test with the fuel that it
-- is given: at an empty line, or where the client has closed.
pub discard_headers_ends :
    (junk sock : List ℕ) → length junk ≡ buf_size → more_headers (discard_headers junk sock) ≡ false
unfolding discard_headers
discard_headers_ends junk sock b =
    discard_loop_ends (length sock + 2) (record { numchars = 1; buf = start_buf junk; rest = sock })
      (length-start_buf junk ∙ b) (omega arith)

-- Header lines: not empty, short enough for `buf`, each with its terminator, none of them `\r`
-- alone in front of a line feed.
pub data Headers : Type 0 where
  end : Headers
  header : List ℕ → Ending → Headers → Headers

-- The lines, the empty line, and what follows.
abbrev pub header_bytes : Headers → Ending → List ℕ → List ℕ
header_bytes end last body = ending_bytes last ++ body
header_bytes (header l e hs) last body = l ++ (ending_bytes e ++ header_bytes hs last body)

abbrev pub IsHeaders : Headers → Ending → List ℕ → Type 0
IsHeaders end last body = Before last body
IsHeaders (header l e hs) last body =
    Plain l
    × (l ≢ [])
    × (length l + 1 < buf_size)
    × Before e (header_bytes hs last body)
    × IsHeaders hs last body

-- The number of lines, the empty one included.
abbrev pub count : Headers → ℕ
count end = 1
count (header l e hs) = suc (count hs)

-- A line that `get_line` leaves in `buf`, with `numchars` bytes.
abbrev pub taken : List ℕ → List ℕ → List ℕ → GotLine
taken l buf rest = record {
  numchars = length l + 1;
  buf = (l ++ b'\n' ∷ []) ++ 0 ∷ drop (length l + 2) buf;
  rest = rest;
}

pub more_headers-header :
    (l buf rest : List ℕ) → Plain l → l ≢ [] → more_headers (taken l buf rest) ≡ true
unfolding more_headers
more_headers-header [] buf rest p ne = absurd (ne refl)
more_headers-header (c ∷ l) buf rest p ne = ground arith

pub more_headers-empty : (buf rest : List ℕ) → more_headers (taken [] buf rest) ≡ false
unfolding more_headers
more_headers-empty buf rest = refl

discard_loop_done : (fuel : ℕ) (g : GotLine) → more_headers g ≡ false → discard_loop fuel g ≡ g
unfolding discard_loop
discard_loop_done zero g h = refl
discard_loop_done (suc fuel) g h = rw h

pub length-taken :
    (l buf rest : List ℕ)
    → length l + 1 < buf_size
    → length buf ≡ buf_size
    → length (taken l buf rest).buf ≡ buf_size
length-taken l buf rest h b = omega (
  arith,
  length-append (l ++ b'\n' ∷ []) (0 ∷ drop (length l + 2) buf),
  length-append l (b'\n' ∷ []),
  length-drop (length l + 2) buf,
)

pub discard_loop-headers :
    (hs : Headers) (last : Ending) (body buf : List ℕ) (n fuel : ℕ)
    → IsHeaders hs last body
    → length buf ≡ buf_size
    → count hs < fuel
    → (g : GotLine) → g ≡ record { numchars = n; buf = buf; rest = header_bytes hs last body }
    → more_headers g ≡ true
    → (discard_loop fuel g).rest ≡ body
unfolding discard_loop
discard_loop-headers hs last body buf n zero v b h g e more = absurd (omega arith)
discard_loop-headers end last body buf n (suc fuel) v b h g e more = rw more (
    rw e (
      rw (get_line-terminated [] last body buf buf_size tt v (omega arith) (omega arith)) (
        ap (λ (r : GotLine). r.rest)
          (discard_loop_done fuel (taken [] buf body) (more_headers-empty buf body)))))
discard_loop-headers (header l e hs) last body buf n (suc fuel) v b h g eq more =
    let rest = header_bytes hs last body in
    rw more (
      rw eq (
        rw (get_line-terminated l e rest buf buf_size v.0 v.3 v.2 (omega arith)) (
          discard_loop-headers hs last body (taken l buf rest).buf (length l + 1) fuel v.4
            (length-taken l buf rest v.2 b) (omega arith) (taken l buf rest) refl
            (more_headers-header l buf rest v.0 v.1))))

length-ending : (e : Ending) → 0 < length (ending_bytes e)
length-ending lf = omega arith
length-ending crlf = omega arith
length-ending cr = omega arith

-- The `buf[0] = 'A'` in front of the loop lets it run once.
start_more :
    (sock junk : List ℕ)
    → more_headers (record { numchars = 1; buf = start_buf junk; rest = sock }) ≡ true
unfolding more_headers
start_more sock [] = refl
start_more sock (a ∷ []) = refl
start_more sock (a ∷ b ∷ junk) = refl

pub count-le :
    (hs : Headers) (last : Ending) (body : List ℕ) → count hs ≤ length (header_bytes hs last body)
count-le end last body = omega (arith, length-append (ending_bytes last) body, length-ending last)
count-le (header l e hs) last body =
    let rest = header_bytes hs last body in
    omega (
      arith,
      count-le hs last body,
      length-append l (ending_bytes e ++ rest),
      length-append (ending_bytes e) rest,
      length-ending e,
    )

-- A block of headers with its empty line, each a line of plain bytes that is not empty and shorter
-- than 1023 bytes, is read exactly, whichever terminators the lines have, where no line feed
-- follows a carriage return that ends a line: the socket stands at the body.
pub discard_headers_stops :
    (hs : Headers) (last : Ending) (body junk : List ℕ)
    → IsHeaders hs last body
    → length junk ≡ buf_size
    → (discard_headers junk (header_bytes hs last body)).rest ≡ body
unfolding discard_headers
discard_headers_stops hs last body junk v b =
    discard_loop-headers hs last body (start_buf junk) 1 (length (header_bytes hs last body) + 2) v
      (length-start_buf junk ∙ b) (omega (arith, count-le hs last body)) _ refl
      (start_more (header_bytes hs last body) junk)
