-- ===== src/Httpd/Line/Bounds.antt =====
-- Every call of `get_line` in tinyhttpd/httpd.c: the bounds of its array, and the bytes that it
-- takes.
use linux_study_notes.Prelude.{
  ℕ, zero, suc, ◌+◌, ◌-◌, ◌≤◌, ◌<◌, ◌≡◌, List, [], ◌∷◌, arith, length, drop, length-append,
  length-drop, get_elem?, get_elem?-append, some,
}
use linux_study_notes.Httpd.Line.{GotLine, after_cr, fold_cr, get_line}
use linux_study_notes.Httpd.Line.Scan.{scan, length-scan, get_line-scan}

length-fold_cr : (c : ℕ) (sock : List ℕ) → length (fold_cr c sock).1 ≤ length sock
unfolding fold_cr after_cr
length-fold_cr c [] = ground arith
length-fold_cr c (d ∷ sock) = ground arith

-- The scan takes at least the bytes that it returns.
scan_progress :
    (room : ℕ) (sock : List ℕ)
    → length (scan room sock).rest + length (scan room sock).line ≤ length sock
unfolding scan
scan_progress zero sock = omega arith
scan_progress (suc room) [] = omega arith
scan_progress (suc room) (c ∷ sock) =
    ground (arith, length-fold_cr c sock, scan_progress room (fold_cr c sock).1)

scan_nonempty :
    (room : ℕ) (sock : List ℕ) → 0 < room → 0 < length sock → 0 < length (scan room sock).line
unfolding scan
scan_nonempty zero sock h k = absurd (omega arith)
scan_nonempty (suc room) [] h k = absurd (omega arith)
scan_nonempty (suc room) (c ∷ sock) h k = ground arith

-- What a caller may rely on after `g = get_line(sock, buf, size)`.
pub record InBounds (sock buf : List ℕ) (size : ℕ) (g : GotLine) : Type 0 where
  pub count : g.numchars < size
  pub kept : length g.buf ≡ length buf
  pub terminated : get_elem? g.buf g.numchars ≡ some 0
  pub taken : length g.rest + g.numchars ≤ length sock
  pub waits : 0 < length sock → 0 < g.numchars

-- For an array of two bytes or more: the count stays below `size`, the array keeps its length and
-- has a NUL at the count, the socket gives up at least as many bytes as are counted, and the count
-- is 0 only when the client has closed and nothing is left to read.
pub get_line-InBounds :
    (sock buf : List ℕ) (size : ℕ)
    → 1 < size
    → size ≤ length buf
    → InBounds sock buf size (get_line sock buf size)
get_line-InBounds sock buf size pos fits =
    let s = scan (size - 1) sock in
    rw (get_line-scan sock buf size (omega arith) fits) record {
      count = omega (arith, length-scan (size - 1) sock);
      kept = omega (
        arith,
        length-append s.line (0 ∷ drop (length s.line + 1) buf),
        length-drop (length s.line + 1) buf,
        length-scan (size - 1) sock,
      );
      terminated = get_elem?-append s.line 0 (drop (length s.line + 1) buf);
      taken = scan_progress (size - 1) sock;
      waits = λ h. scan_nonempty (size - 1) sock (omega arith) h;
    }
