-- ===== src/Httpd/Line/Scan.antt =====
-- `get_line` of tinyhttpd/httpd.c without its array: which bytes it takes from the socket and which
-- line it leaves.
use linux_study_notes.Prelude.{
  ℕ, zero, suc, ◌+◌, ◌-◌, ◌≤◌, ◌<◌, ◌≡◌, refl, sym, ◌∙◌, List, [], ◌∷◌, ◌++◌, append_assoc, ◌==◌,
  if◌then◌else◌, arith, length, set, drop, length-append, set-append, set-laid,
}
use linux_study_notes.Httpd.Line.{GotLine, fold_cr, get_line_loop, get_line}

pub record Scan : Type 0 where
  pub line : List ℕ
  pub rest : List ℕ

abbrev pub scan_cons : ℕ → Scan → Scan
scan_cons c s = record s { line = c ∷ s.line }

-- At most `room` bytes of a line, its end included.
unfoldable pub scan : ℕ → List ℕ → Scan
scan zero sock = record { line = []; rest = sock }
scan (suc room) [] = record { line = []; rest = [] }
scan (suc room) (c ∷ sock) =
    let got = fold_cr c sock in
    let more = scan_cons got.0 (scan room got.1) in
    if got.0 == b'\n' then record { line = got.0 ∷ []; rest = got.1 } else more

pub length-scan : (room : ℕ) (sock : List ℕ) → length (scan room sock).line ≤ room
unfolding scan
length-scan zero sock = omega arith
length-scan (suc room) [] = omega arith
length-scan (suc room) (c ∷ sock) = ground (arith, length-scan room (fold_cr c sock).1)

abbrev filled : List ℕ → List ℕ → Scan → ℕ → GotLine
filled done todo s i = record {
  numchars = i + length s.line;
  buf = done ++ (s.line ++ drop (length s.line) todo);
  rest = s.rest;
}

-- A write just behind `done`.
set-next :
    (i : ℕ) (done todo : List ℕ) (t v : ℕ)
    → i ≡ length done
    → set (done ++ t ∷ todo) i v ≡ (done ++ v ∷ []) ++ todo
set-next i done todo t v e = rw e (set-append done t v todo ∙ sym (append_assoc done (v ∷ []) todo))

-- The array after the loop: what was there, then the line, then what the line did not reach.
get_line_loop-scan :
    (room i : ℕ) (done todo sock : List ℕ)
    → i ≡ length done
    → room ≤ length todo
    → get_line_loop room i (done ++ todo) sock ≡ filled done todo (scan room sock) i
unfolding get_line_loop scan
get_line_loop-scan zero i done todo sock e h = ground arith
get_line_loop-scan (suc room) i done todo [] e h = ground arith
get_line_loop-scan (suc room) i done [] (c ∷ sock) e h = absurd (omega arith)
get_line_loop-scan (suc room) i done (t ∷ todo) (c ∷ sock) e h =
    let v = (fold_cr c sock).0 in
    let ih = get_line_loop-scan room (i + 1) (done ++ v ∷ []) todo (fold_cr c sock).1 in
    ground (
      arith,
      set-next i done todo t v e,
      append_assoc done (v ∷ []) todo,
      append_assoc done (v ∷ []) (
          (scan room (fold_cr c sock).1).line
          ++ drop (length (scan room (fold_cr c sock).1).line) todo),
      length-append done (v ∷ []),
      ih (omega (arith, length-append done (v ∷ []))) (omega arith),
    )

-- `get_line` leaves the scanned line in front of the array, a NUL behind it, and the rest of the
-- array as it was.
pub get_line-scan :
    (sock buf : List ℕ) (size : ℕ)
    → 0 < size
    → size ≤ length buf
    → let s = scan (size - 1) sock in
      get_line sock buf size ≡ record {
        numchars = length s.line;
        buf = s.line ++ 0 ∷ drop (length s.line + 1) buf;
        rest = s.rest;
      }
unfolding get_line
get_line-scan sock buf size pos fits =
    rw (get_line_loop-scan (size - 1) 0 [] buf sock refl (omega arith)) (
      ground (
        arith,
        set-laid (scan (size - 1) sock).line buf 0 {k = length (scan (size - 1) sock).line},
        length-scan (size - 1) sock,
      ))
