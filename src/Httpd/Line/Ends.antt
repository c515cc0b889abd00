-- ===== src/Httpd/Line/Ends.antt =====
-- The line terminators of `get_line` in tinyhttpd/httpd.c, and what it does when there is none.
use linux_study_notes.Prelude.{
  ℕ, zero, suc, ◌+◌, ◌-◌, ◌≤◌, ◌<◌, ◌≡◌, refl, ap, false, List, [], ◌∷◌, ◌++◌, append-nil, ◌==◌,
  arith, length, drop, length-append,
}
use linux_study_notes.Httpd.Line.{after_cr, fold_cr, get_line}
use linux_study_notes.Httpd.Line.Scan.{scan, get_line-scan}

-- No carriage return and no line feed.
abbrev pub Plain : List ℕ → Type 0
Plain [] = Unit
Plain (c ∷ cs) = ((c == b'\n') ≡ false) × ((c == b'\r') ≡ false) × Plain cs

pub data Ending : Type 0 where
  lf crlf cr : Ending

abbrev pub ending_bytes : Ending → List ℕ
ending_bytes lf = b'\n' ∷ []
ending_bytes crlf = b'\r' ∷ b'\n' ∷ []
ending_bytes cr = b'\r' ∷ []

-- A lone carriage return is one that no line feed follows.
abbrev pub Before : Ending → List ℕ → Type 0
Before cr (d ∷ rest) = (d == b'\n') ≡ false
Before _ _ = Unit

-- What `scan` reads of a plain prefix.
scan-Plain :
    (l : List ℕ) (room : ℕ) (s : List ℕ)
    → Plain l
    → scan (length l + room) (l ++ s)
      ≡ record { line = l ++ (scan room s).line; rest = (scan room s).rest }
unfolding scan fold_cr
scan-Plain [] room s p = ap (λ k. scan k s) (omega arith)
scan-Plain (c ∷ l) room s p =
    let e : length (c ∷ l) + room ≡ suc (length l + room) = omega arith in
    rw e (ground (arith, scan-Plain l room s))

scan-ending :
    (room : ℕ) (e : Ending) (rest : List ℕ)
    → Before e rest
    → scan (suc room) (ending_bytes e ++ rest) ≡ record { line = b'\n' ∷ []; rest = rest }
unfolding scan fold_cr after_cr
scan-ending room lf rest h = refl
scan-ending room crlf rest h = refl
scan-ending room cr [] h = refl
scan-ending room cr (d ∷ rest) h = rw h

scan-terminated :
    (l : List ℕ) (e : Ending) (rest : List ℕ) (room : ℕ)
    → Plain l
    → Before e rest
    → length l < room
    → scan room (l ++ (ending_bytes e ++ rest)) ≡ record { line = l ++ b'\n' ∷ []; rest = rest }
scan-terminated l e rest room p h fits =
    let eq : room ≡ length l + suc (room - length l - 1) = omega arith in
    rw eq (
      rw (scan-Plain l (suc (room - length l - 1)) (ending_bytes e ++ rest) p)
        (rw (scan-ending (room - length l - 1) e rest h)))

-- A line of plain bytes with any of the three terminators, short enough for the array, is returned
-- whole with one line feed and a NUL behind it: the count is its length and 1, the rest of the
-- array keeps its bytes, and the socket stands just behind the terminator.
pub get_line-terminated :
    (l : List ℕ) (e : Ending) (rest buf : List ℕ) (size : ℕ)
    → Plain l
    → Before e rest
    → length l + 1 < size
    → size ≤ length buf
    → get_line (l ++ (ending_bytes e ++ rest)) buf size ≡ record {
      numchars = length l + 1;
      buf = (l ++ b'\n' ∷ []) ++ 0 ∷ drop (length l + 2) buf;
      rest = rest;
    }
get_line-terminated l e rest buf size p h fits in_buf =
    rw (get_line-scan (l ++ (ending_bytes e ++ rest)) buf size (omega arith) in_buf) (
      rw (scan-terminated l e rest (size - 1) p h (omega arith))
        (ground (arith, length-append l (b'\n' ∷ []))))

-- With no terminator among the first `size - 1` bytes, exactly these are returned, and the bytes
-- that follow stay in the socket.
pub get_line-full :
    (l more buf : List ℕ) (size : ℕ)
    → Plain l
    → length l + 1 ≡ size
    → size ≤ length buf
    → get_line (l ++ more) buf size
      ≡ record { numchars = length l; buf = l ++ 0 ∷ drop (length l + 1) buf; rest = more }
unfolding scan
get_line-full l more buf size p e in_buf =
    let eq : size - 1 ≡ length l + 0 = omega arith in
    rw (get_line-scan (l ++ more) buf size (omega arith) in_buf)
      (rw eq (rw (scan-Plain l 0 more p) (rw append-nil)))

scan-closed :
    (l : List ℕ) (room : ℕ)
    → Plain l
    → length l ≤ room
    → scan room l ≡ record { line = l; rest = [] }
unfolding scan fold_cr
scan-closed [] zero p h = refl
scan-closed [] (suc room) p h = refl
scan-closed (c ∷ l) zero p h = absurd (omega arith)
scan-closed (c ∷ l) (suc room) p h = ground (arith, scan-closed l room)

-- When the client closes before a terminator, what it sent is returned without a line feed.
pub get_line-closed :
    (l buf : List ℕ) (size : ℕ)
    → Plain l
    → length l < size
    → size ≤ length buf
    → get_line l buf size
      ≡ record { numchars = length l; buf = l ++ 0 ∷ drop (length l + 1) buf; rest = [] }
get_line-closed l buf size p fits in_buf =
    rw (get_line-scan l buf size (omega arith) in_buf)
      (rw (scan-closed l (size - 1) p (omega arith)))
