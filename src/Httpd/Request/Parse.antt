-- ===== src/Httpd/Request/Parse.antt =====
-- Request lines, and what the loops of `accept_request` in tinyhttpd/httpd.c find in them.
use linux_study_notes.Httpd.Fault.{Result, ok}
use linux_study_notes.Httpd.Request.{
  buf_size, token_max, Token, method_loop, skip_loop, url_loop, read_method, read_url,
}
use linux_study_notes.Libc.{is_space}
use linux_study_notes.Prelude.{
  ℕ, zero, suc, ◌+◌, ◌-◌, ◌≤◌, ◌<◌, ◌≡◌, refl, ap, ◌∙◌, true, false, List, [], ◌∷◌, ◌++◌, arith,
  length, drop, get_elem?-drop, length-append, drop-append, drop-two,
}

abbrev pub AllSpace : List ℕ → Type 0
AllSpace [] = Unit
AllSpace (c ∷ cs) = (is_space c ≡ true) × AllSpace cs

abbrev pub NoSpace : List ℕ → Type 0
NoSpace [] = Unit
NoSpace (c ∷ cs) = (is_space c ≡ false) × NoSpace cs

abbrev found : List ℕ → ℕ → Result Token
found text j = ok (record { text = text; pos = j })

method_loop-token :
    (m : List ℕ) (s : ℕ) (rest buf : List ℕ) (room j : ℕ)
    → drop j buf ≡ m ++ s ∷ rest
    → NoSpace m
    → is_space s ≡ true
    → length m ≤ room
    → method_loop room buf j ≡ found m (j + length m)
unfolding method_loop
method_loop-token [] s rest buf zero j e n sp h = ground (arith, get_elem?-drop j buf e)
method_loop-token [] s rest buf (suc room) j e n sp h = ground (arith, get_elem?-drop j buf e)
method_loop-token (c ∷ m) s rest buf zero j e n sp h = absurd (omega arith)
method_loop-token (c ∷ m) s rest buf (suc room) j e n sp h =
    let (g, d) = get_elem?-drop j buf e in
    ground (arith, method_loop-token m s rest buf room (j + 1) d)

url_loop-token :
    (u : List ℕ) (s : ℕ) (rest buf : List ℕ) (room j : ℕ)
    → drop j buf ≡ u ++ s ∷ rest
    → NoSpace u
    → is_space s ≡ true
    → length u ≤ room
    → j + length u < buf_size
    → url_loop room buf j ≡ found u (j + length u)
unfolding url_loop
url_loop-token [] s rest buf zero j e n sp h b = ground (arith, get_elem?-drop j buf e)
url_loop-token [] s rest buf (suc room) j e n sp h b = ground (arith, get_elem?-drop j buf e)
url_loop-token (c ∷ u) s rest buf zero j e n sp h b = absurd (omega arith)
url_loop-token (c ∷ u) s rest buf (suc room) j e n sp h b =
    let (g, d) = get_elem?-drop j buf e in
    ground (arith, url_loop-token u s rest buf room (j + 1) d)

pub skip_loop-gap :
    (gap : List ℕ) (c : ℕ) (rest buf : List ℕ) (left j : ℕ)
    → drop j buf ≡ gap ++ c ∷ rest
    → AllSpace gap
    → is_space c ≡ false
    → length gap ≤ left
    → skip_loop left buf j ≡ ok (j + length gap)
unfolding skip_loop
skip_loop-gap [] c rest buf zero j e n sp h = ground (arith, get_elem?-drop j buf e)
skip_loop-gap [] c rest buf (suc left) j e n sp h = ground (arith, get_elem?-drop j buf e)
skip_loop-gap (d ∷ gap) c rest buf zero j e n sp h = absurd (omega arith)
skip_loop-gap (d ∷ gap) c rest buf (suc left) j e n sp h =
    let (g, d) = get_elem?-drop j buf e in
    ground (arith, skip_loop-gap gap c rest buf left (j + 1) d)

-- A request line: a method, blanks, a URL that is not empty, and what follows a blank.
pub record Line : Type 0 where
  pub method : List ℕ
  pub blank : ℕ
  pub gap : List ℕ
  pub first : ℕ
  pub url : List ℕ
  pub after : ℕ
  pub tail : List ℕ

abbrev pub line_bytes : Line → List ℕ
line_bytes l = l.method ++ l.blank ∷ (l.gap ++ l.first ∷ (l.url ++ l.after ∷ l.tail))

-- The tokens hold no blanks, the gap holds nothing else, and all fit into the arrays.
pub record IsLine (l : Line) : Type 0 where
  pub method_ok : NoSpace l.method
  pub method_fits : length l.method ≤ token_max
  pub blank_ok : is_space l.blank ≡ true
  pub gap_ok : AllSpace l.gap
  pub first_ok : is_space l.first ≡ false
  pub url_ok : NoSpace l.url
  pub url_fits : length l.url < token_max
  pub after_ok : is_space l.after ≡ true
  pub line_fits : length (line_bytes l) ≤ buf_size

length-line_bytes :
    (l : Line)
    → length (line_bytes l) ≡ length l.method + length l.gap + length l.url + length l.tail + 3
length-line_bytes l = omega (
  arith,
  length-append l.method (l.blank ∷ (l.gap ++ l.first ∷ (l.url ++ l.after ∷ l.tail))),
  length-append l.gap (l.first ∷ (l.url ++ l.after ∷ l.tail)),
  length-append l.url (l.after ∷ l.tail),
)

read_url-line :
    (l : Line)
    → IsLine l
    → read_url (line_bytes l) (length l.method)
      ≡ found (l.first ∷ l.url) (length l.method + length l.gap + length l.url + 2)
unfolding read_url
read_url-line l v =
    let m = l.method in
    let gap = l.blank ∷ l.gap in
    let rest = l.url ++ l.after ∷ l.tail in
    let buf = line_bytes l in
    let k = length m + length gap in
    rw
      (skip_loop-gap gap l.first rest buf (buf_size - length m) (length m)
        (drop-append m (gap ++ l.first ∷ rest)) (v.blank_ok, v.gap_ok) v.first_ok
        (omega (arith, v.line_fits, length-line_bytes l)))
      (url_loop-token (l.first ∷ l.url) l.after l.tail buf token_max k
          (drop-two m gap (l.first ∷ rest) refl) (v.first_ok, v.url_ok) v.after_ok
          (omega (arith, v.url_fits)) (omega (arith, v.line_fits, length-line_bytes l))
        ∙ ap (found (l.first ∷ l.url)) (omega arith))

-- The two loops and the loop over the blanks find exactly the method and the URL of a request line,
-- with no read behind the array.
pub read_tokens :
    (l : Line)
    → IsLine l
    → (read_method (line_bytes l) ≡ found l.method (length l.method))
      × (read_url (line_bytes l) (length l.method)
          ≡ found (l.first ∷ l.url) (length l.method + length l.gap + length l.url + 2))
unfolding read_method
read_tokens l v = (
  method_loop-token l.method l.blank (l.gap ++ l.first ∷ (l.url ++ l.after ∷ l.tail)) (line_bytes l)
        token_max 0 refl v.method_ok v.blank_ok v.method_fits
      ∙ ap (found l.method) (omega arith),
  read_url-line l v,
)
