-- ===== src/Httpd/Request/Overrun.antt =====
-- The requests with which the parser of tinyhttpd/httpd.c reads behind its array.
use linux_study_notes.Httpd.Fault.{fault, read_past_end}
use linux_study_notes.Httpd.Request.Parse.{AllSpace, NoSpace, skip_loop-gap}
use linux_study_notes.Httpd.Request.{buf_size, token_max, url_loop, read_url}
use linux_study_notes.Libc.{is_space}
use linux_study_notes.Prelude.{
  ℕ, zero, suc, ◌+◌, ◌-◌, ◌≤◌, ◌<◌, ◌≡◌, refl, false, List, [], ◌∷◌, ◌++◌, arith, length, drop,
  get_elem?-drop, get_elem?-none, length-append, drop-append, drop-two,
}

url_loop-overrun :
    (u buf : List ℕ) (room j : ℕ)
    → drop j buf ≡ u
    → NoSpace u
    → length u ≤ room
    → j + length u ≡ buf_size
    → length buf ≡ buf_size
    → url_loop room buf j ≡ fault read_past_end
unfolding url_loop
url_loop-overrun [] buf zero j e n h c b = ground (arith, get_elem?-none j buf)
url_loop-overrun [] buf (suc room) j e n h c b = ground (arith, get_elem?-none j buf)
url_loop-overrun (x ∷ u) buf zero j e n h c b = absurd (omega arith)
url_loop-overrun (x ∷ u) buf (suc room) j e n h c b =
    let (g, d) = get_elem?-drop j buf e in ground (arith, url_loop-overrun u buf room (j + 1) d)

-- A method and blanks up to the last 254 bytes of `buf`, with no blank among these: the loop over
-- the URL reads the byte behind the array, since it tests the byte before the index.
pub read_url_overrun :
    (m gap u : List ℕ) (c : ℕ)
    → AllSpace gap
    → is_space c ≡ false
    → NoSpace u
    → length u < token_max
    → length m + length gap + length u + 1 ≡ buf_size
    → read_url (m ++ (gap ++ c ∷ u)) (length m) ≡ fault read_past_end
unfolding read_url
read_url_overrun m gap u c sp n nu h b =
    let buf = m ++ (gap ++ c ∷ u) in
    rw
      (skip_loop-gap gap c u buf (buf_size - length m) (length m) (drop-append m (gap ++ c ∷ u)) sp
        n (omega arith))
      (url_loop-overrun (c ∷ u) buf token_max (length m + length gap) (drop-two m gap (c ∷ u) refl)
        (n, nu) (omega arith) (omega arith)
        (omega (arith, length-append m (gap ++ c ∷ u), length-append gap (c ∷ u))))
