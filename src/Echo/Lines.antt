-- ===== src/Echo/Lines.antt =====
-- What an echo of whole lines is, byte by byte, as a reference for `readcb` of
-- libevent/originEchoServer.cpp.
use linux_study_notes.Echo.Server.{max_line}
use linux_study_notes.Libc.Stdio.{NoNewline}
use linux_study_notes.Prelude.{
  ℕ, ◌<◌, ◌≡◌, refl, ap, ap₂, sym, ◌∙◌, Bool, true, false, ◌&&◌, List, [], ◌∷◌, ◌++◌, append-nil,
  append_assoc, leb, ltb, ◌==◌, if◌then◌else◌, length, ==_iff, Bool-cases, inl, inr, arith,
}

pub record Echoed : Type 0 where
  pub out : List ℕ
  pub held : List ℕ

abbrev pub echoed_line : List ℕ → Echoed → Echoed
echoed_line line r = record r { out = line ++ b'\n' ∷ r.out }

-- A line is sent back when its line feed comes.
unfoldable pub echo : List ℕ → List ℕ → Echoed
echo held [] = record { out = []; held = held }
echo held (c ∷ stream) =
    let line_ended = echoed_line held (echo [] stream) in
    let line_goes_on = echo (held ++ c ∷ []) stream in
    if c == b'\n' then line_ended else line_goes_on

-- One call on an input: the finished lines, and the rest with a line feed of its own if it is long.
unfoldable pub echo_call : List ℕ → Echoed
unfolding echo
echo_call input =
    let r = echo [] input in
    if leb max_line (length r.held)
    then record { out = r.out ++ (r.held ++ b'\n' ∷ []); held = [] }
    else r

-- No line, finished or not, is as long as `max_line`.
unfoldable pub short_lines : List ℕ → List ℕ → Bool
short_lines held [] = ltb (length held) max_line
short_lines held (c ∷ stream) =
    let line_ended = short_lines [] stream in
    let line_goes_on = short_lines (held ++ c ∷ []) stream in
    ltb (length held) max_line && (if c == b'\n' then line_ended else line_goes_on)

-- A stream that comes in two parts.
pub echo-append :
    (held a b : List ℕ)
    → echo held (a ++ b) ≡ record {
      out = (echo held a).out ++ (echo (echo held a).held b).out;
      held = (echo (echo held a).held b).held;
    }
unfolding echo
echo-append held [] b = refl
echo-append held (c ∷ a) b = elim (Bool-cases (c == b'\n')) [
  | inl ends ↦
      rw (ends, echo-append [] a b)
        (ap (λ o. record { out = o; held = (echo (echo [] a).held b).held })
          (sym (append_assoc held (b'\n' ∷ (echo [] a).out) (echo (echo [] a).held b).out)))
  | inr goes_on ↦ rw (goes_on, echo-append (held ++ c ∷ []) a b) refl
]

-- What is held is an unfinished line, and nothing is lost.
pub echo-split :
    (held stream : List ℕ) → (echo held stream).out ++ (echo held stream).held ≡ held ++ stream
unfolding echo
echo-split held [] = sym (append-nil held)
echo-split held (c ∷ stream) = elim (Bool-cases (c == b'\n')) [
  | inl ends ↦ rw ends (
      append_assoc held (b'\n' ∷ (echo [] stream).out) (echo [] stream).held
      ∙ ap (λ t. held ++ t) (ap₂ ◌∷◌ (sym ((==_iff c b'\n').0 ends)) (echo-split [] stream)))
  | inr goes_on ↦
      rw goes_on (echo-split (held ++ c ∷ []) stream ∙ append_assoc held (c ∷ []) stream)
]

echo_unfinished :
    (held line : List ℕ)
    → NoNewline line
    → echo held line ≡ record { out = []; held = held ++ line }
unfolding echo
echo_unfinished held [] n = ap (λ h. record { out = []; held = h }) (sym (append-nil held))
echo_unfinished held (c ∷ line) n = rw n.0 (
    echo_unfinished (held ++ c ∷ []) line n.1
    ∙ ap (λ h. record { out = []; held = h }) (append_assoc held (c ∷ []) line))

pub echo_rest : (line : List ℕ) → NoNewline line → echo [] line ≡ record { out = []; held = line }
echo_rest line n = echo_unfinished [] line n

echo_line_from :
    (held line rest : List ℕ)
    → NoNewline line
    → echo held (line ++ b'\n' ∷ rest) ≡ echoed_line (held ++ line) (echo [] rest)
unfolding echo
echo_line_from held [] rest n = ap (λ h. echoed_line h (echo [] rest)) (sym (append-nil held))
echo_line_from held (c ∷ line) rest n = rw n.0 (
    echo_line_from (held ++ c ∷ []) line rest n.1
    ∙ ap (λ h. echoed_line h (echo [] rest)) (append_assoc held (c ∷ []) line))

pub echo_line :
    (line rest : List ℕ)
    → NoNewline line
    → echo [] (line ++ b'\n' ∷ rest) ≡ echoed_line line (echo [] rest)
echo_line line rest n = echo_line_from [] line rest n

NoNewline-behind :
    (held : List ℕ) (c : ℕ) → NoNewline held → (c == b'\n') ≡ false → NoNewline (held ++ c ∷ [])
NoNewline-behind [] c n h = (h, tt)
NoNewline-behind (x ∷ held) c n h = (n.0, NoNewline-behind held c n.1 h)

-- What is held has no line feed.
pub echo_held-NoNewline :
    (held stream : List ℕ) → NoNewline held → NoNewline (echo held stream).held
unfolding echo
echo_held-NoNewline held [] n = n
echo_held-NoNewline held (c ∷ stream) n = elim (Bool-cases (c == b'\n')) [
  | inl ends ↦ rw ends (echo_held-NoNewline [] stream tt)
  | inr goes_on ↦
      rw goes_on (echo_held-NoNewline (held ++ c ∷ []) stream (NoNewline-behind held c n goes_on))
]

short_now : (held stream : List ℕ) → short_lines held stream ≡ true → length held < max_line
unfolding short_lines
short_now held [] h = ground arith
short_now held (c ∷ stream) h = ground arith

-- Lines that are short stay so where the stream is cut.
pub short_lines-cut :
    (held a b : List ℕ)
    → short_lines held (a ++ b) ≡ true
    → (length (echo held a).held < max_line) × (short_lines (echo held a).held b ≡ true)
unfolding short_lines echo
short_lines-cut held [] b h = (short_now held b h, h)
short_lines-cut held (c ∷ a) b h = elim (Bool-cases (c == b'\n')) [
  | inl ends ↦ rw ends (short_lines-cut [] a b (ground arith))
  | inr goes_on ↦ rw goes_on (short_lines-cut (held ++ c ∷ []) a b (ground arith))
]

-- An unfinished line in front of a stream.
pub echo-held :
    (held stream : List ℕ) → NoNewline held → echo [] (held ++ stream) ≡ echo held stream
echo-held held stream n = echo-append [] held stream ∙ rw (echo_rest held n) refl
