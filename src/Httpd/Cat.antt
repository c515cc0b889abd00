-- ===== src/Httpd/Cat.antt =====
-- What `cat` of tinyhttpd/httpd.c sends of a file.
use linux_study_notes.Httpd.File.{cat_loop, cat}
use linux_study_notes.Libc.Stdio.{NoNewline, fgets}
use linux_study_notes.Httpd.Conn.{Conn, send}
use linux_study_notes.Httpd.Request.{buf_size}
use linux_study_notes.Libc.{NoNul, NoNul-append, c_str_all}
use linux_study_notes.Prelude.{
  ℕ, zero, suc, ◌+◌, ◌-◌, ◌<◌, ◌≡◌, refl, sym, ap, ap₂, subst, ◌∙◌, true, false, List, [], ◌∷◌,
  ◌++◌, ◌==◌, append_assoc, append-nil, arith, length, length-append, Bool-cases, inl, inr,
}

fgets_split : (room : ℕ) (file : List ℕ) → (fgets room file).line ++ (fgets room file).left ≡ file
unfolding fgets
fgets_split zero file = refl
fgets_split (suc room) [] = refl
fgets_split (suc room) (c ∷ file) = ground (arith, fgets_split room file)

fgets_eof :
    (room : ℕ) (file : List ℕ)
    → (fgets room file).eof ≡ true
    → ((fgets room file).left ≡ [])
      × NoNewline (fgets room file).line
      × (length (fgets room file).line < room)
unfolding fgets
fgets_eof zero file h = cc
fgets_eof (suc room) [] h = (refl, tt, omega arith)
fgets_eof (suc room) (c ∷ file) h = ground (arith, fgets_eof room file)

fgets_goes_on :
    (room : ℕ) (file : List ℕ)
    → 0 < room
    → (fgets room file).eof ≡ false
    → 0 < length (fgets room file).line
unfolding fgets
fgets_goes_on zero file r h = absurd (omega arith)
fgets_goes_on (suc room) [] r h = cc
fgets_goes_on (suc room) (c ∷ file) r h = ground arith

-- A file as what is sent and what is lost.
abbrev pub AllBut : List ℕ → List ℕ → Type 0
AllBut sent file =
    (lost : List ℕ) × (sent ++ lost ≡ file) × NoNewline lost × (length lost < buf_size - 1)

cat_loop-AllBut :
    (fuel : ℕ) (file : List ℕ) → NoNul file → length file < fuel → AllBut (cat_loop fuel file) file
unfolding cat_loop
cat_loop-AllBut zero file n h = absurd (omega arith)
cat_loop-AllBut (suc fuel) file n h =
    let g = fgets (buf_size - 1) file in
    let split = fgets_split (buf_size - 1) file in
    elim (Bool-cases g.eof) [
      | inl last ↦
          let (none_left, plain, short) = fgets_eof (buf_size - 1) file last in
          let whole : g.line ≡ file =
            sym (append-nil g.line) ∙ ap (λ l. g.line ++ l) (sym none_left) ∙ split in
          rw last (file, refl, rw whole at plain, rw whole at short)
      | inr goes ↦
          let parts = NoNul-append g.line g.left (subst NoNul (sym split) n) in
          let (lost, e, plain, short) = cat_loop-AllBut fuel g.left parts.1 (
            omega (
              arith,
              ap length split,
              length-append g.line g.left,
              fgets_goes_on (buf_size - 1) file (omega arith) goes,
            )) in
          rw goes (
            rw (c_str_all g.line parts.0) (
              lost,
              append_assoc g.line (cat_loop fuel g.left) lost ∙ ap (λ l. g.line ++ l) e ∙ split,
              plain,
              short,
            ))
    ]

-- Of a file with no NUL, `cat` sends all but an end without a line feed, shorter than its buffer;
-- so the loop has fuel enough to come to the end of the file.
pub cat-AllBut :
    (file : List ℕ) (k : Conn)
    → NoNul file
    → (sent : List ℕ) × ((cat file k).sent ≡ k.sent ++ sent) × AllBut sent file
unfolding cat
cat-AllBut file k n =
    (cat_loop (length file + 1) file, refl, cat_loop-AllBut (length file + 1) file n (omega arith))

NoNewline-append : (b : List ℕ) → NoNewline (b ++ b'\n' ∷ []) → ⊥
NoNewline-append [] h = cc
NoNewline-append (x ∷ b) h = NoNewline-append b h.1

nothing_lost :
    (sent lost b : List ℕ)
    → sent ++ lost ≡ b ++ b'\n' ∷ []
    → NoNewline lost
    → sent ≡ b ++ b'\n' ∷ []
nothing_lost [] lost b e h = absurd (NoNewline-append b (subst NoNewline e h))
nothing_lost (s ∷ ss) [] [] e h = sym (append-nil (s ∷ ss)) ∙ e
nothing_lost (s ∷ []) (x ∷ lost) [] e h = cc
nothing_lost (s ∷ t ∷ ss) (x ∷ lost) [] e h = cc
nothing_lost (s ∷ ss) lost (x ∷ b) e h =
    let heads : s ≡ x = cc in
    let tails : ss ++ lost ≡ b ++ b'\n' ∷ [] = cc in ap₂ ◌∷◌ heads (nothing_lost ss lost b tails h)

-- A file with no NUL whose last byte is a line feed is sent whole.
pub cat_whole :
    (b : List ℕ) (k : Conn)
    → NoNul (b ++ b'\n' ∷ [])
    → (cat (b ++ b'\n' ∷ []) k).sent ≡ k.sent ++ (b ++ b'\n' ∷ [])
cat_whole b k n =
    let (sent, e, rest) = cat-AllBut (b ++ b'\n' ∷ []) k n in
    let (lost, all, plain, short) = rest in
    e ∙ ap (λ l. k.sent ++ l) (nothing_lost sent lost b all plain)

fgets_all :
    (room : ℕ) (file : List ℕ) → NoNewline file → length file < room → (fgets room file).eof ≡ true
unfolding fgets
fgets_all zero file n h = absurd (omega arith)
fgets_all (suc room) [] n h = refl
fgets_all (suc room) (c ∷ file) n h = ground (arith, fgets_all room file)

-- A file with no line feed that is shorter than the buffer is not sent at all.
pub cat_without_newline :
    (file : List ℕ) (k : Conn)
    → NoNewline file
    → length file < buf_size - 1
    → (cat file k).sent ≡ k.sent
unfolding cat cat_loop
cat_without_newline file k n h =
    let e : length file + 1 ≡ suc (length file) = omega arith in
    rw (e, fgets_all (buf_size - 1) file n h, append-nil)

-- Every line of the bytes has its line feed.
abbrev pub IsLines : List ℕ → Type 0
IsLines [] = Unit
IsLines (c ∷ []) = (c == b'\n') ≡ true
IsLines (c ∷ d ∷ b) = IsLines (d ∷ b)

IsLines-tail : (c : ℕ) (b : List ℕ) → IsLines (c ∷ b) → IsLines b
IsLines-tail c [] h = tt
IsLines-tail c (d ∷ b) h = h

-- A call of `fgets` that starts in front of a line feed stays among the lines.
fgets_within :
    (room c : ℕ) (b t : List ℕ)
    → IsLines (c ∷ b)
    → let g = fgets room (c ∷ (b ++ t)) in
      (g.eof ≡ false)
      × (rest : List ℕ) × (g.line ++ rest ≡ c ∷ b)
      × (g.left ≡ rest ++ t)
      × IsLines rest
unfolding fgets
fgets_within zero c b t h = (refl, c ∷ b, refl, refl, h)
fgets_within (suc room) c [] t h = rw h (refl, [], refl, refl, tt)
fgets_within (suc room) c (d ∷ b) t h = elim (Bool-cases (c == b'\n')) [
  | inl feed ↦ rw feed (refl, d ∷ b, refl, refl, h)
  | inr other ↦
      let (e, rest, split, left, lines) = fgets_within room d b t h in
      rw other (e, rest, ap (◌∷◌ c) split, left, lines)
]

cat_loop_lines :
    (fuel : ℕ) (b t : List ℕ)
    → IsLines b
    → NoNewline t
    → length t < buf_size - 1
    → NoNul b
    → length b < fuel
    → cat_loop fuel (b ++ t) ≡ b
unfolding cat_loop
cat_loop_lines zero b t w plain short n h = absurd (omega arith)
cat_loop_lines (suc fuel) [] t w plain short n h = rw (fgets_all (buf_size - 1) t plain short) refl
cat_loop_lines (suc fuel) (c ∷ b) t w plain short n h =
    let file = c ∷ (b ++ t) in
    let g = fgets (buf_size - 1) file in
    let (goes, rest, split, left, lines) = fgets_within (buf_size - 1) c b t w in
    let parts = NoNul-append g.line rest (subst NoNul (sym split) n) in
    let less : length rest < fuel = omega (
      arith,
      ap length split,
      length-append g.line rest,
      fgets_goes_on (buf_size - 1) file (omega arith) goes,
    ) in
    rw goes (
      rw (c_str_all g.line parts.0) (
        ap (λ l. g.line ++ cat_loop fuel l) left
        ∙ ap (λ l. g.line ++ l) (cat_loop_lines fuel rest t lines plain short parts.1 less)
        ∙ split))

-- Of a file that is lines with no NUL, each with its line feed, and then an end with no line feed
-- that is shorter than the buffer of `cat` less one, exactly the lines are sent, and the end is
-- not.
pub cat_sends_lines :
    (b t : List ℕ) (k : Conn)
    → IsLines b
    → NoNul b
    → NoNewline t
    → length t < buf_size - 1
    → cat (b ++ t) k ≡ send b k
unfolding cat
cat_sends_lines b t k w n plain short =
    ap (λ l. send l k)
      (cat_loop_lines (length (b ++ t) + 1) b t w plain short n (omega (arith, length-append b t)))
