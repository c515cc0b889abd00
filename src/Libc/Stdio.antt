-- ===== src/Libc/Stdio.antt =====
-- `fgets` of the C standard library.
use linux_study_notes.Prelude.{
  ℕ, zero, suc, ◌<◌, ◌≡◌, refl, Bool, true, false, List, [], ◌∷◌, ◌++◌, ◌==◌, if◌then◌else◌, length,
  arith,
}

-- What one `fgets(buf, sizeof(buf), f)` reads, what is left of the file, and whether it met the
-- end.
pub record Chunk : Type 0 where
  pub line : List ℕ
  pub left : List ℕ
  pub eof : Bool

abbrev pub chunk_cons : ℕ → Chunk → Chunk
chunk_cons c g = record g { line = c ∷ g.line }

-- `room` is the space left in the array, its NUL not counted.
unfoldable pub fgets : ℕ → List ℕ → Chunk
fgets zero file = record { line = []; left = file; eof = false }
fgets (suc room) [] = record { line = []; left = []; eof = true }
fgets (suc room) (c ∷ file) =
    let more = chunk_cons c (fgets room file) in
    if c == b'\n' then record { line = c ∷ []; left = file; eof = false } else more

abbrev pub NoNewline : List ℕ → Type 0
NoNewline [] = Unit
NoNewline (c ∷ cs) = ((c == b'\n') ≡ false) × NoNewline cs

-- A line that is shorter than the room is read with its line feed.
pub fgets_line :
    (room : ℕ) (line rest : List ℕ)
    → NoNewline line
    → length line < room
    → fgets room (line ++ b'\n' ∷ rest)
      ≡ record { line = line ++ b'\n' ∷ []; left = rest; eof = false }
unfolding fgets
fgets_line zero line rest n h = absurd (omega arith)
fgets_line (suc room) [] rest n h = refl
fgets_line (suc room) (c ∷ line) rest n h =
    rw (n.0, fgets_line room line rest n.1 (omega arith)) refl
