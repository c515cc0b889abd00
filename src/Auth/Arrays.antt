-- ===== src/Auth/Arrays.antt =====
-- The strings that the programs of protobufTest read out of their arrays.
use linux_study_notes.Auth.Client.{chomp, fgets_array}
use linux_study_notes.Auth.Round.{got, recv_into, string_of, max_line}
use linux_study_notes.Libc.{NoNul, c_str, c_str_of_NoNul}
use linux_study_notes.Libc.Stdio.{NoNewline}
use linux_study_notes.Prelude.{
  ℕ, zero, suc, ◌+◌, ◌<◌, ◌≤◌, get_elem?, false, append_assoc, ◌≡◌, refl, List, [], ◌∷◌, ◌++◌, some,
  lt→ltb, length, length-append, get_elem?-none, drop, take_all, replicate, arith, ◌==◌,
}

-- A NUL stands behind what was received.
abbrev pub EndsIn : List ℕ → List ℕ → Type 0
EndsIn buf bytes = (rest : List ℕ) × (drop (length bytes) buf ≡ 0 ∷ rest)

pub string_of-ended :
    (bytes rest : List ℕ) → NoNul bytes → string_of (bytes ++ 0 ∷ rest) ≡ some bytes
unfolding string_of
string_of-ended bytes rest n = rw (c_str_of_NoNul bytes rest n) (
    rw
      (lt→ltb (length bytes) (length (bytes ++ 0 ∷ rest))
        (omega (arith, length-append bytes (0 ∷ rest))))
      refl)

-- A message with no NUL that fits into the array comes back out of it.
pub string_of-recv_into :
    (bytes buf : List ℕ)
    → NoNul bytes
    → length bytes < max_line
    → EndsIn buf bytes
    → string_of (recv_into (got bytes) buf) ≡ some bytes
unfolding recv_into
string_of-recv_into bytes buf n fits (rest, e) =
    rw (take_all max_line bytes (omega arith), e) (string_of-ended bytes rest n)

-- `chomp` of a line takes its line feed off.
pub chomp_line :
    (line rest : List ℕ)
    → NoNul line
    → NoNewline line
    → chomp (line ++ b'\n' ∷ rest) ≡ some (line ++ 0 ∷ rest)
unfolding chomp
chomp_line [] rest n l = refl
chomp_line (c ∷ line) rest n l = rw (n.0, l.0, chomp_line line rest n.1 l.1) refl

-- `bzero` puts a NUL behind every message that fits.
pub drop-replicate : (n m : ℕ) → n < m → (rest : List ℕ) × (drop n (replicate m 0) ≡ 0 ∷ rest)
drop-replicate n zero h = absurd (omega arith)
drop-replicate zero (suc m) h = (replicate m 0, refl)
drop-replicate (suc n) (suc m) h = drop-replicate n m (omega arith)

not_zero : (n : ℕ) → (suc n == 0) ≡ false
not_zero n = ground arith

-- The array behind a line that was read whole, and behind `chomp`.
fgets_array_line :
    (array line left : List ℕ)
    → fgets_array array (record { line = line ++ b'\n' ∷ []; left = left; eof = false })
      ≡ line ++ b'\n' ∷ 0 ∷ drop (length (line ++ b'\n' ∷ []) + 1) array
unfolding fgets_array
fgets_array_line array [] left = refl
fgets_array_line array (c ∷ line) left =
    rw (not_zero (length (line ++ b'\n' ∷ []))) (
      append_assoc (c ∷ line) (b'\n' ∷ []) (0 ∷ drop (length ((c ∷ line) ++ b'\n' ∷ []) + 1) array))

-- What is typed as a line comes out of the array without its line feed.
pub typed_line :
    (array line left : List ℕ)
    → NoNul line
    → NoNewline line
    → (end : List ℕ) × (chomp
          (fgets_array array (record { line = line ++ b'\n' ∷ []; left = left; eof = false }))
        ≡ some (line ++ 0 ∷ end))
typed_line array line left n l = (
  0 ∷ drop (length (line ++ b'\n' ∷ []) + 1) array,
  rw (fgets_array_line array line left)
      (chomp_line line (0 ∷ drop (length (line ++ b'\n' ∷ []) + 1) array) n l),
)

-- A NUL in the array ends the string inside it.
pub c_str_short :
    (buf : List ℕ) (i : ℕ) → get_elem? buf i ≡ some 0 → length (c_str buf) < length buf
unfolding c_str
c_str_short [] i e = cc
c_str_short (c ∷ buf) zero e = let nul : c ≡ 0 = cc in ground arith
c_str_short (c ∷ buf) (suc i) e = let shorter = c_str_short buf i e in ground arith

pub string_of-some :
    (buf : List ℕ) (i : ℕ) → get_elem? buf i ≡ some 0 → string_of buf ≡ some (c_str buf)
unfolding string_of
string_of-some buf i e = rw (lt→ltb (length (c_str buf)) (length buf) (c_str_short buf i e)) refl

get_elem?-laid :
    (bytes buf : List ℕ) (i : ℕ)
    → length bytes ≤ i
    → get_elem? (bytes ++ drop (length bytes) buf) i ≡ get_elem? buf i
get_elem?-laid [] buf i h = refl
get_elem?-laid (c ∷ bytes) buf zero h = absurd (omega arith)
get_elem?-laid (c ∷ bytes) [] (suc i) h =
    get_elem?-none i (bytes ++ []) (omega (arith, length-append bytes []))
get_elem?-laid (c ∷ bytes) (b ∷ buf) (suc i) h = get_elem?-laid bytes buf i (omega arith)

-- What is received in front of a NUL leaves it there.
pub recv_into-keeps :
    (bytes buf : List ℕ) (i : ℕ)
    → length bytes < max_line
    → length bytes ≤ i
    → get_elem? (recv_into (got bytes) buf) i ≡ get_elem? buf i
unfolding recv_into
recv_into-keeps bytes buf i fits h =
    rw (take_all max_line bytes (omega arith)) (get_elem?-laid bytes buf i h)
