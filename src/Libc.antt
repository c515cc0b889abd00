-- ===== src/Libc.antt =====
-- What the C sources use of the standard library, over bytes as native numbers (0 to 255, "C"
-- locale): <ctype.h>, C strings in char arrays, `strcasecmp`, and `atoi`.
pub mod Int
pub mod Stdio
use Prim.Native.Char.{code}
use Prim.Native.String.{String}
use native.Mathlib.Nat.{pow-suc, mul_comm}
use linux_study_notes.Libc.Int.{ℤ, pos, negsuc, neg}
use linux_study_notes.Prelude.{
  ◌<◌, ◌^◌, ◌∙◌, ℕ, ◌+◌, ◌-◌, ◌*◌, ◌/◌, ◌%◌, zero, suc, ltb, ◌≤◌, ◌≡◌, ◌↔◌, refl, ap, Bool, true,
  false, ◌&&◌, ◌||◌, List, [], ◌∷◌, ◌++◌, map, leb, ◌==◌, if◌then◌else◌, arith, length,
}

-- The bytes of an ASCII literal, without the terminating NUL.
abbrev pub codes : String → List ℕ
codes String.[] = []
codes (String.◌∷◌ c s) = code c ∷ codes s

-- `isspace`: the bytes 9 to 13 and the blank.
unfoldable pub is_space : ℕ → Bool
is_space c = (leb 9 c && leb c 13) || c == b' '

unfoldable pub is_digit : ℕ → Bool
is_digit c = leb b'0' c && leb c b'9'

unfoldable pub to_lower : ℕ → ℕ
to_lower c = if leb b'A' c && leb c b'Z' then c + 32 else c

-- The C string that starts an array: what stands before the first NUL.
unfoldable pub c_str : List ℕ → List ℕ
c_str [] = []
c_str (c ∷ cs) = if c == 0 then [] else c ∷ c_str cs

unfoldable pub equal : List ℕ → List ℕ → Bool
equal [] [] = true
equal [] (y ∷ ys) = false
equal (x ∷ xs) [] = false
equal (x ∷ xs) (y ∷ ys) = x == y && equal xs ys

pub equal_iff : (xs ys : List ℕ) → (equal xs ys ≡ true) ↔ (xs ≡ ys)
unfolding equal
equal_iff (x ∷ xs) (y ∷ ys) = ground (arith, equal_iff xs ys)
equal_iff _ _ = ground arith

-- `strcmp(a, b) == 0` and `strcasecmp(a, b) == 0`, for the arrays `a` and `b`.
unfoldable pub str_eq : List ℕ → List ℕ → Bool
unfolding equal c_str
str_eq a b = equal (c_str a) (c_str b)

unfoldable pub str_case_eq : List ℕ → List ℕ → Bool
unfolding equal c_str to_lower
str_case_eq a b = equal (map to_lower (c_str a)) (map to_lower (c_str b))

-- No NUL among the bytes.
abbrev pub NoNul : List ℕ → Type 0
NoNul [] = Unit
NoNul (c ∷ cs) = ((c == 0) ≡ false) × NoNul cs

pub NoNul-append : (xs ys : List ℕ) → NoNul (xs ++ ys) → NoNul xs × NoNul ys
NoNul-append [] ys h = (tt, h)
NoNul-append (x ∷ xs) ys h = let (a, b) = NoNul-append xs ys h.1 in ((h.0, a), b)

pub c_str_of_NoNul : (s rest : List ℕ) → NoNul s → c_str (s ++ 0 ∷ rest) ≡ s
unfolding c_str
c_str_of_NoNul [] rest h = refl
c_str_of_NoNul (c ∷ cs) rest h = rw h.0 (ap (◌∷◌ c) (c_str_of_NoNul cs rest h.1))

pub c_str_all : (s : List ℕ) → NoNul s → c_str s ≡ s
unfolding c_str
c_str_all [] h = refl
c_str_all (c ∷ cs) h = rw h.0 (ap (◌∷◌ c) (c_str_all cs h.1))

pub length-c_str : (s : List ℕ) → length (c_str s) ≤ length s
unfolding c_str
length-c_str [] = omega arith
length-c_str (c ∷ cs) = ground (arith, length-c_str cs)

pub c_str-NoNul : (s : List ℕ) → NoNul (c_str s)
unfolding c_str
c_str-NoNul [] = tt
c_str-NoNul (c ∷ cs) = ground (arith, c_str-NoNul cs)

-- `strtol` with base 10: blanks, a sign, digits.
skip_spaces : List ℕ → List ℕ
skip_spaces [] = []
skip_spaces (c ∷ cs) = if is_space c then skip_spaces cs else c ∷ cs

digits_from : ℕ → List ℕ → ℕ
digits_from n [] = n
digits_from n (c ∷ cs) =
    let more = digits_from (10 * n + (c - b'0')) cs in if is_digit c then more else n

signed_digits : List ℕ → ℤ
signed_digits [] = pos 0
signed_digits (c ∷ cs) =
    if c == b'-'
    then neg (digits_from 0 cs)
    else if c == b'+'
    then pos (digits_from 0 cs)
    else pos (digits_from 0 (c ∷ cs))

-- `strtol` stops at the ends of a `long` of 64 bits.
abbrev long_most : ℕ
long_most = 2 ^ 63 - 1

to_long : ℤ → ℤ
to_long (pos n) = if leb n long_most then pos n else pos long_most
to_long (negsuc n) = if leb n long_most then negsuc n else negsuc long_most

-- Of a `long`, an `int` keeps the low 32 bits.
to_int : ℤ → ℤ
to_int (pos n) =
    let low = n % 2 ^ 32 in if ltb low (2 ^ 31) then pos low else negsuc (2 ^ 32 - 1 - low)
to_int (negsuc n) =
    let low = n % 2 ^ 32 in if ltb low (2 ^ 31) then negsuc low else pos (2 ^ 32 - 1 - low)

-- `atoi` of glibc: a number that an `int` cannot hold, for which C defines nothing, is
-- `(int) strtol(...)`.
unfoldable pub atoi : List ℕ → ℤ
unfolding skip_spaces digits_from signed_digits c_str is_space is_digit to_long to_int
atoi a = to_int (to_long (signed_digits (skip_spaces (c_str a))))

-- `%d` of `printf`. A digit is put in front of those of lower weight; `n` has fewer digits than the
-- fuel.
unfoldable pub decimal : ℕ → ℕ → List ℕ → List ℕ
decimal zero n acc = acc
decimal (suc fuel) n acc =
    let more = decimal fuel (n / 10) ((b'0' + n % 10) ∷ acc) in
    if ltb n 10 then (b'0' + n) ∷ acc else more

unfoldable pub show_int : ℤ → List ℕ
show_int (pos n) = decimal (n + 1) n []
show_int (negsuc n) = b'-' ∷ decimal (n + 2) (n + 1) []

show_int_runs : (show_int (pos 1203) ≡ codes "1203") × (show_int (neg 10) ≡ codes "-10")
unfolding show_int decimal
show_int_runs = (refl, refl)

atoi_runs :
    (atoi (codes " -42x") ≡ neg 42)
    × (atoi (codes "+7") ≡ pos 7)
    × (atoi (codes "x") ≡ pos 0)
    × (atoi (codes "4294967295") ≡ neg 1)
    × (atoi (codes "-99999999999999999999") ≡ pos 0)
unfolding atoi
atoi_runs = (refl, refl, refl, refl, refl)

-- Nothing behind a NUL counts.
pub c_str-cut : (s rest : List ℕ) → c_str (s ++ 0 ∷ rest) ≡ c_str s
unfolding c_str
c_str-cut [] rest = refl
c_str-cut (c ∷ cs) rest = ground (arith, c_str-cut cs rest)

pub atoi-cut : (s rest : List ℕ) → atoi (s ++ 0 ∷ rest) ≡ atoi s
unfolding atoi
atoi-cut s rest = ap (λ t. to_int (to_long (signed_digits (skip_spaces t)))) (c_str-cut s rest)

-- A number below `10 ^ k` has at most `k` digits.
length-decimal :
    (k fuel n : ℕ) (acc : List ℕ)
    → n < 10 ^ suc k
    → length (decimal fuel n acc) ≤ length acc + suc k
unfolding decimal
length-decimal k zero n acc h = omega arith
length-decimal zero (suc fuel) n acc h = let one_digit : n < 10 = h in ground arith
length-decimal (suc k) (suc fuel) n acc h =
    let p : 10 ^ suc (suc k) ≡ 10 * 10 ^ suc k = pow-suc 10 (suc k) ∙ mul_comm (10 ^ suc k) 10 in
    ground (arith, length-decimal k fuel (n / 10) ((b'0' + n % 10) ∷ acc))

-- The digits of a number that fits into an `int`.
pub length-show_int : (n : ℕ) → n < 2 ^ 31 → length (show_int (pos n)) ≤ 10
unfolding show_int
length-show_int n h = omega (arith, length-decimal 9 (n + 1) n [])
