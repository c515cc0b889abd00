-- ===== src/Httpd/Request/Bounds.antt =====
-- Which reads of `buf` the parser of tinyhttpd/httpd.c makes: when they stay in the array, and the
-- requests with which one does not.
use linux_study_notes.Httpd.Fault.{Result, ok, fault, ◌>>=◌}
use linux_study_notes.Httpd.Line.{get_line}
use linux_study_notes.Httpd.Line.Ends.{Plain, Ending, ending_bytes, Before, get_line-terminated}
use linux_study_notes.Httpd.Request.{
  buf_size, token_max, Token, method_loop, skip_loop, url_loop, read_method, read_url,
}
use linux_study_notes.Libc.{is_space}
use linux_study_notes.Prelude.{
  ℕ, zero, suc, ◌+◌, ◌-◌, ◌≤◌, ◌<◌, ◌≡◌, refl, true, false, List, [], ◌∷◌, ◌++◌, arith, Bool-cases,
  ◌==◌, length, drop, get_elem?, get_elem?-some, some, append_assoc, length-append, length-drop,
  get_elem?-append, inl, inr, get_elem?-append,
}

-- A loop that ended with no fault: how far it went, and how much it copied.
abbrev pub Ends : ℕ → ℕ → Result Token → Type 0
Ends j room (ok t) = (j ≤ t.pos) × (t.pos ≤ j + room) × (length t.text ≤ room)
Ends j room (fault _) = ⊥

method_loop-Ends :
    (room j : ℕ) (buf : List ℕ) → j + room < length buf → Ends j room (method_loop room buf j)
unfolding method_loop
method_loop-Ends zero j buf h = ground (arith, get_elem?-some j buf)
method_loop-Ends (suc room) j buf h =
    ground (arith, get_elem?-some j buf, method_loop-Ends room (j + 1) buf)

url_loop-Ends :
    (room j : ℕ) (buf : List ℕ) → j + room < length buf → Ends j room (url_loop room buf j)
unfolding url_loop
url_loop-Ends zero j buf h = ground (arith, get_elem?-some j buf)
url_loop-Ends (suc room) j buf h =
    ground (arith, get_elem?-some j buf, url_loop-Ends room (j + 1) buf)

-- A blank at index `i` stops the loop there at the latest.
abbrev StopsBy : ℕ → Result Token → Type 0
StopsBy i (ok t) = t.pos ≤ i
StopsBy i (fault _) = Unit

method_loop-StopsBy :
    (room j i s : ℕ) (buf : List ℕ)
    → j ≤ i
    → get_elem? buf i ≡ some s
    → is_space s ≡ true
    → StopsBy i (method_loop room buf j)
unfolding method_loop
method_loop-StopsBy zero j i s buf h g sp = ground arith
method_loop-StopsBy (suc room) j i s buf h g sp = elim (Bool-cases (j == i)) [
  | inl here ↦ let e : j ≡ i = ground arith in rw (e, g, sp) (omega arith)
  | inr later ↦ ground (arith, method_loop-StopsBy room (j + 1) i s buf)
]

-- A byte at index `i` that is no blank stops the loop over blanks there at the latest.
abbrev SkipsTo : ℕ → Result ℕ → Type 0
SkipsTo i (ok k) = k ≤ i
SkipsTo i (fault _) = ⊥

skip_loop-SkipsTo :
    (left j i c : ℕ) (buf : List ℕ)
    → j ≤ i
    → get_elem? buf i ≡ some c
    → is_space c ≡ false
    → i < length buf
    → i ≤ j + left
    → SkipsTo i (skip_loop left buf j)
unfolding skip_loop
skip_loop-SkipsTo zero j i c buf h g sp b l = ground (arith, get_elem?-some j buf)
skip_loop-SkipsTo (suc left) j i c buf h g sp b l = elim (Bool-cases (j == i)) [
  | inl here ↦ let e : j ≡ i = ground arith in rw (e, g, sp) (omega arith)
  | inr later ↦ ground (arith, get_elem?-some j buf, skip_loop-SkipsTo left (j + 1) i c buf)
]

nul_not_space : is_space 0 ≡ false
unfolding is_space
nul_not_space = refl

lf_is_space : is_space b'\n' ≡ true
unfolding is_space
lf_is_space = refl

-- A token that fits into its array, read inside `buf`.
abbrev pub Reads : Result Token → Type 0
Reads (ok t) = (t.pos < buf_size) × (length t.text ≤ token_max)
Reads (fault _) = ⊥

Ends-Reads : (r : Result Token) (j : ℕ) → Ends j token_max r → j + token_max < buf_size → Reads r
Ends-Reads (ok t) j e h = omega arith
Ends-Reads (fault _) j e h = e

url_after :
    (buf : List ℕ) (r : Result ℕ) (n : ℕ)
    → SkipsTo n r
    → n + token_max < buf_size
    → length buf ≡ buf_size
    → Reads (r >>= λ k. url_loop token_max buf k)
url_after buf (ok k) n s h b =
    Ends-Reads _ k (url_loop-Ends token_max k buf (omega arith)) (omega arith)
url_after buf (fault _) n s h b = s

-- With a NUL at an index `n` of `buf`, at least 255 bytes before its end, the URL is read inside
-- the array from every index up to `n`.
pub read_url-Reads :
    (buf : List ℕ) (j n : ℕ)
    → length buf ≡ buf_size
    → n + token_max < buf_size
    → get_elem? buf n ≡ some 0
    → j ≤ n
    → Reads (read_url buf j)
unfolding read_url
read_url-Reads buf j n b h g le =
    url_after buf (skip_loop (buf_size - j) buf j) n
      (skip_loop-SkipsTo (buf_size - j) j n 0 buf le g nul_not_space (omega arith) (omega arith)) h
      b

pub read_method-Reads : (buf : List ℕ) → length buf ≡ buf_size → Reads (read_method buf)
unfolding read_method
read_method-Reads buf b =
    Ends-Reads _ 0 (method_loop-Ends token_max 0 buf (omega arith)) (omega arith)

-- The two tokens, read one after the other.
abbrev pub tokens : List ℕ → Result (Token × Token)
tokens buf = read_method buf >>= λ m. read_url buf m.pos >>= λ u. ok (m, u)

abbrev pub BothRead : Result (Token × Token) → Type 0
BothRead (ok (m, u)) = Reads (ok m) × Reads (ok u)
BothRead (fault _) = ⊥

both :
    (buf : List ℕ) (m : Token)
    → Reads (ok m)
    → Reads (read_url buf m.pos)
    → BothRead (read_url buf m.pos >>= λ u. ok (m, u))
both buf m rm ru = go (read_url buf m.pos) ru
  where
    go : (r : Result Token) → Reads r → BothRead (r >>= λ u. ok (m, u))
    go (ok u) h = (rm, h)
    go (fault _) h = h

tokens_of_stop :
    (buf : List ℕ) (n : ℕ) (r : Result Token)
    → length buf ≡ buf_size
    → n + token_max < buf_size
    → get_elem? buf n ≡ some 0
    → Reads r
    → StopsBy n r
    → BothRead (r >>= λ m. read_url buf m.pos >>= λ u. ok (m, u))
tokens_of_stop buf n (ok m) b h g rm st = both buf m rm (read_url-Reads buf m.pos n b h g st)
tokens_of_stop buf n (fault _) b h g rm st = rm

StopsBy-le : (r : Result Token) (i j : ℕ) → StopsBy i r → i ≤ j → StopsBy j r
StopsBy-le (ok t) i j h le = omega arith
StopsBy-le (fault _) i j h le = tt

terminated_in_bounds :
    (l tail : List ℕ)
    → length l + 1 + token_max < buf_size
    → length ((l ++ b'\n' ∷ []) ++ 0 ∷ tail) ≡ buf_size
    → BothRead (tokens ((l ++ b'\n' ∷ []) ++ 0 ∷ tail))
unfolding read_method
terminated_in_bounds l tail h b =
    let buf = (l ++ b'\n' ∷ []) ++ 0 ∷ tail in
    let lf_at : get_elem? buf (length l) ≡ some b'\n' =
      rw (append_assoc l (b'\n' ∷ []) (0 ∷ tail)) (get_elem?-append l b'\n' (0 ∷ tail)) in
    let nul_at : get_elem? buf (length l + 1) ≡ some 0 =
      rw (← length-append l (b'\n' ∷ [])) (get_elem?-append (l ++ b'\n' ∷ []) 0 tail) in
    tokens_of_stop buf (length l + 1) (read_method buf) b h nul_at (read_method-Reads buf b) (
      StopsBy-le (read_method buf) (length l) (length l + 1)
        (method_loop-StopsBy token_max 0 (length l) b'\n' buf (omega arith) lf_at lf_is_space)
        (omega arith))

-- For every request line that ends in a terminator and leaves 255 bytes of `buf` free, and whatever
-- the rest of `buf` holds, both tokens are read inside the array and fit into theirs.
pub request_line_in_bounds :
    (l : List ℕ) (e : Ending) (rest junk : List ℕ)
    → Plain l
    → Before e rest
    → length l + 1 + token_max < buf_size
    → length junk ≡ buf_size
    → BothRead (tokens (get_line (l ++ (ending_bytes e ++ rest)) junk buf_size).buf)
request_line_in_bounds l e rest junk p before h b =
    let n = length l in
    let tail = drop (n + 2) junk in
    rw (get_line-terminated l e rest junk buf_size p before (omega arith) (omega arith)) (
      terminated_in_bounds l tail h (
        omega (
          arith,
          length-append (l ++ b'\n' ∷ []) (0 ∷ tail),
          length-append l (b'\n' ∷ []),
          length-drop (n + 2) junk,
        )))
