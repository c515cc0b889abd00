-- ===== src/Httpd/Cgi/Body.antt =====
-- The body of a POST on its way to the script, and the environment, in `execute_cgi` of
-- tinyhttpd/httpd.c.
use linux_study_notes.Httpd.Cgi.{relay, env_size, env, environment}
use linux_study_notes.Httpd.Fault.{ok, fault, overflow}
use linux_study_notes.Httpd.Request.{is_get, is_post}
use linux_study_notes.Libc.Int.{ℤ, pos}
use linux_study_notes.Libc.{
  codes, c_str, equal_iff, str_case_eq, to_lower, show_int, length-show_int,
}
use linux_study_notes.Prelude.{
  ℕ, zero, suc, ◌+◌, ◌^◌, ◌<◌, ◌≡◌, refl, ap, true, false, List, [], ◌∷◌, ◌++◌, map, leb, le→leb,
  if◌then◌else◌, arith, length, length-append, length-map, replicate, some, none,
}

-- A body that has arrived in full is passed on byte for byte, and what follows it stays in the
-- socket.
pub relay_full :
    (b rest : List ℕ) (c : ℕ) → relay (length b) c (b ++ rest) ≡ record { written = b; rest = rest }
unfolding relay
relay_full [] rest c = refl
relay_full (x ∷ b) rest c = rw (relay_full b rest x)

-- What `c` holds after the bytes of `sock`.
unfoldable pub last_or : ℕ → List ℕ → ℕ
last_or c [] = c
last_or c (d ∷ sock) = last_or d sock

relay-nil : (n c : ℕ) → relay n c [] ≡ record { written = replicate n c; rest = [] }
unfolding relay
relay-nil zero c = refl
relay-nil (suc n) c = rw (relay-nil n c)

-- When the client closes `m` bytes early, the last byte that came (or what `c` held) is passed on
-- `m` times more.
pub relay_short :
    (sock : List ℕ) (n m c : ℕ)
    → n ≡ length sock + m
    → relay n c sock ≡ record { written = sock ++ replicate m (last_or c sock); rest = [] }
unfolding relay last_or
relay_short [] n m c e = let e' : n ≡ m = omega arith in rw e' (relay-nil m c)
relay_short (d ∷ sock) zero m c e = absurd (omega arith)
relay_short (d ∷ sock) (suc n) m c e = rw (relay_short sock n m d (omega arith))

length-of_post : (method : List ℕ) → is_post method ≡ true → length (c_str method) ≡ 4
unfolding is_post str_case_eq
length-of_post method h =
    let same : map to_lower (c_str method) ≡ codes "post" = (equal_iff _ _).0 h in
    omega (arith, ap length same, length-map to_lower (c_str method))

length-of_get : (method : List ℕ) → is_get method ≡ true → length (c_str method) ≡ 3
unfolding is_get str_case_eq
length-of_get method h =
    let same : map to_lower (c_str method) ≡ codes "get" = (equal_iff _ _).0 h in
    omega (arith, ap length same, length-map to_lower (c_str method))

pub get_not_post : (method : List ℕ) → is_post method ≡ true → is_get method ≡ false
unfolding is_get is_post str_case_eq
get_not_post method h =
    let same : map to_lower (c_str method) ≡ codes "post" = (equal_iff _ _).0 h in rw same

pub post_not_get : (method : List ℕ) → is_get method ≡ true → is_post method ≡ false
unfolding is_get is_post str_case_eq
post_not_get method h =
    let same : map to_lower (c_str method) ≡ codes "get" = (equal_iff _ _).0 h in rw same

env-ok : (text : List ℕ) → length text < env_size → env text ≡ ok text
env-ok text h = rw (le→leb (length text + 1) env_size (omega arith))

-- The environment of a POST that declares `n` bytes.
abbrev pub post_vars : List ℕ → ℕ → List (List ℕ)
post_vars method n =
    (codes "REQUEST_METHOD=" ++ c_str method) ∷ (codes "CONTENT_LENGTH=" ++ show_int (pos n)) ∷ []

abbrev pub get_vars : List ℕ → List ℕ → List (List ℕ)
get_vars method q = (codes "REQUEST_METHOD=" ++ c_str method) ∷ (codes "QUERY_STRING=" ++ q) ∷ []

-- A length that fits into an `int` overflows no array of the child.
pub environment_of_post :
    (method : List ℕ) (n : ℕ)
    → is_post method ≡ true
    → n < 2 ^ 31
    → environment method none (pos n) ≡ ok (post_vars method n)
unfolding environment
environment_of_post method n p h =
    let meth = codes "REQUEST_METHOD=" ++ c_str method in
    let len = codes "CONTENT_LENGTH=" ++ show_int (pos n) in
    rw (get_not_post method p) (
      rw
        (env-ok meth (
          omega (
            arith,
            length-append (codes "REQUEST_METHOD=") (c_str method),
            length-of_post method p,
          )))
        (rw (
          env-ok len (
            omega (
              arith,
              length-append (codes "CONTENT_LENGTH=") (show_int (pos n)),
              length-show_int n h,
            )))))

-- A query of up to 241 bytes fits into the array of the child; a longer one is written behind it.
pub environment_of_get :
    (method q : List ℕ) (z : ℤ)
    → is_get method ≡ true
    → environment method (some q) z
      ≡ (if leb (length q) 241 then ok (get_vars method q) else fault overflow)
unfolding environment
environment_of_get method q z g =
    let meth = codes "REQUEST_METHOD=" ++ c_str method in
    rw g (
      rw
        (env-ok meth (
          omega (
            arith,
            length-append (codes "REQUEST_METHOD=") (c_str method),
            length-of_get method g,
          )))
        (ground (arith, length-append (codes "QUERY_STRING=") q)))
