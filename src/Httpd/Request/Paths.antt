-- ===== src/Httpd/Request/Paths.antt =====
-- The query string and the path that tinyhttpd/httpd.c makes of a URL.
use linux_study_notes.Httpd.Request.{token_max, path_size, Token, split_query, target, make_path}
use linux_study_notes.Httpd.Server.{final_path}
use linux_study_notes.Libc.{codes, c_str, length-c_str}
use linux_study_notes.Prelude.{
  ℕ, ◌+◌, ◌≤◌, ◌≡◌, refl, true, false, List, [], ◌∷◌, ◌++◌, some, ◌==◌, arith, length,
  length-append,
}

abbrev pub NoQuestion : List ℕ → Type 0
NoQuestion [] = Unit
NoQuestion (c ∷ cs) = ((c == b'?') ≡ false) × NoQuestion cs

-- A GET of `u?q` asks for `u` with the query `q`, by CGI; `u` holds no question mark, `q` may.
pub split_query_of_join :
    (u q : List ℕ)
    → NoQuestion u
    → split_query (u ++ b'?' ∷ q) ≡ record { url = u; query = some q; cgi = true }
unfolding split_query
split_query_of_join [] q n = refl
split_query_of_join (c ∷ u) q n = ground (arith, split_query_of_join u q)

-- With no question mark the query is empty, and the URL alone does not ask for CGI.
pub split_query_plain :
    (u : List ℕ) → NoQuestion u → split_query u ≡ record { url = u; query = some []; cgi = false }
unfolding split_query
split_query_plain [] n = refl
split_query_plain (c ∷ u) n = ground (arith, split_query_plain u)

length-split_query : (u : List ℕ) → length (split_query u).url ≤ length u
unfolding split_query
length-split_query [] = omega arith
length-split_query (c ∷ u) = ground (arith, length-split_query u)

length-target : (m u : List ℕ) → length (target m u).url ≤ length u
unfolding target
length-target m u = ground (arith, length-split_query (c_str u), length-c_str u)

length-make_path : (url : List ℕ) → length (make_path url) ≤ length url + 16
unfolding make_path
length-make_path url = ground (
  arith,
  length-append (codes "htdocs") url,
  length-append (codes "htdocs" ++ url) (codes "index.html"),
)

length-final_path : (path : List ℕ) (mode : ℕ) → length (final_path path mode) ≤ length path + 11
length-final_path path mode = ground (arith, length-append path (codes "/index.html"))

-- However long the URL that the parser accepts, the path with both of its extensions and its NUL
-- stays inside `path[512]`.
pub path_fits :
    (method : List ℕ) (url : Token) (mode : ℕ)
    → length url.text ≤ token_max
    → length (final_path (make_path (target method url.text).url) mode) + 1 ≤ path_size
path_fits method url mode h = omega (
  arith,
  length-final_path (make_path (target method url.text).url) mode,
  length-make_path (target method url.text).url,
  length-target method url.text,
)
