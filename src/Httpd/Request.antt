-- ===== src/Httpd/Request.antt =====
pub mod Paths
pub mod Bounds
pub mod Overrun
pub mod Parse
-- The request line, in `accept_request` of tinyhttpd/httpd.c: the method, the URL, the query, the
-- path. The arrays `method` and `url` are the bytes that their loops store; the NUL stands behind.
use linux_study_notes.Httpd.Fault.{Result, ok, ◌>>=◌, read}
use linux_study_notes.Libc.{codes, is_space, c_str, str_case_eq}
use linux_study_notes.Prelude.{
  ℕ, zero, suc, ◌+◌, ◌-◌, Bool, true, false, not, ◌&&◌, List, [], ◌∷◌, ◌++◌, Option, none, some,
  ◌==◌, ltb, if◌then◌else◌, get_elem?,
}

-- `sizeof(buf)`, `sizeof(method) - 1` and `sizeof(url) - 1`, `sizeof(path)`
abbrev pub buf_size : ℕ
buf_size = 1024

abbrev pub token_max : ℕ
token_max = 254

abbrev pub path_size : ℕ
path_size = 512

-- The bytes that a loop has copied, and the index `j` behind them.
pub record Token : Type 0 where
  pub text : List ℕ
  pub pos : ℕ

abbrev pub token_cons : ℕ → Token → Token
token_cons c t = record t { text = c ∷ t.text }

abbrev pub token_end : ℕ → Result Token
token_end j = ok (record { text = []; pos = j })

-- `while(!ISspace(buf[j]) && (i < sizeof(method)-1))`, `room` being `sizeof(method) - 1 - i`. The
-- byte is read before `i` is tested.
unfoldable pub method_loop : ℕ → List ℕ → ℕ → Result Token
method_loop zero buf j = read (get_elem? buf j) >>= λ c. token_end j
method_loop (suc room) buf j =
    let more = λ (c : ℕ). method_loop room buf (j + 1) >>= λ t. ok (token_cons c t) in
    read (get_elem? buf j) >>= λ c. if is_space c then token_end j else more c

-- `while(ISspace(buf[j]) && (j < sizeof(buf))) j++;`, `left` being `sizeof(buf) - j`.
unfoldable pub skip_loop : ℕ → List ℕ → ℕ → Result ℕ
skip_loop zero buf j = read (get_elem? buf j) >>= λ c. ok j
skip_loop (suc left) buf j =
    let more = skip_loop left buf (j + 1) in
    read (get_elem? buf j) >>= λ c. if is_space c then more else ok j

-- `while(!ISspace(buf[j]) && (i < sizeof(url)-1) && (j < sizeof(buf)))`
unfoldable pub url_loop : ℕ → List ℕ → ℕ → Result Token
url_loop zero buf j = read (get_elem? buf j) >>= λ c. token_end j
url_loop (suc room) buf j =
    let more = λ (c : ℕ). url_loop room buf (j + 1) >>= λ t. ok (token_cons c t) in
    read (get_elem? buf j) >>= λ c.
    if not (is_space c) && ltb j buf_size then more c else token_end j

unfoldable pub read_method : List ℕ → Result Token
read_method buf = method_loop token_max buf 0

unfoldable pub read_url : List ℕ → ℕ → Result Token
read_url buf j = skip_loop (buf_size - j) buf j >>= λ k. url_loop token_max buf k

unfoldable pub is_get : List ℕ → Bool
unfolding str_case_eq
is_get method = str_case_eq method (codes "GET")

unfoldable pub is_post : List ℕ → Bool
unfolding str_case_eq
is_post method = str_case_eq method (codes "POST")

-- The URL as the C string that is left of it, the query string (`NULL` is `none`), and `cgi`.
pub record Target : Type 0 where
  pub url : List ℕ
  pub query : Option (List ℕ)
  pub cgi : Bool

-- The first '?' becomes a NUL, and the query stands behind it.
unfoldable pub split_query : List ℕ → Target
split_query [] = record { url = []; query = some []; cgi = false }
split_query (c ∷ cs) =
    let rest = split_query cs in
    if c == b'?'
    then record { url = []; query = some cs; cgi = true }
    else record rest { url = c ∷ rest.url }

-- For POST `cgi` is set and `query_string` stays NULL.
unfoldable pub target : List ℕ → List ℕ → Target
target method url =
    if is_get method
    then split_query (c_str url)
    else record { url = c_str url; query = none; cgi = true }

-- `path[strlen(path)-1] == '/'`
unfoldable pub ends_in_slash : List ℕ → Bool
ends_in_slash [] = false
ends_in_slash (c ∷ []) = c == b'/'
ends_in_slash (c ∷ d ∷ cs) = ends_in_slash (d ∷ cs)

-- `sprintf(path,"htdocs%s",url)`, with `index.html` behind a slash.
unfoldable pub make_path : List ℕ → List ℕ
unfolding ends_in_slash
make_path url =
    let path = codes "htdocs" ++ url in
    if ends_in_slash path then path ++ codes "index.html" else path
