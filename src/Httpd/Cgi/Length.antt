-- ===== src/Httpd/Cgi/Length.antt =====
-- The headers of a POST: which Content-Length `execute_cgi` of tinyhttpd/httpd.c takes from them.
use linux_study_notes.Httpd.Cgi.{Scanning, read_header, length_loop, read_length}
use linux_study_notes.Httpd.File.{start_buf}
use linux_study_notes.Httpd.Headers.{
  Headers, end, header, header_bytes, IsHeaders, taken, more_headers-header, more_headers-empty,
  count, count-le, length-taken, length-start_buf,
}
use linux_study_notes.Httpd.Line.Ends.{Ending, get_line-terminated}
use linux_study_notes.Httpd.Line.{GotLine, get_line}
use linux_study_notes.Httpd.Request.{buf_size}
use linux_study_notes.Libc.Int.{ℤ, negsuc}
use linux_study_notes.Libc.{codes, c_str, equal, to_lower, str_case_eq, atoi, atoi-cut, equal_iff}
use linux_study_notes.Prelude.{
  ℕ, zero, suc, ◌+◌, ◌≤◌, ◌≡◌, refl, ap, ap₂, ◌∙◌, Bool, true, false, List, [], ◌∷◌, ◌++◌, map,
  ◌==◌, if◌then◌else◌, arith, length, drop, take, set, drop-set, length-set, drop-append_le,
  length-map, length-take, length-append, Bool-cases, inl, inr,
}

abbrev length_name : List ℕ
length_name = codes "content-length:"

-- The first 15 bytes are `Content-Length:`, in any case.
unfoldable pub is_length : List ℕ → Bool
unfolding equal to_lower
is_length l = equal (map to_lower (take 15 l)) length_name

-- The number behind the name and one more byte of the header.
unfoldable pub length_value : List ℕ → ℤ
length_value l = atoi (drop 16 (l ++ b'\n' ∷ []))

-- The last Content-Length among the headers, or `z`.
unfoldable pub declared : Headers → ℤ → ℤ
declared end z = z
declared (header l e hs) z = declared hs (if is_length l then length_value l else z)

-- Letters of a pattern in lower case: no NUL, no line feed.
abbrev Letters : List ℕ → Type 0
Letters [] = Unit
Letters (p ∷ ps) = ((p == 0) ≡ false) × ((p == b'\n') ≡ false) × Letters ps

equal-cut :
    (p l old : List ℕ)
    → Letters p
    → equal (map to_lower (c_str (set ((l ++ b'\n' ∷ []) ++ 0 ∷ old) (length p) 0))) p
      ≡ equal (map to_lower (take (length p) l)) p
unfolding equal to_lower c_str
equal-cut [] [] old h = refl
equal-cut [] (c ∷ l) old h = refl
equal-cut (p ∷ ps) [] old h = ground arith
equal-cut (p ∷ ps) (c ∷ l) old h = ground (arith, equal-cut ps l old)

is_length-length : (l : List ℕ) → is_length l ≡ true → 15 ≤ length l
unfolding is_length
is_length-length l h =
    let same : map to_lower (take 15 l) ≡ length_name = (equal_iff _ _).0 h in
    omega (arith, ap length same, length-map to_lower (take 15 l), length-take 15 l)

letters : Letters length_name
letters = ground arith

name_found :
    (l old : List ℕ)
    → str_case_eq (set ((l ++ b'\n' ∷ []) ++ 0 ∷ old) 15 0) (codes "Content-Length:") ≡ is_length l
unfolding str_case_eq is_length
name_found l old = equal-cut length_name l old letters

value_read :
    (l old : List ℕ)
    → 15 ≤ length l
    → atoi (drop 16 (set ((l ++ b'\n' ∷ []) ++ 0 ∷ old) 15 0)) ≡ length_value l
unfolding length_value
value_read l old h = rw (drop-set ((l ++ b'\n' ∷ []) ++ 0 ∷ old) 15 0) (
    rw (drop-append_le 16 (l ++ b'\n' ∷ []) (0 ∷ old) (omega (arith, length-append l (b'\n' ∷ []))))
      (atoi-cut (drop 16 (l ++ b'\n' ∷ [])) old))

read_header-taken :
    (z : ℤ) (l buf rest : List ℕ)
    → (read_header (record { content_length = z; got = taken l buf rest })).content_length
      ≡ (if is_length l then length_value l else z)
unfolding read_header
read_header-taken z l buf rest =
    let old = drop (length l + 2) buf in
    rw (name_found l old) (elim (Bool-cases (is_length l)) [
      | inl yes_it_is ↦ rw yes_it_is (value_read l old (is_length-length l yes_it_is))
      | inr other ↦ rw other
    ])

module _ (last : Ending) (body : List ℕ) where
  -- What `get_line` leaves at the start of `hs`.
  abbrev current : Headers → List ℕ → GotLine
  current end buf = taken [] buf body
  current (header l e hs) buf = taken l buf (header_bytes hs last body)

  get_line-current :
      (hs : Headers) (buf : List ℕ)
      → IsHeaders hs last body
      → length buf ≡ buf_size
      → get_line (header_bytes hs last body) buf buf_size ≡ current hs buf
  get_line-current end buf v b =
      get_line-terminated [] last body buf buf_size tt v (omega arith) (omega arith)
  get_line-current (header l e hs) buf v b =
      get_line-terminated l e (header_bytes hs last body) buf buf_size v.0 v.3 v.2 (omega arith)

  -- `buf` after the header `l`, with the NUL at 15.
  cut : List ℕ → List ℕ → Headers → List ℕ
  cut l buf hs = set (taken l buf (header_bytes hs last body)).buf 15 0

  length-cut :
      (l : List ℕ) (e : Ending) (hs : Headers) (buf : List ℕ)
      → IsHeaders (header l e hs) last body
      → length buf ≡ buf_size
      → length (cut l buf hs) ≡ buf_size
  unfolding cut
  length-cut l e hs buf v b =
      length-set (taken l buf (header_bytes hs last body)).buf 15 0
      ∙ length-taken l buf (header_bytes hs last body) v.2 b

  -- One round of the loop: the number, and the next line in `buf`.
  round :
      (l : List ℕ) (e : Ending) (hs : Headers) (z : ℤ) (buf : List ℕ)
      → IsHeaders (header l e hs) last body
      → length buf ≡ buf_size
      → let s = read_header (record { content_length = z; got = current (header l e hs) buf }) in
        ◌≡◌ {A = Scanning}
          (record s { got = get_line s.got.rest s.got.buf buf_size })
          (record {
            content_length = if is_length l then length_value l else z;
            got = current hs (cut l buf hs);
          })
  unfolding cut read_header
  round l e hs z buf v b =
      ap₂ (λ n g. record { content_length = n; got = g })
        (read_header-taken z l buf (header_bytes hs last body))
        (get_line-current hs (cut l buf hs) v.4 (length-cut l e hs buf v b))

  length_loop-headers :
      (hs : Headers) (z : ℤ) (buf : List ℕ) (fuel : ℕ)
      → IsHeaders hs last body
      → length buf ≡ buf_size
      → count hs ≤ fuel
      → let s = length_loop fuel (record { content_length = z; got = current hs buf }) in
        (s.content_length ≡ declared hs z) × (s.got.rest ≡ body)
  unfolding length_loop declared
  length_loop-headers end z buf zero v b h = absurd (omega arith)
  length_loop-headers (header l e hs) z buf zero v b h = absurd (omega arith)
  length_loop-headers end z buf (suc fuel) v b h = rw (more_headers-empty buf body) (refl, refl)
  length_loop-headers (header l e hs) z buf (suc fuel) v b h =
      rw (more_headers-header l buf (header_bytes hs last body) v.0 v.1) (
        rw (round l e hs z buf v b) (
          length_loop-headers hs (if is_length l then length_value l else z) (cut l buf hs) fuel v.4
            (length-cut l e hs buf v b) (omega arith)))

-- Of a block of headers with its empty line, each a line of plain bytes that is not empty and
-- shorter than 1023 bytes, where no line feed follows a carriage return that ends a line,
-- `execute_cgi` takes the number of the last Content-Length as the int that `atoi` of glibc makes
-- of it, or -1 if there is none, and leaves the socket at the body.
pub read_length-headers :
    (hs : Headers) (last : Ending) (body junk : List ℕ)
    → IsHeaders hs last body
    → length junk ≡ buf_size
    → let s = read_length junk (header_bytes hs last body) in
      (s.content_length ≡ declared hs (negsuc 0)) × (s.got.rest ≡ body)
unfolding read_length
read_length-headers hs last body junk v b =
    rw (get_line-current last body hs (start_buf junk) v (length-start_buf junk ∙ b)) (
      length_loop-headers last body hs (negsuc 0) (start_buf junk)
        (length (header_bytes hs last body) + 1) v (length-start_buf junk ∙ b)
        (omega (arith, count-le hs last body)))
