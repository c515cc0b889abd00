-- ===== src/Bytes/Value/More.antt =====
-- The other operations of bytebuffer/mangosByteBuffer/ByteBuffer.h: C strings, positions, lists,
-- maps.
use linux_study_notes.Bytes.Buffer.{
  Access, stops, outside, gives, ◌>>=◌, ByteBuffer, size, append, read_at, put,
}
use linux_study_notes.Bytes.Value.{
  byte_range, to_bytes, from_bytes, write_word, read_word, Streamed, write_each, read_string,
}
use linux_study_notes.Libc.{c_str}
use linux_study_notes.Prelude.{
  ℕ, zero, suc, ◌%◌, Bool, List, [], ◌∷◌, ◌++◌, Option, none, some, leb, ◌==◌, if◌then◌else◌,
  length, drop,
}

-- `operator<<(const char*)`: a null pointer is written as the empty string.
unfoldable pub write_text : Option (List ℕ) → ByteBuffer → Access ByteBuffer
write_text none b = append [] b >>= λ b'. append (0 ∷ []) b'
write_text (some str) b = append (c_str str) b >>= λ b'. append (0 ∷ []) b'

-- `operator>>(char value[])`: the same loop as for a string, and a `strncpy` of exactly its bytes,
-- so that no NUL is put behind them.
unfoldable pub read_text : List ℕ → ByteBuffer → Access (List ℕ × ByteBuffer)
read_text dest b = read_string b >>= λ r.
    let copied = c_str r.0 in
    if leb (length copied) (length dest)
    then gives (copied ++ drop (length copied) dest, r.1)
    else stops outside

-- `append(const std::string&)`, with its NUL
unfoldable pub append_string : List ℕ → ByteBuffer → Access ByteBuffer
append_string str b = append (str ++ 0 ∷ []) b

-- `put<T>`, for an unsigned value of `w` bytes
unfoldable pub put_word : ℕ → ℕ → ℕ → ByteBuffer → Access ByteBuffer
put_word w pos x b = put pos (to_bytes w x) b

-- `operator[]`
unfoldable pub byte_at : ℕ → ByteBuffer → Access ℕ
byte_at pos b = read_at 1 pos b >>= λ bytes. gives (from_bytes bytes)

-- `rpos(size_t)` and `wpos(size_t)`, with no test
unfoldable pub set_read_pos : ℕ → ByteBuffer → ByteBuffer
set_read_pos pos b = record b { read_pos = pos }

unfoldable pub set_write_pos : ℕ → ByteBuffer → ByteBuffer
set_write_pos pos b = record b { write_pos = pos }

unfoldable pub is_empty : ByteBuffer → Bool
is_empty b = size b == 0

-- The operators for a list.
unfoldable pub write_list : {A : Type 0} → Streamed A → List A → ByteBuffer → Access ByteBuffer
write_list t vs b = write_word 4 (length vs % byte_range 4) b >>= λ b'. write_each t vs b'

unfoldable pub list_loop :
    {A : Type 0} → Streamed A → ℕ → List A → ByteBuffer → Access (List A × ByteBuffer)
list_loop t zero vs b = gives (vs, b)
list_loop t (suc n) vs b = t.read b >>= λ r. list_loop t n (vs ++ r.0 ∷ []) r.1

unfoldable pub read_list : {A : Type 0} → Streamed A → ByteBuffer → Access (List A × ByteBuffer)
read_list t b = read_word 4 b >>= λ r. list_loop t r.0 [] r.1

-- `std::map::insert`, for a map as the list of its pairs in the order of their keys: a key that is
-- there keeps its value.
unfoldable pub insert : {K V : Type 0} → (K → K → Bool) → K → V → List (K × V) → List (K × V)
insert less k v [] = (k, v) ∷ []
insert less k v ((k', v') ∷ m) =
    let behind = insert less k v m in
    if less k k'
    then (k, v) ∷ (k', v') ∷ m
    else if less k' k
    then (k', v') ∷ behind
    else (k', v') ∷ m

unfoldable pub write_pairs :
    {K V : Type 0} → Streamed K → Streamed V → List (K × V) → ByteBuffer → Access ByteBuffer
write_pairs key value [] b = gives b
write_pairs key value ((k, v) ∷ m) b =
    key.write k b >>= λ b'. value.write v b' >>= λ b''. write_pairs key value m b''

unfoldable pub write_map :
    {K V : Type 0} → Streamed K → Streamed V → List (K × V) → ByteBuffer → Access ByteBuffer
write_map key value m b =
    write_word 4 (length m % byte_range 4) b >>= λ b'. write_pairs key value m b'

unfoldable pub map_loop :
    {K V : Type 0}
    → (K → K → Bool)
    → Streamed K
    → Streamed V
    → ℕ
    → List (K × V)
    → ByteBuffer
    → Access (List (K × V) × ByteBuffer)
map_loop less key value zero m b = gives (m, b)
map_loop less key value (suc n) m b = key.read b >>= λ k.
    value.read k.1 >>= λ v. map_loop less key value n (insert less k.0 v.0 m) v.1

unfoldable pub read_map :
    {K V : Type 0}
    → (K → K → Bool)
    → Streamed K
    → Streamed V
    → ByteBuffer
    → Access (List (K × V) × ByteBuffer)
read_map less key value b = read_word 4 b >>= λ r. map_loop less key value r.0 [] r.1
