-- ===== src/Bytes/Value.antt =====
-- The operators `<<` and `>>` of bytebuffer/mangosByteBuffer/ByteBuffer.h: numbers, strings,
-- vectors.
pub mod Word
pub mod Stored
pub mod Text
pub mod Sequence
pub mod More
pub mod Plain
pub mod Map
use linux_study_notes.Bytes.Buffer.{Access, gives, ◌>>=◌, ByteBuffer, size, append, read}
use linux_study_notes.Libc.Int.{ℤ, pos, negsuc}
use linux_study_notes.Prelude.{
  ℕ, zero, suc, ◌+◌, ◌-◌, ◌*◌, ◌/◌, ◌%◌, Bool, List, [], ◌∷◌, ◌++◌, ltb, ◌==◌, ◌&&◌, if◌then◌else◌,
  length,
}

-- How many values `w` bytes have.
unfoldable pub byte_range : ℕ → ℕ
byte_range zero = 1
byte_range (suc w) = 256 * byte_range w

-- The object representation: the lowest byte first.
unfoldable pub to_bytes : ℕ → ℕ → List ℕ
to_bytes zero x = []
to_bytes (suc w) x = x % 256 ∷ to_bytes w (x / 256)

unfoldable pub from_bytes : List ℕ → ℕ
from_bytes [] = 0
from_bytes (c ∷ cs) = c + 256 * from_bytes cs

-- Two's complement in `w` bytes.
unfoldable pub to_bits : ℕ → ℤ → ℕ
to_bits w (pos n) = n % byte_range w
to_bits w (negsuc n) = byte_range w - 1 - n % byte_range w

unfoldable pub from_bits : ℕ → ℕ → ℤ
from_bits w u = if ltb (2 * u) (byte_range w) then pos u else negsuc (byte_range w - 1 - u)

-- `operator<<` and `operator>>` for an unsigned type of `w` bytes.
unfoldable pub write_word : ℕ → ℕ → ByteBuffer → Access ByteBuffer
write_word w x b = append (to_bytes w x) b

unfoldable pub read_word : ℕ → ByteBuffer → Access (ℕ × ByteBuffer)
read_word w b = read w b >>= λ r. gives (from_bytes r.0, r.1)

-- ... and for a signed one.
unfoldable pub write_int : ℕ → ℤ → ByteBuffer → Access ByteBuffer
write_int w z b = append (to_bytes w (to_bits w z)) b

unfoldable pub read_int : ℕ → ByteBuffer → Access (ℤ × ByteBuffer)
read_int w b = read w b >>= λ r. gives (from_bits w (from_bytes r.0), r.1)

-- `(char)value`, and `read<char>() > 0` for a signed `char`.
unfoldable pub write_bool : Bool → ByteBuffer → Access ByteBuffer
write_bool value b = append ((if value then 1 else 0) ∷ []) b

unfoldable pub read_bool : ByteBuffer → Access (Bool × ByteBuffer)
read_bool b = read 1 b >>= λ r. let c = from_bytes r.0 in gives (ltb 0 c && ltb c 128, r.1)

-- The bytes of a string, and a NUL.
unfoldable pub write_string : List ℕ → ByteBuffer → Access ByteBuffer
write_string value b = append value b >>= λ b'. append (0 ∷ []) b'

-- `while (rpos() < size())`: each round reads a byte, so `fuel` rounds are enough if it is the
-- number of bytes that are left.
unfoldable pub string_loop : ℕ → List ℕ → ByteBuffer → Access (List ℕ × ByteBuffer)
string_loop zero value b = gives (value, b)
string_loop (suc fuel) value b =
    let more = λ (r : List ℕ × ByteBuffer). string_loop fuel (value ++ from_bytes r.0 ∷ []) r.1 in
    if ltb b.read_pos (size b)
    then (read 1 b >>= λ r. if from_bytes r.0 == 0 then gives (value, r.1) else more r)
    else gives (value, b)

unfoldable pub read_string : ByteBuffer → Access (List ℕ × ByteBuffer)
read_string b = string_loop (size b - b.read_pos) [] b

-- A type with its two operators.
pub record Streamed (A : Type 0) : Type 0 where
  pub write : A → ByteBuffer → Access ByteBuffer
  pub read : ByteBuffer → Access (A × ByteBuffer)

-- `<<` for a vector: the number of its elements as a `uint32`, and each of them.
unfoldable pub write_each : {A : Type 0} → Streamed A → List A → ByteBuffer → Access ByteBuffer
write_each t [] b = gives b
write_each t (v ∷ vs) b = t.write v b >>= λ b'. write_each t vs b'

unfoldable pub write_vector : {A : Type 0} → Streamed A → List A → ByteBuffer → Access ByteBuffer
write_vector t vs b = write_word 4 (length vs % byte_range 4) b >>= λ b'. write_each t vs b'

-- `while (vsize--)`, with `push_back`.
unfoldable pub read_each :
    {A : Type 0} → Streamed A → ℕ → List A → ByteBuffer → Access (List A × ByteBuffer)
read_each t zero vs b = gives (vs, b)
read_each t (suc n) vs b = t.read b >>= λ r. read_each t n (vs ++ r.0 ∷ []) r.1

unfoldable pub read_vector : {A : Type 0} → Streamed A → ByteBuffer → Access (List A × ByteBuffer)
read_vector t b = read_word 4 b >>= λ r. read_each t r.0 [] r.1
