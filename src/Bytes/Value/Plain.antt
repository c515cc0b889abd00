-- ===== src/Bytes/Value/Plain.antt =====
-- The operators of bytebuffer/mangosByteBuffer/ByteBuffer.h for floating numbers and times, the
-- other constructors, and the operations that leave the bytes alone.
use linux_study_notes.Bytes.Buffer.Fifo.{IsValid, pending}
use linux_study_notes.Bytes.Buffer.{Access, gives, ◌>>=◌, ByteBuffer, append}
use linux_study_notes.Bytes.Value.Stored.{
  Takes, IsStreamed, word-IsStreamed, signed-IsStreamed, Takes-bind,
}
use linux_study_notes.Bytes.Value.Word.{IsInt}
use linux_study_notes.Bytes.Value.{
  byte_range, to_bytes, to_bits, write_word, read_word, write_int, read_int,
}
use linux_study_notes.Libc.Int.{ℤ}
use linux_study_notes.Prelude.{ℕ, ◌<◌, ◌≡◌, refl, List, [], ◌++◌, take}

-- A `float` and a `double` by the bits that represent them.
unfoldable pub write_float : ℕ → ByteBuffer → Access ByteBuffer
unfolding write_word
write_float bits b = write_word 4 bits b

unfoldable pub read_float : ByteBuffer → Access (ℕ × ByteBuffer)
unfolding read_word
read_float b = read_word 4 b

unfoldable pub write_double : ℕ → ByteBuffer → Access ByteBuffer
unfolding write_word
write_double bits b = write_word 8 bits b

unfoldable pub read_double : ByteBuffer → Access (ℕ × ByteBuffer)
unfolding read_word
read_double b = read_word 8 b

-- A `time_t` has 4 bytes where a `size_t` has.
unfoldable pub write_time : ℤ → ByteBuffer → Access ByteBuffer
unfolding write_int
write_time value b = write_int 4 value b

-- `operator>>(time_t value)`: the argument is a copy, so the caller's variable keeps its `old`
-- value.
unfoldable pub read_time : ℤ → ByteBuffer → Access (ℤ × ByteBuffer)
unfolding read_int
read_time old b = read_int 4 b >>= λ r. gives (old, r.1)

-- `ByteBuffer(size_t)` and `reserve` change the capacity only, and the copy has the members of the
-- original.
unfoldable pub buffer_of : ℕ → ByteBuffer
buffer_of res = record { storage = []; read_pos = 0; write_pos = 0 }

unfoldable pub copy_of : ByteBuffer → ByteBuffer
copy_of buf = record { storage = buf.storage; read_pos = buf.read_pos; write_pos = buf.write_pos }

unfoldable pub reserve : ℕ → ByteBuffer → ByteBuffer
reserve n b = b

-- `rpos()` and `wpos()`
unfoldable pub rpos : ByteBuffer → ℕ
rpos b = b.read_pos

unfoldable pub wpos : ByteBuffer → ℕ
wpos b = b.write_pos

-- `append(const char *, size_t)`: the first `cnt` bytes at the pointer.
unfoldable pub append_chars : List ℕ → ℕ → ByteBuffer → Access ByteBuffer
unfolding append
append_chars src cnt b = append (take cnt src) b

-- A floating number comes back with the bits that it had.
pub float-IsStreamed :
    IsStreamed
      (record { write = write_float; read = read_float })
      (to_bytes 4)
      (λ bits. bits < byte_range 4)
unfolding write_float read_float
float-IsStreamed = word-IsStreamed 4

pub double-IsStreamed :
    IsStreamed
      (record { write = write_double; read = read_double })
      (to_bytes 8)
      (λ bits. bits < byte_range 8)
unfolding write_double read_double
double-IsStreamed = word-IsStreamed 8

-- Where a time was written, reading it takes its bytes, and the variable keeps what it had.
pub read_time-Takes :
    (time old : ℤ) (rest : List ℕ) (b : ByteBuffer)
    → IsInt 4 time
    → IsValid b
    → pending b ≡ to_bytes 4 (to_bits 4 time) ++ rest
    → Takes old rest (read_time old b)
unfolding read_time
read_time-Takes time old rest b fits v e =
    Takes-bind time old rest rest (read_int 4 b) (λ r. gives (old, r.1))
      ((signed-IsStreamed 4).reads time rest b fits v e) λ b' v' e'. (refl, v', e')
