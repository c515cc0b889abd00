-- ===== src/Bytes/Value/Word.antt =====
-- Numbers as bytes and back, for the operators of bytebuffer/mangosByteBuffer/ByteBuffer.h.
use native.Mathlib.Nat.{mod-eq_of_lt}
use linux_study_notes.Bytes.Value.{byte_range, to_bytes, from_bytes, to_bits, from_bits}
use linux_study_notes.Libc.Int.{ℤ, pos, negsuc}
use linux_study_notes.Prelude.{
  ℕ, zero, suc, ◌+◌, ◌-◌, ◌*◌, ◌/◌, ◌<◌, ◌≡◌, refl, arith, length, lt→ltb, le→not_ltb,
}

pub length-to_bytes : (w x : ℕ) → length (to_bytes w x) ≡ w
unfolding to_bytes
length-to_bytes zero x = refl
length-to_bytes (suc w) x = omega (arith, length-to_bytes w (x / 256))

-- A number that `w` bytes can hold is read back from its bytes.
pub from_bytes-to_bytes : (w x : ℕ) → x < byte_range w → from_bytes (to_bytes w x) ≡ x
unfolding from_bytes to_bytes byte_range
from_bytes-to_bytes zero x h = omega arith
from_bytes-to_bytes (suc w) x h = omega (arith, from_bytes-to_bytes w (x / 256) (omega arith))

-- The values of a signed type of `w` bytes.
abbrev pub IsInt : ℕ → ℤ → Type 0
IsInt w (pos n) = 2 * n < byte_range w
IsInt w (negsuc n) = 2 * n + 1 < byte_range w

pub to_bits-bound : (w : ℕ) (z : ℤ) → IsInt w z → to_bits w z < byte_range w
unfolding to_bits
to_bits-bound w (pos n) h =
    let small : n < byte_range w = omega arith in rw (mod-eq_of_lt small) small
to_bits-bound w (negsuc n) h = omega arith

-- A signed number comes back from its two's complement.
pub from_bits-to_bits : (w : ℕ) (z : ℤ) → IsInt w z → from_bits w (to_bits w z) ≡ z
unfolding from_bits to_bits
from_bits-to_bits w (pos n) h =
    let small : n < byte_range w = omega arith in
    rw (mod-eq_of_lt small) (rw (lt→ltb (2 * n) (byte_range w) h) refl)
from_bits-to_bits w (negsuc n) h =
    let small : n < byte_range w = omega arith in
    let back : byte_range w - 1 - (byte_range w - 1 - n) ≡ n = omega arith in
    rw (mod-eq_of_lt small)
      (rw (le→not_ltb (2 * (byte_range w - 1 - n)) (byte_range w) (omega arith)) (rw back refl))
