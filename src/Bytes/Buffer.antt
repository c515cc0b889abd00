-- ===== src/Bytes/Buffer.antt =====
-- The storage and the two positions of bytebuffer/mangosByteBuffer/ByteBuffer.h.
pub mod Fifo
pub mod Put
use linux_study_notes.Prelude.{
  ℕ, ◌+◌, ◌-◌, ◌^◌, ◌%◌, Bool, not, List, [], ◌++◌, ltb, leb, ◌==◌, if◌then◌else◌, length, take,
  drop, replicate,
}

-- `size_t`: the programs in the directory are built for 32 bits.
abbrev pub size_range : ℕ
size_range = 2 ^ 32

-- the bound in the assertion of `append`
abbrev pub limit : ℕ
limit = 10000000

-- An assertion that fails, or an access outside the storage that none catches.
pub data Stop : Type 0 where
  asserts outside : Stop

pub data Access {ℓ} (A : Type ℓ) : Type ℓ where
  stops : Stop → Access A
  gives : A → Access A

infixl 5 ◌>>=◌
abbrev pub ◌>>=◌ {ℓ κ} : {A : Type ℓ} {B : Type κ} → Access A → (A → Access B) → Access B
stops s >>= then_do = stops s
gives x >>= then_do = then_do x

pub record ByteBuffer : Type 0 where
  pub storage : List ℕ
  pub read_pos : ℕ
  pub write_pos : ℕ

abbrev pub size : ByteBuffer → ℕ
size b = length b.storage

abbrev pub empty_buffer : ByteBuffer
empty_buffer = record { storage = []; read_pos = 0; write_pos = 0 }

unfoldable pub clear : ByteBuffer → ByteBuffer
clear b = record { storage = []; read_pos = 0; write_pos = 0 }

-- `std::vector::resize`: cut, or filled up with zeros
abbrev pub resized : ℕ → List ℕ → List ℕ
resized n bytes = take n bytes ++ replicate (n - length bytes) 0

unfoldable pub resize : ℕ → ByteBuffer → ByteBuffer
resize n b =
    let bytes = resized n b.storage in
    record { storage = bytes; read_pos = 0; write_pos = length bytes }

-- The condition of the assertions, with the sum of a `size_t`.
abbrev pub in_size : ℕ → ℕ → ByteBuffer → Bool
in_size pos cnt b = leb ((pos + cnt) % size_range) (size b)

-- `memcpy(&mStorage[pos], src, cnt)`
abbrev pub store : ℕ → List ℕ → ByteBuffer → Access ByteBuffer
store pos src b =
    if leb (pos + length src) (size b)
    then gives
        (record b { storage = take pos b.storage ++ (src ++ drop (pos + length src) b.storage) })
    else stops outside

unfoldable pub put : ℕ → List ℕ → ByteBuffer → Access ByteBuffer
put pos src b = if in_size pos (length src) b then store pos src b else stops asserts

-- The storage of `append` after its own call of `resize`.
abbrev pub grown : ℕ → List ℕ → List ℕ
grown n bytes = if ltb (length bytes) n then resized n bytes else bytes

unfoldable pub append : List ℕ → ByteBuffer → Access ByteBuffer
append src b =
    let last = (b.write_pos + length src) % size_range in
    let stored = store b.write_pos src (record b { storage = grown last b.storage }) in
    if length src == 0
    then gives b
    else if not (ltb (size b) limit)
    then stops asserts
    else stored >>= λ b'. gives (record b' { write_pos = last })

-- `append(buffer)` for another buffer: `size()` bytes from `contents()` on.
unfoldable pub append_buffer : ByteBuffer → ByteBuffer → Access ByteBuffer
append_buffer other b =
    if size other == 0
    then gives b
    else if leb (other.read_pos + size other) (size other)
    then append (take (size other) (drop other.read_pos other.storage)) b
    else stops outside

-- `read<T>(pos)`, the bytes of a `T` of `n` bytes.
unfoldable pub read_at : ℕ → ℕ → ByteBuffer → Access (List ℕ)
read_at n pos b =
    if not (in_size pos n b)
    then stops asserts
    else if leb (pos + n) (size b)
    then gives (take n (drop pos b.storage))
    else stops outside

-- `read<T>()`, and `read(dest, len)`
unfoldable pub read : ℕ → ByteBuffer → Access (List ℕ × ByteBuffer)
read n b = read_at n b.read_pos b >>= λ bytes.
    gives (bytes, record b { read_pos = (b.read_pos + n) % size_range })
