-- ===== src/Bytes/Parcel.antt =====
-- The two kinds of packet of bytebuffer/mangosByteBuffer/NetDefine.h, and what stands in each.
use linux_study_notes.Bytes.Message.{Message, message_bytes, FitsMessage}
use linux_study_notes.Bytes.Value.Word.{IsInt}
use linux_study_notes.Bytes.Value.{to_bytes, to_bits}
use linux_study_notes.Libc.Int.{ℤ}
use linux_study_notes.Libc.{NoNul, c_str, c_str_all}
use linux_study_notes.Prelude.{
  ℕ, ◌-◌, ◌<◌, ◌≡◌, ap, ◌∙◌, List, ◌++◌, length, take, take_all, replicate, arith,
}

-- `NetPacket_Test_POD` as its index and the C string in its array, and the serialized message.
pub data Parcel : Type 0 where
  plain : ℤ → List ℕ → Parcel
  message : Message → Parcel

-- `strncpy(array, text, size)`, which fills up with NULs
unfoldable pub strncpy : ℕ → List ℕ → List ℕ
unfolding c_str
strncpy size text = take size (c_str text) ++ replicate (size - length (c_str text)) 0

-- The object representation of `NetPacket_Test_POD`: an `int` and 512 characters.
unfoldable pub pod_bytes : ℤ → List ℕ → List ℕ
unfolding strncpy
pod_bytes index text = to_bytes 4 (to_bits 4 index) ++ strncpy 512 text

abbrev pub body : Parcel → List ℕ
body (plain index text) = pod_bytes index text
body (message m) = message_bytes m

-- `NET_TEST_POD` and `NET_TEST_SERIALIZE`
abbrev pub opcode : Parcel → ℕ
opcode (plain index text) = 1
opcode (message m) = 2

-- The index is an `int`, and the text a C string that leaves room for its NUL.
abbrev pub FitsParcel : Parcel → Type 0
FitsParcel (plain index text) = IsInt 4 index × NoNul text × (length text < 512)
FitsParcel (message m) = FitsMessage m

pub strncpy_fits :
    (text : List ℕ)
    → NoNul text
    → length text < 512
    → strncpy 512 text ≡ text ++ replicate (512 - length text) 0
unfolding strncpy
strncpy_fits text n h =
    ap (λ t. take 512 t ++ replicate (512 - length t) 0) (c_str_all text n)
    ∙ ap (λ t. t ++ replicate (512 - length text) 0) (take_all 512 text (omega arith))
