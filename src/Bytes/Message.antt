-- ===== src/Bytes/Message.antt =====
-- The serialized message of bytebuffer/mangosByteBuffer/NetDefine.h.
use linux_study_notes.Bytes.Buffer.{Access, gives, ◌>>=◌, ByteBuffer}
use linux_study_notes.Bytes.Value.Stored.{IsStreamed, Adds-bind, Takes-bind, signed-IsStreamed}
use linux_study_notes.Bytes.Value.Text.{string-IsStreamed}
use linux_study_notes.Bytes.Value.Word.{IsInt}
use linux_study_notes.Bytes.Value.{
  to_bytes, to_bits, write_int, read_int, write_string, read_string,
}
use linux_study_notes.Libc.Int.{ℤ}
use linux_study_notes.Libc.{NoNul}
use linux_study_notes.Prelude.{
  ℕ, refl, ◌∙◌, List, [], ◌∷◌, ◌++◌, append_assoc, arith, length-append,
}

-- `NetPacket_Test_Serialize`
pub record Message : Type 0 where
  pub index : ℤ
  pub message : List ℕ

unfoldable pub write_message : Message → ByteBuffer → Access ByteBuffer
write_message m b = write_int 4 m.index b >>= write_string m.message

unfoldable pub read_message : ByteBuffer → Access (Message × ByteBuffer)
read_message b = read_int 4 b >>= λ i.
    read_string i.1 >>= λ s. gives (record { index = i.0; message = s.0 }, s.1)

abbrev pub message_bytes : Message → List ℕ
message_bytes m = to_bytes 4 (to_bits 4 m.index) ++ (m.message ++ 0 ∷ [])

-- The index is an `int`, and the text a C string.
abbrev pub FitsMessage : Message → Type 0
FitsMessage m = IsInt 4 m.index × NoNul m.message

-- The two macros agree: an index that is an int and a C string are added to every valid buffer that
-- stays below 10,000,000 bytes with them, and read back from the front of every valid buffer, where
-- the bytes behind them stay.
pub message-IsStreamed :
    IsStreamed (record { write = write_message; read = read_message }) message_bytes FitsMessage
unfolding write_message read_message
message-IsStreamed = record {
  writes = λ m b fits v room.
      let int = to_bytes 4 (to_bits 4 m.index) in
      let len = length-append int (m.message ++ 0 ∷ []) in
      Adds-bind int (m.message ++ 0 ∷ []) b (write_int 4 m.index b) (write_string m.message)
        ((signed-IsStreamed 4).writes m.index b fits.0 v (omega arith))
        λ b' added.
          string-IsStreamed.writes m.message b' fits.1 added.valid (omega (arith, added.longer));
  reads = λ m rest b fits v e.
      let int = to_bytes 4 (to_bits 4 m.index) in
      let text = m.message ++ 0 ∷ [] in
      Takes-bind m.index m (text ++ rest) rest (read_int 4 b) _
        ((signed-IsStreamed 4).reads m.index (text ++ rest) b fits.0 v
          (e ∙ append_assoc int text rest))
        λ b' v' e'.
          Takes-bind m.message m rest rest (read_string b') _
            (string-IsStreamed.reads m.message rest b' fits.1 v' e')
            λ b'' v'' e''. (refl, v'', e'');
}
