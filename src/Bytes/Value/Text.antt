-- ===== src/Bytes/Value/Text.antt =====
-- Strings and truth values through the operators of bytebuffer/mangosByteBuffer/ByteBuffer.h.
use linux_study_notes.Bytes.Buffer.Fifo.{IsValid, pending}
use linux_study_notes.Bytes.Buffer.{ByteBuffer, size, append, read}
use linux_study_notes.Bytes.Value.Stored.{
  Takes, IsStreamed, Adds-bind, Takes-bind, read-front, add_bytes,
}
use linux_study_notes.Bytes.Value.{
  from_bytes, write_bool, read_bool, write_string, string_loop, read_string,
}
use linux_study_notes.Libc.{NoNul}
use linux_study_notes.Prelude.{
  ℕ, zero, suc, ◌-◌, ◌<◌, ◌≡◌, refl, sym, ap, ◌∙◌, List, [], ◌∷◌, ◌++◌, append-nil, append_assoc,
  if◌then◌else◌, arith, length, length-append, length-drop, lt→ltb, Bool-cases, inl, inr,
}

one_byte : (c : ℕ) → from_bytes (c ∷ []) ≡ c
unfolding from_bytes
one_byte c = omega arith

string_loop-Takes :
    (s value rest : List ℕ) (b : ByteBuffer) (fuel : ℕ)
    → NoNul s
    → IsValid b
    → pending b ≡ s ++ 0 ∷ rest
    → length s < fuel
    → Takes (value ++ s) rest (string_loop fuel value b)
unfolding string_loop
string_loop-Takes s value rest b zero n v e h = absurd (omega arith)
string_loop-Takes [] value rest b (suc fuel) n v e h =
    let more : b.read_pos < size b = omega (arith, ap length e, length-drop b.read_pos b.storage) in
    rw (lt→ltb b.read_pos (size b) more) (
      Takes-bind (0 ∷ []) (value ++ []) rest rest (read 1 b) _
        (read-front (0 ∷ []) rest 1 b refl v e)
        λ b' v' e'. rw (one_byte 0) (sym (append-nil value), v', e'))
string_loop-Takes (c ∷ s) value rest b (suc fuel) n v e h =
    let more : b.read_pos < size b = omega (arith, ap length e, length-drop b.read_pos b.storage) in
    rw (lt→ltb b.read_pos (size b) more) (
      Takes-bind (c ∷ []) (value ++ c ∷ s) (s ++ 0 ∷ rest) rest (read 1 b) _
        (read-front (c ∷ []) (s ++ 0 ∷ rest) 1 b refl v e)
        λ b' v' e'. rw (one_byte c) (
          rw (n.0) (
            rw (← append_assoc value (c ∷ []) s)
              (string_loop-Takes s (value ++ c ∷ []) rest b' fuel n.1 v' e' (omega arith)))))

-- A string with no NUL in it is read back, with the NUL behind it taken; its length is not bounded
-- but by the buffer.
pub string-IsStreamed :
    IsStreamed (record { write = write_string; read = read_string }) (λ s. s ++ 0 ∷ []) NoNul
unfolding write_string read_string
string-IsStreamed = record {
  writes = λ s b n v room.
      let len = length-append s (0 ∷ []) in
      Adds-bind s (0 ∷ []) b (append s b) (append (0 ∷ [])) (add_bytes s b v (omega arith))
        λ b' added. add_bytes (0 ∷ []) b' added.valid (omega (arith, added.longer));
  reads = λ s rest b n v e.
      let split : pending b ≡ s ++ 0 ∷ rest = e ∙ append_assoc s (0 ∷ []) rest in
      string_loop-Takes s [] rest b (size b - b.read_pos) n v split (
        omega
          (arith, ap length split, length-append s (0 ∷ rest), length-drop b.read_pos b.storage));
}

-- Both truth values are read back from the byte that stands for them.
pub bool-IsStreamed :
    IsStreamed
      (record { write = write_bool; read = read_bool })
      (λ t. (if t then 1 else 0) ∷ [])
      (λ _. Unit)
unfolding write_bool read_bool from_bytes
bool-IsStreamed = record {
  writes = λ t b n v room. add_bytes ((if t then 1 else 0) ∷ []) b v room;
  reads = λ t rest b n v e.
      let bytes = (if t then 1 else 0) ∷ [] in
      Takes-bind bytes t rest rest (read 1 b) _ (read-front bytes rest 1 b refl v e)
        λ b' v' e'. (elim (Bool-cases t) [ inl on ↦ rw on refl | inr off ↦ rw off refl ], v', e');
}
