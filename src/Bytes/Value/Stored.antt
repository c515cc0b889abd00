-- ===== src/Bytes/Value/Stored.antt =====
-- What `>>` must undo of `<<`, for numbers of bytebuffer/mangosByteBuffer/ByteBuffer.h.
use linux_study_notes.Bytes.Buffer.Fifo.{
  IsValid, IsAdded, Adds, pending, append_enqueues, read-gives, read-IsTaken,
}
use linux_study_notes.Bytes.Buffer.{
  limit, Access, stops, gives, ◌>>=◌, ByteBuffer, size, append, read,
}
use linux_study_notes.Bytes.Value.Word.{
  length-to_bytes, from_bytes-to_bytes, IsInt, to_bits-bound, from_bits-to_bits,
}
use linux_study_notes.Bytes.Value.{
  byte_range, to_bytes, to_bits, from_bits, write_word, read_word, write_int, read_int, Streamed,
}
use linux_study_notes.Prelude.{
  ℕ, ◌+◌, ◌≤◌, ◌<◌, ◌≡◌, sym, ap, ◌∙◌, List, ◌++◌, append_assoc, arith, length, take, drop,
  length-append, take-append, drop-append, drop-drop,
}

-- A value read from the front of the queue, with `rest` behind it.
abbrev pub Takes : {A : Type 0} → A → List ℕ → Access (A × ByteBuffer) → Type 0
Takes a rest (gives (a', b')) = (a' ≡ a) × IsValid b' × (pending b' ≡ rest)
Takes a rest (stops s) = ⊥

-- The two operators of a type agree on `encode`, for the values that `Fits` names.
pub record IsStreamed {A : Type 0} (t : Streamed A) (encode : A → List ℕ) (Fits : A → Type 0)
    : Type 0 where
  pub writes :
      (a : A) (b : ByteBuffer)
      → Fits a
      → IsValid b
      → size b + length (encode a) < limit
      → Adds (encode a) b (t.write a b)
  pub reads :
      (a : A) (rest : List ℕ) (b : ByteBuffer)
      → Fits a
      → IsValid b
      → pending b ≡ encode a ++ rest
      → Takes a rest (t.read b)

pub Adds-bind :
    (xs ys : List ℕ) (b : ByteBuffer) (m : Access ByteBuffer) (f : ByteBuffer → Access ByteBuffer)
    → Adds xs b m
    → ((b' : ByteBuffer) → IsAdded xs b b' → Adds ys b' (f b'))
    → Adds (xs ++ ys) b (m >>= f)
Adds-bind xs ys b (gives b') f added more = after (f b') (more b' added)
  where
    after : (r : Access ByteBuffer) → Adds ys b' r → Adds (xs ++ ys) b r
    after (gives b'') more = record {
      valid = more.valid;
      queue = more.queue ∙ ap (λ l. l ++ ys) added.queue ∙ append_assoc (pending b) xs ys;
      longer = omega (arith, more.longer, added.longer, length-append xs ys);
    }
    after (stops s) more = more
Adds-bind xs ys b (stops s) f added more = added

pub Takes-bind :
    {A C : Type 0} (a : A) (c : C) (rest last : List ℕ) (m : Access (A × ByteBuffer))
    (f : A × ByteBuffer → Access (C × ByteBuffer))
    → Takes a rest m
    → ((b' : ByteBuffer) → IsValid b' → pending b' ≡ rest → Takes c last (f (a, b')))
    → Takes c last (m >>= f)
Takes-bind a c rest last (gives (a', b')) f (same, valid, queue) more =
    rw same (more b' valid queue)
Takes-bind a c rest last (stops s) f took more = elim took [ ]

-- A read of what stands at the front.
pub read-front :
    (bytes rest : List ℕ) (n : ℕ) (b : ByteBuffer)
    → length bytes ≡ n
    → IsValid b
    → pending b ≡ bytes ++ rest
    → Takes bytes rest (read n b)
read-front bytes rest n b len v e =
    let enough : n ≤ length (pending b) = omega (arith, ap length e, length-append bytes rest) in
    let front : take n (pending b) ≡ bytes =
      ap (take n) e ∙ ap (λ k. take k (bytes ++ rest)) (sym len) ∙ take-append bytes rest in
    let behind : drop (b.read_pos + n) b.storage ≡ rest =
      sym (drop-drop n b.read_pos b.storage)
      ∙ ap (drop n) e
      ∙ ap (λ k. drop k (bytes ++ rest)) (sym len)
      ∙ drop-append bytes rest in
    rw (read-gives n b v enough) (front, (read-IsTaken n b v enough).valid, behind)

pub add_bytes :
    (bytes : List ℕ) (b : ByteBuffer)
    → IsValid b
    → size b + length bytes < limit
    → Adds bytes b (append bytes b)
add_bytes bytes b v room = append_enqueues bytes b v (omega arith) (omega arith)

-- An unsigned type of `w` bytes: every value that it can hold is written and read back.
pub word-IsStreamed :
    (w : ℕ)
    → IsStreamed
        (record { write = write_word w; read = read_word w })
        (to_bytes w)
        (λ x. x < byte_range w)
unfolding write_word read_word
word-IsStreamed w = record {
  writes = λ x b fits v room. add_bytes (to_bytes w x) b v room;
  reads = λ x rest b fits v e.
      Takes-bind (to_bytes w x) x rest rest (read w b) _
        (read-front (to_bytes w x) rest w b (length-to_bytes w x) v e)
        λ b' v' e'. (from_bytes-to_bytes w x fits, v', e');
}

-- A signed type of `w` bytes, negative values included.
pub signed-IsStreamed :
    (w : ℕ)
    → IsStreamed
        (record { write = write_int w; read = read_int w })
        (λ z. to_bytes w (to_bits w z))
        (IsInt w)
unfolding write_int read_int
signed-IsStreamed w = record {
  writes = λ z b fits v room. add_bytes (to_bytes w (to_bits w z)) b v room;
  reads = λ z rest b fits v e.
      let bytes = to_bytes w (to_bits w z) in
      Takes-bind bytes z rest rest (read w b) _
        (read-front bytes rest w b (length-to_bytes w (to_bits w z)) v e)
        λ b' v' e'. (
          ap (from_bits w) (from_bytes-to_bytes w (to_bits w z) (to_bits-bound w z fits))
              ∙ from_bits-to_bits w z fits,
          v',
          e',
        );
}
