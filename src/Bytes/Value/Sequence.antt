-- ===== src/Bytes/Value/Sequence.antt =====
-- Vectors in bytebuffer/mangosByteBuffer/ByteBuffer.h, of any type whose operators agree.
use native.Mathlib.Nat.{mod-eq_of_lt}
use linux_study_notes.Bytes.Buffer.Fifo.{IsValid, Adds, pending}
use linux_study_notes.Bytes.Buffer.{limit, Access, stops, gives, ◌>>=◌, ByteBuffer, size}
use linux_study_notes.Bytes.Value.Stored.{Takes, IsStreamed, Adds-bind, Takes-bind, word-IsStreamed}
use linux_study_notes.Bytes.Value.{
  byte_range, to_bytes, write_word, read_word, Streamed, write_each, write_vector, read_each,
  read_vector,
}
use linux_study_notes.Prelude.{
  ℕ, ◌+◌, ◌<◌, ◌≡◌, sym, ap, ◌∙◌, List, [], ◌∷◌, ◌++◌, append-nil, append_assoc, arith, length,
  length-append,
}

abbrev pub encode_all : {A : Type 0} → (A → List ℕ) → List A → List ℕ
encode_all encode [] = []
encode_all encode (v ∷ vs) = encode v ++ encode_all encode vs

abbrev pub AllFit : {A : Type 0} → (A → Type 0) → List A → Type 0
AllFit Fits [] = Unit
AllFit Fits (v ∷ vs) = Fits v × AllFit Fits vs

-- The number of elements in four bytes, and the elements.
abbrev pub vector_bytes : {A : Type 0} → (A → List ℕ) → List A → List ℕ
vector_bytes encode vs = to_bytes 4 (length vs) ++ encode_all encode vs

module _ {A : Type 0} (t : Streamed A) (encode : A → List ℕ) (Fits : A → Type 0)
    (law : IsStreamed t encode Fits) where
  write_each-Adds :
      (vs : List A) (b : ByteBuffer)
      → AllFit Fits vs
      → IsValid b
      → size b + length (encode_all encode vs) < limit
      → Adds (encode_all encode vs) b (write_each t vs b)
  unfolding write_each
  write_each-Adds [] b fit v room = record {
    valid = v;
    queue = sym (append-nil (pending b));
    longer = omega arith;
  }
  write_each-Adds (x ∷ vs) b fit v room =
      let len = length-append (encode x) (encode_all encode vs) in
      Adds-bind (encode x) (encode_all encode vs) b (t.write x b) (write_each t vs)
        (law.writes x b fit.0 v (omega arith))
        λ b' added. write_each-Adds vs b' fit.1 added.valid (omega (arith, added.longer))

  read_each-Takes :
      (vs got : List A) (rest : List ℕ) (b : ByteBuffer)
      → AllFit Fits vs
      → IsValid b
      → pending b ≡ encode_all encode vs ++ rest
      → Takes (got ++ vs) rest (read_each t (length vs) got b)
  unfolding read_each
  read_each-Takes [] got rest b fit v e = (sym (append-nil got), v, e)
  read_each-Takes (x ∷ vs) got rest b fit v e =
      Takes-bind x (got ++ x ∷ vs) (encode_all encode vs ++ rest) rest (t.read b) _
        (law.reads x (encode_all encode vs ++ rest) b fit.0 v
          (e ∙ append_assoc (encode x) (encode_all encode vs) rest))
        λ b' v' e'.
          rw (← append_assoc got (x ∷ []) vs)
            (read_each-Takes vs (got ++ x ∷ []) rest b' fit.1 v' e')

  -- A vector of elements whose operators agree is read back with its elements in order, if their
  -- number fits into a `uint32`.
  pub vector-IsStreamed :
      IsStreamed
        (record { write = write_vector t; read = read_vector t })
        (vector_bytes encode)
        (λ vs. (length vs < byte_range 4) × AllFit Fits vs)
  unfolding write_vector read_vector
  vector-IsStreamed = record {
    writes = λ vs b fits v room.
        let len = length-append (to_bytes 4 (length vs)) (encode_all encode vs) in
        rw (mod-eq_of_lt (fits.0)) (
          Adds-bind (to_bytes 4 (length vs)) (encode_all encode vs) b (write_word 4 (length vs) b)
            (write_each t vs) ((word-IsStreamed 4).writes (length vs) b fits.0 v (omega arith))
            λ b' added. write_each-Adds vs b' fits.1 added.valid (omega (arith, added.longer)));
    reads = λ vs rest b fits v e.
        Takes-bind (length vs) vs (encode_all encode vs ++ rest) rest (read_word 4 b) _
          ((word-IsStreamed 4).reads (length vs) (encode_all encode vs ++ rest) b fits.0 v
            (e ∙ append_assoc (to_bytes 4 (length vs)) (encode_all encode vs) rest))
          λ b' v' e'. read_each-Takes vs [] rest b' fits.1 v' e';
  }

  -- What is written to a valid buffer with nothing left to read is the next thing that is read, and
  -- nothing is left behind it.
  pub write_then_read :
      (a : A) (b : ByteBuffer)
      → Fits a
      → IsValid b
      → pending b ≡ []
      → size b + length (encode a) < limit
      → Takes a [] (t.write a b >>= t.read)
  write_then_read a b fits v none_left room = after (t.write a b) (law.writes a b fits v room)
    where
      after : (m : Access ByteBuffer) → Adds (encode a) b m → Takes a [] (m >>= t.read)
      after (gives b') added =
          law.reads a [] b' fits added.valid
            (added.queue ∙ ap (λ l. l ++ encode a) none_left ∙ sym (append-nil (encode a)))
      after (stops s) added = elim added [ ]
