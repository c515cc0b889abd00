-- ===== src/Bytes/Buffer/Fifo.antt =====
-- The buffer of bytebuffer/mangosByteBuffer/ByteBuffer.h as a queue of bytes between two positions.
use linux_study_notes.Bytes.Buffer.{
  size_range, limit, asserts, outside, Access, stops, gives, ByteBuffer, size, resized, store,
  append, read_at, read,
}
use linux_study_notes.Prelude.{
  ℕ, ◌+◌, ◌-◌, ◌%◌, ◌≤◌, ◌<◌, ◌≡◌, refl, sym, ap, ◌∙◌, false, List, [], ◌∷◌, ◌++◌, append-nil, leb,
  ◌==◌, arith, length, take, drop, replicate, length-append, length-take, length-drop,
  length-replicate, take_all, drop_all, drop-drop, Bool-cases, inl, inr, le→leb, lt→ltb, lt→not_leb,
  take-append-drop, take-append, drop-append_le,
}

-- Writing goes on at the end of the storage, and reading has not gone past it.
pub record IsValid (b : ByteBuffer) : Type 0 where
  pub at_end : b.write_pos ≡ size b
  pub read_in : b.read_pos ≤ size b
  pub small : size b < size_range

-- What has been written and not read.
abbrev pub pending : ByteBuffer → List ℕ
pending b = drop b.read_pos b.storage

-- `bytes` have been added behind `b`.
pub record IsAdded (bytes : List ℕ) (b b' : ByteBuffer) : Type 0 where
  pub valid : IsValid b'
  pub queue : pending b' ≡ pending b ++ bytes
  pub longer : size b' ≡ size b + length bytes

abbrev pub Adds : List ℕ → ByteBuffer → Access ByteBuffer → Type 0
Adds bytes b (gives b') = IsAdded bytes b b'
Adds bytes b (stops s) = ⊥

-- `bytes` stood at the front of `b`, and now `b'` is behind them.
pub record IsTaken (bytes : List ℕ) (b b' : ByteBuffer) : Type 0 where
  pub valid : IsValid b'
  pub queue : pending b ≡ bytes ++ pending b'
  pub kept : b'.storage ≡ b.storage

resized-append :
    (xs : List ℕ) (n : ℕ) → length xs ≤ n → resized n xs ≡ xs ++ replicate (n - length xs) 0
resized-append xs n h = rw (take_all n xs h) refl

store-end :
    (xs zs src : List ℕ) (r w : ℕ)
    → length zs ≡ length src
    → store (length xs) src (record { storage = xs ++ zs; read_pos = r; write_pos = w })
      ≡ gives (record { storage = xs ++ src; read_pos = r; write_pos = w })
store-end xs zs src r w e =
    rw (le→leb (length xs + length src) (length (xs ++ zs)) (omega (arith, length-append xs zs))) (
      rw (take-append xs zs) (
        rw (drop_all (length xs + length src) (xs ++ zs) (omega (arith, length-append xs zs)))
          (rw append-nil refl)))

-- `append` on a valid buffer, as one equation.
append-valid :
    (src : List ℕ) (b : ByteBuffer)
    → IsValid b
    → 0 < length src
    → size b < limit
    → size b + length src < size_range
    → append src b
      ≡ gives (record b { storage = b.storage ++ src; write_pos = size b + length src })
unfolding append
append-valid src b v some_src small room =
    let last : (b.write_pos + length src) % size_range ≡ size b + length src =
      rw (v.at_end) (omega arith) in
    let ne : (length src == 0) ≡ false = ground arith in
    rw ne (
      rw (lt→ltb (size b) limit small) (
        rw last (
          rw (lt→ltb (size b) (size b + length src) (omega arith)) (
            rw (resized-append b.storage (size b + length src) (omega arith)) (
              rw (v.at_end) (
                rw
                  (store-end b.storage (replicate (size b + length src - size b) 0) src b.read_pos
                    (size b)
                    (length-replicate {A = ℕ} (size b + length src - size b) 0 ∙ omega arith))
                  refl))))))

appended-IsAdded :
    (src : List ℕ) (b : ByteBuffer)
    → IsValid b
    → size b + length src < size_range
    → IsAdded src b (record b { storage = b.storage ++ src; write_pos = size b + length src })
appended-IsAdded src b v room = record {
  valid = record {
    at_end = sym (length-append b.storage src);
    read_in = omega (arith, v.read_in, length-append b.storage src);
    small = omega (arith, length-append b.storage src);
  };
  queue = drop-append_le b.read_pos b.storage src v.read_in;
  longer = length-append b.storage src;
}

unchanged-IsAdded : (src : List ℕ) (b : ByteBuffer) → IsValid b → length src ≡ 0 → IsAdded src b b
unchanged-IsAdded [] b v e = record {
  valid = v;
  queue = sym (append-nil (pending b));
  longer = omega arith;
}
unchanged-IsAdded (c ∷ src) b v e = absurd (omega arith)

-- On a valid buffer of less than the asserted size, `append` of any bytes for which there is a
-- `size_t` succeeds, keeps the buffer valid, and puts the bytes behind what is not read yet.
pub append_enqueues :
    (src : List ℕ) (b : ByteBuffer)
    → IsValid b
    → size b < limit
    → size b + length src < size_range
    → Adds src b (append src b)
unfolding append
append_enqueues src b v small room = elim (Bool-cases (length src == 0)) [
  | inl none_given ↦ rw none_given (unchanged-IsAdded src b v (ground arith))
  | inr some_given ↦
      let e = append-valid src b v (ground arith) small room in rw e (appended-IsAdded src b v room)
]

-- What a read of `n` bytes gives on the queue.
abbrev pub Reads : ℕ → ByteBuffer → Access (List ℕ × ByteBuffer) → Type 0
Reads n b (gives (bytes, b')) = (length bytes ≡ n) × IsTaken bytes b b'
Reads n b (stops asserts) = length (pending b) < n
Reads n b (stops outside) = ⊥

pub read-gives :
    (n : ℕ) (b : ByteBuffer)
    → IsValid b
    → n ≤ length (pending b)
    → read n b ≡ gives (take n (pending b), record b { read_pos = b.read_pos + n })
unfolding read read_at
read-gives n b v enough =
    let fits : b.read_pos + n ≤ size b =
      omega (arith, v.read_in, length-drop b.read_pos b.storage) in
    let sum : (b.read_pos + n) % size_range ≡ b.read_pos + n = omega (arith, v.small) in
    rw sum (rw (le→leb (b.read_pos + n) (size b) fits) refl)

read-stops :
    (n : ℕ) (b : ByteBuffer)
    → IsValid b
    → length (pending b) < n
    → b.read_pos + n < size_range
    → read n b ≡ stops asserts
unfolding read read_at
read-stops n b v few no_wrap =
    let past : size b < b.read_pos + n =
      omega (arith, v.read_in, length-drop b.read_pos b.storage) in
    let sum : (b.read_pos + n) % size_range ≡ b.read_pos + n = omega arith in
    rw sum (rw (lt→not_leb (b.read_pos + n) (size b) past) refl)

pub read-IsTaken :
    (n : ℕ) (b : ByteBuffer)
    → IsValid b
    → n ≤ length (pending b)
    → IsTaken (take n (pending b)) b (record b { read_pos = b.read_pos + n })
read-IsTaken n b v enough = record {
  valid = record {
    at_end = v.at_end;
    read_in = omega (arith, v.read_in, length-drop b.read_pos b.storage);
    small = v.small;
  };
  queue =
      sym (take-append-drop n (pending b))
      ∙ ap (λ l. take n (pending b) ++ l) (drop-drop n b.read_pos b.storage);
  kept = refl;
}

-- A read up to a position that a `size_t` can hold, of a valid buffer, takes exactly `n` bytes from
-- the front of the queue and keeps the buffer valid; when fewer are there, its assertion stops it,
-- and never an access outside the storage.
pub read_dequeues :
    (n : ℕ) (b : ByteBuffer) → IsValid b → b.read_pos + n < size_range → Reads n b (read n b)
read_dequeues n b v no_wrap = elim (Bool-cases (leb n (length (pending b)))) [
  | inl enough ↦
      let h : n ≤ length (pending b) = ground arith in
      rw (read-gives n b v h) (omega (arith, length-take n (pending b)), read-IsTaken n b v h)
  | inr few ↦ let h : length (pending b) < n = ground arith in rw (read-stops n b v h no_wrap) h
]
