-- ===== src/Bytes/Buffer/Put.antt =====
-- `put` of bytebuffer/mangosByteBuffer/ByteBuffer.h on a valid buffer.
use linux_study_notes.Bytes.Buffer.{
  size_range, Access, stops, gives, ByteBuffer, size, put, read_at,
}
use linux_study_notes.Prelude.{
  ℕ, ◌+◌, ◌%◌, ◌≤◌, ◌<◌, ◌≡◌, refl, ap, ◌∙◌, List, ◌++◌, arith, length, take, drop, length-append,
  length-take, length-drop, le→leb, take-append, drop-append, subst,
}

-- What a `put` leaves at its place, and what it leaves alone.
abbrev pub PutBack : ℕ → List ℕ → ByteBuffer → Access ByteBuffer → Type 0
PutBack pos src b (gives b') =
    (read_at (length src) pos b' ≡ gives src)
    × (size b' ≡ size b)
    × (take pos b'.storage ≡ take pos b.storage)
    × (b'.read_pos ≡ b.read_pos)
    × (b'.write_pos ≡ b.write_pos)
PutBack pos src b (stops s) = ⊥

put_back :
    (xs src zs : List ℕ) (b : ByteBuffer)
    → b.storage ≡ xs ++ (src ++ zs)
    → size b < size_range
    → read_at (length src) (length xs) b ≡ gives src
unfolding read_at
put_back xs src zs b e small =
    let len : size b ≡ length xs + (length src + length zs) =
      ap length e ∙ length-append xs (src ++ zs) ∙ ap (λ n. length xs + n) (length-append src zs) in
    let sum : (length xs + length src) % size_range ≡ length xs + length src = omega arith in
    rw sum (
      rw (le→leb (length xs + length src) (size b) (omega arith))
        (rw e (rw (drop-append xs (src ++ zs)) (rw (take-append src zs) refl))))

-- A `put` inside the buffer writes its bytes where they are read back, and changes neither what
-- stands before them nor the size nor the positions.
pub put-read_at :
    (pos : ℕ) (src : List ℕ) (b : ByteBuffer)
    → pos + length src ≤ size b
    → size b < size_range
    → PutBack pos src b (put pos src b)
unfolding put
put-read_at pos src b fits small =
    let zs = drop (pos + length src) b.storage in
    let xs = take pos b.storage in
    let at_pos : length xs ≡ pos = omega (arith, length-take pos b.storage) in
    let sum : (pos + length src) % size_range ≡ pos + length src = omega arith in
    let len : length (xs ++ (src ++ zs)) ≡ size b = omega (
      arith,
      length-append xs (src ++ zs),
      length-append src zs,
      length-drop (pos + length src) b.storage,
    ) in
    let b' = record b { storage = xs ++ (src ++ zs) } in
    rw sum (
      rw (le→leb (pos + length src) (size b) fits) (
        subst (λ k. read_at (length src) k b' ≡ gives src) at_pos
            (put_back xs src zs b' refl (omega arith)),
        len,
        subst (λ k. take k (xs ++ (src ++ zs)) ≡ xs) at_pos (take-append xs (src ++ zs)),
        refl,
        refl,
      ))
