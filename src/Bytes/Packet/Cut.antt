-- ===== src/Bytes/Packet/Cut.antt =====
-- One packet at the front of the client's array, in bytebuffer/mangosByteBuffer/client.cpp.
use linux_study_notes.Bytes.Packet.Wire.{
  shown_as, wire_size, wire, length-wire, size_first, on_wire,
}
use linux_study_notes.Bytes.Buffer.{gives}
use linux_study_notes.Bytes.Parcel.{Parcel, FitsParcel}
use linux_study_notes.Bytes.Packet.{packet_size, Client, next_size, take_packet, received}
use linux_study_notes.Bytes.Value.{from_bytes}
use linux_study_notes.Prelude.{
  ℕ, zero, suc, ◌+◌, ◌-◌, ◌≤◌, ◌≡◌, refl, sym, ap, ◌∙◌, List, [], ◌∷◌, ◌++◌, append_assoc, le→leb,
  arith, length, take, drop, length-append, length-take, length-drop, take-append, drop-append,
  take-append-drop,
}

-- What the client holds and has not cut.
pub record IsHeld (held : List ℕ) (c : Client) : Type 0 where
  pub prefix : take c.recv_size c.recv_buf ≡ held
  pub length_held : length held ≡ c.recv_size
  pub full : length c.recv_buf ≡ packet_size

-- The client behind a packet.
abbrev pub behind : Parcel → Client → Client
behind m c = record c {
  recv_buf = take c.recv_size (drop (wire_size m) c.recv_buf) ++ drop c.recv_size c.recv_buf;
  recv_size = c.recv_size - wire_size m;
  data_buf = take (wire_size m) c.recv_buf ++ drop (wire_size m) c.data_buf;
  count = c.count + 1;
  delivered = c.delivered ++ shown_as m ∷ [];
}

laid_out :
    (held : List ℕ) (c : Client) → IsHeld held c → c.recv_buf ≡ held ++ drop c.recv_size c.recv_buf
laid_out held c h =
    sym (take-append-drop c.recv_size c.recv_buf)
    ∙ ap (λ l. l ++ drop c.recv_size c.recv_buf) h.prefix

-- A packet at the front is delivered.
pub take_packet-wire :
    (m : Parcel) (rest : List ℕ) (c : Client)
    → IsHeld (wire m ++ rest) c
    → FitsParcel m
    → wire_size m + c.recv_size ≤ packet_size
    → take_packet c ≡ gives (behind m c)
unfolding take_packet
take_packet-wire m rest c h fits room =
    let tail = drop c.recv_size c.recv_buf in
    let flat : c.recv_buf ≡ wire m ++ (rest ++ tail) =
      laid_out (wire m ++ rest) c h ∙ append_assoc (wire m) rest tail in
    let size : next_size c ≡ wire_size m =
      ap (λ l. from_bytes (take 2 l)) flat ∙ size_first m (rest ++ tail) (omega arith) in
    let front : take (wire_size m) c.recv_buf ≡ wire m =
      ap (take (wire_size m)) flat
      ∙ ap (λ k. take k (wire m ++ (rest ++ tail))) (sym (length-wire m))
      ∙ take-append (wire m) (rest ++ tail) in
    rw size (
      rw (le→leb (wire_size m + c.recv_size) packet_size room)
        (rw front (rw (on_wire m (drop (wire_size m) c.data_buf) fits (omega arith)) refl)))

take_inner :
    (k n : ℕ) (xs ys : List ℕ) → k ≤ n → k ≤ length xs → take k (take n xs ++ ys) ≡ take k xs
take_inner zero n xs ys h l = refl
take_inner (suc k) zero xs ys h l = absurd (omega arith)
take_inner (suc k) (suc n) [] ys h l = absurd (omega arith)
take_inner (suc k) (suc n) (x ∷ xs) ys h l =
    ap (◌∷◌ x) (take_inner k n xs ys (omega arith) (omega arith))

-- What was behind the packet is held then.
pub behind-IsHeld :
    (m : Parcel) (rest : List ℕ) (c : Client)
    → IsHeld (wire m ++ rest) c
    → wire_size m + c.recv_size ≤ packet_size
    → IsHeld rest (behind m c)
behind-IsHeld m rest c h room =
    let tail = drop c.recv_size c.recv_buf in
    let flat : c.recv_buf ≡ wire m ++ (rest ++ tail) =
      laid_out (wire m ++ rest) c h ∙ append_assoc (wire m) rest tail in
    let moved : drop (wire_size m) c.recv_buf ≡ rest ++ tail =
      ap (drop (wire_size m)) flat
      ∙ ap (λ k. drop k (wire m ++ (rest ++ tail))) (sym (length-wire m))
      ∙ drop-append (wire m) (rest ++ tail) in
    let sizes : wire_size m + length rest ≡ c.recv_size =
      omega (arith, h.length_held, length-append (wire m) rest, length-wire m) in
    let left : c.recv_size - wire_size m ≡ length rest = omega arith in
    let enough : c.recv_size ≤ length (rest ++ tail) =
      omega (arith, ap length moved, length-drop (wire_size m) c.recv_buf, h.full) in
    record {
      prefix =
          ap (λ k. take k (behind m c).recv_buf) left
          ∙ take_inner (length rest) c.recv_size (drop (wire_size m) c.recv_buf) tail (omega arith)
              (omega (arith, ap length moved))
          ∙ ap (take (length rest)) moved
          ∙ take-append rest tail;
      length_held = sym left;
      full = omega (
        arith,
        length-append (take c.recv_size (drop (wire_size m) c.recv_buf)) tail,
        length-take c.recv_size (drop (wire_size m) c.recv_buf),
        length-drop c.recv_size c.recv_buf,
        ap length moved,
        h.full,
      );
    }

-- `recv` puts what arrives behind what is held.
pub received-IsHeld :
    (held got : List ℕ) (c : Client)
    → IsHeld held c
    → c.recv_size + length got ≤ packet_size
    → IsHeld (held ++ got) (received got c)
received-IsHeld held got c h room =
    let tail = drop (c.recv_size + length got) c.recv_buf in
    let flat : (received got c).recv_buf ≡ (held ++ got) ++ tail =
      ap (λ l. l ++ (got ++ tail)) h.prefix ∙ sym (append_assoc held got tail) in
    let sizes : length (held ++ got) ≡ c.recv_size + length got =
      omega (arith, length-append held got, h.length_held) in
    record {
      prefix =
          ap (take (c.recv_size + length got)) flat
          ∙ ap (λ k. take k ((held ++ got) ++ tail)) (sym sizes)
          ∙ take-append (held ++ got) tail;
      length_held = sizes;
      full = omega (
        arith,
        ap length flat,
        length-append (held ++ got) tail,
        length-drop (c.recv_size + length got) c.recv_buf,
        h.full,
      );
    }
