-- ===== src/Bytes/Packet/Wire.antt =====
-- A packet of bytebuffer/mangosByteBuffer on the wire, and what `OnNetMessage` of client.cpp makes
-- of it.
use linux_study_notes.Bytes.Buffer.Fifo.{IsValid, Adds}
use linux_study_notes.Bytes.Buffer.{
  limit, Access, stops, gives, ◌>>=◌, ByteBuffer, append, clear, empty_buffer,
}
use linux_study_notes.Bytes.Message.{
  Message, read_message, message_bytes, FitsMessage, message-IsStreamed,
}
use linux_study_notes.Bytes.Parcel.{
  Parcel, plain, message, body, opcode, FitsParcel, pod_bytes, strncpy, strncpy_fits,
}
use linux_study_notes.Libc.{NoNul, c_str, c_str_of_NoNul}
use linux_study_notes.Libc.Int.{ℤ}
use linux_study_notes.Bytes.Packet.{
  Delivered, pod, header_size, packet_size, serialized, on_net_message,
}
use linux_study_notes.Bytes.Value.Stored.{Takes, add_bytes}
use linux_study_notes.Bytes.Value.Word.{
  length-to_bytes, from_bytes-to_bytes, to_bits-bound, from_bits-to_bits,
}
use linux_study_notes.Bytes.Value.{byte_range, to_bytes, from_bytes, to_bits, from_bits}
use linux_study_notes.Prelude.{
  ℕ, zero, suc, ◌+◌, ◌-◌, ◌^◌, ◌%◌, ◌≤◌, ◌<◌, ◌≡◌, refl, sym, ap, ap₂, ◌∙◌, drop-drop, replicate,
  List, [], ◌++◌, append-nil, append_assoc, le→leb, arith, length, take, drop, length-append,
  take-append, drop-append,
}

-- What the client makes of a packet.
abbrev pub shown_as : Parcel → Delivered
shown_as (plain index text) = pod index text
shown_as (message m) = serialized m

-- A packet as `SendData` puts it on the wire.
abbrev pub wire_size : Parcel → ℕ
wire_size m = length (body m) + header_size

abbrev pub wire : Parcel → List ℕ
wire m = to_bytes 2 (wire_size m) ++ (to_bytes 2 (opcode m) ++ body m)

pub length-wire : (m : Parcel) → length (wire m) ≡ wire_size m
length-wire m = omega (
  arith,
  length-append (to_bytes 2 (wire_size m)) (to_bytes 2 (opcode m) ++ body m),
  length-append (to_bytes 2 (opcode m)) (body m),
  length-to_bytes 2 (wire_size m),
  length-to_bytes 2 (opcode m),
)

clear-IsValid : IsValid (clear empty_buffer)
unfolding clear
clear-IsValid = record { at_end = refl; read_in = omega arith; small = omega arith }

-- The buffer of the client is cleared, filled and read.
read_back :
    (m : Message)
    → FitsMessage m
    → length (message_bytes m) < limit
    → (append (message_bytes m) (clear empty_buffer) >>= λ b.
        read_message b >>= λ r. gives (serialized r.0))
      ≡ gives (serialized m)
unfolding clear
read_back m fits small =
    after (append (message_bytes m) empty_buffer)
      (add_bytes (message_bytes m) empty_buffer clear-IsValid (omega arith))
  where
    shown :
        (r : Access (Message × ByteBuffer))
        → Takes m [] r
        → (r >>= λ r. gives (serialized r.0)) ≡ gives (serialized m)
    shown (gives (m', b)) took = rw (took.0) refl
    shown (stops s) took = elim took [ ]

    after :
        (r : Access ByteBuffer)
        → Adds (message_bytes m) empty_buffer r
        → (r >>= λ b. read_message b >>= λ r. gives (serialized r.0)) ≡ gives (serialized m)
    after (gives b) added = shown (read_message b) (
        message-IsStreamed.reads m [] b fits added.valid
          (added.queue ∙ sym (append-nil (message_bytes m))))
    after (stops s) added = elim added [ ]

take-word : (x : ℕ) (ys : List ℕ) → take 2 (to_bytes 2 x ++ ys) ≡ to_bytes 2 x
unfolding to_bytes
take-word x ys = refl

drop-word : (x : ℕ) (ys : List ℕ) → drop 2 (to_bytes 2 x ++ ys) ≡ ys
unfolding to_bytes
drop-word x ys = refl

drop-words : (x y : ℕ) (ys : List ℕ) → drop 4 (to_bytes 2 x ++ (to_bytes 2 y ++ ys)) ≡ ys
unfolding to_bytes
drop-words x y ys = refl

word_back : (x : ℕ) → x < 2 ^ 16 → from_bytes (to_bytes 2 x) ≡ x
unfolding byte_range
word_back x h = from_bytes-to_bytes 2 x h

-- The size stands in the first two bytes.
pub size_first :
    (m : Parcel) (ys : List ℕ)
    → wire_size m < 2 ^ 16
    → from_bytes (take 2 (wire m ++ ys)) ≡ wire_size m
size_first m ys small =
    ap (λ l. from_bytes (take 2 l))
      (append_assoc (to_bytes 2 (wire_size m)) (to_bytes 2 (opcode m) ++ body m) ys)
    ∙ ap from_bytes (take-word (wire_size m) ((to_bytes 2 (opcode m) ++ body m) ++ ys))
    ∙ word_back (wire_size m) small

wire_flat :
    (m : Parcel) (old : List ℕ)
    → wire m ++ old ≡ to_bytes 2 (wire_size m) ++ (to_bytes 2 (opcode m) ++ (body m ++ old))
wire_flat m old =
    append_assoc (to_bytes 2 (wire_size m)) (to_bytes 2 (opcode m) ++ body m) old
    ∙ ap (λ l. to_bytes 2 (wire_size m) ++ l) (append_assoc (to_bytes 2 (opcode m)) (body m) old)

opcode-small : (m : Parcel) → opcode m < 2 ^ 16
opcode-small (plain index text) = omega arith
opcode-small (message m) = omega arith

-- The code stands behind the size, and the data behind the code.
wire_code : (m : Parcel) (old : List ℕ) → from_bytes (take 2 (drop 2 (wire m ++ old))) ≡ opcode m
wire_code m old =
    ap (λ l. from_bytes (take 2 (drop 2 l))) (wire_flat m old)
    ∙ ap (λ l. from_bytes (take 2 l))
        (drop-word (wire_size m) (to_bytes 2 (opcode m) ++ (body m ++ old)))
    ∙ ap from_bytes (take-word (opcode m) (body m ++ old))
    ∙ word_back (opcode m) (opcode-small m)

wire_body : (m : Parcel) (old : List ℕ) → drop 4 (wire m ++ old) ≡ body m ++ old
wire_body m old =
    ap (drop 4) (wire_flat m old) ∙ drop-words (wire_size m) (opcode m) (body m ++ old)

serialized_on_wire :
    (m : Message) (old : List ℕ)
    → FitsMessage m
    → wire_size (message m) ≤ packet_size
    → on_net_message 2 (length (message_bytes m)) (wire (message m) ++ old) ≡ gives (serialized m)
unfolding on_net_message
serialized_on_wire m old fits small =
    let data_is : take (length (message_bytes m)) (drop 4 (wire (message m) ++ old))
        ≡ message_bytes m =
      ap (take (length (message_bytes m))) (wire_body (message m) old)
      ∙ take-append (message_bytes m) old in
    rw (le→leb (header_size + length (message_bytes m)) packet_size (omega arith))
      (rw data_is (read_back m fits (omega arith)))

c_str_padded :
    (text old : List ℕ) (k : ℕ) → NoNul text → 0 < k → c_str (text ++ (replicate k 0 ++ old)) ≡ text
c_str_padded text old zero n h = absurd (omega arith)
c_str_padded text old (suc k) n h = c_str_of_NoNul text (replicate k 0 ++ old) n

pod_on_wire :
    (index : ℤ) (text old : List ℕ) (n : ℕ)
    → FitsParcel (plain index text)
    → on_net_message 1 n (wire (plain index text) ++ old) ≡ gives (pod index text)
unfolding on_net_message pod_bytes
pod_on_wire index text old n (int, no_nul, short) =
    let int_bytes = to_bytes 4 (to_bits 4 index) in
    let padded = text ++ replicate (512 - length text) 0 in
    let all : drop 4 (wire (plain index text) ++ old) ≡ int_bytes ++ (padded ++ old) =
      wire_body (plain index text) old
      ∙ append_assoc int_bytes (strncpy 512 text) old
      ∙ ap (λ l. int_bytes ++ (l ++ old)) (strncpy_fits text no_nul short) in
    let len : length int_bytes ≡ 4 = length-to_bytes 4 (to_bits 4 index) in
    let first : take 4 (drop 4 (wire (plain index text) ++ old)) ≡ int_bytes =
      ap (take 4) all
      ∙ ap (λ k. take k (int_bytes ++ (padded ++ old))) (sym len)
      ∙ take-append int_bytes (padded ++ old) in
    let last : drop 8 (wire (plain index text) ++ old) ≡ padded ++ old =
      sym (drop-drop 4 4 (wire (plain index text) ++ old))
      ∙ ap (drop 4) all
      ∙ ap (λ k. drop k (int_bytes ++ (padded ++ old))) (sym len)
      ∙ drop-append int_bytes (padded ++ old) in
    ap₂ (λ l k. gives (pod (from_bits 4 (from_bytes l)) (c_str k))) first last
    ∙ ap₂ (λ z t. gives (pod z t))
        (ap (from_bits 4) (from_bytes-to_bytes 4 (to_bits 4 index) (to_bits-bound 4 index int))
          ∙ from_bits-to_bits 4 index int)
        (ap c_str (append_assoc text (replicate (512 - length text) 0) old)
          ∙ c_str_padded text old (512 - length text) no_nul (omega arith))

pub on_wire :
    (m : Parcel) (old : List ℕ)
    → FitsParcel m
    → wire_size m ≤ packet_size
    → on_net_message
        (from_bytes (take 2 (drop 2 (wire m ++ old))))
        ((wire_size m + 2 ^ 16 - header_size) % 2 ^ 16)
        (wire m ++ old)
      ≡ gives (shown_as m)
on_wire (plain index text) old fits small = rw (wire_code (plain index text) old) (
    pod_on_wire index text old ((wire_size (plain index text) + 2 ^ 16 - header_size) % 2 ^ 16)
      fits)
on_wire (message m) old fits small =
    let size : (wire_size (message m) + 2 ^ 16 - header_size) % 2 ^ 16 ≡ length (message_bytes m) =
      omega arith in
    rw (wire_code (message m) old) (rw size (serialized_on_wire m old fits small))
