-- ===== src/Bytes/Packet/Stream.antt =====
-- The stream of bytebuffer/mangosByteBuffer from `SendData` to the client's `run`, however it is
-- cut.
use linux_study_notes.Bytes.Buffer.Fifo.{IsValid, Adds, pending}
use linux_study_notes.Bytes.Buffer.{
  Access, stops, gives, ◌>>=◌, ByteBuffer, size, clear, empty_buffer, limit,
}
use linux_study_notes.Bytes.Message.{
  Message, message_bytes, FitsMessage, write_message, message-IsStreamed,
}
use linux_study_notes.Bytes.Parcel.{Parcel, plain, message, body, opcode, FitsParcel, pod_bytes}
use linux_study_notes.Bytes.Packet.Cut.{IsHeld, received-IsHeld}
use linux_study_notes.Bytes.Packet.Wire.{wire, wire_size, length-wire}
use linux_study_notes.Bytes.Packet.Loop.{wires, shown, Partial, Went, WentTo, packet_loop-Went}
use linux_study_notes.Bytes.Packet.{
  header_size, packet_size, send_data, Delivered, Client, packet_loop, received, run,
}
use linux_study_notes.Bytes.Value.Sequence.{AllFit}
use linux_study_notes.Bytes.Value.{to_bytes}
use linux_study_notes.Prelude.{
  ℕ, ◌+◌, ◌-◌, ◌*◌, ◌^◌, ◌%◌, ◌≤◌, ◌<◌, ◌≡◌, refl, sym, ap, ◌∙◌, subst, false, ◌||◌, List, [], ◌∷◌,
  ◌++◌, append-nil, append_assoc, ◌==◌, le→leb, arith, length, take, drop, length-append,
  length-take, length-drop, take-append, take-append-drop, min, take_all, replicate,
  length-replicate,
}

-- Every `recv` finds a byte ready.
abbrev pub AllReady : List ℕ → Type 0
AllReady [] = Unit
AllReady (k ∷ ks) = (0 < k) × AllReady ks

abbrev pub Delivers : List Delivered → Access Client → Type 0
Delivers ds (gives c) = c.delivered ≡ ds
Delivers ds (stops s) = ⊥

all_shown :
    (ms : List Parcel) (held : List ℕ) (c : Client)
    → held ++ [] ≡ wires ms
    → Partial held ms
    → c.delivered ≡ c.delivered ++ shown ms
all_shown [] held c e part = sym (append-nil c.delivered)
all_shown (m ∷ ms) held c e part = absurd (
    omega
      (arith, ap length e, length-append held [], length-append (wire m) (wires ms), length-wire m))

no_bytes : (xs : List ℕ) → length xs ≤ 0 → xs ≡ []
no_bytes [] h = refl
no_bytes (x ∷ xs) h = absurd (omega arith)

Delivers-bind :
    (ms : List Parcel) (more ks : List ℕ) (c : Client) (r : Access Client)
    → WentTo ms more c r
    → ((c' : Client) (w : Went ms more c c')
        → Delivers (c'.delivered ++ shown w.left) (run ks more c'))
    → Delivers (c.delivered ++ shown ms) (r >>= λ c'. run ks more c')
Delivers-bind ms more ks c (gives c') w next =
    subst (λ ds. Delivers ds (run ks more c')) w.shows (next c' w)
Delivers-bind ms more ks c (stops why) w next = elim w [ ]

run-Delivers :
    (ks : List ℕ) (ms : List Parcel) (held stream : List ℕ) (c : Client)
    → AllReady ks
    → IsHeld held c
    → AllFit FitsParcel ms
    → held ++ stream ≡ wires ms
    → Partial held ms
    → 2 * length (wires ms) ≤ packet_size
    → c.count + length ms ≤ 10
    → c.closed ≡ false
    → length stream ≤ length ks
    → Delivers (c.delivered ++ shown ms) (run ks stream c)
unfolding run
run-Delivers [] ms held stream c ready h f e part room ten open_yet enough =
    all_shown ms held c (ap (λ l. held ++ l) (sym (no_bytes stream enough)) ∙ e) part
run-Delivers (k ∷ ks) ms held [] c ready h f e part room ten open_yet enough =
    let n = min k (packet_size - c.recv_size) in
    let got : take {A = ℕ} n [] ≡ [] = take_all n [] (omega arith) in
    rw (open_yet, got) (all_shown ms held c e part)
run-Delivers (k ∷ ks) ms held (s ∷ ss) c ready h f e part room ten open_yet enough =
    let stream = s ∷ ss in
    let n = min k (packet_size - c.recv_size) in
    let got = take n stream in
    let more = drop n stream in
    let sizes : length held + length stream ≡ length (wires ms) =
      omega (arith, ap length e, length-append held stream) in
    let some_got : 0 < length got = omega (arith, ready.0, h.length_held, length-take n stream) in
    let goes : (length got == 0) ≡ false = ground arith in
    let h' : IsHeld (held ++ got) (received got c) =
      received-IsHeld held got c h (omega (arith, h.length_held, length-take n stream)) in
    let e' : (held ++ got) ++ more ≡ wires ms =
      append_assoc held got more ∙ ap (λ l. held ++ l) (take-append-drop n stream) ∙ e in
    let goes_on : (c.closed || length got == 0) ≡ false = rw (open_yet, goes) refl in
    rw goes_on (
      Delivers-bind ms more ks (received got c) (packet_loop 11 (received got c))
        (packet_loop-Went ms (held ++ got) more (received got c) 11 h' f e' room ten (omega arith))
        λ c' w.
          run-Delivers ks w.left w.held more c' ready.1 w.holds w.fits w.queue w.partial
            (omega (arith, w.shorter)) (omega (arith, w.counts)) (w.still ∙ open_yet)
            (omega (arith, length-drop n stream, length-take n stream)))

-- The client as its constructor leaves it, with `junk` in the other array.
abbrev pub fresh : List ℕ → Client
fresh junk = record {
  recv_buf = replicate packet_size 0;
  recv_size = 0;
  data_buf = junk;
  count = 0;
  closed = false;
  delivered = [];
}

-- What the server sends for several packets: a plain one as it is in memory; for a message, its
-- buffer is cleared and filled, and what is in it goes through `SendData`.
unfoldable pub send_parcels : List Parcel → ByteBuffer → List ℕ → Access (List ℕ)
send_parcels [] b send_buf = gives []
send_parcels (plain index text ∷ ms) b send_buf =
    send_data 1 (pod_bytes index text) send_buf >>= λ sent.
    send_parcels ms b sent.1 >>= λ rest. gives (sent.0 ++ rest)
send_parcels (message m ∷ ms) b send_buf = write_message m (clear b) >>= λ b'.
    send_data 2 (take (size b') (drop b'.read_pos b'.storage)) send_buf >>= λ sent.
    send_parcels ms b' sent.1 >>= λ rest. gives (sent.0 ++ rest)

send_data-wire :
    (m : Parcel) (send_buf : List ℕ)
    → wire_size m ≤ packet_size
    → send_data (opcode m) (body m) send_buf
      ≡ gives (wire m, wire m ++ drop (header_size + length (body m)) send_buf)
unfolding send_data
send_data-wire m send_buf small =
    let old = drop (header_size + length (body m)) send_buf in
    let size : (length (body m) + header_size) % 2 ^ 16 ≡ wire_size m = omega arith in
    let flat : to_bytes 2 (wire_size m) ++ (to_bytes 2 (opcode m) ++ (body m ++ old))
        ≡ wire m ++ old =
      ap (λ l. to_bytes 2 (wire_size m) ++ l)
        (sym (append_assoc (to_bytes 2 (opcode m)) (body m) old))
      ∙ sym (append_assoc (to_bytes 2 (wire_size m)) (to_bytes 2 (opcode m) ++ body m) old) in
    let sent : take (wire_size m) (wire m ++ old) ≡ wire m =
      ap (λ k. take k (wire m ++ old)) (sym (length-wire m)) ∙ take-append (wire m) old in
    rw size (
      rw (le→leb (header_size + length (body m)) packet_size (omega arith))
        (rw flat (rw sent refl)))

-- The buffer that is sent holds the message and nothing else.
contents-message :
    (m : Message) (b : ByteBuffer)
    → FitsMessage m
    → length (message_bytes m) < limit
    → (b' : ByteBuffer) × (write_message m (clear b) ≡ gives b')
      × (take (size b') (drop b'.read_pos b'.storage) ≡ message_bytes m)
unfolding clear
contents-message m b fits small =
    after (write_message m empty_buffer)
      (message-IsStreamed.writes m empty_buffer fits empty-IsValid (omega arith))
  where
    empty-IsValid : IsValid empty_buffer
    empty-IsValid = record { at_end = refl; read_in = omega arith; small = omega arith }

    after :
        (r : Access ByteBuffer)
        → Adds (message_bytes m) empty_buffer r
        → (b' : ByteBuffer) × (r ≡ gives b')
          × (take (size b') (drop b'.read_pos b'.storage) ≡ message_bytes m)
    after (gives b') added = (
      b',
      refl,
      take_all (size b') (pending b') (omega (arith, length-drop b'.read_pos b'.storage))
          ∙ added.queue,
    )
    after (stops s) added = elim added [ ]

send_parcels-wires :
    (ms : List Parcel) (b : ByteBuffer) (send_buf : List ℕ)
    → AllFit FitsParcel ms
    → length (wires ms) ≤ packet_size
    → send_parcels ms b send_buf ≡ gives (wires ms)
unfolding send_parcels
send_parcels-wires [] b send_buf fits small = refl
send_parcels-wires (plain index text ∷ ms) b send_buf fits small =
    let m = plain index text in
    let len = length-append (wire m) (wires ms) in
    rw (send_data-wire m send_buf (omega (arith, length-wire m)))
      (rw (send_parcels-wires ms b _ fits.1 (omega (arith, len))) refl)
send_parcels-wires (message m ∷ ms) b send_buf fits small =
    let len = length-append (wire (message m)) (wires ms) in
    let (b', written, content) =
      contents-message m b fits.0 (omega (arith, length-wire (message m))) in
    rw written (
      rw content (
        rw (send_data-wire (message m) send_buf (omega (arith, length-wire (message m))))
          (rw (send_parcels-wires ms b' _ fits.1 (omega (arith, len))) refl)))

-- Up to ten packets, plain or serialized, each with an `int` and a C string, that together take at
-- most half of the client's array arrive whole, once and in order, however the kernel cuts the
-- stream: the client delivers exactly what the server sent, once there has been a `recv` for each
-- byte at the most.
pub messages_arrive :
    (ms : List Parcel) (ks send_buf junk : List ℕ) (b : ByteBuffer)
    → AllFit FitsParcel ms
    → length ms ≤ 10
    → 2 * length (wires ms) ≤ packet_size
    → AllReady ks
    → length (wires ms) ≤ length ks
    → Delivers (shown ms) (send_parcels ms b send_buf >>= λ stream. run ks stream (fresh junk))
messages_arrive ms ks send_buf junk b f ten room ready enough =
    rw (send_parcels-wires ms b send_buf f (omega arith)) (
      run-Delivers ks ms [] (wires ms) (fresh junk) ready fresh-IsHeld f refl (not_whole ms) room
        (omega arith) refl enough)
  where
    fresh-IsHeld : IsHeld [] (fresh junk)
    fresh-IsHeld = record {
      prefix = refl;
      length_held = refl;
      full = length-replicate {A = ℕ} packet_size 0;
    }

    not_whole : (ms : List Parcel) → Partial [] ms
    not_whole [] = tt
    not_whole (m ∷ ms) = omega arith
