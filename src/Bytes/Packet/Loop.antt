-- ===== src/Bytes/Packet/Loop.antt =====
-- The inner loop of the client of bytebuffer/mangosByteBuffer: what it cuts off and what it leaves.
use linux_study_notes.Bytes.Buffer.{Access, stops, gives}
use linux_study_notes.Bytes.Parcel.{Parcel, FitsParcel}
use linux_study_notes.Bytes.Packet.Cut.{IsHeld, behind, take_packet-wire, behind-IsHeld}
use linux_study_notes.Bytes.Packet.Wire.{shown_as, wire, wire_size, length-wire, size_first}
use linux_study_notes.Bytes.Packet.{
  header_size, packet_size, Delivered, Client, next_size, packet_loop,
}
use linux_study_notes.Bytes.Value.Sequence.{AllFit}
use linux_study_notes.Bytes.Value.{from_bytes}
use linux_study_notes.Prelude.{
  ℕ, zero, suc, ◌+◌, ◌*◌, ◌^◌, ◌≤◌, ◌<◌, ◌≡◌, refl, sym, ap, ◌∙◌, subst, true, false, List, [], ◌∷◌,
  ◌++◌, append_assoc, ltb, leb, lt→ltb, lt→not_leb, arith, length, take, drop, length-append,
  take-append, drop-append, take-append-drop, drop-append_le, Bool-cases, inl, inr,
}

-- The packets of several messages, and what the client makes of them.
abbrev pub wires : List Parcel → List ℕ
wires [] = []
wires (m ∷ ms) = wire m ++ wires ms

abbrev pub shown : List Parcel → List Delivered
shown [] = []
shown (m ∷ ms) = shown_as m ∷ shown ms

-- The packet that comes next is not held whole.
abbrev pub Partial : List ℕ → List Parcel → Type 0
Partial held [] = Unit
Partial held (m ∷ ms) = length held < wire_size m

-- The client has gone on from `c` to `c'`, with `more` still in the socket: what it has delivered
-- and what is to come make up all the messages.
pub record Went (ms : List Parcel) (more : List ℕ) (c c' : Client) : Type 0 where
  pub left : List Parcel
  pub held : List ℕ
  pub holds : IsHeld held c'
  pub fits : AllFit FitsParcel left
  pub queue : held ++ more ≡ wires left
  pub shows : c'.delivered ++ shown left ≡ c.delivered ++ shown ms
  pub counts : c'.count + length left ≡ c.count + length ms
  pub still : c'.closed ≡ c.closed
  pub partial : Partial held left
  pub shorter : length (wires left) ≤ length (wires ms)

abbrev pub WentTo : List Parcel → List ℕ → Client → Access Client → Type 0
WentTo ms more c (gives c') = Went ms more c c'
WentTo ms more c (stops s) = ⊥

stays :
    (ms : List Parcel) (held more : List ℕ) (c : Client)
    → IsHeld held c
    → AllFit FitsParcel ms
    → held ++ more ≡ wires ms
    → Partial held ms
    → Went ms more c c
stays ms held more c h f e part = record {
  partial = part;
  shorter = omega arith;
  left = ms;
  held = held;
  holds = h;
  fits = f;
  queue = e;
  shows = refl;
  counts = refl;
  still = refl;
}

-- The same, from the client behind a packet.
went_behind :
    (m : Parcel) (ms : List Parcel) (more : List ℕ) (c : Client) (r : Access Client)
    → WentTo ms more (behind m c) r
    → WentTo (m ∷ ms) more c r
went_behind m ms more c (gives c') w = record {
  left = w.left;
  held = w.held;
  holds = w.holds;
  fits = w.fits;
  queue = w.queue;
  shows = w.shows ∙ append_assoc c.delivered (shown_as m ∷ []) (shown ms);
  counts = omega (arith, w.counts);
  still = w.still;
  partial = w.partial;
  shorter = omega (arith, w.shorter, length-append (wire m) (wires ms));
}
went_behind m ms more c (stops s) w = w

take_of_append : (n : ℕ) (xs ys : List ℕ) → n ≤ length xs → take n (xs ++ ys) ≡ take n xs
take_of_append zero xs ys h = refl
take_of_append (suc n) [] ys h = absurd (omega arith)
take_of_append (suc n) (x ∷ xs) ys h = ap (◌∷◌ x) (take_of_append n xs ys (omega arith))

take_of_take : (k n : ℕ) (xs : List ℕ) → k ≤ n → take k (take n xs) ≡ take k xs
take_of_take zero n xs h = refl
take_of_take (suc k) zero xs h = absurd (omega arith)
take_of_take (suc k) (suc n) [] h = refl
take_of_take (suc k) (suc n) (x ∷ xs) h = ap (◌∷◌ x) (take_of_take k n xs (omega arith))

-- With a header held, the client reads the size of the packet that comes next.
next_size-wire :
    (m : Parcel) (ms : List Parcel) (held more : List ℕ) (c : Client)
    → IsHeld held c
    → held ++ more ≡ wires (m ∷ ms)
    → header_size ≤ c.recv_size
    → wire_size m < 2 ^ 16
    → next_size c ≡ wire_size m
next_size-wire m ms held more c h e two small =
    ap from_bytes (
      sym (take_of_take 2 c.recv_size c.recv_buf (omega arith))
      ∙ ap (take 2) h.prefix
      ∙ sym (take_of_append 2 held more (omega (arith, h.length_held)))
      ∙ ap (take 2) e)
    ∙ size_first m (wires ms) small

-- With the whole packet held, it stands in front of what else is held.
split_wire :
    (m : Parcel) (ms : List Parcel) (held more : List ℕ)
    → held ++ more ≡ wires (m ∷ ms)
    → wire_size m ≤ length held
    → (held ≡ wire m ++ drop (wire_size m) held) × (drop (wire_size m) held ++ more ≡ wires ms)
split_wire m ms held more e enough =
    let n = wire_size m in
    let cut : take n (wire m ++ wires ms) ≡ wire m =
      ap (λ k. take k (wire m ++ wires ms)) (sym (length-wire m))
      ∙ take-append (wire m) (wires ms) in
    let behind : drop n (wire m ++ wires ms) ≡ wires ms =
      ap (λ k. drop k (wire m ++ wires ms)) (sym (length-wire m))
      ∙ drop-append (wire m) (wires ms) in
    let front : take n held ≡ wire m =
      sym (take_of_append n held more enough) ∙ ap (take n) e ∙ cut in
    (
      sym (take-append-drop n held) ∙ ap (λ l. l ++ drop n held) front,
      sym (drop-append_le n held more enough) ∙ ap (drop n) e ∙ behind,
    )

nothing_held : (held more : List ℕ) → held ++ more ≡ [] → length held ≡ 0
nothing_held held more e = omega (arith, ap length e, length-append held more)

-- The inner loop delivers every packet that is held whole, in order, and stops at the first that is
-- not.
pub packet_loop-Went :
    (ms : List Parcel) (held more : List ℕ) (c : Client) (fuel : ℕ)
    → IsHeld held c
    → AllFit FitsParcel ms
    → held ++ more ≡ wires ms
    → 2 * length (wires ms) ≤ packet_size
    → c.count + length ms ≤ 10
    → length ms < fuel
    → WentTo ms more c (packet_loop fuel c)
unfolding packet_loop
packet_loop-Went ms held more c zero h f e room ten enough = absurd (omega arith)
packet_loop-Went [] held more c (suc fuel) h f e room ten enough =
    let idle : ltb c.recv_size header_size ≡ true =
      lt→ltb c.recv_size header_size (omega (arith, nothing_held held more e, h.length_held)) in
    rw idle (stays [] held more c h f e tt)
packet_loop-Went (m ∷ ms) held more c (suc fuel) h f e room ten enough =
    let len = length-append held more in
    let sizes : length held + length more ≡ wire_size m + length (wires ms) = omega (
      arith,
      ap length e,
      length-append held more,
      length-append (wire m) (wires ms),
      length-wire m,
    ) in
    elim (Bool-cases (ltb c.recv_size header_size)) [
      | inl short ↦ rw short (stays (m ∷ ms) held more c h f e (ground (arith, h.length_held)))
      | inr header ↦
          let head : header_size ≤ c.recv_size = ground arith in
          let size =
            next_size-wire m ms held more c h e head
              (omega (arith, length-append (wire m) (wires ms), length-wire m)) in
          let counting : leb 10 c.count ≡ false = lt→not_leb 10 c.count (omega arith) in
          rw (header, counting, size)
            (elim (Bool-cases (ltb c.recv_size (wire_size m))) [
              | inl part ↦
                  rw part (stays (m ∷ ms) held more c h f e (ground (arith, h.length_held)))
              | inr whole ↦
                  let rest = drop (wire_size m) held in
                  let (front, back) = split_wire m ms held more e (ground (arith, h.length_held)) in
                  let h' : IsHeld (wire m ++ rest) c = subst (λ l. IsHeld l c) front h in
                  let fits : wire_size m + c.recv_size ≤ packet_size =
                    omega
                      (arith, h.length_held, length-append (wire m) (wires ms), length-wire m) in
                  rw whole (
                    rw (take_packet-wire m rest c h' f.0 fits) (
                      went_behind m ms more c (packet_loop fuel (behind m c)) (
                        packet_loop-Went ms rest more (behind m c) fuel
                          (behind-IsHeld m rest c h' fits) f.1 back
                          (omega (arith, length-append (wire m) (wires ms))) (omega arith)
                          (omega arith))))
            ])
    ]
