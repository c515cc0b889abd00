-- ===== src/Chat/Loop/Pairs.antt =====
-- The map of conversations in epoll_simple_chat_server/main.c: who talks to whom.
use Prim.Native.Nat.{bit_and}
use linux_study_notes.Chat.Loop.{
  Chat, Event, ok, stop, out_of_bounds, update, max_fd, join_size, talk_size, join, talk,
  process_request, handle,
}
use linux_study_notes.Chat.Network.Send.{
  Writes, room, send_all_complete, read_all-flatten, read_all-overflow,
}
use linux_study_notes.Chat.Network.{Outcome}
use linux_study_notes.Libc.Int.{pos}
use linux_study_notes.Libc.{c_str}
use linux_study_notes.Prelude.{
  flatten, ℕ, ◌≤◌, ◌<◌, ◌≡◌, ◌≢◌, sym, ap, ◌∙◌, true, false, List, [], ◌∷◌, ◌++◌, ltb, ◌==◌, lt→ltb,
  arith, length, Bool-cases, inl, inr, ◌⊎◌,
}

-- `fd_map` is a pairing: 0 stands for no partner, and the partner of a partner is the client
-- itself.
pub record IsPairing (m : ℕ → ℕ) : Type 0 where
  pub none_at_zero : m 0 ≡ 0
  pub mutual_at : (x : ℕ) → m x ≢ 0 → m (m x) ≡ x

-- The two writes of `process_request`.
abbrev pub paired : (ℕ → ℕ) → ℕ → ℕ → ℕ → ℕ
paired m a b = update (update m a b) b a

-- Nobody's partner is a descriptor that has none.
not_partner : (m : ℕ → ℕ) (a x : ℕ) → IsPairing m → m a ≡ 0 → m x ≢ 0 → a ≢ m x
not_partner m a x p fa h e =
    let zero_x : x ≡ 0 = sym (p.mutual_at x h) ∙ ap m (sym e) ∙ fa in
    h (ap m zero_x ∙ p.none_at_zero)

paired-IsPairing :
    (m : ℕ → ℕ) (a b : ℕ)
    → IsPairing m
    → a ≢ 0
    → b ≢ 0
    → m a ≡ 0
    → m b ≡ 0
    → IsPairing (paired m a b)
paired-IsPairing m a b p na nb fa fb = record {
  none_at_zero = ground (arith, p.none_at_zero);
  mutual_at = λ x h. elim (Bool-cases (b == x)) [
    | inl at_b ↦ ground arith
    | inr not_b ↦ elim (Bool-cases (a == x)) [
      | inl at_a ↦ ground arith
      | inr not_a ↦
          let old : m x ≢ 0 = rw (not_b, not_a) at h in
          ground (arith, p.mutual_at x old, not_partner m a x p fa old, not_partner m b x p fb old)
    ]
  ];
}

-- What `join` does to the maps, on each branch that goes on.
join_maps :
    (client n : ℕ) (c c' : Chat)
    → join client (pos n) c ≡ ok c'
    → (c'.ready_fd_map ≡ c.ready_fd_map)
      × ((c'.fd_map ≡ c.fd_map)
          ⊎ ((n ≢ 0) × (c.ready_fd_map n ≡ true) × (c'.fd_map ≡ paired c.fd_map client n)))
unfolding join
join_maps client n c c' e = ground arith

-- Joining two descriptors that have no partner, the client's not being 0, keeps the pairing, also
-- for a client that names itself.
pub join-IsPairing :
    (client n : ℕ) (c c' : Chat)
    → client ≢ 0
    → IsPairing c.fd_map
    → c.fd_map client ≡ 0
    → c.fd_map n ≡ 0
    → join client (pos n) c ≡ ok c'
    → IsPairing c'.fd_map
join-IsPairing client n c c' ne p free_c free_n e = elim (join_maps client n c c' e).1 [
  | inl same ↦ rw same p
  | inr (nz, ready, pair) ↦ rw pair (paired-IsPairing c.fd_map client n p ne nz free_c free_n)
]

pub join_ready :
    (client n : ℕ) (c : Chat)
    → n ≢ 0
    → n < max_fd
    → c.ready_fd_map n ≡ true
    → join client (pos n) c ≡ ok (record c { fd_map = paired c.fd_map client n })
unfolding join
join_ready client n c nz small ready = rw ready (ground arith)

-- Naming a client that talks to somebody else breaks the pairing: that third client keeps a partner
-- that no longer is its own.
pub join_steals :
    (client n third : ℕ) (c c' : Chat)
    → n ≢ 0
    → n < max_fd
    → c.ready_fd_map n ≡ true
    → c.fd_map third ≡ n
    → third ≢ client
    → third ≢ n
    → join client (pos n) c ≡ ok c'
    → ¬ IsPairing c'.fd_map
join_steals client n third c c' nz small ready talks ne_c ne_n e p =
    let eq : ok (record c { fd_map = paired c.fd_map client n }) ≡ ok c' =
      sym (join_ready client n c nz small ready) ∙ e in
    let maps : c'.fd_map ≡ paired c.fd_map client n = cc in
    let at_third : c'.fd_map third ≡ n = rw maps (ground arith) in
    let at_n : c'.fd_map n ≡ client = rw maps (ground arith) in
    let back = p.mutual_at third (λ z. nz (sym at_third ∙ z)) in
    ne_c (sym back ∙ ap c'.fd_map at_third ∙ at_n)

-- What a client with a partner sends, if it is not empty, is written to the partner, whole and in
-- order, if it fits into the array and the calls of `write` have room for it; the maps stay.
pub talk_delivers :
    (client : ℕ) (chunks : List (List ℕ)) (writes : List Outcome) (c : Chat)
    → client < max_fd
    → c.fd_map client ≢ 0
    → length (flatten chunks) < talk_size
    → 0 < length (c_str (flatten chunks))
    → Writes writes
    → length (c_str (flatten chunks)) ≤ room writes
    → process_request client chunks writes c
      ≡ ok (record c { sent = c.sent ++ (c.fd_map client, c_str (flatten chunks)) ∷ [] })
unfolding process_request talk
talk_delivers client chunks writes c small paired_up fits some_text w enough =
    let in_range : ltb client max_fd ≡ true = lt→ltb client max_fd small in
    let has_partner : (c.fd_map client == 0) ≡ false = ground arith in
    rw in_range (
      rw has_partner (
        rw (read_all-flatten chunks talk_size fits) (
          rw (lt→ltb 0 (length (c_str (flatten chunks))) some_text)
            (rw (send_all_complete (flatten chunks) writes w enough)))))

-- The first message of a client is read into ten bytes: one of ten or more is written behind them.
pub first_message_overflows :
    (client : ℕ) (chunks : List (List ℕ)) (writes : List Outcome) (c : Chat)
    → client < max_fd
    → c.fd_map client ≡ 0
    → join_size ≤ length (flatten chunks)
    → process_request client chunks writes c ≡ stop out_of_bounds
unfolding process_request
first_message_overflows client chunks writes c small free long =
    rw (lt→ltb client max_fd small) (rw free (rw (read_all-overflow chunks join_size long)))

-- An error event closes the descriptor and the one that the map has for it, which is 0 for a client
-- with no partner; both maps keep their entries.
pub handle_error :
    (listen_sock : ℕ) (e : Event) (c : Chat)
    → e.fd ≢ listen_sock
    → e.fd < max_fd
    → (bit_and e.events 8 == 0) ≡ false
    → handle listen_sock e c
      ≡ ok (record c { closed = (c.closed ++ e.fd ∷ []) ++ c.fd_map e.fd ∷ [] })
unfolding handle
handle_error listen_sock e c ne small err =
    let other : (e.fd == listen_sock) ≡ false = ground arith in
    rw other (rw err (rw (lt→ltb e.fd max_fd small)))
