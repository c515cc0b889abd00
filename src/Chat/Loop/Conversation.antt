-- ===== src/Chat/Loop/Conversation.antt =====
-- A whole conversation through `io_loop` of epoll_simple_chat_server/main.c.
use linux_study_notes.Chat.Loop.Pairs.{paired, join_ready, talk_delivers}
use linux_study_notes.Chat.Loop.{
  Chat, Event, ok, ◌>>=◌, update, max_fd, join_size, talk_size, process_request, accept_client,
  handle, io_loop, start,
}
use linux_study_notes.Chat.Network.Send.{Writes, room, read_all-flatten}
use linux_study_notes.Chat.Network.{Outcome}
use linux_study_notes.Libc.Int.{pos}
use linux_study_notes.Libc.{c_str, atoi}
use linux_study_notes.Prelude.{
  flatten, map, ℕ, ◌≤◌, ◌<◌, ◌≡◌, ◌≢◌, refl, sym, ap, ◌∙◌, Bool, true, false, List, [], ◌∷◌, ◌++◌,
  append-nil, append_assoc, none, some, ◌==◌, ==_refl, lt→ltb, if◌then◌else◌, arith, length,
}

-- What one of two clients sends: whether it is the second, its reads, and the calls of `write` to
-- the other.
pub record Message : Type 0 where
  pub by_second : Bool
  pub chunks : List (List ℕ)
  pub writes : List Outcome

abbrev pub text : Message → List ℕ
text m = c_str (flatten m.chunks)

-- It fits, is not empty, and is taken in full.
pub record IsMessage (m : Message) : Type 0 where
  pub fits : length (flatten m.chunks) < talk_size
  pub some_text : 0 < length (text m)
  pub taken : Writes m.writes
  pub enough : length (text m) ≤ room m.writes

abbrev pub AllMessages : List Message → Type 0
AllMessages [] = Unit
AllMessages (m ∷ ms) = IsMessage m × AllMessages ms

abbrev pub readable : ℕ → List (List ℕ) → List Outcome → Event
readable fd chunks writes = record {
  fd = fd;
  events = 1;
  accepted = none;
  chunks = chunks;
  writes = writes;
}

abbrev pub connects : ℕ → ℕ → Event
connects listen_sock client = record {
  fd = listen_sock;
  events = 1;
  accepted = some client;
  chunks = [];
  writes = [];
}

abbrev pub says : ℕ → ℕ → Message → Event
says a b m = readable (if m.by_second then b else a) m.chunks m.writes

abbrev pub hears : ℕ → ℕ → Message → ℕ × List ℕ
hears a b m = (if m.by_second then a else b, text m)

handle-readable :
    (listen_sock fd : ℕ) (chunks : List (List ℕ)) (writes : List Outcome) (c : Chat)
    → fd ≢ listen_sock
    → handle listen_sock (readable fd chunks writes) c ≡ process_request fd chunks writes c
unfolding handle
handle-readable listen_sock fd chunks writes c ne =
    let other : (fd == listen_sock) ≡ false = ground arith in rw other refl

-- Two partners, neither of them 0 or the listening socket.
pub record ArePartners (listen_sock a b : ℕ) : Type 0 where
  pub first_small : a < max_fd
  pub second_small : b < max_fd
  pub first_client : a ≢ listen_sock
  pub second_client : b ≢ listen_sock
  pub first_nonzero : a ≢ 0
  pub second_nonzero : b ≢ 0

module _ {listen_sock a b : ℕ} (p : ArePartners listen_sock a b) where
  handle-says :
      (second : Bool) (chunks : List (List ℕ)) (writes : List Outcome) (c : Chat)
      → IsMessage (record { by_second = second; chunks = chunks; writes = writes })
      → c.fd_map a ≡ b
      → c.fd_map b ≡ a
      → handle listen_sock
          (says a b (record { by_second = second; chunks = chunks; writes = writes }))
          c
        ≡ ok (record c {
          sent =
              c.sent
              ++ hears a b (record { by_second = second; chunks = chunks; writes = writes }) ∷ [];
        })
  handle-says true chunks writes c m fa fb =
      handle-readable listen_sock b chunks writes c p.second_client
      ∙ talk_delivers b chunks writes c p.second_small (λ z. p.first_nonzero (sym fb ∙ z)) m.fits
          m.some_text m.taken m.enough
      ∙ ap (λ d. ok (record c { sent = c.sent ++ (d, c_str (flatten chunks)) ∷ [] })) fb
  handle-says false chunks writes c m fa fb =
      handle-readable listen_sock a chunks writes c p.first_client
      ∙ talk_delivers a chunks writes c p.first_small (λ z. p.second_nonzero (sym fa ∙ z)) m.fits
          m.some_text m.taken m.enough
      ∙ ap (λ d. ok (record c { sent = c.sent ++ (d, c_str (flatten chunks)) ∷ [] })) fa

  io_loop-cons :
      (e : Event) (es : List Event) (c c' : Chat)
      → handle listen_sock e c ≡ ok c'
      → io_loop listen_sock (e ∷ es) c ≡ io_loop listen_sock es c'
  unfolding io_loop
  io_loop-cons e es c c' h = ap (λ r. r >>= λ d. io_loop listen_sock es d) h

  io_loop-says :
      (ms : List Message) (c : Chat)
      → AllMessages ms
      → c.fd_map a ≡ b
      → c.fd_map b ≡ a
      → io_loop listen_sock (map (says a b) ms) c
        ≡ ok (record c { sent = c.sent ++ map (hears a b) ms })
  unfolding io_loop
  io_loop-says [] c all fa fb = ap (λ l. ok (record c { sent = l })) (sym (append-nil c.sent))
  io_loop-says (m ∷ ms) c all fa fb =
      io_loop-cons (says a b m) _ c _ (handle-says m.by_second m.chunks m.writes c all.0 fa fb)
      ∙ io_loop-says ms (record c { sent = c.sent ++ hears a b m ∷ [] }) all.1 fa fb
      ∙ ap (λ l. ok (record c { sent = l }))
          (append_assoc c.sent (hears a b m ∷ []) (map (hears a b) ms))

  handle-connects :
      (client : ℕ) (c : Chat)
      → client < max_fd
      → handle listen_sock (connects listen_sock client) c
        ≡ ok (record c { ready_fd_map = update c.ready_fd_map client true })
  unfolding handle accept_client
  handle-connects client c small = rw (==_refl listen_sock, lt→ltb client max_fd small) refl

  handle-join :
      (chunks : List (List ℕ)) (c : Chat)
      → length (flatten chunks) < join_size
      → atoi (flatten chunks) ≡ pos b
      → c.fd_map a ≡ 0
      → c.ready_fd_map b ≡ true
      → handle listen_sock (readable a chunks []) c ≡ ok (record c { fd_map = paired c.fd_map a b })
  unfolding process_request
  handle-join chunks c fits named free ready =
      handle-readable listen_sock a chunks [] c p.first_client
      ∙ rw (lt→ltb a max_fd p.first_small) (
          rw free (
            rw (read_all-flatten chunks join_size fits)
              (rw named (join_ready a b c p.second_nonzero p.second_small ready))))

  -- Both connect, the first names the second, and then they talk: each message of either reaches
  -- the other, whole, once and in order.
  pub io_loop-conversation :
      (name : List (List ℕ)) (ms : List Message)
      → length (flatten name) < join_size
      → atoi (flatten name) ≡ pos b
      → AllMessages ms
      → io_loop listen_sock
          (connects listen_sock a ∷ connects listen_sock b ∷ readable a name [] ∷ map (says a b) ms)
          start
        ≡ ok (record start {
          fd_map = paired (λ _. 0) a b;
          ready_fd_map = update (update (λ _. false) a true) b true;
          sent = map (hears a b) ms;
        })
  io_loop-conversation name ms fits named all =
      let two : Chat = record start { ready_fd_map = update (update (λ _. false) a true) b true } in
      io_loop-cons (connects listen_sock a) _ start _ (handle-connects a start p.first_small)
      ∙ io_loop-cons (connects listen_sock b) _ _ _ (handle-connects b _ p.second_small)
      ∙ io_loop-cons (readable a name []) _ two _
          (handle-join name two fits named refl (rw (==_refl b) refl))
      ∙ io_loop-says ms (record two { fd_map = paired (λ _. 0) a b }) all (ground arith)
          (rw (==_refl b) refl)
