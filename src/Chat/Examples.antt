-- ===== src/Chat/Examples.antt =====
-- The theorems on epoll_simple_chat_server, at short conversations.
use linux_study_notes.Chat.Loop.Pairs.{IsPairing, paired, join-IsPairing, join_steals}
use linux_study_notes.Chat.Loop.Conversation.{
  Message, text, IsMessage, AllMessages, readable, connects, says, io_loop-conversation,
}
use linux_study_notes.Chat.Loop.{Chat, Event, ok, start, join, io_loop, update, talk_size}
use linux_study_notes.Chat.Network.Send.{Writes, room, send_all_complete}
use linux_study_notes.Chat.Network.{wrote, send_all}
use linux_study_notes.Chat.Setup.{IsAccepted, accept_incoming, accept_incoming-IsAccepted}
use linux_study_notes.Sockets.Toy.{toy_kernel, toy_view, toy_kernel-IsKernel, machine}
use linux_study_notes.Libc.Int.{pos}
use linux_study_notes.Libc.{codes, atoi, c_str}
use linux_study_notes.Prelude.{
  ℕ, ◌<◌, ◌≤◌, ◌≡◌, length, flatten, refl, Bool, ◌||◌, Bool-cases, inl, inr, true, false, List, map,
  [], ◌∷◌, none, some, ◌==◌, arith,
}

send_all_complete_example :
    send_all (codes "hello") (wrote 2 ∷ wrote 3 ∷ [])
    ≡ some (record { value = pos 5; taken = codes "hello" })
unfolding room c_str
send_all_complete_example =
    send_all_complete (codes "hello") (wrote 2 ∷ wrote 3 ∷ []) (ground arith) (omega arith)

-- Three clients; 6 talks to 7.
abbrev talking : Chat
talking = record start {
  fd_map = paired (λ _. 0) 6 7;
  ready_fd_map = λ x. (x == 5) || (x == 6) || (x == 7);
}

talking-IsPairing : IsPairing talking.fd_map
talking-IsPairing = record {
  none_at_zero = refl;
  mutual_at = λ x h. elim (Bool-cases (7 == x)) [
    | inl at_7 ↦ ground arith
    | inr not_7 ↦ elim (Bool-cases (6 == x)) [ inl at_6 ↦ ground arith | inr not_6 ↦ ground arith ]
  ];
}

abbrev waiting : Chat
waiting = record talking { ready_fd_map = λ x. true }

join-IsPairing_example : IsPairing (paired talking.fd_map 5 8)
unfolding join
join-IsPairing_example =
    join-IsPairing 5 8 waiting (record waiting { fd_map = paired talking.fd_map 5 8 })
      (ground arith) talking-IsPairing refl refl refl

join_steals_example : ¬ IsPairing (paired talking.fd_map 5 6)
unfolding join
join_steals_example =
    join_steals 5 6 7 waiting (record waiting { fd_map = paired talking.fd_map 5 6 }) (ground arith)
      (omega arith) refl refl (ground arith) (ground arith) refl

abbrev hang_up : Event
hang_up = record { fd = 6; events = 8; accepted = none; chunks = []; writes = [] }

abbrev arrives : ℕ → Event
arrives n = record { fd = 3; events = 1; accepted = some n; chunks = []; writes = [] }

abbrev names_five : Event
names_five = record { fd = 6; events = 1; accepted = none; chunks = codes "5" ∷ []; writes = [] }

abbrev both_ready : ℕ → Bool
both_ready = update (update (λ _. false) 5 true) 6 true

accept_incoming-IsAccepted_example :
    IsAccepted toy_kernel toy_view 3 4 machine (accept_incoming toy_kernel 3 4 machine)
accept_incoming-IsAccepted_example = accept_incoming-IsAccepted toy_kernel-IsKernel 3 4 machine

-- 5 names 6, and says two things, between which 6 answers.
abbrev messages : List Message
messages =
    record { by_second = false; chunks = codes "hi " ∷ codes "there" ∷ []; writes = wrote 100 ∷ [] }
    ∷ record { by_second = true; chunks = codes "hello" ∷ []; writes = wrote 2 ∷ wrote 3 ∷ [] }
    ∷ record { by_second = false; chunks = codes "bye" ∷ []; writes = wrote 3 ∷ [] }
    ∷ []

short-IsMessage :
    (m : Message)
    → length (flatten m.chunks) < talk_size
    → 0 < length (text m)
    → Writes m.writes
    → length (text m) ≤ room m.writes
    → IsMessage m
short-IsMessage m a b c d = record { fits = a; some_text = b; taken = c; enough = d }

messages-AllMessages : AllMessages messages
unfolding c_str room
messages-AllMessages = (
  short-IsMessage _ (omega arith) (omega arith) (ground arith) (omega arith),
  (
    short-IsMessage _ (omega arith) (omega arith) (ground arith, (ground arith, tt)) (omega arith),
    (short-IsMessage _ (omega arith) (omega arith) (ground arith) (omega arith), tt),
  ),
)

io_loop-conversation_example :
    io_loop 3
      (connects 3 5 ∷ connects 3 6 ∷ readable 5 (codes "6" ∷ []) [] ∷ map (says 5 6) messages)
      start
    ≡ ok (record start {
      fd_map = paired (λ _. 0) 5 6;
      ready_fd_map = update (update (λ _. false) 5 true) 6 true;
      sent = (6, codes "hi there") ∷ (5, codes "hello") ∷ (6, codes "bye") ∷ [];
    })
unfolding atoi
io_loop-conversation_example =
    io_loop-conversation
      (record {
        first_small = omega arith;
        second_small = omega arith;
        first_client = ground arith;
        second_client = ground arith;
        first_nonzero = ground arith;
        second_nonzero = ground arith;
      })
      (codes "6" ∷ []) messages (omega arith) refl messages-AllMessages
