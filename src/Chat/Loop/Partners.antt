-- ===== src/Chat/Loop/Partners.antt =====
-- Whom epoll_simple_chat_server/main.c pairs: clients that it has accepted.
use linux_study_notes.Chat.Loop.{Chat, Event, Result, ok, stop, update}
use linux_study_notes.Prelude.{
  ℕ, ◌≡◌, ◌⊎◌, Bool, true, if◌then◌else◌, List, [], ◌∷◌, ◌==◌, none, some,
}

-- Every partner in the map is a client that the server has accepted.
abbrev pub Partnered : Chat → Type 0
Partnered c = (x : ℕ) → (c.fd_map x ≡ 0) ⊎ (c.ready_fd_map (c.fd_map x) ≡ true)

-- The server is stopped, or has accepted the clients `ready`.
abbrev Kept : (ℕ → Bool) → Result Chat → Type 0
Kept ready (ok c) = (c.ready_fd_map ≡ ready) × Partnered c
Kept ready (stop e) = Unit

-- The clients that have been accepted behind an event.
abbrev pub accepting : ℕ → Event → (ℕ → Bool) → ℕ → Bool
accepting listen_sock e ready = elim e.accepted [
  | none ↦ ready
  | some client ↦ if e.fd == listen_sock then update ready client true else ready
]

-- `epoll_wait` reports what `epoll_ctl` has added: the listening socket, and clients behind their
-- `accept`.
abbrev pub AllWatched : ℕ → (ℕ → Bool) → List Event → Type 0
AllWatched listen_sock ready [] = Unit
AllWatched listen_sock ready (e ∷ events) =
    (((e.fd == listen_sock) ≡ true) ⊎ (ready e.fd ≡ true))
    × AllWatched listen_sock (accepting listen_sock e ready) events
