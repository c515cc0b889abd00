-- ===== src/Chat/Setup.antt =====
-- epoll_simple_chat_server/network.c: the calls that set up the sockets; and `main` of main.c.
use Prim.Native.Nat.{bit_or}
use linux_study_notes.Chat.Loop.{Chat, Event, Result, io_loop, start}
use linux_study_notes.Libc.{codes}
use linux_study_notes.Sockets.{Kernel, htons, Ends, died, went_on, ◌>>=◌, or_die, check}
use linux_study_notes.Sockets.Laws.{View, IsKernel}
use linux_study_notes.Prelude.{
  ℕ, ◌+◌, ◌%◌, ◌^◌, ◌≡◌, ◌⊎◌, inl, inr, refl, ap, ◌∙◌, List, Option, none, some, true, false,
  Bool-cases, Option-cases,
}

-- O_NONBLOCK, LISTENQ, and EPOLLIN with EPOLLOUT and EPOLLET
abbrev pub o_nonblock : ℕ
o_nonblock = 0o4000

abbrev pub listenq : ℕ
listenq = 128

abbrev pub epollin : ℕ
epollin = 1

abbrev pub client_events : ℕ
client_events = epollin + 4 + 2 ^ 31

-- A descriptor with the state of the kernel.
pub record Opened (W : Type 0) : Type 0 where
  pub kernel : W
  pub fd : ℕ

module _ {W : Type 0} (k : Kernel W) where
  unfoldable pub make_socket_non_blocking : Option ℕ → W → Ends W
  make_socket_non_blocking fd w = or_die (codes "fcntl") (k.get_flags fd w) >>= λ flags.
      check (codes "F_SETFL error") (k.set_flags fd (bit_or flags o_nonblock) w)

  -- The value of `listen` is not looked at, and a failure of `setsockopt` is only printed.
  unfoldable pub open_non_blocking_socket : ℕ → W → Ends (Opened W)
  unfolding make_socket_non_blocking htons
  open_non_blocking_socket port w =
      let made = k.socket w in
      or_die (codes "scoket error") made.1 >>= λ fd.
      check (codes "bind error") (k.bind fd (htons (port % 65536)) (k.setsockopt fd made.0).0)
      >>= λ bound. make_socket_non_blocking (some fd) bound >>= λ quick.
          went_on (record { kernel = (k.listen fd listenq quick).0; fd = fd })

  -- The value of `epoll_ctl` is not looked at.
  unfoldable pub epoll_start : ℕ → W → Ends (Opened W)
  epoll_start listen_sock w =
      let made = k.epoll_create w in
      or_die (codes "epoll create error") made.1 >>= λ efd.
      went_on (record { kernel = (k.epoll_add efd (some listen_sock) epollin made.0).0; fd = efd })

  -- A failure of `accept` is printed, and -1 goes on to the next calls.
  unfoldable pub accept_incoming : ℕ → ℕ → W → Ends (W × Option ℕ)
  unfolding make_socket_non_blocking
  accept_incoming listen_sock epoll_fd w =
      let client = k.accept listen_sock w in
      make_socket_non_blocking client.1 client.0 >>= λ quick.
      check (codes "epoll_ctl error") (k.epoll_add epoll_fd client.1 client_events quick)
      >>= λ added. went_on (added, client.1)

  -- `main` of one of the processes that `fork_process` leaves, over the events that it gets.
  unfoldable pub main : List Event → W → Ends (Result Chat)
  unfolding open_non_blocking_socket epoll_start io_loop
  main events w = open_non_blocking_socket 8001 w >>= λ listening.
      epoll_start listening.fd listening.kernel >>= λ epoll.
      went_on (io_loop listening.fd events start)

-- What `accept_incoming` may end with: it exits with the text of the call that failed, the calls
-- behind `accept` having worked before it; or it gives the descriptor of `accept`, never -1, that
-- does not block and is watched for both directions.
abbrev pub IsAccepted : {W : Type 0} → Kernel W → View W → ℕ → ℕ → W → Ends (W × Option ℕ) → Type 0
IsAccepted k v listen_sock epoll_fd w (died text) =
    let (w1, client) = k.accept listen_sock w in
    ((text ≡ codes "fcntl") × (k.get_flags client w1 ≡ none))
    ⊎ ((fd old : ℕ) × (client ≡ some fd)
        × (k.get_flags (some fd) w1 ≡ some old)
        × (let set = k.set_flags (some fd) (bit_or old o_nonblock) w1 in
            ((text ≡ codes "F_SETFL error") × (set.1 ≡ false))
            ⊎ ((text ≡ codes "epoll_ctl error")
                × (set.1 ≡ true)
                × ((k.epoll_add epoll_fd (some fd) client_events set.0).1 ≡ false))))
IsAccepted k v listen_sock epoll_fd w (went_on r) =
    let (w1, client) = k.accept listen_sock w in
    (fd old : ℕ) × (client ≡ some fd)
    × (r.1 ≡ some fd)
    × (k.get_flags (some fd) w1 ≡ some old)
    × (v.flags r.0 fd ≡ bit_or old o_nonblock)
    × (v.watched r.0 epoll_fd fd ≡ some client_events)

-- A listening socket: its port and its flags.
abbrev pub IsOpened : {W : Type 0} → View W → ℕ → Ends (Opened W) → Type 0
IsOpened v port (died text) =
    (text ≡ codes "scoket error")
    ⊎ (text ≡ codes "bind error")
    ⊎ (text ≡ codes "fcntl")
    ⊎ (text ≡ codes "F_SETFL error")
IsOpened v port (went_on s) =
    (old : ℕ) × (v.flags s.kernel s.fd ≡ bit_or old o_nonblock)
    × ((htons (port % 65536) ≡ 0) ⊎ (v.port_of s.kernel s.fd ≡ htons (port % 65536)))

module _ {W : Type 0} {k : Kernel W} {v : View W} (laws : IsKernel k v) where
  -- Whatever the calls return: `accept_incoming` exits with the text of the call that failed, which
  -- is `fcntl` also where `accept` has failed, or it gives the client of `accept` with its old
  -- flags and O_NONBLOCK, watched for both directions.
  pub accept_incoming-IsAccepted :
      (listen_sock epoll_fd : ℕ) (w : W)
      → IsAccepted k v listen_sock epoll_fd w (accept_incoming k listen_sock epoll_fd w)
  unfolding accept_incoming make_socket_non_blocking
  accept_incoming-IsAccepted listen_sock epoll_fd w =
      elim (Option-cases (k.accept listen_sock w).1) [
        | inl fails ↦
            let bad = laws.bad_descriptor (k.accept listen_sock w).0 in
            rw (fails, bad)
              (inl (refl, ap (λ o. k.get_flags o (k.accept listen_sock w).0) fails ∙ bad))
        | inr found ↦
            let (client, e) = found in
            let w1 = (k.accept listen_sock w).0 in
            elim (Option-cases (k.get_flags (some client) w1)) [
              | inl fails ↦ rw (e, fails) (inl (refl, ap (λ o. k.get_flags o w1) e ∙ fails))
              | inr old ↦
                  let (f, f_is) = old in
                  let set = k.set_flags (some client) (bit_or f o_nonblock) w1 in
                  elim (Bool-cases set.1) [
                    | inr fails ↦ rw (e, f_is, fails) (inr (client, f, e, f_is, inl (refl, fails)))
                    | inl works ↦
                        elim (Bool-cases
                          (k.epoll_add epoll_fd (some client) client_events set.0).1) [
                            | inr fails ↦
                                rw (e, f_is, works, fails)
                                  (inr (client, f, e, f_is, inr (refl, works, fails)))
                            | inl adds ↦
                                rw (e, f_is, works, adds)
                                  (
                                    client,
                                    f,
                                    e,
                                    refl,
                                    f_is,
                                    laws.add_keeps_flags epoll_fd client client_events set.0
                                        ∙ laws.flags_set client (bit_or f o_nonblock) w1 works,
                                    laws.added epoll_fd client client_events set.0 adds,
                                  )
                          ]
                  ]
            ]
      ]

  -- What is done to a bound socket.
  non_blocking-IsOpened :
      (port fd : ℕ) (w : W)
      → (htons (port % 65536) ≡ 0) ⊎ (v.port_of w fd ≡ htons (port % 65536))
      → IsOpened v port (
          make_socket_non_blocking k (some fd) w >>= λ quick.
          went_on (record { kernel = (k.listen fd listenq quick).0; fd = fd }))
  unfolding make_socket_non_blocking
  non_blocking-IsOpened port fd w bound = elim (Option-cases (k.get_flags (some fd) w)) [
    | inl fails ↦ rw fails (inr (inr (inl refl)))
    | inr old ↦
        let (f, f_is) = old in
        let set = k.set_flags (some fd) (bit_or f o_nonblock) w in
        let keeps = laws.listen_keeps fd listenq set.0 in
        elim (Bool-cases set.1) [
          | inr fails ↦ rw (f_is, fails) (inr (inr (inr refl)))
          | inl works ↦
              rw (f_is, works)
                (
                  f,
                  keeps.1 ∙ laws.flags_set fd (bit_or f o_nonblock) w works,
                  elim bound [
                    | inl any_port ↦ inl any_port
                    | inr e ↦ inr (keeps.0 ∙ laws.set_keeps_port fd (bit_or f o_nonblock) w ∙ e)
                  ],
                )
        ]
  ]

  -- Whatever the calls return, `open_non_blocking_socket` exits or gives a socket that does not
  -- block and is bound to the port.
  pub open_non_blocking_socket-IsOpened :
      (port : ℕ) (w : W) → IsOpened v port (open_non_blocking_socket k port w)
  unfolding open_non_blocking_socket
  open_non_blocking_socket-IsOpened port w = elim (Option-cases (k.socket w).1) [
    | inl fails ↦ rw fails (inl refl)
    | inr found ↦
        let (fd, e) = found in
        let at = htons (port % 65536) in
        let w1 = (k.setsockopt fd (k.socket w).0).0 in
        elim (Bool-cases (k.bind fd at w1).1) [
          | inl works ↦
              rw (e, works)
                (non_blocking-IsOpened port fd (k.bind fd at w1).0 (laws.bind_port fd at w1 works))
          | inr fails ↦ rw (e, fails) (inr (inl refl))
        ]
  ]
