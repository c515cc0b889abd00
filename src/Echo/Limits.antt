-- ===== src/Echo/Limits.antt =====
-- How much the server of libevent/originEchoServer.cpp keeps for its clients.
use linux_study_notes.Echo.Evbuffer.{Evbuffers, IsQueue}
use linux_study_notes.Echo.Lines.{echo_call, echo}
use linux_study_notes.Echo.Serve.{readcb-echo_call}
use linux_study_notes.Echo.Server.{
  Bufferevent, max_line, arrive, Serving, fd_setsize, Happening, incoming, came, over, do_accept,
  errorcb, receive, happen, serve,
}
use linux_study_notes.Prelude.{
  ℕ, ◌<◌, ◌≤◌, sym, subst, List, [], ◌∷◌, none, some, ltb, not_ltb→le, not_leb→lt, leb, ◌==◌,
  length, Bool-cases, inl, inr, arith,
}

-- Of no call is an input of `max_line` bytes or more left.
echo_call-short : (input : List ℕ) → length (echo_call input).held < max_line
unfolding echo_call
echo_call-short input = elim (Bool-cases (leb max_line (length (echo [] input).held))) [
  | inl long ↦ rw long (omega arith)
  | inr short ↦ rw short (not_leb→lt max_line (length (echo [] input).held) short)
]

module _ {Buf : Type 0} (bytes : Buf → List ℕ) where
  -- Each client has a descriptor up to `fd_setsize`, and an unfinished line below `max_line`.
  abbrev pub AllBounded : List (ℕ × Bufferevent Buf) → Type 0
  AllBounded [] = Unit
  AllBounded ((fd, bev) ∷ bevs) =
      (fd ≤ fd_setsize) × (length (bytes bev.input) < max_line) × AllBounded bevs

module _ {Buf : Type 0} {e : Evbuffers Buf} {bytes : Buf → List ℕ} (queue : IsQueue e bytes) where
  arrive-short :
      (chunk : List ℕ) (bev : Bufferevent Buf)
      → length (bytes (arrive e (chunk ∷ []) bev).input) < max_line
  unfolding arrive
  arrive-short chunk bev =
      let filled : Bufferevent Buf = record bev { input = e.add chunk bev.input } in
      subst (λ l. length l < max_line) (sym (readcb-echo_call queue filled).1)
        (echo_call-short (bytes filled.input))

  receive-Bounded :
      (fd : ℕ) (chunk : List ℕ) (bevs : List (ℕ × Bufferevent Buf))
      → AllBounded bytes bevs
      → AllBounded bytes (receive e fd chunk bevs)
  unfolding receive
  receive-Bounded fd chunk [] b = tt
  receive-Bounded fd chunk ((at, bev) ∷ bevs) b = elim (Bool-cases (at == fd)) [
    | inl found ↦ rw found (b.0, arrive-short chunk bev, b.2)
    | inr other ↦ rw other (b.0, b.1, receive-Bounded fd chunk bevs b.2)
  ]

  happen-Bounded :
      (h : Happening) (s : Serving Buf)
      → AllBounded bytes s.bevs
      → AllBounded bytes (happen e h s).bevs
  unfolding happen do_accept errorcb
  happen-Bounded (incoming none) s b = b
  happen-Bounded (incoming (some fd)) s b = elim (Bool-cases (ltb fd_setsize fd)) [
    | inl high ↦ rw high b
    | inr low ↦ rw low (not_ltb→le fd_setsize fd low, rw queue.fresh_empty (omega arith), b)
  ]
  happen-Bounded (came fd chunk) s b = receive-Bounded fd chunk s.bevs b
  happen-Bounded (over fd) s b = b

  -- However long the lines are that the clients send, and in whatever order they do, the server
  -- keeps less than `max_line` bytes of each, and serves no descriptor above `fd_setsize`.
  pub serve-Bounded :
      (hs : List Happening) (s : Serving Buf)
      → AllBounded bytes s.bevs
      → AllBounded bytes (serve e hs s).bevs
  unfolding serve
  serve-Bounded [] s b = b
  serve-Bounded (h ∷ hs) s b = serve-Bounded hs (happen e h s) (happen-Bounded h s b)
