-- ===== src/Echo/Clients.antt =====
-- The loop of libevent/originEchoServer.cpp with many clients at a time.
use linux_study_notes.Echo.Evbuffer.{Evbuffers, IsQueue}
use linux_study_notes.Echo.Lines.{echo, short_lines}
use linux_study_notes.Echo.Serve.{arrive-echo}
use linux_study_notes.Echo.Server.{
  Bufferevent, arrive, Serving, fd_setsize, Happening, incoming, came, over, new_bev, do_accept,
  errorcb, receive, happen, serve,
}
use linux_study_notes.Prelude.{
  ℕ, ◌≤◌, ◌≡◌, refl, ap, ◌∙◌, true, false, List, [], ◌∷◌, ◌++◌, Option, none, some, ltb, le→not_ltb,
  ◌==◌, ==_iff, ==_refl, if◌then◌else◌, flatten, Bool-cases, inl, inr, arith,
}

-- The chunks that come on a descriptor.
unfoldable pub chunks_for : ℕ → List Happening → List (List ℕ)
chunks_for fd [] = []
chunks_for fd (incoming r ∷ hs) = chunks_for fd hs
chunks_for fd (came at chunk ∷ hs) = if at == fd then chunk ∷ chunks_for fd hs else chunks_for fd hs
chunks_for fd (over at ∷ hs) = chunks_for fd hs

-- `accept` gives no descriptor that is still open, and the server closes none that it serves.
abbrev pub NotAgain : ℕ → List Happening → Type 0
NotAgain fd [] = Unit
NotAgain fd (incoming none ∷ hs) = NotAgain fd hs
NotAgain fd (incoming (some at) ∷ hs) = ((at == fd) ≡ false) × NotAgain fd hs
NotAgain fd (came at chunk ∷ hs) = NotAgain fd hs
NotAgain fd (over at ∷ hs) = NotAgain fd hs

module _ {Buf : Type 0} where
  -- The `bufferevent` of a descriptor.
  unfoldable pub bev_of : ℕ → List (ℕ × Bufferevent Buf) → Option (Bufferevent Buf)
  bev_of fd [] = none
  bev_of fd ((at, bev) ∷ bevs) = if at == fd then some bev else bev_of fd bevs

  module _ (e : Evbuffers Buf) where
    receive_same :
        (fd : ℕ) (chunk : List ℕ) (bevs : List (ℕ × Bufferevent Buf)) (bev : Bufferevent Buf)
        → bev_of fd bevs ≡ some bev
        → bev_of fd (receive e fd chunk bevs) ≡ some (arrive e (chunk ∷ []) bev)
    unfolding bev_of receive
    receive_same fd chunk [] bev h = cc
    receive_same fd chunk ((at, first) ∷ bevs) bev h = elim (Bool-cases (at == fd)) [
      | inl found ↦
          let now = rw found at h in let same : first ≡ bev = cc in rw (found, same) (rw found refl)
      | inr other ↦
          let now = rw other at h in rw other (rw other (receive_same fd chunk bevs bev now))
    ]

    receive_other :
        (fd other : ℕ) (chunk : List ℕ) (bevs : List (ℕ × Bufferevent Buf))
        → (other == fd) ≡ false
        → bev_of fd (receive e other chunk bevs) ≡ bev_of fd bevs
    unfolding bev_of receive
    receive_other fd other chunk [] h = refl
    receive_other fd other chunk ((at, first) ∷ bevs) h = elim (Bool-cases (at == other)) [
      | inl found ↦ let ne : (at == fd) ≡ false = ground arith in rw (found, ne) refl
      | inr apart ↦ rw apart (elim (Bool-cases (at == fd)) [
        | inl this ↦ rw (this, bev_of) refl
        | inr next ↦ rw (next, bev_of) (receive_other fd other chunk bevs h)
      ])
    ]

    accept_other :
        (fd at : ℕ) (s : Serving Buf)
        → (at == fd) ≡ false
        → bev_of fd (do_accept e (some at) s).bevs ≡ bev_of fd s.bevs
    unfolding bev_of do_accept
    accept_other fd at s h = elim (Bool-cases (ltb fd_setsize at)) [
      | inl high ↦ rw high refl
      | inr low ↦ rw low (rw h refl)
    ]

    -- What happens to other clients changes nothing for one.
    serve-arrive :
        (fd : ℕ) (hs : List Happening) (s : Serving Buf) (bev : Bufferevent Buf)
        → NotAgain fd hs
        → bev_of fd s.bevs ≡ some bev
        → bev_of fd (serve e hs s).bevs ≡ some (arrive e (chunks_for fd hs) bev)
    unfolding serve happen errorcb chunks_for arrive
    serve-arrive fd [] s bev n h = h
    serve-arrive fd (incoming none ∷ hs) s bev n h =
        serve-arrive fd hs (do_accept e none s) bev n (unfold do_accept in h)
    serve-arrive fd (incoming (some at) ∷ hs) s bev n h =
        serve-arrive fd hs (do_accept e (some at) s) bev n.1 (accept_other fd at s n.0 ∙ h)
    serve-arrive fd (came at chunk ∷ hs) s bev n h = elim (Bool-cases (at == fd)) [
      | inl found ↦ rw found (
          rw ((==_iff at fd).0 found) (
            serve-arrive fd hs (record s { bevs = receive e fd chunk s.bevs })
              (arrive e (chunk ∷ []) bev) n (receive_same fd chunk s.bevs bev h)))
      | inr other ↦ rw other (
          serve-arrive fd hs (record s { bevs = receive e at chunk s.bevs }) bev n
            (receive_other fd at chunk s.bevs other ∙ h))
    ]
    serve-arrive fd (over at ∷ hs) s bev n h = serve-arrive fd hs s bev n h

    serve-append :
        (before after : List Happening) (s : Serving Buf)
        → serve e (before ++ after) s ≡ serve e after (serve e before s)
    unfolding serve
    serve-append [] after s = refl
    serve-append (h ∷ before) after s = serve-append before after (happen e h s)

    accept_low :
        (fd : ℕ) (s : Serving Buf)
        → fd ≤ fd_setsize
        → bev_of fd (do_accept e (some fd) s).bevs ≡ some (new_bev e)
    unfolding bev_of do_accept
    accept_low fd s low = rw (le→not_ltb fd_setsize fd low) (rw (==_refl fd) refl)

    -- Whatever comes before and between, a client is served as if it were alone.
    pub serve-alone :
        (fd : ℕ) (before after : List Happening) (s : Serving Buf)
        → fd ≤ fd_setsize
        → NotAgain fd after
        → bev_of fd (serve e (before ++ incoming (some fd) ∷ after) s).bevs
          ≡ some (arrive e (chunks_for fd after) (new_bev e))
    unfolding serve
    serve-alone fd before after s low n =
        ap (λ r. bev_of fd r.bevs) (serve-append before (incoming (some fd) ∷ after) s)
        ∙ serve-arrive fd after (do_accept e (some fd) (serve e before s)) (new_bev e) n
            (accept_low fd (serve e before s) low)

-- A client whose lines are shorter than `max_line` gets the echo of its stream, however its bytes
-- are cut into chunks, and whatever other clients send, in whatever order, before and between.
pub each_client-echo :
    {Buf : Type 0} {e : Evbuffers Buf} {bytes : Buf → List ℕ}
    → IsQueue e bytes
    → (fd : ℕ) (before after : List Happening) (s : Serving Buf) → fd ≤ fd_setsize
    → NotAgain fd after
    → short_lines [] (flatten (chunks_for fd after)) ≡ true
    → (bev : Bufferevent Buf) × (bev_of fd (serve e (before ++ incoming (some fd) ∷ after) s).bevs
        ≡ some bev)
      × (bytes bev.output ≡ (echo [] (flatten (chunks_for fd after))).out)
      × (bytes bev.input ≡ (echo [] (flatten (chunks_for fd after))).held)
each_client-echo {e} {bytes} queue fd before after s low n short =
    let chunks = chunks_for fd after in
    let (sent, left) =
      arrive-echo queue chunks (new_bev e) (rw queue.fresh_empty tt) (rw queue.fresh_empty short) in
    (
      arrive e chunks (new_bev e),
      serve-alone e fd before after s low n,
      (rw queue.fresh_empty at sent),
      (rw queue.fresh_empty at left),
    )
