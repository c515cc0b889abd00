-- ===== src/Echo/Startup.antt =====
-- `run` and `main` of libevent/originEchoServer.cpp, and `echo_client` and `main` of
-- libevent/originEchoClient.cpp: no value of a call is looked at.
use linux_study_notes.Echo.Client.{Client, client, dispatch}
use linux_study_notes.Echo.Client
use linux_study_notes.Echo.Evbuffer.{Evbuffers}
use linux_study_notes.Echo.Server.{Happening, Serving, serve}
use linux_study_notes.Libc.{codes, atoi}
use linux_study_notes.Libc.Int.{ℤ, pos, negsuc}
use linux_study_notes.Sockets.{Kernel, htons}
use linux_study_notes.Sockets.Laws.{View, IsKernel}
use linux_study_notes.Prelude.{
  ℕ, ◌-◌, ◌%◌, ◌≡◌, ◌⊎◌, inl, inr, refl, ◌∙◌, true, List, [], Option, none, some, Option-cases,
  arith,
}

-- A call on a descriptor that may be -1, for which it fails.
abbrev pub on {ℓ} : {W : Type ℓ} → Option ℕ → (ℕ → W → W) → W → W
on none call w = w
on (some fd) call w = call fd w

-- `(short)` of an `int`, as the 16 bits that `htons` takes.
unfoldable pub to_short : ℤ → ℕ
to_short (pos n) = n % 65536
to_short (negsuc n) = 65535 - n % 65536

-- The server in front of its loop.
pub record Ready (W : Type 0) : Type 0 where
  pub kernel : W
  pub listener : Option ℕ

-- The client in front of its loop.
pub record Connecting (W : Type 0) : Type 0 where
  pub kernel : W
  pub sock : Option ℕ
  pub client : Client

-- `evutil_make_socket_nonblocking` of libevent is a parameter.
module _ {W : Type 0} (k : Kernel W) (nonblocking : Option ℕ → W → W) where
  unfoldable pub set_up : W → Ready W
  unfolding htons
  set_up w =
      let made = k.socket w in
      let quick = nonblocking made.1 made.0 in
      let reused = on made.1 (λ fd w'. (k.setsockopt fd w').0) quick in
      let bound = on made.1 (λ fd w'. (k.bind fd (htons 8888) w').0) reused in
      record { kernel = on made.1 (λ fd w'. (k.listen fd 16 w').0) bound; listener = made.1 }

  -- An event on -1 never comes.
  unfoldable pub watched : Option ℕ → List Happening → List Happening
  watched none hs = []
  watched (some fd) hs = hs

  unfoldable pub run : {Buf : Type 0} → Evbuffers Buf → List Happening → W → Ready W × Serving Buf
  unfolding set_up watched serve
  run e hs w =
      let ready = set_up w in
      (ready, serve e (watched ready.listener hs) (record { bevs = []; closed = [] }))

  -- The value of `connect` is not looked at: on a socket that does not block it is -1.
  unfoldable pub echo_client : ℕ → W → Connecting W
  unfolding htons
  echo_client port w =
      let made = k.socket w in
      let quick = nonblocking made.1 made.0 in
      let kept = on made.1 (λ fd w'. (k.setsockopt fd w').0) quick in
      record { kernel = (k.connect made.1 (htons port) kept).0; sock = made.1; client = client }

  unfoldable pub main : List Client.Happening → W → Connecting W × Option Client
  unfolding echo_client dispatch to_short
  main hs w = let c = echo_client (to_short (atoi (codes "8888"))) w in (c, dispatch hs c.client)

-- `bind` and `listen` work on the descriptor.
pub record CanListen {W : Type 0} (k : Kernel W) (fd : ℕ) : Type 0 where
  pub binds : (w : W) → (k.bind fd (htons 8888) w).1 ≡ true
  pub listens : (w : W) → (k.listen fd 16 w).1 ≡ true

-- With no socket `run` serves nobody, and ends no sooner; if `bind` and `listen` work on its
-- socket, the socket listens on the port that the client asks for.
pub run-Listens :
    {W Buf : Type 0} {k : Kernel W} {v : View W}
    → IsKernel k v
    → (nonblocking : Option ℕ → W → W) (e : Evbuffers Buf) (hs : List Happening) (w : W)
    → ((fd : ℕ) → CanListen k fd)
    → (((run k nonblocking e hs w).0.listener ≡ none) × ((run k nonblocking e hs w).1.bevs ≡ []))
      ⊎ ((fd : ℕ) × ((run k nonblocking e hs w).0.listener ≡ some fd)
          × (v.listens (run k nonblocking e hs w).0.kernel fd ≡ true)
          × (v.port_of (run k nonblocking e hs w).0.kernel fd
              ≡ htons (to_short (atoi (codes "8888")))))
unfolding run set_up watched serve htons to_short atoi
run-Listens {k} {v} laws nonblocking e hs w can = elim (Option-cases (k.socket w).1) [
  | inl no_socket ↦ rw no_socket (inl (refl, refl))
  | inr (fd, found) ↦
      let quick = nonblocking (some fd) (k.socket w).0 in
      let reused = (k.setsockopt fd quick).0 in
      let bound = (k.bind fd (htons 8888) reused).0 in
      rw found (
        inr (
          fd,
          refl,
          laws.listen_on fd 16 bound ((can fd).listens bound),
          (laws.listen_keeps fd 16 bound).0
              ∙ elim (laws.bind_port fd (htons 8888) reused ((can fd).binds reused)) [
                | inl zero_port ↦ absurd (omega arith)
                | inr there ↦ there
              ],
        ))
]
