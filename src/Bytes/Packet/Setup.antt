-- ===== src/Bytes/Packet/Setup.antt =====
-- The sockets of bytebuffer/mangosByteBuffer: the constructors of server.cpp and client.cpp, and
-- `acceptClient` and `closeClient`.
use linux_study_notes.Libc.{codes}
use linux_study_notes.Sockets.{Kernel, htons, Ends, went_on, ◌>>=◌, check}
use linux_study_notes.Sockets.Laws.{View, IsKernel}
use linux_study_notes.Prelude.{
  ℕ, ◌≡◌, ◌≢◌, ◌∙◌, true, List, [], ◌∷◌, ◌++◌, Option, none, some, inl, inr, arith,
}

-- A socket of one of the two programs, -1 being `none`.
pub record Tcp (W : Type 0) : Type 0 where
  pub kernel : W
  pub fd : Option ℕ

abbrev pub tcp_port : ℕ
tcp_port = 8001

module _ {W : Type 0} (k : Kernel W) where
  -- No value is looked at; on -1 the other two calls change nothing.
  unfoldable pub bind_and_listen : Option ℕ → W → Tcp W
  unfolding htons
  bind_and_listen none w = record { kernel = w; fd = none }
  bind_and_listen (some fd) w =
      let bound = k.bind fd (htons tcp_port) w in
      record { kernel = (k.listen fd 10 bound.0).0; fd = some fd }

  unfoldable pub tcp_server : W → Tcp W
  unfolding bind_and_listen
  tcp_server w = let made = k.socket w in bind_and_listen made.1 made.0

  unfoldable pub tcp_client : W → Ends (Tcp W)
  unfolding htons
  tcp_client w =
      let made = k.socket w in
      check (codes "connect:") (k.connect made.1 (htons tcp_port) made.0) >>= λ connected.
      went_on (record { kernel = connected; fd = made.1 })

  -- `m_connfd`
  unfoldable pub accept_client : ℕ → W → Tcp W
  accept_client listenfd w =
      let made = k.accept listenfd w in record { kernel = made.0; fd = made.1 }

-- The descriptors that are closed behind the call.
unfoldable pub close_client : Option ℕ → List ℕ → List ℕ
close_client none closed = closed
close_client (some connfd) closed = closed ++ connfd ∷ []

tcp_port-some : htons tcp_port ≢ 0
unfolding htons
tcp_port-some e = omega (arith, e)

module _ {W : Type 0} {k : Kernel W} {v : View W} (laws : IsKernel k v) where
  -- Where `bind` and `listen` work, the server listens at its port.
  pub bind_and_listen-works :
      (fd : ℕ) (w : W)
      → (k.bind fd (htons tcp_port) w).1 ≡ true
      → (k.listen fd 10 (k.bind fd (htons tcp_port) w).0).1 ≡ true
      → (v.listens (bind_and_listen k (some fd) w).kernel fd ≡ true)
        × (v.port_of (bind_and_listen k (some fd) w).kernel fd ≡ htons tcp_port)
  unfolding bind_and_listen
  bind_and_listen-works fd w binds listens = (
    laws.listen_on fd 10 (k.bind fd (htons tcp_port) w).0 listens,
    (laws.listen_keeps fd 10 (k.bind fd (htons tcp_port) w).0).0
        ∙ elim (laws.bind_port fd (htons tcp_port) w binds) [
          | inl no_port ↦ absurd (tcp_port-some no_port)
          | inr at ↦ at
        ],
  )
