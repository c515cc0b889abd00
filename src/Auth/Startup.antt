-- ===== src/Auth/Startup.antt =====
-- The sockets of protobufTest: what `main` of AuthServer.cpp and of GameServer.cpp does before its
-- loop, and `connect_to` of GameClient.cpp.
use linux_study_notes.Libc.{codes}
use linux_study_notes.Sockets.{Kernel, htons, Ends, died, went_on, ◌>>=◌, check}
use linux_study_notes.Sockets.Laws.{View, IsKernel}
use linux_study_notes.Prelude.{
  ℕ, ◌≡◌, ◌≢◌, inl, inr, refl, ◌∙◌, List, Option, none, some, Bool-cases, arith,
}

abbrev pub auth_port : ℕ
auth_port = 4416

abbrev pub serv_port : ℕ
serv_port = 5533

abbrev pub bind_error : List ℕ
bind_error = codes "bind() error"

module _ {W : Type 0} (k : Kernel W) where
  -- Only the value of `bind` is looked at; on the descriptor -1 it fails. LISTENQ is 32.
  unfoldable pub listen_on : ℕ → Option ℕ → W → Ends (W × ℕ)
  unfolding htons
  listen_on port none w = died bind_error
  listen_on port (some listenfd) w = check bind_error (k.bind listenfd (htons port) w) >>= λ bound.
      went_on ((k.listen listenfd 32 bound).0, listenfd)

  unfoldable pub start_auth : W → Ends (W × ℕ)
  unfolding listen_on
  start_auth w = let made = k.socket w in listen_on auth_port made.1 made.0

  unfoldable pub start_game : W → Ends (W × ℕ)
  unfolding listen_on
  start_game w = let made = k.socket w in listen_on serv_port made.1 made.0

  -- `inet_pton` refuses the text "localhost" and leaves the address 0.0.0.0.
  unfoldable pub connect_to : ℕ → W → Ends (W × Option ℕ)
  unfolding htons
  connect_to port w =
      let made = k.socket w in
      check (codes "Error connecting to host") (k.connect made.1 (htons port) made.0)
      >>= λ connected. went_on (connected, made.1)

-- A server exits with its text, or has its socket at its port.
abbrev pub IsBoundTo : {W : Type 0} → View W → ℕ → Ends (W × ℕ) → Type 0
IsBoundTo v port (died text) = text ≡ bind_error
IsBoundTo v port (went_on r) = v.port_of r.0 r.1 ≡ htons port

abbrev pub IsConnected : {W : Type 0} → Ends (W × Option ℕ) → Type 0
IsConnected (died text) = text ≡ codes "Error connecting to host"
IsConnected (went_on r) = (fd : ℕ) × (r.1 ≡ some fd)

auth_some : htons auth_port ≢ 0
unfolding htons
auth_some e = omega (arith, e)

serv_some : htons serv_port ≢ 0
unfolding htons
serv_some e = omega (arith, e)

module _ {W : Type 0} {k : Kernel W} {v : View W} (laws : IsKernel k v) where
  listen_on-IsBoundTo :
      (port : ℕ) (made : Option ℕ) (w : W)
      → htons port ≢ 0
      → IsBoundTo v port (listen_on k port made w)
  unfolding listen_on
  listen_on-IsBoundTo port none w some_port = refl
  listen_on-IsBoundTo port (some fd) w some_port = elim (Bool-cases (k.bind fd (htons port) w).1) [
    | inr fails ↦ rw fails refl
    | inl works ↦ rw works (
        (laws.listen_keeps fd 32 (k.bind fd (htons port) w).0).0
        ∙ elim (laws.bind_port fd (htons port) w works) [
          | inl no_port ↦ absurd (some_port no_port)
          | inr at ↦ at
        ])
  ]

  connect-IsConnected :
      (port : ℕ) (made : Option ℕ) (w : W)
      → IsConnected (
          check (codes "Error connecting to host") (k.connect made (htons port) w) >>= λ connected.
          went_on (connected, made))
  connect-IsConnected port none w = rw (laws.connect_bad (htons port) w) refl
  connect-IsConnected port (some fd) w = elim (Bool-cases (k.connect (some fd) (htons port) w).1) [
    | inl works ↦ rw works (fd, refl)
    | inr fails ↦ rw fails refl
  ]

  -- Whatever the calls return, both servers exit with "bind() error" or go on with a socket at
  -- their port, and the client exits or goes on with a socket that is connected.
  pub start-IsBoundTo :
      (port : ℕ) (w : W)
      → IsBoundTo v auth_port (start_auth k w)
        × IsBoundTo v serv_port (start_game k w)
        × IsConnected (connect_to k port w)
  unfolding start_auth start_game connect_to
  start-IsBoundTo port w = (
    listen_on-IsBoundTo auth_port (k.socket w).1 (k.socket w).0 auth_some,
    listen_on-IsBoundTo serv_port (k.socket w).1 (k.socket w).0 serv_some,
    connect-IsConnected port (k.socket w).1 (k.socket w).0,
  )
