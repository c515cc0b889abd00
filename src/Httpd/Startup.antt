-- ===== src/Httpd/Startup.antt =====
-- `startup` and `main` of tinyhttpd/httpd.c.
pub mod Visitors
pub mod Guests
use linux_study_notes.Httpd.Conn.{Host, Junk, Conn, incoming}
use linux_study_notes.Httpd.Fault.{Result, fault, ok}
use linux_study_notes.Httpd.Server.{accept_request}
use linux_study_notes.Libc.{codes}
use linux_study_notes.Sockets.{Kernel, htons, ntohs, Ends, died, went_on, ◌>>=◌, or_die, check}
use linux_study_notes.Sockets.Laws.{View, IsKernel, htons-ntohs, htons_zero}
use linux_study_notes.Prelude.{
  ℕ, ◌<◌, ◌≡◌, ◌⊎◌, inl, inr, refl, ap, sym, ◌∙◌, Bool, true, false, List, [], ◌∷◌, Option, none,
  some, ◌==◌, ==_iff, if◌then◌else◌, Bool-cases, Option-cases,
}

-- A socket that was set up, and `*port`.
pub record Started (W : Type 0) : Type 0 where
  pub kernel : W
  pub httpd : ℕ
  pub port : ℕ

-- A client that `accept` gives: what it sends, and what the stack of the server then holds.
pub record Visitor : Type 0 where
  pub sends : List ℕ
  pub junk : Junk

module _ {W : Type 0} (k : Kernel W) where
  -- `if (*port == 0)`: `*port` becomes the port that was chosen.
  unfoldable pub chosen_port : ℕ → ℕ → W → Ends ℕ
  unfolding ntohs
  chosen_port httpd port w =
      let chosen =
        or_die (codes "getsockname") (k.getsockname httpd w) >>= λ p. went_on (ntohs p) in
      if port == 0 then chosen else went_on port

  unfoldable pub startup : ℕ → W → Ends (Started W)
  unfolding htons chosen_port
  startup port w =
      let made = k.socket w in
      or_die (codes "socket") made.1 >>= λ httpd.
      check (codes "bind") (k.bind httpd (htons port) made.0) >>= λ bound.
      chosen_port httpd port bound >>= λ port.
      check (codes "listen") (k.listen httpd 5 bound) >>= λ listening.
      went_on (record { kernel = listening; httpd = httpd; port = port })

-- The loop of `main`: the connections that were served, the last of them where a fault ends the
-- server. `none` is an `accept` that fails; behind the last of the visitors, `accept` waits.
unfoldable pub serve_visitors : Host → List (Option Visitor) → List (Result Conn)
unfolding accept_request
serve_visitors h [] = []
serve_visitors h (none ∷ visitors) = []
serve_visitors h (some v ∷ visitors) =
    let rest = serve_visitors h visitors in
    elim (accept_request h v.junk (incoming v.sends)) [
      | fault why ↦ fault why ∷ []
      | ok k ↦ ok k ∷ rest
    ]

-- `main`, whose port is 0.
unfoldable pub main :
    {W : Type 0} → Kernel W → W → Host → List (Option Visitor) → Ends (List (Result Conn))
unfolding startup serve_visitors
main k w h visitors = startup k 0 w >>= λ s. went_on (serve_visitors h visitors)

-- A socket that listens on the port that is returned, or an exit with a text that `Failed` allows.
abbrev pub Ended : {W : Type 0} → View W → (List ℕ → Type 0) → Ends (Started W) → Type 0
Ended v Failed (died text) = Failed text
Ended v Failed (went_on s) =
    (v.listens s.kernel s.httpd ≡ true) × (v.port_of s.kernel s.httpd ≡ htons s.port)

-- The calls behind `bind`: which of them failed is what the text says.
abbrev pub FailedBound : {W : Type 0} → Kernel W → ℕ → ℕ → W → List ℕ → Type 0
FailedBound k port httpd w text =
    ((text ≡ codes "getsockname") × (port ≡ 0) × (k.getsockname httpd w ≡ none))
    ⊎ ((text ≡ codes "listen")
        × (((port == 0) ≡ false) ⊎ ((p : ℕ) × (k.getsockname httpd w ≡ some p)))
        × ((k.listen httpd 5 w).1 ≡ false))

-- The call that failed, with the calls before it that did not.
abbrev pub Failed : {W : Type 0} → Kernel W → ℕ → W → List ℕ → Type 0
Failed k port w text =
    ((text ≡ codes "socket") × ((k.socket w).1 ≡ none))
    ⊎ ((httpd : ℕ) × ((k.socket w).1 ≡ some httpd)
        × (((text ≡ codes "bind") × ((k.bind httpd (htons port) (k.socket w).0).1 ≡ false))
            ⊎ (((k.bind httpd (htons port) (k.socket w).0).1 ≡ true)
                × FailedBound k port httpd (k.bind httpd (htons port) (k.socket w).0).0 text)))

abbrev pub IsStarted : {W : Type 0} → Kernel W → View W → ℕ → W → Ends (Started W) → Type 0
IsStarted k v port w = Ended v (Failed k port w)

Ended-map :
    {W : Type 0} (v : View W) (F G : List ℕ → Type 0) (r : Ends (Started W))
    → ((text : List ℕ) → F text → G text)
    → Ended v F r
    → Ended v G r
Ended-map v F G (died text) f h = f text h
Ended-map v F G (went_on s) f h = h

module _ {W : Type 0} {k : Kernel W} {v : View W} (laws : IsKernel k v) where
  listening-Ended :
      (F : List ℕ → Type 0) (port httpd : ℕ) (w : W)
      → v.port_of w httpd ≡ htons port
      → ((k.listen httpd 5 w).1 ≡ false → F (codes "listen"))
      → Ended v F (
          check (codes "listen") (k.listen httpd 5 w) >>= λ l.
          went_on (record { kernel = l; httpd = httpd; port = port }))
  listening-Ended F port httpd w e failed = elim (Bool-cases (k.listen httpd 5 w).1) [
    | inl works ↦ rw works (laws.listen_on httpd 5 w works, (laws.listen_keeps httpd 5 w).0 ∙ e)
    | inr fails ↦ rw fails (failed fails)
  ]

  bound-Ended :
      (port httpd : ℕ) (w : W)
      → (htons port ≡ 0) ⊎ (v.port_of w httpd ≡ htons port)
      → port < 65536
      → Ended v (FailedBound k port httpd w) (
          chosen_port k httpd port w >>= λ port.
          check (codes "listen") (k.listen httpd 5 w) >>= λ l.
          went_on (record { kernel = l; httpd = httpd; port = port }))
  unfolding chosen_port ntohs
  bound-Ended port httpd w bound small = elim (Bool-cases (port == 0)) [
    | inr given ↦
        let at : v.port_of w httpd ≡ htons port = elim bound [
          | inl no_port ↦ let zero_port = (==_iff port 0).1 (htons_zero port small no_port) in cc
          | inr e ↦ e
        ] in
        rw given (
          listening-Ended (FailedBound k port httpd w) port httpd w at
            λ fails. inr (refl, inl given, fails))
    | inl asked ↦ elim (Option-cases (k.getsockname httpd w)) [
      | inl fails ↦ rw (asked, fails) (inl (refl, (==_iff port 0).0 asked, fails))
      | inr found ↦
          let (p, e) = found in
          let (at, p_small) = laws.name_is httpd p w e in
          rw (asked, e)
            (listening-Ended (FailedBound k port httpd w) (ntohs p) httpd w
              (at ∙ sym (htons-ntohs p p_small)) λ fails. inr (refl, inr (p, e), fails))
    ]
  ]

  -- For a port below 65536, and whatever the calls return: `startup` exits with the text of the
  -- call that failed, those before it having worked, or the socket listens on the port that is
  -- returned, given or chosen by the kernel.
  pub startup-IsStarted :
      (port : ℕ) (w : W) → port < 65536 → IsStarted k v port w (startup k port w)
  unfolding startup
  startup-IsStarted port w small = elim (Option-cases (k.socket w).1) [
    | inl fails ↦ rw fails (inl (refl, fails))
    | inr found ↦
        let (httpd, e) = found in
        let made = (k.socket w).0 in
        let bound = k.bind httpd (htons port) made in
        elim (Bool-cases bound.1) [
          | inl works ↦
              rw (e, works)
                (Ended-map v (FailedBound k port httpd bound.0) (Failed k port w) _
                  (λ text failed. inr (httpd, e, inr (works, failed)))
                  (bound-Ended port httpd bound.0 (laws.bind_port httpd (htons port) made works)
                    small))
          | inr fails ↦ rw (e, fails) (inr (httpd, e, inl (refl, fails)))
        ]
  ]
