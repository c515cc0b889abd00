-- ===== src/Auth/World/Invariant.antt =====
-- What holds of protobufTest/AuthServer.cpp in every state: which rows the table has, and what any
-- client may have been sent.
use linux_study_notes.Auth.World.{
  Event, accepted, received, World, serve_thread, serve_event, serve,
}
use linux_study_notes.Auth.Arrays.{string_of-some, recv_into-keeps}
use linux_study_notes.Auth.Database.{Sqlite, Row, IsTable, auth_user}
use linux_study_notes.Auth.Login.{auth_user-keeps, add_unique_code-cases}
use linux_study_notes.Auth.Packet.{Protobuf, LoginPacket, text_of, auth_code_packet}
use linux_study_notes.Auth.Round.{
  new_thread, Received, closed, failed, got, Service, round, handle_string, send_reply, recv_into,
  max_line,
}
use linux_study_notes.Auth.Server.{unique_code, check_login, login_reply, read_data}
use linux_study_notes.Auth.Table.{Kept, Kept-same, Kept-set_code}
use linux_study_notes.Libc.{c_str}
use linux_study_notes.Prelude.{
  ℕ, ◌-◌, ◌≡◌, ◌⊎◌, inl, inr, refl, sym, ◌∙◌, List, [], ◌∷◌, ◌++◌, Option, none, some, get_elem?,
  set, ◌==◌, Bool-cases, subst, arith, replicate,
}
use linux_study_notes.Auth.World.Sound.{
  IsReply, EndsInNul, Answers, IsSound, Fits, AllFit, AllReplies-send, AllAnswer-append,
  AllAnswer-set, AllAnswer-get,
}

module _ {Db : Type 0} (p : Protobuf) (s : Sqlite Db) (rows : Db → List Row) (name : List ℕ)
    (olds : List Row) where
  check_login-IsSound :
      IsTable s rows
      → (u w : List ℕ) (db : Db) → Kept unique_code olds (rows db)
      → Kept unique_code olds (rows (check_login p s name u w db).0)
        × IsReply p (check_login p s name u w db).1
  unfolding check_login auth_code_packet
  check_login-IsSound table u w db kept =
      let user = auth_user s name u w db in
      let still : Kept unique_code olds (rows user.0) =
        subst (Kept unique_code olds) (sym (auth_user-keeps s rows name table u w db)) kept in
      elim (Bool-cases (user.1 == 1)) [
        | inr missing ↦ rw missing (still, inl refl)
        | inl found ↦ elim (add_unique_code-cases s rows name table u w unique_code user.0) [
          | inl stored ↦
              rw (found, stored)
                (Kept-set_code unique_code (c_str u) (c_str w) olds (rows user.0) still, inr refl)
          | inr lost ↦ rw (found, lost) (still, inr refl)
        ]
      ]

  login_reply-IsSound :
      IsTable s rows
      → (login : Option LoginPacket) (resp : List ℕ) (db : Db) → Kept unique_code olds (rows db)
      → (resp ≡ []) ⊎ IsReply p resp
      → Kept unique_code olds (rows (login_reply p s name login resp db).0)
        × (((login_reply p s name login resp db).1 ≡ [])
            ⊎ IsReply p (login_reply p s name login resp db).1)
  unfolding login_reply
  login_reply-IsSound table none resp db kept h = (kept, h)
  login_reply-IsSound table (some login) resp db kept h =
      let (after, reply) =
        check_login-IsSound table (text_of login.username) (text_of login.password) db kept in
      (after, inr reply)

  handle_string-IsSound :
      IsTable s rows
      → (text : List ℕ) (t : Service Db) → Kept unique_code olds (rows t.db)
      → Answers p t
      → (after : Service Db) × (handle_string p
            (λ header. login_reply p s name header.login_packet)
            (some text)
            t
          ≡ some after)
        × Kept unique_code olds (rows after.db)
        × Answers p after
  unfolding handle_string
  handle_string-IsSound table text t kept (h, replies, ends) =
      let next = login_reply p s name (p.parse text).login_packet t.resp t.db in
      let (still, reply) =
        login_reply-IsSound table (p.parse text).login_packet t.resp t.db kept h in
      (
        record {
          buf = replicate max_line 0;
          resp = next.1;
          sent = send_reply next.1 t.sent;
          db = next.0;
        },
        refl,
        still,
        (reply, AllReplies-send p next.1 t.sent replies reply, refl),
      )

  read_data-IsSound :
      IsTable s rows
      → (i : ℕ) (r : Received) (t : Service Db) → Fits (received i r)
      → Kept unique_code olds (rows t.db)
      → Answers p t
      → (after : Service Db) × (read_data p s name r t ≡ some after)
        × Kept unique_code olds (rows after.db)
        × Answers p after
  unfolding read_data round
  read_data-IsSound table i closed t fits kept h = (t, refl, kept, h)
  read_data-IsSound table i failed t fits kept h =
      rw (string_of-some t.buf (max_line - 1) h.2)
        (handle_string-IsSound table (c_str t.buf) t kept h)
  read_data-IsSound table i (got bytes) t fits kept h =
      let buf = recv_into (got bytes) t.buf in
      let ends : EndsInNul buf =
        recv_into-keeps bytes t.buf (max_line - 1) fits (omega arith) ∙ h.2 in
      rw (string_of-some buf (max_line - 1) ends) (handle_string-IsSound table (c_str buf) t kept h)

  serve_thread-IsSound :
      IsTable s rows
      → (i : ℕ) (r : Received) (w : World Db) (found : Option (Service Db))
      → get_elem? w.threads i ≡ found
      → Fits (received i r)
      → IsSound p rows olds w
      → (after : World Db) × (serve_thread p s name i r found w ≡ some after)
        × IsSound p rows olds after
  unfolding serve_thread
  serve_thread-IsSound table i r w none e fits sound = (w, refl, sound)
  serve_thread-IsSound table i r w (some t) e fits (kept, answer) =
      let (after, runs, still, answers) =
        read_data-IsSound table i r (record t { db = w.db }) fits kept
          (AllAnswer-get p w.threads i t answer e) in
      (
        record { threads = set w.threads i after; db = after.db },
        rw (serve_thread, runs) refl,
        (still, AllAnswer-set p w.threads i after answer answers),
      )

  serve_event-IsSound :
      IsTable s rows
      → (e : Event) (w : World Db) → Fits e
      → IsSound p rows olds w
      → (after : World Db) × (serve_event p s name e w ≡ some after) × IsSound p rows olds after
  unfolding serve_event
  serve_event-IsSound table (accepted buf) w fits (kept, answer) = (
    record w { threads = w.threads ++ new_thread buf w.db ∷ [] },
    refl,
    (kept, AllAnswer-append p w.threads (new_thread buf w.db) answer (inl refl, tt, fits)),
  )
  serve_event-IsSound table (received i r) w fits sound =
      serve_thread-IsSound table i r w (get_elem? w.threads i) refl fits sound

  serve_from-IsSound :
      IsTable s rows
      → (es : List Event) (w : World Db) → AllFit es
      → IsSound p rows olds w
      → (after : World Db) × (serve p s name es w ≡ some after) × IsSound p rows olds after
  unfolding serve
  serve_from-IsSound table [] w fits sound = (w, refl, sound)
  serve_from-IsSound table (e ∷ es) w fits sound =
      let (next, runs, still) = serve_event-IsSound table e w fits.0 sound in
      rw (serve, runs) (serve_from-IsSound table es next fits.1 still)

-- From its start, if the uninitialised array of every connection ends in a NUL, whatever arrives at
-- whichever connection in messages shorter than the array, and whichever calls of the database
-- fail, the auth server reads inside its arrays, keeps every user with a code that is the old one
-- or "uniqueauthcode", and sends nothing but "failure" and that code.
pub every_event-IsSound :
    {Db : Type 0} (p : Protobuf) (s : Sqlite Db) (rows : Db → List Row) (name : List ℕ)
    → IsTable s rows
    → (es : List Event) (db : Db) → AllFit es
    → (after : World Db) × (serve p s name es (record { threads = []; db = db }) ≡ some after)
      × IsSound p rows (rows db) after
every_event-IsSound p s rows name table es db fits =
    serve_from-IsSound p s rows name (rows db) table es (record { threads = []; db = db }) fits
      (Kept-same unique_code (rows db), tt)
