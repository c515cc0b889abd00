-- ===== src/Echo/Server.antt =====
-- libevent/originEchoServer.cpp: its callbacks, the loop that calls them, and `rot13_char`, which
-- nothing calls.
use linux_study_notes.Echo.Evbuffer.{Evbuffers}
use linux_study_notes.Libc.{codes}
use linux_study_notes.Prelude.{
  ℕ, zero, suc, ◌≡◌, arith, ◌+◌, ◌-◌, ◌&&◌, ◌||◌, List, [], ◌∷◌, ◌++◌, Option, none, some, ltb, leb,
  ◌==◌, if◌then◌else◌,
}

-- On the bytes 0 to 255; a negative `char` is no letter either.
unfoldable pub rot13_char : ℕ → ℕ
rot13_char c =
    if (leb b'a' c && leb c b'm') || (leb b'A' c && leb c b'M')
    then c + 13
    else if (leb b'n' c && leb c b'z') || (leb b'N' c && leb c b'Z')
    then c - 13
    else c

-- `MAX_LINE`, and `sizeof(buf)`
abbrev pub max_line : ℕ
max_line = 16384

abbrev pub chunk_size : ℕ
chunk_size = 1024

-- The two buffers of a `bufferevent`.
pub record Bufferevent (Buf : Type 0) : Type 0 where
  pub input : Buf
  pub output : Buf

module _ {Buf : Type 0} (e : Evbuffers Buf) where
  -- `while ((line = evbuffer_readln(...)))`, at most `fuel` rounds; the loop over `i` has no
  -- effect.
  unfoldable pub echo_lines : ℕ → Bufferevent Buf → Bufferevent Buf
  echo_lines zero bev = bev
  echo_lines (suc fuel) bev = elim (e.readln bev.input) [
    | none ↦ bev
    | some (line, rest) ↦
        echo_lines fuel
          (record { input = rest; output = e.add (codes "\n") (e.add line bev.output) })
  ]

  -- `while (evbuffer_get_length(input))`, at most `fuel` rounds.
  unfoldable pub drain : ℕ → Bufferevent Buf → Bufferevent Buf
  drain zero bev = bev
  drain (suc fuel) bev =
      let taken = e.remove chunk_size bev.input in
      let more = drain fuel (record { input = taken.1; output = e.add taken.0 bev.output }) in
      if e.get_length bev.input == 0 then bev else more

  unfoldable pub cut_long : Bufferevent Buf → Bufferevent Buf
  unfolding drain
  cut_long bev =
      let drained = drain (e.get_length bev.input) bev in
      if leb max_line (e.get_length bev.input)
      then record drained { output = e.add (codes "\n") drained.output }
      else bev

  -- Each round of either loop takes a byte at least, so the length of the input is rounds enough.
  unfoldable pub readcb : Bufferevent Buf → Bufferevent Buf
  unfolding echo_lines cut_long
  readcb bev = cut_long (echo_lines (e.get_length bev.input + 1) bev)

  -- What arrives is put behind the input, and then `readcb` is called.
  unfoldable pub arrive : List (List ℕ) → Bufferevent Buf → Bufferevent Buf
  unfolding readcb
  arrive [] bev = bev
  arrive (chunk ∷ chunks) bev =
      arrive chunks (readcb (record bev { input = e.add chunk bev.input }))

-- The descriptors that got a `bufferevent`, the newest first, and those that were closed.
pub record Serving (Buf : Type 0) : Type 0 where
  pub bevs : List (ℕ × Bufferevent Buf)
  pub closed : List ℕ

abbrev pub fd_setsize : ℕ
fd_setsize = 1024

-- What the event loop reports: what `accept` returns, with `none` for -1; bytes on a descriptor; or
-- the events of `errorcb`.
pub data Happening : Type 0 where
  incoming : Option ℕ → Happening
  came : ℕ → List ℕ → Happening
  over : ℕ → Happening

module _ {Buf : Type 0} (e : Evbuffers Buf) where
  -- `bufferevent_socket_new`
  abbrev pub new_bev : Bufferevent Buf
  new_bev = record { input = e.fresh; output = e.fresh }

  unfoldable pub do_accept : Option ℕ → Serving Buf → Serving Buf
  do_accept none s = s
  do_accept (some fd) s =
      if ltb fd_setsize fd
      then record s { closed = s.closed ++ fd ∷ [] }
      else record s { bevs = (fd, new_bev) ∷ s.bevs }

  -- Each branch of `errorcb` holds a comment and no code.
  unfoldable pub errorcb : ℕ → Serving Buf → Serving Buf
  errorcb fd s = s

  -- `readcb` on the `bufferevent` of the descriptor.
  unfoldable pub receive : ℕ → List ℕ → List (ℕ × Bufferevent Buf) → List (ℕ × Bufferevent Buf)
  unfolding arrive
  receive fd chunk [] = []
  receive fd chunk ((at, bev) ∷ bevs) =
      if at == fd then (at, arrive e (chunk ∷ []) bev) ∷ bevs else (at, bev) ∷ receive fd chunk bevs

  unfoldable pub happen : Happening → Serving Buf → Serving Buf
  unfolding do_accept errorcb receive
  happen (incoming r) s = do_accept r s
  happen (came fd chunk) s = record s { bevs = receive fd chunk s.bevs }
  happen (over fd) s = errorcb fd s

  -- `event_base_dispatch` of `run`, over what happens.
  unfoldable pub serve : List Happening → Serving Buf → Serving Buf
  unfolding happen
  serve [] s = s
  serve (h ∷ hs) s = serve hs (happen h s)

-- Applied twice, `rot13_char` gives every character back.
pub rot13_char-twice : (c : ℕ) → rot13_char (rot13_char c) ≡ c
unfolding rot13_char
rot13_char-twice c = ground arith
