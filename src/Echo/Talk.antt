-- ===== src/Echo/Talk.antt =====
-- The client of libevent/originEchoClient.cpp with the server of libevent/originEchoServer.cpp.
use linux_study_notes.Echo.Client.{
  EchoContext, echo_context, write_cb, Got, bytes, wait_again, read_cb, Happening, writable,
  readable, Client, read_event, write_event, happen, is_over, dispatch, client,
}
use linux_study_notes.Echo.Clients.{chunks_for, NotAgain, bev_of, each_client-echo}
use linux_study_notes.Echo.Evbuffer.{Evbuffers, IsQueue}
use linux_study_notes.Echo.Lines.{echo, short_lines}
use linux_study_notes.Echo.Server
use linux_study_notes.Echo.Server.{Bufferevent, Serving, fd_setsize, incoming, serve}
use linux_study_notes.Libc.{NoNul, NoNul-append, c_str, c_str_all, c_str-NoNul}
use linux_study_notes.Prelude.{
  ℕ, ◌+◌, ◌<◌, ◌≤◌, ◌≡◌, refl, ap, sym, subst, ◌∙◌, Bool, true, false, ◌||◌, List, [], ◌∷◌, ◌++◌,
  append-nil, append_assoc, some, map, ltb, lt→ltb, le→not_ltb, length, length-append, flatten,
  arith,
}

-- Each piece has a byte at least, and leaves room for the NUL that is put behind it.
abbrev pub AllPieces : List (List ℕ) → Type 0
AllPieces [] = Unit
AllPieces (piece ∷ pieces) = (0 < length piece) × (length piece < 128) × AllPieces pieces

-- The context when everything has come back.
abbrev pub answered : List ℕ → EchoContext → EchoContext
answered text ec = record ec {
  recved = length ec.echo_contents;
  waiting = false;
  shown = ec.shown ++ text;
}

read_cb_piece :
    (piece : List ℕ) (ec : EchoContext)
    → length piece < 128
    → NoNul piece
    → read_cb (bytes piece) ec
      ≡ some (record ec {
        recved = ec.recved + length piece;
        shown = ec.shown ++ piece;
        waiting = ltb (ec.recved + length piece) (length ec.echo_contents);
      })
unfolding read_cb wait_again
read_cb_piece piece ec h n = rw (lt→ltb (length piece) 128 h, c_str_all piece n) refl

-- A client that has written.
abbrev pub reading : EchoContext → Client
reading ec = record { context = ec; write_waits = false }

or_true : (b : Bool) → (b || true) ≡ true
or_true true = refl
or_true false = refl

answered_over : (text : List ℕ) (ec : EchoContext) → is_over (reading (answered text ec)) ≡ true
unfolding is_over
answered_over text ec = or_true ec.ended

dispatch_step :
    (got : Got) (hs : List Happening) (ec after : EchoContext)
    → ec.ended ≡ false
    → ec.waiting ≡ true
    → read_cb got ec ≡ some after
    → dispatch (readable got ∷ hs) (reading ec) ≡ dispatch hs (reading after)
unfolding dispatch is_over happen read_event
dispatch_step got hs ec after n w r = rw (r, n, w) refl

-- When the loop is over, nothing that happens counts.
dispatch_over : (hs : List Happening) (c : Client) → is_over c ≡ true → dispatch hs c ≡ some c
unfolding dispatch
dispatch_over [] c h = refl
dispatch_over (g ∷ hs) c h = rw h refl

shown_so_far :
    (hs : List Happening) (ec : EchoContext) {m n : ℕ} {s t : List ℕ} {v w : Bool}
    → m ≡ n
    → s ≡ t
    → v ≡ w
    → dispatch hs (reading (record ec { recved = m; shown = s; waiting = v }))
      ≡ dispatch hs (reading (record ec { recved = n; shown = t; waiting = w }))
shown_so_far hs ec p q r = rw (p, q, r) refl

abbrev answers : List (List ℕ) → List Happening
answers pieces = map (λ piece. readable (bytes piece)) pieces

-- What was sent comes back in pieces: the client shows it all and waits no more.
dispatch_all :
    (pieces : List (List ℕ)) (more : List Happening) (ec : EchoContext)
    → AllPieces pieces
    → NoNul (flatten pieces)
    → ec.ended ≡ false
    → ec.waiting ≡ true
    → 0 < length (flatten pieces)
    → ec.recved + length (flatten pieces) ≡ length ec.echo_contents
    → dispatch (answers pieces ++ more) (reading ec) ≡ some (reading (answered (flatten pieces) ec))
dispatch_all [] more ec p n alive w some_byte e = absurd (omega arith)
dispatch_all (piece ∷ []) more ec p n alive w some_byte e =
    dispatch_step (bytes piece) more ec _ alive w
      (read_cb_piece piece ec p.1 (NoNul-append piece [] n).0)
    ∙ shown_so_far more ec (omega (arith, e, length-append piece []))
        (ap (λ l. ec.shown ++ l) (sym (append-nil piece)))
        (le→not_ltb (ec.recved + length piece) (length ec.echo_contents)
          (omega (arith, e, length-append piece [])))
    ∙ dispatch_over more (reading (answered (piece ++ []) ec)) (answered_over (piece ++ []) ec)
dispatch_all (piece ∷ next ∷ pieces) more ec p n alive w some_byte e =
    let longer = length-append piece (next ++ flatten pieces) in
    let again = length-append next (flatten pieces) in
    let waits : ltb (ec.recved + length piece) (length ec.echo_contents) ≡ true =
      lt→ltb (ec.recved + length piece) (length ec.echo_contents)
        (omega (arith, e, longer, again, p.2.0)) in
    dispatch_step (bytes piece) (answers (next ∷ pieces) ++ more) ec _ alive w
      (read_cb_piece piece ec p.1 (NoNul-append piece (next ++ flatten pieces) n).0)
    ∙ dispatch_all (next ∷ pieces) more _ p.2 (NoNul-append piece (next ++ flatten pieces) n).1
        alive waits (omega (arith, again, p.2.0)) (omega (arith, e, longer))
    ∙ ap (λ t. some (reading (record (answered [] ec) { shown = t })))
        (append_assoc ec.shown piece (next ++ flatten pieces))

-- The socket can be written.
written :
    (hs : List Happening)
    → dispatch (writable (some 24) ∷ hs) client
      ≡ dispatch hs (reading (write_cb (some 24) echo_context))
unfolding dispatch is_over happen write_event
written hs = refl

some_eq : {A : Type 0} {a b : A} → some a ≡ some b → a ≡ b
some_eq h = cc

-- The client connects, sends its line and waits; the server, which serves others before and
-- between, gets the line in any chunks; and what it sends back comes in any pieces: the client
-- shows just its line and its loop ends, whatever else is reported.
pub talk_back :
    {Buf : Type 0} {e : Evbuffers Buf} {content : Buf → List ℕ}
    → IsQueue e content
    → (fd : ℕ) (before after : List Server.Happening) (s : Serving Buf) (bev : Bufferevent Buf)
      (pieces : List (List ℕ)) (more : List Happening)
    → fd ≤ fd_setsize
    → NotAgain fd after
    → flatten (chunks_for fd after) ≡ (write_cb (some 24) echo_context).sent
    → bev_of fd (serve e (before ++ incoming (some fd) ∷ after) s).bevs ≡ some bev
    → flatten pieces ≡ content bev.output
    → AllPieces pieces
    → dispatch (writable (some 24) ∷ (map (λ piece. readable (bytes piece)) pieces ++ more)) client
      ≡ some (reading (answered echo_context.echo_contents (write_cb (some 24) echo_context)))
unfolding write_cb echo short_lines c_str
talk_back {e} {content} queue fd before after s bev pieces more low again request found came p =
    let text = echo_context.echo_contents in
    let stream : flatten (chunks_for fd after) ≡ text = request in
    let (server, is_there, sent, left) =
      each_client-echo queue fd before after s low again (rw stream refl) in
    let same : some server ≡ some bev = sym is_there ∙ found in
    let answer : content server.output ≡ text = sent ∙ rw stream refl in
    let whole : flatten pieces ≡ text =
      came ∙ ap (λ b. content (Bufferevent.output b)) (some_eq (sym same)) ∙ answer in
    written (map (λ piece. readable (bytes piece)) pieces ++ more)
    ∙ dispatch_all pieces more (write_cb (some 24) echo_context) p
        (subst NoNul (sym whole) (c_str-NoNul text)) refl refl (rw whole (omega arith))
        (rw whole refl)
    ∙ ap (λ t. some (reading (answered t (write_cb (some 24) echo_context)))) whole
