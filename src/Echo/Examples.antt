-- ===== src/Echo/Examples.antt =====
-- A buffer of the kind that libevent gives, and the properties of the programs of libevent/ on it.
use linux_study_notes.Echo.Client.{
  echo_context, write_cb, bytes, closed, failed, read_cb, Happening, writable, readable, Client,
  client, dispatch,
}
use linux_study_notes.Echo.Client.Order.{IsOrderly}
use linux_study_notes.Echo.Client.Answers.{reads, answers, dispatch-answers}
use linux_study_notes.Echo.Clients.{chunks_for, bev_of, each_client-echo}
use linux_study_notes.Echo.Limits.{AllBounded, serve-Bounded}
use linux_study_notes.Echo.Server
use linux_study_notes.Echo.Evbuffer.{Evbuffers, IsQueue}
use linux_study_notes.Echo.Lines.{echo, echo_call, short_lines}
use linux_study_notes.Echo.Serve.{readcb-echo_call}
use linux_study_notes.Echo.Server.{
  Bufferevent, Serving, incoming, came, over, do_accept, readcb, echo_lines, cut_long, arrive,
  serve,
}
use linux_study_notes.Echo.Talk.{reading, answered, talk_back}
use linux_study_notes.Libc.{codes, c_str}
use linux_study_notes.Libc.Stdio.{NoNewline}
use linux_study_notes.Prelude.{
  ℕ, ◌≡◌, refl, ap, List, [], ◌∷◌, ◌++◌, Option, none, some, map, ◌==◌, ==_iff, if◌then◌else◌,
  length, take, drop, replicate, flatten, Option-cases, Bool-cases, inl, inr, arith,
}

toy_cons : ℕ → Option (List ℕ × List ℕ) → Option (List ℕ × List ℕ)
toy_cons c none = none
toy_cons c (some (line, rest)) = some (c ∷ line, rest)

toy_readln : List ℕ → Option (List ℕ × List ℕ)
unfolding toy_cons
toy_readln [] = none
toy_readln (c ∷ b) =
    let more = toy_cons c (toy_readln b) in if c == b'\n' then some ([], b) else more

abbrev toy_evbuffers : Evbuffers (List ℕ)
toy_evbuffers = record {
  fresh = [];
  readln = toy_readln;
  add = λ more b. b ++ more;
  remove = λ n b. (take n b, drop n b);
  get_length = length;
}

abbrev all_bytes : List ℕ → List ℕ
all_bytes b = b

toy_readln-none : (b : List ℕ) → toy_readln b ≡ none → NoNewline b
unfolding toy_readln toy_cons
toy_readln-none [] h = tt
toy_readln-none (c ∷ b) h = elim (Bool-cases (c == b'\n')) [
  | inl ends ↦ let wrong = rw ends at h in cc
  | inr other ↦ elim (Option-cases (toy_readln b)) [
    | inl nothing ↦ (other, toy_readln-none b nothing)
    | inr found ↦ let wrong = rw (other, found.1) at h in cc
  ]
]

toy_readln-some :
    (b rest line : List ℕ)
    → toy_readln b ≡ some (line, rest)
    → NoNewline line × (b ≡ line ++ b'\n' ∷ rest)
unfolding toy_readln toy_cons
toy_readln-some [] rest line h = cc
toy_readln-some (c ∷ b) rest line h = elim (Bool-cases (c == b'\n')) [
  | inl ends ↦
      let now = rw ends at h in
      let l : [] ≡ line = cc in
      let r : b ≡ rest = cc in rw (← l, ← r) (tt, ap (λ x. x ∷ b) ((==_iff c b'\n').0 ends))
  | inr other ↦ elim (Option-cases (toy_readln b)) [
    | inl nothing ↦ let wrong = rw (other, nothing) at h in cc
    | inr found ↦
        let ((first, last), e) = found in
        let now = rw (other, e) at h in
        let l : c ∷ first ≡ line = cc in
        let r : last ≡ rest = cc in
        let (plain, split) = toy_readln-some b last first e in
        rw (← l, ← r) ((other, plain), ap (◌∷◌ c) split)
  ]
]

toy_evbuffers-IsQueue : IsQueue toy_evbuffers all_bytes
toy_evbuffers-IsQueue = record {
  fresh_empty = refl;
  readln_none = toy_readln-none;
  readln_some = toy_readln-some;
  add_behind = λ more b. refl;
  remove_taken = λ n b. refl;
  remove_left = λ n b. refl;
  length_is = λ b. refl;
}

abbrev empty_bev : Bufferevent (List ℕ)
empty_bev = record { input = []; output = [] }

-- Two lines and a half, in three chunks.
abbrev chunks : List (List ℕ)
chunks = codes "one\nt" ∷ codes "wo" ∷ codes "\nthr" ∷ []

arrive_runs :
    arrive toy_evbuffers chunks empty_bev
    ≡ record { input = codes "thr"; output = codes "one\ntwo\n" }
unfolding arrive readcb echo_lines cut_long toy_readln
arrive_runs = refl

readcb-echo_call_example :
    ((readcb toy_evbuffers (record { input = replicate 20000 b'x'; output = codes "a\n" })).output
      ≡ codes "a\n" ++ (echo_call (replicate 20000 b'x')).out)
    × ((readcb toy_evbuffers (record { input = replicate 20000 b'x'; output = codes "a\n" })).input
        ≡ (echo_call (replicate 20000 b'x')).held)
readcb-echo_call_example =
    readcb-echo_call toy_evbuffers-IsQueue
      (record { input = replicate 20000 b'x'; output = codes "a\n" })

-- A descriptor that `select` could not take is served.
do_accept_runs :
    (do_accept toy_evbuffers (some 1024) (record { bevs = []; closed = [] })).bevs
    ≡ (1024, empty_bev) ∷ []
unfolding do_accept
do_accept_runs = refl

-- Another client comes before and one between, and the first one's descriptor reports an error.
abbrev earlier : List Server.Happening
earlier = incoming (some 7) ∷ came 7 (codes "sev") ∷ []

abbrev later : List Server.Happening
later =
    came 8 (codes "one\nt")
    ∷ incoming none
    ∷ incoming (some 9)
    ∷ came 7 (codes "en\n")
    ∷ over 7
    ∷ came 8 (codes "wo\nthr")
    ∷ []

abbrev nobody : Serving (List ℕ)
nobody = record { bevs = []; closed = [] }

serve_runs : serve toy_evbuffers (earlier ++ incoming (some 8) ∷ later) nobody ≡ record {
  bevs =
      (9, empty_bev)
      ∷ (8, record { input = codes "thr"; output = codes "one\ntwo\n" })
      ∷ (7, record { input = []; output = codes "seven\n" })
      ∷ [];
  closed = [];
}
unfolding serve arrive readcb echo_lines cut_long toy_readln
serve_runs = refl

each_client-echo_example :
    (bev : Bufferevent (List ℕ)) × (bev_of 8
        (serve toy_evbuffers (earlier ++ incoming (some 8) ∷ later) nobody).bevs
      ≡ some bev)
    × (bev.output ≡ (echo [] (flatten (chunks_for 8 later))).out)
    × (bev.input ≡ (echo [] (flatten (chunks_for 8 later))).held)
unfolding short_lines chunks_for
each_client-echo_example =
    each_client-echo toy_evbuffers-IsQueue 8 earlier later nobody (omega arith) (refl, tt) refl

serve-Bounded_example :
    AllBounded all_bytes
      (serve toy_evbuffers (incoming (some 8) ∷ came 8 (replicate 20000 b'x') ∷ []) nobody).bevs
serve-Bounded_example =
    serve-Bounded toy_evbuffers-IsQueue (incoming (some 8) ∷ came 8 (replicate 20000 b'x') ∷ [])
      nobody tt

-- An answer of 128 bytes is too long for the client.
read_cb_runs : read_cb (bytes (replicate 128 b'x')) (write_cb (some 24) echo_context) ≡ none
unfolding read_cb
read_cb_runs = refl

-- The server closes behind a part of the line; what comes too early is not read.
abbrev cut_short : List Happening
cut_short =
    readable (bytes (codes "early"))
    ∷ writable (some 24)
    ∷ readable (bytes (codes "echo"))
    ∷ readable failed
    ∷ readable (bytes (codes " cl"))
    ∷ readable closed
    ∷ []

dispatch-answers_example :
    (c : Client) × (dispatch cut_short client ≡ some c)
    × IsOrderly c
    × (c.context.recved ≡ 7)
    × (c.context.shown ≡ codes "echo cl")
unfolding answers reads c_str
dispatch-answers_example =
    dispatch-answers cut_short (omega arith, (omega arith, (omega arith, tt)))

-- The line in two chunks, with another client's between them.
abbrev asks : List Server.Happening
asks = came 8 (codes "echo cl") ∷ came 7 (codes "en\n") ∷ came 8 (codes "ient tneilc ohce\n") ∷ []

talk_back_example :
    dispatch
      (writable (some 24)
        ∷ (map (λ piece. readable (bytes piece)) (codes "echo client tne" ∷ codes "ilc ohce\n" ∷ [])
            ++ readable closed ∷ []))
      client
    ≡ some (reading (answered echo_context.echo_contents (write_cb (some 24) echo_context)))
unfolding write_cb chunks_for bev_of serve arrive readcb echo_lines cut_long toy_readln
talk_back_example =
    talk_back toy_evbuffers-IsQueue 8 earlier asks nobody
      (record { input = []; output = codes "echo client tneilc ohce\n" })
      (codes "echo client tne" ∷ codes "ilc ohce\n" ∷ []) (readable closed ∷ []) (omega arith) tt
      refl refl refl (omega arith, omega arith, (omega arith, omega arith, tt))
