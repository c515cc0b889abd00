-- ===== src/Echo/Client.antt =====
-- libevent/originEchoClient.cpp: its two callbacks, and the loop that calls them.
pub mod Order
pub mod Answers
use linux_study_notes.Libc.{codes, c_str}
use mathlib.Core.Option
use linux_study_notes.Prelude.{
  ℕ, ◌+◌, Bool, true, false, not, ◌||◌, List, [], ◌∷◌, ◌++◌, Option, none, some, ltb, if◌then◌else◌,
  length, take,
}

-- The context, whether `event_read` waits, whether the loop has been told to end, what was handed
-- to `send`, and what was printed of the answers.
pub record EchoContext : Type 0 where
  pub echo_contents : List ℕ
  pub recved : ℕ
  pub waiting : Bool
  pub ended : Bool
  pub sent : List ℕ
  pub shown : List ℕ

-- What `echo_client` puts into it.
abbrev pub echo_context : EchoContext
echo_context = record {
  echo_contents = codes "echo client tneilc ohce\n";
  recved = 0;
  waiting = false;
  ended = false;
  sent = [];
  shown = [];
}

-- What `send` returns, the number of bytes that it takes or `none` for -1, is only printed.
unfoldable pub write_cb : Option ℕ → EchoContext → EchoContext
write_cb none ec = record ec { waiting = true }
write_cb (some taken) ec = record ec {
  sent = ec.sent ++ take taken ec.echo_contents;
  waiting = true;
}

-- What `recv` returns: bytes, 0, or -1.
pub data Got : Type 0 where
  bytes : List ℕ → Got
  closed failed : Got

-- `if (ec->recved < ec->echo_contents_len) event_add(ec->event_read, 0)`; the event that has called
-- the function waits no more.
unfoldable pub wait_again : EchoContext → EchoContext
wait_again ec = record ec { waiting = ltb ec.recved (length ec.echo_contents) }

-- `none` is the write of `buf[ret]` behind `buf[128]`.
unfoldable pub read_cb : Got → EchoContext → Option EchoContext
unfolding wait_again c_str
read_cb closed ec = some (record ec { waiting = false; ended = true })
read_cb failed ec = some (wait_again ec)
read_cb (bytes got) ec =
    if ltb (length got) 128
    then some
        (wait_again (record ec { recved = ec.recved + length got; shown = ec.shown ++ c_str got }))
    else none

-- What the event loop reports of the socket: that it can be written, with what `send` will return;
-- that the ten seconds for that are over, with the same; or what `recv` will return.
pub data Happening : Type 0 where
  writable timed_out : Option ℕ → Happening
  readable : Got → Happening

-- The context, and whether `event_write` waits.
pub record Client : Type 0 where
  pub context : EchoContext
  pub write_waits : Bool

-- Both events are added for one call only; `event_write` calls `write_cb` also when its time is
-- over.
unfoldable pub write_event : Option ℕ → Client → Client
unfolding write_cb
write_event taken c =
    if c.write_waits then record { context = write_cb taken c.context; write_waits = false } else c

unfoldable pub read_event : Got → Client → Option Client
unfolding read_cb
read_event got c =
    if c.context.waiting
    then Option.map (λ ec. record c { context = ec }) (read_cb got c.context)
    else some c

unfoldable pub happen : Happening → Client → Option Client
unfolding write_event read_event
happen (writable taken) c = some (write_event taken c)
happen (timed_out taken) c = some (write_event taken c)
happen (readable got) c = read_event got c

-- `event_base_dispatch` returns when it is told to, or when no event waits.
unfoldable pub is_over : Client → Bool
is_over c = c.context.ended || not (c.write_waits || c.context.waiting)

unfoldable pub dispatch : List Happening → Client → Option Client
unfolding is_over happen
dispatch [] c = some c
dispatch (h ∷ hs) c =
    let next : Option Client = elim (happen h c) [ none ↦ none | some after ↦ dispatch hs after ] in
    if is_over c then some c else next

-- Behind `event_add(ev_write, &tv)`.
abbrev pub client : Client
client = record { context = echo_context; write_waits = true }
