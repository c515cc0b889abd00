-- ===== src/Echo/Client/Answers.antt =====
-- What the loop of libevent/originEchoClient.cpp takes of the answers, from the events alone.
use linux_study_notes.Echo.Client.{
  echo_context, write_cb, bytes, closed, failed, wait_again, read_cb, Happening, writable,
  timed_out, readable, Client, write_event, read_event, happen, is_over, dispatch, client,
}
use linux_study_notes.Echo.Client.Order.{AllSmall, IsOrderly, dispatch-IsOrderly}
use linux_study_notes.Libc.{c_str}
use linux_study_notes.Prelude.{
  ℕ, ◌+◌, ◌<◌, ◌≡◌, refl, sym, subst, ◌∙◌, true, false, List, [], ◌∷◌, ◌++◌, Option, none, some,
  ltb, lt→ltb, ltb→lt, append_assoc, append-nil, flatten, map, if◌then◌else◌, length, length-append,
  Bool-cases, inl, inr, arith,
}

abbrev line : List ℕ
line = echo_context.echo_contents

-- Behind `write_cb`, with `n` bytes read: the answers up to the one that completes the line, or up
-- to the end of the connection.
unfoldable pub reads : ℕ → List Happening → List (List ℕ)
reads n [] = []
reads n (writable taken ∷ hs) = reads n hs
reads n (timed_out taken ∷ hs) = reads n hs
reads n (readable closed ∷ hs) = []
reads n (readable failed ∷ hs) = reads n hs
reads n (readable (bytes got) ∷ hs) =
    let more = reads (n + length got) hs in
    got ∷ (if ltb (n + length got) (length line) then more else [])

-- What is readable before `write_cb` is not read.
unfoldable pub answers : List Happening → List (List ℕ)
answers [] = []
answers (writable taken ∷ hs) = reads 0 hs
answers (timed_out taken ∷ hs) = reads 0 hs
answers (readable got ∷ hs) = answers hs

-- From `n` bytes and the text `shown` on, these chunks were counted and shown.
abbrev pub HasRead : ℕ → List ℕ → List (List ℕ) → Option Client → Type 0
HasRead n shown chunks none = ⊥
HasRead n shown chunks (some c) =
    (c.context.recved ≡ n + length (flatten chunks))
    × (c.context.shown ≡ shown ++ flatten (map c_str chunks))

-- The client while it waits for more.
abbrev reading : ℕ → List ℕ → List ℕ → Client
reading n sent shown = record {
  context = record {
    echo_contents = line;
    recved = n;
    waiting = true;
    ended = false;
    sent = sent;
    shown = shown;
  };
  write_waits = false;
}

HasRead-nothing :
    (hs : List Happening) (c : Client)
    → is_over c ≡ true
    → HasRead c.context.recved c.context.shown [] (dispatch hs c)
unfolding dispatch
HasRead-nothing [] c over = (omega arith, sym (append-nil c.context.shown))
HasRead-nothing (h ∷ hs) c over = rw over (omega arith, sym (append-nil c.context.shown))

HasRead-cons :
    (n : ℕ) (shown got : List ℕ) (chunks : List (List ℕ)) (r : Option Client)
    → HasRead (n + length got) (shown ++ c_str got) chunks r
    → HasRead n shown (got ∷ chunks) r
HasRead-cons n shown got chunks none h = h
HasRead-cons n shown got chunks (some c) h = (
  omega (arith, h.0, length-append got (flatten chunks)),
  h.1 ∙ append_assoc shown (c_str got) (flatten (map c_str chunks)),
)

dispatch-reads :
    (hs : List Happening) (n : ℕ) (sent shown : List ℕ)
    → AllSmall hs
    → n < length line
    → HasRead n shown (reads n hs) (dispatch hs (reading n sent shown))
unfolding dispatch reads is_over happen write_event read_event read_cb wait_again
dispatch-reads [] n sent shown small less = (omega arith, sym (append-nil shown))
dispatch-reads (writable taken ∷ hs) n sent shown small less =
    dispatch-reads hs n sent shown small less
dispatch-reads (timed_out taken ∷ hs) n sent shown small less =
    dispatch-reads hs n sent shown small less
dispatch-reads (readable closed ∷ hs) n sent shown small less = HasRead-nothing hs _ refl
dispatch-reads (readable failed ∷ hs) n sent shown small less =
    rw (lt→ltb n (length line) less) (dispatch-reads hs n sent shown small less)
dispatch-reads (readable (bytes got) ∷ hs) n sent shown small less =
    rw (lt→ltb (length got) 128 small.0) (elim (Bool-cases (ltb (n + length got) (length line))) [
      | inl more ↦ rw more (
          HasRead-cons n shown got (reads (n + length got) hs) _ (
            dispatch-reads hs (n + length got) sent (shown ++ c_str got) small.1
              (ltb→lt (n + length got) (length line) more)))
      | inr complete ↦ rw complete (HasRead-cons n shown got [] _ (HasRead-nothing hs _ refl))
    ])

dispatch_reads_answers :
    (hs : List Happening) → AllSmall hs → HasRead 0 [] (answers hs) (dispatch hs client)
unfolding dispatch answers is_over happen write_event write_cb read_event
dispatch_reads_answers [] small = (refl, refl)
dispatch_reads_answers (writable none ∷ hs) small = dispatch-reads hs 0 [] [] small (omega arith)
dispatch_reads_answers (writable (some n) ∷ hs) small = dispatch-reads hs 0 _ [] small (omega arith)
dispatch_reads_answers (timed_out none ∷ hs) small = dispatch-reads hs 0 [] [] small (omega arith)
dispatch_reads_answers (timed_out (some n) ∷ hs) small =
    dispatch-reads hs 0 _ [] small (omega arith)
dispatch_reads_answers (readable (bytes got) ∷ hs) small = dispatch_reads_answers hs small.1
dispatch_reads_answers (readable closed ∷ hs) small = dispatch_reads_answers hs small
dispatch_reads_answers (readable failed ∷ hs) small = dispatch_reads_answers hs small

-- Whatever the socket reports in answers below 128 bytes, the client makes no bad write, does
-- nothing before `write_cb`, sends its line at most once, waits only while it has counted fewer
-- bytes than the line has, and its loop ends by itself only when it has counted as many or the
-- server has closed. It counts the bytes, and shows the text up to a NUL, of exactly the answers
-- that come behind `write_cb` until they are as long as the line or the server has closed.
pub dispatch-answers :
    (hs : List Happening)
    → AllSmall hs
    → (c : Client) × (dispatch hs client ≡ some c)
      × IsOrderly c
      × (c.context.recved ≡ length (flatten (answers hs)))
      × (c.context.shown ≡ flatten (map c_str (answers hs)))
dispatch-answers hs small =
    let (c, e, orderly) = dispatch-IsOrderly hs small in
    let (counted, shown) = subst (HasRead 0 [] (answers hs)) e (dispatch_reads_answers hs small) in
    (c, e, orderly, omega arith, shown)
