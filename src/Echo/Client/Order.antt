-- ===== src/Echo/Client/Order.antt =====
-- The loop of libevent/originEchoClient.cpp, whatever the socket reports.
use linux_study_notes.Echo.Client.{
  EchoContext, echo_context, write_cb, Got, bytes, closed, failed, wait_again, read_cb, Happening,
  writable, timed_out, readable, Client, write_event, read_event, happen, is_over, dispatch, client,
}
use linux_study_notes.Libc.{c_str, length-c_str}
use mathlib.Core.Option
use linux_study_notes.Prelude.{
  ℕ, ◌+◌, ◌≤◌, ◌<◌, ◌≡◌, refl, ap, sym, subst, Bool, true, false, not, ◌||◌, List, [], ◌∷◌, ◌++◌,
  Option, none, some, lt→ltb, not_ltb→le, if◌then◌else◌, length, length-append, take, inl, inr, ◌⊎◌,
  arith,
}

-- An answer leaves room for the NUL behind it.
abbrev pub AllSmall : List Happening → Type 0
AllSmall [] = Unit
AllSmall (writable taken ∷ hs) = AllSmall hs
AllSmall (timed_out taken ∷ hs) = AllSmall hs
AllSmall (readable (bytes got) ∷ hs) = (length got < 128) × AllSmall hs
AllSmall (readable closed ∷ hs) = AllSmall hs
AllSmall (readable failed ∷ hs) = AllSmall hs

-- Nothing is done before `write_cb`, which is called once; the client shows no more than it has
-- got; and it waits exactly as long as the answer is not as long as its line and the server has not
-- closed.
pub record IsOrderly (c : Client) : Type 0 where
  pub untouched : c.write_waits ≡ true → c.context ≡ echo_context
  pub same_line : c.context.echo_contents ≡ echo_context.echo_contents
  pub one_line :
      (c.context.sent ≡ []) ⊎ ((n : ℕ) × (c.context.sent ≡ take n echo_context.echo_contents))
  pub shows : length c.context.shown ≤ c.context.recved
  pub waits : c.context.waiting ≡ true → c.context.recved < length echo_context.echo_contents
  pub over :
      is_over c ≡ true
      → (c.context.ended ≡ true) ⊎ (length echo_context.echo_contents ≤ c.context.recved)

client-IsOrderly : IsOrderly client
unfolding is_over
client-IsOrderly = record {
  untouched = λ e. refl;
  same_line = refl;
  one_line = inl refl;
  shows = omega arith;
  waits = λ e. cc;
  over = λ e. cc;
}

first_call : (taken : Option ℕ) → IsOrderly (write_event taken client)
unfolding write_event write_cb is_over
first_call none = record {
  untouched = λ e. cc;
  same_line = refl;
  one_line = inl refl;
  shows = omega arith;
  waits = λ e. omega arith;
  over = λ e. cc;
}
first_call (some n) = record {
  untouched = λ e. cc;
  same_line = refl;
  one_line = inr (n, refl);
  shows = omega arith;
  waits = λ e. omega arith;
  over = λ e. cc;
}

write_from :
    (w : Bool) (taken : Option ℕ) (ec : EchoContext)
    → IsOrderly (record { context = ec; write_waits = w })
    → IsOrderly (write_event taken (record { context = ec; write_waits = w }))
unfolding write_event
write_from true taken ec h =
    subst (λ x. IsOrderly (write_event taken (record { context = x; write_waits = true })))
      (sym (h.untouched refl)) (first_call taken)
write_from false taken ec h = h

write_event-IsOrderly :
    (taken : Option ℕ) (c : Client) → IsOrderly c → IsOrderly (write_event taken c)
write_event-IsOrderly taken c h = write_from c.write_waits taken c.context h

-- The client has not written behind an array, and is in order.
abbrev Ensures : Option Client → Type 0
Ensures none = ⊥
Ensures (some c) = IsOrderly c

Ensures-if :
    (b : Bool) (x y : Option Client)
    → (b ≡ true → Ensures x)
    → (b ≡ false → Ensures y)
    → Ensures (if b then x else y)
Ensures-if true x y p q = p refl
Ensures-if false x y p q = q refl

-- While the client reads, it has written.
written : (c : Client) → IsOrderly c → c.context.waiting ≡ true → c.write_waits ≡ true → ⊥
written c h w fresh = let e = ap (λ ec. ec.waiting) (h.untouched fresh) in cc

over_cases : (ended w b : Bool) → (ended || not (w || b)) ≡ true → (ended ≡ true) ⊎ (b ≡ false)
over_cases true w b e = inl refl
over_cases false true b e = cc
over_cases false false true e = cc
over_cases false false false e = inr refl

Ensures-then :
    (r : Option Client) (f : Client → Option Client)
    → Ensures r
    → ((c : Client) → IsOrderly c → Ensures (f c))
    → Ensures (elim r [ none ↦ none | some after ↦ f after ])
Ensures-then none f e g = e
Ensures-then (some c) f e g = g c e

Ensures-some : (r : Option Client) → Ensures r → (c : Client) × (r ≡ some c) × IsOrderly c
Ensures-some none e = absurd e
Ensures-some (some c) e = (c, refl, e)

-- Behind a call of `recv` that does not end the loop.
wait_again-IsOrderly :
    (c : Client)
    → (c.write_waits ≡ true → ⊥)
    → c.context.echo_contents ≡ echo_context.echo_contents
    → (c.context.sent ≡ []) ⊎ ((n : ℕ) × (c.context.sent ≡ take n echo_context.echo_contents))
    → length c.context.shown ≤ c.context.recved
    → IsOrderly (record c { context = wait_again c.context })
unfolding wait_again is_over
wait_again-IsOrderly c written same_line one_line shows = record {
  untouched = λ e. absurd (written e);
  same_line = same_line;
  one_line = one_line;
  shows = shows;
  waits = λ e. ground (arith, ap length same_line);
  over = λ e. elim (over_cases c.context.ended c.write_waits _ e) [
    | inl ended ↦ inl ended
    | inr idle ↦ inr (
        omega (
          arith,
          not_ltb→le c.context.recved (length c.context.echo_contents) idle,
          ap length same_line,
        ))
  ];
}

read_cb-Ensures :
    (got : Got) (c : Client)
    → AllSmall (readable got ∷ [])
    → IsOrderly c
    → c.context.waiting ≡ true
    → Ensures (Option.map (λ ec. record c { context = ec }) (read_cb got c.context))
unfolding read_cb
read_cb-Ensures closed c small h w = record {
  untouched = λ e. absurd (written c h w e);
  same_line = h.same_line;
  one_line = h.one_line;
  shows = h.shows;
  waits = λ e. cc;
  over = λ e. inl refl;
}
read_cb-Ensures failed c small h w =
    wait_again-IsOrderly c (written c h w) h.same_line h.one_line h.shows
read_cb-Ensures (bytes got) c small h w =
    let ec = c.context in
    rw (lt→ltb (length got) 128 small.0) (
      wait_again-IsOrderly
        (record c {
          context = record ec { recved = ec.recved + length got; shown = ec.shown ++ c_str got };
        })
        (written c h w) h.same_line h.one_line
        (omega (arith, length-append ec.shown (c_str got), length-c_str got, h.shows)))

read_event-Ensures :
    (got : Got) (c : Client)
    → AllSmall (readable got ∷ [])
    → IsOrderly c
    → Ensures (read_event got c)
unfolding read_event
read_event-Ensures got c small h =
    Ensures-if c.context.waiting _ (some c) (λ w. read_cb-Ensures got c small h w) (λ idle. h)

happen-Ensures :
    (h : Happening) (c : Client) → AllSmall (h ∷ []) → IsOrderly c → Ensures (happen h c)
unfolding happen
happen-Ensures (writable taken) c small o = write_event-IsOrderly taken c o
happen-Ensures (timed_out taken) c small o = write_event-IsOrderly taken c o
happen-Ensures (readable got) c small o = read_event-Ensures got c small o

AllSmall-cons :
    (h : Happening) (hs : List Happening) → AllSmall (h ∷ hs) → AllSmall (h ∷ []) × AllSmall hs
AllSmall-cons (writable taken) hs a = (tt, a)
AllSmall-cons (timed_out taken) hs a = (tt, a)
AllSmall-cons (readable (bytes got)) hs a = ((a.0, tt), a.1)
AllSmall-cons (readable closed) hs a = (tt, a)
AllSmall-cons (readable failed) hs a = (tt, a)

dispatch-Ensures :
    (hs : List Happening) (c : Client) → AllSmall hs → IsOrderly c → Ensures (dispatch hs c)
unfolding dispatch
dispatch-Ensures [] c a o = o
dispatch-Ensures (h ∷ hs) c a o =
    Ensures-if (is_over c) (some c) _ (λ done. o)
      (λ more.
        Ensures-then (happen h c) (dispatch hs) (happen-Ensures h c (AllSmall-cons h hs a).0 o)
          (λ after o'. dispatch-Ensures hs after (AllSmall-cons h hs a).1 o'))

-- Whatever the socket reports in answers below 128 bytes, the client makes no bad write; it sends
-- its line at most once; and its loop ends by itself only when the server has closed or the answer
-- is as long as the line.
pub dispatch-IsOrderly :
    (hs : List Happening) → AllSmall hs → (c : Client) × (dispatch hs client ≡ some c) × IsOrderly c
dispatch-IsOrderly hs a =
    Ensures-some (dispatch hs client) (dispatch-Ensures hs client a client-IsOrderly)
