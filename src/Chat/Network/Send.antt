-- ===== src/Chat/Network/Send.antt =====
-- What `send_all` of epoll_simple_chat_server/network.c hands to the kernel.
use linux_study_notes.Chat.Network.{
  Outcome, wrote, interrupted, failed, send_loop, send_all, read_loop, read_all,
}
use linux_study_notes.Libc.Int.{ℤ, pos, negsuc}
use linux_study_notes.Libc.{c_str}
use linux_study_notes.Prelude.{
  flatten, ℕ, ◌+◌, ◌≤◌, ◌<◌, ◌≡◌, ◌≢◌, refl, ap, false, List, [], ◌∷◌, ◌++◌, append_assoc,
  append-nil, none, some, ◌==◌, arith, length, length-append, take, drop, take-append-drop,
  length-drop, lt→ltb, le→not_ltb, take-append-take,
}

-- Every call of `write` takes something.
abbrev pub Writes : List Outcome → Type 0
Writes [] = Unit
Writes (wrote n ∷ outcomes) = (n ≢ 0) × Writes outcomes
Writes (interrupted ∷ outcomes) = ⊥
Writes (failed ∷ outcomes) = ⊥

-- How much they take together.
unfoldable pub room : List Outcome → ℕ
room [] = 0
room (wrote n ∷ outcomes) = n + room outcomes
room (interrupted ∷ outcomes) = room outcomes
room (failed ∷ outcomes) = room outcomes

send_loop-all :
    (outcomes : List Outcome) (bytes : List ℕ) (size : ℕ)
    → Writes outcomes
    → length bytes ≤ room outcomes
    → send_loop size bytes outcomes ≡ some (record { value = pos size; taken = bytes })
unfolding send_loop room
send_loop-all [] [] size w h = refl
send_loop-all [] (b ∷ bytes) size w h = absurd (omega arith)
send_loop-all (interrupted ∷ outcomes) bytes size w h = elim w [ ]
send_loop-all (failed ∷ outcomes) bytes size w h = elim w [ ]
send_loop-all (wrote n ∷ outcomes) [] size w h = refl
send_loop-all (wrote n ∷ outcomes) (b ∷ bytes) size w h =
    let ne : (n == 0) ≡ false = ground (arith, w.0) in
    rw ne (
      rw
        (send_loop-all outcomes (drop n (b ∷ bytes)) size w.1
          (omega (arith, length-drop n (b ∷ bytes))))
        (rw (take-append-drop n (b ∷ bytes))))

-- However the kernel splits the message, when its calls together have room for it, every byte is
-- written, once and in order, and the length is returned.
pub send_all_complete :
    (buf : List ℕ) (outcomes : List Outcome)
    → Writes outcomes
    → length (c_str buf) ≤ room outcomes
    → send_all buf outcomes ≡ some (record { value = pos (length (c_str buf)); taken = c_str buf })
unfolding send_all
send_all_complete buf outcomes w h = send_loop-all outcomes (c_str buf) (length (c_str buf)) w h

send_loop-stop :
    (outcomes rest : List Outcome) (last : Outcome) (bytes : List ℕ) (size : ℕ) (v : ℤ)
    → Writes outcomes
    → room outcomes < length bytes
    → ((b : ℕ) (bs : List ℕ)
        → send_loop size (b ∷ bs) (last ∷ rest) ≡ some (record { value = v; taken = [] }))
    → send_loop size bytes (outcomes ++ last ∷ rest)
      ≡ some (record { value = v; taken = take (room outcomes) bytes })
unfolding send_loop room
send_loop-stop [] rest last [] size v w h e = absurd (omega arith)
send_loop-stop [] rest last (b ∷ bytes) size v w h e = e b bytes
send_loop-stop (interrupted ∷ outcomes) rest last bytes size v w h e = elim w [ ]
send_loop-stop (failed ∷ outcomes) rest last bytes size v w h e = elim w [ ]
send_loop-stop (wrote n ∷ outcomes) rest last [] size v w h e = absurd (omega arith)
send_loop-stop (wrote n ∷ outcomes) rest last (b ∷ bytes) size v w h e =
    let ne : (n == 0) ≡ false = ground (arith, w.0) in
    rw ne (
      rw
        (send_loop-stop outcomes rest last (drop n (b ∷ bytes)) size v w.1
          (omega (arith, length-drop n (b ∷ bytes))) e)
        (ap (λ l. some (record { value = v; taken = l }))
          (take-append-take n (room outcomes) (b ∷ bytes))))

interrupted_stops :
    (size : ℕ) (rest : List Outcome) (b : ℕ) (bs : List ℕ)
    → send_loop size (b ∷ bs) (interrupted ∷ rest) ≡ some (record { value = pos size; taken = [] })
unfolding send_loop
interrupted_stops size rest b bs = refl

failed_stops :
    (size : ℕ) (rest : List Outcome) (b : ℕ) (bs : List ℕ)
    → send_loop size (b ∷ bs) (failed ∷ rest) ≡ some (record { value = negsuc 0; taken = [] })
unfolding send_loop
failed_stops size rest b bs = refl

-- A signal in the middle of a message breaks the loop off: the value is the whole length, though
-- only the bytes of the calls before it have been written.
pub send_all-interrupted :
    (buf : List ℕ) (outcomes rest : List Outcome)
    → Writes outcomes
    → room outcomes < length (c_str buf)
    → send_all buf (outcomes ++ interrupted ∷ rest)
      ≡ some (record { value = pos (length (c_str buf)); taken = take (room outcomes) (c_str buf) })
unfolding send_all
send_all-interrupted buf outcomes rest w h =
    send_loop-stop outcomes rest interrupted (c_str buf) (length (c_str buf))
      (pos (length (c_str buf))) w h (interrupted_stops (length (c_str buf)) rest)

-- Any other failure is reported by -1, with the bytes before it written.
pub send_all-failed :
    (buf : List ℕ) (outcomes rest : List Outcome)
    → Writes outcomes
    → room outcomes < length (c_str buf)
    → send_all buf (outcomes ++ failed ∷ rest)
      ≡ some (record { value = negsuc 0; taken = take (room outcomes) (c_str buf) })
unfolding send_all
send_all-failed buf outcomes rest w h =
    send_loop-stop outcomes rest failed (c_str buf) (length (c_str buf)) (negsuc 0) w h
      (failed_stops (length (c_str buf)) rest)

-- The bytes of all reads, in order, if they and the NUL fit into the array.
read_loop-flatten :
    (chunks : List (List ℕ)) (got : List ℕ) (size : ℕ)
    → length got + length (flatten chunks) < size
    → read_loop size got chunks ≡ some (got ++ flatten chunks)
unfolding read_loop
read_loop-flatten [] got size h = rw (append-nil, lt→ltb (length got) size (omega arith))
read_loop-flatten (c ∷ chunks) got size h = ground (
  arith,
  length-append c (flatten chunks),
  length-append got c,
  append_assoc got c (flatten chunks),
  read_loop-flatten chunks (got ++ c) size,
)

-- `read_all` puts what arrives behind one another, however it is split, if it leaves room for the
-- NUL.
pub read_all-flatten :
    (chunks : List (List ℕ)) (size : ℕ)
    → length (flatten chunks) < size
    → read_all size chunks ≡ some (flatten chunks)
unfolding read_all
read_all-flatten chunks size h = read_loop-flatten chunks [] size (omega arith)

read_loop-overflow :
    (chunks : List (List ℕ)) (got : List ℕ) (size : ℕ)
    → size ≤ length got + length (flatten chunks)
    → read_loop size got chunks ≡ none
unfolding read_loop
read_loop-overflow [] got size h = rw (le→not_ltb (length got) size (omega arith))
read_loop-overflow (c ∷ chunks) got size h = ground (
  arith,
  length-append c (flatten chunks),
  length-append got c,
  read_loop-overflow chunks (got ++ c) size,
)

-- As many bytes as the array has, or more, are written behind its end: `read_all` does not know its
-- size.
pub read_all-overflow :
    (chunks : List (List ℕ)) (size : ℕ)
    → size ≤ length (flatten chunks)
    → read_all size chunks ≡ none
unfolding read_all
read_all-overflow chunks size h = read_loop-overflow chunks [] size (omega arith)
