-- ===== src/Chat/Network.antt =====
-- epoll_simple_chat_server/network.c: `read_all` and `send_all`, over what the kernel's calls of
-- `read` and `write` return.
pub mod Send
use linux_study_notes.Libc.{c_str}
use linux_study_notes.Libc.Int.{ℤ, pos, negsuc}
use linux_study_notes.Prelude.{
  ℕ, zero, suc, ◌+◌, ◌-◌, List, [], ◌∷◌, ◌++◌, Option, none, some, ltb, leb, ◌==◌, if◌then◌else◌,
  length, take, drop, min,
}

-- `read_all(fd, buf)` for an array of `size` bytes: the calls of `read` that returned bytes, one
-- after the other, until one returned 0 or -1. The bytes go behind one another; `none` is a write
-- behind the end of the array, by `read` or by the NUL.
unfoldable pub read_loop : ℕ → List ℕ → List (List ℕ) → Option (List ℕ)
read_loop size got [] = if ltb (length got) size then some got else none
read_loop size got (chunk ∷ more) =
    let rest = read_loop size (got ++ chunk) more in
    if leb (length got + length chunk) size then rest else none

unfoldable pub read_all : ℕ → List (List ℕ) → Option (List ℕ)
read_all size chunks = read_loop size [] chunks

-- What a call of `write` returns: a count (at most what it was given), -1 with `EINTR`, or anything
-- else that is not positive.
pub data Outcome : Type 0 where
  wrote : ℕ → Outcome
  interrupted : Outcome
  failed : Outcome

-- The value of `send_all`, and the bytes that `write` has taken.
pub record Sent : Type 0 where
  pub value : ℤ
  pub taken : List ℕ

abbrev pub sent_after : List ℕ → Sent → Sent
sent_after bytes s = record s { taken = bytes ++ s.taken }

abbrev pub after_write : List ℕ → Option Sent → Option Sent
after_write bytes none = none
after_write bytes (some s) = some (sent_after bytes s)

-- The loop over `ptr` and `nleft`, with `data_size`; `none` if the last call of `write` that is
-- given has returned and bytes are left.
unfoldable pub send_loop : ℕ → List ℕ → List Outcome → Option Sent
send_loop size [] outcomes = some (record { value = pos size; taken = [] })
send_loop size (b ∷ bytes) [] = none
send_loop size (b ∷ bytes) (interrupted ∷ outcomes) = some (record { value = pos size; taken = [] })
send_loop size (b ∷ bytes) (failed ∷ outcomes) = some (record { value = negsuc 0; taken = [] })
send_loop size (b ∷ bytes) (wrote n ∷ outcomes) =
    let stop : Option Sent = some (record { value = negsuc 0; taken = [] }) in
    let rest = send_loop size (drop n (b ∷ bytes)) outcomes in
    if n == 0 then stop else after_write (take n (b ∷ bytes)) rest

unfoldable pub send_all : List ℕ → List Outcome → Option Sent
send_all buf outcomes = send_loop (length (c_str buf)) (c_str buf) outcomes
