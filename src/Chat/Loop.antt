-- ===== src/Chat/Loop.antt =====
pub mod Partners
pub mod Pairs
pub mod Conversation
-- epoll_simple_chat_server/main.c: `io_loop` and `process_request`, over the two maps.
use Prim.Native.Nat.{bit_and}
use linux_study_notes.Chat.Network.{Outcome, Sent, read_all, send_all}
use linux_study_notes.Libc.Int.{ℤ, pos, negsuc}
use linux_study_notes.Libc.{atoi, c_str}
use linux_study_notes.Prelude.{
  ℕ, zero, suc, ◌+◌, ◌*◌, Bool, true, false, not, List, [], ◌∷◌, ◌++◌, Option, none, some, ltb,
  ◌==◌, if◌then◌else◌, length,
}

abbrev pub max_fd : ℕ
max_fd = 1024 * 1024

-- `sizeof(buf)` in the two branches of `process_request`
abbrev pub join_size : ℕ
join_size = 10

abbrev pub talk_size : ℕ
talk_size = 1048576

-- The maps, the descriptors that were closed, and what was written to which descriptor, oldest
-- first.
pub record Chat : Type 0 where
  pub fd_map : ℕ → ℕ
  pub ready_fd_map : ℕ → Bool
  pub closed : List ℕ
  pub sent : List (ℕ × List ℕ)

abbrev pub update {ℓ} : {A : Type ℓ} → (ℕ → A) → ℕ → A → ℕ → A
update f i a j = if i == j then a else f j

-- What stops the server: an access outside an array, a failed `accept` (its -1 makes `fcntl` fail,
-- and the process exits), or a call of `write` that has not returned.
pub data Stop : Type 0 where
  out_of_bounds exits waits : Stop

pub data Result (A : Type 0) : Type 0 where
  ok : A → Result A
  stop : Stop → Result A

infixl 5 ◌>>=◌
abbrev pub ◌>>=◌ : {A B : Type 0} → Result A → (A → Result B) → Result B
ok a >>= f = f a
stop e >>= f = stop e

abbrev pub or_stop : {A : Type 0} → Stop → Option A → Result A
or_stop e none = stop e
or_stop e (some a) = ok a

-- A ready descriptor, and what the kernel answers while it is handled: the client that `accept`
-- gives, the bytes of each `read`, and the outcomes of `write`.
pub record Event : Type 0 where
  pub fd : ℕ
  pub events : ℕ
  pub accepted : Option ℕ
  pub chunks : List (List ℕ)
  pub writes : List Outcome

abbrev pub close_and_clean : ℕ → Chat → Chat
close_and_clean fd c = record c { closed = c.closed ++ fd ∷ [] }

-- `if(!connect_fd)`, `if(!ready_fd_map[connect_fd])`, and the two entries. The code does not test
-- the index: outside the maps the access is undefined in C, and `out_of_bounds` stands for that.
unfoldable pub join : ℕ → ℤ → Chat → Result Chat
join client (negsuc n) c = stop out_of_bounds
join client (pos n) c =
    if n == 0
    then ok (close_and_clean client c)
    else if not (ltb n max_fd)
    then stop out_of_bounds
    else if not (c.ready_fd_map n)
    then ok (close_and_clean client c)
    else ok (record c { fd_map = update (update c.fd_map client n) n client })

-- The branch of a client that has a partner.
unfoldable pub talk : ℕ → List ℕ → List Outcome → Chat → Result Chat
talk client buf writes c =
    let fd = c.fd_map client in
    if ltb 0 (length (c_str buf))
    then (or_stop waits (send_all buf writes) >>= λ s.
        ok (record c { sent = c.sent ++ (fd, s.taken) ∷ [] }))
    else ok c

unfoldable pub process_request : ℕ → List (List ℕ) → List Outcome → Chat → Result Chat
process_request client chunks writes c =
    if not (ltb client max_fd)
    then stop out_of_bounds
    else if c.fd_map client == 0
    then (or_stop out_of_bounds (read_all join_size chunks) >>= λ buf. join client (atoi buf) c)
    else or_stop out_of_bounds (read_all talk_size chunks) >>= λ buf. talk client buf writes c

-- The two calls of `close` on an error.
abbrev pub drop_pair : ℕ → Chat → Result Chat
drop_pair fd c =
    if ltb fd max_fd
    then (let c' = close_and_clean fd c in ok (close_and_clean (c.fd_map fd) c'))
    else stop out_of_bounds

unfoldable pub accept_client : Option ℕ → Chat → Result Chat
accept_client none c = stop exits
accept_client (some client) c =
    if ltb client max_fd
    then ok (record c { ready_fd_map = update c.ready_fd_map client true })
    else stop out_of_bounds

-- One round of the `for` loop: EPOLLERR is 8, EPOLLIN is 1, EPOLLOUT is 4 and only prints.
unfoldable pub handle : ℕ → Event → Chat → Result Chat
handle listen_sock e c =
    if e.fd == listen_sock
    then accept_client e.accepted c
    else if not (bit_and e.events 8 == 0)
    then drop_pair e.fd c
    else if not (bit_and e.events 1 == 0)
    then process_request e.fd e.chunks e.writes c
    else ok c

-- `io_loop`, over the events that `epoll_wait` reports.
unfoldable pub io_loop : ℕ → List Event → Chat → Result Chat
io_loop listen_sock [] c = ok c
io_loop listen_sock (e ∷ events) c = handle listen_sock e c >>= λ c'. io_loop listen_sock events c'

-- Both maps are zero at the start.
abbrev pub start : Chat
start = record { fd_map = λ _. 0; ready_fd_map = λ _. false; closed = []; sent = [] }
