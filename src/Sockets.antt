-- ===== src/Sockets.antt =====
-- The calls of <sys/socket.h>, <fcntl.h> and <sys/epoll.h> with which tinyhttpd and
-- epoll_simple_chat_server set up their sockets, and what is documented of them.
pub mod Laws
pub mod Toy
use linux_study_notes.Prelude.{ℕ, ◌+◌, ◌*◌, ◌/◌, ◌%◌, Bool, true, false, List, Option, none, some}

-- `W` is the state of the kernel, and `none` is -1. Ports are in the order of the network.
pub record Kernel (W : Type 0) : Type 0 where
  pub socket : W → W × Option ℕ
  pub setsockopt : ℕ → W → W × Bool
  pub bind : ℕ → ℕ → W → W × Bool
  pub getsockname : ℕ → W → Option ℕ
  pub listen : ℕ → ℕ → W → W × Bool
  pub accept : ℕ → W → W × Option ℕ
  pub connect : Option ℕ → ℕ → W → W × Bool
  -- `fcntl` with F_GETFL and with F_SETFL
  pub get_flags : Option ℕ → W → Option ℕ
  pub set_flags : Option ℕ → ℕ → W → W × Bool
  pub epoll_create : W → W × Option ℕ
  -- `epoll_ctl` with EPOLL_CTL_ADD: the epoll instance, the descriptor, and the events
  pub epoll_add : ℕ → Option ℕ → ℕ → W → W × Bool

-- On a machine that stores the low byte of a number first.
unfoldable pub htons : ℕ → ℕ
htons port = port % 256 * 256 + port / 256 % 256

unfoldable pub ntohs : ℕ → ℕ
unfolding htons
ntohs port = htons port

-- `perror` with a text and `exit`, or a value.
pub data Ends {ℓ} (A : Type ℓ) : Type ℓ where
  died : List ℕ → Ends A
  went_on : A → Ends A

infixl 5 ◌>>=◌
abbrev pub ◌>>=◌ {ℓ κ} : {A : Type ℓ} {B : Type κ} → Ends A → (A → Ends B) → Ends B
died text >>= next = died text
went_on value >>= next = next value

-- A call whose failure ends the process.
abbrev pub or_die {ℓ} : {A : Type ℓ} → List ℕ → Option A → Ends A
or_die text none = died text
or_die text (some value) = went_on value

abbrev pub or_die_unless {ℓ} : {W : Type ℓ} → List ℕ → Bool → W → Ends W
or_die_unless text true w = went_on w
or_die_unless text false w = died text

abbrev pub check {ℓ} : {W : Type ℓ} → List ℕ → W × Bool → Ends W
check text r = or_die_unless text r.1 r.0
