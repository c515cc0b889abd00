-- ===== src/Sockets/Laws.antt =====
-- What is documented of the calls that set up a socket.
use linux_study_notes.Sockets.{Kernel, htons, ntohs}
use linux_study_notes.Prelude.{ℕ, ◌<◌, ◌≡◌, ◌⊎◌, Bool, true, false, Option, none, some, arith}

-- What the kernel knows of a descriptor: its port, whether it listens, its flags, and with which
-- events an epoll instance watches it.
pub record View (W : Type 0) : Type 0 where
  pub port_of : W → ℕ → ℕ
  pub listens : W → ℕ → Bool
  pub flags : W → ℕ → ℕ
  pub watched : W → ℕ → ℕ → Option ℕ

pub record IsKernel {W : Type 0} (k : Kernel W) (v : View W) : Type 0 where
  pub bind_port :
      (fd port : ℕ) (w : W)
      → (k.bind fd port w).1 ≡ true
      → (port ≡ 0) ⊎ (v.port_of (k.bind fd port w).0 fd ≡ port)
  pub name_is :
      (fd port : ℕ) (w : W)
      → k.getsockname fd w ≡ some port
      → (v.port_of w fd ≡ port) × (port < 65536)
  pub listen_on :
      (fd n : ℕ) (w : W) → (k.listen fd n w).1 ≡ true → v.listens (k.listen fd n w).0 fd ≡ true
  pub listen_keeps :
      (fd n : ℕ) (w : W)
      → (v.port_of (k.listen fd n w).0 fd ≡ v.port_of w fd)
        × (v.flags (k.listen fd n w).0 fd ≡ v.flags w fd)
  pub flags_are : (fd f : ℕ) (w : W) → k.get_flags (some fd) w ≡ some f → v.flags w fd ≡ f
  pub connect_bad : (port : ℕ) (w : W) → (k.connect none port w).1 ≡ false
  pub bad_descriptor : (w : W) → k.get_flags none w ≡ none
  pub flags_set :
      (fd f : ℕ) (w : W)
      → (k.set_flags (some fd) f w).1 ≡ true
      → v.flags (k.set_flags (some fd) f w).0 fd ≡ f
  pub set_keeps_port :
      (fd f : ℕ) (w : W) → v.port_of (k.set_flags (some fd) f w).0 fd ≡ v.port_of w fd
  pub added :
      (epoll fd events : ℕ) (w : W)
      → (k.epoll_add epoll (some fd) events w).1 ≡ true
      → v.watched (k.epoll_add epoll (some fd) events w).0 epoll fd ≡ some events
  pub add_keeps_flags :
      (epoll fd events : ℕ) (w : W)
      → v.flags (k.epoll_add epoll (some fd) events w).0 fd ≡ v.flags w fd

-- Either order is the other one turned round.
pub htons-ntohs : (port : ℕ) → port < 65536 → htons (ntohs port) ≡ port
unfolding htons ntohs
htons-ntohs port h = omega arith

pub htons_zero : (port : ℕ) → port < 65536 → htons port ≡ 0 → port ≡ 0
unfolding htons
htons_zero port h e = omega arith
