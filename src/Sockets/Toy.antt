-- ===== src/Sockets/Toy.antt =====
-- A kernel with one socket and one epoll instance, of the kind that the programs run on.
use linux_study_notes.Sockets.{Kernel}
use linux_study_notes.Sockets.Laws.{View, IsKernel}
use linux_study_notes.Prelude.{
  ℕ, ◌<◌, ◌≡◌, ◌⊎◌, inl, inr, refl, Bool, true, false, Option, none, some, ltb, ltb→lt, ◌==◌,
  ==_iff, if◌then◌else◌, Bool-cases, arith,
}

pub record Machine : Type 0 where
  pub port : ℕ
  pub listening : Bool
  pub flags : ℕ
  pub watch : Option ℕ
  -- the client that waits
  pub client : Option ℕ

unfoldable pub toy_name : Machine → Option ℕ
toy_name m = if ltb m.port 65536 then some m.port else none

unfoldable pub toy_flags : Option ℕ → Machine → Option ℕ
toy_flags none m = none
toy_flags (some fd) m = some m.flags

unfoldable pub toy_connect : Option ℕ → ℕ → Machine → Machine × Bool
toy_connect none port m = (m, false)
toy_connect (some fd) port m = (m, true)

abbrev pub toy_kernel : Kernel Machine
toy_kernel = record {
  socket = λ m. (m, some 3);
  setsockopt = λ fd m. (m, true);
  bind = λ fd port m. (record m { port = if port == 0 then 4660 else port }, true);
  getsockname = λ fd m. toy_name m;
  listen = λ fd n m. (record m { listening = true }, true);
  accept = λ fd m. (record m { client = none }, m.client);
  connect = toy_connect;
  get_flags = toy_flags;
  set_flags = λ fd f m. (record m { flags = f }, true);
  epoll_create = λ m. (m, some 4);
  epoll_add = λ epoll fd events m. (record m { watch = some events }, true);
}

abbrev pub toy_view : View Machine
toy_view = record {
  port_of = λ m fd. m.port;
  listens = λ m fd. m.listening;
  flags = λ m fd. m.flags;
  watched = λ m epoll fd. m.watch;
}

toy_bind : (port : ℕ) → (port ≡ 0) ⊎ (◌≡◌ {A = ℕ} (if port == 0 then 4660 else port) port)
toy_bind port = elim (Bool-cases (port == 0)) [
  | inl chosen ↦ inl ((==_iff port 0).0 chosen)
  | inr given ↦ rw given (inr refl)
]

toy_name_is : (m : Machine) (port : ℕ) → toy_name m ≡ some port → (m.port ≡ port) × (port < 65536)
unfolding toy_name
toy_name_is m port e = elim (Bool-cases (ltb m.port 65536)) [
  | inl small ↦
      let now = rw small at e in
      let same : m.port ≡ port = cc in (same, omega (arith, ltb→lt m.port 65536 small, same))
  | inr large ↦ let wrong = rw large at e in cc
]

toy_flags_are : (fd f : ℕ) (m : Machine) → toy_flags (some fd) m ≡ some f → m.flags ≡ f
unfolding toy_flags
toy_flags_are fd f m e = cc

pub toy_kernel-IsKernel : IsKernel toy_kernel toy_view
unfolding toy_flags toy_connect
toy_kernel-IsKernel = record {
  bind_port = λ fd port m h. toy_bind port;
  name_is = λ fd port m e. toy_name_is m port e;
  listen_on = λ fd n m h. refl;
  listen_keeps = λ fd n m. (refl, refl);
  flags_are = λ fd f m e. toy_flags_are fd f m e;
  connect_bad = λ port m. refl;
  bad_descriptor = λ m. refl;
  flags_set = λ fd f m h. refl;
  set_keeps_port = λ fd f m. refl;
  added = λ epoll fd events m h. refl;
  add_keeps_flags = λ epoll fd events m. refl;
}

abbrev pub machine : Machine
machine = record { port = 0; listening = false; flags = 2; watch = none; client = some 5 }
