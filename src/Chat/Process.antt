-- ===== src/Chat/Process.antt =====
pub mod Forks
-- epoll_simple_chat_server/process.c: `fork_process`. A call of `fork` returns in one process or in
-- two; a run is the list of the processes that come out of it.
use linux_study_notes.Prelude.{
  ℕ, zero, suc, ◌+◌, ◌≡◌, refl, ap, Bool, true, false, List, [], ◌∷◌, ◌++◌, if◌then◌else◌, arith,
  length, not, ◌==◌,
}

-- A process that leaves `fork_process`: a child with its number, or the parent, which has waited.
pub data Leaves : Type 0 where
  child : ℕ → Leaves
  parent : Leaves

-- The values that `shart_child(i)` returns, in the processes that are there then: in the child `i`,
-- in the parent 0; only 0 where `fork` fails.
unfoldable pub shart_child : Bool → ℕ → List ℕ
shart_child true i = i ∷ 0 ∷ []
shart_child false i = 0 ∷ []

-- `if(child_id!=0) return;`, in each process; one with 0 goes on with the loop, as `rest`.
abbrev pub each : List ℕ → List Leaves → List Leaves
each [] rest = []
each (v ∷ vs) rest = (if v == 0 then rest else child v ∷ []) ++ each vs rest

-- `for (i = 1; i <= number; i++)`, `left` being the rounds to come; `forks i` tells whether the
-- fork of round `i` succeeds.
unfoldable pub fork_loop : (ℕ → Bool) → ℕ → ℕ → List Leaves
fork_loop forks zero i = parent ∷ []
fork_loop forks (suc left) i = each (shart_child (forks i) i) (fork_loop forks left (i + 1))

unfoldable pub fork_process : (ℕ → Bool) → ℕ → List Leaves
fork_process forks number = fork_loop forks number 1
