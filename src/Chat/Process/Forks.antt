-- ===== src/Chat/Process/Forks.antt =====
-- The processes that `fork_process` of epoll_simple_chat_server/process.c leaves.
use linux_study_notes.Chat.Process.{Leaves, child, parent, shart_child, fork_loop, fork_process}
use linux_study_notes.Prelude.{
  ℕ, zero, suc, ◌+◌, ◌≡◌, refl, ap, Bool, false, List, [], ◌∷◌, ◌++◌, append-nil, if◌then◌else◌,
  arith, ◌==◌, Bool-cases, inl, inr, ◌≢◌,
}

-- The numbers of the rounds from `i` on whose fork succeeds.
unfoldable pub forked : (ℕ → Bool) → ℕ → ℕ → List Leaves
forked forks zero i = []
forked forks (suc left) i =
    let more = forked forks left (i + 1) in if forks i then child i ∷ more else more

fork_loop-forked :
    (forks : ℕ → Bool) (left i : ℕ)
    → i ≢ 0
    → fork_loop forks left i ≡ forked forks left i ++ parent ∷ []
unfolding fork_loop forked shart_child
fork_loop-forked forks zero i ne = refl
fork_loop-forked forks (suc left) i ne =
    let nz : (i == 0) ≡ false = ground arith in
    elim (Bool-cases (forks i)) [
      | inl works ↦
          rw (works, nz)
            (rw append-nil (ap (◌∷◌ (child i)) (fork_loop-forked forks left (i + 1) (omega arith))))
      | inr fails ↦ rw fails (rw append-nil (fork_loop-forked forks left (i + 1) (omega arith)))
    ]

-- Exactly one child comes out for each fork that succeeds, with the number of its round and in that
-- order, and behind them the one parent; a child never forks again.
pub fork_process-forked :
    (forks : ℕ → Bool) (number : ℕ)
    → fork_process forks number ≡ forked forks number 1 ++ parent ∷ []
unfolding fork_process
fork_process-forked forks number = fork_loop-forked forks number 1 (omega arith)
