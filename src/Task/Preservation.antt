-- ===== src/Task/Preservation.antt =====
-- Every move keeps the well-formedness of the kernel, and so does every sequence of moves.
use mcr.Prelude.{subst, sym}
use mcr.Task.State.{GuestKernel}
use mcr.Task.Moves.{
  Move, changes_state, edits_task, edits_process, uses_pid, forks, spawns, reaps, Moves, Moves-keep,
}
use mcr.Task.Invariant.{Inv}
use mcr.Task.Invariant.Edits.{set_state-Inv, edit_task-Inv, edit_process-Inv}
use mcr.Task.Invariant.Growth.{uses_pid-Inv, spawns-Inv}
use mcr.Task.Invariant.Fork.{forks-Inv}
use mcr.Task.Invariant.Reap.{reaps-Inv}

pub Move-Inv : (k k' : GuestKernel) → Move k k' → Inv k → Inv k'
Move-Inv k k' (changes_state tid s e) inv = subst Inv (sym e) (set_state-Inv k tid s inv)
Move-Inv k k' (edits_task tid f kept e) inv = subst Inv (sym e) (edit_task-Inv k tid f kept inv)
Move-Inv k k' (edits_process pid f kept e) inv =
    subst Inv (sym e) (edit_process-Inv k pid f kept inv)
Move-Inv k k' (uses_pid e) inv = subst Inv (sym e) (uses_pid-Inv k inv)
Move-Inv k k' (forks tid t p caller owner e) inv =
    subst Inv (sym e) (forks-Inv k tid t p inv caller owner)
Move-Inv k k' (spawns tid t new p caller owner ids pids mask e) inv =
    subst Inv (sym e) (spawns-Inv k t new tid p inv caller owner ids pids mask)
Move-Inv k k' (reaps parent_pid child_pid p c status parent listed child ended e) inv =
    subst Inv (sym e) (reaps-Inv k parent_pid child_pid p c status inv parent listed)

pub Moves-Inv : {k k' : GuestKernel} → Moves k k' → Inv k → Inv k'
Moves-Inv = Moves-keep Inv Move-Inv
