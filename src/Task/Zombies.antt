-- ===== src/Task/Zombies.antt =====
-- What `wait4` does to the child that it reaps.
use mcr.Prelude.{ℕ, ◌≡◌, refl, false, none, some, arith, ◌∙◌, ◌<◌, ap}
use mcr.Sys.Args.{Wait4SyscallArgs, has_unsupported_options}
use mcr.Task.Process.{GuestProcess}
use mcr.Task.State.{GuestKernel, GuestTask}
use mcr.Task.Error.{ok}
use mcr.Task.Kernel.{process, task}
use mcr.Task.Wait.{exited_waitable_child, wait4_child, reap_child, reap_exited}
use mcr.Task.Invariant.{Inv}
use mcr.Task.Invariant.Reap.{process-reaped, task-reaped, contains-tids_of}
use mcr.Task.Refines.Waits.{Waitable, exited_waitable_child-Waitable, some_result-same}

module _ (parent_pid child_pid : ℕ) (args : Wait4SyscallArgs) (k : GuestKernel) (inv : Inv k)
    (accepted : has_unsupported_options args ≡ false)
    (found : exited_waitable_child k parent_pid args.pid ≡ ok (some child_pid)) where
  zombie : Waitable k parent_pid child_pid
  zombie = exited_waitable_child-Waitable k parent_pid args.pid child_pid found

  wait4_child_lem :
      (wait4_child parent_pid args k).1 ≡ (reap_exited parent_pid child_pid zombie.status k).1
  unfolding wait4_child reap_child
  wait4_child_lem =
      rw (accepted, found, wait4_child)
        (some_result-same (reap_child parent_pid child_pid k).0
            (reap_child parent_pid child_pid k).1
          ∙ rw (zombie.child_found, zombie.ended, reap_child) refl)

  -- On well-formed tables, a `wait4` with supported options that finds an exited child removes that
  -- child's process entry.
  pub process-wait4_child : process (wait4_child parent_pid args k).1 child_pid ≡ none
  process-wait4_child =
      ap (λ m. process m child_pid) wait4_child_lem
      ∙ ground (
        arith,
        older,
        process-reaped k parent_pid child_pid zombie.parent zombie.child zombie.status inv
            zombie.parent_found zombie.listed child_pid,
      )
    where
      kin : (y : GuestProcess) × (process k child_pid ≡ some y) × (y.parent ≡ some parent_pid)
      kin = inv.children parent_pid zombie.parent child_pid zombie.parent_found zombie.listed

      older : parent_pid < child_pid
      older = inv.parents child_pid kin.0 parent_pid kin.1 kin.2

  -- On well-formed tables, a `wait4` with supported options that finds an exited child removes
  -- every task of that child.
  pub task-wait4_child :
      (t : ℕ) (x : GuestTask)
      → task k t ≡ some x
      → x.pid ≡ child_pid
      → task (wait4_child parent_pid args k).1 t ≡ none
  task-wait4_child t x e h =
      ap (λ m. task m t) wait4_child_lem
      ∙ ground (
        arith,
        (inv.task_ids t x e).0,
        contains-tids_of k child_pid t x e h,
        task-reaped k parent_pid child_pid zombie.parent zombie.child zombie.status inv
            zombie.parent_found zombie.listed t,
      )
