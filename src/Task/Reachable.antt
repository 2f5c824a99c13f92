-- ===== src/Task/Reachable.antt =====
-- The kernels that a run of crates/mcr-task comes to: from `GuestKernel::new`, by replies of the
-- dispatcher and by the calls that its host makes itself.
use mcr.Prelude.{
  ℕ, ◌≡◌, refl, subst, sym, Bool, false, Option, some, inl, inr, ℤ, ap, ◌∙◌, bit_and, Option-cases,
  arith,
}
use mcr.Prelude.Bits.{bit_and_assoc, zero-bit_and}
use mcr.Sys.Args.{RtSigactionSyscallArgs, CloneSyscallArgs}
use mcr.Sys.Return.{SyscallOutcome}
use mcr.Task.Registers.{GprState}
use mcr.Task.Program.{GuestProgram}
use mcr.Task.Process.{GuestSignalAction}
use mcr.Task.State.{GuestKernel, FutexWaitKey}
use mcr.Task.Error.{ok}
use mcr.Task.Kernel.{Loader, new_kernel, task}
use mcr.Task.Clone.{clone_current_with_child_regs}
use mcr.Task.Mask.{linux_sigkill, linux_sigstop, unblockable_signal_mask, signal_matches_mask}
use mcr.Task.Exit.{exit_task, exit_group}
use mcr.Task.Exec.{exec_task, execve_current}
use mcr.Task.Signal.{
  rt_sigaction_current_with_action, rt_sigprocmask_current_mask, set_task_signal_mask,
  rt_sigtimedwait_current, rt_sigsuspend_current, signal_blocked,
}
use mcr.Task.Wait.{
  resume_waiting_tasks, block_task_for_fd, block_task_for_sleep, resume_sleep_waiter, FdReady,
  resume_fd_waiters,
}
use mcr.Task.Futex.{
  block_task_for_futex, wake_futex_waiters, requeue_futex_waiters, timeout_futex_waiter,
}
use mcr.Task.Syscalls.{SyscallRequest, dispatch_for_current_task}
use mcr.Task.Moves.{Moves, MaskOk}
use mcr.Task.Invariant.{Inv}
use mcr.Task.Boot.{new_kernel-Inv}
use mcr.Task.Preservation.{Moves-Inv}
use mcr.Task.Refines.Forks.{clone_current_with_child_regs-Moves}
use mcr.Task.Refines.Ends.{exit_task-Moves, exit_group-Moves, exec_task-Moves, execve-Moves}
use mcr.Task.Refines.Calls.{rt_sigaction-Moves, set_task_signal_mask-Moves, rt_sigprocmask-Moves}
use mcr.Task.Refines.Sends.{rt_sigtimedwait-Moves, rt_sigsuspend-Moves}
use mcr.Task.Refines.Futexes.{
  wake_futex_waiters-Moves, requeue_futex_waiters-Moves, block_task_for_futex-Moves,
  timeout_futex_waiter-Moves,
}
use mcr.Task.Refines.Waits.{
  block_task-Moves, resume_sleep_waiter-Moves, resume_waiting_tasks-Moves, resume_fd_waiters-Moves,
}
use mcr.Task.Guarantees.{dispatch-Inv}

-- A call of the host on the kernel, with the arguments that it may have.
pub data Step (loader : Loader) (k k' : GuestKernel) : Type 1 where
  replies :
      (r : SyscallRequest) (outcome : SyscallOutcome)
      → dispatch_for_current_task loader r k ≡ some (outcome, k')
      → Step loader k k'
  clones :
      (tid : ℕ) (args : CloneSyscallArgs) (regs : GprState)
      → k' ≡ (clone_current_with_child_regs tid args regs k).1
      → Step loader k k'
  ends_task : (tid : ℕ) (status : ℤ) → k' ≡ (exit_task tid status k).1 → Step loader k k'
  ends_group : (pid : ℕ) (status : ℤ) → k' ≡ (exit_group pid status k).1 → Step loader k k'
  loads :
      (tid : ℕ) (program : GuestProgram)
      → k' ≡ (exec_task loader tid program k).1
      → Step loader k k'
  executes :
      (tid : ℕ) (program : GuestProgram)
      → k' ≡ (execve_current loader tid program k).1
      → Step loader k k'
  sets_action :
      (tid : ℕ) (args : RtSigactionSyscallArgs) (action : Option GuestSignalAction)
      → k' ≡ (rt_sigaction_current_with_action tid args action k).1
      → Step loader k k'
  changes_mask :
      (tid how : ℕ) (mask : Option ℕ) (size : ℕ)
      → k' ≡ (rt_sigprocmask_current_mask tid how mask size k).1
      → Step loader k k'
  restores_mask : (tid mask : ℕ) → k' ≡ (set_task_signal_mask tid mask k).1 → Step loader k k'
  awaits_signal :
      (tid mask size : ℕ) (forever : Bool)
      → k' ≡ (rt_sigtimedwait_current tid mask size forever k).1
      → Step loader k k'
  suspends : (tid mask size : ℕ) → k' ≡ (rt_sigsuspend_current tid mask size k).1 → Step loader k k'
  resumes_waiting : k' ≡ (resume_waiting_tasks k).1 → Step loader k k'
  blocks_for_fd :
      (tid : ℕ) (fd : ℤ) (write : Bool)
      → k' ≡ (block_task_for_fd tid fd write k).1
      → Step loader k k'
  resumes_fds :
      {S : Type 0} (ready : FdReady S) (caller : S)
      → k' ≡ (resume_fd_waiters ready caller k).1
      → Step loader k k'
  blocks_for_futex :
      (tid : ℕ) (key : FutexWaitKey) → k' ≡ (block_task_for_futex tid key k).1 → Step loader k k'
  wakes :
      (key : FutexWaitKey) (limit : ℕ) → k' ≡ (wake_futex_waiters key limit k).1 → Step loader k k'
  requeues :
      (source target : FutexWaitKey) (woken moved : ℕ)
      → k' ≡ (requeue_futex_waiters source target woken moved k).1
      → Step loader k k'
  times_out : (tid : ℕ) → k' ≡ (timeout_futex_waiter tid k).1 → Step loader k k'
  blocks_for_sleep : (tid : ℕ) → k' ≡ (block_task_for_sleep tid k).1 → Step loader k k'
  wakes_sleeper : (tid : ℕ) → k' ≡ (resume_sleep_waiter tid k).1 → Step loader k k'

-- A kernel that a run comes to.
pub data Reachable (loader : Loader) : GuestKernel → Type 1 where
  boots :
      {k : GuestKernel} (program : GuestProgram)
      → new_kernel loader program ≡ ok k
      → Reachable loader k
  steps : {k k' : GuestKernel} → Reachable loader k → Step loader k k' → Reachable loader k'

by_moves : {k k' m : GuestKernel} → Inv k → Moves k m → k' ≡ m → Inv k'
by_moves inv ms e = subst Inv (sym e) (Moves-Inv ms inv)

Step-Inv : (loader : Loader) {k k' : GuestKernel} → Step loader k k' → Inv k → Inv k'
unfolding block_task_for_fd block_task_for_sleep
Step-Inv loader {k} {k'} (replies r outcome e) inv =
    let (reply, given, kept) = dispatch-Inv loader r k inv in
    subst Inv (ground (arith, given, e)) kept
Step-Inv loader {k} (clones tid args regs e) inv =
    by_moves inv (clone_current_with_child_regs-Moves tid args regs k) e
Step-Inv loader {k} (ends_task tid status e) inv = by_moves inv (exit_task-Moves tid status k) e
Step-Inv loader {k} (ends_group pid status e) inv = by_moves inv (exit_group-Moves pid status k) e
Step-Inv loader {k} (loads tid program e) inv =
    by_moves inv (exec_task-Moves loader tid program k) e
Step-Inv loader {k} (executes tid program e) inv =
    by_moves inv (execve-Moves loader tid program k) e
Step-Inv loader {k} (sets_action tid args action e) inv =
    by_moves inv (rt_sigaction-Moves tid args action k) e
Step-Inv loader {k} (changes_mask tid how mask size e) inv =
    by_moves inv (rt_sigprocmask-Moves tid how mask size k) e
Step-Inv loader {k} (restores_mask tid mask e) inv =
    by_moves inv (set_task_signal_mask-Moves tid mask k) e
Step-Inv loader {k} (awaits_signal tid mask size forever e) inv =
    by_moves inv (rt_sigtimedwait-Moves tid mask size forever k) e
Step-Inv loader {k} (suspends tid mask size e) inv =
    by_moves inv (rt_sigsuspend-Moves tid mask size k) e
Step-Inv loader {k} (resumes_waiting e) inv = by_moves inv (resume_waiting_tasks-Moves k) e
Step-Inv loader {k} (blocks_for_fd tid fd write e) inv = by_moves inv (block_task-Moves tid _ k) e
Step-Inv loader {k} (resumes_fds ready caller e) inv =
    by_moves inv (resume_fd_waiters-Moves ready caller k) e
Step-Inv loader {k} (blocks_for_futex tid key e) inv =
    by_moves inv (block_task_for_futex-Moves tid key k) e
Step-Inv loader {k} (wakes key limit e) inv = by_moves inv (wake_futex_waiters-Moves key limit k) e
Step-Inv loader {k} (requeues source target woken moved e) inv =
    by_moves inv (requeue_futex_waiters-Moves source target woken moved k) e
Step-Inv loader {k} (times_out tid e) inv = by_moves inv (timeout_futex_waiter-Moves tid k) e
Step-Inv loader {k} (blocks_for_sleep tid e) inv = by_moves inv (block_task-Moves tid _ k) e
Step-Inv loader {k} (wakes_sleeper tid e) inv = by_moves inv (resume_sleep_waiter-Moves tid k) e

-- The tables of every kernel that a run comes to are well formed.
pub Reachable-Inv : (loader : Loader) {k : GuestKernel} → Reachable loader k → Inv k
Reachable-Inv loader {k} (boots program e) = new_kernel-Inv loader program k e
Reachable-Inv loader (steps run step) = Step-Inv loader step (Reachable-Inv loader run)

-- A mask without SIGKILL and SIGSTOP has neither bit.
part_zero :
    (mask part : ℕ)
    → MaskOk mask
    → bit_and unblockable_signal_mask part ≡ part
    → bit_and mask part ≡ 0
part_zero mask part h e =
    ap (bit_and mask) (sym e)
    ∙ sym (bit_and_assoc mask unblockable_signal_mask part)
    ∙ ap (λ m. bit_and m part) h
    ∙ zero-bit_and part

-- In no kernel that a run comes to, from `GuestKernel::new` by replies of the dispatcher and by the
-- calls of its host that `Step` lists, does a task block SIGKILL or SIGSTOP.
pub signal_blocked-unblockable :
    (loader : Loader) (k : GuestKernel)
    → Reachable loader k
    → (tid : ℕ)
    → (signal_blocked k tid linux_sigkill ≡ false) × (signal_blocked k tid linux_sigstop ≡ false)
unfolding signal_blocked signal_matches_mask
signal_blocked-unblockable loader k run tid = elim (Option-cases (task k tid)) [
  | inl e ↦ (rw (e, signal_blocked) refl, rw (e, signal_blocked) refl)
  | inr (t, e) ↦
      let safe = (Reachable-Inv loader run).masks tid t e in
      (
        rw (e, part_zero t.signal_mask 256 safe refl, signal_blocked) refl,
        rw (e, part_zero t.signal_mask 262144 safe refl, signal_blocked) refl,
      )
]
