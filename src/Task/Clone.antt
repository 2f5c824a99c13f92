-- ===== src/Task/Clone.antt =====
-- crates/mcr-task/src/kernel/clone.rs: fork, vfork and clone.
use mcr.Prelude.{
  ℕ, ◌==◌, ◌+◌, Bool, true, false, not, ◌&&◌, ◌||◌, none, some, [], if◌then◌else◌, bit_and, bit_or,
}
use mcr.Prelude.OrdMap
use mcr.Prelude.OrdMap.{nat_key}
use mcr.Prelude.OrdSet
use mcr.Sys.Args.{
  CloneSyscallArgs, has_any, not64, has_clone_vfork, has_clone_thread, has_clone_settls,
  has_clone_child_cleartid, linux_sigchld, linux_clone_vm, linux_clone_fs, linux_clone_files,
  linux_clone_sighand, linux_clone_vfork, linux_clone_thread, linux_clone_sysvsem,
  linux_clone_settls, linux_clone_parent_settid, linux_clone_child_cleartid, linux_clone_detached,
  linux_clone_child_settid, linux_clone_exit_signal_mask,
}
use mcr.Sys.Errno.{esrch}
use mcr.Sys.Return.{SyscallOutcome, ok_with, fail_with}
use mcr.Task.Registers.{GprState, with_syscall_return}
use mcr.Task.Process.{GuestProcess, running}
use mcr.Task.Process
use mcr.Task.State.{GuestKernel, GuestTask, runnable, waiting_for_vfork, Call}
use mcr.Task.Error.{Result, ok, err, into_outcome, unknown_tid, unknown_pid, invalid_clone_flags}
use mcr.Task.Kernel.{
  process, task, edit_process, edit_task, insert_task, set_task_state, set_state, allocate_pid,
  allocate_tid, current_syscall_return_rip,
}
use mcr.Task.Kill.{non_null}

-- The entries of a forked child, under ids that have just been allocated.
unfoldable pub forked_process : GuestProcess → ℕ → ℕ → GuestProcess
forked_process parent parent_pid child_pid = record parent {
  pid = child_pid;
  parent = some parent_pid;
  pending_signals = [];
  children = [];
  exit_state = running;
}

unfoldable pub forked_task : GuestTask → ℕ → ℕ → GuestTask
forked_task parent child_pid child_tid = record parent {
  pid = child_pid;
  tid = child_tid;
  state = runnable;
  pending_signals = [];
  pending_signal_delivery = none;
}

unfoldable pub install_child : GuestTask → GuestProcess → ℕ → ℕ → GuestKernel → GuestKernel
unfolding forked_process forked_task insert_task
install_child parent_task parent child_pid child_tid kernel =
    let parent_pid = parent_task.pid in
    edit_process parent_pid (λ p. record p { children = OrdSet.insert child_pid p.children })
      (insert_task
        (record kernel {
          processes =
              OrdMap.insert child_pid (forked_process parent parent_pid child_pid) kernel.processes;
        })
        (forked_task parent_task child_pid child_tid))

-- The child under a pid, once a tid has been asked for.
unfoldable pub fork_with_tid :
    GuestTask → GuestProcess → ℕ → Result ℕ × GuestKernel → Result (ℕ × ℕ) × GuestKernel
unfolding install_child
fork_with_tid parent_task parent child_pid (err e, kernel) = (err e, kernel)
fork_with_tid parent_task parent child_pid (ok child_tid, kernel) =
    (ok (child_pid, child_tid), install_child parent_task parent child_pid child_tid kernel)

unfoldable pub fork_with_pid :
    GuestTask → GuestProcess → Result ℕ × GuestKernel → Result (ℕ × ℕ) × GuestKernel
unfolding allocate_tid fork_with_tid
fork_with_pid parent_task parent (err e, kernel) = (err e, kernel)
fork_with_pid parent_task parent (ok child_pid, kernel) =
    fork_with_tid parent_task parent child_pid (allocate_tid kernel)

-- The pid is taken before the tid: where no tid is left, the pid is used up all the same.
unfoldable pub fork_from : GuestTask → GuestProcess → Call (Result (ℕ × ℕ))
unfolding allocate_pid fork_with_pid
fork_from parent_task parent kernel = fork_with_pid parent_task parent (allocate_pid kernel)

unfoldable pub fork_child_task : ℕ → Call (Result (ℕ × ℕ))
unfolding fork_from
fork_child_task tid kernel = elim (task kernel tid) [
  | none ↦ (err (unknown_tid tid), kernel)
  | some t ↦ elim (process kernel t.pid) [
    | none ↦ (err (unknown_pid t.pid), kernel)
    | some p ↦ elim p.exit_state [
      | running ↦ fork_from t p kernel
      | Process.exited status ↦ (err (unknown_pid t.pid), kernel)
    ]
  ]
]

unfoldable pub fork_child_result : Result (ℕ × ℕ) × GuestKernel → Result ℕ × GuestKernel
fork_child_result (ok (child_pid, child_tid), kernel) = (ok child_pid, kernel)
fork_child_result (err e, kernel) = (err e, kernel)

unfoldable pub fork_child : ℕ → Call (Result ℕ)
unfolding fork_child_task fork_child_result
fork_child tid kernel = fork_child_result (fork_child_task tid kernel)

-- The end of a fork: the child's registers, and the parent blocked for a vfork.
unfoldable pub finish_fork :
    ℕ → (GprState → GprState) → Bool → Result (ℕ × ℕ) × GuestKernel → SyscallOutcome × GuestKernel
unfolding set_task_state into_outcome
finish_fork tid child_regs blocks (err e, kernel) = (into_outcome e, kernel)
finish_fork tid child_regs blocks (ok (child_pid, child_tid), kernel) =
    let ready = edit_task child_tid (λ t. record t { regs = child_regs t.regs }) kernel in
    (ok_with child_pid, if blocks then set_state ready tid (waiting_for_vfork child_pid) else ready)

unfoldable pub fork_like_current_and_maybe_block_parent : ℕ → ℕ → Bool → Call SyscallOutcome
unfolding fork_child_task finish_fork
fork_like_current_and_maybe_block_parent tid child_return_rip blocks kernel =
    finish_fork tid (λ regs. with_syscall_return regs child_return_rip 0) blocks
      (fork_child_task tid kernel)

unfoldable pub fork_like_current_with_child_regs_and_maybe_block_parent :
    ℕ → GprState → Bool → Call SyscallOutcome
unfolding fork_child_task finish_fork
fork_like_current_with_child_regs_and_maybe_block_parent tid child_regs blocks kernel =
    finish_fork tid (λ _. child_regs) blocks (fork_child_task tid kernel)

unfoldable pub fork_like_current : ℕ → ℕ → Call SyscallOutcome
unfolding fork_like_current_and_maybe_block_parent
fork_like_current tid child_return_rip =
    fork_like_current_and_maybe_block_parent tid child_return_rip false

unfoldable pub fork_current : ℕ → Call SyscallOutcome
unfolding fork_like_current current_syscall_return_rip
fork_current tid kernel = fork_like_current tid (current_syscall_return_rip kernel tid) kernel

unfoldable pub vfork_current : ℕ → Call SyscallOutcome
unfolding fork_like_current_and_maybe_block_parent current_syscall_return_rip
vfork_current tid kernel =
    fork_like_current_and_maybe_block_parent tid (current_syscall_return_rip kernel tid) true kernel

unfoldable pub is_supported_fork_like_clone : ℕ → Bool
unfolding has_any not64
is_supported_fork_like_clone flags =
    let semantic_flags = bit_and flags (not64 linux_clone_exit_signal_mask) in
    let exit_signal = bit_and flags linux_clone_exit_signal_mask in
    (exit_signal == 0 || exit_signal == linux_sigchld)
    && (semantic_flags == 0 || semantic_flags == bit_or linux_clone_vm linux_clone_vfork)
    && not (
        has_any flags
          (not64 (bit_or (bit_or linux_clone_exit_signal_mask linux_clone_vm) linux_clone_vfork)))

abbrev required_thread_flags : ℕ
required_thread_flags =
    linux_clone_vm + linux_clone_fs + linux_clone_files + linux_clone_sighand + linux_clone_thread

abbrev optional_thread_flags : ℕ
optional_thread_flags =
    linux_clone_sysvsem + linux_clone_settls + linux_clone_parent_settid
    + linux_clone_child_cleartid + linux_clone_child_settid + linux_clone_detached

-- The flags are single bits, so a sum of them is their `|`.
unfoldable pub is_supported_thread_clone : ℕ → Bool
unfolding has_any not64
is_supported_thread_clone flags =
    bit_and flags linux_clone_exit_signal_mask == 0
    && bit_and flags required_thread_flags == required_thread_flags
    && not (has_any flags (not64 (required_thread_flags + optional_thread_flags)))

abbrev pub with_child_stack : ℕ → GprState → GprState
with_child_stack stack regs = if stack == 0 then regs else record regs { rsp = stack }

-- The task of a new thread: its own stack and thread pointer, no signals, no robust list.
unfoldable pub thread_task : GuestTask → CloneSyscallArgs → ℕ → GprState → GuestTask
unfolding has_clone_child_cleartid has_clone_settls
thread_task parent_task args child_tid child_regs = record parent_task {
  tid = child_tid;
  regs = with_child_stack args.child_stack child_regs;
  tls =
      if has_clone_settls args
      then record (parent_task.tls) { fs_base = args.tls }
      else parent_task.tls;
  state = runnable;
  robust_list = none;
  clear_child_tid = if has_clone_child_cleartid args then non_null args.child_tid else none;
  pending_signals = [];
  pending_signal_delivery = none;
}

-- The thread, once a tid has been asked for.
unfoldable pub thread_with_tid :
    GuestTask → CloneSyscallArgs → GprState → Result ℕ × GuestKernel → SyscallOutcome × GuestKernel
unfolding thread_task insert_task into_outcome
thread_with_tid parent_task args child_regs (err e, kernel) = (into_outcome e, kernel)
thread_with_tid parent_task args child_regs (ok child_tid, kernel) =
    (ok_with child_tid, insert_task kernel (thread_task parent_task args child_tid child_regs))

unfoldable pub thread_from : GuestTask → CloneSyscallArgs → GprState → Call SyscallOutcome
unfolding allocate_tid thread_with_tid
thread_from parent_task args child_regs kernel =
    thread_with_tid parent_task args child_regs (allocate_tid kernel)

unfoldable pub thread_current_with_child_regs :
    ℕ → CloneSyscallArgs → GprState → Call SyscallOutcome
unfolding is_supported_thread_clone thread_from into_outcome
thread_current_with_child_regs tid args child_regs kernel =
    if not (is_supported_thread_clone args.flags)
    then (into_outcome (invalid_clone_flags args.flags), kernel)
    else elim (task kernel tid) [
      | none ↦ (fail_with esrch, kernel)
      | some t ↦ elim (process kernel t.pid) [
        | none ↦ (fail_with esrch, kernel)
        | some p ↦ thread_from t args child_regs kernel
      ]
    ]

unfoldable pub clone_current_with_child_regs : ℕ → CloneSyscallArgs → GprState → Call SyscallOutcome
unfolding thread_current_with_child_regs is_supported_fork_like_clone has_clone_thread
    has_clone_vfork fork_like_current_with_child_regs_and_maybe_block_parent into_outcome
clone_current_with_child_regs tid args child_regs kernel =
    if has_clone_thread args
    then thread_current_with_child_regs tid args child_regs kernel
    else if not (is_supported_fork_like_clone args.flags)
    then (into_outcome (invalid_clone_flags args.flags), kernel)
    else fork_like_current_with_child_regs_and_maybe_block_parent tid
        (with_child_stack args.child_stack child_regs) (has_clone_vfork args) kernel

-- The caller's registers with the child's return are the child's; an unknown caller fails after the
-- flags of a fork-like clone have been checked.
unfoldable pub clone_current_with_return : ℕ → CloneSyscallArgs → ℕ → Call SyscallOutcome
unfolding thread_current_with_child_regs is_supported_fork_like_clone has_clone_thread
    has_clone_vfork fork_like_current_with_child_regs_and_maybe_block_parent into_outcome
clone_current_with_return tid args child_return_rip kernel =
    if has_clone_thread args
    then elim (task kernel tid) [
      | none ↦ (fail_with esrch, kernel)
      | some t ↦
          thread_current_with_child_regs tid args (with_syscall_return t.regs child_return_rip 0)
            kernel
    ]
    else if not (is_supported_fork_like_clone args.flags)
    then (into_outcome (invalid_clone_flags args.flags), kernel)
    else elim (task kernel tid) [
      | none ↦ (fail_with esrch, kernel)
      | some t ↦
          fork_like_current_with_child_regs_and_maybe_block_parent tid
            (with_child_stack args.child_stack (with_syscall_return t.regs child_return_rip 0))
            (has_clone_vfork args) kernel
    ]

unfoldable pub clone_current : ℕ → CloneSyscallArgs → Call SyscallOutcome
unfolding clone_current_with_return current_syscall_return_rip
clone_current tid args kernel =
    clone_current_with_return tid args (current_syscall_return_rip kernel tid) kernel
