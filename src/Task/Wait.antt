-- ===== src/Task/Wait.antt =====
-- crates/mcr-task/src/kernel/wait.rs: waiting for children, for descriptors and for sleep. The
-- futex queues of the same file are in Task/Futex.
use mcr.Prelude.{
  ℕ, zero, suc, Bool, true, false, ◌&&◌, ℤ, pos, negsuc, Option, none, some, List, [], ◌∷◌, ◌++◌,
  ◌+◌, ◌==◌, if◌then◌else◌, filter_by, find_by, collect,
}
use mcr.Prelude.OrdMap
use mcr.Prelude.OrdMap.{nat_key, select}
use mcr.Prelude.OrdSet
use mcr.Sys.Args.{Wait4SyscallArgs, no_hang, has_unsupported_options}
use mcr.Sys.Errno.{esrch}
use mcr.Sys.Return.{SyscallOutcome, ok_with, fail_with}
use mcr.Task.Registers.{with_syscall_return}
use mcr.Task.Process.{GuestProcess, running, exited, WaitedChild, new_waited_child, CompletedWait}
use mcr.Task.State.{
  GuestKernel, GuestTask, TaskState, runnable, waiting_for_child, waiting_for_fd, waiting_for_sleep,
  Call,
}
use mcr.Task.Error.{
  Result, ok, err, into_outcome, unknown_pid, unknown_tid, would_block, no_child,
  invalid_wait_options,
}
use mcr.Task.Kernel.{
  process, task, edit_process, edit_task, remove_task, set_task_state, set_state,
  current_syscall_return_rip,
}

-- The selector of `wait4`: any child, the caller's group, one pid, or one group.
unfoldable pub selects : ℤ → ℕ → ℕ → ℕ → Bool
selects (negsuc zero) child_pid child_pgid parent_pgid = true
selects (pos zero) child_pid child_pgid parent_pgid = child_pgid == parent_pgid
selects (pos (suc n)) child_pid child_pgid parent_pgid = child_pid == suc n
selects (negsuc (suc n)) child_pid child_pgid parent_pgid = child_pgid == suc (suc n)

unfoldable pub child_matches : GuestKernel → GuestProcess → ℤ → ℕ → Bool
unfolding selects
child_matches kernel parent selector child_pid = elim (process kernel child_pid) [
  | none ↦ false
  | some child ↦ selects selector child_pid child.pgid parent.pgid
]

unfoldable pub matching_children : GuestKernel → ℕ → ℤ → Result (List ℕ)
unfolding child_matches filter_by
matching_children kernel parent_pid selector = elim (process kernel parent_pid) [
  | none ↦ err (unknown_pid parent_pid)
  | some parent ↦ ok (filter_by (child_matches kernel parent selector) parent.children)
]

unfoldable pub has_exited : Option GuestProcess → Bool
has_exited none = false
has_exited (some p) = elim p.exit_state [ running ↦ false | exited status ↦ true ]

unfoldable pub exited_waitable_child : GuestKernel → ℕ → ℤ → Result (Option ℕ)
unfolding matching_children has_exited find_by
exited_waitable_child kernel parent_pid selector =
    elim (matching_children kernel parent_pid selector) [
      | err e ↦ err e
      | ok children ↦ ok (find_by (λ pid. has_exited (process kernel pid)) children)
    ]

unfoldable pub has_waitable_child : GuestKernel → ℕ → ℤ → Result Bool
unfolding matching_children
has_waitable_child kernel parent_pid selector =
    elim (matching_children kernel parent_pid selector) [
      | err e ↦ err e
      | ok children ↦ ok (elim children [ [] ↦ false | child ∷ rest ↦ true ])
    ]

unfoldable pub remove_tasks : GuestKernel → List ℕ → GuestKernel
unfolding remove_task
remove_tasks kernel [] = kernel
remove_tasks kernel (tid ∷ tids) = remove_tasks (remove_task kernel tid).1 tids

-- The tids of a process, in the order of the task table.
unfoldable pub tids_of : GuestKernel → ℕ → List ℕ
unfolding select
tids_of kernel pid =
    select (λ (t : GuestTask). if t.pid == pid then some t.tid else none) kernel.tasks

-- The kernel without a child's tasks and its process entry.
unfoldable pub drop_process : GuestKernel → ℕ → GuestKernel
unfolding remove_tasks tids_of
drop_process kernel child_pid =
    let bare = remove_tasks kernel (tids_of kernel child_pid) in
    record bare { processes = OrdMap.remove child_pid bare.processes }

-- `children.remove(&child_pid)` at the parent.
unfoldable pub forget_child : GuestKernel → ℕ → ℕ → GuestKernel
forget_child kernel parent_pid child_pid =
    edit_process parent_pid (λ p. record p { children = OrdSet.remove child_pid p.children }) kernel

-- The end of `reap_child`, once the child's entries are gone.
unfoldable pub finish_reap : ℕ → ℕ → ℤ → Call (Result WaitedChild)
finish_reap parent_pid child_pid status bare = elim (process bare parent_pid) [
  | none ↦ (err (unknown_pid parent_pid), bare)
  | some parent ↦ (ok (new_waited_child child_pid status), forget_child bare parent_pid child_pid)
]

unfoldable pub reap_exited : ℕ → ℕ → ℤ → Call (Result WaitedChild)
reap_exited parent_pid child_pid status kernel =
    finish_reap parent_pid child_pid status (drop_process kernel child_pid)

unfoldable pub reap_child : ℕ → ℕ → Call (Result WaitedChild)
unfolding reap_exited
reap_child parent_pid child_pid kernel = elim (process kernel child_pid) [
  | none ↦ (err (unknown_pid child_pid), kernel)
  | some child ↦ elim child.exit_state [
    | running ↦ (err would_block, kernel)
    | exited status ↦ reap_exited parent_pid child_pid status kernel
  ]
]

unfoldable pub some_result :
    Result WaitedChild × GuestKernel → Result (Option WaitedChild) × GuestKernel
some_result (ok waited, kernel) = (ok (some waited), kernel)
some_result (err e, kernel) = (err e, kernel)

-- With no exited child: 0 under WNOHANG, a block while a child is there, and else an error.
unfoldable pub no_exited_child : ℕ → Wait4SyscallArgs → GuestKernel → Result (Option WaitedChild)
unfolding has_waitable_child no_hang
no_exited_child parent_pid args kernel = elim (has_waitable_child kernel parent_pid args.pid) [
  | err e ↦ err e
  | ok waitable ↦
      if waitable && no_hang args
      then ok none
      else if waitable
      then err would_block
      else err no_child
]

unfoldable pub wait4_child : ℕ → Wait4SyscallArgs → Call (Result (Option WaitedChild))
unfolding exited_waitable_child reap_child no_exited_child some_result has_unsupported_options
wait4_child parent_pid args kernel =
    if has_unsupported_options args
    then (err (invalid_wait_options args.options), kernel)
    else elim (exited_waitable_child kernel parent_pid args.pid) [
      | err e ↦ (err e, kernel)
      | ok none ↦ (no_exited_child parent_pid args kernel, kernel)
      | ok (some child_pid) ↦ some_result (reap_child parent_pid child_pid kernel)
    ]

-- The caller stays at its syscall's return, in the state `WaitingForChild`.
unfoldable pub block_for_child : GuestKernel → ℕ → Wait4SyscallArgs → ℕ → GuestKernel
unfolding set_task_state
block_for_child kernel tid args return_rip =
    set_state
      (edit_task tid (λ t. record t { regs = with_syscall_return t.regs return_rip t.regs.rax })
        kernel)
      tid (waiting_for_child args)

unfoldable pub wait4_reply :
    ℕ
    → Wait4SyscallArgs
    → ℕ
    → Result (Option WaitedChild) × GuestKernel
    → SyscallOutcome × GuestKernel
unfolding block_for_child into_outcome
wait4_reply tid args return_rip (ok (some waited), kernel) = (ok_with waited.pid, kernel)
wait4_reply tid args return_rip (ok none, kernel) = (ok_with 0, kernel)
wait4_reply tid args return_rip (err would_block, kernel) = elim (task kernel tid) [
  | none ↦ (fail_with esrch, kernel)
  | some t ↦ (ok_with 0, block_for_child kernel tid args return_rip)
]
wait4_reply tid args return_rip (err e, kernel) = (into_outcome e, kernel)

unfoldable pub wait4_current_with_return : ℕ → Wait4SyscallArgs → ℕ → Call SyscallOutcome
unfolding wait4_child wait4_reply
wait4_current_with_return tid args return_rip kernel = elim (task kernel tid) [
  | none ↦ (fail_with esrch, kernel)
  | some t ↦ wait4_reply tid args return_rip (wait4_child t.pid args kernel)
]

unfoldable pub wait4_current : ℕ → Wait4SyscallArgs → Call SyscallOutcome
unfolding wait4_current_with_return current_syscall_return_rip
wait4_current tid args kernel =
    wait4_current_with_return tid args (current_syscall_return_rip kernel tid) kernel

-- One waiter of `resume_waiting_tasks`: its tid, its process and its arguments.
pub record WaitingTask : Type 0 where
  pub tid : ℕ
  pub pid : ℕ
  pub args : Wait4SyscallArgs

unfoldable pub child_waiter : GuestKernel → ℕ → Option WaitingTask
child_waiter kernel tid = elim (task kernel tid) [
  | none ↦ none
  | some t ↦ elim t.state [
    | waiting_for_child args ↦ some (record { tid = t.tid; pid = t.pid; args = args })
    | _ ↦ none
  ]
]

-- The waiter gets the child's pid in `rax` and runs again.
unfoldable pub complete_wait : WaitingTask → WaitedChild → GuestKernel → GuestKernel
unfolding set_task_state
complete_wait w waited kernel =
    set_state
      (edit_task w.tid (λ t. record t { regs = with_syscall_return t.regs t.regs.rip waited.pid })
        kernel)
      w.tid runnable

-- A wait that does not end in a reaped child leaves its task as it is.
unfoldable pub after_wait :
    WaitingTask → Result (Option WaitedChild) × GuestKernel → List CompletedWait × GuestKernel
unfolding complete_wait
after_wait w (ok (some waited), kernel) = (
  record { tid = w.tid; pid = w.pid; args = w.args; waited = waited } ∷ [],
  complete_wait w waited kernel,
)
after_wait w (ok none, kernel) = ([], kernel)
after_wait w (err e, kernel) = ([], kernel)

unfoldable pub resume_waiters : List WaitingTask → Call (List CompletedWait)
unfolding wait4_child after_wait
resume_waiters [] kernel = ([], kernel)
resume_waiters (w ∷ ws) kernel =
    let (first, next) = after_wait w (wait4_child w.pid w.args kernel) in
    let (rest, last) = resume_waiters ws next in (first ++ rest, last)

unfoldable pub resume_waiting_tasks : Call (List CompletedWait)
unfolding child_waiter collect resume_waiters
resume_waiting_tasks kernel =
    resume_waiters (collect (child_waiter kernel) kernel.child_wait_tids) kernel

-- `set_task_state(..).map(|_| ()).ok_or(UnknownTid)`.
unfoldable pub block_task : ℕ → TaskState → Call (Result (Unit {0}))
unfolding set_task_state
block_task tid state kernel = elim (task kernel tid) [
  | none ↦ (err (unknown_tid tid), kernel)
  | some t ↦ (ok tt, set_state kernel tid state)
]

unfoldable pub block_task_for_fd : ℕ → ℤ → Bool → Call (Result (Unit {0}))
unfolding block_task
block_task_for_fd tid fd write = block_task tid (waiting_for_fd fd write)

unfoldable pub block_task_for_sleep : ℕ → Call (Result (Unit {0}))
unfolding block_task
block_task_for_sleep tid = block_task tid waiting_for_sleep

unfoldable pub is_sleeping : Option GuestTask → Bool
is_sleeping none = false
is_sleeping (some t) = elim t.state [ waiting_for_sleep ↦ true | _ ↦ false ]

unfoldable pub resume_sleep_waiter : ℕ → Call Bool
unfolding is_sleeping set_task_state
resume_sleep_waiter tid kernel =
    if is_sleeping (task kernel tid) then (true, set_state kernel tid runnable) else (false, kernel)

-- The callback of `resume_fd_waiters`, an `FnMut`: it may keep a state of its own, as a poll of the
-- host does, and answer the same question differently from one call to the next.
abbrev pub FdReady : Type 0 → Type 0
FdReady S = ℕ → ℤ → Bool → S → Bool × S

-- The test of `resume_fd_waiters` on one task; only a task that waits for a descriptor is asked for.
unfoldable pub fd_ready : {S : Type 0} → FdReady S → S → Option GuestTask → Bool × S
fd_ready ready caller none = (false, caller)
fd_ready ready caller (some t) = elim t.state [
  | waiting_for_fd fd write ↦ ready t.pid fd write caller
  | _ ↦ (false, caller)
]

unfoldable pub resume_fds : {S : Type 0} → FdReady S → List ℕ → ℕ → S → Call (ℕ × S)
unfolding fd_ready set_task_state
resume_fds ready [] resumed caller kernel = ((resumed, caller), kernel)
resume_fds ready (tid ∷ tids) resumed caller kernel =
    let answer = fd_ready ready caller (task kernel tid) in
    elim answer.0 [
      | true ↦ resume_fds ready tids (resumed + 1) answer.1 (set_state kernel tid runnable)
      | false ↦ resume_fds ready tids resumed answer.1 kernel
    ]

unfoldable pub resume_fd_waiters : {S : Type 0} → FdReady S → S → Call (ℕ × S)
unfolding resume_fds
resume_fd_waiters ready caller kernel = resume_fds ready kernel.fd_wait_tids 0 caller kernel
