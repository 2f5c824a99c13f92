-- ===== src/Task/Exit.antt =====
-- `exit` and `exit_group` of crates/mcr-task/src/kernel/signal.rs, and `resume_vfork_parent` of
-- kernel/clone.rs.
use mcr.Prelude.{ℕ, ◌==◌, Bool, false, ◌&&◌, ℤ, Option, none, some, if◌then◌else◌, all_by}
use mcr.Prelude.OrdMap.{nat_key, select}
use mcr.Sys.Args.{linux_sigchld}
use mcr.Sys.Errno.{esrch}
use mcr.Sys.Return.{SyscallOutcome, ok_with, fail_with}
use mcr.Task.Process.{GuestProcess}
use mcr.Task.Process
use mcr.Task.State.{
  GuestKernel, GuestTask, TaskState, runnable, waiting_for_vfork, exited, is_exited, Call,
}
use mcr.Task.Kernel.{process, task, edit_process, set_task_state, set_state, set_states}
use mcr.Task.Wait.{tids_of}
use mcr.Task.Signal.{queue_process_signal}

waits_for_child : ℕ → TaskState → Bool
waits_for_child child_pid (waiting_for_vfork waiting) = waiting == child_pid
waits_for_child child_pid _ = false

unfoldable pub vfork_waiter : ℕ → ℕ → GuestTask → Option ℕ
unfolding waits_for_child
vfork_waiter parent_pid child_pid t =
    if t.pid == parent_pid && waits_for_child child_pid t.state then some t.tid else none

-- The parent's tasks that wait in vfork for this child run again.
unfoldable pub resume_vfork_parent : ℕ → GuestKernel → GuestKernel
unfolding select vfork_waiter set_states
resume_vfork_parent child_pid kernel = elim (process kernel child_pid) [
  | none ↦ kernel
  | some child ↦ elim child.parent [
    | none ↦ kernel
    | some parent_pid ↦
        set_states kernel (select (vfork_waiter parent_pid child_pid) kernel.tasks) runnable
  ]
]

-- `process.and_then(|process| process.parent)`.
abbrev pub parent_of : GuestKernel → ℕ → Option ℕ
parent_of kernel pid = elim (process kernel pid) [ none ↦ none | some p ↦ p.parent ]

-- What the end of a whole process does: its exit state, its vfork parent, and SIGCHLD.
unfoldable pub finish_process : ℕ → ℤ → GuestKernel → GuestKernel
unfolding resume_vfork_parent queue_process_signal
finish_process pid status kernel =
    let parent = parent_of kernel pid in
    let ended = edit_process pid (λ p. record p { exit_state = Process.exited status }) kernel in
    let resumed = resume_vfork_parent pid ended in
    elim parent [
      | none ↦ resumed
      | some parent_pid ↦ queue_process_signal parent_pid linux_sigchld resumed
    ]

-- Whether every task of a process has exited.
unfoldable pub all_exited : GuestKernel → ℕ → Bool
unfolding select all_by
all_exited kernel pid =
    all_by is_exited
      (select (λ (t : GuestTask). if t.pid == pid then some t.state else none) kernel.tasks)

unfoldable pub exit_task : ℕ → ℤ → Call SyscallOutcome
unfolding set_task_state all_exited finish_process
exit_task tid status kernel = elim (task kernel tid) [
  | none ↦ (fail_with esrch, kernel)
  | some t ↦
      let left = set_state kernel tid (exited status) in
      (ok_with 0, if all_exited left t.pid then finish_process t.pid status left else left)
]

unfoldable pub exit_group : ℕ → ℤ → Call SyscallOutcome
unfolding tids_of set_states finish_process
exit_group pid status kernel = elim (process kernel pid) [
  | none ↦ (fail_with esrch, kernel)
  | some p ↦ (
    ok_with 0,
    finish_process pid status (set_states kernel (tids_of kernel pid) (exited status)),
  )
]
