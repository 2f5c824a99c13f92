-- ===== src/Task/Kill.antt =====
-- The signal senders and the small task syscalls of crates/mcr-task/src/kernel/signal.rs.
use mcr.Prelude.{ℕ, zero, suc, ◌==◌, not, ℤ, pos, negsuc, Option, none, some, if◌then◌else◌}
use mcr.Sys.Args.{
  linux_robust_list_head_size, KillSyscallArgs, TgkillSyscallArgs, TkillSyscallArgs,
  SetRobustListSyscallArgs,
}
use mcr.Sys.Errno.{esrch}
use mcr.Sys.Return.{SyscallOutcome, ok_with, fail_with}
use mcr.Task.State.{GuestKernel, Call}
use mcr.Task.Error.{ok, err, into_outcome, unsupported_signal_target, invalid_robust_list_length}
use mcr.Task.Kernel.{process, task, edit_task}
use mcr.Task.Mask.{validate_signal_or_probe}
use mcr.Task.Signal.{queue_process_signal, queue_task_signal}

-- A positive `i32` target as an unsigned id; none for zero and below.
unfoldable pub positive : ℤ → Option ℕ
positive (pos zero) = none
positive (pos (suc n)) = some (suc n)
positive (negsuc n) = none

-- Signal 0 only probes the target; a signal above 64 is refused.
unfoldable pub send : ℕ → (GuestKernel → GuestKernel) → Call SyscallOutcome
unfolding validate_signal_or_probe into_outcome
send signal queue kernel = elim (validate_signal_or_probe signal) [
  | err e ↦ (into_outcome e, kernel)
  | ok _ ↦ if signal == 0 then (ok_with 0, kernel) else (ok_with 0, queue kernel)
]

unfoldable pub kill_current : KillSyscallArgs → Call SyscallOutcome
unfolding positive send queue_process_signal into_outcome
kill_current args kernel = elim (positive args.pid) [
  | none ↦ (into_outcome (unsupported_signal_target args.pid), kernel)
  | some pid ↦ elim (process kernel pid) [
    | none ↦ (fail_with esrch, kernel)
    | some p ↦ send args.sig (queue_process_signal pid args.sig) kernel
  ]
]

unfoldable pub tkill_current : TkillSyscallArgs → Call SyscallOutcome
unfolding positive send queue_task_signal into_outcome
tkill_current args kernel = elim (positive args.tid) [
  | none ↦ (into_outcome (unsupported_signal_target args.tid), kernel)
  | some tid ↦ elim (task kernel tid) [
    | none ↦ (fail_with esrch, kernel)
    | some t ↦ send args.sig (queue_task_signal tid args.sig) kernel
  ]
]

-- `tgkill` on ids that are positive both.
unfoldable pub tgkill_to : ℕ → ℕ → ℕ → Call SyscallOutcome
unfolding send queue_task_signal
tgkill_to pid tid signal kernel = elim (task kernel tid) [
  | none ↦ (fail_with esrch, kernel)
  | some t ↦
      if not (t.pid == pid)
      then (fail_with esrch, kernel)
      else send signal (queue_task_signal tid signal) kernel
]

unfoldable pub tgkill_current : TgkillSyscallArgs → Call SyscallOutcome
unfolding positive tgkill_to into_outcome
tgkill_current args kernel = elim (positive args.tgid) [
  | none ↦ (into_outcome (unsupported_signal_target args.tid), kernel)
  | some pid ↦ elim (positive args.tid) [
    | none ↦ (into_outcome (unsupported_signal_target args.tid), kernel)
    | some tid ↦ tgkill_to pid tid args.sig kernel
  ]
]

-- `(address != 0).then_some(address)`.
abbrev pub non_null : ℕ → Option ℕ
non_null address = if address == 0 then none else some address

unfoldable pub set_tid_address_current : ℕ → ℕ → Call SyscallOutcome
set_tid_address_current tid tidptr kernel = elim (task kernel tid) [
  | none ↦ (fail_with esrch, kernel)
  | some t ↦
      (ok_with tid, edit_task tid (λ x. record x { clear_child_tid = non_null tidptr }) kernel)
]

unfoldable pub set_robust_list_current : ℕ → SetRobustListSyscallArgs → Call SyscallOutcome
unfolding into_outcome
set_robust_list_current tid args kernel =
    if not (args.len == linux_robust_list_head_size)
    then (into_outcome (invalid_robust_list_length args.len), kernel)
    else elim (task kernel tid) [
      | none ↦ (fail_with esrch, kernel)
      | some t ↦
          (ok_with 0, edit_task tid (λ x. record x { robust_list = non_null args.head }) kernel)
    ]
