-- ===== src/Task/Signal.antt =====
-- crates/mcr-task/src/kernel/signal.rs: queueing, taking and waiting for signals.
use mcr.Prelude.{
  ℕ, ◌==◌, Bool, true, false, not, Option, none, some, List, [], ◌∷◌, ◌+◌, if◌then◌else◌, holds,
}
use mcr.Prelude.OrdMap
use mcr.Prelude.OrdMap.{nat_key, select}
use mcr.Prelude.OrdSet
use mcr.Sys.Args.{
  not64, linux_kernel_sigset_size, supported_how, RtSigactionSyscallArgs, RtSigprocmaskSyscallArgs,
}
use mcr.Sys.Errno.{esrch, eintr, eagain}
use mcr.Sys.Return.{SyscallOutcome, ok_with, fail_with, errno, encode_u64}
use mcr.Task.Registers.{with_syscall_return}
use mcr.Task.Process.{GuestSignalAction, new_signal_action}
use mcr.Task.State.{
  GuestKernel, GuestTask, TaskState, runnable, waiting_for_signal_set, waiting_for_signal_suspend,
  Call,
}
use mcr.Task.Error.{ok, err, into_outcome, invalid_sigset_size, invalid_signal_mask_how}
use mcr.Task.Kernel.{
  process, task, edit_process, edit_task, set_task_state, set_state, current_syscall_return_rip,
}
use mcr.Task.Futex.{end_futex_wait}
use mcr.Task.Mask.{
  validate_signal, signal_matches_mask, take_pending_signal, sanitize_signal_mask,
  apply_task_signal_mask,
}

-- From the process's pending set, for a task whose own set had nothing.
unfoldable pub take_from_process : ℕ → ℕ → Call (Option ℕ)
unfolding take_pending_signal
take_from_process pid mask kernel = elim (process kernel pid) [
  | none ↦ (none, kernel)
  | some p ↦
      let (signal, left) = take_pending_signal p.pending_signals mask in
      (signal, edit_process pid (λ x. record x { pending_signals = left }) kernel)
]

-- The task's own pending signals come before those of its process.
unfoldable pub take_pending_signal_for_task : ℕ → ℕ → ℕ → Call (Option ℕ)
unfolding take_pending_signal take_from_process
take_pending_signal_for_task tid pid mask kernel = elim (task kernel tid) [
  | none ↦ take_from_process pid mask kernel
  | some t ↦
      let (own, left) = take_pending_signal t.pending_signals mask in
      elim own [
        | some signal ↦
            (some signal, edit_task tid (λ x. record x { pending_signals = left }) kernel)
        | none ↦ take_from_process pid mask kernel
      ]
]

unfoldable pub take_pending_signal_for_return_to_user : ℕ → Call (Option ℕ)
unfolding take_pending_signal_for_task not64
take_pending_signal_for_return_to_user tid kernel = elim (task kernel tid) [
  | none ↦ (none, kernel)
  | some t ↦ elim t.pending_signal_delivery [
    | some signal ↦
        (some signal, edit_task tid (λ x. record x { pending_signal_delivery = none }) kernel)
    | none ↦ take_pending_signal_for_task tid t.pid (not64 t.signal_mask) kernel
  ]
]

-- A task that waits for a signal: its tid, its mask, and whether the wait returns the signal.
pub record SignalWaiter : Type 0 where
  pub tid : ℕ
  pub mask : ℕ
  pub returns_signal : Bool

signal_waiter : ℕ → GuestTask → Option SignalWaiter
signal_waiter pid t = elim t.state [
  | waiting_for_signal_set mask ↦
      if t.pid == pid
      then some (record { tid = t.tid; mask = mask; returns_signal = true })
      else none
  | waiting_for_signal_suspend mask ↦
      if t.pid == pid
      then some (record { tid = t.tid; mask = mask; returns_signal = false })
      else none
  | _ ↦ none
]

-- What a woken waiter's task becomes, its state apart.
unfoldable pub deliver_to_waiter : Bool → ℕ → GuestTask → GuestTask
unfolding encode_u64
deliver_to_waiter true signal t = record t { regs = with_syscall_return t.regs t.regs.rip signal }
deliver_to_waiter false signal t = record t {
  pending_signal_delivery = some signal;
  regs = with_syscall_return t.regs t.regs.rip (encode_u64 (errno eintr));
}

unfoldable pub wake_signal_waiter : SignalWaiter → ℕ → GuestKernel → GuestKernel
unfolding deliver_to_waiter set_task_state
wake_signal_waiter w signal kernel =
    set_state (edit_task w.tid (deliver_to_waiter w.returns_signal signal) kernel) w.tid runnable

unfoldable pub wake_waiters : ℕ → List SignalWaiter → ℕ → Call ℕ
unfolding take_pending_signal_for_task wake_signal_waiter
wake_waiters pid [] woken kernel = (woken, kernel)
wake_waiters pid (w ∷ ws) woken kernel =
    let (taken, next) = take_pending_signal_for_task w.tid pid w.mask kernel in
    elim taken [
      | none ↦ wake_waiters pid ws woken next
      | some signal ↦ elim (task next w.tid) [
        | none ↦ wake_waiters pid ws woken next
        | some t ↦ wake_waiters pid ws (woken + 1) (wake_signal_waiter w signal next)
      ]
    ]

unfoldable pub wake_signal_waiters : ℕ → Call ℕ
unfolding select signal_waiter wake_waiters
wake_signal_waiters pid kernel = wake_waiters pid (select (signal_waiter pid) kernel.tasks) 0 kernel

-- Into the pending set of a process, and on to a waiter that wants it.
unfoldable pub queue_process_signal : ℕ → ℕ → GuestKernel → GuestKernel
unfolding wake_signal_waiters
queue_process_signal pid signal kernel =
    (wake_signal_waiters pid (
      edit_process pid (λ p. record p { pending_signals = OrdSet.insert signal p.pending_signals })
        kernel)).1

unfoldable pub signal_blocked : GuestKernel → ℕ → ℕ → Bool
unfolding signal_matches_mask
signal_blocked kernel tid signal =
    holds (λ t. signal_matches_mask t.signal_mask signal) (task kernel tid)

unfoldable pub interrupt_futex_waiter : ℕ → Call Bool
unfolding end_futex_wait
interrupt_futex_waiter tid = end_futex_wait eintr tid

unfoldable pub queue_task_signal : ℕ → ℕ → GuestKernel → GuestKernel
unfolding wake_signal_waiters signal_blocked interrupt_futex_waiter
queue_task_signal tid signal kernel = elim (task kernel tid) [
  | none ↦ kernel
  | some t ↦
      let queued =
        edit_task tid (λ x. record x { pending_signals = OrdSet.insert signal x.pending_signals })
          kernel in
      let woken = (wake_signal_waiters t.pid queued).1 in
      if signal_blocked woken tid signal then woken else (interrupt_futex_waiter tid woken).1
]

unfoldable pub rt_sigaction_current_with_action :
    ℕ → RtSigactionSyscallArgs → Option GuestSignalAction → Call SyscallOutcome
unfolding validate_signal into_outcome
rt_sigaction_current_with_action tid args action kernel = elim (task kernel tid) [
  | none ↦ (fail_with esrch, kernel)
  | some t ↦ elim (validate_signal args.sig) [
    | err e ↦ (into_outcome e, kernel)
    | ok _ ↦
        if not (args.sigsetsize == linux_kernel_sigset_size)
        then (into_outcome (invalid_sigset_size args.sigsetsize), kernel)
        else elim action [
          | none ↦ (ok_with 0, kernel)
          | some new ↦ elim (process kernel t.pid) [
            | none ↦ (fail_with esrch, kernel)
            | some p ↦ (
              ok_with 0,
              edit_process t.pid (λ x. record x { signals = OrdMap.insert args.sig new x.signals })
                  kernel,
            )
          ]
        ]
  ]
]

unfoldable pub rt_sigaction_current : ℕ → RtSigactionSyscallArgs → Call SyscallOutcome
unfolding rt_sigaction_current_with_action
rt_sigaction_current tid args =
    rt_sigaction_current_with_action tid args
      (if args.act == 0 then none else some (new_signal_action args.act))

unfoldable pub rt_sigprocmask_current_mask : ℕ → ℕ → Option ℕ → ℕ → Call SyscallOutcome
unfolding apply_task_signal_mask into_outcome supported_how
rt_sigprocmask_current_mask tid how signal_mask sigsetsize kernel = elim (task kernel tid) [
  | none ↦ (fail_with esrch, kernel)
  | some t ↦
      if not (sigsetsize == linux_kernel_sigset_size)
      then (into_outcome (invalid_sigset_size sigsetsize), kernel)
      else if not (supported_how how)
      then (into_outcome (invalid_signal_mask_how how), kernel)
      else elim signal_mask [
        | none ↦ (ok_with 0, kernel)
        | some mask ↦ elim (apply_task_signal_mask t how mask) [
          | err e ↦ (into_outcome e, kernel)
          | ok new ↦
              (ok_with 0, edit_task tid (λ x. record x { signal_mask = new.signal_mask }) kernel)
        ]
      ]
]

-- The mask's address stands for the mask, as in the source.
unfoldable pub rt_sigprocmask_current : ℕ → RtSigprocmaskSyscallArgs → Call SyscallOutcome
unfolding rt_sigprocmask_current_mask
rt_sigprocmask_current tid args =
    rt_sigprocmask_current_mask tid args.how (if args.set == 0 then none else some args.set)
      args.sigsetsize

unfoldable pub set_task_signal_mask : ℕ → ℕ → Call Bool
unfolding sanitize_signal_mask
set_task_signal_mask tid mask kernel = elim (task kernel tid) [
  | none ↦ (false, kernel)
  | some t ↦
      (true, edit_task tid (λ x. record x { signal_mask = sanitize_signal_mask mask }) kernel)
]

-- The caller stays at its syscall's return, in a waiting state.
unfoldable pub suspend_task : ℕ → TaskState → GuestKernel → GuestKernel
unfolding current_syscall_return_rip set_task_state
suspend_task tid state kernel =
    let return_rip = current_syscall_return_rip kernel tid in
    set_state
      (edit_task tid (λ t. record t { regs = with_syscall_return t.regs return_rip t.regs.rax })
        kernel)
      tid state

unfoldable pub rt_sigtimedwait_current : ℕ → ℕ → ℕ → Bool → Call SyscallOutcome
unfolding take_pending_signal_for_task suspend_task into_outcome
rt_sigtimedwait_current tid mask sigsetsize wait_indefinitely kernel =
    if not (sigsetsize == linux_kernel_sigset_size)
    then (into_outcome (invalid_sigset_size sigsetsize), kernel)
    else elim (task kernel tid) [
      | none ↦ (fail_with esrch, kernel)
      | some t ↦
          let (taken, next) = take_pending_signal_for_task tid t.pid mask kernel in
          elim taken [
            | some signal ↦ (ok_with signal, next)
            | none ↦
                if wait_indefinitely
                then (ok_with 0, suspend_task tid (waiting_for_signal_set mask) next)
                else (fail_with eagain, next)
          ]
    ]

unfoldable pub rt_sigsuspend_current : ℕ → ℕ → ℕ → Call SyscallOutcome
unfolding take_pending_signal_for_task suspend_task into_outcome
rt_sigsuspend_current tid mask sigsetsize kernel =
    if not (sigsetsize == linux_kernel_sigset_size)
    then (into_outcome (invalid_sigset_size sigsetsize), kernel)
    else elim (task kernel tid) [
      | none ↦ (fail_with esrch, kernel)
      | some t ↦
          let (taken, next) = take_pending_signal_for_task tid t.pid mask kernel in
          elim taken [
            | some signal ↦ (
              fail_with eintr,
              edit_task tid (λ x. record x { pending_signal_delivery = some signal }) next,
            )
            | none ↦ (ok_with 0, suspend_task tid (waiting_for_signal_suspend mask) next)
          ]
    ]
