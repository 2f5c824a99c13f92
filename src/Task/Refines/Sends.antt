-- ===== src/Task/Refines/Sends.antt =====
-- The signal senders, the signal waits and the small task syscalls as moves.
use mcr.Prelude.{ℕ, refl, Bool, inl, inr, not, ◌==◌, Option-cases, Bool-cases}
use mcr.Sys.Args.{
  linux_kernel_sigset_size, linux_robust_list_head_size, KillSyscallArgs, TkillSyscallArgs,
  TgkillSyscallArgs, SetRobustListSyscallArgs,
}
use mcr.Task.State.{GuestKernel, TaskState, waiting_for_signal_set, waiting_for_signal_suspend}
use mcr.Task.Error.{Result-cases}
use mcr.Task.Kernel.{process, task}
use mcr.Task.Mask.{validate_signal_or_probe}
use mcr.Task.Signal.{
  take_pending_signal_for_task, suspend_task, rt_sigtimedwait_current, rt_sigsuspend_current,
  queue_process_signal, queue_task_signal,
}
use mcr.Task.Kill.{
  positive, send, kill_current, tkill_current, tgkill_to, tgkill_current, set_tid_address_current,
  set_robust_list_current,
}
use mcr.Task.Moves.{Moves, done, Moves-trans, Moves-edit_task, Moves-set_state}
use mcr.Task.Refines.Signals.{
  queue_process_signal-Moves, queue_task_signal-Moves, take_pending_signal_for_task-Moves,
}

send-Moves :
    (signal : ℕ) (queue : GuestKernel → GuestKernel) (k : GuestKernel)
    → Moves k (queue k)
    → Moves k (send signal queue k).1
unfolding send
send-Moves signal queue k queued = elim (Result-cases (validate_signal_or_probe signal)) [
  | inr (x, e) ↦ rw (e, send) done
  | inl (x, e) ↦ elim (Bool-cases (signal == 0)) [
    | inl z ↦ rw (e, z, send) done
    | inr z ↦ rw (e, z, send) queued
  ]
]

pub kill-Moves : (args : KillSyscallArgs) (k : GuestKernel) → Moves k (kill_current args k).1
unfolding kill_current
kill-Moves args k = elim (Option-cases (positive args.pid)) [
  | inl e ↦ rw (e, kill_current) done
  | inr (pid, e) ↦ elim (Option-cases (process k pid)) [
    | inl p ↦ rw (e, p, kill_current) done
    | inr (x, p) ↦
        rw (e, p, kill_current)
          (send-Moves args.sig (queue_process_signal pid args.sig) k
            (queue_process_signal-Moves pid args.sig k))
  ]
]

pub tkill-Moves : (args : TkillSyscallArgs) (k : GuestKernel) → Moves k (tkill_current args k).1
unfolding tkill_current
tkill-Moves args k = elim (Option-cases (positive args.tid)) [
  | inl e ↦ rw (e, tkill_current) done
  | inr (tid, e) ↦ elim (Option-cases (task k tid)) [
    | inl p ↦ rw (e, p, tkill_current) done
    | inr (x, p) ↦
        rw (e, p, tkill_current)
          (send-Moves args.sig (queue_task_signal tid args.sig) k
            (queue_task_signal-Moves tid args.sig k))
  ]
]

tgkill_to-Moves : (pid tid signal : ℕ) (k : GuestKernel) → Moves k (tgkill_to pid tid signal k).1
unfolding tgkill_to
tgkill_to-Moves pid tid signal k = elim (Option-cases (task k tid)) [
  | inl e ↦ rw (e, tgkill_to) done
  | inr (t, e) ↦ elim (Bool-cases (not (t.pid == pid))) [
    | inl p ↦ rw (e, p, tgkill_to) done
    | inr p ↦
        rw (e, p, tgkill_to)
          (send-Moves signal (queue_task_signal tid signal) k
            (queue_task_signal-Moves tid signal k))
  ]
]

pub tgkill-Moves : (args : TgkillSyscallArgs) (k : GuestKernel) → Moves k (tgkill_current args k).1
unfolding tgkill_current
tgkill-Moves args k = elim (Option-cases (positive args.tgid)) [
  | inl e ↦ rw (e, tgkill_current) done
  | inr (pid, e) ↦ elim (Option-cases (positive args.tid)) [
    | inl f ↦ rw (e, f, tgkill_current) done
    | inr (tid, f) ↦ rw (e, f, tgkill_current) (tgkill_to-Moves pid tid args.sig k)
  ]
]

pub set_tid_address-Moves :
    (tid address : ℕ) (k : GuestKernel) → Moves k (set_tid_address_current tid address k).1
unfolding set_tid_address_current
set_tid_address-Moves tid address k = elim (Option-cases (task k tid)) [
  | inl e ↦ rw (e, set_tid_address_current) done
  | inr (t, e) ↦
      rw (e, set_tid_address_current)
        (Moves-edit_task done tid _
          (λ x _. record { tid = refl; pid = refl; state = refl; mask = λ h. h }))
]

pub set_robust_list-Moves :
    (tid : ℕ) (args : SetRobustListSyscallArgs) (k : GuestKernel)
    → Moves k (set_robust_list_current tid args k).1
unfolding set_robust_list_current
set_robust_list-Moves tid args k =
    elim (Bool-cases (not (args.len == linux_robust_list_head_size))) [
      | inl s ↦ rw (s, set_robust_list_current) done
      | inr s ↦ elim (Option-cases (task k tid)) [
        | inl e ↦ rw (s, e, set_robust_list_current) done
        | inr (t, e) ↦
            rw (s, e, set_robust_list_current)
              (Moves-edit_task done tid _
                (λ x _. record { tid = refl; pid = refl; state = refl; mask = λ h. h }))
      ]
    ]

suspend_task-Moves :
    (tid : ℕ) (state : TaskState) (k : GuestKernel) → Moves k (suspend_task tid state k)
unfolding suspend_task
suspend_task-Moves tid state k =
    Moves-set_state
      (Moves-edit_task done tid _
        (λ x _. record { tid = refl; pid = refl; state = refl; mask = λ h. h }))
      tid state

pub rt_sigtimedwait-Moves :
    (tid mask size : ℕ) (forever : Bool) (k : GuestKernel)
    → Moves k (rt_sigtimedwait_current tid mask size forever k).1
unfolding rt_sigtimedwait_current
rt_sigtimedwait-Moves tid mask size forever k =
    elim (Bool-cases (not (size == linux_kernel_sigset_size))) [
      | inl s ↦ rw (s, rt_sigtimedwait_current) done
      | inr s ↦ elim (Option-cases (task k tid)) [
        | inl e ↦ rw (s, e, rt_sigtimedwait_current) done
        | inr (t, e) ↦
            let taken = take_pending_signal_for_task-Moves tid t.pid mask k in
            elim (Option-cases (take_pending_signal_for_task tid t.pid mask k).0) [
              | inr (signal, f) ↦ rw (s, e, f, rt_sigtimedwait_current) taken
              | inl f ↦ elim (Bool-cases forever) [
                | inl w ↦
                    rw (s, e, f, w, rt_sigtimedwait_current)
                      (Moves-trans taken (
                        suspend_task-Moves tid (waiting_for_signal_set mask)
                          (take_pending_signal_for_task tid t.pid mask k).1))
                | inr w ↦ rw (s, e, f, w, rt_sigtimedwait_current) taken
              ]
            ]
      ]
    ]

pub rt_sigsuspend-Moves :
    (tid mask size : ℕ) (k : GuestKernel) → Moves k (rt_sigsuspend_current tid mask size k).1
unfolding rt_sigsuspend_current
rt_sigsuspend-Moves tid mask size k = elim (Bool-cases (not (size == linux_kernel_sigset_size))) [
  | inl s ↦ rw (s, rt_sigsuspend_current) done
  | inr s ↦ elim (Option-cases (task k tid)) [
    | inl e ↦ rw (s, e, rt_sigsuspend_current) done
    | inr (t, e) ↦
        let taken = take_pending_signal_for_task-Moves tid t.pid mask k in
        elim (Option-cases (take_pending_signal_for_task tid t.pid mask k).0) [
          | inr (signal, f) ↦
              rw (s, e, f, rt_sigsuspend_current)
                (Moves-edit_task taken tid _
                  (λ x _. record { tid = refl; pid = refl; state = refl; mask = λ h. h }))
          | inl f ↦
              rw (s, e, f, rt_sigsuspend_current)
                (Moves-trans taken (
                  suspend_task-Moves tid (waiting_for_signal_suspend mask)
                    (take_pending_signal_for_task tid t.pid mask k).1))
        ]
  ]
]
