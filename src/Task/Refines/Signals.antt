-- ===== src/Task/Refines/Signals.antt =====
-- The signal calls as moves.
use mcr.Prelude.{
  ℕ, refl, Bool, true, false, List, [], ◌∷◌, inl, inr, Option-cases, Bool-cases, holds,
  if◌then◌else◌, ◌+◌,
}
use mcr.Prelude.OrdSet
use mcr.Sys.Errno.{eintr}
use mcr.Task.State.{GuestKernel, GuestTask, runnable, is_futex_wait}
use mcr.Task.Kernel.{process, task, edit_task}
use mcr.Task.Mask.{take_pending_signal}
use mcr.Task.Signal.{
  take_from_process, take_pending_signal_for_task, SignalWaiter, wake_signal_waiter,
  deliver_to_waiter, wake_waiters, wake_signal_waiters, queue_process_signal, queue_task_signal,
  signal_blocked, interrupt_futex_waiter,
}
use mcr.Task.Futex.{end_futex_wait}
use mcr.Task.Moves.{
  KeptTask, Moves, done, Moves-trans, Moves-set_state, Moves-edit_task, Moves-edit_process,
}

pub kept_pending :
    (t : GuestTask) (left : List ℕ) → KeptTask t (record t { pending_signals = left })
kept_pending t left = record { tid = refl; pid = refl; state = refl; mask = λ h. h }

pub Moves-if :
    {k m n : GuestKernel} (b : Bool) → Moves k m → Moves k n → Moves k (if b then m else n)
Moves-if true a b = a
Moves-if false a b = b

take_from_process-Moves :
    (pid mask : ℕ) (k : GuestKernel) → Moves k (take_from_process pid mask k).1
unfolding take_from_process
take_from_process-Moves pid mask k = elim (Option-cases (process k pid)) [
  | inl e ↦ rw (e, take_from_process) done
  | inr (p, e) ↦
      rw (e, take_from_process)
        (Moves-edit_process done pid _ (λ x. record { pid = refl; parent = refl; children = refl }))
]

pub take_pending_signal_for_task-Moves :
    (tid pid mask : ℕ) (k : GuestKernel) → Moves k (take_pending_signal_for_task tid pid mask k).1
unfolding take_pending_signal_for_task
take_pending_signal_for_task-Moves tid pid mask k = elim (Option-cases (task k tid)) [
  | inl e ↦ rw (e, take_pending_signal_for_task) (take_from_process-Moves pid mask k)
  | inr (t, e) ↦ elim (Option-cases (take_pending_signal t.pending_signals mask).0) [
    | inl e' ↦ rw (e, e', take_pending_signal_for_task) (take_from_process-Moves pid mask k)
    | inr (signal, e') ↦
        rw (e, e', take_pending_signal_for_task)
          (Moves-edit_task done tid _ (λ x _. kept_pending x _))
  ]
]

delivered : (b : Bool) (signal : ℕ) (t : GuestTask) → KeptTask t (deliver_to_waiter b signal t)
unfolding deliver_to_waiter
delivered true signal t = record { tid = refl; pid = refl; state = refl; mask = λ h. h }
delivered false signal t = record { tid = refl; pid = refl; state = refl; mask = λ h. h }

wake_signal_waiter-Moves :
    (w : SignalWaiter) (signal : ℕ) (k : GuestKernel) → Moves k (wake_signal_waiter w signal k)
unfolding wake_signal_waiter
wake_signal_waiter-Moves w signal k =
    Moves-set_state (Moves-edit_task done w.tid _ (λ x _. delivered w.returns_signal signal x))
      w.tid runnable

-- One waiter of the loop, then the rest.
wake_waiters-Moves :
    (pid : ℕ) (ws : List SignalWaiter) (woken : ℕ) (k : GuestKernel)
    → Moves k (wake_waiters pid ws woken k).1
unfolding wake_waiters
wake_waiters-Moves pid [] woken k = done
wake_waiters-Moves pid (w ∷ ws) woken k =
    elim (Option-cases (take_pending_signal_for_task w.tid pid w.mask k).0) [
      | inl e ↦
          rw (e, wake_waiters)
            (Moves-trans taken
              (wake_waiters-Moves pid ws woken (take_pending_signal_for_task w.tid pid w.mask k).1))
      | inr (signal, e) ↦
          elim (Option-cases (task (take_pending_signal_for_task w.tid pid w.mask k).1 w.tid)) [
            | inl e' ↦
                rw (e, e', wake_waiters)
                  (Moves-trans taken (
                    wake_waiters-Moves pid ws woken
                      (take_pending_signal_for_task w.tid pid w.mask k).1))
            | inr (t, e') ↦
                rw (e, e', wake_waiters)
                  (Moves-trans (Moves-trans taken (wake_signal_waiter-Moves w signal _)) (
                    wake_waiters-Moves pid ws (woken + 1) (
                      wake_signal_waiter w signal
                        (take_pending_signal_for_task w.tid pid w.mask k).1)))
          ]
    ]
  where
    taken : Moves k (take_pending_signal_for_task w.tid pid w.mask k).1
    taken = take_pending_signal_for_task-Moves w.tid pid w.mask k

wake_signal_waiters-Moves : (pid : ℕ) (k : GuestKernel) → Moves k (wake_signal_waiters pid k).1
unfolding wake_signal_waiters
wake_signal_waiters-Moves pid k = wake_waiters-Moves pid _ 0 k

pub queue_process_signal-Moves :
    (pid signal : ℕ) (k : GuestKernel) → Moves k (queue_process_signal pid signal k)
unfolding queue_process_signal
queue_process_signal-Moves pid signal k =
    Moves-trans
      (Moves-edit_process done pid _ (λ x. record { pid = refl; parent = refl; children = refl }))
      (wake_signal_waiters-Moves pid _)

pub end_futex_wait-Moves :
    (error tid : ℕ) (k : GuestKernel) → Moves k (end_futex_wait error tid k).1
unfolding end_futex_wait
end_futex_wait-Moves error tid k =
    elim (Bool-cases (holds (λ t. is_futex_wait t.state) (task k tid))) [
      | inl e ↦
          rw (e, end_futex_wait)
            (Moves-set_state
              (Moves-edit_task done tid _
                (λ x _. record { tid = refl; pid = refl; state = refl; mask = λ h. h }))
              tid runnable)
      | inr e ↦ rw (e, end_futex_wait) done
    ]

pub queue_task_signal-Moves :
    (tid signal : ℕ) (k : GuestKernel) → Moves k (queue_task_signal tid signal k)
unfolding queue_task_signal interrupt_futex_waiter
queue_task_signal-Moves tid signal k = elim (Option-cases (task k tid)) [
  | inl e ↦ rw (e, queue_task_signal) done
  | inr (t, e) ↦ rw (e, queue_task_signal) (Moves-trans (woken t.pid) (interrupted t.pid))
]
  where
    queued : GuestKernel
    queued =
        edit_task tid (λ x. record x { pending_signals = OrdSet.insert signal x.pending_signals }) k

    woken : (pid : ℕ) → Moves k (wake_signal_waiters pid queued).1
    woken pid =
        Moves-trans (Moves-edit_task done tid _ (λ x _. kept_pending x _))
          (wake_signal_waiters-Moves pid _)

    interrupted :
        (pid : ℕ)
        → Moves (wake_signal_waiters pid queued).1 (
            if signal_blocked (wake_signal_waiters pid queued).1 tid signal
            then (wake_signal_waiters pid queued).1
            else (interrupt_futex_waiter tid (wake_signal_waiters pid queued).1).1)
    interrupted pid =
        Moves-if (signal_blocked (wake_signal_waiters pid queued).1 tid signal) done
          (end_futex_wait-Moves eintr tid (wake_signal_waiters pid queued).1)
