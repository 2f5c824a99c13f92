-- ===== src/Task/Refines/Futexes.antt =====
-- The futex queues as moves.
use mcr.Prelude.{ℕ, ◌+◌, ◌||◌, inl, inr, List, [], ◌∷◌, Bool-cases, holds, ◌==◌}
use mcr.Task.State.{
  GuestKernel, FutexWaitKey, runnable, waiting_for_futex, waits_on_futex, futex_key_eq,
}
use mcr.Task.Kernel.{task, set_state, futex_waiters}
use mcr.Task.Futex.{
  block_task_for_futex, wake_loop, wake_futex_waiters, requeue_loop, requeue_futex_waiters,
  timeout_futex_waiter,
}
use mcr.Sys.Errno.{etimedout}
use mcr.Task.Moves.{Moves, done, Moves-trans, Moves-set_state}
use mcr.Task.Refines.Signals.{end_futex_wait-Moves}
use mcr.Task.Refines.Waits.{block_task-Moves}

pub wake_loop-Moves :
    (key : FutexWaitKey) (limit : ℕ) (tids : List ℕ) (resumed : ℕ) (k : GuestKernel)
    → Moves k (wake_loop key limit tids resumed k).1
unfolding wake_loop
wake_loop-Moves key limit [] resumed k = done
wake_loop-Moves key limit (tid ∷ tids) resumed k =
    elim (Bool-cases (holds (λ t. waits_on_futex key t.state) (task k tid))) [
      | inr e ↦ rw (e, wake_loop) (wake_loop-Moves key limit tids resumed k)
      | inl e ↦ elim (Bool-cases (resumed + 1 == limit)) [
        | inl f ↦ rw (e, f, wake_loop) (Moves-set_state done tid runnable)
        | inr f ↦
            rw (e, f, wake_loop)
              (Moves-trans (Moves-set_state done tid runnable)
                (wake_loop-Moves key limit tids (resumed + 1) (set_state k tid runnable)))
      ]
    ]

pub wake_futex_waiters-Moves :
    (key : FutexWaitKey) (limit : ℕ) (k : GuestKernel) → Moves k (wake_futex_waiters key limit k).1
unfolding wake_futex_waiters
wake_futex_waiters-Moves key limit k = elim (Bool-cases (limit == 0)) [
  | inl e ↦ rw (e, wake_futex_waiters) done
  | inr e ↦
      rw (e, wake_futex_waiters)
        (wake_loop-Moves key limit (futex_waiters key k.futex_wait_tids) 0 k)
]

requeue_loop-Moves :
    (source target : FutexWaitKey) (limit : ℕ) (tids : List ℕ) (requeued affected : ℕ)
    (k : GuestKernel)
    → Moves k (requeue_loop source target limit tids requeued affected k).1
unfolding requeue_loop
requeue_loop-Moves source target limit [] requeued affected k = done
requeue_loop-Moves source target limit (tid ∷ tids) requeued affected k =
    elim (Bool-cases (holds (λ t. waits_on_futex source t.state) (task k tid))) [
      | inr e ↦
          rw (e, requeue_loop) (requeue_loop-Moves source target limit tids requeued affected k)
      | inl e ↦ elim (Bool-cases (requeued + 1 == limit)) [
        | inl f ↦ rw (e, f, requeue_loop) (Moves-set_state done tid (waiting_for_futex target))
        | inr f ↦
            rw (e, f, requeue_loop)
              (Moves-trans (Moves-set_state done tid (waiting_for_futex target)) (
                requeue_loop-Moves source target limit tids (requeued + 1) (affected + 1)
                  (set_state k tid (waiting_for_futex target))))
      ]
    ]

pub requeue_futex_waiters-Moves :
    (source target : FutexWaitKey) (wakes requeues : ℕ) (k : GuestKernel)
    → Moves k (requeue_futex_waiters source target wakes requeues k).1
unfolding requeue_futex_waiters
requeue_futex_waiters-Moves source target wakes requeues k =
    elim (Bool-cases (requeues == 0 || futex_key_eq source target)) [
      | inl e ↦ rw (e, requeue_futex_waiters) (wake_futex_waiters-Moves source wakes k)
      | inr e ↦
          rw (e, requeue_futex_waiters)
            (Moves-trans (wake_futex_waiters-Moves source wakes k) (
              requeue_loop-Moves source target requeues _ 0 (wake_futex_waiters source wakes k).0
                (wake_futex_waiters source wakes k).1))
    ]

pub block_task_for_futex-Moves :
    (tid : ℕ) (key : FutexWaitKey) (k : GuestKernel) → Moves k (block_task_for_futex tid key k).1
unfolding block_task_for_futex
block_task_for_futex-Moves tid key k = block_task-Moves tid (waiting_for_futex key) k

pub timeout_futex_waiter-Moves :
    (tid : ℕ) (k : GuestKernel) → Moves k (timeout_futex_waiter tid k).1
unfolding timeout_futex_waiter
timeout_futex_waiter-Moves tid k = end_futex_wait-Moves etimedout tid k
