-- ===== src/Task/Futex.antt =====
-- The futex queues of crates/mcr-task/src/kernel/wait.rs: block, wake, requeue and time out.
use mcr.Prelude.{ℕ, Bool, true, false, ◌||◌, List, [], ◌∷◌, ◌+◌, ◌==◌, if◌then◌else◌, holds}
use mcr.Sys.Errno.{etimedout}
use mcr.Sys.Return.{errno, encode_u64}
use mcr.Task.Registers.{with_syscall_return}
use mcr.Task.State.{
  FutexWaitKey, futex_key_eq, runnable, waiting_for_futex, waits_on_futex, is_futex_wait, Call,
}
use mcr.Task.Error.{Result}
use mcr.Task.Kernel.{task, edit_task, set_task_state, set_state, futex_waiters}
use mcr.Task.Wait.{block_task}

unfoldable pub block_task_for_futex : ℕ → FutexWaitKey → Call (Result (Unit {0}))
unfolding block_task
block_task_for_futex tid key = block_task tid (waiting_for_futex key)

-- The loop of `wake_futex_waiters`: `break` once `limit` tasks have been resumed.
unfoldable pub wake_loop : FutexWaitKey → ℕ → List ℕ → ℕ → Call ℕ
unfolding set_task_state waits_on_futex
wake_loop key limit [] resumed kernel = (resumed, kernel)
wake_loop key limit (tid ∷ tids) resumed kernel =
    elim (holds (λ t. waits_on_futex key t.state) (task kernel tid)) [
      | false ↦ wake_loop key limit tids resumed kernel
      | true ↦ elim (resumed + 1 == limit) [
        | true ↦ (resumed + 1, set_state kernel tid runnable)
        | false ↦ wake_loop key limit tids (resumed + 1) (set_state kernel tid runnable)
      ]
    ]

unfoldable pub wake_futex_waiters : FutexWaitKey → ℕ → Call ℕ
unfolding wake_loop futex_waiters
wake_futex_waiters key limit kernel =
    if limit == 0
    then (0, kernel)
    else wake_loop key limit (futex_waiters key kernel.futex_wait_tids) 0 kernel

-- The second loop of `requeue_futex_waiters`; it counts the tasks moved and all tasks affected.
unfoldable pub requeue_loop : FutexWaitKey → FutexWaitKey → ℕ → List ℕ → ℕ → ℕ → Call ℕ
unfolding set_task_state waits_on_futex
requeue_loop source target limit [] requeued affected kernel = (affected, kernel)
requeue_loop source target limit (tid ∷ tids) requeued affected kernel =
    elim (holds (λ t. waits_on_futex source t.state) (task kernel tid)) [
      | false ↦ requeue_loop source target limit tids requeued affected kernel
      | true ↦ elim (requeued + 1 == limit) [
        | true ↦ (affected + 1, set_state kernel tid (waiting_for_futex target))
        | false ↦
            requeue_loop source target limit tids (requeued + 1) (affected + 1)
              (set_state kernel tid (waiting_for_futex target))
      ]
    ]

unfoldable pub requeue_futex_waiters : FutexWaitKey → FutexWaitKey → ℕ → ℕ → Call ℕ
unfolding wake_futex_waiters requeue_loop futex_waiters
requeue_futex_waiters source target wake_limit requeue_limit kernel =
    let (affected, woken) = wake_futex_waiters source wake_limit kernel in
    if requeue_limit == 0 || futex_key_eq source target
    then (affected, woken)
    else requeue_loop source target requeue_limit (futex_waiters source woken.futex_wait_tids) 0
        affected woken

-- The end of a futex wait by an error: `rax` holds the encoded errno and the task runs again.
unfoldable pub end_futex_wait : ℕ → ℕ → Call Bool
unfolding is_futex_wait set_task_state encode_u64
end_futex_wait error tid kernel =
    if holds (λ t. is_futex_wait t.state) (task kernel tid)
    then (
      true,
      set_state
          (edit_task tid
            (λ t. record t {
              regs = with_syscall_return t.regs t.regs.rip (encode_u64 (errno error));
            })
            kernel)
          tid runnable,
    )
    else (false, kernel)

unfoldable pub timeout_futex_waiter : ℕ → Call Bool
unfolding end_futex_wait
timeout_futex_waiter tid = end_futex_wait etimedout tid
