-- ===== src/Task/Guarantees.antt =====
-- What the guest kernel of crates/mcr-task guarantees to its callers: the dispatcher and the host's
-- entry points keep the tables well formed.
use mcr.Prelude.{ℕ, ◌≡◌, some}
use mcr.Sys.Return.{SyscallOutcome}
use mcr.Task.State.{GuestKernel, FutexWaitKey}
use mcr.Task.Kernel.{Loader}
use mcr.Task.Futex.{requeue_futex_waiters}
use mcr.Task.Signal.{rt_sigsuspend_current}
use mcr.Task.Wait.{resume_waiting_tasks, FdReady, resume_fd_waiters}
use mcr.Task.Syscalls.{SyscallRequest, dispatch_for_current_task}
use mcr.Task.Invariant.{Inv}
use mcr.Task.Preservation.{Moves-Inv}
use mcr.Task.Refines.Dispatch.{dispatch-Replies}
use mcr.Task.Refines.Futexes.{requeue_futex_waiters-Moves}
use mcr.Task.Refines.Waits.{resume_waiting_tasks-Moves, resume_fd_waiters-Moves}
use mcr.Task.Refines.Sends.{rt_sigsuspend-Moves}

-- On well-formed tables the dispatcher gives a reply to every request, so the `expect` of
-- `task_process` never fails, and the tables after the reply are well formed.
pub dispatch-Inv :
    (loader : Loader) (r : SyscallRequest) (k : GuestKernel)
    → Inv k
    → (reply : SyscallOutcome × GuestKernel) × (dispatch_for_current_task loader r k ≡ some reply)
      × Inv reply.1
dispatch-Inv loader r k inv =
    let replied = dispatch-Replies loader r k (λ t e. inv.owners r.tid t e) in
    (replied.reply, replied.given, Moves-Inv replied.moves inv)

-- Resuming the tasks that wait for children, which may reap some, keeps the tables well formed.
pub resume_waiting_tasks-Inv : (k : GuestKernel) → Inv k → Inv (resume_waiting_tasks k).1
resume_waiting_tasks-Inv k = Moves-Inv (resume_waiting_tasks-Moves k)

-- Waking and requeueing the waiters of a futex, for all keys and limits, keeps the tables well
-- formed.
pub requeue_futex_waiters-Inv :
    (source target : FutexWaitKey) (wakes requeues : ℕ) (k : GuestKernel)
    → Inv k
    → Inv (requeue_futex_waiters source target wakes requeues k).1
requeue_futex_waiters-Inv source target wakes requeues k =
    Moves-Inv (requeue_futex_waiters-Moves source target wakes requeues k)

-- Resuming the tasks whose descriptors are ready keeps the tables well formed, for every callback
-- and every state that the callback starts with.
pub resume_fd_waiters-Inv :
    {S : Type 0} (ready : FdReady S) (caller : S) (k : GuestKernel)
    → Inv k
    → Inv (resume_fd_waiters ready caller k).1
resume_fd_waiters-Inv ready caller k = Moves-Inv (resume_fd_waiters-Moves ready caller k)

-- `rt_sigsuspend`, on every branch, keeps the tables well formed.
pub rt_sigsuspend-Inv :
    (tid mask size : ℕ) (k : GuestKernel) → Inv k → Inv (rt_sigsuspend_current tid mask size k).1
rt_sigsuspend-Inv tid mask size k = Moves-Inv (rt_sigsuspend-Moves tid mask size k)
