-- ===== src/Task/Refines/Waits.antt =====
-- The waits for children, descriptors and sleep as moves.
use mcr.Prelude.{
  ℕ, ◌+◌, ◌≡◌, refl, Bool, true, Option, none, some, inl, inr, List, [], ◌∷◌, ℤ, arith,
  Option-cases, Bool-cases, find_by, filter_by, collect,
}
use mcr.Prelude.OrdSet
use mcr.Sys.Args.{Wait4SyscallArgs, has_unsupported_options}
use mcr.Task.Process.{GuestProcess, WaitedChild, CompletedWait}
use mcr.Task.Process
use mcr.Task.State.{GuestKernel, TaskState, runnable, waiting_for_child}
use mcr.Task.Error.{Result, ok, err, would_block, Result-cases}
use mcr.Task.Kernel.{process, task, set_state}
use mcr.Task.Wait.{
  child_waiter, child_matches, matching_children, has_exited, exited_waitable_child, reap_child,
  some_result, wait4_child, block_for_child, wait4_reply, wait4_current_with_return, WaitingTask,
  complete_wait, after_wait, resume_waiters, resume_waiting_tasks, block_task, resume_sleep_waiter,
  is_sleeping, FdReady, fd_ready, resume_fds, resume_fd_waiters,
}
use mcr.Task.Moves.{Moves, done, next, reaps, Moves-trans, Moves-edit_task, Moves-set_state}

-- What `find` gives passes the test and stands in the list.
pub find_by_sound :
    (f : ℕ → Bool) (xs : List ℕ) (x : ℕ)
    → find_by f xs ≡ some x
    → (f x ≡ true) × (OrdSet.contains x xs ≡ true)
unfolding find_by OrdSet.contains
find_by_sound f [] x e = absurd (ground (arith, e))
find_by_sound f (y ∷ ys) x e = ground (arith, find_by_sound f ys x)

contains-filter_by :
    (f : ℕ → Bool) (xs : List ℕ) (x : ℕ)
    → OrdSet.contains x (filter_by f xs) ≡ true
    → OrdSet.contains x xs ≡ true
unfolding filter_by OrdSet.contains
contains-filter_by f [] x e = e
contains-filter_by f (y ∷ ys) x e = ground (arith, contains-filter_by f ys x)

-- A child that `wait4` may reap: its parent lists it, and it has exited.
pub record Waitable (k : GuestKernel) (parent_pid child_pid : ℕ) : Type 0 where
  pub parent : GuestProcess
  pub child : GuestProcess
  pub status : ℤ
  pub parent_found : process k parent_pid ≡ some parent
  pub listed : OrdSet.contains child_pid parent.children ≡ true
  pub child_found : process k child_pid ≡ some child
  pub ended : child.exit_state ≡ Process.exited status

exit_status :
    (o : Option GuestProcess)
    → has_exited o ≡ true
    → (c : GuestProcess) × (status : ℤ) × (o ≡ some c) × (c.exit_state ≡ Process.exited status)
unfolding has_exited
exit_status none h = absurd (ground (arith, h))
exit_status (some c) h = ended c.exit_state refl
  where
    ended :
        (s : Process.ExitState)
        → c.exit_state ≡ s
        → (x : GuestProcess) × (status : ℤ) × (some c ≡ some x)
          × (x.exit_state ≡ Process.exited status)
    ended Process.running e = absurd (ground (arith, h, e))
    ended (Process.exited status) e = (c, status, refl, e)

-- A child that `exited_waitable_child` finds is listed by its parent, is in the process table, and
-- has exited.
pub exited_waitable_child-Waitable :
    (k : GuestKernel) (parent_pid : ℕ) (selector : ℤ) (child_pid : ℕ)
    → exited_waitable_child k parent_pid selector ≡ ok (some child_pid)
    → Waitable k parent_pid child_pid
unfolding exited_waitable_child matching_children
exited_waitable_child-Waitable k parent_pid selector child_pid h =
    elim (Option-cases (process k parent_pid)) [
      | inl e ↦ absurd (ground (arith, h, e))
      | inr (p, e) ↦ listed p e
    ]
  where
    listed : (p : GuestProcess) → process k parent_pid ≡ some p → Waitable k parent_pid child_pid
    listed p e =
        let found =
          find_by_sound (λ pid. has_exited (process k pid))
            (filter_by (child_matches k p selector) p.children) child_pid (ground (arith, h, e)) in
        let (c, status, there, ended) = exit_status (process k child_pid) found.0 in
        record {
          parent = p;
          child = c;
          status = status;
          parent_found = e;
          listed = contains-filter_by (child_matches k p selector) p.children child_pid found.1;
          child_found = there;
          ended = ended;
        }

pub reap_child-Moves :
    (parent_pid child_pid : ℕ) (k : GuestKernel)
    → Waitable k parent_pid child_pid
    → Moves k (reap_child parent_pid child_pid k).1
unfolding reap_child
reap_child-Moves parent_pid child_pid k w =
    rw (w.child_found, w.ended, reap_child)
      (next done (
        reaps parent_pid child_pid w.parent w.child w.status w.parent_found w.listed w.child_found
          w.ended refl))

pub some_result-same : (r : Result WaitedChild) (k : GuestKernel) → (some_result (r, k)).1 ≡ k
unfolding some_result
some_result-same (ok waited) k = refl
some_result-same (err e) k = refl

pub wait4_child-Moves :
    (parent_pid : ℕ) (args : Wait4SyscallArgs) (k : GuestKernel)
    → Moves k (wait4_child parent_pid args k).1
unfolding wait4_child
wait4_child-Moves parent_pid args k = elim (Bool-cases (has_unsupported_options args)) [
  | inl a ↦ rw (a, wait4_child) done
  | inr a ↦ elim (Result-cases (exited_waitable_child k parent_pid args.pid)) [
    | inr (e, b) ↦ rw (a, b, wait4_child) done
    | inl (none, b) ↦ rw (a, b, wait4_child) done
    | inl (some child_pid, b) ↦
        rw (a, b, wait4_child)
          (rw
            (some_result-same (reap_child parent_pid child_pid k).0
              (reap_child parent_pid child_pid k).1)
            (reap_child-Moves parent_pid child_pid k
              (exited_waitable_child-Waitable k parent_pid args.pid child_pid b)))
  ]
]

block_for_child-Moves :
    (k : GuestKernel) (tid : ℕ) (args : Wait4SyscallArgs) (return_rip : ℕ)
    → Moves k (block_for_child k tid args return_rip)
unfolding block_for_child
block_for_child-Moves k tid args return_rip =
    Moves-set_state
      (Moves-edit_task done tid _
        (λ x _. record { tid = refl; pid = refl; state = refl; mask = λ h. h }))
      tid (waiting_for_child args)

wait4_reply-Moves :
    (tid : ℕ) (args : Wait4SyscallArgs) (return_rip : ℕ) (r : Result (Option WaitedChild))
    (k : GuestKernel)
    → Moves k (wait4_reply tid args return_rip (r, k)).1
unfolding wait4_reply
wait4_reply-Moves tid args return_rip (ok (some waited)) k = done
wait4_reply-Moves tid args return_rip (ok none) k = done
wait4_reply-Moves tid args return_rip (err would_block) k = elim (Option-cases (task k tid)) [
  | inl e ↦ rw (e, wait4_reply) done
  | inr (t, e) ↦ rw (e, wait4_reply) (block_for_child-Moves k tid args return_rip)
]
wait4_reply-Moves tid args return_rip (err _) k = done

pub wait4_current_with_return-Moves :
    (tid : ℕ) (args : Wait4SyscallArgs) (return_rip : ℕ) (k : GuestKernel)
    → Moves k (wait4_current_with_return tid args return_rip k).1
unfolding wait4_current_with_return
wait4_current_with_return-Moves tid args return_rip k = elim (Option-cases (task k tid)) [
  | inl e ↦ rw (e, wait4_current_with_return) done
  | inr (t, e) ↦
      rw (e, wait4_current_with_return)
        (Moves-trans (wait4_child-Moves t.pid args k) (
          wait4_reply-Moves tid args return_rip (wait4_child t.pid args k).0
            (wait4_child t.pid args k).1))
]

after_wait-Moves :
    (w : WaitingTask) (r : Result (Option WaitedChild)) (k : GuestKernel)
    → Moves k (after_wait w (r, k)).1
unfolding after_wait complete_wait
after_wait-Moves w (ok (some waited)) k =
    Moves-set_state
      (Moves-edit_task done w.tid _
        (λ x _. record { tid = refl; pid = refl; state = refl; mask = λ h. h }))
      w.tid runnable
after_wait-Moves w (ok none) k = done
after_wait-Moves w (err e) k = done

resume_waiters-Moves : (ws : List WaitingTask) (k : GuestKernel) → Moves k (resume_waiters ws k).1
unfolding resume_waiters
resume_waiters-Moves [] k = done
resume_waiters-Moves (w ∷ ws) k =
    Moves-trans
      (Moves-trans (wait4_child-Moves w.pid w.args k)
        (after_wait-Moves w (wait4_child w.pid w.args k).0 (wait4_child w.pid w.args k).1))
      (resume_waiters-Moves ws (after_wait w (wait4_child w.pid w.args k)).1)

pub resume_waiting_tasks-Moves : (k : GuestKernel) → Moves k (resume_waiting_tasks k).1
unfolding resume_waiting_tasks
resume_waiting_tasks-Moves k = resume_waiters-Moves (collect (child_waiter k) k.child_wait_tids) k

pub block_task-Moves :
    (tid : ℕ) (state : TaskState) (k : GuestKernel) → Moves k (block_task tid state k).1
unfolding block_task
block_task-Moves tid state k = elim (Option-cases (task k tid)) [
  | inl e ↦ rw (e, block_task) done
  | inr (t, e) ↦ rw (e, block_task) (Moves-set_state done tid state)
]

pub resume_sleep_waiter-Moves : (tid : ℕ) (k : GuestKernel) → Moves k (resume_sleep_waiter tid k).1
unfolding resume_sleep_waiter
resume_sleep_waiter-Moves tid k = elim (Bool-cases (is_sleeping (task k tid))) [
  | inl e ↦ rw (e, resume_sleep_waiter) (Moves-set_state done tid runnable)
  | inr e ↦ rw (e, resume_sleep_waiter) done
]

resume_fds-Moves :
    {S : Type 0} (ready : FdReady S) (tids : List ℕ) (resumed : ℕ) (caller : S) (k : GuestKernel)
    → Moves k (resume_fds ready tids resumed caller k).1
unfolding resume_fds
resume_fds-Moves ready [] resumed caller k = done
resume_fds-Moves ready (tid ∷ tids) resumed caller k =
    let answer = fd_ready ready caller (task k tid) in
    elim (Bool-cases answer.0) [
      | inl e ↦
          rw (e, resume_fds)
            (Moves-trans (Moves-set_state done tid runnable)
              (resume_fds-Moves ready tids (resumed + 1) answer.1 (set_state k tid runnable)))
      | inr e ↦ rw (e, resume_fds) (resume_fds-Moves ready tids resumed answer.1 k)
    ]

pub resume_fd_waiters-Moves :
    {S : Type 0} (ready : FdReady S) (caller : S) (k : GuestKernel)
    → Moves k (resume_fd_waiters ready caller k).1
unfolding resume_fd_waiters
resume_fd_waiters-Moves ready caller k = resume_fds-Moves ready k.fd_wait_tids 0 caller k
