-- ===== src/Task/Forked.antt =====
-- What `fork_child_task` of crates/mcr-task/src/kernel/clone.rs does to the tables, and when it
-- refuses.
use mcr.Prelude.{
  ℕ, ◌+◌, ◌<◌, ◌≤◌, ◌≡◌, ◌≢◌, refl, inl, inr, true, none, some, [], arith, ltb, Option-cases,
  Bool-cases,
}
use mcr.Prelude.OrdSet
use mcr.Task.Process.{GuestProcess, ExitState, running}
use mcr.Task.Process
use mcr.Task.State.{GuestKernel, GuestTask, runnable}
use mcr.Task.Error.{Result, ok, err, unknown_pid}
use mcr.Task.Kernel.{process, task, max_id, allocate_pid, allocate_tid}
use mcr.Task.Clone.{
  fork_child_task, fork_from, fork_with_pid, fork_with_tid, forked_process, forked_task,
}
use mcr.Task.Invariant.{Inv}
use mcr.Task.Invariant.Growth.{fresh_task, fresh_process}
use mcr.Task.Invariant.Fork.{forked, process-forked, task-forked, forked_ids}

-- A fork by the task `tid` that has given the ids of the child.
pub record Forked (tid : ℕ) (k k' : GuestKernel) (child_pid child_tid : ℕ) : Type 0 where
  pub caller : GuestTask
  pub parent : GuestProcess
  -- The caller and its process were there, and the process ran.
  pub caller_found : task k tid ≡ some caller
  pub parent_found : process k caller.pid ≡ some parent
  pub alive : parent.exit_state ≡ running
  -- The ids are the next ones, were not in use, and are in range.
  pub new_pid : (child_pid ≡ k.next_pid) × (process k child_pid ≡ none) × (child_pid < max_id)
  pub new_tid : (child_tid ≡ k.next_tid) × (task k child_tid ≡ none) × (child_tid < max_id)
  pub counted : (k'.next_pid ≡ k.next_pid + 1) × (k'.next_tid ≡ k.next_tid + 1)
  -- The child has the image, files and handlers of its parent, no signals and no children.
  pub child :
      process k' child_pid
      ≡ some (record {
        pid = child_pid;
        parent = some caller.pid;
        pgid = parent.pgid;
        sid = parent.sid;
        image = parent.image;
        files = parent.files;
        signals = parent.signals;
        pending_signals = [];
        children = [];
        exit_state = running;
      })
  -- The parent has one child more.
  pub grown :
      process k' caller.pid
      ≡ some (record parent { children = OrdSet.insert child_pid parent.children })
  pub other_processes : (q : ℕ) → q ≢ child_pid → q ≢ caller.pid → process k' q ≡ process k q
  -- The child's task has the registers and the mask of the caller, is runnable and has no signals.
  pub child_task :
      task k' child_tid
      ≡ some (record {
        tid = child_tid;
        pid = child_pid;
        regs = caller.regs;
        tls = caller.tls;
        state = runnable;
        robust_list = caller.robust_list;
        clear_child_tid = caller.clear_child_tid;
        signal_mask = caller.signal_mask;
        pending_signals = [];
        pending_signal_delivery = none;
      })
  pub other_tasks : (u : ℕ) → u ≢ child_tid → task k' u ≡ task k u

-- Why a fork by the task `tid` may be refused.
pub data Refusal (tid : ℕ) (k : GuestKernel) : Type 0 where
  no_task : task k tid ≡ none → Refusal tid k
  no_process : (t : GuestTask) → task k tid ≡ some t → process k t.pid ≡ none → Refusal tid k
  ended :
      (t : GuestTask) (p : GuestProcess)
      → task k tid ≡ some t
      → process k t.pid ≡ some p
      → p.exit_state ≢ running
      → Refusal tid k
  no_pid : max_id ≤ k.next_pid → Refusal tid k
  no_tid : max_id ≤ k.next_tid → Refusal tid k

-- A fork that was refused has a reason and leaves both tables alone.
pub record Refused (tid : ℕ) (k k' : GuestKernel) : Type 0 where
  pub reason : Refusal tid k
  pub processes : k'.processes ≡ k.processes
  pub tasks : k'.tasks ≡ k.tasks

pub IsFork : ℕ → GuestKernel → Result (ℕ × ℕ) × GuestKernel → Type 0
IsFork tid k (ok (child_pid, child_tid), k') = Forked tid k k' child_pid child_tid
IsFork tid k (err e, k') = Refused tid k k'

refuse : {tid : ℕ} {k : GuestKernel} → Refusal tid k → Refused tid k k
refuse reason = record { reason = reason; processes = refl; tasks = refl }

module _ (tid : ℕ) (k : GuestKernel) (inv : Inv k) (t : GuestTask) (p : GuestProcess)
    (caller : task k tid ≡ some t) (owner : process k t.pid ≡ some p) where
  installed :
      p.exit_state ≡ running
      → ltb k.next_pid max_id ≡ true
      → ltb k.next_tid max_id ≡ true
      → Forked tid k (forked k tid t p inv caller owner) k.next_pid k.next_tid
  unfolding forked_process forked_task
  installed alive pids tids = record {
    caller = t;
    parent = p;
    caller_found = caller;
    parent_found = owner;
    alive = alive;
    new_pid = (refl, fresh_process inv, ground (arith, pids));
    new_tid = (refl, fresh_task inv, ground (arith, tids));
    counted = forked_ids k tid t p inv caller owner;
    child = ground (arith, process-forked k tid t p inv caller owner k.next_pid);
    grown =
        ground (
          arith,
          (inv.process_ids t.pid p owner).1,
          process-forked k tid t p inv caller owner t.pid,
        );
    other_processes = λ q a b. ground (arith, a, b, process-forked k tid t p inv caller owner q);
    child_task = ground (arith, task-forked k tid t p inv caller owner k.next_tid);
    other_tasks = λ u a. ground (arith, a, task-forked k tid t p inv caller owner u);
  }

  fork_from-IsFork : p.exit_state ≡ running → IsFork tid k (fork_from t p k)
  unfolding IsFork fork_from fork_with_pid fork_with_tid allocate_pid allocate_tid
  fork_from-IsFork alive = elim (Bool-cases (ltb k.next_pid max_id)) [
    | inr a ↦ rw (a, fork_from) (refuse (no_pid (ground (arith, a))))
    | inl a ↦ elim (Bool-cases (ltb k.next_tid max_id)) [
      | inr b ↦
          rw (a, b, fork_from)
            (record { reason = no_tid (ground (arith, b)); processes = refl; tasks = refl })
      | inl b ↦ rw (a, b, fork_from) (installed alive a b)
    ]
  ]

  alive_or_ended :
      (s : ExitState)
      → p.exit_state ≡ s
      → IsFork tid k (elim s as (λ _. Result (ℕ × ℕ) × GuestKernel) [
        | running ↦ fork_from t p k
        | Process.exited status ↦ (err (unknown_pid t.pid), k)
      ])
  unfolding IsFork
  alive_or_ended running e = fork_from-IsFork e
  alive_or_ended (Process.exited status) e =
      refuse (ended t p caller owner (λ alive. absurd (ground (arith, e, alive))))

-- On well-formed tables, a fork that gives the ids of a child had a caller in a running process and
-- the next pid and tid, in range and not in use. It adds the entries of the child, written out field
-- by field, and the child's pid to the children of the parent, and changes no other process and no
-- other task. A fork that fails changes neither table, and the caller or its process was missing,
-- the process had exited, or no pid or no tid was left.
pub fork_child_task-IsFork :
    (tid : ℕ) (k : GuestKernel) → Inv k → IsFork tid k (fork_child_task tid k)
unfolding IsFork fork_child_task
fork_child_task-IsFork tid k inv = elim (Option-cases (task k tid)) [
  | inl e ↦ rw (e, fork_child_task) (refuse (no_task e))
  | inr (t, e) ↦ elim (Option-cases (process k t.pid)) [
    | inl f ↦ rw (e, f, fork_child_task) (refuse (no_process t e f))
    | inr (p, f) ↦ rw (e, f, fork_child_task) (alive_or_ended tid k inv t p e f p.exit_state refl)
  ]
]
