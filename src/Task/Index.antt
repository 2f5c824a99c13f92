-- ===== src/Task/Index.antt =====
-- The queues of kernel/mod.rs against the states of the tasks: `runnable_tids`, `child_wait_tids`,
-- `fd_wait_tids` and `futex_wait_tids` hold a tid exactly when its task is in such a state.
pub mod Entries
pub mod Sweep
use mathlib.Core.Option
use mathlib.Core.Logic.{if_pos, if_neg}
use mcr.Prelude.{
  ℕ, Bool, true, false, not, ◌&&◌, ◌||◌, Option, none, some, List, [], ◌∷◌, arith, ◌==◌, ◌≡◌, refl,
  ap, ite, ite, ◌⊎◌, inl, inr, ◌∙◌, sym, if◌then◌else◌, holds, Bool-cases, Option-cases, ==_iff,
}
use mcr.Prelude.OrdMap
use mcr.Prelude.OrdMap.{Map, nat_key, get-insert, get-remove, get-modify}
use mcr.Prelude.OrdSet
use mcr.Prelude.OrdSet.{contains-insert, contains-remove}
use mcr.Task.State.{
  GuestKernel, GuestTask, TaskState, TaskState-discrete, FutexWaitKey, futex_key, futex_key_eq,
  futex_key_eq_iff, runnable, waiting_for_child, waiting_for_vfork, waiting_for_signal_set,
  waiting_for_signal_suspend, waiting_for_fd, waiting_for_futex, waiting_for_sleep, exited,
}
use mcr.Task.Kernel.{
  task, edit_task, futex_waiters, drop_futex_waiter, index_task_state, unindex_task_state,
  move_task, change_state, set_task_state, set_state, insert_task, remove_task,
}

pub data Queue : Type 0 where
  runnables child_waits fd_waits : Queue
  futex_waits : FutexWaitKey → Queue

-- The queue that a state belongs to.
unfoldable pub in_queue : Queue → TaskState → Bool
in_queue runnables runnable = true
in_queue child_waits (waiting_for_child args) = true
in_queue fd_waits (waiting_for_fd fd write) = true
in_queue (futex_waits key) (waiting_for_futex k) = futex_key_eq k key
in_queue _ _ = false

unfoldable pub queued : Queue → GuestKernel → ℕ → Bool
queued runnables k t = OrdSet.contains t k.runnable_tids
queued child_waits k t = OrdSet.contains t k.child_wait_tids
queued fd_waits k t = OrdSet.contains t k.fd_wait_tids
queued (futex_waits key) k t = OrdSet.contains t (futex_waiters key k.futex_wait_tids)

pub record IsIndexed (k : GuestKernel) : Type 0 where
  pub at : (q : Queue) (t : ℕ) → queued q k t ≡ holds (λ x. in_queue q x.state) (task k t)

is_empty→nil : (s : List ℕ) → OrdSet.is_empty s ≡ true → s ≡ []
unfolding OrdSet.is_empty
is_empty→nil [] h = refl
is_empty→nil (x ∷ s) h = cc

pub futex_waiters-drop :
    (key other : FutexWaitKey) (tid : ℕ) (waits : Map FutexWaitKey (List ℕ))
    → futex_waiters other (drop_futex_waiter key tid waits) ≡ (
        if futex_key_eq key other
        then OrdSet.remove tid (futex_waiters key waits)
        else futex_waiters other waits)
unfolding futex_waiters drop_futex_waiter OrdSet.remove
futex_waiters-drop key other tid waits = elim (Option-cases (OrdMap.get key waits)) [
  | inl e ↦ rw (e, drop_futex_waiter) (ground (arith, e, futex_key_eq_iff key other))
  | inr (waiters, e) ↦
      rw (e, drop_futex_waiter)
        (ground (
          arith,
          e,
          futex_key_eq_iff key other,
          is_empty→nil (OrdSet.remove tid waiters),
          get-remove key other waits,
          get-modify key other (λ (_ : List ℕ). OrdSet.remove tid waiters) waits,
        ))
]

pub queued-index :
    (q : Queue) (k : GuestKernel) (tid t : ℕ) (s : TaskState)
    → queued q (index_task_state k tid s) t ≡ ((tid == t && in_queue q s) || queued q k t)
unfolding queued index_task_state in_queue futex_waiters
queued-index runnables k tid t s = ground (arith, contains-insert tid t k.runnable_tids)
queued-index child_waits k tid t s = ground (arith, contains-insert tid t k.child_wait_tids)
queued-index fd_waits k tid t s = ground (arith, contains-insert tid t k.fd_wait_tids)
queued-index (futex_waits key) k tid t (waiting_for_futex j) = ground (
  arith,
  futex_key_eq_iff j key,
  get-insert j key (OrdSet.insert tid (futex_waiters j k.futex_wait_tids)) k.futex_wait_tids,
  contains-insert tid t (futex_waiters j k.futex_wait_tids),
)
queued-index (futex_waits key) k tid t _ = ground arith

pub queued-unindex :
    (q : Queue) (k : GuestKernel) (tid t : ℕ) (s : TaskState)
    → queued q (unindex_task_state k tid s) t ≡ (not (tid == t && in_queue q s) && queued q k t)
unfolding queued unindex_task_state in_queue
queued-unindex runnables k tid t s = ground (arith, contains-remove tid t k.runnable_tids)
queued-unindex child_waits k tid t s = ground (arith, contains-remove tid t k.child_wait_tids)
queued-unindex fd_waits k tid t s = ground (arith, contains-remove tid t k.fd_wait_tids)
queued-unindex (futex_waits key) k tid t (waiting_for_futex j) = ground (
  arith,
  futex_key_eq_iff j key,
  futex_waiters-drop j key tid k.futex_wait_tids,
  contains-remove tid t (futex_waiters j k.futex_wait_tids),
)
queued-unindex (futex_waits key) k tid t _ = ground arith

-- The parts of the kernel that the queues are kept apart from.
pub record SameTables (k k' : GuestKernel) : Type 0 where
  pub pids : k'.next_pid ≡ k.next_pid
  pub tids : k'.next_tid ≡ k.next_tid
  pub processes : k'.processes ≡ k.processes

pub index-SameTables :
    (k : GuestKernel) (tid : ℕ) (s : TaskState)
    → SameTables k (index_task_state k tid s) × ((index_task_state k tid s).tasks ≡ k.tasks)
unfolding index_task_state
index-SameTables k tid s = ground arith

pub unindex-SameTables :
    (k : GuestKernel) (tid : ℕ) (s : TaskState)
    → SameTables k (unindex_task_state k tid s) × ((unindex_task_state k tid s).tasks ≡ k.tasks)
unfolding unindex_task_state
unindex-SameTables k tid s = ground arith

-- Only the state of the task `tid` changes.
abbrev pub with_state : TaskState → GuestTask → GuestTask
with_state s x = record x { state = s }

-- The queues do not look at the tasks.
pub queued-edit :
    (q : Queue) (k : GuestKernel) (tasks : Map ℕ GuestTask) (t : ℕ)
    → queued q (record k { tasks = tasks }) t ≡ queued q k t
unfolding queued
queued-edit q k tasks t = ground arith

move_task-SameTables :
    (k : GuestKernel) (tid : ℕ) (p s : TaskState) → SameTables k (move_task k tid p s)
unfolding move_task
move_task-SameTables k tid p s = ground (
  arith,
  unindex-SameTables k tid p,
  index-SameTables (edit_task tid (with_state s) (unindex_task_state k tid p)) tid s,
)

tasks-move_task :
    (k : GuestKernel) (tid : ℕ) (p s : TaskState)
    → (move_task k tid p s).tasks ≡ OrdMap.modify tid (with_state s) k.tasks
unfolding move_task
tasks-move_task k tid p s = cc (
  (unindex-SameTables k tid p).1,
  (index-SameTables (edit_task tid (with_state s) (unindex_task_state k tid p)) tid s).1,
)

-- `set_task_state` on a missing task, on one in the state already, and on any other.
pub set_state_cases {ℓ} :
    (P : GuestKernel → Type ℓ) (k : GuestKernel) (tid : ℕ) (s : TaskState)
    → (task k tid ≡ none → P k)
    → ((x : GuestTask) → task k tid ≡ some x → x.state ≡ s → P k)
    → ((x : GuestTask) → task k tid ≡ some x → P (move_task k tid x.state s))
    → P (set_state k tid s)
unfolding set_task_state
set_state_cases P k tid s absent same other = go (task k tid) refl
  where
    go : (o : Option GuestTask) → task k tid ≡ o → P (change_state k tid s o).1
    go none e = absent e
    go (some x) e =
        elim (TaskState-discrete x.state s)
          as (λ d.
            P
              (ite {C = Option TaskState × GuestKernel} d (some x.state, k)
                (some x.state, move_task k tid x.state s)).1) [
                  | yes h ↦ same x e h
                  | no h ↦ other x e
                ]

pub set_state-SameTables :
    (k : GuestKernel) (tid : ℕ) (s : TaskState) → SameTables k (set_state k tid s)
set_state-SameTables k tid s =
    set_state_cases (SameTables k) k tid s
      (λ _. record { pids = refl; tids = refl; processes = refl })
      (λ _ _ _. record { pids = refl; tids = refl; processes = refl })
      (λ x _. move_task-SameTables k tid x.state s)

-- `set_task_state` changes the state of its task and nothing else of any task.
pub task-set_state :
    (k : GuestKernel) (tid t : ℕ) (s : TaskState)
    → task (set_state k tid s) t
      ≡ (if tid == t then Option.map (with_state s) (task k t) else task k t)
task-set_state k tid t s =
    set_state_cases
      (λ k'. task k' t ≡ (if tid == t then Option.map (with_state s) (task k t) else task k t)) k
      tid s (λ e. ground (arith, e, ==_iff tid t)) (λ x e h. ground (arith, e, ==_iff tid t))
      (λ x e. rw (tasks-move_task k tid x.state s) (get-modify tid t (with_state s) k.tasks))

queued-move_task :
    (q : Queue) (k : GuestKernel) (tid t : ℕ) (p s : TaskState)
    → queued q (move_task k tid p s) t
      ≡ ((tid == t && in_queue q s) || (not (tid == t && in_queue q p) && queued q k t))
unfolding move_task
queued-move_task q k tid t p s =
    rw (queued-index q (edit_task tid (with_state s) (unindex_task_state k tid p)) tid t s)
      (rw queued-edit (rw queued-unindex refl))

-- A change of a task's state keeps every queue, those of the futex keys included, equal to the set
-- of the tasks whose state belongs there, if it was before.
pub set_state-IsIndexed :
    (k : GuestKernel) (tid : ℕ) (s : TaskState) → IsIndexed k → IsIndexed (set_state k tid s)
set_state-IsIndexed k tid s inv =
    set_state_cases IsIndexed k tid s (λ _. inv) (λ _ _ _. inv)
      λ x e. record {
        at = λ q t.
            rw (queued-move_task q k tid t x.state s, tasks-move_task k tid x.state s)
              (ground
                (arith, e, inv.at q t, get-modify tid t (with_state s) k.tasks, ==_iff tid t));
      }
