-- ===== src/Task/Index/Entries.antt =====
-- `insert_task` and `remove_task` of kernel/mod.rs against the queues.
use mcr.Prelude.{
  ℕ, ◌&&◌, ◌||◌, none, some, arith, ◌==◌, ◌≡◌, refl, inl, inr, if◌then◌else◌, Option-cases, ==_iff,
}
use mcr.Prelude.OrdMap
use mcr.Prelude.OrdMap.{Map, nat_key, get-insert, get-remove, get-modify}
use mcr.Task.State.{GuestKernel, GuestTask, futex_key}
use mcr.Task.Kernel.{task, unindex_task_state, insert_task, remove_task}
use mcr.Task.Index.{
  Queue, in_queue, queued, IsIndexed, SameTables, index-SameTables, unindex-SameTables,
  queued-index, queued-unindex, queued-edit,
}

pub insert_task-SameTables : (k : GuestKernel) (new : GuestTask) → SameTables k (insert_task k new)
unfolding insert_task
insert_task-SameTables k new = ground (arith, index-SameTables k new.tid new.state)

tasks-insert_task :
    (k : GuestKernel) (new : GuestTask)
    → (insert_task k new).tasks ≡ OrdMap.insert new.tid new k.tasks
unfolding insert_task
tasks-insert_task k new = cc ((index-SameTables k new.tid new.state).1)

pub task-insert_task :
    (k : GuestKernel) (new : GuestTask) (t : ℕ)
    → task (insert_task k new) t ≡ (if new.tid == t then some new else task k t)
task-insert_task k new t = rw tasks-insert_task (get-insert new.tid t new k.tasks)

queued-insert_task :
    (q : Queue) (k : GuestKernel) (new : GuestTask) (t : ℕ)
    → queued q (insert_task k new) t ≡ ((new.tid == t && in_queue q new.state) || queued q k t)
unfolding insert_task
queued-insert_task q k new t = rw queued-edit (queued-index q k new.tid t new.state)

-- A task under a new id joins the queue of its state.
pub insert_task-IsIndexed :
    (k : GuestKernel) (new : GuestTask)
    → task k new.tid ≡ none
    → IsIndexed k
    → IsIndexed (insert_task k new)
insert_task-IsIndexed k new fresh inv = record {
  at = λ q t.
      rw (queued-insert_task q k new t, task-insert_task k new t)
        (ground (arith, fresh, inv.at q t, ==_iff new.tid t));
}

pub remove_task_cases {ℓ} :
    (P : GuestKernel → Type ℓ) (k : GuestKernel) (tid : ℕ)
    → (task k tid ≡ none → P k)
    → ((x : GuestTask)
        → task k tid ≡ some x
        → P (unindex_task_state (record k { tasks = OrdMap.remove tid k.tasks }) x.tid x.state))
    → P (remove_task k tid).1
unfolding remove_task
remove_task_cases P k tid absent found = elim (Option-cases (task k tid)) [
  | inl e ↦ rw (e, remove_task) (absent e)
  | inr (x, e) ↦ rw (e, remove_task) (found x e)
]

abbrev removed : GuestKernel → ℕ → GuestTask → GuestKernel
removed k tid x = unindex_task_state (record k { tasks = OrdMap.remove tid k.tasks }) x.tid x.state

removed-SameTables :
    (k : GuestKernel) (tid : ℕ) (x : GuestTask)
    → SameTables k (removed k tid x) × ((removed k tid x).tasks ≡ OrdMap.remove tid k.tasks)
removed-SameTables k tid x =
    ground
      (arith, unindex-SameTables (record k { tasks = OrdMap.remove tid k.tasks }) x.tid x.state)

pub remove_task-SameTables : (k : GuestKernel) (tid : ℕ) → SameTables k (remove_task k tid).1
remove_task-SameTables k tid =
    remove_task_cases (SameTables k) k tid
      (λ _. record { pids = refl; tids = refl; processes = refl })
      (λ x e. (removed-SameTables k tid x).0)

pub task-remove_task :
    (k : GuestKernel) (tid t : ℕ)
    → task (remove_task k tid).1 t ≡ (if tid == t then none else task k t)
task-remove_task k tid t =
    remove_task_cases (λ k'. task k' t ≡ (if tid == t then none else task k t)) k tid
      (λ e. ground (arith, e, ==_iff tid t))
      (λ x e. rw ((removed-SameTables k tid x).1) (get-remove tid t k.tasks))

-- A task that stands under its own id leaves its queue with it.
pub remove_task-IsIndexed :
    (k : GuestKernel) (tid : ℕ)
    → ((x : GuestTask) → task k tid ≡ some x → x.tid ≡ tid)
    → IsIndexed k
    → IsIndexed (remove_task k tid).1
remove_task-IsIndexed k tid own inv =
    remove_task_cases IsIndexed k tid (λ _. inv)
      λ x e. record {
        at = λ q t.
            rw (queued-unindex, queued-edit)
              (rw ((removed-SameTables k tid x).1) (
                ground (
                  arith,
                  e,
                  own x e,
                  inv.at q t,
                  get-remove tid t k.tasks,
                  ==_iff tid t,
                  ==_iff x.tid t,
                )));
      }
