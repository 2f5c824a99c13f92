-- ===== src/Task/Invariant/Growth.antt =====
-- Moves that add a task or a process keep the invariant.
use mcr.Prelude.{
  ℕ, ◌+◌, ◌<◌, ◌≡◌, ◌⊎◌, inl, inr, sym, ap, ◌∙◌, none, some, arith, ◌==◌, ==_iff, Option-cases,
  Bool-cases,
}
use mcr.Prelude.OrdMap
use mcr.Prelude.OrdMap.{nat_key, get-insert, get-modify}
use mcr.Task.Process.{GuestProcess}
use mcr.Task.State.{GuestKernel, GuestTask}
use mcr.Task.Kernel.{process, task, insert_task}
use mcr.Task.Index.{IsIndexed, queued, SameTables}
use mcr.Task.Index.Entries.{insert_task-IsIndexed, insert_task-SameTables, task-insert_task}
use mcr.Task.Moves.{MaskOk}
use mcr.Task.Invariant.{Inv}

pub fresh_task : {k : GuestKernel} → Inv k → task k k.next_tid ≡ none
fresh_task {k} inv = elim (Option-cases (task k k.next_tid)) [
  | inl e ↦ e
  | inr (x, e) ↦ absurd (omega (arith, (inv.task_ids k.next_tid x e).1))
]

pub fresh_process : {k : GuestKernel} → Inv k → process k k.next_pid ≡ none
fresh_process {k} inv = elim (Option-cases (process k k.next_pid)) [
  | inl e ↦ e
  | inr (x, e) ↦ absurd (omega (arith, (inv.process_ids k.next_pid x e).1))
]

-- The queues do not look at the ids that are left, nor at the processes.
pub same_queues :
    (k : GuestKernel) (pids tids : ℕ) (processes : OrdMap.Map ℕ GuestProcess)
    → IsIndexed k
    → IsIndexed (record k { next_pid = pids; next_tid = tids; processes = processes })
unfolding queued
same_queues k pids tids processes inv = record { at = λ q t. ground (arith, inv.at q t) }

pub uses_pid-Inv : (k : GuestKernel) → Inv k → Inv (record k { next_pid = k.next_pid + 1 })
uses_pid-Inv k inv = record {
  indexed = same_queues k (k.next_pid + 1) k.next_tid k.processes inv.indexed;
  task_ids = inv.task_ids;
  process_ids = λ p x e. ((inv.process_ids p x e).0, omega (arith, (inv.process_ids p x e).1));
  owners = inv.owners;
  children = inv.children;
  parents = inv.parents;
  listed = inv.listed;
  masks = inv.masks;
}

-- A task that `insert_task` adds, or one that was there.
pub inserted :
    (k : GuestKernel) (new : GuestTask) (t : ℕ) (x : GuestTask)
    → task (insert_task k new) t ≡ some x
    → ((new.tid ≡ t) × (x ≡ new)) ⊎ (task k t ≡ some x)
inserted k new t x e = elim (Bool-cases (new.tid == t)) [
  | inl h ↦ inl ((==_iff new.tid t).0 h, ground (arith, h, e, task-insert_task k new t))
  | inr h ↦ inr (ground (arith, h, e, task-insert_task k new t))
]

module _ (k : GuestKernel) (t new : GuestTask) (tid : ℕ) (p : GuestProcess) (inv : Inv k)
    (caller : task k tid ≡ some t) (owner : process k t.pid ≡ some p) (ids : new.tid ≡ k.next_tid)
    (pids : new.pid ≡ t.pid) (mask : new.signal_mask ≡ t.signal_mask) where
  abbrev spawned : GuestKernel
  spawned = insert_task (record k { next_tid = k.next_tid + 1 }) new

  abbrev spawned_tables : SameTables (record k { next_tid = k.next_tid + 1 }) spawned
  spawned_tables = insert_task-SameTables (record k { next_tid = k.next_tid + 1 }) new

  at : (q : ℕ) → process spawned q ≡ process k q
  at q = ap (OrdMap.get q) spawned_tables.processes

  spawned_ids :
      (u : ℕ) (x : GuestTask)
      → task spawned u ≡ some x
      → (x.tid ≡ u)
        × (u < spawned.next_tid)
        × ((y : GuestProcess) × (process k x.pid ≡ some y))
        × MaskOk x.signal_mask
  spawned_ids u x e = elim (inserted (record k { next_tid = k.next_tid + 1 }) new u x e) [
    | inl (h, same) ↦ (
      ap (λ (a : GuestTask). a.tid) same ∙ h,
      omega (arith, h, ids, spawned_tables.tids),
      (p, ap (process k) (ap (λ (a : GuestTask). a.pid) same ∙ pids) ∙ owner),
      rw same (rw mask (inv.masks tid t caller)),
    )
    | inr old ↦ (
      (inv.task_ids u x old).0,
      omega (arith, (inv.task_ids u x old).1, spawned_tables.tids),
      inv.owners u x old,
      inv.masks u x old,
    )
  ]

  pub spawns-Inv : Inv spawned
  spawns-Inv = record {
    indexed =
        insert_task-IsIndexed (record k { next_tid = k.next_tid + 1 }) new
          (ap (task k) ids ∙ fresh_task inv)
          (same_queues k k.next_pid (k.next_tid + 1) k.processes inv.indexed);
    task_ids = λ u x e. ((spawned_ids u x e).0, (spawned_ids u x e).1);
    process_ids = λ q x e. (
      (inv.process_ids q x (sym (at q) ∙ e)).0,
      omega (arith, (inv.process_ids q x (sym (at q) ∙ e)).1, spawned_tables.pids),
    );
    owners = λ u x e. let (y, owned) = (spawned_ids u x e).2 in (y, at x.pid ∙ owned);
    children = λ q x c e listed.
        let (y, found, parent) = inv.children q x c (sym (at q) ∙ e) listed in
        (y, at c ∙ found, parent);
    parents = λ c y q e. inv.parents c y q (sym (at c) ∙ e);
    listed = λ c y q x e parent e'. inv.listed c y q x (sym (at c) ∙ e) parent (sym (at q) ∙ e');
    masks = λ u x e. (spawned_ids u x e).3;
  }
