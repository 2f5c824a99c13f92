-- ===== src/Task/Invariant.antt =====
-- The well-formedness of the guest kernel's tables, and that every move keeps it.
pub mod Edits
pub mod Growth
pub mod Fork
pub mod Reap
use mathlib.Core.Option
use mcr.Prelude.{
  ℕ, suc, ◌+◌, ◌≤◌, ◌<◌, Bool, true, false, not, ◌&&◌, ◌||◌, ◌≡◌, refl, sym, ap, ◌∙◌, Option, none,
  some, List, [], ◌∷◌, arith, bit_and, ℤ, ◌==◌, ==_iff, ==_refl, if◌then◌else◌, Option-cases,
}
use mcr.Prelude.OrdMap
use mcr.Prelude.OrdMap.{nat_key, get-insert, get-remove, get-modify}
use mcr.Prelude.OrdSet
use mcr.Prelude.OrdSet.{contains-insert, contains-remove}
use mcr.Task.Process.{GuestProcess}
use mcr.Task.State.{GuestKernel, GuestTask, TaskState}
use mcr.Task.Kernel.{process, task, edit_process, edit_task, insert_task, set_task_state, set_state}
use mcr.Task.Index.{
  IsIndexed, Queue, in_queue, queued, queued-edit, set_state-IsIndexed, task-set_state,
  set_state-SameTables, with_state,
}
use mcr.Task.Moves.{MaskOk, KeptTask, KeptProcess}

pub record Inv (k : GuestKernel) : Type 0 where
  -- The queues hold the tids by the states of their tasks.
  pub indexed : IsIndexed k
  -- An entry stands under its own id, and no id is used before it is allocated.
  pub task_ids : (t : ℕ) (x : GuestTask) → task k t ≡ some x → (x.tid ≡ t) × (t < k.next_tid)
  pub process_ids :
      (p : ℕ) (x : GuestProcess) → process k p ≡ some x → (x.pid ≡ p) × (p < k.next_pid)
  -- Every task has its process.
  pub owners :
      (t : ℕ) (x : GuestTask) → task k t ≡ some x → (p : GuestProcess) × (process k x.pid ≡ some p)
  -- The children of a process are there and name it as their parent.
  pub children :
      (p : ℕ) (x : GuestProcess) (c : ℕ)
      → process k p ≡ some x
      → OrdSet.contains c x.children ≡ true
      → (y : GuestProcess) × (process k c ≡ some y) × (y.parent ≡ some p)
  -- A process that names a parent is younger, and stands in the parent's set while that is there.
  pub parents :
      (c : ℕ) (y : GuestProcess) (p : ℕ) → process k c ≡ some y → y.parent ≡ some p → p < c
  pub listed :
      (c : ℕ) (y : GuestProcess) (p : ℕ) (x : GuestProcess)
      → process k c ≡ some y
      → y.parent ≡ some p
      → process k p ≡ some x
      → OrdSet.contains c x.children ≡ true
  -- No mask holds SIGKILL or SIGSTOP.
  pub masks : (t : ℕ) (x : GuestTask) → task k t ≡ some x → MaskOk x.signal_mask

-- What a change of one task means for the lookup of any.
pub task-edit :
    (tid t : ℕ) (f : GuestTask → GuestTask) (k : GuestKernel)
    → task (edit_task tid f k) t ≡ (if tid == t then Option.map f (task k t) else task k t)
task-edit tid t f k = get-modify tid t f k.tasks

-- A lookup after a change of one entry comes from an entry before it.
pub record Source {ℓ} {A : Type ℓ} (f : A → A) (changed : Bool) (before : Option A) (x : A)
    : Type ℓ where
  pub old : A
  pub found : before ≡ some old
  pub value : x ≡ (if changed then f old else old)

pub before_edit {ℓ} :
    {A : Type ℓ} (f : A → A) (b : Bool) (o : Option A) (x : A)
    → (if b then Option.map f o else o) ≡ some x
    → Source f b o x
before_edit f b none x h = absurd (ground (arith, h))
before_edit f b (some y) x h = record { old = y; found = refl; value = ground (arith, h) }
