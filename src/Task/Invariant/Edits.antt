-- ===== src/Task/Invariant/Edits.antt =====
-- Moves that change entries of one table keep the invariant.
use mathlib.Core.Option
use mcr.Prelude.{
  ℕ, ◌≡◌, refl, sym, ap, ◌∙◌, some, arith, ◌==◌, ==_iff, if◌then◌else◌, Bool, true, false, holds,
  inl, inr, Option-cases,
}
use mcr.Prelude.OrdMap
use mcr.Prelude.OrdMap.{nat_key, get-modify}
use mcr.Prelude.OrdSet
use mcr.Task.Process.{GuestProcess}
use mcr.Task.State.{GuestKernel, GuestTask, TaskState}
use mcr.Task.Kernel.{process, task, edit_process, edit_task, set_state}
use mcr.Task.Index.{
  IsIndexed, Queue, in_queue, queued, queued-edit, SameTables, set_state-IsIndexed, task-set_state,
  set_state-SameTables, with_state,
}
use mcr.Task.Moves.{MaskOk, KeptTask, KeptProcess}
use mcr.Task.Invariant.{Inv, before_edit, task-edit}

-- Every task of the new kernel was there, with the same ids and a mask that is still fine.
record TasksFrom (k k' : GuestKernel) : Type 0 where
  origin :
      (t : ℕ) (x : GuestTask)
      → task k' t ≡ some x
      → (y : GuestTask) × (task k t ≡ some y)
        × (x.tid ≡ y.tid)
        × (x.pid ≡ y.pid)
        × (MaskOk y.signal_mask → MaskOk x.signal_mask)

keep_tasks : {k k' : GuestKernel} → SameTables k k' → IsIndexed k' → TasksFrom k k' → Inv k → Inv k'
keep_tasks {k} {k'} same indexed from inv = record {
  indexed = indexed;
  task_ids = λ t x e.
      let (y, found, tids, pids, mask) = from.origin t x e in
      (tids ∙ (inv.task_ids t y found).0, omega (arith, (inv.task_ids t y found).1, same.tids));
  process_ids = λ p x e. (
    (inv.process_ids p x (back p x e)).0,
    omega (arith, (inv.process_ids p x (back p x e)).1, same.pids),
  );
  owners = λ t x e.
      let (y, found, tids, pids, mask) = from.origin t x e in
      let (p, owned) = inv.owners t y found in (p, at x.pid ∙ ap (process k) pids ∙ owned);
  children = λ p x c e listed.
      let (y, found, parent) = inv.children p x c (back p x e) listed in (y, at c ∙ found, parent);
  parents = λ c y p e. inv.parents c y p (back c y e);
  listed = λ c y p x e parent e'. inv.listed c y p x (back c y e) parent (back p x e');
  masks =
      λ t x e. let (y, found, tids, pids, mask) = from.origin t x e in mask (inv.masks t y found);
}
  where
    at : (p : ℕ) → process k' p ≡ process k p
    at p = ap (OrdMap.get p) same.processes

    back : (p : ℕ) (x : GuestProcess) → process k' p ≡ some x → process k p ≡ some x
    back p x e = sym (at p) ∙ e

set_state-TasksFrom : (k : GuestKernel) (tid : ℕ) (s : TaskState) → TasksFrom k (set_state k tid s)
set_state-TasksFrom k tid s = record {
  origin = λ t x e.
      let src =
        before_edit (with_state s) (tid == t) (task k t) x (sym (task-set_state k tid t s) ∙ e) in
      (
        src.old,
        src.found,
        ground (arith, src.value),
        ground (arith, src.value),
        λ h. ground (arith, src.value),
      );
}

pub set_state-Inv : (k : GuestKernel) (tid : ℕ) (s : TaskState) → Inv k → Inv (set_state k tid s)
set_state-Inv k tid s inv =
    keep_tasks (set_state-SameTables k tid s) (set_state-IsIndexed k tid s inv.indexed)
      (set_state-TasksFrom k tid s) inv

module _ (k : GuestKernel) (tid : ℕ) (f : GuestTask → GuestTask)
    (kept : (t : GuestTask) → task k tid ≡ some t → KeptTask t (f t)) where
  edited :
      (t : ℕ) (x y : GuestTask)
      → task k t ≡ some y
      → (b : Bool) → (tid == t) ≡ b
      → x ≡ (if b then f y else y)
      → (z : GuestTask) × (task k t ≡ some z)
        × (x.tid ≡ z.tid)
        × (x.pid ≡ z.pid)
        × (MaskOk z.signal_mask → MaskOk x.signal_mask)
  edited t x y found false b e =
      (y, found, ap (λ (a : GuestTask). a.tid) e, ap (λ (a : GuestTask). a.pid) e, λ h. rw e h)
  edited t x y found true b e = (
    y,
    found,
    ap (λ (a : GuestTask). a.tid) e ∙ same.tid,
    ap (λ (a : GuestTask). a.pid) e ∙ same.pid,
    λ h. rw e (same.mask h),
  )
    where
      same : KeptTask y (f y)
      same = kept y (ap (task k) ((==_iff tid t).0 b) ∙ found)

  edit_task-TasksFrom : TasksFrom k (edit_task tid f k)
  edit_task-TasksFrom = record {
    origin = λ t x e.
        let src = before_edit f (tid == t) (task k t) x (sym (task-edit tid t f k) ∙ e) in
        edited t x src.old src.found (tid == t) refl src.value;
  }

  state_kept :
      (q : Queue) (t : ℕ) (x : GuestTask)
      → queued q k t ≡ holds (λ y. in_queue q y.state) (task k t)
      → task k t ≡ some x
      → (b : Bool) → (tid == t) ≡ b
      → queued q k t ≡ holds (λ y. in_queue q y.state) (if b then some (f x) else some x)
  state_kept q t x i e false h = i ∙ ap (holds (λ y. in_queue q y.state)) e
  state_kept q t x i e true h =
      i ∙ ap (holds (λ y. in_queue q y.state)) e ∙ sym (ap (in_queue q) same.state)
    where
      same : KeptTask x (f x)
      same = kept x (ap (task k) ((==_iff tid t).0 h) ∙ e)

  edit_task-IsIndexed : IsIndexed k → IsIndexed (edit_task tid f k)
  edit_task-IsIndexed inv = record {
    at = λ q t.
        rw (queued-edit, task-edit tid t f k)
          (elim (Option-cases (task k t)) [
            | inl e ↦ rw e (ground (arith, inv.at q t, e))
            | inr (x, e) ↦ rw e (state_kept q t x (inv.at q t) e (tid == t) refl)
          ]);
  }

  pub edit_task-Inv : Inv k → Inv (edit_task tid f k)
  edit_task-Inv inv =
      keep_tasks (record { pids = refl; tids = refl; processes = refl })
        (edit_task-IsIndexed inv.indexed) edit_task-TasksFrom inv

module _ (k : GuestKernel) (pid : ℕ) (f : GuestProcess → GuestProcess)
    (kept : (p : GuestProcess) → KeptProcess p (f p)) where
  process-edit :
      (p : ℕ)
      → process (edit_process pid f k) p
        ≡ (if pid == p then Option.map f (process k p) else process k p)
  process-edit p = get-modify pid p f k.processes

  -- The entry after the edit against the one before it.
  came_from :
      (p : ℕ) (x : GuestProcess)
      → process (edit_process pid f k) p ≡ some x
      → (y : GuestProcess) × (process k p ≡ some y) × KeptProcess y x
  came_from p x e =
      let src = before_edit f (pid == p) (process k p) x (sym (process-edit p) ∙ e) in
      (src.old, src.found, agree src.old (pid == p) src.value)
    where
      agree : (y : GuestProcess) (b : Bool) → x ≡ (if b then f y else y) → KeptProcess y x
      agree y true e = rw e (kept y)
      agree y false e = rw e (record { pid = refl; parent = refl; children = refl })

  goes_to :
      (p : ℕ) (y : GuestProcess)
      → process k p ≡ some y
      → (x : GuestProcess) × (process (edit_process pid f k) p ≡ some x) × KeptProcess y x
  goes_to p y e =
      go (pid == p) (process-edit p ∙ ap (λ o. if pid == p then Option.map f o else o) e)
    where
      go :
          (b : Bool)
          → process (edit_process pid f k) p ≡ (if b then some (f y) else some y)
          → (x : GuestProcess) × (process (edit_process pid f k) p ≡ some x) × KeptProcess y x
      go true e = (f y, e, kept y)
      go false e = (y, e, record { pid = refl; parent = refl; children = refl })

  edit_process-IsIndexed : IsIndexed k → IsIndexed (edit_process pid f k)
  unfolding queued
  edit_process-IsIndexed inv = record { at = λ q t. ground (arith, inv.at q t) }

  pub edit_process-Inv : Inv k → Inv (edit_process pid f k)
  edit_process-Inv inv = record {
    indexed = edit_process-IsIndexed inv.indexed;
    task_ids = inv.task_ids;
    process_ids = λ p x e.
        let (y, found, same) = came_from p x e in
        (same.pid ∙ (inv.process_ids p y found).0, (inv.process_ids p y found).1);
    owners = λ t x e.
        let (p, owned) = inv.owners t x e in
        let (z, found, same) = goes_to x.pid p owned in (z, found);
    children = λ p x c e listed.
        let (y, found, same) = came_from p x e in
        let (z, child, parent) =
          inv.children p y c found (ap (OrdSet.contains c) (sym same.children) ∙ listed) in
        let (w, child', same') = goes_to c z child in (w, child', same'.parent ∙ parent);
    parents = λ c y p e parent.
        let (z, found, same) = came_from c y e in
        inv.parents c z p found (sym same.parent ∙ parent);
    listed = λ c y p x e parent e'.
        let (z, found, same) = came_from c y e in
        let (w, found', same') = came_from p x e' in
        ap (OrdSet.contains c) same'.children
        ∙ inv.listed c z p w found (sym same.parent ∙ parent) found';
    masks = inv.masks;
  }
