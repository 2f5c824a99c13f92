-- ===== src/Task/Invariant/Reap.antt =====
-- Reaping a child keeps the invariant: its tasks go with it, and its parent forgets it.
use mcr.Prelude.{
  ℕ, ◌<◌, ◌≡◌, inl, inr, refl, sym, ap, subst, ◌∙◌, Option, none, some, arith, ◌==◌, ==_iff, ◌&&◌,
  if◌then◌else◌, Bool, true, false, not, Bool-cases, List, [], ◌∷◌, ℤ,
}
use mcr.Prelude.OrdMap
use mcr.Prelude.OrdMap.{nat_key, get-remove, get-modify, select}
use mcr.Prelude.OrdSet
use mcr.Prelude.OrdSet.{contains-remove}
use mcr.Task.Process.{GuestProcess, WaitedChild, new_waited_child}
use mcr.Task.Error.{Result, ok}
use mcr.Task.State.{GuestKernel, GuestTask}
use mcr.Task.Kernel.{process, task, remove_task}
use mcr.Task.Index.{IsIndexed, queued, SameTables}
use mcr.Task.Index.Entries.{remove_task-IsIndexed, remove_task-SameTables, task-remove_task}
use mcr.Task.Wait.{remove_tasks, tids_of, drop_process, forget_child, finish_reap, reap_exited}
use mcr.Task.Invariant.{Inv}

-- Removing tasks: what is left of the task table, and the queues.
pub record Stripped (tids : List ℕ) (k k' : GuestKernel) : Type 0 where
  pub same : SameTables k k'
  pub left : (t : ℕ) → task k' t ≡ (if OrdSet.contains t tids then none else task k t)
  pub indexed : IsIndexed k'

Stripped-cons :
    (tid : ℕ) (tids : List ℕ) {k m : GuestKernel}
    → Stripped tids (remove_task k tid).1 m
    → Stripped (tid ∷ tids) k m
unfolding OrdSet.contains
Stripped-cons tid tids {k} rest = record {
  same = record {
    pids = rest.same.pids ∙ first.pids;
    tids = rest.same.tids ∙ first.tids;
    processes = rest.same.processes ∙ first.processes;
  };
  left = λ t. ground (arith, rest.left t, task-remove_task k tid t);
  indexed = rest.indexed;
}
  where
    first : SameTables k (remove_task k tid).1
    first = remove_task-SameTables k tid

pub remove_tasks-Stripped :
    (tids : List ℕ) (k : GuestKernel)
    → ((t : ℕ) (x : GuestTask) → task k t ≡ some x → x.tid ≡ t)
    → IsIndexed k
    → Stripped tids k (remove_tasks k tids)
unfolding remove_tasks OrdSet.contains
remove_tasks-Stripped [] k own i = record {
  same = record { pids = refl; tids = refl; processes = refl };
  left = λ t. refl;
  indexed = i;
}
remove_tasks-Stripped (tid ∷ tids) k own i = Stripped-cons tid tids (
    remove_tasks-Stripped tids (remove_task k tid).1
      (λ t x e. own t x (ground (arith, e, task-remove_task k tid t)))
      (remove_task-IsIndexed k tid (λ x e. own tid x e) i))

-- A task of a table whose entry passes the filter is among the selected.
pub contains-select :
    (f : GuestTask → Option ℕ) (m : OrdMap.Map ℕ GuestTask) (t u : ℕ) (x : GuestTask)
    → OrdMap.get t m ≡ some x
    → f x ≡ some u
    → OrdSet.contains u (select f m) ≡ true
unfolding select OrdMap.get OrdSet.contains
contains-select f [] t u x e h = cc
contains-select f ((j, v) ∷ m) t u x e h = ground (arith, contains-select f m t u x)

pub finish_reap_found :
    (parent_pid child_pid : ℕ) (status : ℤ) (k : GuestKernel) (p : GuestProcess)
    → process k parent_pid ≡ some p
    → finish_reap parent_pid child_pid status k
      ≡ (ok (new_waited_child child_pid status), forget_child k parent_pid child_pid)
unfolding finish_reap
finish_reap_found parent_pid child_pid status k p e = rw (e, finish_reap)

pub contains-tids_of :
    (k : GuestKernel) (pid t : ℕ) (x : GuestTask)
    → task k t ≡ some x
    → x.pid ≡ pid
    → OrdSet.contains x.tid (tids_of k pid) ≡ true
unfolding tids_of
contains-tids_of k pid t x e h =
    contains-select (λ (y : GuestTask). if y.pid == pid then some y.tid else none) k.tasks t x.tid x
      e (ground (arith, h))

module _ (k : GuestKernel) (parent_pid child_pid : ℕ) (p c : GuestProcess) (status : ℤ)
    (inv : Inv k) (parent : process k parent_pid ≡ some p)
    (listed : OrdSet.contains child_pid p.children ≡ true) where
  abbrev pub reaped : GuestKernel
  reaped = (reap_exited parent_pid child_pid status k).1

  stripped : Stripped (tids_of k child_pid) k (remove_tasks k (tids_of k child_pid))
  stripped =
      remove_tasks-Stripped (tids_of k child_pid) k (λ t x e. (inv.task_ids t x e).0) inv.indexed

  -- The parent is another process.
  older : parent_pid < child_pid
  older =
      let (y, found, named) = inv.children parent_pid p child_pid parent listed in
      inv.parents child_pid y parent_pid found named

  abbrev without_child : GuestProcess → GuestProcess
  without_child x = record x { children = OrdSet.remove child_pid x.children }

  process-bare :
      (q : ℕ)
      → process (drop_process k child_pid) q ≡ (if child_pid == q then none else process k q)
  unfolding drop_process
  process-bare q =
      get-remove child_pid q (remove_tasks k (tids_of k child_pid)).processes
      ∙ ap (λ m. if child_pid == q then none else OrdMap.get q m) stripped.same.processes

  parent_there : process (drop_process k child_pid) parent_pid ≡ some p
  parent_there = ground (arith, process-bare parent_pid, older, parent)

  reaped_lem : reaped ≡ forget_child (drop_process k child_pid) parent_pid child_pid
  unfolding reap_exited
  reaped_lem =
      ap (λ (r : Result WaitedChild × GuestKernel). r.1)
        (finish_reap_found parent_pid child_pid status (drop_process k child_pid) p parent_there)

  pub process-reaped :
      (q : ℕ)
      → process reaped q ≡ (
          if parent_pid == q
          then some (without_child p)
          else if child_pid == q
          then none
          else process k q)
  unfolding forget_child
  process-reaped q =
      ap (λ k'. process k' q) reaped_lem
      ∙ ground (
        arith,
        get-modify parent_pid q without_child (drop_process k child_pid).processes,
        process-bare q,
        parent_there,
      )

  pub task-reaped :
      (t : ℕ) → task reaped t ≡ (if OrdSet.contains t (tids_of k child_pid) then none else task k t)
  unfolding forget_child drop_process
  task-reaped t = ap (λ k'. task k' t) reaped_lem ∙ stripped.left t

  -- An entry of the process table after the reaping was there before.
  record Left (q : ℕ) (x : GuestProcess) : Type 0 where
    before : GuestProcess
    found : process k q ≡ some before
    same_pid : x.pid ≡ before.pid
    same_parent : x.parent ≡ before.parent
    not_child : (child_pid == q) ≡ false
    shrunk :
        (c : ℕ)
        → OrdSet.contains c x.children
          ≡ (not (parent_pid == q && child_pid == c) && OrdSet.contains c before.children)

  remaining :
      (q : ℕ) (x : GuestProcess) (b : Bool)
      → (parent_pid == q) ≡ b
      → (if b then some (without_child p) else if child_pid == q then none else process k q)
        ≡ some x
      → Left q x
  remaining q x true h e = record {
    before = p;
    found = ap (process k) (sym ((==_iff parent_pid q).0 h)) ∙ parent;
    same_pid = ground (arith, e);
    same_parent = ground (arith, e);
    not_child = ground (arith, older, h);
    shrunk = λ c. ground (arith, e, h, contains-remove child_pid c p.children);
  }
  remaining q x false h e = record {
    before = x;
    found = ground (arith, e);
    same_pid = refl;
    same_parent = refl;
    not_child = ground (arith, e);
    shrunk = λ c. ground (arith, h);
  }

  remaining_entry : (q : ℕ) (x : GuestProcess) → process reaped q ≡ some x → Left q x
  remaining_entry q x e = remaining q x (parent_pid == q) refl (sym (process-reaped q) ∙ e)

  stays :
      (q : ℕ) (y : GuestProcess)
      → process k q ≡ some y
      → (child_pid == q) ≡ false
      → (x : GuestProcess) × (process reaped q ≡ some x) × (x.parent ≡ y.parent)
  stays q y e h = elim (Bool-cases (parent_pid == q)) [
    | inl same ↦
        (without_child p, ground (arith, same, process-reaped q), ground (arith, same, e, parent))
    | inr other ↦ (y, ground (arith, other, e, h, process-reaped q), refl)
  ]

  -- The child names only its own parent.
  child_parent :
      (y : GuestProcess) (q : ℕ) → process k child_pid ≡ some y → y.parent ≡ some q → q ≡ parent_pid
  child_parent y q e named =
      let (z, found, by) = inv.children parent_pid p child_pid parent listed in
      ground (arith, e, found, by, named)

  reaped_children :
      (q : ℕ) (x : GuestProcess) (c' : ℕ)
      → process reaped q ≡ some x
      → OrdSet.contains c' x.children ≡ true
      → (y : GuestProcess) × (process reaped c' ≡ some y) × (y.parent ≡ some q)
  reaped_children q x c' e l =
      let old = remaining_entry q x e in
      let (y, found, named) =
        inv.children q old.before c' old.found (ground (arith, old.shrunk c', l)) in
      let (z, found', same) = stays c' y found (not_that old y found named) in
      (z, found', same ∙ named)
    where
      not_that :
          (old : Left q x) (y : GuestProcess)
          → process k c' ≡ some y
          → y.parent ≡ some q
          → (child_pid == c') ≡ false
      not_that old y found named = elim (Bool-cases (child_pid == c')) [
        | inl h ↦ ground (
          arith,
          h,
          old.shrunk c',
          l,
          child_parent y q (ap (process k) ((==_iff child_pid c').0 h) ∙ found) named,
        )
        | inr h ↦ h
      ]

  left_owner :
      (t : ℕ) (x : GuestTask)
      → task reaped t ≡ some x
      → (task k t ≡ some x) × ((child_pid == x.pid) ≡ false)
  left_owner t x e = elim (Bool-cases (OrdSet.contains t (tids_of k child_pid))) [
    | inl gone ↦ absurd (ground (arith, gone, e, task-reaped t))
    | inr kept ↦ (
      found kept,
      elim (Bool-cases (child_pid == x.pid)) [
        | inl h ↦ ground (arith, kept, h, among (found kept) h)
        | inr h ↦ h
      ],
    )
  ]
    where
      found : OrdSet.contains t (tids_of k child_pid) ≡ false → task k t ≡ some x
      found kept = ground (arith, kept, e, task-reaped t)

      among :
          task k t ≡ some x
          → (child_pid == x.pid) ≡ true
          → OrdSet.contains t (tids_of k child_pid) ≡ true
      among here h =
          subst (λ u. OrdSet.contains u (tids_of k child_pid) ≡ true) ((inv.task_ids t x here).0)
            (contains-tids_of k child_pid t x here (sym ((==_iff child_pid x.pid).0 h)))

  reaped_ids : (reaped.next_pid ≡ k.next_pid) × (reaped.next_tid ≡ k.next_tid)
  unfolding forget_child drop_process
  reaped_ids = (
    ap (λ (k' : GuestKernel). k'.next_pid) reaped_lem ∙ stripped.same.pids,
    ap (λ (k' : GuestKernel). k'.next_tid) reaped_lem ∙ stripped.same.tids,
  )

  forgotten-IsIndexed : IsIndexed (forget_child (drop_process k child_pid) parent_pid child_pid)
  unfolding forget_child drop_process queued
  forgotten-IsIndexed = record { at = λ q t. ground (arith, stripped.indexed.at q t) }

  reaped-IsIndexed : IsIndexed reaped
  reaped-IsIndexed = subst IsIndexed (sym reaped_lem) forgotten-IsIndexed

  pub reaps-Inv : Inv reaped
  reaps-Inv = record {
    indexed = reaped-IsIndexed;
    task_ids = λ t x e. (
      (inv.task_ids t x (left_owner t x e).0).0,
      omega (arith, (inv.task_ids t x (left_owner t x e).0).1, reaped_ids.1),
    );
    process_ids = λ q x e.
        let old = remaining_entry q x e in
        (
          old.same_pid ∙ (inv.process_ids q old.before old.found).0,
          omega (arith, (inv.process_ids q old.before old.found).1, reaped_ids.0),
        );
    owners = λ t x e.
        let (y, owned) = inv.owners t x (left_owner t x e).0 in
        let (z, found, same) = stays x.pid y owned (left_owner t x e).1 in (z, found);
    children = reaped_children;
    parents = λ c' y q e named.
        let old = remaining_entry c' y e in
        inv.parents c' old.before q old.found (sym old.same_parent ∙ named);
    listed = λ c' y q x e named e'.
        let young = remaining_entry c' y e in
        let old = remaining_entry q x e' in
        ground (
          arith,
          old.shrunk c',
          young.not_child,
          inv.listed c' young.before q old.before young.found (sym young.same_parent ∙ named)
              old.found,
        );
    masks = λ t x e. inv.masks t x (left_owner t x e).0;
  }
