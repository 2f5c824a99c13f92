-- ===== src/Task/Invariant/Fork.antt =====
-- A fork keeps the invariant: the child is new, runnable and its parent's youngest.
use mcr.Prelude.{
  ℕ, ◌+◌, ◌<◌, ◌≤◌, ◌≡◌, ◌⊎◌, inl, inr, refl, sym, ap, ◌∙◌, some, arith, ◌==◌, ==_iff, ◌&&◌, ◌||◌,
  if◌then◌else◌, Bool, true, false, Bool-cases,
}
use mcr.Prelude.OrdMap
use mcr.Prelude.OrdMap.{nat_key, get-insert, get-modify}
use mcr.Prelude.OrdSet
use mcr.Prelude.OrdSet.{contains-insert}
use mcr.Task.Process.{GuestProcess}
use mcr.Task.State.{GuestKernel, GuestTask}
use mcr.Task.Kernel.{process, task, insert_task}
use mcr.Task.Index.{IsIndexed, queued, SameTables}
use mcr.Task.Index.Entries.{insert_task-IsIndexed, insert_task-SameTables, task-insert_task}
use mcr.Task.Clone.{install_child, forked_process, forked_task}
use mcr.Task.Moves.{MaskOk}
use mcr.Task.Invariant.{Inv}
use mcr.Task.Invariant.Growth.{fresh_task, same_queues}

module _ (k : GuestKernel) (tid : ℕ) (t : GuestTask) (p : GuestProcess) (inv : Inv k)
    (caller : task k tid ≡ some t) (owner : process k t.pid ≡ some p) where
  abbrev pub forked : GuestKernel
  forked =
      install_child t p k.next_pid k.next_tid
        (record k { next_pid = k.next_pid + 1; next_tid = k.next_tid + 1 })

  abbrev child : GuestProcess
  child = forked_process p t.pid k.next_pid

  abbrev child_task : GuestTask
  child_task = forked_task t k.next_pid k.next_tid

  abbrev with_child : GuestKernel
  with_child = record k {
    next_pid = k.next_pid + 1;
    next_tid = k.next_tid + 1;
    processes = OrdMap.insert k.next_pid child k.processes;
  }

  abbrev add_child : GuestProcess → GuestProcess
  add_child x = record x { children = OrdSet.insert k.next_pid x.children }

  tables : SameTables with_child (insert_task with_child child_task)
  tables = insert_task-SameTables with_child child_task

  parent_older : t.pid < k.next_pid
  parent_older = (inv.process_ids t.pid p owner).1

  -- The process table with the child: its entry under the next pid, the parent's with one child
  -- more, and every other as it was.
  pub process-forked :
      (q : ℕ)
      → process forked q ≡ (
          if k.next_pid == q
          then some child
          else if t.pid == q
          then some (add_child p)
          else process k q)
  unfolding install_child
  process-forked q = ground (
    arith,
    owner,
    parent_older,
    tables.processes,
    ap (OrdMap.get q) tables.processes,
    get-modify t.pid q add_child (insert_task with_child child_task).processes,
    get-insert k.next_pid q child k.processes,
  )

  -- The task table with the child's task under the next tid.
  pub task-forked :
      (u : ℕ) → task forked u ≡ (if k.next_tid == u then some child_task else task k u)
  unfolding install_child forked_task
  task-forked u = task-insert_task with_child child_task u

  -- An entry of the process table after the fork: the child, or one that was there.
  record Old (q : ℕ) (x : GuestProcess) : Type 0 where
    before : GuestProcess
    found : process k q ≡ some before
    same_pid : x.pid ≡ before.pid
    same_parent : x.parent ≡ before.parent
    grown :
        (c : ℕ)
        → OrdSet.contains c x.children
          ≡ ((t.pid == q && k.next_pid == c) || OrdSet.contains c before.children)

  earlier :
      (q : ℕ) (x : GuestProcess) (b : Bool)
      → (t.pid == q) ≡ b
      → (if b then some (add_child p) else process k q) ≡ some x
      → Old q x
  earlier q x true h e = record {
    before = p;
    found = ap (process k) (sym ((==_iff t.pid q).0 h)) ∙ owner;
    same_pid = ground (arith, e);
    same_parent = ground (arith, e);
    grown = λ c. ground (arith, e, h, contains-insert k.next_pid c p.children);
  }
  earlier q x false h e = record {
    before = x;
    found = e;
    same_pid = refl;
    same_parent = refl;
    grown = λ c. ground (arith, h);
  }

  entry :
      (q : ℕ) (x : GuestProcess)
      → process forked q ≡ some x
      → ((k.next_pid ≡ q) × (x ≡ child)) ⊎ Old q x
  entry q x e = elim (Bool-cases (k.next_pid == q)) [
    | inl h ↦ inl ((==_iff k.next_pid q).0 h, ground (arith, h, sym (process-forked q) ∙ e))
    | inr h ↦ inr (earlier q x (t.pid == q) refl (ground (arith, h, sym (process-forked q) ∙ e)))
  ]

  kept_entry :
      (q : ℕ) (y : GuestProcess)
      → process k q ≡ some y
      → (x : GuestProcess) × (process forked q ≡ some x) × (x.parent ≡ y.parent)
  kept_entry q y e = elim (Bool-cases (t.pid == q)) [
    | inl h ↦ (
      add_child p,
      ground (arith, h, parent_older, process-forked q),
      ground (arith, h, e, owner),
    )
    | inr h ↦ (y, ground (arith, h, e, (inv.process_ids q y e).1, process-forked q), refl)
  ]

  forked_children :
      (q : ℕ) (x : GuestProcess) (c : ℕ)
      → process forked q ≡ some x
      → OrdSet.contains c x.children ≡ true
      → (y : GuestProcess) × (process forked c ≡ some y) × (y.parent ≡ some q)
  unfolding forked_process OrdSet.contains
  forked_children q x c e listed = elim (entry q x e) [
    | inl (h, same) ↦ absurd (ground (arith, same, listed))
    | inr old ↦ elim (Bool-cases (t.pid == q && k.next_pid == c)) [
      | inl new ↦ (child, ground (arith, new, process-forked c), ground (arith, new))
      | inr other ↦
          let (y, found, parent) =
            inv.children q old.before c old.found (ground (arith, other, old.grown c, listed)) in
          let (z, found', same) = kept_entry c y found in (z, found', same ∙ parent)
    ]
  ]

  forked_parents :
      (c : ℕ) (y : GuestProcess) (q : ℕ) → process forked c ≡ some y → y.parent ≡ some q → q < c
  unfolding forked_process
  forked_parents c y q e parent = elim (entry c y e) [
    | inl (h, same) ↦ ground (arith, same, parent, h, parent_older)
    | inr old ↦ inv.parents c old.before q old.found (sym old.same_parent ∙ parent)
  ]

  forked_listed :
      (c : ℕ) (y : GuestProcess) (q : ℕ) (x : GuestProcess)
      → process forked c ≡ some y
      → y.parent ≡ some q
      → process forked q ≡ some x
      → OrdSet.contains c x.children ≡ true
  unfolding forked_process
  forked_listed c y q x e parent e' = elim (entry q x e') [
    | inl (h, _) ↦ absurd (omega (arith, forked_parents c y q e parent, h, c_bound))
    | inr old ↦ elim (entry c y e) [
      | inl (h, same) ↦ ground (arith, h, same, parent, old.grown c)
      | inr young ↦ ground (
        arith,
        old.grown c,
        inv.listed c young.before q old.before young.found (sym young.same_parent ∙ parent)
            old.found,
      )
    ]
  ]
    where
      c_bound : c ≤ k.next_pid
      c_bound = elim (entry c y e) [
        | inl (h, _) ↦ omega (arith, h)
        | inr young ↦ omega (arith, (inv.process_ids c young.before young.found).1)
      ]

  forked_tasks :
      (u : ℕ) (x : GuestTask)
      → task forked u ≡ some x
      → (x.tid ≡ u)
        × (u < k.next_tid + 1)
        × ((y : GuestProcess) × (process forked x.pid ≡ some y))
        × MaskOk x.signal_mask
  unfolding forked_task
  forked_tasks u x e = elim (Bool-cases (k.next_tid == u)) [
    | inl h ↦ new_entry ((==_iff k.next_tid u).0 h) (ground (arith, h, sym (task-forked u) ∙ e))
    | inr h ↦ old_entry (ground (arith, h, sym (task-forked u) ∙ e))
  ]
    where
      new_entry :
          k.next_tid ≡ u
          → child_task ≡ x
          → (x.tid ≡ u)
            × (u < k.next_tid + 1)
            × ((y : GuestProcess) × (process forked x.pid ≡ some y))
            × MaskOk x.signal_mask
      new_entry h same = (
        ap (λ (a : GuestTask). a.tid) (sym same) ∙ h,
        omega (arith, h),
        (
          child,
          ap (process forked) (ap (λ (a : GuestTask). a.pid) (sym same))
              ∙ process-forked k.next_pid
              ∙ ground arith,
        ),
        rw (← same) (inv.masks tid t caller),
      )

      old_entry :
          task k u ≡ some x
          → (x.tid ≡ u)
            × (u < k.next_tid + 1)
            × ((y : GuestProcess) × (process forked x.pid ≡ some y))
            × MaskOk x.signal_mask
      old_entry found =
          let (y, owned) = inv.owners u x found in
          let (z, owned', _) = kept_entry x.pid y owned in
          (
            (inv.task_ids u x found).0,
            omega (arith, (inv.task_ids u x found).1),
            (z, owned'),
            inv.masks u x found,
          )

  child_pid : child.pid ≡ k.next_pid
  unfolding forked_process
  child_pid = refl

  pub forked_ids : (forked.next_pid ≡ k.next_pid + 1) × (forked.next_tid ≡ k.next_tid + 1)
  unfolding install_child
  forked_ids = (tables.pids, tables.tids)

  forked-IsIndexed : IsIndexed forked
  unfolding install_child queued forked_task
  forked-IsIndexed = record { at = λ q u. ground (arith, with_task.at q u) }
    where
      with_task : IsIndexed (insert_task with_child child_task)
      with_task =
          insert_task-IsIndexed with_child child_task (fresh_task inv)
            (same_queues k (k.next_pid + 1) (k.next_tid + 1) with_child.processes inv.indexed)

  pub forks-Inv : Inv forked
  forks-Inv = record {
    indexed = forked-IsIndexed;
    task_ids =
        λ u x e. ((forked_tasks u x e).0, omega (arith, (forked_tasks u x e).1, forked_ids.1));
    process_ids = forked_process_ids;
    owners = λ u x e. (forked_tasks u x e).2;
    children = forked_children;
    parents = forked_parents;
    listed = forked_listed;
    masks = λ u x e. (forked_tasks u x e).3;
  }
    where
      forked_process_ids :
          (q : ℕ) (x : GuestProcess)
          → process forked q ≡ some x
          → (x.pid ≡ q) × (q < forked.next_pid)
      forked_process_ids q x e = elim (entry q x e) [
        | inl (h, same) ↦
            (ap (λ (a : GuestProcess). a.pid) same ∙ child_pid ∙ h, omega (arith, h, forked_ids.0))
        | inr old ↦ (
          old.same_pid ∙ (inv.process_ids q old.before old.found).0,
          omega (arith, (inv.process_ids q old.before old.found).1, forked_ids.0),
        )
      ]
