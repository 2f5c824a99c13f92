-- ===== src/Task/Boot.antt =====
-- The kernel that `GuestKernel::new` gives is well formed.
use mcr.Prelude.{
  ℕ, ◌+◌, ◌<◌, ◌≡◌, refl, sym, subst, Bool, true, false, Option, none, some, inl, inr, List, [],
  ◌∷◌, arith, ◌==◌, ltb,
}
use mcr.Prelude.OrdMap
use mcr.Prelude.OrdSet
use mcr.Prelude.OrdMap.{nat_key}
use mcr.Task.Program.{GuestProgram, GuestImageState}
use mcr.Task.Process.{GuestProcess}
use mcr.Task.State.{GuestKernel, GuestTask, runnable}
use mcr.Task.Error.{ok, Result-cases}
use mcr.Task.Kernel.{
  Loader, load_program, process, task, empty_kernel, install_initial, create_initial_process,
  new_kernel, insert_task, allocate_pid, allocate_tid, index_task_state, futex_waiters,
}
use mcr.Task.Index.{Queue, runnables, child_waits, fd_waits, futex_waits, in_queue, queued}
use mcr.Task.Invariant.{Inv}

-- The first kernel: process 1 with task 1.
abbrev pub first_kernel : GuestImageState → GuestKernel
first_kernel image = install_initial (record empty_kernel { next_pid = 2; next_tid = 2 }) 1 1 image

module _ (image : GuestImageState) where
  first_task :
      (t : ℕ) (x : GuestTask)
      → task (first_kernel image) t ≡ some x
      → (t ≡ 1) × (x.tid ≡ 1) × (x.pid ≡ 1) × (x.signal_mask ≡ 0) × (x.state ≡ runnable)
  unfolding install_initial insert_task index_task_state OrdMap.get OrdMap.insert
  first_task t x e = ground (arith, e)

  first_process :
      (p : ℕ) (x : GuestProcess)
      → process (first_kernel image) p ≡ some x
      → (p ≡ 1) × (x.pid ≡ 1) × (x.parent ≡ none) × (x.children ≡ [])
  unfolding install_initial insert_task index_task_state OrdMap.get OrdMap.insert
  first_process p x e = ground (arith, e)

  first_owner : (p : GuestProcess) × (process (first_kernel image) 1 ≡ some p)
  unfolding install_initial insert_task index_task_state OrdMap.get OrdMap.insert
  first_owner = (_, refl)

  first_at :
      (q : Queue) (t : ℕ)
      → queued q (first_kernel image) t
        ≡ mcr.Prelude.holds (λ (x : GuestTask). in_queue q x.state) (task (first_kernel image) t)
  unfolding install_initial insert_task index_task_state OrdMap.get OrdMap.insert queued in_queue
      OrdSet.contains OrdSet.insert futex_waiters
  first_at runnables t = ground arith
  first_at child_waits t = ground arith
  first_at fd_waits t = ground arith
  first_at (futex_waits key) t = ground arith

  pub first_kernel-Inv : Inv (first_kernel image)
  unfolding install_initial insert_task index_task_state OrdMap.get OrdMap.insert OrdSet.contains
  first_kernel-Inv = record {
    indexed = record { at = first_at };
    task_ids = λ t x e. ground (arith, first_task t x e);
    process_ids = λ p x e. ground (arith, first_process p x e);
    owners = λ t x e.
        subst (λ pid. (p : GuestProcess) × (process (first_kernel image) pid ≡ some p))
          (sym (first_task t x e).2) first_owner;
    children = λ p x c e h. absurd (ground (arith, first_process p x e, h));
    parents = λ c y p e h. absurd (ground (arith, first_process c y e, h));
    listed = λ c y p x e h _. absurd (ground (arith, first_process c y e, h));
    masks = λ t x e. ground (arith, first_task t x e);
  }

-- A kernel that `GuestKernel::new` gives without an error has well-formed tables.
pub new_kernel-Inv :
    (loader : Loader) (program : GuestProgram) (k : GuestKernel)
    → new_kernel loader program ≡ ok k
    → Inv k
unfolding new_kernel create_initial_process allocate_pid allocate_tid
new_kernel-Inv loader program k h = elim (Result-cases (load_program loader program)) [
  | inr (x, e) ↦ absurd (ground (arith, h, e))
  | inl (image, e) ↦ subst Inv (ground (arith, h, e)) (first_kernel-Inv image)
]
