-- ===== src/Task/Refines/Ends.antt =====
-- The ends of tasks and processes, and exec, as moves.
use mcr.Prelude.{ℕ, ◌≡◌, refl, inl, inr, Option-cases, ℤ}
use mcr.Sys.Args.{linux_sigchld}
use mcr.Task.Program.{GuestProgram, GuestImageState}
use mcr.Task.Process
use mcr.Task.State.{GuestKernel, runnable, exited}
use mcr.Task.Error.{Result, ok, err, Result-cases}
use mcr.Task.Kernel.{Loader, load_program, process, task, edit_process, set_state, set_states}
use mcr.Task.Wait.{tids_of}
use mcr.Prelude.OrdMap.{select}
use mcr.Task.Exit.{
  vfork_waiter, resume_vfork_parent, parent_of, finish_process, all_exited, exit_task, exit_group,
}
use mcr.Task.Exec.{enter_image, exec_task, exec_reply, execve_current}
use mcr.Task.Moves.{
  Moves, done, Moves-trans, Moves-edit_task, Moves-edit_process, Moves-set_state, Moves-set_states,
}
use mcr.Task.Refines.Signals.{queue_process_signal-Moves, Moves-if}

pub resume_vfork_parent-Moves :
    (child_pid : ℕ) (k : GuestKernel) → Moves k (resume_vfork_parent child_pid k)
unfolding resume_vfork_parent
resume_vfork_parent-Moves child_pid k = elim (Option-cases (process k child_pid)) [
  | inl e ↦ rw (e, resume_vfork_parent) done
  | inr (child, e) ↦ elim (Option-cases child.parent) [
    | inl p ↦ rw (e, p, resume_vfork_parent) done
    | inr (parent_pid, p) ↦
        rw (e, p, resume_vfork_parent)
          (Moves-set_states (select (vfork_waiter parent_pid child_pid) k.tasks) runnable done)
  ]
]

pub finish_process-Moves :
    (pid : ℕ) (status : ℤ) (k : GuestKernel) → Moves k (finish_process pid status k)
unfolding finish_process
finish_process-Moves pid status k = elim (Option-cases (parent_of k pid)) [
  | inl e ↦ rw (e, finish_process) resumed
  | inr (parent_pid, e) ↦
      rw (e, finish_process)
        (Moves-trans resumed (queue_process_signal-Moves parent_pid linux_sigchld _))
]
  where
    ended : GuestKernel
    ended = edit_process pid (λ p. record p { exit_state = Process.exited status }) k

    resumed : Moves k (resume_vfork_parent pid ended)
    resumed =
        Moves-trans
          (Moves-edit_process done pid _
            (λ p. record { pid = refl; parent = refl; children = refl }))
          (resume_vfork_parent-Moves pid ended)

pub exit_task-Moves : (tid : ℕ) (status : ℤ) (k : GuestKernel) → Moves k (exit_task tid status k).1
unfolding exit_task
exit_task-Moves tid status k = elim (Option-cases (task k tid)) [
  | inl e ↦ rw (e, exit_task) done
  | inr (t, e) ↦
      rw (e, exit_task)
        (Moves-if (all_exited (set_state k tid (exited status)) t.pid)
          (Moves-trans (Moves-set_state done tid (exited status))
            (finish_process-Moves t.pid status (set_state k tid (exited status))))
          (Moves-set_state done tid (exited status)))
]

pub exit_group-Moves :
    (pid : ℕ) (status : ℤ) (k : GuestKernel) → Moves k (exit_group pid status k).1
unfolding exit_group
exit_group-Moves pid status k = elim (Option-cases (process k pid)) [
  | inl e ↦ rw (e, exit_group) done
  | inr (p, e) ↦
      rw (e, exit_group)
        (Moves-trans (Moves-set_states (tids_of k pid) (exited status) done)
          (finish_process-Moves pid status (set_states k (tids_of k pid) (exited status))))
]

enter_image-Moves :
    (tid pid : ℕ) (image : GuestImageState) (k : GuestKernel)
    → Moves k (enter_image tid pid image k)
unfolding enter_image
enter_image-Moves tid pid image k =
    Moves-trans
      (Moves-set_state
        (Moves-edit_task
          (Moves-edit_process done pid _
            (λ p. record { pid = refl; parent = refl; children = refl }))
          tid _ (λ x _. record { tid = refl; pid = refl; state = refl; mask = λ h. h }))
        tid runnable)
      (resume_vfork_parent-Moves pid _)

pub exec_task-Moves :
    (loader : Loader) (tid : ℕ) (program : GuestProgram) (k : GuestKernel)
    → Moves k (exec_task loader tid program k).1
unfolding exec_task
exec_task-Moves loader tid program k = elim (Option-cases (task k tid)) [
  | inl e ↦ rw (e, exec_task) done
  | inr (t, e) ↦ elim (Result-cases (load_program loader program)) [
    | inr (x, f) ↦ rw (e, f, exec_task) done
    | inl (image, f) ↦ elim (Option-cases (process k t.pid)) [
      | inl p ↦ rw (e, f, p, exec_task) done
      | inr (x, p) ↦ rw (e, f, p, exec_task) (enter_image-Moves tid t.pid image k)
    ]
  ]
]

exec_reply-same : (r : Result (Unit {0})) (k : GuestKernel) → (exec_reply (r, k)).1 ≡ k
unfolding exec_reply
exec_reply-same (ok x) k = refl
exec_reply-same (err e) k = refl

pub execve-Moves :
    (loader : Loader) (tid : ℕ) (program : GuestProgram) (k : GuestKernel)
    → Moves k (execve_current loader tid program k).1
unfolding execve_current
execve-Moves loader tid program k =
    rw (execve_current, exec_reply-same ran.0 ran.1) (exec_task-Moves loader tid program k)
  where
    ran : Result (Unit {0}) × GuestKernel
    ran = exec_task loader tid program k
