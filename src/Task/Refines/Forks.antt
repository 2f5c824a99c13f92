-- ===== src/Task/Refines/Forks.antt =====
-- Fork, vfork and clone as moves.
use mcr.Prelude.{
  ℕ, ◌+◌, ◌≡◌, refl, Bool, true, false, some, inl, inr, not, ltb, Option-cases, Bool-cases, ◌⊎◌,
}
use mcr.Sys.Args.{CloneSyscallArgs, has_clone_vfork, has_clone_thread}
use mcr.Task.Registers.{GprState, with_syscall_return}
use mcr.Task.Process.{GuestProcess, ExitState, running}
use mcr.Task.Process
use mcr.Task.State.{GuestKernel, GuestTask, waiting_for_vfork}
use mcr.Task.Error.{Result, ok, err, unknown_pid, pid_exhausted, tid_exhausted}
use mcr.Task.Kernel.{process, task, edit_task, max_id, allocate_pid, allocate_tid}
use mcr.Task.Clone.{
  fork_from, fork_with_pid, fork_with_tid, thread_with_tid, fork_child_task, finish_fork,
  fork_like_current_and_maybe_block_parent,
  fork_like_current_with_child_regs_and_maybe_block_parent, fork_like_current, vfork_current,
  thread_from, thread_task, thread_current_with_child_regs, clone_current_with_child_regs,
  clone_current_with_return, is_supported_thread_clone, is_supported_fork_like_clone,
  with_child_stack,
}
use mcr.Task.Moves.{
  Moves, done, next, uses_pid, forks, spawns, Moves-trans, Moves-edit_task, Moves-set_state,
}
use mcr.Task.Refines.Signals.{Moves-if}

-- A pid is handed out and counted, or the ids are used up.
allocate_pid-cases :
    (k : GuestKernel)
    → (allocate_pid k ≡ (ok k.next_pid, record k { next_pid = k.next_pid + 1 }))
      ⊎ (allocate_pid k ≡ (err pid_exhausted, k))
unfolding allocate_pid
allocate_pid-cases k = elim (Bool-cases (ltb k.next_pid max_id)) [
  | inl a ↦ inl (rw (a, allocate_pid) refl)
  | inr a ↦ inr (rw (a, allocate_pid) refl)
]

allocate_tid-cases :
    (k : GuestKernel)
    → (allocate_tid k ≡ (ok k.next_tid, record k { next_tid = k.next_tid + 1 }))
      ⊎ (allocate_tid k ≡ (err tid_exhausted, k))
unfolding allocate_tid
allocate_tid-cases k = elim (Bool-cases (ltb k.next_tid max_id)) [
  | inl a ↦ inl (rw (a, allocate_tid) refl)
  | inr a ↦ inr (rw (a, allocate_tid) refl)
]

fork_from-Moves :
    (tid : ℕ) (t : GuestTask) (p : GuestProcess) (k : GuestKernel)
    → task k tid ≡ some t
    → process k t.pid ≡ some p
    → Moves k (fork_from t p k).1
unfolding fork_from fork_with_pid fork_with_tid
fork_from-Moves tid t p k caller owner = elim (allocate_pid-cases k) [
  | inr a ↦ rw (a, fork_from) done
  | inl a ↦ elim (allocate_tid-cases (record k { next_pid = k.next_pid + 1 })) [
    | inr b ↦ rw (a, b, fork_from) (next done (uses_pid refl))
    | inl b ↦ rw (a, b, fork_from) (next done (forks tid t p caller owner refl))
  ]
]

pub fork_child_task-Moves : (tid : ℕ) (k : GuestKernel) → Moves k (fork_child_task tid k).1
unfolding fork_child_task
fork_child_task-Moves tid k = elim (Option-cases (task k tid)) [
  | inl e ↦ rw (e, fork_child_task) done
  | inr (t, e) ↦ elim (Option-cases (process k t.pid)) [
    | inl f ↦ rw (e, f, fork_child_task) done
    | inr (p, f) ↦ rw (e, f, fork_child_task) (alive t p e f p.exit_state)
  ]
]
  where
    alive :
        (t : GuestTask) (p : GuestProcess)
        → task k tid ≡ some t
        → process k t.pid ≡ some p
        → (s : ExitState)
        → Moves k
            (elim s as (λ _. Result (ℕ × ℕ) × GuestKernel) [
              | running ↦ fork_from t p k
              | Process.exited status ↦ (err (unknown_pid t.pid), k)
            ]).1
    alive t p e f running = fork_from-Moves tid t p k e f
    alive t p e f (Process.exited status) = done

finish_fork-Moves :
    (tid : ℕ) (regs : GprState → GprState) (blocks : Bool) (r : Result (ℕ × ℕ)) (k : GuestKernel)
    → Moves k (finish_fork tid regs blocks (r, k)).1
unfolding finish_fork
finish_fork-Moves tid regs blocks (err e) k = done
finish_fork-Moves tid regs blocks (ok (child_pid, child_tid)) k =
    Moves-if blocks (Moves-set_state ready tid (waiting_for_vfork child_pid)) ready
  where
    ready : Moves k (edit_task child_tid (λ t. record t { regs = regs t.regs }) k)
    ready =
        Moves-edit_task done child_tid _
          (λ x _. record { tid = refl; pid = refl; state = refl; mask = λ h. h })

forked-Moves :
    (tid : ℕ) (regs : GprState → GprState) (blocks : Bool) (k : GuestKernel)
    → Moves k (finish_fork tid regs blocks (fork_child_task tid k)).1
forked-Moves tid regs blocks k =
    Moves-trans (fork_child_task-Moves tid k)
      (finish_fork-Moves tid regs blocks (fork_child_task tid k).0 (fork_child_task tid k).1)

pub fork_like_current-Moves :
    (tid return_rip : ℕ) (k : GuestKernel) → Moves k (fork_like_current tid return_rip k).1
unfolding fork_like_current fork_like_current_and_maybe_block_parent
fork_like_current-Moves tid return_rip k =
    forked-Moves tid (λ regs. with_syscall_return regs return_rip 0) false k

pub vfork_current-Moves : (tid : ℕ) (k : GuestKernel) → Moves k (vfork_current tid k).1
unfolding vfork_current fork_like_current_and_maybe_block_parent
vfork_current-Moves tid k = forked-Moves tid (λ regs. with_syscall_return regs _ 0) true k

fork_with_regs-Moves :
    (tid : ℕ) (regs : GprState) (blocks : Bool) (k : GuestKernel)
    → Moves k (fork_like_current_with_child_regs_and_maybe_block_parent tid regs blocks k).1
unfolding fork_like_current_with_child_regs_and_maybe_block_parent
fork_with_regs-Moves tid regs blocks k = forked-Moves tid (λ _. regs) blocks k

thread_from-Moves :
    (tid : ℕ) (t : GuestTask) (p : GuestProcess) (args : CloneSyscallArgs) (regs : GprState)
    (k : GuestKernel)
    → task k tid ≡ some t
    → process k t.pid ≡ some p
    → Moves k (thread_from t args regs k).1
unfolding thread_from thread_with_tid thread_task
thread_from-Moves tid t p args regs k caller owner = elim (allocate_tid-cases k) [
  | inr a ↦ rw (a, thread_from) done
  | inl a ↦
      rw (a, thread_from)
        (next done
          (spawns tid t (thread_task t args k.next_tid regs) p caller owner refl refl refl refl))
]

pub thread_current-Moves :
    (tid : ℕ) (args : CloneSyscallArgs) (regs : GprState) (k : GuestKernel)
    → Moves k (thread_current_with_child_regs tid args regs k).1
unfolding thread_current_with_child_regs
thread_current-Moves tid args regs k =
    elim (Bool-cases (not (is_supported_thread_clone args.flags))) [
      | inl s ↦ rw (s, thread_current_with_child_regs) done
      | inr s ↦ elim (Option-cases (task k tid)) [
        | inl e ↦ rw (s, e, thread_current_with_child_regs) done
        | inr (t, e) ↦ elim (Option-cases (process k t.pid)) [
          | inl f ↦ rw (s, e, f, thread_current_with_child_regs) done
          | inr (p, f) ↦
              rw (s, e, f, thread_current_with_child_regs)
                (thread_from-Moves tid t p args regs k e f)
        ]
      ]
    ]

pub clone_current_with_child_regs-Moves :
    (tid : ℕ) (args : CloneSyscallArgs) (regs : GprState) (k : GuestKernel)
    → Moves k (clone_current_with_child_regs tid args regs k).1
unfolding clone_current_with_child_regs
clone_current_with_child_regs-Moves tid args regs k = elim (Bool-cases (has_clone_thread args)) [
  | inl a ↦ rw (a, clone_current_with_child_regs) (thread_current-Moves tid args regs k)
  | inr a ↦ elim (Bool-cases (not (is_supported_fork_like_clone args.flags))) [
    | inl b ↦ rw (a, b, clone_current_with_child_regs) done
    | inr b ↦
        rw (a, b, clone_current_with_child_regs)
          (fork_with_regs-Moves tid (with_child_stack args.child_stack regs) (has_clone_vfork args)
            k)
  ]
]

pub clone_current_with_return-Moves :
    (tid : ℕ) (args : CloneSyscallArgs) (return_rip : ℕ) (k : GuestKernel)
    → Moves k (clone_current_with_return tid args return_rip k).1
unfolding clone_current_with_return
clone_current_with_return-Moves tid args return_rip k = elim (Bool-cases (has_clone_thread args)) [
  | inl a ↦ elim (Option-cases (task k tid)) [
    | inl e ↦ rw (a, e, clone_current_with_return) done
    | inr (t, e) ↦
        rw (a, e, clone_current_with_return)
          (thread_current-Moves tid args (with_syscall_return t.regs return_rip 0) k)
  ]
  | inr a ↦ elim (Bool-cases (not (is_supported_fork_like_clone args.flags))) [
    | inl b ↦ rw (a, b, clone_current_with_return) done
    | inr b ↦ elim (Option-cases (task k tid)) [
      | inl e ↦ rw (a, b, e, clone_current_with_return) done
      | inr (t, e) ↦
          rw (a, b, e, clone_current_with_return)
            (fork_with_regs-Moves tid
              (with_child_stack args.child_stack (with_syscall_return t.regs return_rip 0))
              (has_clone_vfork args) k)
    ]
  ]
]
