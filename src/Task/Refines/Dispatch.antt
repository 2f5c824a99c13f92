-- ===== src/Task/Refines/Dispatch.antt =====
-- The dispatcher as moves.
use mcr.Prelude.{
  ℕ, ◌≡◌, refl, false, Option, some, inl, inr, not, ◌&&◌, ◌==◌, Option-cases, Bool-cases,
}
use mcr.Sys.Errno.{esrch}
use mcr.Sys.Return.{SyscallOutcome, fail_with}
use mcr.Task.Process.{GuestProcess}
use mcr.Task.State.{GuestKernel, GuestTask}
use mcr.Task.Kernel.{Loader, process, task}
use mcr.Task.Syscalls.{
  Syscall, SyscallRequest, id_or, is_parent, set_group, setpgid_current, setsid_current, arch_prctl,
  arch_set_fs, arch_set_gs, arch_get_fs, arch_get_gs, with_process, program_of, dispatch_syscall,
  dispatch_for_current_task, low_exit_status,
}
use mcr.Task.Moves.{Moves, done, Moves-edit_task, Moves-edit_process}
use mcr.Task.Refines.Calls.{rt_sigaction_current-Moves, rt_sigprocmask_current-Moves}
use mcr.Task.Refines.Sends.{
  kill-Moves, tkill-Moves, tgkill-Moves, set_tid_address-Moves, set_robust_list-Moves,
  rt_sigtimedwait-Moves,
}
use mcr.Task.Refines.Ends.{exit_task-Moves, exit_group-Moves, execve-Moves}
use mcr.Task.Refines.Forks.{
  fork_like_current-Moves, vfork_current-Moves, clone_current_with_return-Moves,
}
use mcr.Task.Refines.Waits.{wait4_current_with_return-Moves}

set_group-Moves :
    (current_pid pid pgid : ℕ) (k : GuestKernel) → Moves k (set_group current_pid pid pgid k).1
unfolding set_group
set_group-Moves current_pid pid pgid k = elim (Option-cases (process k pid)) [
  | inl e ↦ rw (e, set_group) done
  | inr (p, e) ↦
      elim (Bool-cases (not (is_parent current_pid p.parent) && not (pid == current_pid))) [
        | inl f ↦ rw (e, f, set_group) done
        | inr f ↦
            rw (e, f, set_group)
              (Moves-edit_process done pid _
                (λ x. record { pid = refl; parent = refl; children = refl }))
      ]
]

pub setpgid-Moves :
    (current_pid raw_pid raw_pgid : ℕ) (k : GuestKernel)
    → Moves k (setpgid_current current_pid raw_pid raw_pgid k).1
unfolding setpgid_current
setpgid-Moves current_pid raw_pid raw_pgid k = elim (Option-cases (id_or current_pid raw_pid)) [
  | inl e ↦ rw (e, setpgid_current) done
  | inr (pid, e) ↦ elim (Option-cases (id_or pid raw_pgid)) [
    | inl f ↦ rw (e, f, setpgid_current) done
    | inr (pgid, f) ↦ rw (e, f, setpgid_current) (set_group-Moves current_pid pid pgid k)
  ]
]

pub setsid-Moves : (pid : ℕ) (k : GuestKernel) → Moves k (setsid_current pid k).1
unfolding setsid_current
setsid-Moves pid k = elim (Option-cases (process k pid)) [
  | inl e ↦ rw (e, setsid_current) done
  | inr (p, e) ↦
      rw (e, setsid_current)
        (Moves-edit_process done pid _ (λ x. record { pid = refl; parent = refl; children = refl }))
]

pub arch_prctl-Moves :
    (tid code address : ℕ) (k : GuestKernel) → Moves k (arch_prctl tid code address k).1
unfolding arch_prctl
arch_prctl-Moves tid code address k = elim (Option-cases (task k tid)) [
  | inl e ↦ rw (e, arch_prctl) done
  | inr (t, e) ↦ elim (Bool-cases (code == arch_set_fs)) [
    | inl a ↦
        rw (e, a, arch_prctl)
          (Moves-edit_task done tid _
            (λ x _. record { tid = refl; pid = refl; state = refl; mask = λ h. h }))
    | inr a ↦ elim (Bool-cases (code == arch_set_gs)) [
      | inl b ↦
          rw (e, a, b, arch_prctl)
            (Moves-edit_task done tid _
              (λ x _. record { tid = refl; pid = refl; state = refl; mask = λ h. h }))
      | inr b ↦ elim (Bool-cases (code == arch_get_fs)) [
        | inl c ↦ rw (e, a, b, c, arch_prctl) done
        | inr c ↦ elim (Bool-cases (code == arch_get_gs)) [
          | inl d ↦ rw (e, a, b, c, d, arch_prctl) done
          | inr d ↦ rw (e, a, b, c, d, arch_prctl) done
        ]
      ]
    ]
  ]
]

-- A reply was given, and the kernel after it is reached by moves.
pub record Replies (k : GuestKernel) (o : Option (SyscallOutcome × GuestKernel)) : Type 0 where
  pub reply : SyscallOutcome × GuestKernel
  pub given : o ≡ some reply
  pub moves : Moves k reply.1

replies : {k : GuestKernel} (r : SyscallOutcome × GuestKernel) → Moves k r.1 → Replies k (some r)
replies r ms = record { reply = r; given = refl; moves = ms }

with_process-Replies :
    (k : GuestKernel) (pid : ℕ) (reply : GuestProcess → SyscallOutcome × GuestKernel)
    (p : GuestProcess)
    → process k pid ≡ some p
    → Moves k (reply p).1
    → Replies k (with_process k pid reply)
unfolding with_process
with_process-Replies k pid reply p e ms = rw (e, with_process) (replies (reply p) ms)

pub dispatch_syscall-Replies :
    (loader : Loader) (r : SyscallRequest) (t : GuestTask) (k : GuestKernel) (p : GuestProcess)
    → process k t.pid ≡ some p
    → (s : Syscall) → Replies k (dispatch_syscall loader r t k s)
unfolding dispatch_syscall
dispatch_syscall-Replies loader r t k p e Syscall.getppid = with_process-Replies k t.pid _ p e done
dispatch_syscall-Replies loader r t k p e Syscall.getpgrp = with_process-Replies k t.pid _ p e done
dispatch_syscall-Replies loader r t k p e Syscall.setpgid =
    replies _ (setpgid-Moves t.pid r.arg0 r.arg1 k)
dispatch_syscall-Replies loader r t k p e Syscall.setsid = replies _ (setsid-Moves t.pid k)
dispatch_syscall-Replies loader r t k p e Syscall.fork =
    replies _ (fork_like_current-Moves r.tid _ k)
dispatch_syscall-Replies loader r t k p e Syscall.vfork = replies _ (vfork_current-Moves r.tid k)
dispatch_syscall-Replies loader r t k p e Syscall.clone =
    replies _ (clone_current_with_return-Moves r.tid _ _ k)
dispatch_syscall-Replies loader r t k p e Syscall.exit =
    replies _ (exit_task-Moves r.tid (low_exit_status r.arg0) k)
dispatch_syscall-Replies loader r t k p e Syscall.exit_group_call =
    replies _ (exit_group-Moves t.pid (low_exit_status r.arg0) k)
dispatch_syscall-Replies loader r t k p e Syscall.wait4 =
    replies _ (wait4_current_with_return-Moves r.tid _ _ k)
dispatch_syscall-Replies loader r t k p e Syscall.rt_sigaction =
    replies _ (rt_sigaction_current-Moves r.tid _ k)
dispatch_syscall-Replies loader r t k p e Syscall.rt_sigprocmask =
    replies _ (rt_sigprocmask_current-Moves r.tid _ k)
dispatch_syscall-Replies loader r t k p e Syscall.rt_sigtimedwait =
    replies _ (rt_sigtimedwait-Moves r.tid 0 r.arg3 false k)
dispatch_syscall-Replies loader r t k p e Syscall.kill = replies _ (kill-Moves _ k)
dispatch_syscall-Replies loader r t k p e Syscall.tkill = replies _ (tkill-Moves _ k)
dispatch_syscall-Replies loader r t k p e Syscall.tgkill = replies _ (tgkill-Moves _ k)
dispatch_syscall-Replies loader r t k p e Syscall.set_tid_address =
    replies _ (set_tid_address-Moves r.tid r.arg0 k)
dispatch_syscall-Replies loader r t k p e Syscall.set_robust_list =
    replies _ (set_robust_list-Moves r.tid _ k)
dispatch_syscall-Replies loader r t k p e Syscall.arch_prctl_call =
    replies _ (arch_prctl-Moves r.tid r.arg0 r.arg1 k)
dispatch_syscall-Replies loader r t k p e Syscall.execve =
    with_process-Replies k t.pid _ p e (execve-Moves loader r.tid (program_of p.image) k)
dispatch_syscall-Replies loader r t k p e _ = replies _ done

pub dispatch-Replies :
    (loader : Loader) (r : SyscallRequest) (k : GuestKernel)
    → ((t : GuestTask) → task k r.tid ≡ some t → (p : GuestProcess) × (process k t.pid ≡ some p))
    → Replies k (dispatch_for_current_task loader r k)
unfolding dispatch_for_current_task
dispatch-Replies loader r k owner = elim (Option-cases (task k r.tid)) [
  | inl e ↦ rw (e, dispatch_for_current_task) (replies (fail_with esrch, k) done)
  | inr (t, e) ↦ elim (Bool-cases (not (t.pid == r.pid))) [
    | inl f ↦ rw (e, f, dispatch_for_current_task) (replies (fail_with esrch, k) done)
    | inr f ↦
        rw (e, f, dispatch_for_current_task)
          (dispatch_syscall-Replies loader r t k (owner t e).0 (owner t e).1 r.syscall)
  ]
]
