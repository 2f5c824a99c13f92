-- ===== src/Task/Refines/Calls.antt =====
-- The signal syscalls and the small task syscalls as moves.
use mathlib.Core.Option
use mcr.Prelude.{
  ℕ, ◌≡◌, refl, Option, none, some, inl, inr, arith, bit_and, bit_or, ap, sym, ◌∙◌, ◌==◌, not,
  if◌then◌else◌, Option-cases, Bool-cases,
}
use mcr.Prelude.Bits.{bit_and_assoc, bit_and_comm, bit_and-zero}
use mcr.Sys.Args.{
  not64, linux_kernel_sigset_size, RtSigactionSyscallArgs, RtSigprocmaskSyscallArgs, supported_how,
}
use mcr.Task.Process.{GuestSignalAction, new_signal_action}
use mcr.Task.State.{GuestKernel, GuestTask}
use mcr.Task.Error.{ok, Result-cases}
use mcr.Task.Kernel.{process, task}
use mcr.Task.Mask.{
  validate_signal, unblockable_signal_mask, sanitize_signal_mask, masked, apply_task_signal_mask,
}
use mcr.Task.Signal.{
  rt_sigaction_current, rt_sigprocmask_current, rt_sigaction_current_with_action,
  rt_sigprocmask_current_mask, set_task_signal_mask,
}
use mcr.Task.Moves.{MaskOk, Moves, done, Moves-edit_task, Moves-edit_process}

sanitize-MaskOk : (mask : ℕ) → MaskOk (sanitize_signal_mask mask)
unfolding sanitize_signal_mask
sanitize-MaskOk mask =
    bit_and_assoc mask (not64 unblockable_signal_mask) unblockable_signal_mask ∙ bit_and-zero mask

MaskOk-and : (mask other : ℕ) → MaskOk mask → MaskOk (bit_and mask other)
MaskOk-and mask other h =
    ap (λ m. bit_and m unblockable_signal_mask) (bit_and_comm mask other)
    ∙ bit_and_assoc other mask unblockable_signal_mask
    ∙ ap (bit_and other) h
    ∙ bit_and-zero other

-- Whatever `how` and the new set are, a mask without SIGKILL and SIGSTOP that `sigprocmask` changes
-- without an error is again one without them.
pub masked-MaskOk : (how mask old new : ℕ) → masked how mask old ≡ ok new → MaskOk old → MaskOk new
unfolding masked
masked-MaskOk how mask old new e h = ground (
  arith,
  sanitize-MaskOk mask,
  sanitize-MaskOk (bit_or old (sanitize_signal_mask mask)),
  MaskOk-and old (not64 (sanitize_signal_mask mask)),
)

pub rt_sigaction-Moves :
    (tid : ℕ) (args : RtSigactionSyscallArgs) (action : Option GuestSignalAction) (k : GuestKernel)
    → Moves k (rt_sigaction_current_with_action tid args action k).1
unfolding rt_sigaction_current_with_action
rt_sigaction-Moves tid args action k = elim (Option-cases (task k tid)) [
  | inl e ↦ rw (e, rt_sigaction_current_with_action) done
  | inr (t, e) ↦ elim (Result-cases (validate_signal args.sig)) [
    | inr (x, e') ↦ rw (e, e', rt_sigaction_current_with_action) done
    | inl (_, e') ↦ elim (Bool-cases (not (args.sigsetsize == linux_kernel_sigset_size))) [
      | inl s ↦ rw (e, e', s, rt_sigaction_current_with_action) done
      | inr s ↦ elim (Option-cases action) [
        | inl a ↦ rw (e, e', s, a, rt_sigaction_current_with_action) done
        | inr (new, a) ↦ elim (Option-cases (process k t.pid)) [
          | inl p ↦ rw (e, e', s, a, p, rt_sigaction_current_with_action) done
          | inr (x, p) ↦
              rw (e, e', s, a, p, rt_sigaction_current_with_action)
                (Moves-edit_process done t.pid _
                  (λ y. record { pid = refl; parent = refl; children = refl }))
        ]
      ]
    ]
  ]
]

pub set_task_signal_mask-Moves :
    (tid mask : ℕ) (k : GuestKernel) → Moves k (set_task_signal_mask tid mask k).1
unfolding set_task_signal_mask
set_task_signal_mask-Moves tid mask k = elim (Option-cases (task k tid)) [
  | inl e ↦ rw (e, set_task_signal_mask) done
  | inr (t, e) ↦
      rw (e, set_task_signal_mask)
        (Moves-edit_task done tid _ (λ x _. record {
          tid = refl;
          pid = refl;
          state = refl;
          mask = λ _. sanitize-MaskOk mask;
        }))
]

pub rt_sigprocmask-Moves :
    (tid how : ℕ) (signal_mask : Option ℕ) (size : ℕ) (k : GuestKernel)
    → Moves k (rt_sigprocmask_current_mask tid how signal_mask size k).1
unfolding rt_sigprocmask_current_mask apply_task_signal_mask
rt_sigprocmask-Moves tid how signal_mask size k = elim (Option-cases (task k tid)) [
  | inl e ↦ rw (e, rt_sigprocmask_current_mask) done
  | inr (t, e) ↦ elim (Bool-cases (not (size == linux_kernel_sigset_size))) [
    | inl s ↦ rw (e, s, rt_sigprocmask_current_mask) done
    | inr s ↦ elim (Bool-cases (not (supported_how how))) [
      | inl h ↦ rw (e, s, h, rt_sigprocmask_current_mask) done
      | inr h ↦ elim (Option-cases signal_mask) [
        | inl m ↦ rw (e, s, h, m, rt_sigprocmask_current_mask) done
        | inr (mask, m) ↦ elim (Result-cases (masked how mask t.signal_mask)) [
          | inr (x, a) ↦ rw (e, s, h, m, a, rt_sigprocmask_current_mask) done
          | inl (new, a) ↦
              rw (e, s, h, m, a, rt_sigprocmask_current_mask)
                (Moves-edit_task done tid _ (λ x found. record {
                  tid = refl;
                  pid = refl;
                  state = refl;
                  mask = λ ok_mask.
                      masked-MaskOk how mask x.signal_mask new
                        (ap
                            (λ o.
                              masked how mask
                                (Option.get_or (Option.map (λ (y : GuestTask). y.signal_mask) o) 0))
                            (sym found ∙ e)
                          ∙ a)
                        ok_mask;
                }))
        ]
      ]
    ]
  ]
]

pub rt_sigaction_current-Moves :
    (tid : ℕ) (args : RtSigactionSyscallArgs) (k : GuestKernel)
    → Moves k (rt_sigaction_current tid args k).1
unfolding rt_sigaction_current
rt_sigaction_current-Moves tid args k =
    rt_sigaction-Moves tid args (if args.act == 0 then none else some (new_signal_action args.act))
      k

pub rt_sigprocmask_current-Moves :
    (tid : ℕ) (args : RtSigprocmaskSyscallArgs) (k : GuestKernel)
    → Moves k (rt_sigprocmask_current tid args k).1
unfolding rt_sigprocmask_current
rt_sigprocmask_current-Moves tid args k =
    rt_sigprocmask-Moves tid args.how (if args.set == 0 then none else some args.set)
      args.sigsetsize k
