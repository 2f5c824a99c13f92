-- ===== src/Task/Error.antt =====
-- crates/mcr-task/src/errors.rs: the errors of the guest kernel, and their errno.
use mcr.Prelude.{ℕ, ℤ, ◌≡◌, refl, ◌⊎◌, inl, inr}
use mcr.Sys.Errno.{ebadf, einval, echild, eagain, esrch, enoexec}
use mcr.Sys.Return.{SyscallOutcome, fail_with}

-- The errors of the ELF loader are kept as its own two cases.
pub data TaskError : Type 0 where
  bad_fd : ℤ → TaskError
  invalid_clone_flags invalid_robust_list_length invalid_signal : ℕ → TaskError
  invalid_signal_mask_how invalid_sigset_size invalid_wait_options : ℕ → TaskError
  no_child pid_exhausted tid_exhausted : TaskError
  unknown_pid unknown_tid : ℕ → TaskError
  unsupported_signal_target : ℤ → TaskError
  would_block elf_error image_error : TaskError

unfoldable pub linux_errno : TaskError → ℕ
linux_errno (bad_fd fd) = ebadf
linux_errno (invalid_clone_flags flags) = einval
linux_errno (invalid_robust_list_length length) = einval
linux_errno (invalid_signal signal) = einval
linux_errno (invalid_signal_mask_how how) = einval
linux_errno (invalid_sigset_size size) = einval
linux_errno (invalid_wait_options options) = einval
linux_errno (unsupported_signal_target pid) = einval
linux_errno no_child = echild
linux_errno pid_exhausted = eagain
linux_errno tid_exhausted = eagain
linux_errno (unknown_pid pid) = esrch
linux_errno (unknown_tid tid) = esrch
linux_errno would_block = eagain
linux_errno elf_error = enoexec
linux_errno image_error = enoexec

unfoldable pub into_outcome : TaskError → SyscallOutcome
unfolding linux_errno
into_outcome error = fail_with (linux_errno error)

pub data Result {ℓ} (A : Type ℓ) : Type ℓ where
  ok : A → Result A
  err : TaskError → Result A

pub Result-cases {ℓ} :
    {A : Type ℓ} (r : Result A) → ((a : A) × (r ≡ ok a)) ⊎ ((e : TaskError) × (r ≡ err e))
Result-cases (ok a) = inl (a, refl)
Result-cases (err e) = inr (e, refl)
