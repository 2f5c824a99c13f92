-- ===== src/Sys/Args.antt =====
-- crates/mcr-sys/src/task.rs: the constants and argument records of the task syscalls.
use mcr.Prelude.{ℕ, ◌-◌, ◌^◌, Bool, not, ◌||◌, ℤ, bit_and, ◌==◌}

abbrev pub linux_sigchld : ℕ
linux_sigchld = 17

abbrev pub linux_kernel_sigset_size : ℕ
linux_kernel_sigset_size = 8

abbrev pub linux_sig_block : ℕ
linux_sig_block = 0

abbrev pub linux_sig_unblock : ℕ
linux_sig_unblock = 1

abbrev pub linux_sig_setmask : ℕ
linux_sig_setmask = 2

abbrev pub linux_clone_vm : ℕ
linux_clone_vm = 0x100

abbrev pub linux_clone_fs : ℕ
linux_clone_fs = 0x200

abbrev pub linux_clone_files : ℕ
linux_clone_files = 0x400

abbrev pub linux_clone_sighand : ℕ
linux_clone_sighand = 0x800

abbrev pub linux_clone_vfork : ℕ
linux_clone_vfork = 0x4000

abbrev pub linux_clone_thread : ℕ
linux_clone_thread = 0x10000

abbrev pub linux_clone_sysvsem : ℕ
linux_clone_sysvsem = 0x40000

abbrev pub linux_clone_settls : ℕ
linux_clone_settls = 0x80000

abbrev pub linux_clone_parent_settid : ℕ
linux_clone_parent_settid = 0x100000

abbrev pub linux_clone_child_cleartid : ℕ
linux_clone_child_cleartid = 0x200000

abbrev pub linux_clone_detached : ℕ
linux_clone_detached = 0x400000

abbrev pub linux_clone_child_settid : ℕ
linux_clone_child_settid = 0x1000000

abbrev pub linux_clone_exit_signal_mask : ℕ
linux_clone_exit_signal_mask = 0xff

abbrev pub linux_robust_list_head_size : ℕ
linux_robust_list_head_size = 24

abbrev pub linux_wnohang : ℕ
linux_wnohang = 1

-- `!mask` on a 32-bit and on a 64-bit word.
unfoldable pub not32 : ℕ → ℕ
not32 mask = 2 ^ 32 - 1 - mask

unfoldable pub not64 : ℕ → ℕ
not64 mask = 2 ^ 64 - 1 - mask

-- `flags & mask != 0`.
unfoldable pub has_any : ℕ → ℕ → Bool
has_any flags mask = not (bit_and flags mask == 0)

pub record CloneSyscallArgs : Type 0 where
  pub flags : ℕ
  pub child_stack : ℕ
  pub parent_tid : ℕ
  pub child_tid : ℕ
  pub tls : ℕ

unfoldable pub has_clone_vfork : CloneSyscallArgs → Bool
unfolding has_any
has_clone_vfork args = has_any args.flags linux_clone_vfork

unfoldable pub has_clone_thread : CloneSyscallArgs → Bool
unfolding has_any
has_clone_thread args = has_any args.flags linux_clone_thread

unfoldable pub has_clone_settls : CloneSyscallArgs → Bool
unfolding has_any
has_clone_settls args = has_any args.flags linux_clone_settls

unfoldable pub has_clone_child_cleartid : CloneSyscallArgs → Bool
unfolding has_any
has_clone_child_cleartid args = has_any args.flags linux_clone_child_cleartid

pub record RtSigactionSyscallArgs : Type 0 where
  pub sig : ℕ
  pub act : ℕ
  pub oldact : ℕ
  pub sigsetsize : ℕ

pub record RtSigprocmaskSyscallArgs : Type 0 where
  pub how : ℕ
  pub set : ℕ
  pub oldset : ℕ
  pub sigsetsize : ℕ

unfoldable pub supported_how : ℕ → Bool
supported_how how = how == linux_sig_block || how == linux_sig_unblock || how == linux_sig_setmask

pub record KillSyscallArgs : Type 0 where
  pub pid : ℤ
  pub sig : ℕ

pub record TgkillSyscallArgs : Type 0 where
  pub tgid : ℤ
  pub tid : ℤ
  pub sig : ℕ

pub record TkillSyscallArgs : Type 0 where
  pub tid : ℤ
  pub sig : ℕ

pub record SetRobustListSyscallArgs : Type 0 where
  pub head : ℕ
  pub len : ℕ

pub record Wait4SyscallArgs : Type 0 where
  pub pid : ℤ
  pub wstatus : ℕ
  pub options : ℕ
  pub rusage : ℕ

unfoldable pub no_hang : Wait4SyscallArgs → Bool
unfolding has_any
no_hang args = has_any args.options linux_wnohang

unfoldable pub has_unsupported_options : Wait4SyscallArgs → Bool
unfolding has_any not32
has_unsupported_options args = has_any args.options (not32 linux_wnohang)
