-- ===== src/Task/Syscalls.antt =====
-- crates/mcr-task/src/kernel/syscalls.rs: the dispatcher of the task syscalls. `none` is the panic
-- of `task_process`, whose `expect` wants the task's process in the table.
use mcr.Prelude.{
  ℕ, ◌-◌, ◌%◌, ◌^◌, Bool, false, not, ◌&&◌, ◌==◌, ltb, ℤ, pos, negsuc, Option, none, some, [], ◌∷◌,
  if◌then◌else◌,
}
use mcr.Sys.Errno.{eperm, esrch, einval, efault}
use mcr.Sys.Return.{SyscallOutcome, ok_with, fail_with, not_supported}
use mcr.Task.Program.{GuestProgram, GuestImageState}
use mcr.Task.Process.{GuestProcess}
use mcr.Task.State.{GuestKernel, GuestTask, Call}
use mcr.Task.Kernel.{Loader, process, task, edit_process, edit_task, after_syscall}
use mcr.Task.Wait.{wait4_current_with_return}
use mcr.Task.Signal.{rt_sigaction_current, rt_sigprocmask_current, rt_sigtimedwait_current}
use mcr.Task.Kill.{
  kill_current, tkill_current, tgkill_current, set_tid_address_current, set_robust_list_current,
}
use mcr.Task.Exit.{exit_task, exit_group}
use mcr.Task.Clone.{fork_like_current, vfork_current, clone_current_with_return}
use mcr.Task.Exec.{execve_current}

-- The syscalls that the dispatcher names; all others are `other`.
pub data Syscall : Type 0 where
  getpid gettid getppid getpgrp getpgid getsid getuid geteuid getgid getegid : Syscall
  setuid setgid setreuid setregid setpgid setsid fork vfork clone exit exit_group_call : Syscall
  wait4 rt_sigaction rt_sigprocmask rt_sigreturn rt_sigtimedwait kill tkill tgkill : Syscall
  set_tid_address set_robust_list uname_call arch_prctl_call execve other : Syscall

pub record SyscallRequest : Type 0 where
  pub syscall : Syscall
  pub pid : ℕ
  pub tid : ℕ
  pub rip : ℕ
  pub arg0 : ℕ
  pub arg1 : ℕ
  pub arg2 : ℕ
  pub arg3 : ℕ
  pub arg4 : ℕ

abbrev pub arch_set_gs : ℕ
arch_set_gs = 0x1001

abbrev pub arch_set_fs : ℕ
arch_set_fs = 0x1002

abbrev pub arch_get_fs : ℕ
arch_get_fs = 0x1003

abbrev pub arch_get_gs : ℕ
arch_get_gs = 0x1004

-- `raw as u32` and `raw as i32`.
abbrev pub low_u32 : ℕ → ℕ
low_u32 raw = raw % 2 ^ 32

unfoldable pub low_i32 : ℕ → ℤ
low_i32 raw =
    if ltb (low_u32 raw) (2 ^ 31) then pos (low_u32 raw) else negsuc (2 ^ 32 - 1 - low_u32 raw)

-- `raw & 0xff`.
unfoldable pub low_exit_status : ℕ → ℤ
low_exit_status raw = pos (raw % 256)

-- An id argument: 0 stands for a default, and a number above `u32` is no id.
unfoldable pub id_or : ℕ → ℕ → Option ℕ
id_or default raw = if raw == 0 then some default else if ltb raw (2 ^ 32) then some raw else none

-- `process.parent != Some(current_pid)`.
pub is_parent : ℕ → Option ℕ → Bool
is_parent current_pid none = false
is_parent current_pid (some p) = p == current_pid

-- `setpgid` on ids that have been read.
unfoldable pub set_group : ℕ → ℕ → ℕ → Call SyscallOutcome
unfolding is_parent
set_group current_pid pid pgid kernel = elim (process kernel pid) [
  | none ↦ (fail_with esrch, kernel)
  | some p ↦
      if not (is_parent current_pid p.parent) && not (pid == current_pid)
      then (fail_with eperm, kernel)
      else (ok_with 0, edit_process pid (λ x. record x { pgid = pgid }) kernel)
]

unfoldable pub setpgid_current : ℕ → ℕ → ℕ → Call SyscallOutcome
unfolding id_or set_group
setpgid_current current_pid raw_pid raw_pgid kernel = elim (id_or current_pid raw_pid) [
  | none ↦ (fail_with einval, kernel)
  | some pid ↦ elim (id_or pid raw_pgid) [
    | none ↦ (fail_with einval, kernel)
    | some pgid ↦ set_group current_pid pid pgid kernel
  ]
]

unfoldable pub setsid_current : ℕ → Call SyscallOutcome
setsid_current current_pid kernel = elim (process kernel current_pid) [
  | none ↦ (fail_with esrch, kernel)
  | some p ↦ (
    ok_with current_pid,
    edit_process current_pid (λ x. record x { sid = current_pid; pgid = current_pid }) kernel,
  )
]

-- A field of the process that an id argument names.
read_process : (GuestProcess → ℕ) → ℕ → ℕ → GuestKernel → SyscallOutcome
unfolding id_or
read_process field current_pid raw_pid kernel = elim (id_or current_pid raw_pid) [
  | none ↦ fail_with esrch
  | some pid ↦ elim (process kernel pid) [ none ↦ fail_with esrch | some p ↦ ok_with (field p) ]
]

unfoldable pub getpgid_current : ℕ → ℕ → GuestKernel → SyscallOutcome
unfolding read_process
getpgid_current = read_process (λ p. p.pgid)

unfoldable pub getsid_current : ℕ → ℕ → GuestKernel → SyscallOutcome
unfolding read_process
getsid_current = read_process (λ p. p.sid)

unfoldable pub arch_prctl : ℕ → ℕ → ℕ → Call SyscallOutcome
arch_prctl tid code address kernel = elim (task kernel tid) [
  | none ↦ (fail_with esrch, kernel)
  | some t ↦
      if code == arch_set_fs
      then (
        ok_with 0,
        edit_task tid (λ x. record x { tls = record (x.tls) { fs_base = address } }) kernel,
      )
      else if code == arch_set_gs
      then (
        ok_with 0,
        edit_task tid (λ x. record x { tls = record (x.tls) { gs_base = address } }) kernel,
      )
      else if code == arch_get_fs
      then (ok_with t.tls.fs_base, kernel)
      else if code == arch_get_gs
      then (ok_with t.tls.gs_base, kernel)
      else (fail_with einval, kernel)
]

-- The strings of `uname` are trace fields; the guest's buffer is filled elsewhere.
unfoldable pub uname : ℕ → SyscallOutcome
uname buffer = if buffer == 0 then fail_with efault else ok_with 0

-- `GuestProgram::new(executable).with_interpreter(..)`: the path is the only argument.
unfoldable pub program_of : GuestImageState → GuestProgram
program_of image = record {
  executable = image.executable;
  interpreter = image.interpreter;
  argv = image.executable.path ∷ [];
  envp = [];
}

-- A reply that needs the caller's process.
unfoldable pub with_process :
    GuestKernel
    → ℕ
    → (GuestProcess → SyscallOutcome × GuestKernel)
    → Option (SyscallOutcome × GuestKernel)
with_process kernel pid reply = elim (process kernel pid) [ none ↦ none | some p ↦ some (reply p) ]

-- The match on the syscall, for a caller whose task and pid have been checked.
unfoldable pub dispatch_syscall :
    Loader
    → SyscallRequest
    → GuestTask
    → GuestKernel
    → Syscall
    → Option (SyscallOutcome × GuestKernel)
unfolding with_process setpgid_current setsid_current getpgid_current getsid_current arch_prctl
    uname program_of low_i32 low_exit_status after_syscall
dispatch_syscall loader r t k getpid = some (ok_with t.pid, k)
dispatch_syscall loader r t k gettid = some (ok_with t.tid, k)
dispatch_syscall loader r t k getppid =
    with_process k t.pid λ p. (ok_with (elim p.parent [ none ↦ 0 | some q ↦ q ]), k)
dispatch_syscall loader r t k getpgrp = with_process k t.pid λ p. (ok_with p.pgid, k)
dispatch_syscall loader r t k getpgid = some (getpgid_current t.pid r.arg0 k, k)
dispatch_syscall loader r t k getsid = some (getsid_current t.pid r.arg0 k, k)
dispatch_syscall loader r t k setpgid = some (setpgid_current t.pid r.arg0 r.arg1 k)
dispatch_syscall loader r t k setsid = some (setsid_current t.pid k)
dispatch_syscall loader r t k fork = some (fork_like_current r.tid (after_syscall r.rip) k)
dispatch_syscall loader r t k vfork = some (vfork_current r.tid k)
dispatch_syscall loader r t k clone = some (
    clone_current_with_return r.tid
      (record {
        flags = r.arg0;
        child_stack = r.arg1;
        parent_tid = r.arg2;
        child_tid = r.arg3;
        tls = r.arg4;
      })
      (after_syscall r.rip) k)
dispatch_syscall loader r t k exit = some (exit_task r.tid (low_exit_status r.arg0) k)
dispatch_syscall loader r t k exit_group_call = some (exit_group t.pid (low_exit_status r.arg0) k)
dispatch_syscall loader r t k wait4 = some (
    wait4_current_with_return r.tid
      (record { pid = low_i32 r.arg0; wstatus = r.arg1; options = low_u32 r.arg2; rusage = r.arg3 })
      (after_syscall r.rip) k)
dispatch_syscall loader r t k rt_sigaction = some (
    rt_sigaction_current r.tid
      (record { sig = low_u32 r.arg0; act = r.arg1; oldact = r.arg2; sigsetsize = r.arg3 }) k)
dispatch_syscall loader r t k rt_sigprocmask = some (
    rt_sigprocmask_current r.tid
      (record { how = low_u32 r.arg0; set = r.arg1; oldset = r.arg2; sigsetsize = r.arg3 }) k)
dispatch_syscall loader r t k rt_sigtimedwait =
    some (rt_sigtimedwait_current r.tid 0 r.arg3 false k)
dispatch_syscall loader r t k kill =
    some (kill_current (record { pid = low_i32 r.arg0; sig = low_u32 r.arg1 }) k)
dispatch_syscall loader r t k tkill =
    some (tkill_current (record { tid = low_i32 r.arg0; sig = low_u32 r.arg1 }) k)
dispatch_syscall loader r t k tgkill = some (
    tgkill_current (record { tgid = low_i32 r.arg0; tid = low_i32 r.arg1; sig = low_u32 r.arg2 }) k)
dispatch_syscall loader r t k set_tid_address = some (set_tid_address_current r.tid r.arg0 k)
dispatch_syscall loader r t k set_robust_list =
    some (set_robust_list_current r.tid (record { head = r.arg0; len = r.arg1 }) k)
dispatch_syscall loader r t k uname_call = some (uname r.arg0, k)
dispatch_syscall loader r t k arch_prctl_call = some (arch_prctl r.tid r.arg0 r.arg1 k)
dispatch_syscall loader r t k execve =
    with_process k t.pid λ p. execve_current loader r.tid (program_of p.image) k
dispatch_syscall loader r t k other = some (not_supported, k)
dispatch_syscall loader r t k _ = some (ok_with 0, k)

unfoldable pub dispatch_for_current_task :
    Loader → SyscallRequest → GuestKernel → Option (SyscallOutcome × GuestKernel)
unfolding dispatch_syscall
dispatch_for_current_task loader request kernel = elim (task kernel request.tid) [
  | none ↦ some (fail_with esrch, kernel)
  | some t ↦
      if not (t.pid == request.pid)
      then some (fail_with esrch, kernel)
      else dispatch_syscall loader request t kernel request.syscall
]
