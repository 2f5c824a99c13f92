-- ===== src/Task/Process.antt =====
-- crates/mcr-task/src/process.rs: processes, signal actions and the results of waiting.
use mcr.Prelude.{ℕ, ◌*◌, ◌^◌, ℤ, as_u32, Option, List, bit_and}
use mcr.Prelude.OrdMap.{Map}
use mcr.Sys.Args.{Wait4SyscallArgs}
use mcr.Task.Program.{GuestImageState}
use mcr.Task.Fd.{GuestFdTable}

pub record GuestSignalAction : Type 0 where
  pub action : ℕ
  pub flags : ℕ
  pub restorer : ℕ
  pub mask : ℕ

abbrev pub new_signal_action : ℕ → GuestSignalAction
new_signal_action action = record { action = action; flags = 0; restorer = 0; mask = 0 }

pub data ExitState : Type 0 where
  running : ExitState
  exited : ℤ → ExitState

pub record WaitedChild : Type 0 where
  pub pid : ℕ
  pub status : ℤ
  pub wait_status : ℕ

unfoldable pub linux_wait_exit_status : ℤ → ℕ
unfolding as_u32
linux_wait_exit_status status = bit_and (as_u32 status) 0xff * 2 ^ 8

abbrev pub new_waited_child : ℕ → ℤ → WaitedChild
new_waited_child pid status = record {
  pid = pid;
  status = status;
  wait_status = linux_wait_exit_status status;
}

pub record CompletedWait : Type 0 where
  pub tid : ℕ
  pub pid : ℕ
  pub args : Wait4SyscallArgs
  pub waited : WaitedChild

pub record GuestProcess : Type 0 where
  pub pid : ℕ
  pub parent : Option ℕ
  pub pgid : ℕ
  pub sid : ℕ
  pub image : GuestImageState
  pub files : GuestFdTable
  pub signals : Map ℕ GuestSignalAction
  pub pending_signals : List ℕ
  pub children : List ℕ
  pub exit_state : ExitState
