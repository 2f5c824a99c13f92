-- ===== src/Task/Exec.antt =====
-- crates/mcr-task/src/kernel/exec.rs.
use mcr.Prelude.{ℕ, none, some}
use mcr.Sys.Return.{SyscallOutcome, ok_with}
use mcr.Task.Registers.{new_gpr, new_tls}
use mcr.Task.Program.{GuestProgram, GuestImageState}
use mcr.Task.Fd.{close_on_exec}
use mcr.Task.Process.{GuestProcess, running}
use mcr.Task.State.{GuestKernel, GuestTask, runnable, Call}
use mcr.Task.Error.{Result, ok, err, into_outcome, unknown_pid, unknown_tid}
use mcr.Task.Kernel.{
  Loader, load_program, process, task, edit_process, edit_task, set_task_state, set_state,
}
use mcr.Task.Exit.{resume_vfork_parent}

unfoldable pub exec_process : GuestImageState → GuestProcess → GuestProcess
unfolding close_on_exec
exec_process image p = record p {
  files = close_on_exec p.files;
  image = image;
  exit_state = running;
}

unfoldable pub exec_registers : GuestImageState → GuestTask → GuestTask
exec_registers image t = record t {
  regs = new_gpr image.memory.entrypoint image.memory.initial_stack_pointer;
  tls = new_tls;
  robust_list = none;
  clear_child_tid = none;
}

-- The new image of a process, entered by one of its tasks.
unfoldable pub enter_image : ℕ → ℕ → GuestImageState → GuestKernel → GuestKernel
unfolding exec_process exec_registers set_task_state resume_vfork_parent
enter_image tid pid image kernel = resume_vfork_parent pid (
    set_state (edit_task tid (exec_registers image) (edit_process pid (exec_process image) kernel))
      tid runnable)

unfoldable pub exec_task : Loader → ℕ → GuestProgram → Call (Result (Unit {0}))
unfolding load_program enter_image
exec_task loader tid program kernel = elim (task kernel tid) [
  | none ↦ (err (unknown_tid tid), kernel)
  | some t ↦ elim (load_program loader program) [
    | err e ↦ (err e, kernel)
    | ok image ↦ elim (process kernel t.pid) [
      | none ↦ (err (unknown_pid t.pid), kernel)
      | some p ↦ (ok tt, enter_image tid t.pid image kernel)
    ]
  ]
]

unfoldable pub exec_reply : Result (Unit {0}) × GuestKernel → SyscallOutcome × GuestKernel
unfolding into_outcome
exec_reply (ok _, kernel) = (ok_with 0, kernel)
exec_reply (err e, kernel) = (into_outcome e, kernel)

unfoldable pub execve_current : Loader → ℕ → GuestProgram → Call SyscallOutcome
unfolding exec_task exec_reply
execve_current loader tid program kernel = exec_reply (exec_task loader tid program kernel)
