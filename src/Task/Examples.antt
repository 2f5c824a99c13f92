-- ===== src/Task/Examples.antt =====
-- The theorems on a concrete kernel: one process that has forked, and whose child has exited.
use mcr.Prelude.{
  ◌&&◌, ℕ, ◌≡◌, refl, true, false, none, some, [], ◌∷◌, arith, pos, negsuc, ◌==◌, if◌then◌else◌,
  not, ◌%◌, ◌+◌,
}
use mathlib.Core.Option
use mcr.Prelude.OrdMap
use mcr.Prelude.OrdSet
use mcr.Sys.Return.{errno, SyscallOutcome, encode_u64, decode_rax}
use mcr.Sys.Return.RoundTrip.{error, decode_rax-encode_u64, encode_u64-decode_rax}
use mcr.Sys.Args.{Wait4SyscallArgs, has_unsupported_options, not32}
use mcr.Task.Program.{GuestProgram, GuestExecutable, GuestMemoryImage, GuestImageState}
use mcr.Task.Fd.{with_stdio}
use mcr.Task.Process.{GuestProcess, running}
use mcr.Task.State.{
  GuestKernel, GuestTask, FutexWaitKey, new_futex_key, runnable, waiting_for_sleep,
  waiting_for_futex, waiting_for_child, waiting_for_fd, exited, TaskState-discrete,
}
use mcr.Task.Error.{ok}
use mcr.Task.Kernel.{
  Loader, load_program, process, task, set_state, new_kernel, create_initial_process,
  install_initial, allocate_pid, allocate_tid, insert_task, index_task_state,
}
use mcr.Task.Wait.{exited_waitable_child, wait4_child}
use mcr.Task.Mask.{masked, signal_matches_mask, take_pending_signal}
use mcr.Task.Pending.{take_pending_signal_found}
use mcr.Task.Exit.{exit_group}
use mcr.Task.Clone.{install_child, fork_child_task}
use mcr.Task.Forked.{IsFork, fork_child_task-IsFork}
use mcr.Task.Futex.{wake_futex_waiters, requeue_futex_waiters}
use mcr.Task.Index.{IsIndexed, set_state-IsIndexed, task-set_state, with_state}
use mcr.Task.Moves.{MaskOk}
use mcr.Task.Invariant.{Inv}
use mcr.Task.Boot.{new_kernel-Inv, first_kernel, first_kernel-Inv}
use mcr.Task.Index.Sweep.{task-set_states}
use mcr.Task.Kernel.{set_states}
use mcr.Task.Zombies.{process-wait4_child, task-wait4_child}
use mcr.Task.Guarantees.{
  dispatch-Inv, requeue_futex_waiters-Inv, resume_waiting_tasks-Inv, resume_fd_waiters-Inv,
  rt_sigsuspend-Inv,
}
use mcr.Task.Woken.{Woken, wake_futex_waiters-Woken}
use mcr.Task.Reachable.{boots, steps, changes_mask, signal_blocked-unblockable}
use mcr.Task.Syscalls.{Syscall, SyscallRequest, dispatch_for_current_task}
use mcr.Task.Signal.{signal_blocked, rt_sigprocmask_current_mask, rt_sigsuspend_current}
use mcr.Task.Wait.{resume_waiting_tasks, FdReady, resume_fd_waiters}
use mcr.Task.Invariant.Edits.{set_state-Inv}
use mcr.Task.Refines.Calls.{masked-MaskOk}
use mcr.Task.Refines.Waits.{Waitable, exited_waitable_child-Waitable}
use mcr.Task.Preservation.{Moves-Inv}
use mcr.Task.Invariant.Fork.{forked, forks-Inv}
use mcr.Task.Refines.Ends.{exit_group-Moves}

abbrev memory : GuestMemoryImage
memory = record { entrypoint = 0x400000; initial_stack_pointer = 0x7fff0000 }

abbrev loader : Loader
loader program = ok memory

abbrev shell : GuestExecutable
shell = record { path = 47 ∷ []; bytes = [] }

abbrev program : GuestProgram
program = record { executable = shell; interpreter = none; argv = []; envp = [] }

abbrev image : GuestImageState
image = record { executable = shell; interpreter = none; argv = []; envp = []; memory = memory }

abbrev booted : GuestKernel
booted = first_kernel image

starts : new_kernel loader program ≡ ok booted
unfolding new_kernel create_initial_process load_program allocate_pid allocate_tid
starts = refl

new_kernel-Inv_example : Inv booted
new_kernel-Inv_example = new_kernel-Inv loader program booted starts

booted-Inv : Inv booted
booted-Inv = first_kernel-Inv image

-- Task 1 and process 1 as they stand after the start.
abbrev init_task : GuestTask
init_task = mcr.Task.State.initial_task 1 1 memory

abbrev init_process : GuestProcess
init_process = record {
  pid = 1;
  parent = none;
  pgid = 1;
  sid = 1;
  image = image;
  files = with_stdio;
  signals = [];
  pending_signals = [];
  children = [];
  exit_state = running;
}

caller : task booted 1 ≡ some init_task
unfolding install_initial insert_task index_task_state OrdMap.get OrdMap.insert
caller = refl

owner : process booted 1 ≡ some init_process
unfolding install_initial insert_task index_task_state OrdMap.get OrdMap.insert
owner = refl

-- After a fork, process 2 with task 2.
abbrev family : GuestKernel
family = forked booted 1 init_task init_process booted-Inv caller owner

family-Inv : Inv family
family-Inv = forks-Inv booted 1 init_task init_process booted-Inv caller owner

-- The child has exited with status 3.
abbrev bereaved : GuestKernel
bereaved = (exit_group 2 (pos 3) family).1

bereaved-Inv : Inv bereaved
bereaved-Inv = Moves-Inv (exit_group-Moves 2 (pos 3) family) family-Inv

abbrev wait_any : Wait4SyscallArgs
wait_any = record { pid = negsuc 0; wstatus = 0; options = 0; rusage = 0 }

supported : has_unsupported_options wait_any ≡ false
unfolding has_unsupported_options not32
supported = refl

zombie_found : exited_waitable_child bereaved 1 (negsuc 0) ≡ ok (some 2)
unfolding exited_waitable_child exit_group OrdMap.get OrdMap.modify OrdMap.insert install_child
    install_initial TaskState-discrete OrdSet.insert OrdSet.remove
zombie_found = refl

process-wait4_child_example : process (wait4_child 1 wait_any bereaved).1 2 ≡ none
process-wait4_child_example =
    process-wait4_child 1 2 wait_any bereaved bereaved-Inv supported zombie_found

-- The child's task, exited.
abbrev dead_task : GuestTask
dead_task = record init_task { tid = 2; pid = 2; state = exited (pos 3) }

dead_found : task bereaved 2 ≡ some dead_task
unfolding exit_group OrdMap.get OrdMap.modify OrdMap.insert install_child install_initial
    TaskState-discrete OrdSet.insert OrdSet.remove
dead_found = refl

task-wait4_child_example : task (wait4_child 1 wait_any bereaved).1 2 ≡ none
task-wait4_child_example =
    task-wait4_child 1 2 wait_any bereaved bereaved-Inv supported zombie_found 2 dead_task
      dead_found refl

-- `wait4(-1, 0, 0, 0)` by task 1 of process 1.
abbrev wait_request : SyscallRequest
wait_request = record {
  syscall = Syscall.wait4;
  pid = 1;
  tid = 1;
  rip = 0x400000;
  arg0 = 0xffffffff;
  arg1 = 0;
  arg2 = 0;
  arg3 = 0;
  arg4 = 0;
}

dispatch-Inv_example :
    (reply : SyscallOutcome × GuestKernel) × (dispatch_for_current_task loader wait_request bereaved
      ≡ some reply)
    × Inv reply.1
dispatch-Inv_example = dispatch-Inv loader wait_request bereaved bereaved-Inv

-- Task 1 has asked for a mask with SIGKILL and SIGSTOP.
abbrev guarded : GuestKernel
guarded = (rt_sigprocmask_current_mask 1 2 (some 0x40301) 8 booted).1

signal_blocked-unblockable_example :
    (signal_blocked guarded 1 9 ≡ false) × (signal_blocked guarded 1 19 ≡ false)
signal_blocked-unblockable_example =
    signal_blocked-unblockable loader guarded
      (steps (boots program starts) (changes_mask 1 2 (some 0x40301) 8 refl)) 1

set_state-IsIndexed_example : IsIndexed (set_state family 2 waiting_for_sleep)
set_state-IsIndexed_example = set_state-IsIndexed family 2 waiting_for_sleep family-Inv.indexed

task-set_state_example :
    task (set_state booted 1 waiting_for_sleep) 1
    ≡ (if 1 == 1 then Option.map (with_state waiting_for_sleep) (task booted 1) else task booted 1)
task-set_state_example = task-set_state booted 1 1 waiting_for_sleep

fork_child_task-IsFork_example : IsFork 1 booted (fork_child_task 1 booted)
fork_child_task-IsFork_example = fork_child_task-IsFork 1 booted booted-Inv

-- A private futex of process 1, with task 2 in its queue.
abbrev lock_key : FutexWaitKey
lock_key = new_futex_key 1 0x1000 true

abbrev contended : GuestKernel
contended = set_state family 2 (waiting_for_futex lock_key)

contended-Inv : Inv contended
contended-Inv = set_state-Inv family 2 (waiting_for_futex lock_key) family-Inv

requeue_futex_waiters-Inv_example :
    Inv (requeue_futex_waiters lock_key (new_futex_key 1 0x2000 true) 0 1 contended).1
requeue_futex_waiters-Inv_example =
    requeue_futex_waiters-Inv lock_key (new_futex_key 1 0x2000 true) 0 1 contended contended-Inv

wake_futex_waiters-Woken_example :
    Woken lock_key 1 contended (wake_futex_waiters lock_key 1 contended)
wake_futex_waiters-Woken_example =
    wake_futex_waiters-Woken lock_key 1 contended contended-Inv.indexed

-- Task 1 waits for any child, and one has exited.
abbrev waiting : GuestKernel
waiting = set_state bereaved 1 (waiting_for_child wait_any)

waiting-Inv : Inv waiting
waiting-Inv = set_state-Inv bereaved 1 (waiting_for_child wait_any) bereaved-Inv

resume_waiting_tasks-Inv_example : Inv (resume_waiting_tasks waiting).1
resume_waiting_tasks-Inv_example = resume_waiting_tasks-Inv waiting waiting-Inv

-- Task 1 waits to read descriptor 0.
abbrev reading : GuestKernel
reading = set_state family 1 (waiting_for_fd (pos 0) false)

reading-Inv : Inv reading
reading-Inv = set_state-Inv family 1 (waiting_for_fd (pos 0) false) family-Inv

-- A callback that counts its calls and gives every other one a positive answer.
abbrev polled : FdReady ℕ
polled pid fd write calls = (calls % 2 == 1, calls + 1)

resume_fd_waiters-Inv_example : Inv (resume_fd_waiters polled 1 reading).1
resume_fd_waiters-Inv_example = resume_fd_waiters-Inv polled 1 reading reading-Inv

rt_sigsuspend-Inv_example : Inv (rt_sigsuspend_current 1 0x10000 8 bereaved).1
rt_sigsuspend-Inv_example = rt_sigsuspend-Inv 1 0x10000 8 bereaved bereaved-Inv

blocked : masked 2 0x40301 0 ≡ ok 0x201
unfolding masked
blocked = refl

masked-MaskOk_example : MaskOk 0x201
masked-MaskOk_example = masked-MaskOk 2 0x40301 0 0x201 blocked refl

exited_waitable_child-Waitable_example : Waitable bereaved 1 2
exited_waitable_child-Waitable_example =
    exited_waitable_child-Waitable bereaved 1 (negsuc 0) 2 zombie_found

decode_rax-encode_u64_example : decode_rax (encode_u64 (errno 2)) ≡ errno 2
decode_rax-encode_u64_example =
    decode_rax-encode_u64 (errno 2) (error (ground arith) (ground arith))

encode_u64-decode_rax_example : encode_u64 (decode_rax 0xfffffffffffffffe) ≡ 0xfffffffffffffffe
encode_u64-decode_rax_example = encode_u64-decode_rax 0xfffffffffffffffe (ground arith)

-- SIGUSR1 and SIGTERM are pending, and the mask admits SIGTERM.
terminated : take_pending_signal (10 ∷ 15 ∷ []) 0x4000 ≡ (some 15, 10 ∷ [])
unfolding take_pending_signal OrdSet.remove
terminated = refl

take_pending_signal_found_example :
    (signal_matches_mask 0x4000 15 ≡ true)
    × (OrdSet.contains 15 (10 ∷ 15 ∷ []) ≡ true)
    × ((j : ℕ) → OrdSet.contains j (10 ∷ []) ≡ (not (15 == j) && OrdSet.contains j (10 ∷ 15 ∷ [])))
take_pending_signal_found_example =
    take_pending_signal_found (10 ∷ 15 ∷ []) 0x4000 15 (10 ∷ []) terminated

task-set_states_example : task (set_states family (2 ∷ 1 ∷ []) (exited (pos 0))) 1 ≡ (
    if OrdSet.contains 1 (2 ∷ 1 ∷ [])
    then Option.map (with_state (exited (pos 0))) (task family 1)
    else task family 1)
task-set_states_example = task-set_states (2 ∷ 1 ∷ []) (exited (pos 0)) family 1
