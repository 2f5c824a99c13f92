-- ===== src/Task/Kernel.antt =====
-- crates/mcr-task/src/kernel/mod.rs: the tables of the kernel, the queues that index task states,
-- and the allocation of pids and tids. `load_program` of program.rs stands here too: the ELF loader
-- that it calls (crates/mcr-elf) is an argument.
use mcr.Prelude.{ℕ, ◌+◌, ◌-◌, ◌^◌, Option, none, some, List, [], ◌∷◌, ltb, if◌then◌else◌, ite, min}
use mcr.Prelude.OrdMap
use mcr.Prelude.OrdMap.{Map, nat_key}
use mcr.Prelude.OrdSet
use mathlib.Core.Option
use mcr.Task.Program.{GuestProgram, GuestMemoryImage, GuestImageState}
use mcr.Task.Fd.{with_stdio}
use mcr.Task.Process.{GuestProcess, running}
use mcr.Task.State.{
  GuestKernel, GuestTask, TaskState, TaskState-discrete, FutexWaitKey, futex_key, runnable,
  waiting_for_child, waiting_for_fd, waiting_for_futex, initial_task, Call,
}
use mcr.Task.Error.{Result, ok, err, pid_exhausted, tid_exhausted}

abbrev pub process : GuestKernel → ℕ → Option GuestProcess
process kernel pid = OrdMap.get pid kernel.processes

abbrev pub task : GuestKernel → ℕ → Option GuestTask
task kernel tid = OrdMap.get tid kernel.tasks

-- A change of one entry through `process_mut` and `task_mut`.
abbrev pub edit_process : ℕ → (GuestProcess → GuestProcess) → GuestKernel → GuestKernel
edit_process pid f kernel = record kernel { processes = OrdMap.modify pid f kernel.processes }

abbrev pub edit_task : ℕ → (GuestTask → GuestTask) → GuestKernel → GuestKernel
edit_task tid f kernel = record kernel { tasks = OrdMap.modify tid f kernel.tasks }

-- The waiters of a key, none where it has no entry.
unfoldable pub futex_waiters : FutexWaitKey → Map FutexWaitKey (List ℕ) → List ℕ
futex_waiters key waits = Option.get_or (OrdMap.get key waits) []

-- The entry of a futex key after one waiter has gone: an empty set is dropped.
unfoldable pub drop_futex_waiter :
    FutexWaitKey → ℕ → Map FutexWaitKey (List ℕ) → Map FutexWaitKey (List ℕ)
drop_futex_waiter key tid waits = elim (OrdMap.get key waits) [
  | none ↦ waits
  | some waiters ↦
      let left = OrdSet.remove tid waiters in
      if OrdSet.is_empty left then OrdMap.remove key waits else OrdMap.modify key (λ _. left) waits
]

unfoldable pub index_task_state : GuestKernel → ℕ → TaskState → GuestKernel
unfolding futex_waiters
index_task_state kernel tid runnable = record kernel {
  runnable_tids = OrdSet.insert tid kernel.runnable_tids;
}
index_task_state kernel tid (waiting_for_child args) = record kernel {
  child_wait_tids = OrdSet.insert tid kernel.child_wait_tids;
}
index_task_state kernel tid (waiting_for_fd fd write) = record kernel {
  fd_wait_tids = OrdSet.insert tid kernel.fd_wait_tids;
}
index_task_state kernel tid (waiting_for_futex key) = record kernel {
  futex_wait_tids =
      OrdMap.insert key (OrdSet.insert tid (futex_waiters key kernel.futex_wait_tids))
        kernel.futex_wait_tids;
}
index_task_state kernel tid _ = kernel

unfoldable pub unindex_task_state : GuestKernel → ℕ → TaskState → GuestKernel
unfolding drop_futex_waiter
unindex_task_state kernel tid runnable = record kernel {
  runnable_tids = OrdSet.remove tid kernel.runnable_tids;
}
unindex_task_state kernel tid (waiting_for_child args) = record kernel {
  child_wait_tids = OrdSet.remove tid kernel.child_wait_tids;
}
unindex_task_state kernel tid (waiting_for_fd fd write) = record kernel {
  fd_wait_tids = OrdSet.remove tid kernel.fd_wait_tids;
}
unindex_task_state kernel tid (waiting_for_futex key) = record kernel {
  futex_wait_tids = drop_futex_waiter key tid kernel.futex_wait_tids;
}
unindex_task_state kernel tid _ = kernel

unfoldable pub insert_task : GuestKernel → GuestTask → GuestKernel
unfolding index_task_state
insert_task kernel new =
    let indexed = index_task_state kernel new.tid new.state in
    record indexed { tasks = OrdMap.insert new.tid new indexed.tasks }

unfoldable pub remove_task : GuestKernel → ℕ → Option GuestTask × GuestKernel
unfolding unindex_task_state
remove_task kernel tid = elim (task kernel tid) [
  | none ↦ (none, kernel)
  | some old ↦ (
    some old,
    unindex_task_state (record kernel { tasks = OrdMap.remove tid kernel.tasks }) old.tid old.state,
  )
]

-- The change of state of a task that is there: out of the old queue and into the new one.
unfoldable pub move_task : GuestKernel → ℕ → TaskState → TaskState → GuestKernel
unfolding index_task_state unindex_task_state
move_task kernel tid previous state =
    index_task_state
      (edit_task tid (λ t. record t { state = state }) (unindex_task_state kernel tid previous)) tid
      state

-- `set_task_state` on the task that the lookup gave.
unfoldable pub change_state :
    GuestKernel → ℕ → TaskState → Option GuestTask → Option TaskState × GuestKernel
unfolding move_task
change_state kernel tid state none = (none, kernel)
change_state kernel tid state (some t) =
    ite (TaskState-discrete t.state state) (some t.state, kernel)
      (some t.state, move_task kernel tid t.state state)

unfoldable pub set_task_state : GuestKernel → ℕ → TaskState → Option TaskState × GuestKernel
unfolding change_state
set_task_state kernel tid state = change_state kernel tid state (task kernel tid)

-- The kernel after `set_task_state`, its result dropped.
abbrev pub set_state : GuestKernel → ℕ → TaskState → GuestKernel
set_state kernel tid state = (set_task_state kernel tid state).1

-- `set_task_state(tid, state)` for each of some tids.
unfoldable pub set_states : GuestKernel → List ℕ → TaskState → GuestKernel
unfolding set_task_state
set_states kernel [] state = kernel
set_states kernel (tid ∷ tids) state = set_states (set_state kernel tid state) tids state

abbrev pub max_id : ℕ
max_id = 2 ^ 32 - 1

unfoldable pub allocate_pid : Call (Result ℕ)
allocate_pid kernel =
    if ltb kernel.next_pid max_id
    then (ok kernel.next_pid, record kernel { next_pid = kernel.next_pid + 1 })
    else (err pid_exhausted, kernel)

unfoldable pub allocate_tid : Call (Result ℕ)
allocate_tid kernel =
    if ltb kernel.next_tid max_id
    then (ok kernel.next_tid, record kernel { next_tid = kernel.next_tid + 1 })
    else (err tid_exhausted, kernel)

-- `rip().saturating_add(X86_64_SYSCALL_INSTRUCTION_LEN)`.
unfoldable pub after_syscall : ℕ → ℕ
after_syscall rip = min (rip + 2) (2 ^ 64 - 1)

unfoldable pub current_syscall_return_rip : GuestKernel → ℕ → ℕ
unfolding after_syscall
current_syscall_return_rip kernel tid = elim (task kernel tid) [
  | none ↦ 0
  | some t ↦ after_syscall t.regs.rip
]

-- crates/mcr-elf: the load plan and the memory image of a program, or an ELF or image error.
abbrev pub Loader : Type 0
Loader = GuestProgram → Result GuestMemoryImage

unfoldable pub load_program : Loader → GuestProgram → Result GuestImageState
load_program loader program = elim (loader program) [
  | err e ↦ err e
  | ok memory ↦ ok (record {
    executable = program.executable;
    interpreter = program.interpreter;
    argv = program.argv;
    envp = program.envp;
    memory = memory;
  })
]

abbrev pub empty_kernel : GuestKernel
empty_kernel = record {
  next_pid = 1;
  next_tid = 1;
  processes = [];
  tasks = [];
  runnable_tids = [];
  child_wait_tids = [];
  fd_wait_tids = [];
  futex_wait_tids = [];
}

-- The first process of a kernel, under ids that have just been allocated.
unfoldable pub install_initial : GuestKernel → ℕ → ℕ → GuestImageState → GuestKernel
unfolding insert_task with_stdio
install_initial kernel pid tid image =
    insert_task
      (record kernel {
        processes =
            OrdMap.insert pid
              (record {
                pid = pid;
                parent = none;
                pgid = pid;
                sid = pid;
                image = image;
                files = with_stdio;
                signals = [];
                pending_signals = [];
                children = [];
                exit_state = running;
              })
              kernel.processes;
      })
      (initial_task tid pid image.memory)

unfoldable pub create_initial_process : Loader → GuestProgram → Call (Result (Unit {0}))
unfolding allocate_pid allocate_tid load_program install_initial
create_initial_process loader program kernel =
    let (new_pid, with_pid) = allocate_pid kernel in
    elim new_pid [
      | err e ↦ (err e, with_pid)
      | ok pid ↦
          let (new_tid, with_tid) = allocate_tid with_pid in
          elim new_tid [
            | err e ↦ (err e, with_tid)
            | ok tid ↦ elim (load_program loader program) [
              | err e ↦ (err e, with_tid)
              | ok image ↦ (ok tt, install_initial with_tid pid tid image)
            ]
          ]
    ]

-- `GuestKernel::new`.
unfoldable pub new_kernel : Loader → GuestProgram → Result GuestKernel
unfolding create_initial_process
new_kernel loader program =
    let (created, kernel) = create_initial_process loader program empty_kernel in
    elim created [ err e ↦ err e | ok _ ↦ ok kernel ]
