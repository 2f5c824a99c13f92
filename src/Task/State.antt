-- ===== src/Task/State.antt =====
-- crates/mcr-task/src/task.rs and the state in kernel/mod.rs: tasks, futex keys and the guest kernel.
use mcr.Prelude.{
  ℕ, Bool, true, false, ◌&&◌, ◌||◌, ℤ, ℤ-discrete, Option, none, some, List, [], arith, ℕ_discrete,
  ltb, ◌==◌, ◌≡◌, ◌↔◌, if◌then◌else◌,
}
use mcr.Prelude.OrdMap.{Map, Key}
use mcr.Sys.Args.{Wait4SyscallArgs}
use mcr.Task.Registers.{GprState, TlsState, new_gpr, new_tls}
use mcr.Task.Program.{GuestMemoryImage}
use mcr.Task.Process.{GuestProcess}

pub record FutexWaitKey : Type 0 where
  pub pid : Option ℕ
  pub uaddr : ℕ

-- `FutexWaitKey::new`: a private futex is keyed by its process.
abbrev pub new_futex_key : ℕ → ℕ → Bool → FutexWaitKey
new_futex_key pid uaddr private = record { pid = if private then some pid else none; uaddr = uaddr }

unfoldable pub option_eq : Option ℕ → Option ℕ → Bool
option_eq none none = true
option_eq (some a) (some b) = a == b
option_eq none (some b) = false
option_eq (some a) none = false

unfoldable pub option_lt : Option ℕ → Option ℕ → Bool
option_lt none none = false
option_lt (some a) (some b) = ltb a b
option_lt none (some b) = true
option_lt (some a) none = false

unfoldable pub futex_key_eq : FutexWaitKey → FutexWaitKey → Bool
unfolding option_eq
futex_key_eq a b = option_eq a.pid b.pid && a.uaddr == b.uaddr

unfoldable pub futex_key_lt : FutexWaitKey → FutexWaitKey → Bool
unfolding option_lt option_eq
futex_key_lt a b = option_lt a.pid b.pid || (option_eq a.pid b.pid && ltb a.uaddr b.uaddr)

pub futex_key_eq_iff : (a b : FutexWaitKey) → (futex_key_eq a b ≡ true) ↔ (a ≡ b)
unfolding futex_key_eq
futex_key_eq_iff a b = ground arith

instance abbrev pub futex_key : Key FutexWaitKey
futex_key = record { key_eq = futex_key_eq; key_lt = futex_key_lt; key_eq_iff = futex_key_eq_iff }

pub data TaskState : Type 0 where
  runnable : TaskState
  waiting_for_child : Wait4SyscallArgs → TaskState
  waiting_for_vfork : ℕ → TaskState
  waiting_for_signal_set : ℕ → TaskState
  waiting_for_signal_suspend : ℕ → TaskState
  waiting_for_fd : ℤ → Bool → TaskState
  waiting_for_futex : FutexWaitKey → TaskState
  waiting_for_sleep : TaskState
  exited : ℤ → TaskState

unfoldable pub TaskState-discrete : Discrete TaskState
TaskState-discrete = hlevel (ℕ_discrete, ℤ-discrete)

pub record GuestTask : Type 0 where
  pub tid : ℕ
  pub pid : ℕ
  pub regs : GprState
  pub tls : TlsState
  pub state : TaskState
  pub robust_list : Option ℕ
  pub clear_child_tid : Option ℕ
  pub signal_mask : ℕ
  pub pending_signals : List ℕ
  pub pending_signal_delivery : Option ℕ

-- `GuestTask::initial`.
abbrev pub initial_task : ℕ → ℕ → GuestMemoryImage → GuestTask
initial_task tid pid image = record {
  tid = tid;
  pid = pid;
  regs = new_gpr image.entrypoint image.initial_stack_pointer;
  tls = new_tls;
  state = runnable;
  robust_list = none;
  clear_child_tid = none;
  signal_mask = 0;
  pending_signals = [];
  pending_signal_delivery = none;
}

-- The host worker pools of the kernel hold no guest state and are left out.
pub record GuestKernel : Type 0 where
  pub next_pid : ℕ
  pub next_tid : ℕ
  pub processes : Map ℕ GuestProcess
  pub tasks : Map ℕ GuestTask
  pub runnable_tids : List ℕ
  pub child_wait_tids : List ℕ
  pub fd_wait_tids : List ℕ
  pub futex_wait_tids : Map FutexWaitKey (List ℕ)

-- A kernel call that returns a value and the new kernel.
abbrev pub Call {ℓ} : Type ℓ → Type ℓ
Call A = GuestKernel → A × GuestKernel

-- `matches!(state, WaitingForFutex { key } if key == wanted)`.
unfoldable pub waits_on_futex : FutexWaitKey → TaskState → Bool
waits_on_futex wanted (waiting_for_futex key) = futex_key_eq key wanted
waits_on_futex wanted _ = false

unfoldable pub is_futex_wait : TaskState → Bool
is_futex_wait (waiting_for_futex key) = true
is_futex_wait _ = false

unfoldable pub is_exited : TaskState → Bool
is_exited (exited status) = true
is_exited _ = false
