-- ===== src/Task/Registers.antt =====
-- crates/mcr-task/src/registers.rs: the register file and the thread pointers of a task.
use mcr.Prelude.{ℕ}

pub record TlsState : Type 0 where
  pub fs_base : ℕ
  pub gs_base : ℕ

abbrev pub new_tls : TlsState
new_tls = record { fs_base = 0; gs_base = 0 }

pub record GprState : Type 0 where
  pub rip : ℕ
  pub rsp : ℕ
  pub rax : ℕ
  pub rbx : ℕ
  pub rcx : ℕ
  pub rdi : ℕ
  pub rsi : ℕ
  pub rdx : ℕ
  pub rbp : ℕ
  pub r10 : ℕ
  pub r8 : ℕ
  pub r9 : ℕ
  pub r11 : ℕ
  pub r12 : ℕ
  pub r13 : ℕ
  pub r14 : ℕ
  pub r15 : ℕ
  pub rflags : ℕ

abbrev pub default_rflags : ℕ
default_rflags = 0x202

-- `GprState::new`: all registers clear but the instruction and stack pointers.
abbrev pub new_gpr : ℕ → ℕ → GprState
new_gpr rip rsp = record {
  rip = rip;
  rsp = rsp;
  rax = 0;
  rbx = 0;
  rcx = 0;
  rdi = 0;
  rsi = 0;
  rdx = 0;
  rbp = 0;
  r10 = 0;
  r8 = 0;
  r9 = 0;
  r11 = 0;
  r12 = 0;
  r13 = 0;
  r14 = 0;
  r15 = 0;
  rflags = default_rflags;
}

abbrev pub with_syscall_return : GprState → ℕ → ℕ → GprState
with_syscall_return regs rip rax = record regs { rip = rip; rax = rax }
