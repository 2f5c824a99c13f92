-- ===== src/Task/Program.antt =====
-- crates/mcr-task/src/program.rs: programs and the loaded image of a process.
use mcr.Prelude.{ℕ, Option, List}

pub record GuestExecutable : Type 0 where
  pub path : List ℕ
  pub bytes : List ℕ

pub record GuestProgram : Type 0 where
  pub executable : GuestExecutable
  pub interpreter : Option GuestExecutable
  pub argv : List (List ℕ)
  pub envp : List (List ℕ)

-- Of the image that crates/mcr-elf builds, what the kernel reads.
pub record GuestMemoryImage : Type 0 where
  pub entrypoint : ℕ
  pub initial_stack_pointer : ℕ

pub record GuestImageState : Type 0 where
  pub executable : GuestExecutable
  pub interpreter : Option GuestExecutable
  pub argv : List (List ℕ)
  pub envp : List (List ℕ)
  pub memory : GuestMemoryImage
