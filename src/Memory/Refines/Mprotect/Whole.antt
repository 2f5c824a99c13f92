-- ===== src/Memory/Refines/Mprotect/Whole.antt =====
-- `mprotect` of crates/mcr-memory/src/lib.rs with the bytes of the guest and the pages of the
-- operating system.
use mathlib.Core.Option
use mcr.Prelude.{ℕ, ◌≤◌, ◌<◌, ◌≡◌, ◌⊎◌, Option, some}
use mcr.Prelude.OrdSet
use mcr.Memory.Error.{Outcome, ok, err, panicked}
use mcr.Memory.Map.Cut.{Cell, cell_at}
use mcr.Memory.State.{GuestMemory, MemoryProtection, to_host}
use mcr.Memory.Quiet.{Quiet}
use mcr.Memory.Refines.Mprotect.{IsProtection}
use mcr.Memory.Bytes.{Kept}
use mcr.Memory.Bytes.Pages.{page_at, host_page}

-- The pages of a range have a protection, where its addresses are mapped.
abbrev Paged : ℕ → ℕ → MemoryProtection → GuestMemory → Type 0
Paged start end p g =
    (x : ℕ) (c : Cell)
    → start ≤ x
    → x < end
    → cell_at g.vmas x ≡ some c
    → page_at g (some c) ≡ some p

-- What a successful `mprotect` has done, the pages of the operating system included.
pub record Protection (addr length prot : ℕ) (g g' : GuestMemory) : Type 0 where
  pub done : IsProtection addr length prot g g'
  pub pages : (x : ℕ) → addr ≤ x → x < done.end → host_page g' x ≡ some (to_host done.protection)

pub MprotectRun : ℕ → ℕ → ℕ → GuestMemory → Outcome (Unit {0}) × GuestMemory → Type 0
MprotectRun addr length prot g (ok _, g') =
    Kept g g' × (((length ≡ 0) × Quiet g g') ⊎ Protection addr length prot g g')
MprotectRun addr length prot g (err e, g') = Kept g g' × Quiet g g'
MprotectRun addr length prot g (panicked, g') = Kept g g' × Quiet g g'
