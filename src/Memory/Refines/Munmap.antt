-- ===== src/Memory/Refines/Munmap.antt =====
-- `munmap` of crates/mcr-memory/src/lib.rs.
use mathlib.Core.Option
use mcr.Prelude.{ℕ, ◌+◌, ◌^◌, ◌≤◌, ◌≡◌, refl, ap, ◌∙◌, false, none, if◌then◌else◌, arith}
use mcr.Memory.Error.{GuestMemoryError, invalid_address, invalid_length, Outcome, ok, err, panicked}
use mcr.Memory.Ranges.{is_page_aligned}
use mcr.Memory.Map.Order.{Ordered}
use mcr.Memory.Map.Unmap.{within, unmap_vmas-IsUnmapped}
use mcr.Memory.State.{GuestMemory}
use mcr.Memory.Allocate.{drop_unreferenced_allocations}
use mcr.Memory.Calls.{unmap_range}
use mcr.Memory.Quiet.{attributes_of}
use mcr.Memory.Refines.{View, Edited, IsPageRange}

-- No address of a range is mapped.
abbrev pub cleared : ℕ → ℕ → View → View
cleared start end v x = if within start end x then none else v x

pub unmap_range-Edited :
    (start end : ℕ) (g : GuestMemory)
    → Ordered 0 g.vmas
    → Edited (cleared start end) g (unmap_range start end g)
unfolding unmap_range drop_unreferenced_allocations
unmap_range-Edited start end g o =
    let unmapped = unmap_vmas-IsUnmapped start end g.vmas o in
    record {
      ordered = unmapped.ordered;
      views = λ x. ap (Option.map attributes_of) (unmapped.cells x) ∙ ground arith;
      layout = refl;
    }

-- Why a range is rejected, and the error.
pub data IsRejected (start length : ℕ) : GuestMemoryError → Type 0 where
  misaligned : is_page_aligned start ≡ false → IsRejected start length invalid_address
  nothing : length ≡ 0 → IsRejected start length invalid_address
  overflow : 2 ^ 64 ≤ start + length + 4095 → IsRejected start length invalid_length

unfoldable pub IsMunmap : ℕ → ℕ → GuestMemory → Outcome (Unit {0}) × GuestMemory → Type 0
IsMunmap addr length g (ok _, g') =
    (end : ℕ) × IsPageRange addr length end × Edited (cleared addr end) g g'
IsMunmap addr length g (err e, g') = (g' ≡ g) × IsRejected addr length e
IsMunmap addr length g (panicked, g') = ⊥
