-- ===== src/Memory/Read.antt =====
-- Reading the bytes of the guest: `copy_guest` of crates/mcr-memory/src/lib.rs.
pub mod Each
pub mod Whole
use mcr.Prelude.{
  ℕ, ◌+◌, ◌-◌, ◌==◌, Bool, true, false, not, ◌&&◌, ◌||◌, ltb, leb, min, Option, none, some, List,
  [], ◌∷◌, ◌++◌, zero, suc, if◌then◌else◌,
}
use mcr.Prelude.OrdMap
use mcr.Prelude.OrdMap.{nat_key}
use mcr.Memory.Error.{denied, not_mapped, Outcome, ok, err, panicked, ◌>>=◌}
use mcr.Memory.Ranges.{checked_raw_range}
use mcr.Memory.Vma.{GuestVma, GuestMemoryProtection}
use mcr.Memory.Map.{vma_containing}
use mcr.Memory.State.{HostMemory, GuestMemory}
use mcr.Memory.Allocate.{in_bounds}

pub data AccessKind : Type 0 where
  read_access write_access : AccessKind

unfoldable pub permits : AccessKind → GuestMemoryProtection → Bool
permits read_access p = p.read
permits write_access p = p.write

-- The bytes of a buffer from an offset on.
unfoldable pub slice : HostMemory → ℕ → ℕ → List ℕ
slice memory offset zero = []
slice memory offset (suc n) = memory.byte offset ∷ slice memory (offset + 1) n

-- The part of `copy_guest` that one area gives, from a cursor up to an end.
unfoldable pub chunk_of : GuestMemory → GuestVma → ℕ → ℕ → Outcome (List ℕ)
unfolding in_bounds slice
chunk_of g v cursor end = elim (OrdMap.get v.allocation_id g.allocations) [
  | none ↦ panicked
  | some allocation ↦
      let offset = v.allocation_offset + (cursor - v.start) in
      let n = min v.end end - cursor in
      if in_bounds allocation.memory offset (offset + n)
      then ok (slice allocation.memory offset n)
      else panicked
]

-- The loop of `copy_guest`, on fuel.
unfoldable pub copy_from : GuestMemory → AccessKind → ℕ → ℕ → ℕ → Outcome (List ℕ)
unfolding vma_containing permits chunk_of
copy_from g access zero cursor end = ok []
copy_from g access (suc fuel) cursor end = elim (leb end cursor) [
  | true ↦ ok []
  | false ↦ elim (vma_containing g.vmas cursor) [
    | none ↦ err not_mapped
    | some v ↦ elim (permits access v.protection) [
      | false ↦ err denied
      | true ↦ chunk_of g v cursor end >>= λ chunk.
          copy_from g access fuel (min v.end end) end >>= λ rest. ok (chunk ++ rest)
    ]
  ]
]

-- What `copy_guest` leaves in a destination of some length; after an error the callers drop it. Each
-- pass copies a byte at least, so that the length is enough fuel.
unfoldable pub copy_guest : GuestMemory → ℕ → ℕ → AccessKind → Outcome (List ℕ)
unfolding checked_raw_range copy_from
copy_guest g address len access =
    checked_raw_range address len >>= λ end. copy_from g access len address end

-- `read`, on a buffer of some length.
unfoldable pub guest_read : GuestMemory → ℕ → ℕ → Outcome (List ℕ)
unfolding copy_guest
guest_read g address len = copy_guest g address len read_access
