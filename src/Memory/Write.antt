-- ===== src/Memory/Write.antt =====
-- Writing the bytes of the guest: `write_guest` of crates/mcr-memory/src/lib.rs.
use mcr.Prelude.{
  ℕ, ◌+◌, ◌-◌, ◌^◌, ◌%◌, Bool, true, false, ◌||◌, leb, min, List, zero, suc, if◌then◌else◌,
}
use mcr.Prelude.OrdMap
use mcr.Prelude.OrdMap.{nat_key}
use mcr.Memory.Error.{denied, not_mapped, ok}
use mcr.Memory.Ranges.{checked_raw_range}
use mcr.Memory.Map.{vma_containing}
use mcr.Memory.State.{
  Host, GuestMemory, Action, return, fail, lift, gets, ok_or, expect, edit, ◌>>=◌, ◌>>◌,
  flush_instruction_cache_range,
}
use mcr.Memory.Allocate.{ensure_guest_page_range_unique, write_allocation}
use mcr.Memory.Mapping.{byte_count, byte_of}
use mcr.Memory.Read.{permits, write_access}

unfoldable pub record_executable_write : GuestMemory → GuestMemory
record_executable_write g = record g {
  executable_write_generation = (g.executable_write_generation + 1) % 2 ^ 64;
}

module _ (os : Host) where
  -- One pass of the loop of `write_guest`: the end of the pass, and whether the area is executable.
  unfoldable pub write_chunk : (ℕ → ℕ) → ℕ → ℕ → Action (ℕ × Bool)
  unfolding vma_containing permits ensure_guest_page_range_unique write_allocation
      flush_instruction_cache_range
  write_chunk bytes cursor end = do
    found ← gets (λ g. vma_containing g.vmas cursor)
    vma ← ok_or found not_mapped
    if permits write_access vma.protection then return tt else fail denied
    ensure_guest_page_range_unique os cursor (min vma.end end)
    found ← gets (λ g. vma_containing g.vmas cursor)
    vma ← ok_or found not_mapped
    let n = min vma.end end - cursor
    let offset = vma.allocation_offset + (cursor - vma.start)
    write_allocation os vma.allocation_id offset n bytes
    found ← gets (λ g. OrdMap.get vma.allocation_id g.allocations)
    (if vma.protection.execute
        then (expect found >>= λ allocation.
            flush_instruction_cache_range os allocation.memory offset n)
        else return tt)
    return (cursor + n, vma.protection.execute)

  -- The loop of `write_guest`, on fuel: the bytes are those from the cursor on.
  unfoldable pub write_from : ℕ → (ℕ → ℕ) → ℕ → ℕ → Bool → Action Bool
  unfolding write_chunk
  write_from zero bytes cursor end touched g = (ok touched, g)
  write_from (suc fuel) bytes cursor end touched g = elim (leb end cursor) [
    | true ↦ (ok touched, g)
    | false ↦
        (write_chunk bytes cursor end >>= λ pass.
        write_from fuel (λ i. bytes (i + (pass.0 - cursor))) pass.0 end (touched || pass.1))
          g
  ]

  unfoldable pub write_guest : ℕ → List ℕ → Action (Unit {0})
  unfolding checked_raw_range byte_count byte_of write_from record_executable_write
  write_guest address bytes = do
    end ← lift (checked_raw_range address (byte_count bytes))
    touched ← write_from (byte_count bytes) (byte_of bytes) address end false
    if touched then edit record_executable_write else return tt
