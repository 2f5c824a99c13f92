-- ===== src/Memory/Allocate.antt =====
-- The host allocations behind the areas, in crates/mcr-memory/src/lib.rs: their protections, the
-- copies that end sharing, and the allocation of host memory for a range.
use mcr.Prelude.{
  ℕ, ◌+◌, ◌-◌, ◌==◌, Bool, true, ◌&&◌, ltb, leb, none, some, List, [], ◌∷◌, if◌then◌else◌,
}
use mcr.Prelude.OrdMap
use mcr.Prelude.OrdMap.{Map, nat_key}
use mcr.Prelude.OrdSet
use mcr.Memory.Error.{denied, not_mapped, no_memory, Outcome, ok, err, panicked}
use mcr.Memory.Ranges.{guest_page_size, checked_add, align_down_to, align_up_to}
use mcr.Memory.Vma.{GuestVma, GuestMemoryProtection, vma_len}
use mcr.Memory.Map.{Vmas, split_vma_at, keys_between}
use mcr.Memory.State.{
  Host, HostMemory, HostAddressMode, flexible, fixed_guest, is_fixed_guest, read_write, to_host,
  GuestAllocation, GuestMemory, Action, return, fail, panic, lift, gets, ok_or, expect, edit, ◌>>=◌,
  ◌>>◌, for_each, allocate, allocate_at, protect, protect_range,
}

pub record AllocationProtectionRange : Type 0 where
  pub offset : ℕ
  pub len : ℕ
  pub protection : GuestMemoryProtection

unfoldable pub allocation_protection_ranges : ℕ → Vmas → List AllocationProtectionRange
allocation_protection_ranges id vmas =
    OrdMap.select
      (λ v.
        if v.allocation_id == id
        then some
            (record { offset = v.allocation_offset; len = vma_len v; protection = v.protection })
        else none)
      vmas

-- `copy_from_slice` into a part of a buffer, the part being as long as the source.
unfoldable pub copy_into : ℕ → ℕ → (ℕ → ℕ) → HostMemory → HostMemory
copy_into offset len bytes memory = record memory {
  byte = λ i. if leb offset i && ltb i (offset + len) then bytes (i - offset) else memory.byte i;
}

-- A slice `[start..end]` of a buffer, which panics out of bounds.
unfoldable pub in_bounds : HostMemory → ℕ → ℕ → Bool
in_bounds memory start end = leb start end && leb end memory.len

unfoldable pub with_memory : HostMemory → GuestAllocation → GuestAllocation
with_memory memory a = record a { memory = memory }

abbrev pub set_memory : ℕ → HostMemory → GuestMemory → GuestMemory
set_memory id memory g = record g {
  allocations = OrdMap.modify id (with_memory memory) g.allocations;
}

abbrev pub insert_allocation : ℕ → ℕ → HostMemory → GuestMemory → GuestMemory
insert_allocation id start memory g = record g {
  allocations = OrdMap.insert id (record { guest_start = start; memory = memory }) g.allocations;
}

-- An area with its bytes at another place.
abbrev pub moved_to : ℕ → ℕ → GuestVma → GuestVma
moved_to id offset v = record v { allocation_id = id; allocation_offset = offset }

-- The next allocation id.
unfoldable pub take_allocation_id : Action ℕ
take_allocation_id = do
  id ← gets (λ g. g.next_allocation_id)
  next ← lift (checked_add id 1 no_memory)
  edit (λ g. record g { next_allocation_id = next })
  return id

-- The allocation ids of some areas, as a set.
unfoldable pub allocation_ids : (GuestVma → Bool) → Vmas → List ℕ
allocation_ids p [] = []
allocation_ids p ((k, v) ∷ m) =
    let rest = allocation_ids p m in if p v then OrdSet.insert v.allocation_id rest else rest

-- `retain`.
unfoldable pub retain_ids : List ℕ → Map ℕ GuestAllocation → Map ℕ GuestAllocation
retain_ids ids [] = []
retain_ids ids ((k, a) ∷ m) =
    let rest = retain_ids ids m in if OrdSet.contains k ids then (k, a) ∷ rest else rest

unfoldable pub drop_unreferenced_allocations : GuestMemory → GuestMemory
unfolding allocation_ids retain_ids
drop_unreferenced_allocations g = record g {
  allocations = retain_ids (allocation_ids (λ _. true) g.vmas) g.allocations;
}

-- The drop of a guard after an error: an action whose own result is dropped.
unfoldable pub then_drop :
    Action (Unit {0}) → Outcome (Unit {0}) × GuestMemory → Outcome (Unit {0}) × GuestMemory
then_drop drop (ok _, g) = (ok tt, g)
then_drop drop (err e, g) = (err e, (drop g).1)
then_drop drop (panicked, g) = (panicked, g)

module _ (os : Host) where
  unfoldable pub allocate_guest_host_memory_at : ℕ → ℕ → HostAddressMode → Action HostMemory
  unfolding allocate allocate_at
  allocate_guest_host_memory_at start len flexible = allocate os len
  allocate_guest_host_memory_at start len fixed_guest = allocate_at os start len

  unfoldable pub apply_allocation_protections :
      HostMemory → List AllocationProtectionRange → Action (Unit {0})
  unfolding for_each protect_range to_host
  apply_allocation_protections memory ranges =
      for_each ranges (λ r. protect_range os memory r.offset r.len (to_host r.protection))

  -- `restore` of the guard; after an error the guard is dropped, which tries once more.
  unfoldable pub restore : HostMemory → List AllocationProtectionRange → Action (Unit {0})
  unfolding apply_allocation_protections then_drop
  restore memory ranges g =
      then_drop (apply_allocation_protections memory ranges)
        (apply_allocation_protections memory ranges g)

  -- The guard around the reading of all bytes.
  unfoldable pub guarded_read : HostMemory → List AllocationProtectionRange → Action (Unit {0})
  unfolding protect restore
  guarded_read memory ranges = protect os memory read_write >> restore memory ranges

  -- The rest of `ensure_allocation_unique`, where the buffer is shared.
  unfoldable pub make_unique : ℕ → GuestAllocation → Action (Unit {0})
  unfolding allocation_protection_ranges guarded_read allocate_guest_host_memory_at
      apply_allocation_protections copy_into
  make_unique id allocation = do
    ranges ← gets (λ g. allocation_protection_ranges id g.vmas)
    guarded_read allocation.memory ranges
    mode ← gets (λ g. g.host_address_mode)
    fresh ← allocate_guest_host_memory_at allocation.guest_start allocation.memory.len mode
    let memory = copy_into 0 fresh.len allocation.memory.byte fresh
    apply_allocation_protections memory ranges
    edit (set_memory id memory)

  unfoldable pub ensure_allocation_unique : ℕ → Action (Unit {0})
  unfolding make_unique
  ensure_allocation_unique id = do
    found ← gets (λ g. OrdMap.get id g.allocations)
    allocation ← ok_or found not_mapped
    if allocation.memory.shared then make_unique id allocation else return tt

  unfoldable pub allocation_memory_mut : ℕ → Action HostMemory
  unfolding ensure_allocation_unique
  allocation_memory_mut id = do
    ensure_allocation_unique id
    found ← gets (λ g. OrdMap.get id g.allocations)
    allocation ← expect found
    if allocation.memory.shared then fail denied else return allocation.memory

  -- `allocation_memory_mut(id)?.as_mut_slice()[start..start + len].copy_from_slice(bytes)`.
  unfoldable pub write_allocation : ℕ → ℕ → ℕ → (ℕ → ℕ) → Action (Unit {0})
  unfolding allocation_memory_mut in_bounds copy_into
  write_allocation id start len bytes = do
    memory ← allocation_memory_mut id
    (if in_bounds memory start (start + len)
        then edit (set_memory id (copy_into start len bytes memory))
        else panic)

  -- The rest of `detach_shared_vma`, where the buffer is shared.
  unfoldable pub detach : GuestVma → GuestAllocation → Action (Unit {0})
  unfolding allocation_protection_ranges restore protect in_bounds allocate_guest_host_memory_at
      copy_into take_allocation_id
  detach vma allocation = do
    ranges ← gets (λ g. allocation_protection_ranges vma.allocation_id g.vmas)
    protect os allocation.memory read_write
    let start = vma.allocation_offset
    if in_bounds allocation.memory start (start + vma_len vma) then return tt else panic
    restore allocation.memory ranges
    mode ← gets (λ g. g.host_address_mode)
    fresh ← allocate_guest_host_memory_at vma.start (vma_len vma) mode
    let memory = copy_into 0 fresh.len (λ i. allocation.memory.byte (start + i)) fresh
    protect os memory (to_host vma.protection)
    id ← take_allocation_id
    edit (insert_allocation id vma.start memory)
    found ← gets (λ g. OrdMap.get vma.start g.vmas)
    detached ← ok_or found not_mapped
    edit (λ g. record g { vmas = OrdMap.modify vma.start (moved_to id 0) g.vmas })

  unfoldable pub detach_shared_vma : GuestVma → Action (Unit {0})
  unfolding detach
  detach_shared_vma vma = do
    found ← gets (λ g. OrdMap.get vma.allocation_id g.allocations)
    allocation ← ok_or found not_mapped
    if allocation.memory.shared then detach vma allocation else return tt

  -- `ensure_guest_range_unique` of a range that is not empty, in flexible mode.
  unfoldable pub detach_range : ℕ → ℕ → Action (Unit {0})
  unfolding split_vma_at keys_between for_each detach_shared_vma drop_unreferenced_allocations
  detach_range start end = do
    edit (λ g. record g { vmas = split_vma_at end (split_vma_at start g.vmas) })
    keys ← gets (λ g. keys_between start end g.vmas)
    for_each keys λ key. do
      found ← gets (λ g. OrdMap.get key g.vmas)
      vma ← ok_or found not_mapped
      detach_shared_vma vma
    edit drop_unreferenced_allocations

  unfoldable pub ensure_guest_range_unique : ℕ → ℕ → Action (Unit {0})
  unfolding is_fixed_guest allocation_ids for_each ensure_allocation_unique detach_range
  ensure_guest_range_unique start end = if leb end start then return tt else (do
    fixed ← gets (λ g. is_fixed_guest g.host_address_mode)
    ids ← gets (λ g. allocation_ids (λ v. ltb v.start end && ltb start v.end) g.vmas)
    if fixed then for_each ids ensure_allocation_unique else detach_range start end)

  unfoldable pub ensure_guest_page_range_unique : ℕ → ℕ → Action (Unit {0})
  unfolding align_up_to ensure_guest_range_unique
  ensure_guest_page_range_unique start end = if leb end start then return tt else (do
    page_end ← lift (align_up_to end guest_page_size)
    ensure_guest_range_unique (align_down_to start guest_page_size) page_end)
