-- ===== src/Memory/Reserve.antt =====
-- Host memory for a range of guest addresses, and the insertion of an area over it, in
-- crates/mcr-memory/src/lib.rs.
use mcr.Prelude.{
  ℕ, ◌+◌, ◌-◌, ◌^◌, ◌%◌, leb, min, max, Option, none, some, List, [], ◌∷◌, if◌then◌else◌,
}
use mcr.Prelude.OrdMap
use mcr.Prelude.OrdMap.{Map, nat_key}
use mcr.Prelude.OrdSet
use mcr.Memory.Error.{
  GuestMemoryError, invalid_address, region_too_large, Outcome, ok, err, panicked,
}
use mcr.Memory.Ranges.{checked_add, align_down_to, align_up_to, checked_raw_range}
use mcr.Memory.Vma.{GuestVma, vma_len}
use mcr.Memory.Map.{Vmas}
use mcr.Memory.State.{
  Host, HostMemory, GuestAllocation, guest_end, contains_guest_range, overlaps_guest_range,
  read_write, GuestMemory, Action, return, fail, lift, gets, expect, edit, ◌>>=◌, ◌>>◌, for_each,
  protect,
}
use mcr.Memory.Allocate.{
  AllocationProtectionRange, allocation_protection_ranges, copy_into, in_bounds, insert_allocation,
  moved_to, take_allocation_id, allocate_guest_host_memory_at, apply_allocation_protections,
  guarded_read, ensure_allocation_unique, write_allocation,
}

-- `checked_sub`, with an error where it underflows.
unfoldable pub checked_sub : ℕ → ℕ → GuestMemoryError → Outcome ℕ
checked_sub a b e = if leb b a then ok (a - b) else err e

-- `-` of a release build, which wraps around.
unfoldable pub wrapping_sub : ℕ → ℕ → ℕ
wrapping_sub a b = (a + 2 ^ 64 - b) % 2 ^ 64

-- `iter().find(..)` of the allocations that hold a range.
unfoldable pub find_holding : ℕ → ℕ → Map ℕ GuestAllocation → Option (ℕ × GuestAllocation)
unfolding contains_guest_range
find_holding start end [] = none
find_holding start end ((k, a) ∷ m) =
    let rest = find_holding start end m in
    if contains_guest_range a start end then some (k, a) else rest

unfoldable pub overlapping_ids : ℕ → ℕ → Map ℕ GuestAllocation → List ℕ
unfolding overlaps_guest_range
overlapping_ids start end [] = []
overlapping_ids start end ((k, a) ∷ m) =
    let rest = overlapping_ids start end m in
    if overlaps_guest_range a start end then k ∷ rest else rest

-- The range that also holds some allocations.
unfoldable pub hull : List ℕ → Map ℕ GuestAllocation → ℕ × ℕ → ℕ × ℕ
unfolding guest_end
hull [] allocations range = range
hull (id ∷ ids) allocations (start, end) = elim (OrdMap.get id allocations) [
  | none ↦ hull ids allocations (start, end)
  | some a ↦ hull ids allocations (min start a.guest_start, max end (guest_end a))
]

pub record SavedAllocation : Type 0 where
  pub allocation_id : ℕ
  pub guest_start : ℕ
  pub len : ℕ
  pub bytes : ℕ → ℕ
  pub ranges : List AllocationProtectionRange

unfoldable pub remove_allocations : List ℕ → Map ℕ GuestAllocation → Map ℕ GuestAllocation
remove_allocations [] allocations = allocations
remove_allocations (id ∷ ids) allocations = remove_allocations ids (OrdMap.remove id allocations)

-- The areas of some allocations, over one buffer that starts at an address.
unfoldable pub moved_over : List ℕ → ℕ → ℕ → GuestVma → GuestVma
unfolding wrapping_sub
moved_over ids id start v =
    if OrdSet.contains v.allocation_id ids then moved_to id (wrapping_sub v.start start) v else v

unfoldable pub move_areas : List ℕ → ℕ → ℕ → Vmas → Vmas
unfolding moved_over
move_areas ids id start [] = []
move_areas ids id start ((k, v) ∷ m) = (k, moved_over ids id start v) ∷ move_areas ids id start m

unfoldable pub replacement_ranges : List ℕ → ℕ → Vmas → List AllocationProtectionRange
unfolding wrapping_sub
replacement_ranges ids start vmas =
    OrdMap.select
      (λ v.
        if OrdSet.contains v.allocation_id ids
        then some (record {
          offset = wrapping_sub v.start start;
          len = vma_len v;
          protection = v.protection;
        })
        else none)
      vmas

-- The bytes of the saved buffers in the new one, a slice out of bounds being a panic.
unfoldable pub copy_saved : ℕ → List SavedAllocation → HostMemory → Outcome HostMemory
unfolding copy_into in_bounds wrapping_sub
copy_saved start [] memory = ok memory
copy_saved start (s ∷ saved) memory =
    let offset = wrapping_sub s.guest_start start in
    if in_bounds memory offset (offset + s.len)
    then copy_saved start saved (copy_into offset s.len s.bytes memory)
    else panicked

-- The result of an action, and after an error of it another action, whose own error goes first.
unfoldable pub handle {ℓ} :
    {A : Type ℓ} → Action (Unit {0}) → Outcome A × GuestMemory → Outcome A × GuestMemory
handle handler (ok a, g) = (ok a, g)
handle handler (panicked, g) = (panicked, g)
handle handler (err e, g) = (handler >> fail e) g

unfoldable pub or_else {ℓ} : {A : Type ℓ} → Action A → Action (Unit {0}) → Action A
unfolding handle
or_else m handler g = handle handler (m g)

module _ (os : Host) where
  unfoldable pub host_allocation_range : ℕ → ℕ → Outcome (ℕ × ℕ)
  unfolding checked_raw_range align_up_to
  host_allocation_range start length = elim (checked_raw_range start length) [
    | err e ↦ err e
    | panicked ↦ panicked
    | ok end ↦ elim (align_up_to end os.granularity) [
      | err e ↦ err e
      | panicked ↦ panicked
      | ok guest_end ↦
          ok (align_down_to start os.granularity, guest_end - align_down_to start os.granularity)
    ]
  ]

  unfoldable pub save_allocations : List ℕ → Action (List SavedAllocation)
  unfolding allocation_protection_ranges guarded_read
  save_allocations [] = return []
  save_allocations (id ∷ ids) = do
    ranges ← gets (λ g. allocation_protection_ranges id g.vmas)
    found ← gets (λ g. OrdMap.get id g.allocations)
    allocation ← expect found
    guarded_read os allocation.memory ranges
    saved ← save_allocations ids
    return (
        record {
          allocation_id = id;
          guest_start = allocation.guest_start;
          len = allocation.memory.len;
          bytes = allocation.memory.byte;
          ranges = ranges;
        }
        ∷ saved)

  unfoldable pub restore_saved_allocations : List SavedAllocation → Action (Unit {0})
  unfolding for_each allocate_guest_host_memory_at copy_into apply_allocation_protections
  restore_saved_allocations saved = for_each saved λ s. do
    mode ← gets (λ g. g.host_address_mode)
    fresh ← allocate_guest_host_memory_at os s.guest_start s.len mode
    let memory = copy_into 0 s.len s.bytes fresh
    apply_allocation_protections os memory s.ranges
    edit (insert_allocation s.allocation_id s.guest_start memory)

  unfoldable pub replace_overlapping_allocations : ℕ → ℕ → ℕ → List ℕ → Action (ℕ × ℕ)
  unfolding save_allocations replacement_ranges remove_allocations checked_sub or_else
      restore_saved_allocations allocate_guest_host_memory_at copy_saved take_allocation_id
      apply_allocation_protections move_areas wrapping_sub
  replace_overlapping_allocations requested_start start end ids = do
    saved ← save_allocations ids
    ranges ← gets (λ g. replacement_ranges ids start g.vmas)
    edit (λ g. record g { allocations = remove_allocations ids g.allocations })
    len ← lift (checked_sub end start invalid_address)
    mode ← gets (λ g. g.host_address_mode)
    fresh ←
        or_else (allocate_guest_host_memory_at os start len mode) (restore_saved_allocations saved)
    memory ← lift (copy_saved start saved fresh)
    id ← take_allocation_id
    edit (insert_allocation id start memory)
    or_else (apply_allocation_protections os memory ranges) (do
      edit (λ g. record g { allocations = OrdMap.remove id g.allocations })
      restore_saved_allocations saved)
    edit (λ g. record g { vmas = move_areas ids id start g.vmas })
    return (id, wrapping_sub requested_start start)

  -- The rest of `ensure_host_allocation`, where no allocation overlaps.
  unfoldable pub allocate_new : ℕ → ℕ → ℕ → Action (ℕ × ℕ)
  unfolding checked_sub allocate_guest_host_memory_at take_allocation_id
  allocate_new start guest_start guest_end = do
    offset ← lift (checked_sub start guest_start invalid_address)
    len ← lift (checked_sub guest_end guest_start invalid_address)
    mode ← gets (λ g. g.host_address_mode)
    memory ← allocate_guest_host_memory_at os guest_start len mode
    id ← take_allocation_id
    edit (insert_allocation id guest_start memory)
    return (id, offset)

  -- The rest of `ensure_host_allocation`, where no allocation holds the range.
  unfoldable pub reserve : ℕ → ℕ → Action (ℕ × ℕ)
  unfolding host_allocation_range checked_raw_range overlapping_ids hull
      replace_overlapping_allocations allocate_new OrdSet.is_empty
  reserve start length = do
    range ← lift (host_allocation_range start length)
    guest_end ← lift (checked_raw_range range.0 range.1)
    ids ← gets (λ g. overlapping_ids range.0 guest_end g.allocations)
    whole ← gets (λ g. hull ids g.allocations (range.0, guest_end))
    (if OrdSet.is_empty ids
        then allocate_new start whole.0 whole.1
        else replace_overlapping_allocations start whole.0 whole.1 ids)

  unfoldable pub ensure_host_allocation : ℕ → ℕ → Action (ℕ × ℕ)
  unfolding checked_raw_range find_holding reserve
  ensure_host_allocation start length = do
    end ← lift (checked_raw_range start length)
    found ← gets (λ g. find_holding start end g.allocations)
    elim found [
      | some (id, allocation) ↦ return (id, start - allocation.guest_start)
      | none ↦ reserve start length
    ]

  unfoldable pub zero_allocation_range : ℕ → ℕ → ℕ → Action (Unit {0})
  unfolding allocation_protection_ranges ensure_allocation_unique protect write_allocation
      apply_allocation_protections
  zero_allocation_range id offset len = do
    end ← lift (checked_add offset len region_too_large)
    ranges ← gets (λ g. allocation_protection_ranges id g.vmas)
    ensure_allocation_unique os id
    found ← gets (λ g. OrdMap.get id g.allocations)
    allocation ← expect found
    protect os allocation.memory read_write
    write_allocation os id offset len (λ _. 0)
    found ← gets (λ g. OrdMap.get id g.allocations)
    allocation ← expect found
    apply_allocation_protections os allocation.memory ranges
