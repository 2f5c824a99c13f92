-- ===== src/Memory/Brk.antt =====
-- `set_brk` of crates/mcr-memory/src/lib.rs: the areas of the heap.
use mcr.Prelude.{
  ℕ, ◌-◌, ◌==◌, Bool, true, false, not, ◌&&◌, ◌||◌, ltb, leb, max, Option, none, some, List, [],
  ◌∷◌, if◌then◌else◌,
}
use mcr.Prelude.OrdMap
use mcr.Prelude.OrdMap.{nat_key}
use mcr.Memory.Error.{
  Outcome, GuestMemoryError, invalid_address, no_memory, region_too_large, ok, err, panicked,
}
use mcr.Memory.Ranges.{align_up, checked_add}
use mcr.Memory.Vma.{GuestVma, GuestMemoryProtection, heap, is_heap}
use mcr.Memory.Map.{Vmas, split_vma_at, remove_keys, heap_vma}
use mcr.Memory.State.{
  Host, to_host, GuestMemory, Action, return, fail, lift, gets, expect, edit, ◌>>=◌, ◌>>◌,
  protect_range,
}
use mcr.Memory.Allocate.{drop_unreferenced_allocations, ensure_allocation_unique}
use mcr.Memory.Reserve.{checked_sub, ensure_host_allocation, zero_allocation_range}

pub record GuestBrkOutcome : Type 0 where
  pub current : ℕ
  pub error : Option GuestMemoryError

-- The keys of the heap's areas from an address on.
unfoldable pub heap_keys : ℕ → Vmas → List ℕ
unfolding is_heap
heap_keys from [] = []
heap_keys from ((k, v) ∷ m) =
    let rest = heap_keys from m in if leb from k && is_heap v.kind then k ∷ rest else rest

unfoldable pub remove_heap_from : ℕ → GuestMemory → GuestMemory
unfolding heap_keys remove_keys drop_unreferenced_allocations
remove_heap_from from g =
    drop_unreferenced_allocations (record g { vmas = remove_keys (heap_keys from g.vmas) g.vmas })

unfoldable pub remove_heap_vmas : GuestMemory → GuestMemory
unfolding remove_heap_from
remove_heap_vmas g = remove_heap_from 0 g

unfoldable pub heap_mapped_end : ℕ → Vmas → ℕ
unfolding heap_vma
heap_mapped_end brk_base vmas = elim (heap_vma vmas) [
  | none ↦ brk_base
  | some v ↦ max v.end brk_base
]

-- The test of `ensure_brk_can_grow`: an area that is not of the heap stands in the way.
unfoldable pub in_the_way : ℕ → ℕ → Vmas → Bool
unfolding is_heap
in_the_way old_mapped_end new_mapped_end [] = false
in_the_way old_mapped_end new_mapped_end ((k, v) ∷ m) =
    (not (is_heap v.kind) && ltb v.start new_mapped_end && ltb old_mapped_end v.end)
    || in_the_way old_mapped_end new_mapped_end m

unfoldable pub ensure_brk_can_grow : ℕ → ℕ → Action (Unit {0})
unfolding in_the_way
ensure_brk_can_grow old_mapped_end new_mapped_end = do
  blocked ← gets (λ g. in_the_way old_mapped_end new_mapped_end g.vmas)
  if blocked then fail no_memory else return tt

unfoldable pub shrink_heap : ℕ → GuestMemory → GuestMemory
unfolding split_vma_at remove_heap_from remove_heap_vmas
shrink_heap mapped_end g =
    if leb mapped_end g.brk_base
    then remove_heap_vmas g
    else remove_heap_from mapped_end (record g { vmas = split_vma_at mapped_end g.vmas })

abbrev pub heap_protection : GuestMemoryProtection
heap_protection = record { read = true; write = true; execute = false }

abbrev pub heap_area : ℕ → ℕ → ℕ × ℕ → GuestVma
heap_area brk_base mapped_end (id, offset) = record {
  start = brk_base;
  end = mapped_end;
  protection = heap_protection;
  kind = heap;
  allocation_id = id;
  allocation_offset = offset;
}

-- The outcome of `set_brk`, by that of `try_set_brk`.
unfoldable pub report : Outcome (Unit {0}) × GuestMemory → Outcome GuestBrkOutcome × GuestMemory
report (ok _, g) = (ok (record { current = g.current_brk; error = none }), g)
report (err e, g) = (ok (record { current = g.current_brk; error = some e }), g)
report (panicked, g) = (panicked, g)

module _ (os : Host) where
  -- The new part of the heap's memory, which is zeroed.
  unfoldable pub zero_growth : ℕ → ℕ → ℕ → ℕ × ℕ → Action (Unit {0})
  unfolding checked_sub zero_allocation_range
  zero_growth brk_base zero_start mapped_end (id, offset) =
      if leb mapped_end zero_start then return tt else (do
        grown ← lift (checked_sub zero_start brk_base invalid_address)
        zero_offset ← lift (checked_add offset grown region_too_large)
        zero_allocation_range os id zero_offset (mapped_end - zero_start))

  unfoldable pub resize_heap : ℕ → Action (Unit {0})
  unfolding remove_heap_vmas heap_mapped_end checked_sub ensure_host_allocation zero_growth
      ensure_allocation_unique protect_range to_host
  resize_heap mapped_end = do
    brk_base ← gets (λ g. g.brk_base)
    (if mapped_end == brk_base then edit remove_heap_vmas else (do
      old_mapped_end ← gets (λ g. heap_mapped_end g.brk_base g.vmas)
      new_size ← lift (checked_sub mapped_end brk_base invalid_address)
      place ← ensure_host_allocation os brk_base new_size
      zero_growth brk_base (max old_mapped_end brk_base) mapped_end place
      edit (λ g. record g {
        vmas = OrdMap.insert brk_base (heap_area brk_base mapped_end place) g.vmas;
      })
      ensure_allocation_unique os place.0
      found ← gets (λ g. OrdMap.get place.0 g.allocations)
      allocation ← expect found
      protect_range os allocation.memory place.1 new_size (to_host heap_protection)))

  -- The areas of the heap after `try_set_brk`.
  unfoldable pub move_heap_end : ℕ → ℕ → Action (Unit {0})
  unfolding ensure_brk_can_grow resize_heap shrink_heap
  move_heap_end old_mapped_end new_mapped_end =
      if ltb old_mapped_end new_mapped_end
      then ensure_brk_can_grow old_mapped_end new_mapped_end >> resize_heap new_mapped_end
      else if ltb new_mapped_end old_mapped_end
      then edit (shrink_heap new_mapped_end)
      else return tt

  unfoldable pub try_set_brk : ℕ → Action (Unit {0})
  unfolding align_up heap_mapped_end move_heap_end
  try_set_brk requested = do
    new_mapped_end ← lift (align_up requested)
    space_end ← gets (λ g. g.address_space_end)
    if ltb space_end new_mapped_end then fail no_memory else return tt
    old_mapped_end ← gets (λ g. heap_mapped_end g.brk_base g.vmas)
    move_heap_end old_mapped_end new_mapped_end
    edit (λ g. record g { current_brk = requested })

  unfoldable pub set_brk : ℕ → Action GuestBrkOutcome
  unfolding try_set_brk report
  set_brk requested g =
      if requested == 0
      then (ok (record { current = g.current_brk; error = none }), g)
      else if ltb requested g.brk_base
      then (ok (record { current = g.current_brk; error = some invalid_address }), g)
      else report (try_set_brk requested g)
