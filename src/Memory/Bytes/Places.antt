-- ===== src/Memory/Bytes/Places.antt =====
-- What the changes of areas and allocations that end sharing do to the bytes of the guest: crates/mcr-memory/src/lib.rs.
use mcr.Prelude.{
  ℕ, ◌≤◌, ◌<◌, ◌≡◌, refl, ap, ==_iff, true, Option, none, some, List, [], ◌∷◌, inl, inr, arith,
  if◌then◌else◌, Option-cases,
}
use mcr.Prelude.OrdMap
use mcr.Prelude.OrdMap.{Map, nat_key, get-insert, get-modify}
use mcr.Prelude.OrdSet
use mcr.Prelude.OrdSet.{contains-insert}
use mcr.Memory.Vma.{GuestVma, vma_contains}
use mcr.Memory.Map.{Vmas}
use mcr.Memory.Map.Order.{Ordered}
use mcr.Memory.Map.Cut.{Cell, cell_of, cell_at}
use mcr.Memory.State.{GuestAllocation, HostMemory}
use mcr.Memory.Allocate.{moved_to, with_memory, allocation_ids, retain_ids}
use mcr.Memory.Bytes.{byte_in, content_of}

pub get-Ordered :
    (low k : ℕ) (m : Vmas) (v : GuestVma)
    → Ordered low m
    → OrdMap.get k m ≡ some v
    → (low ≤ v.start) × (v.start ≡ k) × (k < v.end)
unfolding OrdMap.get
get-Ordered low k [] v o e = absurd (ground (arith, e))
get-Ordered low k ((j, w) ∷ m) v o e = ground (arith, e, ==_iff j k, get-Ordered w.end k m v o.3)

-- An area holds the places of its addresses.
pub cell_at-get :
    (low k : ℕ) (m : Vmas) (v : GuestVma) (x : ℕ)
    → Ordered low m
    → OrdMap.get k m ≡ some v
    → vma_contains v x ≡ true
    → cell_at m x ≡ some (cell_of v x)
unfolding OrdMap.get cell_at
cell_at-get low k [] v x o e h = absurd (ground (arith, e))
cell_at-get low k ((j, w) ∷ m) v x o e h =
    ground (arith, e, h, ==_iff j k, get-Ordered w.end k m v o.3, cell_at-get w.end k m v x o.3)

modify_absent :
    (k low : ℕ) (f : GuestVma → GuestVma) (m : Vmas)
    → Ordered low m
    → k < low
    → OrdMap.modify k f m ≡ m
unfolding OrdMap.modify
modify_absent k low f [] o h = refl
modify_absent k low f ((j, w) ∷ m) o h = ground (arith, ==_iff j k, modify_absent k w.end f m o.3)

cell_at-modify_absent :
    (k low id : ℕ) (m : Vmas) (x : ℕ)
    → Ordered low m
    → k < low
    → cell_at (OrdMap.modify k (moved_to id 0) m) x ≡ cell_at m x
cell_at-modify_absent k low id m x o h = ap (λ n. cell_at n x) (modify_absent k low _ m o h)

-- An area under a key that gets another place.
pub cell_at-moved_to :
    (low k id : ℕ) (m : Vmas) (v : GuestVma) (x : ℕ)
    → Ordered low m
    → OrdMap.get k m ≡ some v
    → cell_at (OrdMap.modify k (moved_to id 0) m) x
      ≡ (if vma_contains v x then some (cell_of (moved_to id 0 v) x) else cell_at m x)
unfolding OrdMap.get OrdMap.modify cell_at
cell_at-moved_to low k id [] v x o e = absurd (ground (arith, e))
cell_at-moved_to low k id ((j, w) ∷ m) v x o e = ground (
  arith,
  e,
  ==_iff j k,
  get-Ordered w.end k m v o.3,
  cell_at-moved_to w.end k id m v x o.3,
  cell_at-modify_absent k w.end id m x o.3,
)

get-retain_ids :
    (ids : List ℕ) (id : ℕ) (m : Map ℕ GuestAllocation)
    → OrdSet.contains id ids ≡ true
    → OrdMap.get id (retain_ids ids m) ≡ OrdMap.get id m
unfolding OrdMap.get retain_ids
get-retain_ids ids id [] h = refl
get-retain_ids ids id ((j, a) ∷ m) h = ground (arith, h, ==_iff j id, get-retain_ids ids id m h)

contains-allocation_ids :
    (m : Vmas) (x : ℕ) (c : Cell)
    → cell_at m x ≡ some c
    → OrdSet.contains c.allocation_id (allocation_ids (λ _. true) m) ≡ true
unfolding cell_at allocation_ids
contains-allocation_ids [] x c e = absurd (ground (arith, e))
contains-allocation_ids ((k, v) ∷ m) x c e = ground (
  arith,
  e,
  contains-insert v.allocation_id c.allocation_id (allocation_ids (λ _. true) m),
  contains-allocation_ids m x c,
)

-- The bytes behind the cells of some areas, when the allocation of one id gets a buffer of the same
-- length and bytes.
pub content_of-copied :
    (id : ℕ) (allocations : Map ℕ GuestAllocation) (old : GuestAllocation) (new : HostMemory)
    (c : Option Cell)
    → OrdMap.get id allocations ≡ some old
    → new.len ≡ old.memory.len
    → ((i : ℕ) → i < old.memory.len → new.byte i ≡ old.memory.byte i)
    → content_of (OrdMap.modify id (with_memory new) allocations) c ≡ content_of allocations c
unfolding content_of byte_in with_memory
content_of-copied id allocations old new none e l b = refl
content_of-copied id allocations old new (some c) e l b = ground (
  arith,
  e,
  l,
  b c.offset,
  ==_iff id c.allocation_id,
  get-modify id c.allocation_id (with_memory new) allocations,
)

-- The bytes, when an allocation comes under an id that no cell names.
pub content_of-inserted :
    (id : ℕ) (allocations : Map ℕ GuestAllocation) (new : GuestAllocation) (c : Option Cell)
    → ((d : Cell) → c ≡ some d → d.allocation_id < id)
    → content_of (OrdMap.insert id new allocations) c ≡ content_of allocations c
unfolding content_of byte_in
content_of-inserted id allocations new none h = refl
content_of-inserted id allocations new (some c) h =
    ground
      (arith, h c refl, ==_iff id c.allocation_id, get-insert id c.allocation_id new allocations)

-- The bytes, when the allocations that no area names are dropped.
pub content_of-retained :
    (m : Vmas) (allocations : Map ℕ GuestAllocation) (x : ℕ)
    → content_of (retain_ids (allocation_ids (λ _. true) m) allocations) (cell_at m x)
      ≡ content_of allocations (cell_at m x)
unfolding content_of
content_of-retained m allocations x = elim (Option-cases (cell_at m x)) [
  | inl e ↦ rw (e, content_of) refl
  | inr (c, e) ↦
      rw (e, content_of)
        (ap (λ a. byte_in a c.offset)
          (get-retain_ids (allocation_ids (λ _. true) m) c.allocation_id allocations
            (contains-allocation_ids m x c e)))
]
