-- ===== src/Memory/Quiet/Moves.antt =====
-- The changes of areas that keep the protection and kind of every address: cuts, and other places in
-- host memory.
use mathlib.Core.Option
use mcr.Prelude.{ℕ, ◌≡◌, refl, ap, ◌==◌, List, [], ◌∷◌, inl, inr, arith, Bool-cases}
use mcr.Prelude.OrdMap
use mcr.Prelude.OrdMap.{nat_key}
use mcr.Prelude.OrdSet
use mcr.Memory.Map.{Vmas, split_vma_at}
use mcr.Memory.Map.Order.{Ordered}
use mcr.Memory.Map.Cut.{cell_at, Edge, split_vma_at-IsCut}
use mcr.Memory.Allocate.{moved_to}
use mcr.Memory.Reserve.{moved_over, move_areas}
use mcr.Memory.Quiet.{attributes_of, attributes_at, Same, Same-trans}

pub split-Same : (m : Vmas) (a : ℕ) → Ordered 0 m → Same m (split_vma_at a m)
split-Same m a o =
    let cut = split_vma_at-IsCut m a o in
    record {
      ordered = cut.ordered;
      edges = cut.edges;
      attributes = λ x. ap (Option.map attributes_of) (cut.cells x);
    }

pub splits-Same :
    (m : Vmas) (start end : ℕ) → Ordered 0 m → Same m (split_vma_at end (split_vma_at start m))
splits-Same m start end o =
    let first = split-Same m start o in
    Same-trans m (split_vma_at start m) (split_vma_at end (split_vma_at start m)) first
      (split-Same (split_vma_at start m) end first.ordered)

module _ (k id offset : ℕ) where
  modify-Ordered :
      (low : ℕ) (m : Vmas) → Ordered low m → Ordered low (OrdMap.modify k (moved_to id offset) m)
  unfolding OrdMap.modify
  modify-Ordered low [] o = tt
  modify-Ordered low ((j, v) ∷ m) o = elim (Bool-cases (j == k)) [
    | inl e ↦ rw (e, OrdMap.modify) (o.0, o.1, o.2, modify-Ordered v.end m o.3)
    | inr e ↦ rw (e, OrdMap.modify) (o.0, o.1, o.2, modify-Ordered v.end m o.3)
  ]

  modify-Edge : (b : ℕ) (m : Vmas) → Edge b m → Edge b (OrdMap.modify k (moved_to id offset) m)
  unfolding OrdMap.modify
  modify-Edge b [] h = tt
  modify-Edge b ((j, v) ∷ m) h = elim (Bool-cases (j == k)) [
    | inl e ↦ rw (e, OrdMap.modify) (h.0, modify-Edge b m h.1)
    | inr e ↦ rw (e, OrdMap.modify) (h.0, modify-Edge b m h.1)
  ]

  attributes_at-modify :
      (m : Vmas) (x : ℕ)
      → attributes_at (OrdMap.modify k (moved_to id offset) m) x ≡ attributes_at m x
  unfolding OrdMap.modify cell_at
  attributes_at-modify [] x = refl
  attributes_at-modify ((j, v) ∷ m) x = ground (arith, attributes_at-modify m x)

  pub modify-Same : (m : Vmas) → Ordered 0 m → Same m (OrdMap.modify k (moved_to id offset) m)
  modify-Same m o = record {
    ordered = modify-Ordered 0 m o;
    edges = λ b h. modify-Edge b m h;
    attributes = attributes_at-modify m;
  }

module _ (ids : List ℕ) (id start : ℕ) where
  move_areas-Ordered :
      (low : ℕ) (m : Vmas) → Ordered low m → Ordered low (move_areas ids id start m)
  unfolding move_areas moved_over
  move_areas-Ordered low [] o = tt
  move_areas-Ordered low ((j, v) ∷ m) o = elim (Bool-cases (OrdSet.contains v.allocation_id ids)) [
    | inl e ↦ rw (e, moved_over) (o.0, o.1, o.2, move_areas-Ordered v.end m o.3)
    | inr e ↦ rw (e, moved_over) (o.0, o.1, o.2, move_areas-Ordered v.end m o.3)
  ]

  move_areas-Edge : (b : ℕ) (m : Vmas) → Edge b m → Edge b (move_areas ids id start m)
  unfolding move_areas moved_over
  move_areas-Edge b [] h = tt
  move_areas-Edge b ((j, v) ∷ m) h = elim (Bool-cases (OrdSet.contains v.allocation_id ids)) [
    | inl e ↦ rw (e, moved_over) (h.0, move_areas-Edge b m h.1)
    | inr e ↦ rw (e, moved_over) (h.0, move_areas-Edge b m h.1)
  ]

  attributes_at-move_areas :
      (m : Vmas) (x : ℕ) → attributes_at (move_areas ids id start m) x ≡ attributes_at m x
  unfolding move_areas moved_over cell_at
  attributes_at-move_areas [] x = refl
  attributes_at-move_areas ((j, v) ∷ m) x = ground (arith, attributes_at-move_areas m x)

  pub move_areas-Same : (m : Vmas) → Ordered 0 m → Same m (move_areas ids id start m)
  move_areas-Same m o = record {
    ordered = move_areas-Ordered 0 m o;
    edges = λ b h. move_areas-Edge b m h;
    attributes = attributes_at-move_areas m;
  }
