-- ===== src/Memory/Map/Cut.antt =====
-- Cutting an area in two at an address: `split_vma_at`.
use mcr.Prelude.{
  ℕ, ◌+◌, ◌-◌, ◌≤◌, ◌<◌, ◌≡◌, ◌⊎◌, refl, ◌&&◌, Bool, false, ltb, leb, Option, none, some, [], ◌∷◌,
  inl, inr, arith, if◌then◌else◌, Bool-cases,
}
use mcr.Prelude.OrdMap
use mcr.Prelude.OrdMap.{Map, nat_key}
use mcr.Memory.Vma.{GuestVma, GuestMemoryProtection, GuestVmaKind, vma_contains}
use mcr.Memory.Map.{
  Vmas, last_at_most, vma_containing, containing, left_part, right_part, split_found, split_vma_at,
}
use mcr.Memory.Map.Order.{Ordered, vma_containing-tail, vma_containing-le, last_at_most-below}

-- What an address of an area has: its protection and kind, and its place in the host's memory.
pub record Cell : Type 0 where
  pub protection : GuestMemoryProtection
  pub kind : GuestVmaKind
  pub allocation_id : ℕ
  pub offset : ℕ

abbrev pub cell_of : GuestVma → ℕ → Cell
cell_of v a = record {
  protection = v.protection;
  kind = v.kind;
  allocation_id = v.allocation_id;
  offset = v.allocation_offset + (a - v.start);
}

unfoldable pub cell_at : Vmas → ℕ → Option Cell
cell_at [] a = none
cell_at ((k, v) ∷ m) a = if vma_contains v a then some (cell_of v a) else cell_at m a

-- No area lies on both sides of an address.
abbrev pub Edge : ℕ → Vmas → Type 0
Edge a [] = Unit {0}
Edge a ((k, v) ∷ m) = ((a ≤ v.start) ⊎ (v.end ≤ a)) × Edge a m

inside : ℕ → GuestVma → Bool
inside a v = ltb v.start a && ltb a v.end

-- The cut by a walk over the areas.
cut : ℕ → Vmas → Vmas
cut a [] = []
cut a ((k, v) ∷ m) =
    if inside a v then (v.start, left_part a v) ∷ (a, right_part a v) ∷ m else (k, v) ∷ cut a m

insert_front :
    (k low : ℕ) (v : GuestVma) (m : Vmas)
    → Ordered low m
    → k < low
    → OrdMap.insert k v m ≡ (k, v) ∷ m
unfolding OrdMap.insert
insert_front k low v [] o h = refl
insert_front k low v ((j, w) ∷ m) o h = ground arith

insert_later :
    (k j : ℕ) (v w : GuestVma) (m : Vmas)
    → j < k
    → OrdMap.insert k v ((j, w) ∷ m) ≡ (j, w) ∷ OrdMap.insert k v m
unfolding OrdMap.insert
insert_later k j v w m h = ground arith

remove_absent : (k low : ℕ) (m : Vmas) → Ordered low m → k < low → OrdMap.remove k m ≡ m
unfolding OrdMap.remove
remove_absent k low [] o h = refl
remove_absent k low ((j, w) ∷ m) o h = ground (arith, remove_absent k w.end m o.3)

split_found-tail :
    (k : ℕ) (v : GuestVma) (m : Vmas) (a : ℕ) (found : Option GuestVma)
    → k < a
    → ((w : GuestVma) → found ≡ some w → k < w.start)
    → split_found a ((k, v) ∷ m) found ≡ (k, v) ∷ split_found a m found
unfolding split_found OrdMap.insert OrdMap.remove
split_found-tail k v m a none h later = refl
split_found-tail k v m a (some w) h later = ground (arith, h, later w refl)

split_vma_at-tail :
    (k : ℕ) (v : GuestVma) (m : Vmas) (a : ℕ)
    → k < v.end
    → v.end ≤ a
    → Ordered v.end m
    → split_vma_at a ((k, v) ∷ m) ≡ (k, v) ∷ split_vma_at a m
unfolding split_vma_at
split_vma_at-tail k v m a n h o = rw (vma_containing-tail k v m a h) (
    split_found-tail k v m a (vma_containing m a) (omega arith)
      λ w e. omega (arith, vma_containing-le v.end m a w o e))

-- The head holds the address.
split_vma_at-head :
    (k : ℕ) (v : GuestVma) (m : Vmas) (a : ℕ)
    → v.start ≡ k
    → k < a
    → a < v.end
    → Ordered v.end m
    → split_vma_at a ((k, v) ∷ m) ≡ (v.start, left_part a v) ∷ (a, right_part a v) ∷ m
unfolding split_vma_at split_found vma_containing last_at_most containing OrdMap.insert
    OrdMap.remove
split_vma_at-head k v m a e g h o = ground (
  arith,
  last_at_most-below v.end m a o,
  remove_absent v.start v.end m o,
  insert_front v.start v.end (left_part a v) m o,
  insert_front a v.end (right_part a v) m o,
)

-- An address at or below the head's start cuts nothing.
split_vma_at-outside :
    (k : ℕ) (v : GuestVma) (m : Vmas) (a : ℕ)
    → v.start ≡ k
    → k < v.end
    → a ≤ k
    → Ordered v.end m
    → split_vma_at a ((k, v) ∷ m) ≡ (k, v) ∷ m
unfolding split_vma_at split_found vma_containing last_at_most containing
split_vma_at-outside k v m a e n h o = ground (arith, last_at_most-below v.end m a o)

cut-outside : (a low : ℕ) (m : Vmas) → Ordered low m → a ≤ low → cut a m ≡ m
unfolding cut inside
cut-outside a low [] o h = refl
cut-outside a low ((k, v) ∷ m) o h = ground (arith, cut-outside a v.end m o.3)

-- On ordered areas, `split_vma_at` is the cut by a walk.
split_vma_at-eq-cut : (low : ℕ) (m : Vmas) (a : ℕ) → Ordered low m → split_vma_at a m ≡ cut a m
unfolding cut inside
split_vma_at-eq-cut low [] a o = unfold split_vma_at in refl
split_vma_at-eq-cut low ((k, v) ∷ m) a o = ground (
  arith,
  split_vma_at-outside k v m a o.1 o.2,
  split_vma_at-head k v m a o.1,
  split_vma_at-tail k v m a o.2,
  split_vma_at-eq-cut v.end m a o.3,
  cut-outside a v.end m o.3,
)

cut-Ordered : (low : ℕ) (m : Vmas) (a : ℕ) → Ordered low m → Ordered low (cut a m)
unfolding cut inside
cut-Ordered low [] a o = tt
cut-Ordered low ((k, v) ∷ m) a o = elim (Bool-cases (inside a v)) [
  | inl e ↦
      rw (e, cut)
        (ground (arith, e), refl, ground (arith, e), (omega arith, refl, ground (arith, e), o.3))
  | inr e ↦ rw (e, cut) (o.0, o.1, o.2, cut-Ordered v.end m a o.3)
]

cell_at-cut : (m : Vmas) (a x : ℕ) → cell_at (cut a m) x ≡ cell_at m x
unfolding cut inside cell_at
cell_at-cut [] a x = refl
cell_at-cut ((k, v) ∷ m) a x = ground (arith, cell_at-cut m a x)

Edge-beyond : (low : ℕ) (m : Vmas) (a : ℕ) → Ordered low m → a ≤ low → Edge a m
Edge-beyond low [] a o h = tt
Edge-beyond low ((k, v) ∷ m) a o h = (inl (omega arith), Edge-beyond v.end m a o.3 (omega arith))

outside_cases : (a : ℕ) (v : GuestVma) → inside a v ≡ false → (a ≤ v.start) ⊎ (v.end ≤ a)
unfolding inside
outside_cases a v e = elim (Bool-cases (leb a v.start)) [
  | inl h ↦ inl (ground (arith, h))
  | inr h ↦ inr (ground (arith, h, e))
]

cut-Edge : (low : ℕ) (m : Vmas) (a : ℕ) → Ordered low m → Edge a (cut a m)
unfolding cut inside
cut-Edge low [] a o = tt
cut-Edge low ((k, v) ∷ m) a o = elim (Bool-cases (inside a v)) [
  | inl e ↦
      rw (e, cut)
        (inr (omega arith), (inl (omega arith), Edge-beyond v.end m a o.3 (ground (arith, e))))
  | inr e ↦ rw (e, cut) (outside_cases a v e, cut-Edge v.end m a o.3)
]

cut-Edge_kept : (m : Vmas) (a b : ℕ) → Edge b m → Edge b (cut a m)
unfolding cut inside
cut-Edge_kept [] a b h = tt
cut-Edge_kept ((k, v) ∷ m) a b h = elim (Bool-cases (inside a v)) [
  | inl e ↦ elim h.0 [
    | inl below ↦ rw (e, cut) (inl below, (inl (ground (arith, e, below)), h.1))
    | inr above ↦ rw (e, cut) (inr (ground (arith, e, above)), (inr above, h.1))
  ]
  | inr e ↦ rw (e, cut) (h.0, cut-Edge_kept m a b h.1)
]

-- What a cut at an address does.
pub record IsCut (a : ℕ) (m m' : Vmas) : Type 0 where
  pub ordered : Ordered 0 m'
  pub edge : Edge a m'
  pub edges : (b : ℕ) → Edge b m → Edge b m'
  pub cells : (x : ℕ) → cell_at m' x ≡ cell_at m x

-- On ordered areas, `split_vma_at` keeps the order, leaves no area across its address and makes none
-- across another, and keeps the protection, the kind and the place in the host's memory of every
-- address.
pub split_vma_at-IsCut : (m : Vmas) (a : ℕ) → Ordered 0 m → IsCut a m (split_vma_at a m)
split_vma_at-IsCut m a o = rw (split_vma_at-eq-cut 0 m a o) (record {
  ordered = cut-Ordered 0 m a o;
  edge = cut-Edge 0 m a o;
  edges = λ b h. cut-Edge_kept m a b h;
  cells = λ x. cell_at-cut m a x;
})
