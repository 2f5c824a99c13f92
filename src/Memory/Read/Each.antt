-- ===== src/Memory/Read/Each.antt =====
-- Reading byte by byte: what `copy_guest` of crates/mcr-memory/src/lib.rs means.
use mcr.Prelude.{
  ℕ, ◌+◌, ◌-◌, ◌≤◌, ◌<◌, ◌≡◌, refl, ap, ◌∙◌, true, ltb, leb, none, some, List, [], ◌∷◌, ◌++◌, zero,
  suc, if◌then◌else◌, arith,
}
use mcr.Prelude.OrdMap
use mcr.Prelude.OrdMap.{nat_key}
use mcr.Memory.Error.{denied, not_mapped, Outcome, ok, err, panicked, ◌>>=◌}
use mcr.Memory.Vma.{GuestVma}
use mcr.Memory.Map.{Vmas}
use mcr.Memory.Map.Order.{Ordered, area_at, area_at-le}
use mcr.Memory.State.{HostMemory, GuestMemory, GuestAllocation}
use mcr.Memory.Read.{AccessKind, permits, slice}

-- One byte of an area.
unfoldable pub byte_in : GuestMemory → GuestVma → ℕ → Outcome ℕ
byte_in g v x = elim (OrdMap.get v.allocation_id g.allocations) [
  | none ↦ panicked
  | some allocation ↦
      let offset = v.allocation_offset + (x - v.start) in
      if ltb offset allocation.memory.len then ok (allocation.memory.byte offset) else panicked
]

-- One byte of the guest: the area of its address must be there and permit the access.
unfoldable pub byte_at : GuestMemory → AccessKind → ℕ → Outcome ℕ
unfolding area_at permits byte_in
byte_at g access x = elim (area_at g.vmas x) [
  | none ↦ err not_mapped
  | some v ↦ if permits access v.protection then byte_in g v x else err denied
]

-- The bytes of a range, one after the other, up to the first error.
unfoldable pub read_each : GuestMemory → AccessKind → ℕ → ℕ → Outcome (List ℕ)
unfolding byte_at
read_each g access x zero = ok []
read_each g access x (suc n) =
    byte_at g access x >>= λ b. read_each g access (x + 1) n >>= λ rest. ok (b ∷ rest)

-- An area holds every address from its start to its end.
pub area_at-same :
    (low : ℕ) (m : Vmas) (x y : ℕ) (v : GuestVma)
    → Ordered low m
    → area_at m x ≡ some v
    → v.start ≤ y
    → y < v.end
    → area_at m y ≡ some v
unfolding area_at
area_at-same low [] x y v o e s t = absurd (ground (arith, e))
area_at-same low ((k, w) ∷ m) x y v o e s t =
    ground (arith, area_at-same w.end m x y v o.3, area_at-le w.end m x v o.3)

pub area_at-contains :
    (m : Vmas) (x : ℕ) (v : GuestVma) → area_at m x ≡ some v → (v.start ≤ x) × (x < v.end)
unfolding area_at
area_at-contains [] x v e = absurd (ground (arith, e))
area_at-contains ((k, w) ∷ m) x v e = ground (arith, e, area_at-contains m x v)

bind_nil : (m : Outcome (List ℕ)) → m ≡ (m >>= λ rest. ok ([] ++ rest))
bind_nil (ok a) = refl
bind_nil (err e) = refl
bind_nil panicked = refl

bind_append :
    (b : Outcome ℕ) (m n : Outcome (List ℕ))
    → (b >>= λ x. (m >>= λ chunk. n >>= λ rest. ok (chunk ++ rest)) >>= λ rest. ok (x ∷ rest))
      ≡ ((b >>= λ x. m >>= λ rest. ok (x ∷ rest)) >>= λ chunk. n >>= λ rest. ok (chunk ++ rest))
bind_append (ok b) (ok m) (ok n) = refl
bind_append (ok b) (ok m) (err e) = refl
bind_append (ok b) (ok m) panicked = refl
bind_append (ok b) (err e) n = refl
bind_append (ok b) panicked n = refl
bind_append (err e) m n = refl
bind_append panicked m n = refl

pub read_each-append :
    (g : GuestMemory) (access : AccessKind) (x m n : ℕ)
    → read_each g access x (m + n) ≡ (
        read_each g access x m >>= λ chunk.
        read_each g access (x + m) n >>= λ rest. ok (chunk ++ rest))
unfolding read_each
read_each-append g access x zero n =
    ap (read_each g access x) front
    ∙ ap (λ y. read_each g access y n) shift
    ∙ bind_nil (read_each g access (x + 0) n)
  where
    front : 0 + n ≡ n
    front = omega arith

    shift : x ≡ x + 0
    shift = omega arith
read_each-append g access x (suc m) n =
    ap (read_each g access x) front
    ∙ ap (λ r. byte_at g access x >>= λ b. r >>= λ rest. ok (b ∷ rest))
        (read_each-append g access (x + 1) m n)
    ∙ bind_append (byte_at g access x) (read_each g access (x + 1) m)
        (read_each g access (x + 1 + m) n)
    ∙ ap
        (λ y.
          (byte_at g access x >>= λ b. read_each g access (x + 1) m >>= λ rest. ok (b ∷ rest))
          >>= λ chunk. read_each g access y n >>= λ rest. ok (chunk ++ rest))
        shift
  where
    front : suc m + n ≡ suc (m + n)
    front = omega arith

    shift : x + 1 + m ≡ x + suc m
    shift = omega arith

-- The bytes of a buffer, or a panic where they go beyond it.
abbrev pub slice_or_panic : HostMemory → ℕ → ℕ → Outcome (List ℕ)
slice_or_panic memory offset n =
    if leb (offset + n) memory.len then ok (slice memory offset n) else panicked

slice-step :
    (memory : HostMemory) (o n : ℕ)
    → ((if ltb o memory.len then ok (memory.byte o) else panicked) >>= λ b.
        slice_or_panic memory (o + 1) (suc n) >>= λ rest. ok (b ∷ rest))
      ≡ slice_or_panic memory o (suc (suc n))
unfolding slice
slice-step memory o n = ground arith

-- One byte of an area that permits the access and has a buffer.
byte_at-area :
    (g : GuestMemory) (access : AccessKind) (v : GuestVma) (allocation : GuestAllocation) (x : ℕ)
    → area_at g.vmas x ≡ some v
    → permits access v.protection ≡ true
    → OrdMap.get v.allocation_id g.allocations ≡ some allocation
    → byte_at g access x ≡ (
        if ltb (v.allocation_offset + (x - v.start)) allocation.memory.len
        then ok (allocation.memory.byte (v.allocation_offset + (x - v.start)))
        else panicked)
unfolding byte_at byte_in
byte_at-area g access v allocation x e p a = rw (e, p, a, byte_at, byte_in) refl

-- Reading on in one area reads a slice of its buffer.
pub read_each-slice :
    (g : GuestMemory) (access : AccessKind) (v : GuestVma) (allocation : GuestAllocation) (x n : ℕ)
    → ((y : ℕ) → x ≤ y → y < x + suc n → area_at g.vmas y ≡ some v)
    → v.start ≤ x
    → permits access v.protection ≡ true
    → OrdMap.get v.allocation_id g.allocations ≡ some allocation
    → read_each g access x (suc n)
      ≡ slice_or_panic allocation.memory (v.allocation_offset + (x - v.start)) (suc n)
unfolding read_each slice
read_each-slice g access v allocation x zero here s p a =
    rw (byte_at-area g access v allocation x (here x (omega arith) (omega arith)) p a) ground arith
read_each-slice g access v allocation x (suc n) here s p a =
    ap (λ b. b >>= λ b. read_each g access (x + 1) (suc n) >>= λ rest. ok (b ∷ rest))
      (byte_at-area g access v allocation x (here x (omega arith) (omega arith)) p a)
    ∙ ap (λ r. one >>= λ b. r >>= λ rest. ok (b ∷ rest))
        (read_each-slice g access v allocation (x + 1) n
            (λ y l h. here y (omega (arith, l)) (omega (arith, h))) (omega arith) p a
          ∙ ap (λ o. slice_or_panic allocation.memory o (suc n)) next)
    ∙ slice-step allocation.memory (v.allocation_offset + (x - v.start)) n
  where
    one : Outcome ℕ
    one =
        if ltb (v.allocation_offset + (x - v.start)) allocation.memory.len
        then ok (allocation.memory.byte (v.allocation_offset + (x - v.start)))
        else panicked

    next : v.allocation_offset + (x + 1 - v.start) ≡ v.allocation_offset + (x - v.start) + 1
    next = omega arith
