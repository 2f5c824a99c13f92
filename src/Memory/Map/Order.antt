-- ===== src/Memory/Map/Order.antt =====
-- Areas in order: each under its own start, none empty, and no two with an address in common. An
-- address then has at most one area, and a lookup finds it.
use mcr.Prelude.{ℕ, ◌≤◌, ◌<◌, ◌≡◌, refl, Option, none, some, [], ◌∷◌, arith, if◌then◌else◌}
use mcr.Memory.Vma.{GuestVma, vma_contains}
use mcr.Memory.Map.{Vmas, last_at_most, vma_containing}

-- The areas from `low` up.
abbrev pub Ordered : ℕ → Vmas → Type 0
Ordered low [] = Unit {0}
Ordered low ((k, v) ∷ m) = (low ≤ k) × (v.start ≡ k) × (k < v.end) × Ordered v.end m

-- The first area that holds an address: what a lookup means.
unfoldable pub area_at : Vmas → ℕ → Option GuestVma
area_at [] address = none
area_at ((k, v) ∷ m) address = if vma_contains v address then some v else area_at m address

pub Ordered-weaken : (low low' : ℕ) (m : Vmas) → low' ≤ low → Ordered low m → Ordered low' m
Ordered-weaken low low' [] h o = tt
Ordered-weaken low low' ((k, v) ∷ m) h o = (omega arith, o.1, o.2, o.3)

-- Nothing lies below the areas.
pub last_at_most-below :
    (low : ℕ) (m : Vmas) (a : ℕ) → Ordered low m → a < low → last_at_most a m ≡ none
unfolding last_at_most
last_at_most-below low [] a o h = refl
last_at_most-below low ((k, v) ∷ m) a o h = ground (arith, last_at_most-below v.end m a o.3)

pub area_at-below : (low : ℕ) (m : Vmas) (a : ℕ) → Ordered low m → a < low → area_at m a ≡ none
unfolding area_at
area_at-below low [] a o h = refl
area_at-below low ((k, v) ∷ m) a o h = ground (arith, area_at-below v.end m a o.3)

-- Beyond an area that ends before the address, the lookup goes by the rest.
pub vma_containing-tail :
    (k : ℕ) (v : GuestVma) (m : Vmas) (a : ℕ)
    → v.end ≤ a
    → vma_containing ((k, v) ∷ m) a ≡ vma_containing m a
unfolding vma_containing last_at_most
vma_containing-tail k v m a h = ground arith

-- On ordered areas, the source's lookup by the greatest start that is no greater than the address
-- finds the area that holds the address, or none where no area holds it.
pub vma_containing-eq-area_at :
    (low : ℕ) (m : Vmas) (a : ℕ) → Ordered low m → vma_containing m a ≡ area_at m a
unfolding vma_containing area_at last_at_most
vma_containing-eq-area_at low [] a o = refl
vma_containing-eq-area_at low ((k, v) ∷ m) a o = ground (
  arith,
  vma_containing-tail k v m a,
  vma_containing-eq-area_at v.end m a o.3,
  last_at_most-below v.end m a o.3,
  area_at-below v.end m a o.3,
)

pub area_at-le :
    (low : ℕ) (m : Vmas) (a : ℕ) (w : GuestVma)
    → Ordered low m
    → area_at m a ≡ some w
    → low ≤ w.start
unfolding area_at
area_at-le low [] a w o e = absurd (ground (arith, e))
area_at-le low ((k, v) ∷ m) a w o e = ground (arith, area_at-le v.end m a w o.3)

pub vma_containing-le :
    (low : ℕ) (m : Vmas) (a : ℕ) (w : GuestVma)
    → Ordered low m
    → vma_containing m a ≡ some w
    → low ≤ w.start
vma_containing-le low m a w o e =
    area_at-le low m a w o (rw (← vma_containing-eq-area_at low m a o) e)
