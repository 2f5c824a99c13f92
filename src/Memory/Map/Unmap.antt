-- ===== src/Memory/Map/Unmap.antt =====
-- Removing the areas of a range: `unmap_range`.
use mcr.Prelude.{
  ℕ, ◌≡◌, refl, sym, ap, ◌∙◌, ◌==◌, ==_iff, ◌&&◌, ◌||◌, Bool, true, false, not, ltb, leb, none,
  List, [], ◌∷◌, inl, inr, arith, if◌then◌else◌, Bool-cases,
}
use mcr.Prelude.OrdMap
use mcr.Prelude.OrdMap.{nat_key}
use mcr.Prelude.OrdSet
use mcr.Memory.Map.{Vmas, keys_between, remove_keys, split_vma_at, unmap_vmas}
use mcr.Memory.Map.Order.{Ordered, Ordered-weaken}
use mcr.Memory.Map.Cut.{cell_at, Edge, split_vma_at-IsCut}

-- Whether `range(start..end)` has a key.
abbrev pub within : ℕ → ℕ → ℕ → Bool
within start end k = leb start k && ltb k end

unfoldable pub has_key : ℕ → Vmas → Bool
has_key j [] = false
has_key j ((k, v) ∷ m) = k == j || has_key j m

-- The areas whose key passes a test.
keep : (ℕ → Bool) → Vmas → Vmas
keep p [] = []
keep p ((k, v) ∷ m) = if p k then (k, v) ∷ keep p m else keep p m

pub contains-keys_between :
    (start end j : ℕ) (m : Vmas)
    → OrdSet.contains j (keys_between start end m) ≡ (within start end j && has_key j m)
unfolding keys_between has_key OrdSet.contains
contains-keys_between start end j [] = ground arith
contains-keys_between start end j ((k, v) ∷ m) =
    ground (arith, ==_iff k j, contains-keys_between start end j m)

remove-keep :
    (p : ℕ → Bool) (k : ℕ) (m : Vmas)
    → keep p (OrdMap.remove k m) ≡ keep (λ j. not (k == j) && p j) m
unfolding keep OrdMap.remove
remove-keep p k [] = refl
remove-keep p k ((j, v) ∷ m) = ground (arith, ==_iff k j, ==_iff j k, remove-keep p k m)

-- Tests that agree on the keys keep the same.
keep_agree :
    (p q : ℕ → Bool) (m : Vmas) → ((j : ℕ) → has_key j m ≡ true → p j ≡ q j) → keep p m ≡ keep q m
unfolding keep has_key
keep_agree p q [] h = refl
keep_agree p q ((k, v) ∷ m) h =
    ground (arith, h k, ==_iff k k, keep_agree p q m (λ j e. h j (ground (arith, e))))

keep_all : (p : ℕ → Bool) (m : Vmas) → ((j : ℕ) → p j ≡ true) → keep p m ≡ m
unfolding keep
keep_all p [] h = refl
keep_all p ((k, v) ∷ m) h = ground (arith, h k, keep_all p m h)

remove_keys-keep :
    (ks : List ℕ) (m : Vmas) → remove_keys ks m ≡ keep (λ j. not (OrdSet.contains j ks)) m
unfolding remove_keys OrdSet.contains
remove_keys-keep [] m = sym (keep_all (λ _. true) m (λ _. refl))
remove_keys-keep (k ∷ ks) m =
    remove_keys-keep ks (OrdMap.remove k m)
    ∙ remove-keep (λ j. not (OrdSet.contains j ks)) k m
    ∙ keep_agree (λ j. not (k == j) && not (OrdSet.contains j ks))
        (λ j. not (k == j || OrdSet.contains j ks)) m (λ j _. ground arith)

-- Removing the keys of a range keeps the areas that do not start in it.
remove_range :
    (start end : ℕ) (m : Vmas)
    → remove_keys (keys_between start end m) m ≡ keep (λ j. not (within start end j)) m
remove_range start end m =
    remove_keys-keep (keys_between start end m) m
    ∙ keep_agree (λ j. not (OrdSet.contains j (keys_between start end m)))
        (λ j. not (within start end j)) m
        (λ j h. ground (arith, h, contains-keys_between start end j m))

keep-Ordered : (p : ℕ → Bool) (low : ℕ) (m : Vmas) → Ordered low m → Ordered low (keep p m)
unfolding keep
keep-Ordered p low [] o = tt
keep-Ordered p low ((k, v) ∷ m) o = elim (Bool-cases (p k)) [
  | inl e ↦ rw (e, keep) (o.0, o.1, o.2, keep-Ordered p v.end m o.3)
  | inr e ↦
      rw (e, keep) (Ordered-weaken v.end low (keep p m) (omega arith) (keep-Ordered p v.end m o.3))
]

keep-Edge : (p : ℕ → Bool) (b : ℕ) (m : Vmas) → Edge b m → Edge b (keep p m)
unfolding keep
keep-Edge p b [] h = tt
keep-Edge p b ((k, v) ∷ m) h = elim (Bool-cases (p k)) [
  | inl e ↦ rw (e, keep) (h.0, keep-Edge p b m h.1)
  | inr e ↦ rw (e, keep) (keep-Edge p b m h.1)
]

cell_at-keep :
    (start end low : ℕ) (m : Vmas) (x : ℕ)
    → Ordered low m
    → Edge start m
    → Edge end m
    → cell_at (keep (λ j. not (within start end j)) m) x
      ≡ (if within start end x then none else cell_at m x)
unfolding keep cell_at
cell_at-keep start end low [] x o s e = ground arith
cell_at-keep start end low ((k, v) ∷ m) x o s e =
    ground (arith, s.0, e.0, cell_at-keep start end v.end m x o.3 s.1 e.1)

-- What removing the areas of a range does.
pub record IsUnmapped (start end : ℕ) (m m' : Vmas) : Type 0 where
  pub ordered : Ordered 0 m'
  pub edges : (b : ℕ) → Edge b m → Edge b m'
  pub cells : (x : ℕ) → cell_at m' x ≡ (if within start end x then none else cell_at m x)

-- On ordered areas, `unmap_range` leaves the addresses of its range without an area and every other
-- address with what it had, its place in the host's memory included; the areas stay in order, and none
-- comes to lie across an address across which none lay.
pub unmap_vmas-IsUnmapped :
    (start end : ℕ) (m : Vmas) → Ordered 0 m → IsUnmapped start end m (unmap_vmas start end m)
unfolding unmap_vmas
unmap_vmas-IsUnmapped start end m o =
    let first = split_vma_at-IsCut m start o in
    let second = split_vma_at-IsCut (split_vma_at start m) end first.ordered in
    let whole = split_vma_at end (split_vma_at start m) in
    rw (remove_range start end whole) (record {
      ordered = keep-Ordered (λ j. not (within start end j)) 0 whole second.ordered;
      edges = λ b h.
          keep-Edge (λ j. not (within start end j)) b whole (second.edges b (first.edges b h));
      cells = λ x.
          cell_at-keep start end 0 whole x second.ordered (second.edges start first.edge)
            second.edge
          ∙ ap (λ c. if within start end x then none else c) (second.cells x ∙ first.cells x);
    })
