-- ===== src/Memory/Map/Protect.antt =====
-- Giving the areas of a range a protection: the last loop of `mprotect`.
use mathlib.Core.Option
use mcr.Prelude.{
  ℕ, ◌≡◌, refl, sym, ◌∙◌, ◌==◌, ==_iff, ==_refl, ◌||◌, Bool, true, false, List, [], ◌∷◌, inl, inr,
  arith, if◌then◌else◌, Bool-cases,
}
use mcr.Prelude.OrdMap
use mcr.Prelude.OrdMap.{nat_key}
use mcr.Prelude.OrdSet
use mcr.Memory.Vma.{GuestMemoryProtection}
use mcr.Memory.Map.{Vmas, keys_between, with_protection, protect_keys}
use mcr.Memory.Map.Order.{Ordered}
use mcr.Memory.Map.Cut.{Cell, cell_at, Edge}
use mcr.Memory.Map.Unmap.{within, has_key, contains-keys_between}

module _ (p : GuestMemoryProtection) where
  -- The areas whose key passes a test, protected anew.
  change : (ℕ → Bool) → Vmas → Vmas
  change q [] = []
  change q ((k, v) ∷ m) = (k, if q k then with_protection p v else v) ∷ change q m

  change_agree :
      (q r : ℕ → Bool) (m : Vmas)
      → ((j : ℕ) → has_key j m ≡ true → q j ≡ r j)
      → change q m ≡ change r m
  unfolding change has_key
  change_agree q r [] h = refl
  change_agree q r ((k, v) ∷ m) h =
      ground (arith, h k, ==_refl k, change_agree q r m (λ j e. h j (ground (arith, e))))

  change_none : (q : ℕ → Bool) (m : Vmas) → ((j : ℕ) → q j ≡ false) → change q m ≡ m
  unfolding change
  change_none q [] h = refl
  change_none q ((k, v) ∷ m) h = ground (arith, h k, change_none q m h)

  change-modify :
      (q : ℕ → Bool) (k : ℕ) (m : Vmas)
      → change q (OrdMap.modify k (with_protection p) m) ≡ change (λ j. k == j || q j) m
  unfolding change OrdMap.modify
  change-modify q k [] = refl
  change-modify q k ((j, v) ∷ m) = ground (arith, ==_iff k j, ==_iff j k, change-modify q k m)

  protect_keys-change :
      (ks : List ℕ) (m : Vmas) → protect_keys ks p m ≡ change (λ j. OrdSet.contains j ks) m
  unfolding protect_keys OrdSet.contains
  protect_keys-change [] m = sym (change_none (λ _. false) m (λ _. refl))
  protect_keys-change (k ∷ ks) m =
      protect_keys-change ks (OrdMap.modify k (with_protection p) m)
      ∙ change-modify (λ j. OrdSet.contains j ks) k m

  change-Ordered : (q : ℕ → Bool) (low : ℕ) (m : Vmas) → Ordered low m → Ordered low (change q m)
  unfolding change
  change-Ordered q low [] o = tt
  change-Ordered q low ((k, v) ∷ m) o = elim (Bool-cases (q k)) [
    | inl e ↦ rw (e, change) (o.0, o.1, o.2, change-Ordered q v.end m o.3)
    | inr e ↦ rw (e, change) (o.0, o.1, o.2, change-Ordered q v.end m o.3)
  ]

  change-Edge : (q : ℕ → Bool) (b : ℕ) (m : Vmas) → Edge b m → Edge b (change q m)
  unfolding change
  change-Edge q b [] h = tt
  change-Edge q b ((k, v) ∷ m) h = elim (Bool-cases (q k)) [
    | inl e ↦ rw (e, change) (h.0, change-Edge q b m h.1)
    | inr e ↦ rw (e, change) (h.0, change-Edge q b m h.1)
  ]

  abbrev pub protected_cell : Cell → Cell
  protected_cell c = record c { protection = p }

  cell_at-change :
      (start end low : ℕ) (m : Vmas) (x : ℕ)
      → Ordered low m
      → Edge start m
      → Edge end m
      → cell_at (change (within start end) m) x
        ≡ (if within start end x then Option.map protected_cell (cell_at m x) else cell_at m x)
  unfolding change cell_at
  cell_at-change start end low [] x o s e = ground arith
  cell_at-change start end low ((k, v) ∷ m) x o s e =
      ground (arith, s.0, e.0, cell_at-change start end v.end m x o.3 s.1 e.1)

  -- What protecting the areas of a range does.
  pub record IsProtected (start end : ℕ) (m m' : Vmas) : Type 0 where
    pub ordered : Ordered 0 m'
    pub edges : (b : ℕ) → Edge b m → Edge b m'
    pub cells :
        (x : ℕ)
        → cell_at m' x
          ≡ (if within start end x then Option.map protected_cell (cell_at m x) else cell_at m x)

  -- On ordered areas of which none lies across an end of a range, protecting the areas of the range
  -- changes the protection of exactly the mapped addresses of the range, and nothing else of any
  -- address.
  pub protect_keys-IsProtected :
      (start end : ℕ) (m : Vmas)
      → Ordered 0 m
      → Edge start m
      → Edge end m
      → IsProtected start end m (protect_keys (keys_between start end m) p m)
  protect_keys-IsProtected start end m o s e =
      rw (protect_keys-change (keys_between start end m) m ∙ same) (record {
        ordered = change-Ordered (within start end) 0 m o;
        edges = λ b h. change-Edge (within start end) b m h;
        cells = λ x. cell_at-change start end 0 m x o s e;
      })
    where
      same :
          change (λ j. OrdSet.contains j (keys_between start end m)) m ≡ change (within start end) m
      same =
          change_agree (λ j. OrdSet.contains j (keys_between start end m)) (within start end) m
            (λ j h. ground (arith, h, contains-keys_between start end j m))
