-- ===== src/Prelude/OrdMap.antt =====
-- `BTreeMap`: an association list in the order of its keys. The laws of `get` hold whatever the
-- order; iteration goes by the list.
use mathlib.Core.Path.{◌≡◌, refl}
use mathlib.Core.Logic.{◌↔◌}
use mathlib.Core.Bool.{Bool, true}
use mathlib.Core.Option
use mathlib.Core.Option.{Option, none, some}
use mathlib.Core.List.{List, [], ◌∷◌}
use native.Mathlib.Omega.{arith}
use Prim.Native.Nat.{ℕ}
use mcr.Prelude.Tests.{ltb, ◌==◌, ==_iff, if◌then◌else◌}

-- The key's order and equality, as `Ord` derives them.
pub record Key {ℓ} (K : Type ℓ) : Type ℓ where
  pub key_eq : K → K → Bool
  pub key_lt : K → K → Bool
  pub key_eq_iff : (a b : K) → (key_eq a b ≡ true) ↔ (a ≡ b)

instance abbrev pub nat_key : Key ℕ
nat_key = record { key_eq = ◌==◌; key_lt = ltb; key_eq_iff = ==_iff }

abbrev pub Map {ℓ κ} : Type ℓ → Type κ → Type (ℓ ⊔ κ)
Map K V = List (K × V)

module _ {ℓ κ} {K : Type ℓ} {V : Type κ} ⦃key : Key K⦄ where
  unfoldable pub get : K → Map K V → Option V
  get k [] = none
  get k ((j, v) ∷ m) = if key.key_eq j k then some v else get k m

  -- `insert`, in the place that the order of keys gives.
  unfoldable pub insert : K → V → Map K V → Map K V
  insert k v [] = (k, v) ∷ []
  insert k v ((j, w) ∷ m) =
      let rest = insert k v m in
      if key.key_eq j k
      then (k, v) ∷ m
      else if key.key_lt k j
      then (k, v) ∷ (j, w) ∷ m
      else (j, w) ∷ rest

  unfoldable pub remove : K → Map K V → Map K V
  remove k [] = []
  remove k ((j, w) ∷ m) = let rest = remove k m in if key.key_eq j k then rest else (j, w) ∷ rest

  -- A change through `get_mut`.
  unfoldable pub modify : K → (V → V) → Map K V → Map K V
  modify k f [] = []
  modify k f ((j, w) ∷ m) =
      let rest = modify k f m in if key.key_eq j k then (j, f w) ∷ rest else (j, w) ∷ rest

  pub get-insert :
      (k j : K) (v : V) (m : Map K V)
      → get j (insert k v m) ≡ (if key.key_eq k j then some v else get j m)
  unfolding get insert
  get-insert k j v [] = refl
  get-insert k j v ((i, w) ∷ m) =
      ground (arith, key.key_eq_iff i k, key.key_eq_iff i j, key.key_eq_iff k j, get-insert k j v m)

  pub get-remove :
      (k j : K) (m : Map K V) → get j (remove k m) ≡ (if key.key_eq k j then none else get j m)
  unfolding get remove
  get-remove k j [] = ground arith
  get-remove k j ((i, w) ∷ m) =
      ground (arith, key.key_eq_iff i k, key.key_eq_iff i j, key.key_eq_iff k j, get-remove k j m)

  pub get-modify :
      (k j : K) (f : V → V) (m : Map K V)
      → get j (modify k f m) ≡ (if key.key_eq k j then Option.map f (get j m) else get j m)
  unfolding get modify
  get-modify k j f [] = ground arith
  get-modify k j f ((i, w) ∷ m) =
      ground (arith, key.key_eq_iff i k, key.key_eq_iff i j, key.key_eq_iff k j, get-modify k j f m)

-- `values().filter_map(f).collect()`.
unfoldable pub select {ℓ κ μ} :
    {K : Type ℓ} {V : Type κ} {B : Type μ} → (V → Option B) → Map K V → List B
select f [] = []
select f ((j, v) ∷ m) = elim (f v) [ none ↦ select f m | some b ↦ b ∷ select f m ]
