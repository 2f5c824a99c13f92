-- ===== src/Prelude/OrdSet.antt =====
-- `BTreeSet<u32>`: a list of numbers in ascending order. The laws of `contains` hold whatever the
-- order.
use mathlib.Core.Path.{◌≡◌, refl}
use mathlib.Core.Bool.{Bool, true, false, not, ◌&&◌, ◌||◌}
use mathlib.Core.List.{List, [], ◌∷◌}
use native.Mathlib.Omega.{arith}
use Prim.Native.Nat.{ℕ}
use mcr.Prelude.Tests.{ltb, ◌==◌, if◌then◌else◌}

unfoldable pub contains : ℕ → List ℕ → Bool
contains k [] = false
contains k (x ∷ s) = x == k || contains k s

unfoldable pub insert : ℕ → List ℕ → List ℕ
insert k [] = k ∷ []
insert k (x ∷ s) =
    let rest = insert k s in if x == k then x ∷ s else if ltb k x then k ∷ x ∷ s else x ∷ rest

unfoldable pub remove : ℕ → List ℕ → List ℕ
remove k [] = []
remove k (x ∷ s) = let rest = remove k s in if x == k then rest else x ∷ rest

unfoldable pub is_empty : List ℕ → Bool
is_empty [] = true
is_empty (x ∷ s) = false

pub contains-insert : (k j : ℕ) (s : List ℕ) → contains j (insert k s) ≡ (k == j || contains j s)
unfolding contains insert
contains-insert k j [] = refl
contains-insert k j (x ∷ s) = ground (arith, contains-insert k j s)

pub contains-remove :
    (k j : ℕ) (s : List ℕ) → contains j (remove k s) ≡ (not (k == j) && contains j s)
unfolding contains remove
contains-remove k j [] = ground arith
contains-remove k j (x ∷ s) = ground (arith, contains-remove k j s)
