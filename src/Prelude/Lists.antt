-- ===== src/Prelude/Lists.antt =====
-- Lists with Boolean tests, as the source's iterator adapters use them.
use mathlib.Core.Bool.{Bool, true, false}
use mathlib.Core.Option.{Option, none, some}
use mathlib.Core.List.{List, [], ◌∷◌}
use Prim.Native.Nat.{ℕ, suc}
use mcr.Prelude.Tests.{if◌then◌else◌}

module _ {ℓ} {A : Type ℓ} where
  abbrev pub length : List A → ℕ
  length [] = 0
  length (x ∷ xs) = suc (length xs)

  -- `iter().filter(test).collect()`.
  unfoldable pub filter_by : (A → Bool) → List A → List A
  filter_by test [] = []
  filter_by test (x ∷ xs) = let rest = filter_by test xs in if test x then x ∷ rest else rest

  -- `iter().find(test)`.
  unfoldable pub find_by : (A → Bool) → List A → Option A
  find_by test [] = none
  find_by test (x ∷ xs) = let rest = find_by test xs in if test x then some x else rest

  -- `iter().all(test)`.
  unfoldable pub all_by : (A → Bool) → List A → Bool
  all_by test [] = true
  all_by test (x ∷ xs) = let rest = all_by test xs in if test x then rest else false

  -- `iter().filter_map(f).collect()`.
  unfoldable pub collect {κ} : {B : Type κ} → (A → Option B) → List A → List B
  collect f [] = []
  collect f (x ∷ xs) = elim (f x) [ none ↦ collect f xs | some b ↦ b ∷ collect f xs ]
