-- ===== src/Prelude/Bits.antt =====
-- The algebra of `&` on words of any width: commutative, associative, with 0 as its zero.
use Prim.Native.Nat.{ℕ, zero, suc, ◌+◌, ◌*◌, ◌/◌, ◌%◌, ◌≤◌, min, bit_and, digits, bit_and-bitwise}
use mathlib.Core.Path.{◌≡◌, refl, sym, ap, ◌∙◌}
use native.Mathlib.Omega.{arith}

-- The digits that two numbers have in common, of the lowest `count` digits.
common : ℕ → ℕ → ℕ → ℕ
common zero a b = 0
common (suc count) a b = common count (a / 2) (b / 2) * 2 + min (a % 2) (b % 2)

common-zero : (count b : ℕ) → common count 0 b ≡ 0
unfolding common
common-zero zero b = refl
common-zero (suc count) b = omega (arith, common-zero count (b / 2))

common_comm : (count a b : ℕ) → common count a b ≡ common count b a
unfolding common
common_comm zero a b = refl
common_comm (suc count) a b = omega (arith, common_comm count (a / 2) (b / 2))

common_below : (count a b : ℕ) → common count a b ≤ a
unfolding common
common_below zero a b = omega arith
common_below (suc count) a b = omega (arith, common_below count (a / 2) (b / 2))

-- Two counts that both reach the first number's digits find the same.
common_enough : (short long a b : ℕ) → a ≤ short → a ≤ long → common short a b ≡ common long a b
unfolding common
common_enough zero long a b s l =
    sym (ap (λ x. common long x b) {y = 0} (omega (arith, s)) ∙ common-zero long b)
common_enough (suc short) zero a b s l =
    ap (λ x. common (suc short) x b) {y = 0} (omega (arith, l)) ∙ common-zero (suc short) b
common_enough (suc short) (suc long) a b s l =
    omega (arith, common_enough short long (a / 2) (b / 2) (omega (arith, s)) (omega (arith, l)))

digits-common : (count a b : ℕ) → a ≤ count → digits (λ _. zero) min count a b ≡ common count a b
unfolding common
digits-common zero a b h = refl
digits-common (suc count) zero b h = sym (common-zero (suc count) b)
digits-common (suc count) (suc a) b h =
    omega (arith, digits-common count (suc a / 2) (b / 2) (omega (arith, h)))

bit_and-common : (count a b : ℕ) → a ≤ count → bit_and a b ≡ common count a b
bit_and-common count a b h =
    bit_and-bitwise a b
    ∙ digits-common a a b (omega arith)
    ∙ common_enough a count a b (omega arith) h

pub bit_and_comm : (a b : ℕ) → bit_and a b ≡ bit_and b a
bit_and_comm a b =
    bit_and-common (a + b) a b (omega arith)
    ∙ common_comm (a + b) a b
    ∙ sym (bit_and-common (a + b) b a (omega arith))

pub zero-bit_and : (b : ℕ) → bit_and 0 b ≡ 0
zero-bit_and b = bit_and-common 0 0 b (omega arith) ∙ common-zero 0 b

pub bit_and-zero : (a : ℕ) → bit_and a 0 ≡ 0
bit_and-zero a = bit_and_comm a 0 ∙ zero-bit_and a

-- The halves and the last digit of what two numbers have in common.
common_parts :
    (count a b : ℕ)
    → (common (suc count) a b / 2 ≡ common count (a / 2) (b / 2))
      × (common (suc count) a b % 2 ≡ min (a % 2) (b % 2))
unfolding common
common_parts count a b = omega arith

common_assoc :
    (count a b c : ℕ) → common count (common count a b) c ≡ common count a (common count b c)
unfolding common
common_assoc zero a b c = refl
common_assoc (suc count) a b c =
    let left = common_parts count a b in
    let right = common_parts count b c in
    rw (left.0, left.1, right.0, right.1)
      (rw (common_assoc count (a / 2) (b / 2) (c / 2)) (omega arith))

pub bit_and_assoc : (a b c : ℕ) → bit_and (bit_and a b) c ≡ bit_and a (bit_and b c)
bit_and_assoc a b c =
    ap (λ x. bit_and x c) here
    ∙ bit_and-common (a + b) (common (a + b) a b) c (omega (arith, common_below (a + b) a b))
    ∙ common_assoc (a + b) a b c
    ∙ sym (
        ap (bit_and a) (bit_and-common (a + b) b c (omega arith))
        ∙ bit_and-common (a + b) a (common (a + b) b c) (omega arith))
  where
    here : bit_and a b ≡ common (a + b) a b
    here = bit_and-common (a + b) a b (omega arith)
