-- ===== src/Memory/Map/Range.antt =====
-- Whether a range is mapped: the loop of `is_range_mapped`.
use mcr.Prelude.{
  ℕ, ◌≤◌, ◌<◌, ◌≡◌, refl, true, ltb, leb, max, some, [], ◌∷◌, inl, inr, arith, Bool-cases,
}
use mcr.Memory.Vma.{GuestVma}
use mcr.Memory.Map.{Vmas, mapped_from, is_range_mapped}
use mcr.Memory.Map.Order.{Ordered, area_at, area_at-below}

-- An address that some area holds.
abbrev pub IsMapped : Vmas → ℕ → Type 0
IsMapped m a = (v : GuestVma) × (area_at m a ≡ some v)

tail_mapped :
    (k : ℕ) (v : GuestVma) (m : Vmas) (a : ℕ) → v.end ≤ a → IsMapped m a → IsMapped ((k, v) ∷ m) a
unfolding area_at
tail_mapped k v m a h (w, e) = (w, ground (arith, h, e))

head_mapped :
    (k : ℕ) (v : GuestVma) (m : Vmas) (a : ℕ) → v.start ≤ a → a < v.end → IsMapped ((k, v) ∷ m) a
unfolding area_at
head_mapped k v m a h e = (v, ground (arith, h, e))

mapped_from_sound :
    (start end cursor low : ℕ) (m : Vmas)
    → Ordered low m
    → mapped_from start end cursor m ≡ true
    → (a : ℕ) → cursor ≤ a
    → a < end
    → start ≤ a
    → IsMapped m a
unfolding mapped_from
mapped_from_sound start end cursor low [] o h a c e s = absurd (ground (arith, h))
mapped_from_sound start end cursor low ((k, v) ∷ m) o h a c e s =
    elim (Bool-cases (ltb start v.end)) [
      | inr skip ↦
          tail_mapped k v m a (ground (arith, skip))
            (mapped_from_sound start end cursor v.end m o.3 (rw (skip, mapped_from) at h) a c e s)
      | inl near ↦ elim (Bool-cases (ltb cursor v.start)) [
        | inl gap ↦ absurd (ground (arith, rw (near, gap, mapped_from) at h))
        | inr reach ↦ elim (Bool-cases (ltb a v.end)) [
          | inl inside ↦ head_mapped k v m a (ground (arith, reach)) (ground (arith, inside))
          | inr beyond ↦ elim (Bool-cases (leb end (max cursor v.end))) [
            | inl enough ↦ absurd (ground (arith, enough, beyond))
            | inr more ↦ tail_mapped k v m a (ground (arith, beyond)) (
                mapped_from_sound start end (max cursor v.end) v.end m o.3
                  (rw (near, reach, more, mapped_from) at h) a (ground (arith, beyond)) e s)
          ]
        ]
      ]
    ]

-- What an address has where the head does not hold it.
mapped_tail :
    (k : ℕ) (v : GuestVma) (m : Vmas) (a : ℕ) → v.end ≤ a → IsMapped ((k, v) ∷ m) a → IsMapped m a
unfolding area_at
mapped_tail k v m a h (w, e) = (w, ground (arith, h, e))

before_unmapped : (low : ℕ) (m : Vmas) (a : ℕ) → Ordered low m → a < low → IsMapped m a → ⊥
before_unmapped low m a o h (w, e) = ground (arith, e, area_at-below low m a o)

mapped_from_complete :
    (start end cursor low : ℕ) (m : Vmas)
    → Ordered low m
    → start ≤ cursor
    → cursor < end
    → ((a : ℕ) → cursor ≤ a → a < end → IsMapped m a)
    → mapped_from start end cursor m ≡ true
unfolding mapped_from
mapped_from_complete start end cursor low [] o s c all =
    absurd (missing (all cursor (omega arith) c))
  where
    missing : IsMapped [] cursor → ⊥
    missing (w, e) = unfold area_at in ground (arith, e)
mapped_from_complete start end cursor low ((k, v) ∷ m) o s c all =
    elim (Bool-cases (ltb start v.end)) [
      | inr skip ↦
          rw (skip, mapped_from)
            (mapped_from_complete start end cursor v.end m o.3 s c
              λ a h e. mapped_tail k v m a (ground (arith, skip, h)) (all a h e))
      | inl near ↦ elim (Bool-cases (ltb cursor v.start)) [
        | inl gap ↦ absurd (
            before_unmapped v.start ((k, v) ∷ m) cursor (omega arith, o.1, o.2, o.3)
              (ground (arith, gap)) (all cursor (omega arith) c))
        | inr reach ↦ elim (Bool-cases (leb end (max cursor v.end))) [
          | inl enough ↦ rw (near, reach, enough, mapped_from) refl
          | inr more ↦
              rw (near, reach, more, mapped_from)
                (mapped_from_complete start end (max cursor v.end) v.end m o.3 (omega arith)
                  (ground (arith, more))
                  λ a h e. mapped_tail k v m a (omega (arith, h)) (all a (omega (arith, h)) e))
        ]
      ]
    ]

-- On ordered areas, `is_range_mapped` holds of a non-empty range exactly when every address of it is
-- in an area.
pub is_range_mapped_iff :
    (m : Vmas) (start end : ℕ)
    → Ordered 0 m
    → start < end
    → ((is_range_mapped m start end ≡ true) → (a : ℕ) → start ≤ a → a < end → IsMapped m a)
      × (((a : ℕ) → start ≤ a → a < end → IsMapped m a) → is_range_mapped m start end ≡ true)
unfolding is_range_mapped
is_range_mapped_iff m start end o n = (
  λ h a s e. mapped_from_sound start end start 0 m o h a s e s,
  λ all. mapped_from_complete start end start 0 m o (omega arith) n all,
)
