-- ===== src/Memory/Intrinsics/Search.antt =====
-- What memchr of crates/mcr-memory/src/intrinsics.rs finds.
use mathlib.Core.Option
use mcr.Prelude.{
  ℕ, ◌+◌, ◌≤◌, ◌<◌, ◌≡◌, ◌≢◌, inl, inr, refl, ap, subst, ◌∙◌, ◌==◌, Option, none, some, List, [],
  ◌∷◌, zero, suc, arith, Bool-cases,
}
use mcr.Memory.Error.{Outcome, ok, err, panicked, >>=-eq-ok}
use mcr.Memory.Map.Order.{Ordered}
use mcr.Memory.State.{GuestMemory}
use mcr.Memory.Read.{read_access, copy_guest}
use mcr.Memory.Read.Each.{byte_at, read_each}
use mcr.Memory.Read.Whole.{copy_guest-read_each}
use mcr.Memory.Intrinsics.{position, intrinsic_memchr}

-- No address of a range has a byte, and all can be read.
abbrev pub Lacks : GuestMemory → ℕ → ℕ → ℕ → Type 0
Lacks g needle start end =
    (x : ℕ) → start ≤ x → x < end → (b : ℕ) × (byte_at g read_access x ≡ ok b) × (b ≢ needle)

-- The first address of a range with a byte, or none.
unfoldable pub IsFirst : GuestMemory → ℕ → ℕ → ℕ → Option ℕ → Type 0
IsFirst g needle start end none = Lacks g needle start end
IsFirst g needle start end (some x) =
    (start ≤ x) × (x < end) × (byte_at g read_access x ≡ ok needle) × Lacks g needle start x

Lacks-cons :
    (g : GuestMemory) (needle start end b : ℕ)
    → byte_at g read_access start ≡ ok b
    → b ≢ needle
    → Lacks g needle (start + 1) end
    → Lacks g needle start end
Lacks-cons g needle start end b e d rest x l h = elim (Bool-cases (x == start)) [
  | inl same ↦ (b, ap (byte_at g read_access) (ground (arith, same)) ∙ e, d)
  | inr other ↦ rest x (ground (arith, other, l)) h
]

IsFirst-cons :
    (g : GuestMemory) (needle start len b : ℕ) (found : Option ℕ)
    → byte_at g read_access start ≡ ok b
    → b ≢ needle
    → IsFirst g needle (start + 1) (start + 1 + len) (Option.map (λ i. start + 1 + i) found)
    → IsFirst g needle start (start + suc len) (Option.map (λ i. start + i) (Option.map suc found))
unfolding IsFirst
IsFirst-cons g needle start len b none e d r =
    Lacks-cons g needle start (start + suc len) b e d (λ x l h. r x l (omega (arith, h)))
IsFirst-cons g needle start len b (some i) e d r = (
  omega arith,
  omega (arith, r.1),
  ap (byte_at g read_access) next ∙ r.2,
  Lacks-cons g needle start (start + suc i) b e d (λ x l h. r.3 x l (omega (arith, h))),
)
  where
    next : start + suc i ≡ start + 1 + i
    next = omega arith

position-IsFirst :
    (g : GuestMemory) (needle start len : ℕ) (bytes : List ℕ)
    → read_each g read_access start len ≡ ok bytes
    → IsFirst g needle start (start + len) (Option.map (λ i. start + i) (position needle bytes))
unfolding read_each position
position-IsFirst g needle start zero [] h = unfold IsFirst in λ x l h. absurd (omega (arith, l, h))
position-IsFirst g needle start zero (b ∷ bytes) h = absurd (ground (arith, h))
position-IsFirst g needle start (suc len) bytes h =
    let (b, first, more) = >>=-eq-ok (byte_at g read_access start) _ h in
    let (rest, later, whole) = >>=-eq-ok (read_each g read_access (start + 1) len) _ more in
    let same : bytes ≡ b ∷ rest = ground (arith, whole) in
    elim (Bool-cases (b == needle)) [
      | inl e ↦
          rw (same, e, position)
            (unfold IsFirst in
              (
                omega arith,
                omega arith,
                ap (byte_at g read_access) here ∙ first ∙ ap ok (ground (arith, e)),
                λ x l h. absurd (omega (arith, l, h)),
              ))
      | inr e ↦
          rw (same, e, position)
            (IsFirst-cons g needle start len b (position needle rest) first (ground (arith, e))
              (position-IsFirst g needle (start + 1) len rest later))
    ]
  where
    here : start + 0 ≡ start
    here = omega arith

-- On ordered areas, a memchr that gives a result gives the first address of the range with the byte,
-- or none where the range has none; every byte up to there can be read.
pub intrinsic_memchr-IsFirst :
    (g : GuestMemory) (address needle len : ℕ) (found : Option ℕ)
    → Ordered 0 g.vmas
    → intrinsic_memchr g address needle len ≡ ok found
    → IsFirst g needle address (address + len) found
unfolding intrinsic_memchr
intrinsic_memchr-IsFirst g address needle len found o h =
    by_bytes (copy_guest g address len read_access) refl h
  where
    by_bytes :
        (r : Outcome (List ℕ))
        → copy_guest g address len read_access ≡ r
        → elim r [
          | ok bytes ↦ ok (Option.map (λ i. address + i) (position needle bytes))
          | err e ↦ err e
          | panicked ↦ panicked
        ]
          ≡ ok found
        → IsFirst g needle address (address + len) found
    by_bytes (ok bytes) e h =
        let each : read_each g read_access address len ≡ ok bytes =
          ground (arith, e, copy_guest-read_each g read_access o address len) in
        let same : Option.map (λ i. address + i) (position needle bytes) ≡ found =
          ground (arith, h) in
        subst (IsFirst g needle address (address + len)) same
          (position-IsFirst g needle address len bytes each)
    by_bytes (err x) e h = absurd (ground (arith, h))
    by_bytes panicked e h = absurd (ground (arith, h))
