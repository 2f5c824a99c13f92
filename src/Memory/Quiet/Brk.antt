-- ===== src/Memory/Quiet/Brk.antt =====
-- The break of crates/mcr-memory/src/lib.rs: what `set_brk` reports and what it leaves.
use mcr.Prelude.{
  ℕ, ◌-◌, ◌≡◌, inl, inr, refl, ap, ◌∙◌, ◌==◌, Bool, true, false, not, ◌&&◌, holds, leb, ltb, max,
  if◌then◌else◌, Bool-cases,
}
use mcr.Memory.Error.{GuestMemoryError, Outcome, ok, err, panicked}
use mcr.Memory.State.{Host, HostAddressMode, GuestMemory, Action, ◌>>=◌, to_host}
use mcr.Memory.Allocate.{drop_unreferenced_allocations}
use mcr.Memory.Brk.{
  GuestBrkOutcome, remove_heap_from, remove_heap_vmas, shrink_heap, heap_protection, zero_growth,
  ensure_brk_can_grow, resize_heap, move_heap_end, try_set_brk, set_brk, report,
}
use mcr.Memory.Quiet.{
  layout_of, Steady, Steady-lift, Steady-gets, Steady-expect, Steady-if, Steady-bind, Steady-edit,
}
use mcr.Memory.Quiet.Allocate.{protect_range-Keeps, ensure_allocation_unique-Keeps}
use mcr.Memory.Quiet.Reserve.{ensure_host_allocation-Keeps, zero_allocation_range-Keeps}

shrink_heap-layout :
    (mapped_end : ℕ) (g : GuestMemory) → layout_of (shrink_heap mapped_end g) ≡ layout_of g
unfolding shrink_heap remove_heap_from remove_heap_vmas drop_unreferenced_allocations
shrink_heap-layout mapped_end g = elim (Bool-cases (leb mapped_end g.brk_base)) [
  | inl e ↦ rw (e, shrink_heap) refl
  | inr e ↦ rw (e, shrink_heap) refl
]

module _ (os : Host) where
  zero_growth-Steady :
      (brk_base zero_start mapped_end : ℕ) (place : ℕ × ℕ)
      → Steady (zero_growth os brk_base zero_start mapped_end place)
  unfolding zero_growth
  zero_growth-Steady brk_base zero_start mapped_end (id, offset) =
      Steady-if (leb mapped_end zero_start) (Steady-lift _) (
        Steady-bind (Steady-lift _) λ grown. Steady-bind (Steady-lift _) λ zero_offset.
          (zero_allocation_range-Keeps os id zero_offset (mapped_end - zero_start)).steady)

  resize_heap-Steady : (mapped_end : ℕ) → Steady (resize_heap os mapped_end)
  unfolding resize_heap remove_heap_vmas remove_heap_from drop_unreferenced_allocations
  resize_heap-Steady mapped_end = Steady-bind (Steady-gets _) λ brk_base.
      Steady-if (mapped_end == brk_base) (Steady-edit (λ g. refl)) (
        Steady-bind (Steady-gets _) λ old_mapped_end. Steady-bind (Steady-lift _) λ new_size.
          Steady-bind (ensure_host_allocation-Keeps os brk_base new_size).steady λ place.
            Steady-bind (zero_growth-Steady brk_base (max old_mapped_end brk_base) mapped_end place)
              λ _. Steady-bind (Steady-edit (λ g. refl)) λ _.
                Steady-bind (ensure_allocation_unique-Keeps os place.0).steady λ _.
                  Steady-bind (Steady-gets _) λ found.
                    Steady-bind (Steady-expect found) λ allocation.
                      (protect_range-Keeps os allocation.memory place.1 new_size
                        (to_host heap_protection)).steady)

  move_heap_end-Steady :
      (old_mapped_end new_mapped_end : ℕ) → Steady (move_heap_end os old_mapped_end new_mapped_end)
  unfolding move_heap_end ensure_brk_can_grow
  move_heap_end-Steady old_mapped_end new_mapped_end =
      Steady-if (ltb old_mapped_end new_mapped_end)
        (Steady-bind
          (Steady-bind (Steady-gets _) λ blocked. Steady-if blocked (Steady-lift _) (Steady-lift _))
          λ _. resize_heap-Steady new_mapped_end)
        (Steady-if (ltb new_mapped_end old_mapped_end)
          (Steady-edit (shrink_heap-layout new_mapped_end)) (Steady-lift _))

-- The layout with another break.
abbrev moved_break : ℕ → GuestMemory → ℕ × ℕ × ℕ × ℕ × HostAddressMode
moved_break requested g =
    (g.brk_base, requested, g.mmap_base, g.address_space_end, g.host_address_mode)

unfoldable TryRun : ℕ → GuestMemory → Outcome (Unit {0}) × GuestMemory → Type 0
TryRun requested g (ok _, g') = layout_of g' ≡ moved_break requested g
TryRun requested g (err e, g') = layout_of g' ≡ layout_of g
TryRun requested g (panicked, g') = layout_of g' ≡ layout_of g

-- The next step of a run leaves the bounds.
steady_cases {ℓ κ} :
    {A : Type ℓ} {B : Type κ} {m : Action A} {f : A → Action B} (start g : GuestMemory)
    (R : Outcome B × GuestMemory → Type 0)
    → ((e : GuestMemoryError) (g' : GuestMemory) → layout_of g' ≡ layout_of start → R (err e, g'))
    → ((g' : GuestMemory) → layout_of g' ≡ layout_of start → R (panicked, g'))
    → layout_of g ≡ layout_of start
    → Steady m
    → ((a : A) (g' : GuestMemory) → layout_of g' ≡ layout_of start → R (f a g'))
    → R ((m >>= f) g)
unfolding ◌>>=◌
steady_cases {A = A} {m = m} {f = f} start g R error panic before steady step =
    by_run (m g) (steady.layout g ∙ before)
  where
    by_run :
        (run : Outcome A × GuestMemory)
        → layout_of run.1 ≡ layout_of start
        → R (((λ _. run) >>= f) g)
    by_run (ok a, g') e = step a g' e
    by_run (err x, g') e = error x g' e
    by_run (panicked, g') e = panic g' e

try_set_brk-TryRun :
    (os : Host) (requested : ℕ) (g : GuestMemory) → TryRun requested g (try_set_brk os requested g)
unfolding try_set_brk TryRun
try_set_brk-TryRun os requested g =
    steady_cases g g (TryRun requested g) (λ e g' s. s) (λ g' s. s) refl (Steady-lift _)
      λ end g1 s1.
        steady_cases g g1 (TryRun requested g) (λ e g' s. s) (λ g' s. s) s1 (Steady-gets _)
          λ space g2 s2.
            steady_cases g g2 (TryRun requested g) (λ e g' s. s) (λ g' s. s) s2
              (Steady-if (ltb space end) (Steady-lift _) (Steady-lift _))
              λ _ g3 s3.
                steady_cases g g3 (TryRun requested g) (λ e g' s. s) (λ g' s. s) s3 (Steady-gets _)
                  λ old g4 s4.
                    steady_cases g g4 (TryRun requested g) (λ e g' s. s) (λ g' s. s) s4
                      (move_heap_end-Steady os old end)
                      λ _ g5 s5. ap (λ l. (l.0, requested, l.2, l.3, l.4)) s5

-- Whether a request that gave an outcome has moved the break.
abbrev moves : ℕ → GuestBrkOutcome → Bool
moves requested outcome = not (holds (λ _. true) outcome.error) && not (requested == 0)

unfoldable pub BrkRun : ℕ → GuestMemory → Outcome GuestBrkOutcome × GuestMemory → Type 0
BrkRun requested g (ok outcome, g') =
    (outcome.current ≡ g'.current_brk)
    × (layout_of g' ≡ (if moves requested outcome then moved_break requested g else layout_of g))
BrkRun requested g (err e, g') = ⊥
BrkRun requested g (panicked, g') = layout_of g' ≡ layout_of g

-- `set_brk` reports the break of the memory that it leaves. That is the one that was asked for where
-- the request is not zero and gives no error, and otherwise, after any error of the operating system
-- too, the one from before. The other bounds of the memory always stay.
pub set_brk-BrkRun :
    (os : Host) (requested : ℕ) (g : GuestMemory) → BrkRun requested g (set_brk os requested g)
unfolding set_brk report BrkRun TryRun
set_brk-BrkRun os requested g = elim (Bool-cases (requested == 0)) [
  | inl z ↦ rw (z, set_brk) (refl, rw (z, BrkRun) refl)
  | inr n ↦ elim (Bool-cases (ltb requested g.brk_base)) [
    | inl low ↦ rw (n, low, set_brk) (refl, refl)
    | inr high ↦
        rw (n, high, set_brk)
          (reported n (try_set_brk os requested g) (try_set_brk-TryRun os requested g))
  ]
]
  where
    reported :
        (requested == 0) ≡ false
        → (run : Outcome (Unit {0}) × GuestMemory) → TryRun requested g run
        → BrkRun requested g (report run)
    reported n (ok _, k) r = (refl, rw n r)
    reported n (err x, k) r = (refl, r)
    reported n (panicked, k) r = r
