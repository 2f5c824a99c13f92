-- ===== src/Task/Pending.antt =====
-- Taking a pending signal, `take_pending_signal` of crates/mcr-task/src/kernel/signal.rs.
use mcr.Prelude.{ℕ, ◌≡◌, true, not, ◌&&◌, some, List, arith, ◌==◌, find_by, inl, inr, Option-cases}
use mcr.Prelude.OrdSet
use mcr.Prelude.OrdSet.{contains-remove}
use mcr.Task.Mask.{signal_matches_mask, take_pending_signal}
use mcr.Task.Refines.Waits.{find_by_sound}

-- A signal that `take_pending_signal` gives is admitted by the mask and was pending, and of the
-- pending signals exactly that one is gone.
pub take_pending_signal_found :
    (pending : List ℕ) (mask signal : ℕ) (left : List ℕ)
    → take_pending_signal pending mask ≡ (some signal, left)
    → (signal_matches_mask mask signal ≡ true)
      × (OrdSet.contains signal pending ≡ true)
      × ((j : ℕ) → OrdSet.contains j left ≡ (not (signal == j) && OrdSet.contains j pending))
unfolding take_pending_signal
take_pending_signal_found pending mask signal left e =
    elim (Option-cases (find_by (signal_matches_mask mask) pending)) [
      | inl f ↦ absurd (ground (arith, e, f))
      | inr (s, f) ↦
          let (matched, there) = find_by_sound (signal_matches_mask mask) pending s f in
          (
            ground (arith, e, f, matched),
            ground (arith, e, f, there),
            λ j. ground (arith, e, f, contains-remove s j pending),
          )
    ]
