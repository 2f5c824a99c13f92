-- ===== src/Memory/Bytes/Protect.antt =====
-- `mprotect` of crates/mcr-memory/src/lib.rs keeps the bytes of the guest.
use mathlib.Core.Option
use mcr.Prelude.{
  ℕ, ◌<◌, ◌≡◌, refl, ap, ◌∙◌, ◌==◌, Option, none, some, List, [], ◌∷◌, inl, inr, arith, Bool-cases,
}
use mcr.Prelude.OrdMap
use mcr.Prelude.OrdMap.{Map, nat_key}
use mcr.Memory.Vma.{GuestMemoryProtection, vma_len}
use mcr.Memory.Map.{Vmas, with_protection, protect_keys, coalesce_adjacent}
use mcr.Memory.Map.Order.{Ordered}
use mcr.Memory.Map.Cut.{Cell, cell_at}
use mcr.Memory.Map.Join.{coalesce_adjacent-keeps}
use mcr.Memory.State.{Host, GuestAllocation, GuestMemory, edit, to_host}
use mcr.Memory.Calls.{protect_area, protect_cut, protect_mapped, mprotect}
use mcr.Memory.Bytes.{
  content_of, Sound, Kept, Retains, Retains-if, Retains-bind, Calm, Calm-Retains, Calm-lift,
  Calm-gets, Calm-expect, Calm-bind, Calm-for_each,
}
use mcr.Memory.Bytes.Unshare.{protect_range-Calm}
use mcr.Memory.Bytes.Detach.{cuts-Retains, ensure_guest_page_range_unique-Retains}

-- The place of a cell in the host's memory.
abbrev pub place_of : Cell → ℕ × ℕ
place_of c = (c.allocation_id, c.offset)

abbrev pub place_at : Vmas → ℕ → Option (ℕ × ℕ)
place_at m x = Option.map place_of (cell_at m x)

content_of-place :
    (allocations : Map ℕ GuestAllocation) (c d : Option Cell)
    → Option.map place_of c ≡ Option.map place_of d
    → content_of allocations c ≡ content_of allocations d
unfolding content_of
content_of-place allocations none none e = refl
content_of-place allocations none (some d) e = absurd (ground (arith, e))
content_of-place allocations (some c) none e = absurd (ground (arith, e))
content_of-place allocations (some c) (some d) e = ground (arith, e)

-- Areas with the same places, in order.
replaced-Kept :
    (m : Vmas) (g : GuestMemory)
    → Sound g
    → Ordered 0 m
    → ((x : ℕ) → place_at m x ≡ place_at g.vmas x)
    → Kept g (record g { vmas = m })
replaced-Kept m g s o same = record {
  sound = record { ordered = o; used = λ x c e. used x c (cell_at g.vmas x) refl e };
  bytes = λ x. content_of-place g.allocations (cell_at m x) (cell_at g.vmas x) (same x);
}
  where
    used :
        (x : ℕ) (c : Cell) (d : Option Cell)
        → cell_at g.vmas x ≡ d
        → cell_at m x ≡ some c
        → c.allocation_id < g.next_allocation_id
    used x c none f e = absurd (ground (arith, e, f, same x))
    used x c (some d) f e = ground (arith, e, f, same x, s.used x d f)

module _ (p : GuestMemoryProtection) where
  modify-Ordered :
      (k low : ℕ) (m : Vmas) → Ordered low m → Ordered low (OrdMap.modify k (with_protection p) m)
  unfolding OrdMap.modify
  modify-Ordered k low [] o = tt
  modify-Ordered k low ((j, v) ∷ m) o = elim (Bool-cases (j == k)) [
    | inl e ↦ rw (e, OrdMap.modify) (o.0, o.1, o.2, modify-Ordered k v.end m o.3)
    | inr e ↦ rw (e, OrdMap.modify) (o.0, o.1, o.2, modify-Ordered k v.end m o.3)
  ]

  place_at-modify :
      (k : ℕ) (m : Vmas) (x : ℕ) → place_at (OrdMap.modify k (with_protection p) m) x ≡ place_at m x
  unfolding OrdMap.modify cell_at
  place_at-modify k [] x = refl
  place_at-modify k ((j, v) ∷ m) x = ground (arith, place_at-modify k m x)

  pub protect_keys-places :
      (ks : List ℕ) (m : Vmas)
      → Ordered 0 m
      → Ordered 0 (protect_keys ks p m)
        × ((x : ℕ) → place_at (protect_keys ks p m) x ≡ place_at m x)
  unfolding protect_keys
  protect_keys-places [] m o = (o, λ x. refl)
  protect_keys-places (k ∷ ks) m o =
      let rest =
        protect_keys-places ks (OrdMap.modify k (with_protection p) m) (modify-Ordered k 0 m o) in
      (rest.0, λ x. rest.1 x ∙ place_at-modify k m x)

  -- The last step of `mprotect`.
  protected-Retains :
      (ks : List ℕ)
      → Retains (edit (λ g. record g { vmas = coalesce_adjacent (protect_keys ks p g.vmas) }))
  protected-Retains ks = record {
    kept = λ g s.
        let done = protect_keys-places ks g.vmas s.ordered in
        let joined = coalesce_adjacent-keeps (protect_keys ks p g.vmas) done.0 in
        replaced-Kept _ g s joined.0 (λ x. ap (Option.map place_of) (joined.1 x) ∙ done.1 x);
  }

module _ (os : Host) where
  pub protect_area-Calm : (p : GuestMemoryProtection) (key : ℕ) → Calm (protect_area os p key)
  unfolding protect_area
  protect_area-Calm p key = Calm-bind (Calm-gets _) λ found. Calm-bind (Calm-expect found) λ v.
      Calm-bind (Calm-gets _) λ place.
        Calm-bind (Calm-expect place)
          λ a. protect_range-Calm os a.memory v.allocation_offset (vma_len v) (to_host p)

  protect_mapped-Retains :
      (start end : ℕ) (p : GuestMemoryProtection) → Retains (protect_mapped os start end p)
  unfolding protect_mapped protect_cut
  protect_mapped-Retains start end p = Retains-bind (cuts-Retains start end) λ _.
      Retains-bind (ensure_guest_page_range_unique-Retains os start end) λ _.
        Retains-bind (Calm-Retains (Calm-gets _)) λ keys.
          Retains-bind (Calm-Retains (Calm-for_each keys (protect_area-Calm p)))
            λ _. protected-Retains p keys

  pub mprotect-Retains : (addr length prot : ℕ) → Retains (mprotect os addr length prot)
  unfolding mprotect
  mprotect-Retains addr length prot = Retains-bind (Calm-Retains (Calm-lift _)) λ p.
      Retains-if (length == 0) (Calm-Retains (Calm-lift _)) (
        Retains-bind (Calm-Retains (Calm-lift _)) λ end.
          Retains-bind (Calm-Retains (Calm-gets _)) λ mapped.
            Retains-if mapped (protect_mapped-Retains addr end p) (Calm-Retains (Calm-lift _)))
