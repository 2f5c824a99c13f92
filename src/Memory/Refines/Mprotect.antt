-- ===== src/Memory/Refines/Mprotect.antt =====
-- `mprotect` of crates/mcr-memory/src/lib.rs.
pub mod Whole
use mathlib.Core.Option
use mcr.Prelude.{
  ℕ, ◌≤◌, ◌<◌, ◌≡◌, ◌⊎◌, inl, inr, refl, sym, ap, Bool-cases, ◌∙◌, ◌==◌, true, false, none,
  if◌then◌else◌, arith,
}
use mcr.Prelude.OrdMap.{nat_key}
use mcr.Sys.Errno.{enomem}
use mcr.Memory.Error.{not_mapped, errno_of, Outcome, ok, err, panicked}
use mcr.Memory.Ranges.{checked_page_range}
use mcr.Memory.Vma.{GuestMemoryProtection, from_linux, vma_len}
use mcr.Memory.Map.{is_range_mapped, split_vma_at, keys_between, protect_keys, coalesce_adjacent}
use mcr.Memory.Map.Order.{Ordered, area_at}
use mcr.Memory.Map.Cut.{Edge, split_vma_at-IsCut}
use mcr.Memory.Map.Unmap.{within}
use mcr.Memory.Map.Join.{coalesce_adjacent-keeps}
use mcr.Memory.Map.Protect.{protect_keys-IsProtected}
use mcr.Memory.Map.Range.{IsMapped, is_range_mapped_iff}
use mcr.Memory.State.{Host, GuestMemory, to_host, bad_range, protect_range, protect_pages}
use mcr.Memory.Calls.{protect_area, protect_cut, protect_mapped, mprotect}
use mcr.Memory.Quiet.{
  Attributes, attributes_of, Quiet, Quiet-refl, Quiet-trans, Keeps, Keeps-lift, Keeps-gets,
  Keeps-expect, Keeps-bind, Keeps-for_each, Keeps-edit,
}
use mcr.Memory.Quiet.Bind.{
  Closed, bind_cases, if_cases, lift_step, gets_step, if_step, Still, Still-lift, Still-gets,
  Still-expect, Still-if, Still-bind, Still-for_each, Still-host_call, Still-edit,
}
use mcr.Memory.Quiet.Moves.{splits-Same}
use mcr.Memory.Quiet.Allocate.{protect_range-Keeps, ensure_guest_page_range_unique-Keeps}
use mcr.Memory.Refines.{View, Edited, Edited-after, IsPageRange, checked_page_range-IsPageRange}

abbrev with_attribute : GuestMemoryProtection → Attributes → Attributes
with_attribute p a = record a { protection = p }

-- The mapped addresses of a range have a protection; nothing else changes.
abbrev pub protected : ℕ → ℕ → GuestMemoryProtection → View → View
protected start end p v x = if within start end x then Option.map (with_attribute p) (v x) else v x

-- What the end of `mprotect` does to the areas.
protect_areas-Edited :
    (start end : ℕ) (p : GuestMemoryProtection) (g : GuestMemory)
    → Ordered 0 g.vmas
    → Edge start g.vmas
    → Edge end g.vmas
    → Edited (protected start end p) g (record g {
      vmas = coalesce_adjacent (protect_keys (keys_between start end g.vmas) p g.vmas);
    })
protect_areas-Edited start end p g o s e =
    let done = protect_keys-IsProtected p start end g.vmas o s e in
    let joined = coalesce_adjacent-keeps _ done.ordered in
    record {
      ordered = joined.0;
      views = λ x. ap (Option.map attributes_of) (joined.1 x ∙ done.cells x) ∙ ground arith;
      layout = refl;
    }

unfoldable pub ProtectRun :
    ℕ → ℕ → GuestMemoryProtection → GuestMemory → Outcome (Unit {0}) × GuestMemory → Type 0
ProtectRun start end p g (ok _, g') = Edited (protected start end p) g g'
ProtectRun start end p g (err e, g') = Quiet g g'
ProtectRun start end p g (panicked, g') = Quiet g g'

module _ (os : Host) (start end : ℕ) (p : GuestMemoryProtection) where
  ProtectRun-Closed : (g : GuestMemory) → Closed g (ProtectRun start end p g)
  unfolding ProtectRun
  ProtectRun-Closed g = record { error = λ e g' q. q; panic = λ g' q. q }

  ProtectRun-after :
      (g h : GuestMemory) (run : Outcome (Unit {0}) × GuestMemory)
      → Quiet g h
      → ProtectRun start end p h run
      → ProtectRun start end p g run
  unfolding ProtectRun
  ProtectRun-after g h (ok _, k) q r =
      Edited-after (protected start end p) g h k
        (λ v w x same.
          ap (λ a. if within start end x then Option.map (with_attribute p) a else a) same)
        q r
  ProtectRun-after g h (err e, k) q r = Quiet-trans g h k q r
  ProtectRun-after g h (panicked, k) q r = Quiet-trans g h k q r

  protect_area-Keeps : (key : ℕ) → Keeps (protect_area os p key)
  unfolding protect_area
  protect_area-Keeps key = Keeps-bind (Keeps-gets _) λ found. Keeps-bind (Keeps-expect found) λ vma.
      Keeps-bind (Keeps-gets _) λ place. Keeps-bind (Keeps-expect place) λ allocation.
        protect_range-Keeps os allocation.memory vma.allocation_offset (vma_len vma) (to_host p)

  protect_area-Still : (key : ℕ) → Still (protect_area os p key)
  unfolding protect_area protect_range protect_pages
  protect_area-Still key = Still-bind (Still-gets _) λ found. Still-bind (Still-expect found) λ vma.
      Still-bind (Still-gets _) λ place. Still-bind (Still-expect place) λ allocation.
        Still-if (bad_range allocation.memory vma.allocation_offset (vma_len vma)) (Still-lift _)
          (Still-bind (Still-host_call _) λ _. Still-edit (λ g. refl))

  protect_cut-ProtectRun :
      (g : GuestMemory)
      → Ordered 0 g.vmas
      → Edge start g.vmas
      → Edge end g.vmas
      → ProtectRun start end p g (protect_cut os start end p g)
  unfolding protect_cut
  protect_cut-ProtectRun g o s e =
      bind_cases (ProtectRun start end p g) (ProtectRun-Closed g) (Quiet-refl g o)
        (ensure_guest_page_range_unique-Keeps os start end)
        λ _ g1 e1 q1.
          bind_cases (ProtectRun start end p g) (ProtectRun-Closed g) q1 (Keeps-gets _)
            λ keys g2 e2 q2.
              bind_cases (ProtectRun start end p g) (ProtectRun-Closed g) q2
                (Keeps-for_each keys protect_area-Keeps)
                λ _ g3 e3 q3.
                  let still : g3.vmas ≡ g2.vmas =
                    ap (λ r. r.1.vmas) (sym e3)
                    ∙ (Still-for_each keys protect_area-Still).areas g2 in
                  let same : keys ≡ keys_between start end g3.vmas = cc in
                  rw same (
                    unfold ProtectRun in
                    Edited-after (protected start end p) g g3 _
                      (λ v w x same.
                        ap (λ a. if within start end x then Option.map (with_attribute p) a else a)
                          same)
                      q3
                      (protect_areas-Edited start end p g3 q3.areas.ordered (q3.areas.edges start s)
                        (q3.areas.edges end e)))

  pub protect_mapped-ProtectRun :
      (g : GuestMemory)
      → Ordered 0 g.vmas
      → ProtectRun start end p g (protect_mapped os start end p g)
  unfolding protect_mapped
  protect_mapped-ProtectRun g o =
      bind_cases (ProtectRun start end p g) (ProtectRun-Closed g) (Quiet-refl g o)
        (Keeps-edit (λ h. splits-Same h.vmas start end) (λ h. refl))
        λ _ g1 e1 q1.
          let first = split_vma_at-IsCut g.vmas start o in
          let second = split_vma_at-IsCut (split_vma_at start g.vmas) end first.ordered in
          let cut : g1.vmas ≡ split_vma_at end (split_vma_at start g.vmas) = cc in
          ProtectRun-after g g1 (protect_cut os start end p g1) q1 (
            protect_cut-ProtectRun g1 q1.areas.ordered (rw cut (second.edges start first.edge))
              (rw cut second.edge))

-- What a successful `mprotect` of a range that is not empty has found and done.
pub record IsProtection (addr length prot : ℕ) (g g' : GuestMemory) : Type 0 where
  pub protection : GuestMemoryProtection
  pub end : ℕ
  pub decoded : from_linux prot ≡ ok protection
  pub range : IsPageRange addr length end
  pub mapped : (a : ℕ) → addr ≤ a → a < end → IsMapped g.vmas a
  pub edited : Edited (protected addr end protection) g g'

unfoldable pub IsMprotect : ℕ → ℕ → ℕ → GuestMemory → Outcome (Unit {0}) × GuestMemory → Type 0
IsMprotect addr length prot g (ok _, g') =
    ((length ≡ 0) × Quiet g g') ⊎ IsProtection addr length prot g g'
IsMprotect addr length prot g (err e, g') = Quiet g g'
IsMprotect addr length prot g (panicked, g') = Quiet g g'

module _ (os : Host) (addr length prot : ℕ) where
  IsMprotect-Closed : (g : GuestMemory) → Closed g (IsMprotect addr length prot g)
  unfolding IsMprotect
  IsMprotect-Closed g = record { error = λ e g' q. q; panic = λ g' q. q }

  protected_run :
      (end : ℕ) (p : GuestMemoryProtection) (g h : GuestMemory)
      (run : Outcome (Unit {0}) × GuestMemory)
      → Quiet g h
      → from_linux prot ≡ ok p
      → IsPageRange addr length end
      → ((a : ℕ) → addr ≤ a → a < end → IsMapped g.vmas a)
      → ProtectRun addr end p h run
      → IsMprotect addr length prot g run
  unfolding IsMprotect ProtectRun
  protected_run end p g h (ok u, k) q d r m done = inr (record {
    protection = p;
    end = end;
    decoded = d;
    range = r;
    mapped = m;
    edited = unfold ProtectRun in ProtectRun-after os addr end p g h (ok u, k) q done;
  })
  protected_run end p g h (err e, k) q d r m done = Quiet-trans g h k q done
  protected_run end p g h (panicked, k) q d r m done = Quiet-trans g h k q done

  -- On ordered areas, the areas after `mprotect`: a success on a range that is not empty has found
  -- every address of it mapped and changes their protection, and all else keeps the protection and
  -- kind of every address.
  pub mprotect-IsMprotect :
      (g : GuestMemory)
      → Ordered 0 g.vmas
      → IsMprotect addr length prot g (mprotect os addr length prot g)
  unfolding mprotect
  mprotect-IsMprotect g o =
      bind_cases (IsMprotect addr length prot g) (IsMprotect-Closed g) (Quiet-refl g o)
        (Keeps-lift _)
        λ p g1 e1 q1.
          if_cases (IsMprotect addr length prot g) (length == 0) _ _
            (λ z. unfold IsMprotect in inl (ground (arith, z), q1))
            λ n.
              bind_cases (IsMprotect addr length prot g) (IsMprotect-Closed g) q1 (Keeps-lift _)
                λ end g2 e2 q2.
                  bind_cases (IsMprotect addr length prot g) (IsMprotect-Closed g) q2 (Keeps-gets _)
                    λ found g3 e3 q3.
                      if_cases (IsMprotect addr length prot g) found _ _
                        (λ y.
                          let accepted : checked_page_range addr length ≡ ok end = cc in
                          let decoded : from_linux prot ≡ ok p = cc in
                          let mapped : is_range_mapped g.vmas addr end ≡ true = cc in
                          let range = checked_page_range-IsPageRange addr length end accepted in
                          protected_run end p g g3 (protect_mapped os addr end p g3) q3 decoded
                            range
                            ((is_range_mapped_iff g.vmas addr end o
                                (omega (arith, range.nonempty, range.covers))).0
                              mapped)
                            (protect_mapped-ProtectRun os addr end p g3 q3.areas.ordered))
                        λ _. unfold IsMprotect in q3

-- On ordered areas, an `mprotect` with a valid protection whose range has an address that is not
-- mapped fails with ENOMEM and changes nothing at all.
pub mprotect-hole :
    (os : Host) (addr length prot end hole : ℕ) (p : GuestMemoryProtection) (g : GuestMemory)
    → Ordered 0 g.vmas
    → from_linux prot ≡ ok p
    → checked_page_range addr length ≡ ok end
    → addr ≤ hole
    → hole < end
    → area_at g.vmas hole ≡ none
    → (mprotect os addr length prot g ≡ (err not_mapped, g)) × (errno_of not_mapped ≡ enomem)
unfolding mprotect errno_of
mprotect-hole os addr length prot end hole p g o d c l h none_there =
    let range = checked_page_range-IsPageRange addr length end c in
    let some_length : (length == 0) ≡ false = ground (arith, range.nonempty) in
    (
      lift_step _ _ d (
          if_step (length == 0) _ _ some_length (
            lift_step _ _ c
              (gets_step _ _ (if_step (is_range_mapped g.vmas addr end) _ _ unmapped refl)))),
      refl,
    )
  where
    unmapped : is_range_mapped g.vmas addr end ≡ false
    unmapped = elim (Bool-cases (is_range_mapped g.vmas addr end)) [
      | inr e ↦ e
      | inl e ↦
          let (v, there) =
            (is_range_mapped_iff g.vmas addr end o (omega (arith, l, h))).0 e hole l h in
          absurd (ground (arith, there, none_there))
    ]
