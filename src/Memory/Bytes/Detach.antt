-- ===== src/Memory/Bytes/Detach.antt =====
-- Giving an area a buffer of its own keeps the bytes of the guest: crates/mcr-memory/src/lib.rs.
use mcr.Prelude.{
  ℕ, ◌+◌, ◌-◌, ◌≤◌, ◌<◌, ◌≡◌, refl, sym, ap, ◌∙◌, inl, inr, ==_refl, leb, some, arith,
  if◌then◌else◌, Bool-cases,
}
use mcr.Prelude.OrdMap
use mcr.Prelude.OrdMap.{nat_key, get-insert}
use mcr.Memory.Error.{no_memory, not_mapped, Outcome, ok, err, panicked}
use mcr.Memory.Ranges.{checked_add}
use mcr.Memory.Vma.{GuestVma, vma_contains, vma_len}
use mcr.Memory.Map.{Vmas, split_vma_at}
use mcr.Memory.Map.Order.{Ordered}
use mcr.Memory.Map.Cut.{split_vma_at-IsCut, cell_of, cell_at}
use mcr.Memory.State.{
  Host, HostMemory, GuestAllocation, GuestMemory, read_write, to_host, Action, return, lift, gets,
  ok_or, edit, ◌>>=◌, ◌>>◌,
}
use mcr.Memory.Allocate.{
  copy_into, in_bounds, moved_to, insert_allocation, take_allocation_id, detach, detach_shared_vma,
  detach_range, drop_unreferenced_allocations, ensure_guest_range_unique,
  ensure_guest_page_range_unique,
}
use mcr.Memory.Quiet.{Quiet}
use mcr.Memory.Quiet.Moves.{modify-Same}
use mcr.Memory.Quiet.Allocate.{ensure_guest_page_range_unique-Keeps}
use mcr.Memory.Bytes.{
  byte_in, content_of, content, Sound, Kept, Kept-refl, Kept-trans, Retains, Retains-if,
  Retains-bind, Retains-for_each, Alike-refl, Alike-Kept, Calm-Retains, Calm-lift, Calm-gets,
  Calm-ok_or, Calm-if, bind_step,
}
use mcr.Memory.Bytes.Places.{
  cell_at-get, cell_at-moved_to, content_of-inserted, content_of-retained, get-Ordered,
}
use mcr.Memory.Bytes.Unshare.{
  ok_or_found, guard_passed, Kept-if, allocate-Calm, protect-Calm, restore-Calm, allocate-HasLen,
  ensure_allocation_unique-Retains,
}

-- The end of `detach`: the copy comes under a new id, and the area goes there.
placed-Kept :
    (v : GuestVma) (old : GuestAllocation) (new : HostMemory) (next : ℕ) (g : GuestMemory)
    → Sound g
    → OrdMap.get v.start g.vmas ≡ some v
    → OrdMap.get v.allocation_id g.allocations ≡ some old
    → v.allocation_offset + vma_len v ≤ old.memory.len
    → new.len ≡ vma_len v
    → ((i : ℕ) → i < vma_len v → new.byte i ≡ old.memory.byte (v.allocation_offset + i))
    → g.next_allocation_id < next
    → Kept g (record g {
      next_allocation_id = next;
      allocations =
          OrdMap.insert g.next_allocation_id
            (record { guest_start = v.start; memory = new })
            g.allocations;
      vmas = OrdMap.modify v.start (moved_to g.next_allocation_id 0) g.vmas;
    })
unfolding content_of byte_in
placed-Kept v old new next g s found place inside l b n = record {
  sound = record {
    ordered = (modify-Same v.start g.next_allocation_id 0 g.vmas s.ordered).ordered;
    used = λ x c e. ground (
      arith,
      e,
      n,
      s.used x c,
      cell_at-moved_to 0 v.start g.next_allocation_id g.vmas v x s.ordered found,
    );
  };
  bytes = bytes;
}
  where
    bytes :
        (x : ℕ)
        → content_of
            (OrdMap.insert g.next_allocation_id
              (record { guest_start = v.start; memory = new })
              g.allocations)
            (cell_at (OrdMap.modify v.start (moved_to g.next_allocation_id 0) g.vmas) x)
          ≡ content g x
    bytes x = elim (Bool-cases (vma_contains v x)) [
      | inl h ↦
          ap (content_of _) (
            cell_at-moved_to 0 v.start g.next_allocation_id g.vmas v x s.ordered found
            ∙ ap
                (λ c.
                  if c
                  then some (cell_of (moved_to g.next_allocation_id 0 v) x)
                  else cell_at g.vmas x)
                h)
          ∙ ground (
            arith,
            h,
            cell_at-get 0 v.start g.vmas v x s.ordered found h,
            get-insert g.next_allocation_id g.next_allocation_id
                (record { guest_start = v.start; memory = new }) g.allocations,
            ==_refl g.next_allocation_id,
            place,
            l,
            b (x - v.start),
            inside,
          )
          ∙ ap (content_of g.allocations) (sym (cell_at-get 0 v.start g.vmas v x s.ordered found h))
      | inr h ↦
          ap (content_of _) (
            cell_at-moved_to 0 v.start g.next_allocation_id g.vmas v x s.ordered found
            ∙ ap
                (λ c.
                  if c
                  then some (cell_of (moved_to g.next_allocation_id 0 v) x)
                  else cell_at g.vmas x)
                h)
          ∙ content_of-inserted g.next_allocation_id g.allocations
              (record { guest_start = v.start; memory = new }) (cell_at g.vmas x) (s.used x)
    ]

-- The end of `detach`, once the copy stands in a new buffer.
place_copy : GuestVma → HostMemory → Action (Unit {0})
unfolding take_allocation_id
place_copy v new = do
  id ← take_allocation_id
  edit (insert_allocation id v.start new)
  found ← gets (λ g. OrdMap.get v.start g.vmas)
  detached ← ok_or found not_mapped
  edit (λ g. record g { vmas = OrdMap.modify v.start (moved_to id 0) g.vmas })

place_copy-Kept :
    (v : GuestVma) (old : GuestAllocation) (new : HostMemory) (g : GuestMemory)
    → Sound g
    → OrdMap.get v.start g.vmas ≡ some v
    → OrdMap.get v.allocation_id g.allocations ≡ some old
    → v.allocation_offset + vma_len v ≤ old.memory.len
    → new.len ≡ vma_len v
    → ((i : ℕ) → i < vma_len v → new.byte i ≡ old.memory.byte (v.allocation_offset + i))
    → Kept g (place_copy v new g).1
unfolding place_copy take_allocation_id ◌>>=◌
place_copy-Kept v old new g s found place inside l b =
    by_sum (checked_add g.next_allocation_id 1 no_memory) refl
  where
    by_sum :
        (r : Outcome ℕ)
        → checked_add g.next_allocation_id 1 no_memory ≡ r
        → Kept g
            (((lift r >>= λ next.
                  edit (λ h. record h { next_allocation_id = next }) >> return g.next_allocation_id)
                >>= λ id.
                    edit (insert_allocation id v.start new)
                    >> (gets (λ h. OrdMap.get v.start h.vmas) >>= λ o. ok_or o not_mapped >>= λ _.
                        edit
                          (λ h. record h { vmas = OrdMap.modify v.start (moved_to id 0) h.vmas })))
              g).1
    by_sum (err x) e = Kept-refl g s
    by_sum panicked e = Kept-refl g s
    by_sum (ok next) e =
        rw found (placed-Kept v old new next g s found place inside l b (ground (arith, e)))

-- Areas with the same cells, in order.
pub recut-Kept :
    (m : Vmas) (g : GuestMemory)
    → Sound g
    → Ordered 0 m
    → ((x : ℕ) → cell_at m x ≡ cell_at g.vmas x)
    → Kept g (record g { vmas = m })
recut-Kept m g s o same = record {
  sound = record { ordered = o; used = λ x c e. s.used x c (sym (same x) ∙ e) };
  bytes = λ x. ap (content_of g.allocations) (same x);
}

pub cuts-Retains :
    (start end : ℕ)
    → Retains (edit (λ g. record g { vmas = split_vma_at end (split_vma_at start g.vmas) }))
cuts-Retains start end = record {
  kept = λ g s.
      let first = split_vma_at-IsCut g.vmas start s.ordered in
      let second = split_vma_at-IsCut (split_vma_at start g.vmas) end first.ordered in
      recut-Kept _ g s second.ordered (λ x. second.cells x ∙ first.cells x);
}

module _ (os : Host) where
  detach-Kept :
      (v : GuestVma) (old : GuestAllocation) (g : GuestMemory)
      → Sound g
      → OrdMap.get v.start g.vmas ≡ some v
      → OrdMap.get v.allocation_id g.allocations ≡ some old
      → Kept g (detach os v old g).1
  unfolding detach place_copy in_bounds copy_into
  detach-Kept v old g s found place = bind_step _ (Calm-gets _) s (Alike-refl g) λ ranges g1 _ a1.
      bind_step _ (protect-Calm os old.memory read_write) s a1 λ _ g2 _ a2.
        bind_step _ (Calm-if (in_bounds old.memory _ _) (Calm-lift _) (Calm-lift _)) s a2
          λ u g3 e3 a3. bind_step _ (restore-Calm os old.memory ranges) s a3 λ _ g4 _ a4.
            bind_step _ (Calm-gets _) s a4 λ mode g5 _ a5.
              bind_step _ (allocate-Calm os v.start (vma_len v) mode) s a5 λ fresh g6 e6 a6.
                let new =
                  copy_into 0 fresh.len (λ i. old.memory.byte (v.allocation_offset + i)) fresh in
                bind_step _ (protect-Calm os new (to_host v.protection)) s a6 λ _ g7 _ a7.
                  let before = Alike-Kept g g7 a7 s in
                  let inside =
                    guard_passed
                      (in_bounds old.memory v.allocation_offset (v.allocation_offset + vma_len v)) u
                      g2 g3 e3 in
                  let sized = (allocate-HasLen os v.start (vma_len v) mode).holds g5 fresh g6 e6 in
                  Kept-trans g g7 _ before (
                    place_copy-Kept v old new g7 before.sound
                      (ap (OrdMap.get v.start) a7.areas ∙ found)
                      (ap (OrdMap.get v.allocation_id) a7.allocations ∙ place)
                      (ground (arith, inside)) sized (λ i h. ground (arith, h, sized)))

  -- The area that a key leads to.
  detach_at_key-Retains :
      (key : ℕ)
      → Retains (
          gets (λ g. OrdMap.get key g.vmas) >>= λ found.
          ok_or found not_mapped >>= λ v. detach_shared_vma os v)
  unfolding detach_shared_vma
  detach_at_key-Retains key = record {
    kept = λ g s. bind_step _ (Calm-gets _) s (Alike-refl g) λ found g1 e1 a1.
        bind_step _ (Calm-ok_or found _) s a1 λ v g2 e2 a2.
          let there : OrdMap.get key g.vmas ≡ some v =
            ground (arith, e1) ∙ ok_or_found found _ v g1 g2 e2 in
          let keyed : v.start ≡ key = (get-Ordered 0 key g.vmas v s.ordered there).1 in
          bind_step _ (Calm-gets _) s a2 λ place g3 e3 a3.
            bind_step _ (Calm-ok_or place _) s a3 λ old g4 e4 a4.
              let before = Alike-Kept g g4 a4 s in
              Kept-if old.memory.shared _ _
                (Kept-trans g g4 _ before (
                  detach-Kept v old g4 before.sound
                    (ap (λ k. OrdMap.get k g4.vmas) keyed ∙ ap (OrdMap.get key) a4.areas ∙ there)
                    (rw a4.allocations (
                      ap (OrdMap.get v.allocation_id) (sym a2.allocations)
                      ∙ ground (arith, e3)
                      ∙ ok_or_found place _ old g3 g4 e4))))
                before;
  }

  dropped-Retains : Retains (edit drop_unreferenced_allocations)
  unfolding drop_unreferenced_allocations
  dropped-Retains = record {
    kept = λ g s. record {
      sound = record { ordered = s.ordered; used = s.used };
      bytes = content_of-retained g.vmas g.allocations;
    };
  }

  detach_range-Retains : (start end : ℕ) → Retains (detach_range os start end)
  unfolding detach_range
  detach_range-Retains start end = Retains-bind (cuts-Retains start end) λ _.
      Retains-bind (Calm-Retains (Calm-gets _))
        λ keys. Retains-bind (Retains-for_each keys detach_at_key-Retains) λ _. dropped-Retains

  ensure_guest_range_unique-Retains :
      (start end : ℕ) → Retains (ensure_guest_range_unique os start end)
  unfolding ensure_guest_range_unique
  ensure_guest_range_unique-Retains start end =
      Retains-if (leb end start) (Calm-Retains (Calm-lift _)) (
        Retains-bind (Calm-Retains (Calm-gets _)) λ fixed.
          Retains-bind (Calm-Retains (Calm-gets _)) λ ids.
            Retains-if fixed (Retains-for_each ids (ensure_allocation_unique-Retains os))
              (detach_range-Retains start end))

  pub ensure_guest_page_range_unique-Retains :
      (start end : ℕ) → Retains (ensure_guest_page_range_unique os start end)
  unfolding ensure_guest_page_range_unique
  ensure_guest_page_range_unique-Retains start end =
      Retains-if (leb end start) (Calm-Retains (Calm-lift _)) (
        Retains-bind (Calm-Retains (Calm-lift _))
          λ page_end. ensure_guest_range_unique-Retains _ page_end)

-- What no reader of the guest's addresses can see: every address keeps its protection, its kind and
-- its byte, and the bounds of the memory stay.
pub record Unseen (g g' : GuestMemory) : Type 0 where
  pub quiet : Quiet g g'
  pub kept : Kept g g'

-- On ordered areas of which none names an allocation that is still to come, ending the sharing of the
-- host memory of a range, which cuts areas and moves their bytes to new allocations, keeps the
-- protection, the kind and the byte of every address, the order of the areas and the bounds of the
-- memory, also where the operating system fails half-way.
pub ensure_guest_page_range_unique-Unseen :
    (os : Host) (start end : ℕ) (g : GuestMemory)
    → Sound g
    → Unseen g (ensure_guest_page_range_unique os start end g).1
ensure_guest_page_range_unique-Unseen os start end g s = record {
  quiet = (ensure_guest_page_range_unique-Keeps os start end).quiet g s.ordered;
  kept = (ensure_guest_page_range_unique-Retains os start end).kept g s;
}
