-- ===== src/Memory/Quiet/Reserve.antt =====
-- Reserving host memory for a range is quiet: crates/mcr-memory/src/lib.rs.
use mcr.Prelude.{◌≡◌, ◌∙◌, ℕ, ◌-◌, refl, Option, none, some, List, [], ◌∷◌}
use mcr.Prelude.OrdMap.{nat_key}
use mcr.Prelude.OrdSet
use mcr.Memory.Error.{GuestMemoryError, Outcome, ok, err, panicked}
use mcr.Memory.State.{Host, HostMemory, GuestAllocation, GuestMemory, Action, read_write}
use mcr.Memory.Allocate.{copy_into}
use mcr.Memory.Reserve.{
  SavedAllocation, save_allocations, restore_saved_allocations, handle, or_else,
  replace_overlapping_allocations, allocate_new, reserve, ensure_host_allocation,
  zero_allocation_range,
}
use mcr.Memory.Quiet.{
  layout_of, Steady-bind, Steady-lift, Same-refl, Quiet, Quiet-trans, Keeps, Keeps-lift, Keeps-gets,
  Keeps-expect, Keeps-if, Keeps-bind, Keeps-for_each, Keeps-edit,
}
use mcr.Memory.Quiet.Moves.{move_areas-Same}
use mcr.Memory.Quiet.Allocate.{
  take_allocation_id-Keeps, allocate-Keeps, protect-Keeps, apply_allocation_protections-Keeps,
  guarded_read-Keeps, ensure_allocation_unique-Keeps, write_allocation-Keeps,
}

pub or_else-Keeps {ℓ} :
    {A : Type ℓ} {m : Action A} {handler : Action (Unit {0})}
    → Keeps m
    → Keeps handler
    → Keeps (or_else m handler)
unfolding or_else
or_else-Keeps {A = A} {m = m} {handler = handler} p q = record {
  quiet = λ g o. after g (m g) (p.quiet g o);
  steady = record { layout = λ g. bounds g (m g) (p.steady.layout g) };
}
  where
    after :
        (g : GuestMemory) (run : Outcome A × GuestMemory)
        → Quiet g run.1
        → Quiet g (handle handler run).1
    after g (ok a, g') s = s
    after g (panicked, g') s = s
    after g (err e, g') s =
        let failed : Outcome A × GuestMemory = handle handler (err e, g') in
        Quiet-trans g g' failed.1 s
          ((Keeps-bind q (λ _. Keeps-lift (failed_with e))).quiet g' s.areas.ordered)
      where
        failed_with : GuestMemoryError → Outcome A
        failed_with e = err e

    bounds :
        (g : GuestMemory) (run : Outcome A × GuestMemory)
        → layout_of run.1 ≡ layout_of g
        → layout_of (handle handler run).1 ≡ layout_of g
    bounds g (ok a, g') e = e
    bounds g (panicked, g') e = e
    bounds g (err x, g') e = (Steady-bind q.steady (λ _. Steady-lift (given x))).layout g' ∙ e
      where
        given : GuestMemoryError → Outcome A
        given x = err x

module _ (os : Host) where
  pub save_allocations-Keeps : (ids : List ℕ) → Keeps (save_allocations os ids)
  unfolding save_allocations
  save_allocations-Keeps [] = Keeps-lift _
  save_allocations-Keeps (id ∷ ids) = Keeps-bind (Keeps-gets _) λ ranges.
      Keeps-bind (Keeps-gets _) λ found. Keeps-bind (Keeps-expect found) λ allocation.
        Keeps-bind (guarded_read-Keeps os allocation.memory ranges)
          λ _. Keeps-bind (save_allocations-Keeps ids) λ saved. Keeps-lift _

  pub restore_saved_allocations-Keeps :
      (saved : List SavedAllocation) → Keeps (restore_saved_allocations os saved)
  unfolding restore_saved_allocations
  restore_saved_allocations-Keeps saved = Keeps-for_each saved λ s.
      Keeps-bind (Keeps-gets _) λ mode.
        Keeps-bind (allocate-Keeps os s.guest_start s.len mode) λ fresh.
          Keeps-bind
            (apply_allocation_protections-Keeps os (copy_into 0 s.len s.bytes fresh) s.ranges)
            λ _. Keeps-edit (λ g. Same-refl g.vmas) (λ g. refl)

  pub replace_overlapping_allocations-Keeps :
      (requested_start start end : ℕ) (ids : List ℕ)
      → Keeps (replace_overlapping_allocations os requested_start start end ids)
  unfolding replace_overlapping_allocations
  replace_overlapping_allocations-Keeps requested_start start end ids =
      Keeps-bind (save_allocations-Keeps ids) λ saved. Keeps-bind (Keeps-gets _) λ ranges.
        Keeps-bind (Keeps-edit (λ g. Same-refl g.vmas) (λ g. refl)) λ _.
          Keeps-bind (Keeps-lift _) λ len. Keeps-bind (Keeps-gets _) λ mode.
            Keeps-bind
              (or_else-Keeps (allocate-Keeps os start len mode)
                (restore_saved_allocations-Keeps saved))
              λ fresh. Keeps-bind (Keeps-lift _) λ memory. Keeps-bind take_allocation_id-Keeps λ id.
                Keeps-bind (Keeps-edit (λ g. Same-refl g.vmas) (λ g. refl)) λ _.
                  Keeps-bind
                    (or_else-Keeps (apply_allocation_protections-Keeps os memory ranges) (
                      Keeps-bind (Keeps-edit (λ g. Same-refl g.vmas) (λ g. refl))
                        λ _. restore_saved_allocations-Keeps saved))
                    λ _.
                      Keeps-bind (Keeps-edit (λ g. move_areas-Same ids id start g.vmas) (λ g. refl))
                        λ _. Keeps-lift _

  pub allocate_new-Keeps :
      (start guest_start guest_end : ℕ) → Keeps (allocate_new os start guest_start guest_end)
  unfolding allocate_new
  allocate_new-Keeps start guest_start guest_end = Keeps-bind (Keeps-lift _) λ offset.
      Keeps-bind (Keeps-lift _) λ len. Keeps-bind (Keeps-gets _) λ mode.
        Keeps-bind (allocate-Keeps os guest_start len mode) λ memory.
          Keeps-bind take_allocation_id-Keeps
            λ id. Keeps-bind (Keeps-edit (λ g. Same-refl g.vmas) (λ g. refl)) λ _. Keeps-lift _

  pub reserve-Keeps : (start length : ℕ) → Keeps (reserve os start length)
  unfolding reserve
  reserve-Keeps start length = Keeps-bind (Keeps-lift _) λ range.
      Keeps-bind (Keeps-lift _) λ guest_end. Keeps-bind (Keeps-gets _) λ ids.
        Keeps-bind (Keeps-gets _) λ whole.
          Keeps-if (OrdSet.is_empty ids) (allocate_new-Keeps start whole.0 whole.1)
            (replace_overlapping_allocations-Keeps start whole.0 whole.1 ids)

  -- On ordered areas, reserving host memory for a range keeps the protection and kind of every
  -- address, on every outcome; its bytes are not the subject here.
  pub ensure_host_allocation-Keeps :
      (start length : ℕ) → Keeps (ensure_host_allocation os start length)
  unfolding ensure_host_allocation
  ensure_host_allocation-Keeps start length =
      Keeps-bind (Keeps-lift _) λ end. Keeps-bind (Keeps-gets _) λ found. held found
    where
      held :
          (found : Option (ℕ × GuestAllocation))
          → Keeps (elim found [
            | some (id, allocation) ↦ mcr.Memory.State.return (id, start - allocation.guest_start)
            | none ↦ reserve os start length
          ])
      held none = reserve-Keeps start length
      held (some (id, allocation)) = Keeps-lift _

  pub zero_allocation_range-Keeps :
      (id offset len : ℕ) → Keeps (zero_allocation_range os id offset len)
  unfolding zero_allocation_range
  zero_allocation_range-Keeps id offset len = Keeps-bind (Keeps-lift _) λ end.
      Keeps-bind (Keeps-gets _) λ ranges. Keeps-bind (ensure_allocation_unique-Keeps os id) λ _.
        Keeps-bind (Keeps-gets _) λ found. Keeps-bind (Keeps-expect found) λ allocation.
          Keeps-bind (protect-Keeps os allocation.memory read_write) λ _.
            Keeps-bind (write_allocation-Keeps os id offset len (λ _. 0)) λ _.
              Keeps-bind (Keeps-gets _) λ found'.
                Keeps-bind (Keeps-expect found')
                  λ allocation'. apply_allocation_protections-Keeps os allocation'.memory ranges
