-- ===== src/Memory/Quiet/Allocate.antt =====
-- Ending the sharing of host memory is quiet: crates/mcr-memory/src/lib.rs.
use mcr.Prelude.{◌≡◌, ◌∙◌, ℕ, ◌+◌, refl, ◌==◌, ◌||◌, leb, List, Option}
use mcr.Memory.Error.{HostErrorKind, Outcome, ok, err, panicked}
use mcr.Memory.Vma.{GuestVma, vma_len}
use mcr.Memory.State.{
  Host, HostMemory, HostAddressMode, flexible, fixed_guest, GuestAllocation, GuestMemory,
  MemoryProtection, read_write, to_host, allocate, allocate_at, protect, protect_range, bad_range,
  edit, protect_pages, new_buffer, flush_instruction_cache_range,
}
use mcr.Memory.Allocate.{
  AllocationProtectionRange, drop_unreferenced_allocations, take_allocation_id,
  allocate_guest_host_memory_at, apply_allocation_protections, restore, guarded_read, make_unique,
  ensure_allocation_unique, allocation_memory_mut, write_allocation, detach, detach_shared_vma,
  detach_range, then_drop, copy_into, ensure_guest_range_unique, ensure_guest_page_range_unique,
  in_bounds,
}
use mcr.Memory.Quiet.{
  layout_of, Same-refl, Quiet, Quiet-trans, Keeps, Keeps-lift, Keeps-gets, Keeps-ok_or,
  Keeps-expect, Keeps-if, Keeps-bind, Keeps-for_each, Keeps-host_call, Keeps-edit,
}
use mcr.Memory.Quiet.Moves.{modify-Same, splits-Same}

pub take_allocation_id-Keeps : Keeps take_allocation_id
unfolding take_allocation_id
take_allocation_id-Keeps = Keeps-bind (Keeps-gets _) λ id.
    Keeps-bind (Keeps-lift _)
      λ next. Keeps-bind (Keeps-edit (λ g. Same-refl g.vmas) (λ g. refl)) λ _. Keeps-lift _

protect_pages-Keeps :
    (handle offset len : ℕ) (protection : MemoryProtection)
    → Keeps (edit (protect_pages handle offset len protection))
unfolding protect_pages
protect_pages-Keeps handle offset len protection = Keeps-edit (λ g. Same-refl g.vmas) (λ g. refl)

new_buffer-Keeps : (answer : ℕ → Option HostErrorKind) (len : ℕ) → Keeps (new_buffer answer len)
unfolding new_buffer
new_buffer-Keeps answer len = Keeps-bind (Keeps-gets _) λ handle.
    Keeps-bind (Keeps-host_call answer)
      λ _. Keeps-bind (protect_pages-Keeps handle 0 len read_write) λ _. Keeps-lift _

module _ (os : Host) where
  pub allocate-Keeps :
      (start len : ℕ) (mode : HostAddressMode)
      → Keeps (allocate_guest_host_memory_at os start len mode)
  unfolding allocate_guest_host_memory_at allocate allocate_at
  allocate-Keeps start len flexible = Keeps-if (len == 0) (Keeps-lift _) (new_buffer-Keeps _ len)
  allocate-Keeps start len fixed_guest =
      Keeps-if (start == 0 || len == 0) (Keeps-lift _) (new_buffer-Keeps _ len)

  pub protect_range-Keeps :
      (memory : HostMemory) (offset len : ℕ) (protection : MemoryProtection)
      → Keeps (protect_range os memory offset len protection)
  unfolding protect_range
  protect_range-Keeps memory offset len protection =
      Keeps-if (bad_range memory offset len) (Keeps-lift _) (
        Keeps-bind (Keeps-host_call _)
          λ _. protect_pages-Keeps memory.buffer_id offset len protection)

  pub flush-Keeps :
      (memory : HostMemory) (offset len : ℕ)
      → Keeps (flush_instruction_cache_range os memory offset len)
  unfolding flush_instruction_cache_range
  flush-Keeps memory offset len =
      Keeps-if (bad_range memory offset len) (Keeps-lift _) (Keeps-host_call _)

  pub protect-Keeps :
      (memory : HostMemory) (protection : MemoryProtection) → Keeps (protect os memory protection)
  unfolding protect
  protect-Keeps memory protection = protect_range-Keeps memory 0 memory.len protection

  pub apply_allocation_protections-Keeps :
      (memory : HostMemory) (ranges : List AllocationProtectionRange)
      → Keeps (apply_allocation_protections os memory ranges)
  unfolding apply_allocation_protections
  apply_allocation_protections-Keeps memory ranges =
      Keeps-for_each ranges λ r. protect_range-Keeps memory r.offset r.len _

  pub restore-Keeps :
      (memory : HostMemory) (ranges : List AllocationProtectionRange)
      → Keeps (restore os memory ranges)
  unfolding restore
  restore-Keeps memory ranges = record {
    quiet = λ g o.
        after g (apply_allocation_protections os memory ranges g)
          ((apply_allocation_protections-Keeps memory ranges).quiet g o);
    steady = record {
      layout = λ g.
          bounds g (apply_allocation_protections os memory ranges g)
            ((apply_allocation_protections-Keeps memory ranges).steady.layout g);
    };
  }
    where
      after :
          (g : GuestMemory) (run : Outcome (Unit {0}) × GuestMemory)
          → Quiet g run.1
          → Quiet g (then_drop (apply_allocation_protections os memory ranges) run).1
      after g (ok _, g') s = s
      after g (panicked, g') s = s
      after g (err e, g') s =
          Quiet-trans g g' (apply_allocation_protections os memory ranges g').1 s
            ((apply_allocation_protections-Keeps memory ranges).quiet g' s.areas.ordered)

      bounds :
          (g : GuestMemory) (run : Outcome (Unit {0}) × GuestMemory)
          → layout_of run.1 ≡ layout_of g
          → layout_of (then_drop (apply_allocation_protections os memory ranges) run).1
            ≡ layout_of g
      bounds g (ok _, g') e = e
      bounds g (panicked, g') e = e
      bounds g (err x, g') e =
          (apply_allocation_protections-Keeps memory ranges).steady.layout g' ∙ e

  pub guarded_read-Keeps :
      (memory : HostMemory) (ranges : List AllocationProtectionRange)
      → Keeps (guarded_read os memory ranges)
  unfolding guarded_read
  guarded_read-Keeps memory ranges =
      Keeps-bind (protect-Keeps memory _) λ _. restore-Keeps memory ranges

  pub make_unique-Keeps :
      (id : ℕ) (allocation : GuestAllocation) → Keeps (make_unique os id allocation)
  unfolding make_unique
  make_unique-Keeps id allocation = Keeps-bind (Keeps-gets _) λ ranges.
      Keeps-bind (guarded_read-Keeps allocation.memory ranges) λ _.
        Keeps-bind (Keeps-gets _) λ mode.
          Keeps-bind (allocate-Keeps allocation.guest_start allocation.memory.len mode) λ fresh.
            Keeps-bind
              (apply_allocation_protections-Keeps
                (copy_into 0 fresh.len allocation.memory.byte fresh) ranges)
              λ _. Keeps-edit (λ g. Same-refl g.vmas) (λ g. refl)

  pub ensure_allocation_unique-Keeps : (id : ℕ) → Keeps (ensure_allocation_unique os id)
  unfolding ensure_allocation_unique
  ensure_allocation_unique-Keeps id = Keeps-bind (Keeps-gets _) λ found.
      Keeps-bind (Keeps-ok_or found _) λ allocation.
        Keeps-if allocation.memory.shared (make_unique-Keeps id allocation) (Keeps-lift _)

  pub allocation_memory_mut-Keeps : (id : ℕ) → Keeps (allocation_memory_mut os id)
  unfolding allocation_memory_mut
  allocation_memory_mut-Keeps id = Keeps-bind (ensure_allocation_unique-Keeps id) λ _.
      Keeps-bind (Keeps-gets _) λ found.
        Keeps-bind (Keeps-expect found)
          λ allocation. Keeps-if allocation.memory.shared (Keeps-lift _) (Keeps-lift _)

  pub write_allocation-Keeps :
      (id start len : ℕ) (bytes : ℕ → ℕ) → Keeps (write_allocation os id start len bytes)
  unfolding write_allocation
  write_allocation-Keeps id start len bytes = Keeps-bind (allocation_memory_mut-Keeps id) λ memory.
      Keeps-if (in_bounds memory start _) (Keeps-edit (λ g. Same-refl g.vmas) (λ g. refl))
        (Keeps-lift _)

  pub detach-Keeps :
      (vma : GuestVma) (allocation : GuestAllocation) → Keeps (detach os vma allocation)
  unfolding detach
  detach-Keeps vma allocation = Keeps-bind (Keeps-gets _) λ ranges.
      Keeps-bind (protect-Keeps allocation.memory read_write) λ _.
        Keeps-bind (Keeps-if (in_bounds allocation.memory _ _) (Keeps-lift _) (Keeps-lift _)) λ _.
          Keeps-bind (restore-Keeps allocation.memory ranges) λ _. Keeps-bind (Keeps-gets _) λ mode.
            Keeps-bind (allocate-Keeps vma.start (vma_len vma) mode) λ fresh.
              Keeps-bind
                (protect-Keeps
                  (copy_into 0 fresh.len (λ i. allocation.memory.byte (vma.allocation_offset + i))
                    fresh)
                  (to_host vma.protection))
                λ _. Keeps-bind take_allocation_id-Keeps λ id.
                  Keeps-bind (Keeps-edit (λ g. Same-refl g.vmas) (λ g. refl)) λ _.
                    Keeps-bind (Keeps-gets _) λ found.
                      Keeps-bind (Keeps-ok_or found _)
                        λ detached. Keeps-edit (λ g. modify-Same vma.start id 0 g.vmas) (λ g. refl)

  pub detach_shared_vma-Keeps : (vma : GuestVma) → Keeps (detach_shared_vma os vma)
  unfolding detach_shared_vma
  detach_shared_vma-Keeps vma = Keeps-bind (Keeps-gets _) λ found.
      Keeps-bind (Keeps-ok_or found _)
        λ allocation. Keeps-if allocation.memory.shared (detach-Keeps vma allocation) (Keeps-lift _)

  pub detach_range-Keeps : (start end : ℕ) → Keeps (detach_range os start end)
  unfolding detach_range drop_unreferenced_allocations
  detach_range-Keeps start end =
      Keeps-bind (Keeps-edit (λ g. splits-Same g.vmas start end) (λ g. refl)) λ _.
        Keeps-bind (Keeps-gets _) λ keys.
          Keeps-bind
            (Keeps-for_each keys λ key.
              Keeps-bind (Keeps-gets _)
                λ found. Keeps-bind (Keeps-ok_or found _) detach_shared_vma-Keeps)
            λ _. Keeps-edit (λ g. Same-refl g.vmas) (λ g. refl)

  pub ensure_guest_range_unique-Keeps :
      (start end : ℕ) → Keeps (ensure_guest_range_unique os start end)
  unfolding ensure_guest_range_unique
  ensure_guest_range_unique-Keeps start end = Keeps-if (leb end start) (Keeps-lift _) (
      Keeps-bind (Keeps-gets _) λ fixed. Keeps-bind (Keeps-gets _) λ ids.
        Keeps-if fixed (Keeps-for_each ids ensure_allocation_unique-Keeps)
          (detach_range-Keeps start end))

  -- On ordered areas, ending the sharing of the host memory of a range keeps the protection and
  -- kind of every address, on every outcome.
  pub ensure_guest_page_range_unique-Keeps :
      (start end : ℕ) → Keeps (ensure_guest_page_range_unique os start end)
  unfolding ensure_guest_page_range_unique
  ensure_guest_page_range_unique-Keeps start end =
      Keeps-if (leb end start) (Keeps-lift _)
        (Keeps-bind (Keeps-lift _) λ page_end. ensure_guest_range_unique-Keeps _ page_end)
