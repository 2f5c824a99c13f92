-- ===== src/Memory/Bytes/Unshare.antt =====
-- Ending the sharing of host memory keeps the bytes of the guest: crates/mcr-memory/src/lib.rs.
use mcr.Prelude.{
  ℕ, ◌≡◌, refl, subst, ap, ◌∙◌, ◌==◌, ◌||◌, Bool, true, false, Option, none, some, List, arith,
  if◌then◌else◌,
}
use mcr.Prelude.OrdMap
use mcr.Prelude.OrdMap.{nat_key, get-insert}
use mcr.Memory.Error.{GuestMemoryError, HostErrorKind, Outcome, ok, err, panicked}
use mcr.Memory.Map.Cut.{cell_at}
use mcr.Memory.State.{
  Host, HostMemory, HostAddressMode, flexible, fixed_guest, GuestAllocation, GuestMemory,
  MemoryProtection, read_write, Action, return, panic, lift, ok_or, edit, ◌>>=◌, bad_range,
  protect_pages, new_buffer, allocate, allocate_at, protect, protect_range,
}
use mcr.Memory.Allocate.{
  AllocationProtectionRange, allocate_guest_host_memory_at, apply_allocation_protections, restore,
  guarded_read, make_unique, ensure_allocation_unique, then_drop, copy_into, set_memory,
}
use mcr.Memory.Bytes.{
  Sound, Kept, Kept-trans, Retains, Alike, Alike-refl, Alike-trans, Alike-Kept, Calm, Calm-lift,
  Calm-gets, Calm-ok_or, Calm-if, Calm-edit, Calm-bind, Calm-for_each, Calm-host_call, bind_step,
}
use mcr.Memory.Bytes.Places.{content_of-copied}

-- What every value of a call has.
pub record Gives {ℓ} {A : Type ℓ} (P : A → Type 0) (m : Action A) : Type ℓ where
  pub holds : (g : GuestMemory) (a : A) (g' : GuestMemory) → m g ≡ (ok a, g') → P a

Gives-bind {ℓ κ} :
    {A : Type ℓ} {B : Type κ} {P : B → Type 0} (m : Action A) (f : A → Action B)
    → ((a : A) → Gives P (f a))
    → Gives P (m >>= f)
unfolding ◌>>=◌
Gives-bind {A = A} {B = B} {P = P} m f q = record { holds = λ g b g' e. by_run g (m g) b g' e }
  where
    by_run :
        (g : GuestMemory) (run : Outcome A × GuestMemory) (b : B) (g' : GuestMemory)
        → ((λ _. run) >>= f) g ≡ (ok b, g')
        → P b
    by_run g (ok a, h) b g' e = (q a).holds h b g' e
    by_run g (err x, h) b g' e = absurd (ground (arith, e))
    by_run g (panicked, h) b g' e = absurd (ground (arith, e))

Gives-return {ℓ} : {A : Type ℓ} {P : A → Type 0} (a : A) → P a → Gives P (return a)
Gives-return {P = P} a p = record { holds = λ g b g' e. subst P (ground (arith, e)) p }

Gives-if {ℓ} :
    {A : Type ℓ} {P : A → Type 0} (b : Bool) {m n : Action A}
    → Gives P m
    → Gives P n
    → Gives P (if b then m else n)
Gives-if true p q = p
Gives-if false p q = q

Gives-err {ℓ} : {A : Type ℓ} {P : A → Type 0} (e : GuestMemoryError) → Gives P (lift (err e))
Gives-err e = record { holds = λ g b g' h. absurd (ground (arith, h)) }

protect_pages-Calm :
    (handle offset len : ℕ) (protection : MemoryProtection)
    → Calm (edit (protect_pages handle offset len protection))
unfolding protect_pages
protect_pages-Calm handle offset len protection =
    Calm-edit (λ g. record { areas = refl; allocations = refl; next = refl })

new_buffer-Calm : (answer : ℕ → Option HostErrorKind) (len : ℕ) → Calm (new_buffer answer len)
unfolding new_buffer
new_buffer-Calm answer len = Calm-bind (Calm-gets _) λ handle.
    Calm-bind (Calm-host_call answer)
      λ _. Calm-bind (protect_pages-Calm handle 0 len read_write) λ _. Calm-lift _

-- A buffer of some length.
abbrev pub HasLen : ℕ → HostMemory → Type 0
HasLen len memory = memory.len ≡ len

new_buffer-HasLen :
    (answer : ℕ → Option HostErrorKind) (len : ℕ) → Gives (HasLen len) (new_buffer answer len)
unfolding new_buffer
new_buffer-HasLen answer len =
    Gives-bind _ _ λ handle. Gives-bind _ _ λ _. Gives-bind _ _ λ _. Gives-return _ refl

pub ok_or_found {ℓ} :
    {A : Type ℓ} (o : Option A) (x : GuestMemoryError) (a : A) (g g' : GuestMemory)
    → ok_or o x g ≡ (ok a, g')
    → o ≡ some a
ok_or_found none x a g g' e = absurd (ground (arith, e))
ok_or_found (some b) x a g g' e = ground (arith, e)

pub guard_passed :
    (b : Bool) (u : Unit {0}) (g g' : GuestMemory)
    → (if b then return {A = Unit {0}} tt else panic) g ≡ (ok u, g')
    → b ≡ true
guard_passed true u g g' e = refl
guard_passed false u g g' e = absurd (ground (arith, e))

pub Kept-if {ℓ} :
    {A : Type ℓ} (b : Bool) (m n : Action A) {g h : GuestMemory}
    → Kept g (m h).1
    → Kept g (n h).1
    → Kept g ((if b then m else n) h).1
Kept-if true m n p q = p
Kept-if false m n p q = q

module _ (os : Host) where
  pub allocate-Calm :
      (start len : ℕ) (mode : HostAddressMode)
      → Calm (allocate_guest_host_memory_at os start len mode)
  unfolding allocate_guest_host_memory_at allocate allocate_at
  allocate-Calm start len flexible = Calm-if (len == 0) (Calm-lift _) (new_buffer-Calm _ len)
  allocate-Calm start len fixed_guest =
      Calm-if (start == 0 || len == 0) (Calm-lift _) (new_buffer-Calm _ len)

  pub allocate-HasLen :
      (start len : ℕ) (mode : HostAddressMode)
      → Gives (HasLen len) (allocate_guest_host_memory_at os start len mode)
  unfolding allocate_guest_host_memory_at allocate allocate_at
  allocate-HasLen start len flexible = Gives-if (len == 0) (Gives-err _) (new_buffer-HasLen _ len)
  allocate-HasLen start len fixed_guest =
      Gives-if (start == 0 || len == 0) (Gives-err _) (new_buffer-HasLen _ len)

  pub protect_range-Calm :
      (memory : HostMemory) (offset len : ℕ) (protection : MemoryProtection)
      → Calm (protect_range os memory offset len protection)
  unfolding protect_range
  protect_range-Calm memory offset len protection =
      Calm-if (bad_range memory offset len) (Calm-lift _) (
        Calm-bind (Calm-host_call _) λ _. protect_pages-Calm memory.buffer_id offset len protection)

  pub protect-Calm :
      (memory : HostMemory) (protection : MemoryProtection) → Calm (protect os memory protection)
  unfolding protect
  protect-Calm memory protection = protect_range-Calm memory 0 memory.len protection

  apply-Calm :
      (memory : HostMemory) (ranges : List AllocationProtectionRange)
      → Calm (apply_allocation_protections os memory ranges)
  unfolding apply_allocation_protections
  apply-Calm memory ranges = Calm-for_each ranges λ r. protect_range-Calm memory r.offset r.len _

  pub restore-Calm :
      (memory : HostMemory) (ranges : List AllocationProtectionRange)
      → Calm (restore os memory ranges)
  unfolding restore
  restore-Calm memory ranges = record {
    alike = λ g.
        after g (apply_allocation_protections os memory ranges g)
          ((apply-Calm memory ranges).alike g);
  }
    where
      after :
          (g : GuestMemory) (run : Outcome (Unit {0}) × GuestMemory)
          → Alike g run.1
          → Alike g (then_drop (apply_allocation_protections os memory ranges) run).1
      after g (ok _, g') s = s
      after g (panicked, g') s = s
      after g (err e, g') s =
          Alike-trans g g' (apply_allocation_protections os memory ranges g').1 s
            ((apply-Calm memory ranges).alike g')

  guarded_read-Calm :
      (memory : HostMemory) (ranges : List AllocationProtectionRange)
      → Calm (guarded_read os memory ranges)
  unfolding guarded_read
  guarded_read-Calm memory ranges =
      Calm-bind (protect-Calm memory _) λ _. restore-Calm memory ranges

  -- A buffer of its own, with the bytes of the shared one, for an allocation.
  copied-Kept :
      (id : ℕ) (old : GuestAllocation) (fresh : HostMemory) (g : GuestMemory)
      → Sound g
      → OrdMap.get id g.allocations ≡ some old
      → fresh.len ≡ old.memory.len
      → Kept g (set_memory id (copy_into 0 fresh.len old.memory.byte fresh) g)
  unfolding copy_into
  copied-Kept id old fresh g s e l = record {
    sound = record { ordered = s.ordered; used = s.used };
    bytes = λ x.
        content_of-copied id g.allocations old (copy_into 0 fresh.len old.memory.byte fresh)
          (cell_at g.vmas x) e l (λ i h. ground (arith, h, l));
  }

  make_unique-Kept :
      (id : ℕ) (old : GuestAllocation) (g : GuestMemory)
      → Sound g
      → OrdMap.get id g.allocations ≡ some old
      → Kept g (make_unique os id old g).1
  unfolding make_unique
  make_unique-Kept id old g s found = bind_step _ (Calm-gets _) s (Alike-refl g) λ ranges g1 _ a1.
      bind_step _ (guarded_read-Calm old.memory ranges) s a1 λ _ g2 _ a2.
        bind_step _ (Calm-gets _) s a2 λ mode g3 _ a3.
          bind_step _ (allocate-Calm old.guest_start old.memory.len mode) s a3 λ fresh g4 e4 a4.
            bind_step _ (apply-Calm (copy_into 0 fresh.len old.memory.byte fresh) ranges) s a4
              λ _ g5 _ a5.
                let before = Alike-Kept g g5 a5 s in
                Kept-trans g g5 _ before (
                  copied-Kept id old fresh g5 before.sound
                    (ap (OrdMap.get id) a5.allocations ∙ found)
                    ((allocate-HasLen old.guest_start old.memory.len mode).holds g3 fresh g4 e4))

  pub ensure_allocation_unique-Retains : (id : ℕ) → Retains (ensure_allocation_unique os id)
  unfolding ensure_allocation_unique
  ensure_allocation_unique-Retains id = record {
    kept = λ g s. bind_step _ (Calm-gets _) s (Alike-refl g) λ found g1 e1 a1.
        bind_step _ (Calm-ok_or found _) s a1 λ old g2 e2 a2.
          let before = Alike-Kept g g2 a2 s in
          Kept-if old.memory.shared _ _
            (Kept-trans g g2 _ before (
              make_unique-Kept id old g2 before.sound (
                ap (OrdMap.get id) a2.allocations
                ∙ ground (arith, e1)
                ∙ ok_or_found found _ old g1 g2 e2)))
            before;
  }
