-- ===== src/Memory/Bytes.antt =====
-- The bytes of the guest behind its addresses, and calls on the memory of
-- crates/mcr-memory/src/lib.rs that keep them.
pub mod Places
pub mod Unshare
pub mod Detach
pub mod Protect
pub mod Pages
use mcr.Prelude.{
  ℕ, ◌<◌, ◌≡◌, refl, subst, sym, ◌∙◌, Bool, true, false, ltb, Option, none, some, List, [], ◌∷◌,
  if◌then◌else◌,
}
use mcr.Prelude.OrdMap
use mcr.Prelude.OrdMap.{Map, nat_key}
use mcr.Memory.Error.{GuestMemoryError, HostErrorKind, Outcome, ok, err, panicked}
use mcr.Memory.Map.{Vmas}
use mcr.Memory.Map.Order.{Ordered}
use mcr.Memory.Map.Cut.{Cell, cell_at}
use mcr.Memory.State.{
  GuestAllocation, GuestMemory, Action, lift, gets, ok_or, expect, edit, ◌>>=◌, for_each, host_call,
}

-- The byte of an allocation at an offset, where it has one.
unfoldable pub byte_in : Option GuestAllocation → ℕ → Option ℕ
byte_in none offset = none
byte_in (some a) offset = if ltb offset a.memory.len then some (a.memory.byte offset) else none

unfoldable pub content_of : Map ℕ GuestAllocation → Option Cell → Option ℕ
unfolding byte_in
content_of allocations none = none
content_of allocations (some c) = byte_in (OrdMap.get c.allocation_id allocations) c.offset

-- The byte of the guest at an address, whatever the protection of the address.
abbrev pub content : GuestMemory → ℕ → Option ℕ
content g x = content_of g.allocations (cell_at g.vmas x)

-- The areas are in order, and no address lies in an allocation that is still to come.
pub record Sound (g : GuestMemory) : Type 0 where
  pub ordered : Ordered 0 g.vmas
  pub used : (x : ℕ) (c : Cell) → cell_at g.vmas x ≡ some c → c.allocation_id < g.next_allocation_id

-- Every address has the byte that it had.
pub record Kept (g g' : GuestMemory) : Type 0 where
  pub sound : Sound g'
  pub bytes : (x : ℕ) → content g' x ≡ content g x

pub Kept-refl : (g : GuestMemory) → Sound g → Kept g g
Kept-refl g s = record { sound = s; bytes = λ x. refl }

pub Kept-trans : (g h k : GuestMemory) → Kept g h → Kept h k → Kept g k
Kept-trans g h k s t = record { sound = t.sound; bytes = λ x. t.bytes x ∙ s.bytes x }

-- A call that keeps the bytes, on every outcome.
pub record Retains {ℓ} {A : Type ℓ} (m : Action A) : Type ℓ where
  pub kept : (g : GuestMemory) → Sound g → Kept g (m g).1

-- The same areas, allocations and next allocation id.
pub record Alike (g g' : GuestMemory) : Type 0 where
  pub areas : g'.vmas ≡ g.vmas
  pub allocations : g'.allocations ≡ g.allocations
  pub next : g'.next_allocation_id ≡ g.next_allocation_id

pub Alike-trans : (g h k : GuestMemory) → Alike g h → Alike h k → Alike g k
Alike-trans g h k s t = record {
  areas = t.areas ∙ s.areas;
  allocations = t.allocations ∙ s.allocations;
  next = t.next ∙ s.next;
}

pub Alike-Kept : (g g' : GuestMemory) → Alike g g' → Sound g → Kept g g'
Alike-Kept g g' a s = record {
  sound = record {
    ordered = rw a.areas s.ordered;
    used = λ x c e. rw a.next (s.used x c (rw (← a.areas) e));
  };
  bytes = λ x. rw (a.areas, a.allocations) refl;
}

-- A call that leaves those alone, on every outcome.
pub record Calm {ℓ} {A : Type ℓ} (m : Action A) : Type ℓ where
  pub alike : (g : GuestMemory) → Alike g (m g).1

pub Calm-Retains {ℓ} : {A : Type ℓ} {m : Action A} → Calm m → Retains m
Calm-Retains {m = m} c = record { kept = λ g s. Alike-Kept g (m g).1 (c.alike g) s }

pub Alike-refl : (g : GuestMemory) → Alike g g
Alike-refl g = record { areas = refl; allocations = refl; next = refl }

module _ {ℓ} {A : Type ℓ} where
  pub Calm-lift : (m : Outcome A) → Calm (lift m)
  Calm-lift m = record { alike = Alike-refl }

  pub Calm-gets : (f : GuestMemory → A) → Calm (gets f)
  Calm-gets f = record { alike = Alike-refl }

  pub Calm-ok_or : (a : Option A) (e : GuestMemoryError) → Calm (ok_or a e)
  Calm-ok_or none e = Calm-lift (err e)
  Calm-ok_or (some a) e = Calm-lift (ok a)

  pub Calm-expect : (a : Option A) → Calm (expect a)
  Calm-expect none = Calm-lift panicked
  Calm-expect (some a) = Calm-lift (ok a)

  pub Calm-if : (b : Bool) {m n : Action A} → Calm m → Calm n → Calm (if b then m else n)
  Calm-if true p q = p
  Calm-if false p q = q

  pub Retains-if :
      (b : Bool) {m n : Action A} → Retains m → Retains n → Retains (if b then m else n)
  Retains-if true p q = p
  Retains-if false p q = q

pub Calm-edit :
    {f : GuestMemory → GuestMemory} → ((g : GuestMemory) → Alike g (f g)) → Calm (edit f)
Calm-edit p = record { alike = p }

pub Calm-bind {ℓ κ} :
    {A : Type ℓ} {B : Type κ} {m : Action A} {f : A → Action B}
    → Calm m
    → ((a : A) → Calm (f a))
    → Calm (m >>= f)
unfolding ◌>>=◌
Calm-bind {A = A} {m = m} {f = f} p q = record { alike = λ g. after g (m g) (p.alike g) }
  where
    after :
        (g : GuestMemory) (run : Outcome A × GuestMemory)
        → Alike g run.1
        → Alike g (((λ _. run) >>= f) g).1
    after g (ok a, g') s = Alike-trans g g' (f a g').1 s ((q a).alike g')
    after g (err e, g') s = s
    after g (panicked, g') s = s

pub Calm-for_each {ℓ} :
    {A : Type ℓ} (list : List A) {f : A → Action (Unit {0})}
    → ((a : A) → Calm (f a))
    → Calm (for_each list f)
unfolding for_each
Calm-for_each [] p = Calm-lift (ok tt)
Calm-for_each (a ∷ rest) p = Calm-bind (p a) (λ _. Calm-for_each rest p)

pub Calm-host_call : (answer : ℕ → Option HostErrorKind) → Calm (host_call answer)
unfolding host_call
Calm-host_call answer = record { alike = λ g. by_answer g (answer g.host_calls) }
  where
    by_answer : (g : GuestMemory) (a : Option HostErrorKind) → Alike g (host_call (λ _. a) g).1
    by_answer g none = record { areas = refl; allocations = refl; next = refl }
    by_answer g (some kind) = record { areas = refl; allocations = refl; next = refl }

pub Retains-bind {ℓ κ} :
    {A : Type ℓ} {B : Type κ} {m : Action A} {f : A → Action B}
    → Retains m
    → ((a : A) → Retains (f a))
    → Retains (m >>= f)
unfolding ◌>>=◌
Retains-bind {A = A} {m = m} {f = f} p q = record { kept = λ g s. after g (m g) (p.kept g s) }
  where
    after :
        (g : GuestMemory) (run : Outcome A × GuestMemory)
        → Kept g run.1
        → Kept g (((λ _. run) >>= f) g).1
    after g (ok a, g') s = Kept-trans g g' (f a g').1 s ((q a).kept g' s.sound)
    after g (err e, g') s = s
    after g (panicked, g') s = s

pub Retains-for_each {ℓ} :
    {A : Type ℓ} (list : List A) {f : A → Action (Unit {0})}
    → ((a : A) → Retains (f a))
    → Retains (for_each list f)
unfolding for_each
Retains-for_each [] p = Calm-Retains (Calm-lift (ok tt))
Retains-for_each (a ∷ rest) p = Retains-bind (p a) (λ _. Retains-for_each rest p)

-- After a calm step, where what follows relies on the areas and allocations that were there.
pub bind_step {ℓ κ} :
    {A : Type ℓ} {B : Type κ} {m : Action A} (f : A → Action B) {start g : GuestMemory}
    → Calm m
    → Sound start
    → Alike start g
    → ((a : A) (g' : GuestMemory) → m g ≡ (ok a, g') → Alike start g' → Kept start (f a g').1)
    → Kept start ((m >>= f) g).1
unfolding ◌>>=◌
bind_step {A = A} {m = m} f {start = start} {g = g} calm s before step =
    by_run (m g) refl (calm.alike g)
  where
    by_run :
        (run : Outcome A × GuestMemory)
        → m g ≡ run
        → Alike g run.1
        → Kept start (((λ _. run) >>= f) g).1
    by_run (ok a, g') e c = step a g' e (Alike-trans start g g' before c)
    by_run (err x, g') e c = Alike-Kept start g' (Alike-trans start g g' before c) s
    by_run (panicked, g') e c = Alike-Kept start g' (Alike-trans start g g' before c) s
