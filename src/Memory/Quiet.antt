-- ===== src/Memory/Quiet.antt =====
-- Calls on the memory of crates/mcr-memory/src/lib.rs that keep the protection and kind of every
-- address: those that reserve, copy or move host memory and cut areas in two. The bytes are the
-- subject of Memory/Bytes.
pub mod Moves
pub mod Allocate
pub mod Reserve
pub mod Bind
pub mod Brk
use mathlib.Core.Option
use mcr.Prelude.{
  ℕ, ◌≤◌, ◌<◌, ◌≡◌, ◌⊎◌, refl, sym, ap, ◌∙◌, ◌==◌, ==_iff, Bool, true, false, Option, none, some,
  List, [], ◌∷◌, inl, inr, arith, if◌then◌else◌, Bool-cases,
}
use mcr.Prelude.OrdMap
use mcr.Prelude.OrdMap.{nat_key}
use mcr.Memory.Error.{GuestMemoryError, HostErrorKind, Outcome, ok, err, panicked}
use mcr.Memory.Vma.{GuestVma, GuestVmaKind, GuestMemoryProtection, vma_contains}
use mcr.Memory.Map.{Vmas}
use mcr.Memory.Map.Order.{Ordered}
use mcr.Memory.Map.Cut.{Cell, cell_at, Edge}
use mcr.Memory.State.{
  HostAddressMode, GuestMemory, Action, return, fail, panic, lift, gets, ok_or, expect, edit, ◌>>=◌,
  ◌>>◌, for_each, host_call,
}

-- The attributes of an address: its protection and its kind.
pub record Attributes : Type 0 where
  pub protection : GuestMemoryProtection
  pub kind : GuestVmaKind

abbrev pub attributes_of : Cell → Attributes
attributes_of c = record { protection = c.protection; kind = c.kind }

abbrev pub attributes_at : Vmas → ℕ → Option Attributes
attributes_at m x = Option.map attributes_of (cell_at m x)

-- The bounds of the heap, of the search for free ranges and of the address space.
abbrev pub layout_of : GuestMemory → ℕ × ℕ × ℕ × ℕ × HostAddressMode
layout_of g = (g.brk_base, g.current_brk, g.mmap_base, g.address_space_end, g.host_address_mode)

-- The areas are in order, and every address has the attributes that it had.
pub record Same (m m' : Vmas) : Type 0 where
  pub ordered : Ordered 0 m'
  pub edges : (b : ℕ) → Edge b m → Edge b m'
  pub attributes : (x : ℕ) → attributes_at m' x ≡ attributes_at m x

pub record Quiet (g g' : GuestMemory) : Type 0 where
  pub areas : Same g.vmas g'.vmas
  pub layout : layout_of g' ≡ layout_of g

pub Same-refl : (m : Vmas) → Ordered 0 m → Same m m
Same-refl m o = record { ordered = o; edges = λ b h. h; attributes = λ x. refl }

pub Same-trans : (l m n : Vmas) → Same l m → Same m n → Same l n
Same-trans l m n s t = record {
  ordered = t.ordered;
  edges = λ b h. t.edges b (s.edges b h);
  attributes = λ x. t.attributes x ∙ s.attributes x;
}

pub Quiet-refl : (g : GuestMemory) → Ordered 0 g.vmas → Quiet g g
Quiet-refl g o = record { areas = Same-refl g.vmas o; layout = refl }

pub Quiet-trans : (g h k : GuestMemory) → Quiet g h → Quiet h k → Quiet g k
Quiet-trans g h k s t = record {
  areas = Same-trans g.vmas h.vmas k.vmas s.areas t.areas;
  layout = t.layout ∙ s.layout;
}

-- A call that leaves the bounds of every memory, on every outcome.
pub record Steady {ℓ} {A : Type ℓ} (m : Action A) : Type ℓ where
  pub layout : (g : GuestMemory) → layout_of (m g).1 ≡ layout_of g

module _ {ℓ} {A : Type ℓ} where
  pub Steady-lift : (m : Outcome A) → Steady (lift m)
  Steady-lift m = record { layout = λ g. refl }

  pub Steady-gets : (f : GuestMemory → A) → Steady (gets f)
  Steady-gets f = record { layout = λ g. refl }

  pub Steady-expect : (a : Option A) → Steady (expect a)
  Steady-expect none = Steady-lift panicked
  Steady-expect (some a) = Steady-lift (ok a)

  pub Steady-if : (b : Bool) {m n : Action A} → Steady m → Steady n → Steady (if b then m else n)
  Steady-if true p q = p
  Steady-if false p q = q

pub Steady-bind {ℓ κ} :
    {A : Type ℓ} {B : Type κ} {m : Action A} {f : A → Action B}
    → Steady m
    → ((a : A) → Steady (f a))
    → Steady (m >>= f)
unfolding ◌>>=◌
Steady-bind {A = A} {m = m} {f = f} p q = record { layout = λ g. after g (m g) (p.layout g) }
  where
    after :
        (g : GuestMemory) (run : Outcome A × GuestMemory)
        → layout_of run.1 ≡ layout_of g
        → layout_of (((λ _. run) >>= f) g).1 ≡ layout_of g
    after g (ok a, g') e = (q a).layout g' ∙ e
    after g (err x, g') e = e
    after g (panicked, g') e = e

pub Steady-edit :
    {f : GuestMemory → GuestMemory}
    → ((g : GuestMemory) → layout_of (f g) ≡ layout_of g)
    → Steady (edit f)
Steady-edit p = record { layout = p }

pub Steady-host_call : (answer : ℕ → Option HostErrorKind) → Steady (host_call answer)
unfolding host_call
Steady-host_call answer = record { layout = λ g. by_answer g (answer g.host_calls) }
  where
    by_answer :
        (g : GuestMemory) (a : Option HostErrorKind)
        → layout_of (host_call (λ _. a) g).1 ≡ layout_of g
    by_answer g none = refl
    by_answer g (some kind) = refl

-- A call that keeps the order of the areas, the attributes of every address and the bounds, on every
-- outcome.
pub record Keeps {ℓ} {A : Type ℓ} (m : Action A) : Type ℓ where
  pub quiet : (g : GuestMemory) → Ordered 0 g.vmas → Quiet g (m g).1
  pub steady : Steady m

module _ {ℓ} {A : Type ℓ} where
  -- Calls that leave the memory alone.
  pub Keeps-lift : (m : Outcome A) → Keeps (lift m)
  Keeps-lift m = record { quiet = λ g o. Quiet-refl g o; steady = Steady-lift m }

  pub Keeps-gets : (f : GuestMemory → A) → Keeps (gets f)
  Keeps-gets f = record { quiet = λ g o. Quiet-refl g o; steady = Steady-gets f }

  pub Keeps-ok_or : (a : Option A) (e : GuestMemoryError) → Keeps (ok_or a e)
  Keeps-ok_or none e = Keeps-lift (err e)
  Keeps-ok_or (some a) e = Keeps-lift (ok a)

  pub Keeps-expect : (a : Option A) → Keeps (expect a)
  Keeps-expect none = Keeps-lift panicked
  Keeps-expect (some a) = Keeps-lift (ok a)

  pub Keeps-if : (b : Bool) {m n : Action A} → Keeps m → Keeps n → Keeps (if b then m else n)
  Keeps-if true p q = p
  Keeps-if false p q = q

pub Keeps-bind {ℓ κ} :
    {A : Type ℓ} {B : Type κ} {m : Action A} {f : A → Action B}
    → Keeps m
    → ((a : A) → Keeps (f a))
    → Keeps (m >>= f)
unfolding ◌>>=◌
Keeps-bind {A = A} {m = m} {f = f} p q = record {
  quiet = λ g o. after g (m g) (p.quiet g o);
  steady = Steady-bind p.steady (λ a. (q a).steady);
}
  where
    after :
        (g : GuestMemory) (run : Outcome A × GuestMemory)
        → Quiet g run.1
        → Quiet g (((λ _. run) >>= f) g).1
    after g (ok a, g') s = Quiet-trans g g' (f a g').1 s ((q a).quiet g' s.areas.ordered)
    after g (err e, g') s = s
    after g (panicked, g') s = s

pub Keeps-for_each {ℓ} :
    {A : Type ℓ} (list : List A) {f : A → Action (Unit {0})}
    → ((a : A) → Keeps (f a))
    → Keeps (for_each list f)
unfolding for_each
Keeps-for_each [] p = Keeps-lift (ok tt)
Keeps-for_each (a ∷ rest) p = Keeps-bind (p a) (λ _. Keeps-for_each rest p)

pub Keeps-host_call : (answer : ℕ → Option HostErrorKind) → Keeps (host_call answer)
unfolding host_call
Keeps-host_call answer = record {
  quiet = λ g o. by_answer g o (answer g.host_calls);
  steady = Steady-host_call answer;
}
  where
    by_answer :
        (g : GuestMemory)
        → Ordered 0 g.vmas
        → (a : Option HostErrorKind) → Quiet g (host_call (λ _. a) g).1
    by_answer g o none = record { areas = Same-refl g.vmas o; layout = refl }
    by_answer g o (some kind) = record { areas = Same-refl g.vmas o; layout = refl }

pub Keeps-edit :
    {f : GuestMemory → GuestMemory}
    → ((g : GuestMemory) → Ordered 0 g.vmas → Same g.vmas (f g).vmas)
    → ((g : GuestMemory) → layout_of (f g) ≡ layout_of g)
    → Keeps (edit f)
Keeps-edit p q = record {
  quiet = λ g o. record { areas = p g o; layout = q g };
  steady = Steady-edit q;
}
