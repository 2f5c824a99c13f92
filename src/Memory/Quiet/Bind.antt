-- ===== src/Memory/Quiet/Bind.antt =====
-- Statements about the run of a call on the memory of crates/mcr-memory/src/lib.rs, by its steps.
use mcr.Prelude.{
  ℕ, ◌≡◌, refl, ◌∙◌, Bool, true, false, Option, none, some, List, [], ◌∷◌, if◌then◌else◌,
}
use mcr.Memory.Error.{GuestMemoryError, HostErrorKind, Outcome, ok, err, panicked}
use mcr.Memory.State.{GuestMemory, Action, lift, gets, expect, edit, ◌>>=◌, for_each, host_call}
use mcr.Memory.Quiet.{Quiet, Quiet-trans, Keeps}

-- A statement that holds of every error and panic after quiet steps from a memory.
pub record Closed {ℓ} {B : Type ℓ} (start : GuestMemory) (R : Outcome B × GuestMemory → Type 0)
    : Type 0 where
  pub error : (e : GuestMemoryError) (g : GuestMemory) → Quiet start g → R (err e, g)
  pub panic : (g : GuestMemory) → Quiet start g → R (panicked, g)

-- The next step of a run is quiet: what is left to show is the case where it gives a value.
pub bind_cases {ℓ κ} :
    {A : Type ℓ} {B : Type κ} {m : Action A} {f : A → Action B} {start g : GuestMemory}
    (R : Outcome B × GuestMemory → Type 0)
    → Closed start R
    → Quiet start g
    → Keeps m
    → ((a : A) (g' : GuestMemory) → m g ≡ (ok a, g') → Quiet start g' → R (f a g'))
    → R ((m >>= f) g)
unfolding ◌>>=◌
bind_cases {A = A} {m = m} {f = f} {start = start} {g = g} R closed before keeps step =
    by_run (m g) refl (keeps.quiet g before.areas.ordered)
  where
    by_run : (run : Outcome A × GuestMemory) → m g ≡ run → Quiet g run.1 → R (((λ _. run) >>= f) g)
    by_run (ok a, g') e q = step a g' e (Quiet-trans start g g' before q)
    by_run (err x, g') e q = closed.error x g' (Quiet-trans start g g' before q)
    by_run (panicked, g') e q = closed.panic g' (Quiet-trans start g g' before q)

-- A run of a conditional, by its test.
pub if_cases {ℓ} :
    {A : Type ℓ} {g : GuestMemory} (R : Outcome A × GuestMemory → Type 0) (b : Bool)
    (m n : Action A)
    → (b ≡ true → R (m g))
    → (b ≡ false → R (n g))
    → R ((if b then m else n) g)
if_cases R true m n p q = p refl
if_cases R false m n p q = q refl

-- The steps of a run whose tests and values are known.
pub lift_step {ℓ κ} :
    {A : Type ℓ} {B : Type κ} (m : Outcome A) (f : A → Action B) {g : GuestMemory}
    {run : Outcome B × GuestMemory} {a : A}
    → m ≡ ok a
    → f a g ≡ run
    → (lift m >>= f) g ≡ run
unfolding ◌>>=◌
lift_step m f e rest = rw e rest

pub gets_step {ℓ κ} :
    {A : Type ℓ} {B : Type κ} (h : GuestMemory → A) (f : A → Action B) {g : GuestMemory}
    {run : Outcome B × GuestMemory}
    → f (h g) g ≡ run
    → (gets h >>= f) g ≡ run
unfolding ◌>>=◌
gets_step h f rest = rest

pub if_step {ℓ} :
    {A : Type ℓ} (b : Bool) (m n : Action A) {g : GuestMemory} {run : Outcome A × GuestMemory}
    → b ≡ false
    → n g ≡ run
    → (if b then m else n) g ≡ run
if_step b m n e rest = rw e rest

-- A call that leaves the areas alone.
pub record Still {ℓ} {A : Type ℓ} (m : Action A) : Type ℓ where
  pub areas : (g : GuestMemory) → (m g).1.vmas ≡ g.vmas

module _ {ℓ} {A : Type ℓ} where
  pub Still-lift : (m : Outcome A) → Still (lift m)
  Still-lift m = record { areas = λ g. refl }

  pub Still-gets : (f : GuestMemory → A) → Still (gets f)
  Still-gets f = record { areas = λ g. refl }

  pub Still-expect : (a : Option A) → Still (expect a)
  Still-expect none = Still-lift panicked
  Still-expect (some a) = Still-lift (ok a)

  pub Still-if : (b : Bool) {m n : Action A} → Still m → Still n → Still (if b then m else n)
  Still-if true p q = p
  Still-if false p q = q

pub Still-bind {ℓ κ} :
    {A : Type ℓ} {B : Type κ} {m : Action A} {f : A → Action B}
    → Still m
    → ((a : A) → Still (f a))
    → Still (m >>= f)
unfolding ◌>>=◌
Still-bind {A = A} {m = m} {f = f} p q = record { areas = λ g. after g (m g) (p.areas g) }
  where
    after :
        (g : GuestMemory) (run : Outcome A × GuestMemory)
        → run.1.vmas ≡ g.vmas
        → (((λ _. run) >>= f) g).1.vmas ≡ g.vmas
    after g (ok a, g') e = (q a).areas g' ∙ e
    after g (err x, g') e = e
    after g (panicked, g') e = e

pub Still-for_each {ℓ} :
    {A : Type ℓ} (list : List A) {f : A → Action (Unit {0})}
    → ((a : A) → Still (f a))
    → Still (for_each list f)
unfolding for_each
Still-for_each [] p = Still-lift (ok tt)
Still-for_each (a ∷ rest) p = Still-bind (p a) (λ _. Still-for_each rest p)

pub Still-host_call : (answer : ℕ → Option HostErrorKind) → Still (host_call answer)
unfolding host_call
Still-host_call answer = record { areas = λ g. by_answer g (answer g.host_calls) }
  where
    by_answer :
        (g : GuestMemory) (a : Option HostErrorKind) → (host_call (λ _. a) g).1.vmas ≡ g.vmas
    by_answer g none = refl
    by_answer g (some kind) = refl

pub Still-edit :
    {f : GuestMemory → GuestMemory} → ((g : GuestMemory) → (f g).vmas ≡ g.vmas) → Still (edit f)
Still-edit p = record { areas = p }
