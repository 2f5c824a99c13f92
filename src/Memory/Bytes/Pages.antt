-- ===== src/Memory/Bytes/Pages.antt =====
-- The protection that the operating system has for the pages of the guest after `mprotect` of
-- crates/mcr-memory/src/lib.rs.
use mcr.Prelude.{
  ℕ, ◌+◌, ◌≤◌, ◌<◌, ◌≡◌, refl, sym, ap, ◌∙◌, ◌==◌, ==_iff, ==_refl, ◌&&◌, Bool, true, false, Option,
  none, some, List, [], ◌∷◌, inl, inr, arith, if◌then◌else◌, Bool-cases, Option-cases, subst,
}
use mcr.Prelude.OrdMap
use mcr.Prelude.OrdMap.{Map, nat_key}
use mcr.Prelude.OrdSet
use mcr.Memory.Error.{HostErrorKind, Outcome, ok, err, panicked}
use mcr.Memory.Vma.{GuestVma, GuestMemoryProtection, vma_contains, vma_len}
use mcr.Memory.Map.{Vmas, keys_between}
use mcr.Memory.Map.Order.{Ordered}
use mcr.Memory.Map.Cut.{Cell, cell_of, cell_at, Edge}
use mcr.Memory.State.{
  Host, HostMemory, GuestAllocation, GuestMemory, MemoryProtection, to_host, Action, edit, ◌>>=◌,
  for_each, host_call, bad_range, page_of, in_pages, protect_pages, protect_range,
}
use mcr.Memory.Calls.{protect_area}
use mcr.Memory.Bytes.{Alike, Calm-for_each}
use mcr.Memory.Bytes.Places.{get-Ordered}
use mcr.Memory.Bytes.Protect.{protect_area-Calm}

-- A value of a call in two steps comes from a value of the first.
pub bind_ok {ℓ κ} :
    {A : Type ℓ} {B : Type κ} (m : Action A) (f : A → Action B) (g g' : GuestMemory) (b : B)
    → (m >>= f) g ≡ (ok b, g')
    → (a : A) × (h : GuestMemory) × (m g ≡ (ok a, h)) × (f a h ≡ (ok b, g'))
unfolding ◌>>=◌
bind_ok {A = A} {B = B} m f g g' b e = by_run (m g) refl e
  where
    by_run :
        (run : Outcome A × GuestMemory)
        → m g ≡ run
        → ((λ _. run) >>= f) g ≡ (ok b, g')
        → (a : A) × (h : GuestMemory) × (m g ≡ (ok a, h)) × (f a h ≡ (ok b, g'))
    by_run (ok a, h) q e = (a, h, q, e)
    by_run (err x, h) q e = absurd (ground (arith, e))
    by_run (panicked, h) q e = absurd (ground (arith, e))

-- The pages with some protection keep it.
pub record Guards (p : MemoryProtection) (g g' : GuestMemory) : Type 0 where
  guarded :
      (handle page : ℕ) → g.page_protection handle page ≡ p → g'.page_protection handle page ≡ p

host_call-pages :
    (answer : ℕ → Option HostErrorKind) (g : GuestMemory)
    → (host_call answer g).1.page_protection ≡ g.page_protection
unfolding host_call
host_call-pages answer g = by_answer (answer g.host_calls)
  where
    by_answer :
        (a : Option HostErrorKind) → (host_call (λ _. a) g).1.page_protection ≡ g.page_protection
    by_answer none = refl
    by_answer (some kind) = refl

-- The pages of a range after a call that has protected it.
pub record Covered (p : MemoryProtection) (handle offset len : ℕ) (g : GuestMemory) : Type 0 where
  at : (o : ℕ) → offset ≤ o → o < offset + len → g.page_protection handle (page_of o) ≡ p

in_pages-page_of :
    (offset len o : ℕ) → offset ≤ o → o < offset + len → in_pages offset len (page_of o) ≡ true
unfolding in_pages page_of
in_pages-page_of offset len o l h = ground (arith, l, h)

if_ok {ℓ} :
    {A : Type ℓ} (b : Bool) (m n : Action A) (g : GuestMemory) (run : Outcome A × GuestMemory)
    → b ≡ false
    → (if b then m else n) g ≡ run
    → n g ≡ run
if_ok true m n g run h e = absurd (ground (arith, h))
if_ok false m n g run h e = e

protected_page :
    (handle offset len h page : ℕ) (p : MemoryProtection) (g : GuestMemory)
    → (protect_pages handle offset len p g).page_protection h page
      ≡ (if h == handle && in_pages offset len page then p else g.page_protection h page)
unfolding protect_pages
protected_page handle offset len h page p g = refl

-- The operating system has a protection for the places of an area.
pub record Guarded (p : MemoryProtection) (key : ℕ) (g : GuestMemory) : Type 0 where
  area : GuestVma
  area_found : OrdMap.get key g.vmas ≡ some area
  allocation : GuestAllocation
  place_found : OrdMap.get area.allocation_id g.allocations ≡ some allocation
  pages : Covered p allocation.memory.buffer_id area.allocation_offset (vma_len area) g

Guarded-later :
    (p : MemoryProtection) (key : ℕ) (g g' : GuestMemory)
    → Alike g g'
    → Guards p g g'
    → Guarded p key g
    → Guarded p key g'
Guarded-later p key g g' a s d = record {
  area = d.area;
  area_found = ap (OrdMap.get key) a.areas ∙ d.area_found;
  allocation = d.allocation;
  place_found = ap (OrdMap.get d.area.allocation_id) a.allocations ∙ d.place_found;
  pages = record { at = λ o l h. s.guarded _ _ (d.pages.at o l h) };
}

module _ (os : Host) where
  protect_range_ok :
      (memory : HostMemory) (offset len : ℕ) (p : MemoryProtection) (g g' : GuestMemory)
      → protect_range os memory offset len p g ≡ (ok tt, g')
      → Guards p g g' × Covered p memory.buffer_id offset len g'
  unfolding protect_range
  protect_range_ok memory offset len p g g' e = elim (Bool-cases (bad_range memory offset len)) [
    | inl bad ↦ absurd (ground (arith, e, bad))
    | inr good ↦
        let (u, h, called, rest) =
          bind_ok {0, 0} (host_call (λ n. os.protect_answer n offset len p))
            (λ _. edit (protect_pages memory.buffer_id offset len p)) g g' tt
            (if_ok (bad_range memory offset len) _ _ g (ok tt, g') good e) in
        let before : h.page_protection ≡ g.page_protection =
          ap (λ r. r.1.page_protection) (sym called) ∙ host_call-pages _ g in
        let after : protect_pages memory.buffer_id offset len p h ≡ g' = ap (λ r. r.1) rest in
        (
          record {
            guarded = λ handle page same.
                ap (λ k. k.page_protection handle page) (sym after)
                ∙ protected_page memory.buffer_id offset len handle page p h
                ∙ ground (arith, same, ap (λ f. f handle page) before);
          },
          record {
            at = λ o l b.
                ap (λ k. k.page_protection memory.buffer_id (page_of o)) (sym after)
                ∙ protected_page memory.buffer_id offset len memory.buffer_id (page_of o) p h
                ∙ ground (arith, ==_refl memory.buffer_id, in_pages-page_of offset len o l b);
          },
        )
  ]

  no_area :
      (p : GuestMemoryProtection) (key : ℕ) (g : GuestMemory)
      → OrdMap.get key g.vmas ≡ none
      → protect_area os p key g ≡ (panicked, g)
  unfolding protect_area ◌>>=◌
  no_area p key g found = rw (found, protect_area) refl

  no_place :
      (p : GuestMemoryProtection) (key : ℕ) (v : GuestVma) (g : GuestMemory)
      → OrdMap.get key g.vmas ≡ some v
      → OrdMap.get v.allocation_id g.allocations ≡ none
      → protect_area os p key g ≡ (panicked, g)
  unfolding protect_area ◌>>=◌
  no_place p key v g found place = rw (found, place, protect_area) refl

  at_place :
      (p : GuestMemoryProtection) (key : ℕ) (v : GuestVma) (a : GuestAllocation) (g : GuestMemory)
      → OrdMap.get key g.vmas ≡ some v
      → OrdMap.get v.allocation_id g.allocations ≡ some a
      → protect_area os p key g
        ≡ protect_range os a.memory v.allocation_offset (vma_len v) (to_host p) g
  unfolding protect_area ◌>>=◌
  at_place p key v a g found place = rw (found, place, protect_area) refl

  protect_area_ok :
      (p : GuestMemoryProtection) (key : ℕ) (g g' : GuestMemory)
      → protect_area os p key g ≡ (ok tt, g')
      → Guards (to_host p) g g' × Guarded (to_host p) key g'
  protect_area_ok p key g g' e = elim (Option-cases (OrdMap.get key g.vmas)) [
    | inl found ↦ absurd (ground (arith, e, no_area p key g found))
    | inr (v, found) ↦ elim (Option-cases (OrdMap.get v.allocation_id g.allocations)) [
      | inl place ↦ absurd (ground (arith, e, no_place p key v g found place))
      | inr (a, place) ↦
          let (kept, covered) =
            protect_range_ok a.memory v.allocation_offset (vma_len v) (to_host p) g g'
              (sym (at_place p key v a g found place) ∙ e) in
          let alike : Alike g g' =
            subst (λ r. Alike g r.1) e ((protect_area-Calm os p key).alike g) in
          (
            kept,
            record {
              area = v;
              area_found = ap (OrdMap.get key) alike.areas ∙ found;
              allocation = a;
              place_found = ap (OrdMap.get v.allocation_id) alike.allocations ∙ place;
              pages = covered;
            },
          )
    ]
  ]

  -- Each area of a list has been protected.
  pub for_each_ok :
      (p : GuestMemoryProtection) (keys : List ℕ) (g g' : GuestMemory)
      → for_each keys (protect_area os p) g ≡ (ok tt, g')
      → Guards (to_host p) g g'
        × ((k : ℕ) → OrdSet.contains k keys ≡ true → Guarded (to_host p) k g')
  unfolding for_each OrdSet.contains
  for_each_ok p [] g g' e = (
    record { guarded = λ handle page same. ground (arith, same, ap (λ r. r.1.page_protection) e) },
    λ k c. absurd (ground (arith, c)),
  )
  for_each_ok p (key ∷ keys) g g' e =
      let (u, h, first, rest) =
        bind_ok {0, 0} (protect_area os p key) (λ _. for_each keys (protect_area os p)) g g' tt e in
      let (kept, done) = protect_area_ok p key g h first in
      let (kept', dones) = for_each_ok p keys h g' rest in
      let same : Alike h g' =
        subst (λ r. Alike h r.1) rest ((Calm-for_each keys (protect_area-Calm os p)).alike h) in
      (
        record {
          guarded = λ handle page held. kept'.guarded handle page (kept.guarded handle page held);
        },
        λ k c. elim (Bool-cases (key == k)) [
          | inl this ↦
              Guarded-later (to_host p) k h g' same kept'
                (subst (λ j. Guarded (to_host p) j h) ((==_iff key k).0 this) done)
          | inr other ↦ dones k (ground (arith, c, other))
        ],
      )

-- An address of a range between two edges lies in an area under one of the keys of the range.
record Under (start end x : ℕ) (m : Vmas) (c : Cell) : Type 0 where
  key : ℕ
  listed : OrdSet.contains key (keys_between start end m) ≡ true
  area : GuestVma
  found : OrdMap.get key m ≡ some area
  inside : vma_contains area x ≡ true
  cell : c ≡ cell_of area x

area_key :
    (start end low x : ℕ) (m : Vmas) (c : Cell)
    → Ordered low m
    → Edge start m
    → Edge end m
    → start ≤ x
    → x < end
    → cell_at m x ≡ some c
    → Under start end x m c
unfolding cell_at keys_between OrdSet.contains OrdMap.get
area_key start end low x [] c o s e l h there = absurd (ground (arith, there))
area_key start end low x ((j, w) ∷ m) c o s e l h there = elim (Bool-cases (vma_contains w x)) [
  | inl this ↦ record {
    key = j;
    listed = ground (arith, this, o.1, o.2, s.0, e.0, l, h, ==_refl j);
    area = w;
    found = ground (arith, ==_refl j);
    inside = this;
    cell = ground (arith, this, there);
  }
  | inr other ↦
      let rest = area_key start end w.end x m c o.3 s.1 e.1 l h (ground (arith, other, there)) in
      record {
        key = rest.key;
        listed = ground (arith, rest.listed);
        area = rest.area;
        found = ground (
          arith,
          rest.found,
          ==_iff j rest.key,
          o.1,
          o.2,
          get-Ordered w.end rest.key m rest.area o.3 rest.found,
        );
        inside = rest.inside;
        cell = rest.cell;
      }
]

-- The protection that the operating system has for the page of a place, where the place has a
-- buffer.
unfoldable pub page_at : GuestMemory → Option Cell → Option MemoryProtection
page_at g none = none
page_at g (some c) = elim (OrdMap.get c.allocation_id g.allocations) [
  | none ↦ none
  | some a ↦ some (g.page_protection a.memory.buffer_id (page_of c.offset))
]

-- The protection that the operating system has for the page of an address of the guest.
abbrev pub host_page : GuestMemory → ℕ → Option MemoryProtection
host_page g x = page_at g (cell_at g.vmas x)

-- The pages of a range whose areas have been protected.
pub Guarded-page :
    (p : MemoryProtection) (start end x : ℕ) (g : GuestMemory) (c : Cell)
    → Ordered 0 g.vmas
    → Edge start g.vmas
    → Edge end g.vmas
    → ((k : ℕ) → OrdSet.contains k (keys_between start end g.vmas) ≡ true → Guarded p k g)
    → start ≤ x
    → x < end
    → cell_at g.vmas x ≡ some c
    → page_at g (some c) ≡ some p
unfolding page_at
Guarded-page p start end x g c o s e done l h there =
    let under = area_key start end 0 x g.vmas c o s e l h there in
    let area = done under.key under.listed in
    let same : area.area ≡ under.area = ground (arith, area.area_found, under.found) in
    ground (
      arith,
      same,
      under.cell,
      area.place_found,
      under.inside,
      area.pages.at c.offset (ground (arith, same, under.cell))
          (ground (arith, same, under.cell, under.inside)),
    )
