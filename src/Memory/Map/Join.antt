-- ===== src/Memory/Map/Join.antt =====
-- Joining areas that touch: `coalesce_adjacent`.
use mcr.Prelude.{
  ℕ, ◌≤◌, ◌<◌, ◌≡◌, refl, ap, ◌∙◌, ==_refl, true, Option, some, [], ◌∷◌, ◌++◌, inl, inr, arith,
  if◌then◌else◌, Bool-cases,
}
use mathlib.Core.List.{append_assoc}
use mcr.Prelude.OrdMap
use mcr.Prelude.OrdMap.{nat_key}
use mcr.Memory.Vma.{GuestVma, vma_contains, can_merge, protection_eq_iff, kind_eq-eq}
use mcr.Memory.Map.{Vmas, last_value, coalesce_from, coalesce_adjacent}
use mcr.Memory.Map.Order.{Ordered}
use mcr.Memory.Map.Cut.{Cell, cell_of, cell_at}

-- An area that the next one has been joined to.
abbrev extended : GuestVma → ℕ → GuestVma
extended v end = record v { end = end }

-- The areas from `previous` on, joined by a walk.
joined : GuestVma → Vmas → Vmas
joined previous [] = (previous.start, previous) ∷ []
joined previous ((k, v) ∷ m) =
    let longer = joined (extended previous v.end) m in
    let apart = joined v m in
    if can_merge previous v then longer else (previous.start, previous) ∷ apart

-- Areas that all start and end below an address.
abbrev Below : ℕ → Vmas → Type 0
Below high [] = Unit {0}
Below high ((k, v) ∷ m) = (k < high) × Below high m

last_value-append : (done : Vmas) (k : ℕ) (v : GuestVma) → last_value (done ++ (k, v) ∷ []) ≡ some v
unfolding last_value
last_value-append [] k v = refl
last_value-append ((j, w) ∷ []) k v = refl
last_value-append ((j, w) ∷ x ∷ done) k v = last_value-append (x ∷ done) k v

insert-append :
    (done : Vmas) (k : ℕ) (v : GuestVma)
    → Below k done
    → OrdMap.insert k v done ≡ done ++ (k, v) ∷ []
unfolding OrdMap.insert
insert-append [] k v b = refl
insert-append ((j, w) ∷ done) k v b = ground (arith, insert-append done k v b.1)

modify-append :
    (done : Vmas) (k : ℕ) (f : GuestVma → GuestVma) (v : GuestVma)
    → Below k done
    → OrdMap.modify k f (done ++ (k, v) ∷ []) ≡ done ++ (k, f v) ∷ []
unfolding OrdMap.modify
modify-append [] k f v b = ground (arith, ==_refl k)
modify-append ((j, w) ∷ done) k f v b = ground (arith, modify-append done k f v b.1)

Below-append :
    (done : Vmas) (high k : ℕ) (v : GuestVma)
    → Below k done
    → k < high
    → Below high (done ++ (k, v) ∷ [])
Below-append [] high k v b h = (h, tt)
Below-append ((j, w) ∷ done) high k v b h = (omega arith, Below-append done high k v b.1 h)

-- The loop, after its first area, is the walk.
coalesce_from-joined :
    (done : Vmas) (previous : GuestVma) (m : Vmas)
    → Below previous.start done
    → previous.start < previous.end
    → Ordered previous.end m
    → coalesce_from (done ++ (previous.start, previous) ∷ []) m ≡ done ++ joined previous m
unfolding coalesce_from joined
coalesce_from-joined done previous [] b n o = refl
coalesce_from-joined done previous ((k, v) ∷ m) b n o = elim (Bool-cases (can_merge previous v)) [
  | inl e ↦
      rw (last_value-append done previous.start previous, e, coalesce_from)
        ((ap (λ d. coalesce_from d m)
            (modify-append done previous.start (λ x. extended x v.end) previous b)
          ∙ coalesce_from-joined done (extended previous v.end) m b (omega arith) o.3))
  | inr e ↦
      rw (last_value-append done previous.start previous, e, coalesce_from)
        ((ap (λ d. coalesce_from d m)
            (insert-append (done ++ (previous.start, previous) ∷ []) v.start v
              (Below-append done v.start previous.start previous b (omega arith)))
          ∙ coalesce_from-joined (done ++ (previous.start, previous) ∷ []) v m
              (Below-append done v.start previous.start previous b (omega arith)) (omega arith) o.3
          ∙ append_assoc done ((previous.start, previous) ∷ []) (joined v m)))
]

-- The areas that come out of the join: in order, and with what every address had.
record IsJoined (low : ℕ) (previous : GuestVma) (m : Vmas) : Type 0 where
  ordered : Ordered low (joined previous m)
  cells :
      (x : ℕ)
      → cell_at (joined previous m) x
        ≡ (if vma_contains previous x then some (cell_of previous x) else cell_at m x)

-- What joining two areas means for an address.
merged_cell :
    (previous v : GuestVma)
    → can_merge previous v ≡ true
    → previous.start < previous.end
    → v.start < v.end
    → (x : ℕ) (rest : Option Cell)
    → (if vma_contains (extended previous v.end) x
        then some (cell_of (extended previous v.end) x)
        else rest)
      ≡ (if vma_contains previous x
          then some (cell_of previous x)
          else if vma_contains v x
          then some (cell_of v x)
          else rest)
unfolding can_merge
merged_cell previous v e n n' x rest =
    ground (
      arith,
      e,
      protection_eq_iff previous.protection v.protection,
      kind_eq-eq previous.kind v.kind,
    )

joined_lem :
    (low : ℕ) (previous : GuestVma) (m : Vmas)
    → low ≤ previous.start
    → previous.start < previous.end
    → Ordered previous.end m
    → IsJoined low previous m
unfolding joined cell_at
joined_lem low previous [] l n o = record { ordered = (l, refl, n, tt); cells = λ x. refl }
joined_lem low previous ((k, v) ∷ m) l n o = elim (Bool-cases (can_merge previous v)) [
  | inl e ↦
      let rest = joined_lem low (extended previous v.end) m l (omega arith) o.3 in
      record {
        ordered = rw (e, joined) rest.ordered;
        cells = λ x.
            rw (e, joined)
              (rest.cells x ∙ merged_cell previous v e n (omega arith) x (cell_at m x));
      }
  | inr e ↦
      let rest = joined_lem previous.end v m (omega arith) (omega arith) o.3 in
      record {
        ordered = rw (e, joined) (l, refl, n, rest.ordered);
        cells = λ x. rw (e, joined) (ground (arith, rest.cells x));
      }
]

coalesce_first :
    (k : ℕ) (v : GuestVma) (m : Vmas)
    → v.start < v.end
    → Ordered v.end m
    → coalesce_adjacent ((k, v) ∷ m) ≡ joined v m
unfolding coalesce_adjacent OrdMap.insert
coalesce_first k v m n o = coalesce_from-joined [] v m tt n o

-- On ordered areas, `coalesce_adjacent` keeps the order, and keeps the protection, the kind and the
-- place in the host's memory of every address.
pub coalesce_adjacent-keeps :
    (m : Vmas)
    → Ordered 0 m
    → Ordered 0 (coalesce_adjacent m) × ((x : ℕ) → cell_at (coalesce_adjacent m) x ≡ cell_at m x)
unfolding coalesce_adjacent
coalesce_adjacent-keeps [] o = (tt, λ x. refl)
coalesce_adjacent-keeps ((k, v) ∷ m) o =
    let walk = joined_lem 0 v m (omega arith) (omega arith) o.3 in
    rw (coalesce_first k v m (omega arith) o.3) (walk.ordered, λ x. unfold cell_at in walk.cells x)
