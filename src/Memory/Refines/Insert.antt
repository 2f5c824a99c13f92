-- ===== src/Memory/Refines/Insert.antt =====
-- A new area in a free range: `insert_mapping` of crates/mcr-memory/src/lib.rs.
use mathlib.Core.Option
use mcr.Prelude.{
  ℕ, ◌+◌, ◌≤◌, ◌<◌, ◌≡◌, inl, inr, refl, ap, Bool-cases, ◌∙◌, ◌==◌, ==_iff, true, false, ltb, max,
  none, some, [], ◌∷◌, if◌then◌else◌, arith,
}
use mcr.Prelude.OrdMap
use mcr.Prelude.OrdMap.{nat_key}
use mcr.Memory.Error.{Outcome, ok, err, panicked}
use mcr.Memory.Ranges.{checked_mapping_end, is_page_aligned, min_guest_address}
use mcr.Memory.Vma.{GuestVma, GuestVmaKind, GuestMemoryProtection, vma_contains}
use mcr.Memory.Map.{Vmas, overlaps}
use mcr.Memory.Map.Order.{Ordered}
use mcr.Memory.Map.Cut.{cell_of, cell_at}
use mcr.Memory.Map.Unmap.{within}
use mcr.Memory.Map.Search.{checked_mapping_end-bounds}
use mcr.Memory.State.{Host, GuestMemory}
use mcr.Memory.Mapping.{add_area, insert_mapping}
use mcr.Memory.Quiet.{
  attributes_of, attributes_at, Quiet, Quiet-refl, Keeps-lift, Keeps-gets, Keeps-expect, Keeps-if,
}
use mcr.Memory.Quiet.Bind.{Closed, bind_cases}
use mcr.Memory.Quiet.Allocate.{protect_range-Keeps}
use mcr.Memory.Quiet.Reserve.{ensure_host_allocation-Keeps, zero_allocation_range-Keeps}
use mcr.Memory.Refines.{View, view, Edited, Edited-after}

insert-Ordered :
    (low : ℕ) (m : Vmas) (v : GuestVma)
    → Ordered low m
    → low ≤ v.start
    → v.start < v.end
    → overlaps m v.start v.end ≡ false
    → Ordered low (OrdMap.insert v.start v m)
unfolding OrdMap.insert overlaps
insert-Ordered low [] v o l n f = (l, refl, n, tt)
insert-Ordered low ((k, w) ∷ m) v o l n f = elim (Bool-cases (k == v.start)) [
  | inl same ↦ absurd (ground (arith, same, f))
  | inr e ↦ elim (Bool-cases (ltb v.start k)) [
    | inl below ↦
        rw (e, below, OrdMap.insert) (l, refl, n, (ground (arith, below, f), o.1, o.2, o.3))
    | inr above ↦
        rw (e, above, OrdMap.insert)
          (
            o.0,
            o.1,
            o.2,
            insert-Ordered w.end m v o.3 (ground (arith, e, above, f)) n (ground (arith, f)),
          )
  ]
]

cell_at-insert :
    (low : ℕ) (m : Vmas) (v : GuestVma) (x : ℕ)
    → Ordered low m
    → v.start < v.end
    → overlaps m v.start v.end ≡ false
    → cell_at (OrdMap.insert v.start v m) x
      ≡ (if vma_contains v x then some (cell_of v x) else cell_at m x)
unfolding OrdMap.insert overlaps cell_at
cell_at-insert low [] v x o n f = refl
cell_at-insert low ((k, w) ∷ m) v x o n f =
    ground (arith, ==_iff k v.start, cell_at-insert w.end m v x o.3 n)

-- The addresses of a range have given attributes.
abbrev pub mapped : ℕ → ℕ → GuestMemoryProtection → GuestVmaKind → View → View
mapped start end protection kind v x =
    if within start end x then some (record { protection = protection; kind = kind }) else v x

-- What inserting a mapping does to the areas.
pub insert-Edited :
    (v : GuestVma) (g : GuestMemory)
    → Ordered 0 g.vmas
    → v.start < v.end
    → overlaps g.vmas v.start v.end ≡ false
    → Edited
        (mapped v.start v.end v.protection v.kind)
        g
        (record g { vmas = OrdMap.insert v.start v g.vmas })
insert-Edited v g o n f = record {
  ordered = insert-Ordered 0 g.vmas v o (omega arith) n f;
  views = λ x. ap (Option.map attributes_of) (cell_at-insert 0 g.vmas v x o n f) ∙ ground arith;
  layout = refl;
}

-- `overlaps` says whether an address of a range is mapped.
pub overlaps-free :
    (m : Vmas) (start end x : ℕ)
    → overlaps m start end ≡ false
    → within start end x ≡ true
    → attributes_at m x ≡ none
unfolding overlaps cell_at
overlaps-free [] start end x f h = refl
overlaps-free ((k, v) ∷ m) start end x f h = ground (arith, f, h, overlaps-free m start end x)

pub free-overlaps :
    (low : ℕ) (m : Vmas) (start end : ℕ)
    → Ordered low m
    → start < end
    → ((x : ℕ) → within start end x ≡ true → attributes_at m x ≡ none)
    → overlaps m start end ≡ false
unfolding overlaps cell_at
free-overlaps low [] start end o n free = refl
free-overlaps low ((k, v) ∷ m) start end o n free = ground (
  arith,
  free (max start v.start),
  free-overlaps v.end m start end o.3 n (λ x h. ground (arith, h, free x)),
)

-- A range that is free stays free over quiet steps.
pub overlaps-Quiet :
    (g g' : GuestMemory) (start end : ℕ)
    → Quiet g g'
    → start < end
    → overlaps g.vmas start end ≡ false
    → overlaps g'.vmas start end ≡ false
overlaps-Quiet g g' start end q n f =
    free-overlaps 0 g'.vmas start end q.areas.ordered n
      λ x h. q.areas.attributes x ∙ overlaps-free g.vmas start end x f h

-- What `insert_mapping` does.
pub record IsInserted (start length : ℕ) (p : GuestMemoryProtection) (kind : GuestVmaKind)
    (g g' : GuestMemory) : Type 0 where
  pub least : min_guest_address ≤ start
  pub aligned : is_page_aligned start ≡ true
  pub ends : start + length ≤ g.address_space_end
  pub free : (x : ℕ) → within start (start + length) x ≡ true → view g x ≡ none
  pub edited : Edited (mapped start (start + length) p kind) g g'

unfoldable pub InsertRun :
    ℕ
    → ℕ
    → GuestMemoryProtection
    → GuestVmaKind
    → GuestMemory
    → Outcome (Unit {0}) × GuestMemory
    → Type 0
InsertRun start length p kind g (ok _, g') = IsInserted start length p kind g g'
InsertRun start length p kind g (err e, g') = Quiet g g'
InsertRun start length p kind g (panicked, g') = Quiet g g'

module _ (os : Host) (start length : ℕ) (p : GuestMemoryProtection) (kind : GuestVmaKind) where
  InsertRun-Closed : (g : GuestMemory) → Closed g (InsertRun start length p kind g)
  unfolding InsertRun
  InsertRun-Closed g = record { error = λ e g' q. q; panic = λ g' q. q }

  add_area-InsertRun :
      (g g' : GuestMemory) (place : ℕ × ℕ)
      → Quiet g g'
      → 0 < length
      → min_guest_address ≤ start
      → is_page_aligned start ≡ true
      → start + length ≤ g.address_space_end
      → overlaps g.vmas start (start + length) ≡ false
      → InsertRun start length p kind g (add_area os start (start + length) p kind place g')
  unfolding add_area
  add_area-InsertRun g g' (id, offset) before n least aligned ends f =
      bind_cases (InsertRun start length p kind g) (InsertRun-Closed g) before (Keeps-gets _)
        λ found g1 e1 q1.
          bind_cases (InsertRun start length p kind g) (InsertRun-Closed g) q1 (Keeps-expect found)
            λ allocation g2 e2 q2.
              bind_cases (InsertRun start length p kind g) (InsertRun-Closed g) q2
                (protect_range-Keeps os allocation.memory offset _ _) λ _ g3 e3 q3. done g3 q3
    where
      done :
          (g3 : GuestMemory)
          → Quiet g g3
          → InsertRun start length p kind g (
            ok tt,
            record g3 {
              vmas =
                  OrdMap.insert start
                    (record {
                      start = start;
                      end = start + length;
                      protection = p;
                      kind = kind;
                      allocation_id = id;
                      allocation_offset = offset;
                    })
                    g3.vmas;
            },
          )
      done g3 q =
          unfold InsertRun in
          record {
            least = least;
            aligned = aligned;
            ends = ends;
            free = λ x h. overlaps-free g.vmas start (start + length) x f h;
            edited =
                Edited-after (mapped start (start + length) p kind) g g3 _
                  (λ v w x e. ground (arith, e)) q
                  (insert-Edited _ g3 q.areas.ordered (omega arith)
                    (overlaps-Quiet g g3 start (start + length) q (omega arith) f));
          }

  -- On ordered areas, `insert_mapping` of a length that is not zero succeeds only on a range of the
  -- address space that starts at a page and of which no address is mapped; it gives those addresses
  -- the protection and the kind, and every other address keeps its protection and kind. Where it
  -- fails or panics, whatever the operating system answers, every address keeps its protection and
  -- kind.
  pub insert_mapping-InsertRun :
      (g : GuestMemory)
      → Ordered 0 g.vmas
      → 0 < length
      → InsertRun start length p kind g (insert_mapping os start length p kind g)
  unfolding insert_mapping
  insert_mapping-InsertRun g o n =
      bind_cases (InsertRun start length p kind g) (InsertRun-Closed g) (Quiet-refl g o)
        (Keeps-gets _)
        λ space_end g1 e1 q1.
          bind_cases (InsertRun start length p kind g) (InsertRun-Closed g) q1 (Keeps-lift _)
            λ end g2 e2 q2.
              bind_cases (InsertRun start length p kind g) (InsertRun-Closed g) q2 (Keeps-gets _)
                λ used g3 e3 q3.
                  bind_cases (InsertRun start length p kind g) (InsertRun-Closed g) q3
                    (Keeps-if used (Keeps-lift _) (Keeps-lift _))
                    λ _ g4 e4 q4.
                      bind_cases (InsertRun start length p kind g) (InsertRun-Closed g) q4
                        (ensure_host_allocation-Keeps os start length)
                        λ place g5 e5 q5.
                          bind_cases (InsertRun start length p kind g) (InsertRun-Closed g) q5
                            (zero_allocation_range-Keeps os place.0 place.1 length)
                            λ _ g6 e6 q6.
                              let space : space_end ≡ g.address_space_end = cc in
                              let accepted : checked_mapping_end start length g.address_space_end
                                  ≡ ok end =
                                cc in
                              let bounds =
                                checked_mapping_end-bounds start length g.address_space_end end
                                  accepted in
                              let same : g2.vmas ≡ g.vmas = cc in
                              let unused : used ≡ false = elim (Bool-cases used) [
                                | inr e ↦ e
                                | inl e ↦ absurd (ground (arith, e, e4))
                              ] in
                              let free : overlaps g.vmas start end ≡ false = cc in
                              rw bounds.2 (
                                add_area-InsertRun g g6 place q6 n bounds.0 bounds.1 (omega arith)
                                  (rw (← bounds.2) free))
