-- ===== src/Memory/Read/Whole.antt =====
-- `copy_guest` of crates/mcr-memory/src/lib.rs, as a whole.
use mcr.Prelude.{
  ℕ, ◌+◌, ◌-◌, ◌^◌, ◌≤◌, ◌<◌, ◌≡◌, inl, inr, refl, sym, ap, ◌∙◌, true, false, ltb, leb, min, none,
  some, [], ◌++◌, zero, suc, if◌then◌else◌, arith, Bool-cases, Option-cases,
}
use mcr.Prelude.OrdMap
use mcr.Prelude.OrdMap.{nat_key}
use mcr.Memory.Error.{invalid_length, denied, not_mapped, ok, err, panicked, ◌>>=◌}
use mcr.Memory.Ranges.{checked_raw_range}
use mcr.Memory.Vma.{GuestVma}
use mcr.Memory.Map.Order.{Ordered, area_at, vma_containing-eq-area_at}
use mcr.Memory.State.{GuestMemory, GuestAllocation}
use mcr.Memory.Allocate.{in_bounds}
use mcr.Memory.Read.{AccessKind, permits, chunk_of, copy_from, copy_guest}
use mcr.Memory.Read.Each.{
  byte_in, byte_at, read_each, read_each-append, read_each-slice, area_at-same, area_at-contains,
  slice_or_panic,
}

module _ (g : GuestMemory) (access : AccessKind) (o : Ordered 0 g.vmas) where
  -- The error or panic of the first byte is the result.
  read_each_missing :
      (x n : ℕ) → 0 < n → area_at g.vmas x ≡ none → read_each g access x n ≡ err not_mapped
  unfolding read_each byte_at
  read_each_missing x zero h e = absurd (omega (arith, h))
  read_each_missing x (suc n) h e = rw (e, byte_at) refl

  read_each_denied :
      (x n : ℕ) (v : GuestVma)
      → 0 < n
      → area_at g.vmas x ≡ some v
      → permits access v.protection ≡ false
      → read_each g access x n ≡ err denied
  unfolding read_each byte_at
  read_each_denied x zero v h e p = absurd (omega (arith, h))
  read_each_denied x (suc n) v h e p = rw (e, p, byte_at) refl

  read_each_lost :
      (x n : ℕ) (v : GuestVma)
      → 0 < n
      → area_at g.vmas x ≡ some v
      → permits access v.protection ≡ true
      → OrdMap.get v.allocation_id g.allocations ≡ none
      → read_each g access x n ≡ panicked
  unfolding read_each byte_at byte_in
  read_each_lost x zero v h e p a = absurd (omega (arith, h))
  read_each_lost x (suc n) v h e p a = rw (e, p, a, byte_at, byte_in) refl

  in_one_area :
      (x n : ℕ) (v : GuestVma) (allocation : GuestAllocation)
      → 0 < n
      → x + n ≤ v.end
      → area_at g.vmas x ≡ some v
      → permits access v.protection ≡ true
      → OrdMap.get v.allocation_id g.allocations ≡ some allocation
      → read_each g access x n
        ≡ slice_or_panic allocation.memory (v.allocation_offset + (x - v.start)) n
  in_one_area x zero v allocation h b e p a = absurd (omega (arith, h))
  in_one_area x (suc n) v allocation h b e p a =
      let inside = area_at-contains g.vmas x v e in
      read_each-slice g access v allocation x n
        (λ y l t. area_at-same 0 g.vmas x y v o e (omega (arith, inside, l)) (omega (arith, t, b)))
        (omega (arith, inside)) p a

  chunk_of-read_each :
      (cursor end : ℕ) (v : GuestVma)
      → cursor < end
      → area_at g.vmas cursor ≡ some v
      → permits access v.protection ≡ true
      → chunk_of g v cursor end ≡ read_each g access cursor (min v.end end - cursor)
  unfolding chunk_of in_bounds
  chunk_of-read_each cursor end v h e p =
      let inside = area_at-contains g.vmas cursor v e in
      elim (Option-cases (OrdMap.get v.allocation_id g.allocations)) [
        | inl a ↦
            rw (a, chunk_of)
              (sym (read_each_lost cursor (min v.end end - cursor) v (omega (arith, inside)) e p a))
        | inr (allocation, a) ↦
            rw (a, chunk_of)
              (ground arith
                ∙ sym (
                    in_one_area cursor (min v.end end - cursor) v allocation (omega (arith, inside))
                      (omega (arith, inside)) e p a))
      ]

  read_each_empty : (x n : ℕ) → n ≡ 0 → read_each g access x n ≡ ok []
  unfolding read_each
  read_each_empty x n e = rw e refl

  copy_from-read_each :
      (fuel cursor end : ℕ)
      → end - cursor ≤ fuel
      → copy_from g access fuel cursor end ≡ read_each g access cursor (end - cursor)
  unfolding copy_from
  copy_from-read_each zero cursor end h = sym (read_each_empty cursor (end - cursor) (omega arith))
  copy_from-read_each (suc fuel) cursor end h = elim (Bool-cases (leb end cursor)) [
    | inl done ↦
        rw (done, copy_from) (sym (read_each_empty cursor (end - cursor) (ground (arith, done))))
    | inr more ↦
        let short : cursor < end = ground (arith, more) in
        let same = vma_containing-eq-area_at 0 g.vmas cursor o in
        elim (Option-cases (area_at g.vmas cursor)) [
          | inl e ↦
              rw (more, same ∙ e, copy_from)
                (sym (read_each_missing cursor (end - cursor) (omega (arith, short)) e))
          | inr (v, e) ↦ elim (Bool-cases (permits access v.protection)) [
            | inr p ↦
                rw (more, same ∙ e, p, copy_from)
                  (sym (read_each_denied cursor (end - cursor) v (omega (arith, short)) e p))
            | inl p ↦
                let inside = area_at-contains g.vmas cursor v e in
                let n = min v.end end - cursor in
                let split : end - cursor ≡ n + (end - min v.end end) =
                  omega (arith, inside, short) in
                let next : cursor + n ≡ min v.end end = omega (arith, inside, short) in
                rw (more, same ∙ e, p, copy_from)
                  (ap
                      (λ c. c >>= λ chunk.
                        copy_from g access fuel (min v.end end) end >>= λ rest. ok (chunk ++ rest))
                      (chunk_of-read_each cursor end v short e p)
                    ∙ ap
                        (λ r.
                          read_each g access cursor n >>= λ chunk. r >>= λ rest. ok (chunk ++ rest))
                        (copy_from-read_each fuel (min v.end end) end (omega (arith, inside, short))
                          ∙ ap (λ x. read_each g access x (end - min v.end end)) (sym next))
                    ∙ sym (read_each-append g access cursor n (end - min v.end end))
                    ∙ ap (read_each g access cursor) (sym split))
          ]
        ]
  ]

  -- On ordered areas, `copy_guest`, which copies a chunk from each area, gives what reading byte by
  -- byte gives, the first error of a byte included, where the range does not overflow; its fuel, the
  -- length, is always enough. Where the range overflows it is an invalid length.
  pub copy_guest-read_each :
      (address len : ℕ)
      → copy_guest g address len access ≡ (
          if ltb (address + len) (2 ^ 64)
          then read_each g access address len
          else err invalid_length)
  unfolding copy_guest checked_raw_range
  copy_guest-read_each address len = elim (Bool-cases (ltb (address + len) (2 ^ 64))) [
    | inr e ↦ rw e refl
    | inl e ↦ rw e (
        copy_from-read_each len address (address + len) (omega arith)
        ∙ ap (read_each g access address) whole)
  ]
    where
      whole : address + len - address ≡ len
      whole = omega arith
