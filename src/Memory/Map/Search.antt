-- ===== src/Memory/Map/Search.antt =====
-- Searching the areas: `overlaps`, `is_range_mapped` and `find_free_range`.
use mcr.Prelude.{
  ℕ, ◌+◌, ◌-◌, ◌%◌, ◌^◌, ◌≤◌, ◌<◌, ◌≡◌, refl, true, false, ltb, leb, max, [], ◌∷◌, inl, inr, arith,
  Bool-cases,
}
use mcr.Memory.Error.{ok, ◌>>=◌, >>=-eq-ok}
use mcr.Memory.Ranges.{
  align_up, align_up_to, checked_raw_range, checked_mapping_end, is_page_aligned, min_guest_address,
}
use mcr.Memory.Map.{Vmas, overlaps, free_from, find_free_range}
use mcr.Memory.Map.Order.{Ordered}

-- Rounding up to a page gives the next multiple of the page size.
pub align_up-bounds :
    (value r : ℕ)
    → align_up value ≡ ok r
    → (value ≤ r) × (r < value + 4096) × (is_page_aligned r ≡ true)
unfolding align_up align_up_to
align_up-bounds value r h = ground (arith, h)

-- A start that `checked_mapping_end` accepts is a page from the least address on, and its range ends
-- in the address space.
pub checked_mapping_end-bounds :
    (start length space_end end : ℕ)
    → checked_mapping_end start length space_end ≡ ok end
    → (min_guest_address ≤ start)
      × (is_page_aligned start ≡ true)
      × (end ≡ start + length)
      × (end ≤ space_end)
unfolding checked_mapping_end checked_raw_range
checked_mapping_end-bounds start length space_end end h = ground (arith, h)

-- What the loop finds: a start from the candidate on, accepted, and free.
pub record IsFree (m : Vmas) (length space_end candidate r : ℕ) : Type 0 where
  pub from : candidate ≤ r
  pub least : min_guest_address ≤ r
  pub aligned : is_page_aligned r ≡ true
  pub ends : r + length ≤ space_end
  pub free : overlaps m r (r + length) ≡ false

overlaps-above :
    (low start end : ℕ) (m : Vmas) → Ordered low m → end ≤ low → overlaps m start end ≡ false
unfolding overlaps
overlaps-above low start end [] o h = refl
overlaps-above low start end ((k, v) ∷ m) o h = ground (arith, overlaps-above v.end start end m o.3)

free_from-IsFree :
    (length space_end candidate low : ℕ) (m : Vmas) (r : ℕ)
    → Ordered low m
    → free_from length space_end candidate m ≡ ok r
    → IsFree m length space_end candidate r
unfolding free_from overlaps
free_from-IsFree length space_end candidate low [] r o h =
    let (end, accepted, found) =
      >>=-eq-ok (checked_mapping_end candidate length space_end) (λ _. ok candidate) h in
    let bounds = checked_mapping_end-bounds candidate length space_end end accepted in
    record {
      from = ground (arith, found);
      least = ground (arith, found, bounds);
      aligned = ground (arith, found, bounds);
      ends = ground (arith, found, bounds);
      free = refl;
    }
free_from-IsFree length space_end candidate low ((k, v) ∷ m) r o h =
    let (end, accepted, found) = >>=-eq-ok (checked_mapping_end candidate length space_end) _ h in
    let bounds = checked_mapping_end-bounds candidate length space_end end accepted in
    elim (Bool-cases (leb end v.start)) [
      | inl below ↦
          let same : candidate ≡ r = ground (arith, rw below at found) in
          record {
            from = omega arith;
            least = omega arith;
            aligned = ground (arith, same, bounds);
            ends = omega arith;
            free = ground (arith, same, below, bounds, overlaps-above v.end r (r + length) m o.3);
          }
      | inr over ↦ elim (Bool-cases (ltb candidate v.end)) [
        | inl before ↦
            let (next, up, rest) = >>=-eq-ok (align_up v.end) _ (rw (over, before) at found) in
            let past = (align_up-bounds v.end next up).0 in
            let free = free_from-IsFree length space_end next v.end m r o.3 rest in
            record {
              from = ground (arith, before, past, free.from);
              least = free.least;
              aligned = free.aligned;
              ends = free.ends;
              free = ground (arith, past, free.from, free.free);
            }
        | inr after ↦
            let free =
              free_from-IsFree length space_end candidate v.end m r o.3
                (rw (over, after) at found) in
            record {
              from = free.from;
              least = free.least;
              aligned = free.aligned;
              ends = free.ends;
              free = ground (arith, after, free.from, free.free);
            }
      ]
    ]

-- A start at which a mapping of a length fits from a candidate on.
pub record Fits (m : Vmas) (length space_end candidate s : ℕ) : Type 0 where
  pub from : candidate ≤ s
  pub aligned : is_page_aligned s ≡ true
  pub ends : s + length ≤ space_end
  pub free : overlaps m s (s + length) ≡ false

-- The next page after an area that a fitting start lies behind.
align_up-fits :
    (value s : ℕ)
    → value ≤ s
    → is_page_aligned s ≡ true
    → s ≤ 2 ^ 64 - 4096
    → (r : ℕ) × (align_up value ≡ ok r) × (r ≤ s) × (is_page_aligned r ≡ true) × (value ≤ r)
unfolding align_up align_up_to
align_up-fits value s h a t = (
  value + 4095 - (value + 4095) % 4096,
  ground arith,
  ground (arith, a),
  ground arith,
  omega arith,
)

mapping_end-fits :
    (candidate length space_end : ℕ)
    → min_guest_address ≤ candidate
    → is_page_aligned candidate ≡ true
    → candidate + length ≤ space_end
    → space_end ≤ 2 ^ 64 - 4096
    → checked_mapping_end candidate length space_end ≡ ok (candidate + length)
unfolding checked_mapping_end checked_raw_range
mapping_end-fits candidate length space_end l a e t = ground arith

free_from-Fits :
    (length space_end candidate low : ℕ) (m : Vmas) (s : ℕ)
    → Ordered low m
    → 0 < length
    → space_end ≤ 2 ^ 64 - 4096
    → min_guest_address ≤ candidate
    → is_page_aligned candidate ≡ true
    → Fits m length space_end candidate s
    → (r : ℕ) × (free_from length space_end candidate m ≡ ok r) × (r ≤ s)
unfolding free_from overlaps
free_from-Fits length space_end candidate low [] s o n t l a f = (
  candidate,
  rw (mapping_end-fits candidate length space_end l a (omega (arith, f.from, f.ends)) t) refl,
  f.from,
)
free_from-Fits length space_end candidate low ((k, v) ∷ m) s o n t l a f =
    let accepted =
      mapping_end-fits candidate length space_end l a (omega (arith, f.from, f.ends)) t in
    elim (Bool-cases (leb (candidate + length) v.start)) [
      | inl below ↦ (candidate, rw (accepted, free_from) (rw (below, ◌>>=◌) refl), f.from)
      | inr over ↦
          let behind : v.end ≤ s = ground (arith, over, f.from, f.free) in
          elim (Bool-cases (ltb candidate v.end)) [
            | inl before ↦
                let (next, up, le, aligned, past) =
                  align_up-fits v.end s behind f.aligned (omega (arith, f.ends)) in
                let (r, found, first) =
                  free_from-Fits length space_end next v.end m s o.3 n t
                    (ground (arith, before, past, l)) aligned
                    (record {
                      from = le;
                      aligned = f.aligned;
                      ends = f.ends;
                      free = ground (arith, f.free);
                    }) in
                (
                  r,
                  rw (accepted, free_from) (rw (over, before, ◌>>=◌) (rw (up, ◌>>=◌) found)),
                  first,
                )
            | inr after ↦
                let (r, found, first) =
                  free_from-Fits length space_end candidate v.end m s o.3 n t l a (record {
                    from = f.from;
                    aligned = f.aligned;
                    ends = f.ends;
                    free = ground (arith, f.free);
                  }) in
                (r, rw (accepted, free_from) (rw (over, after, ◌>>=◌) found), first)
          ]
    ]

-- On ordered areas, a range that `find_free_range` finds starts on a page, no lower than the hint and
-- the least guest address, ends in the address space, and overlaps no area.
pub find_free_range-IsFree :
    (m : Vmas) (space_end hint length r : ℕ)
    → Ordered 0 m
    → find_free_range m space_end hint length ≡ ok r
    → IsFree m length space_end hint r
unfolding find_free_range
find_free_range-IsFree m space_end hint length r o h =
    let (candidate, up, found) = >>=-eq-ok (align_up hint) _ h in
    let free = free_from-IsFree length space_end (max candidate min_guest_address) 0 m r o found in
    record {
      from = omega (arith, free.from, align_up-bounds hint candidate up);
      least = free.least;
      aligned = free.aligned;
      ends = free.ends;
      free = free.free;
    }

-- On ordered areas, where a non-empty range fits at some page from the hint on, `find_free_range`
-- succeeds with a start that is no higher: it gives the first fit.
pub find_free_range-first :
    (m : Vmas) (space_end hint length s : ℕ)
    → Ordered 0 m
    → 0 < length
    → space_end ≤ 2 ^ 64 - 4096
    → min_guest_address ≤ s
    → Fits m length space_end hint s
    → (r : ℕ) × (find_free_range m space_end hint length ≡ ok r) × (r ≤ s)
unfolding find_free_range
find_free_range-first m space_end hint length s o n t l f =
    let (candidate, up, le, aligned, past) =
      align_up-fits hint s f.from f.aligned (omega (arith, f.ends)) in
    let (r, found, first) =
      free_from-Fits length space_end (max candidate min_guest_address) 0 m s o n t (omega arith)
        (ground (arith, aligned))
        (record { from = omega arith; aligned = f.aligned; ends = f.ends; free = f.free }) in
    (r, rw up found, first)
