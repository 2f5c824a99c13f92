-- ===== src/Memory/Map.antt =====
-- The areas of `GuestMemory` in crates/mcr-memory/src/lib.rs: a map from the start of each area.
pub mod Order
pub mod Cut
pub mod Unmap
pub mod Join
pub mod Search
pub mod Range
pub mod Protect
use mcr.Prelude.{
  ℕ, ◌+◌, ◌-◌, ◌==◌, Bool, true, false, not, ◌&&◌, ◌||◌, ltb, leb, max, Option, none, some, List,
  [], ◌∷◌, if◌then◌else◌,
}
use mcr.Prelude.OrdMap
use mcr.Prelude.OrdMap.{Map, nat_key}
use mcr.Memory.Error.{Outcome, ok, err, ◌>>=◌}
use mcr.Memory.Ranges.{align_up, checked_mapping_end, min_guest_address}
use mcr.Memory.Vma.{GuestVma, GuestMemoryProtection, vma_contains, can_merge}

abbrev pub Vmas : Type 0
Vmas = Map ℕ GuestVma

-- `range(..=address).next_back()`.
unfoldable pub last_at_most : ℕ → Vmas → Option GuestVma
last_at_most address [] = none
last_at_most address ((k, v) ∷ m) =
    let later = last_at_most address m in
    if leb k address then elim later [ none ↦ some v | some w ↦ some w ] else later

unfoldable pub containing : ℕ → Option GuestVma → Option GuestVma
containing address none = none
containing address (some v) = if vma_contains v address then some v else none

unfoldable pub vma_containing : Vmas → ℕ → Option GuestVma
unfolding last_at_most containing
vma_containing vmas address = containing address (last_at_most address vmas)

unfoldable pub overlaps : Vmas → ℕ → ℕ → Bool
overlaps [] start end = false
overlaps ((k, v) ∷ m) start end = ltb v.start end && ltb start v.end || overlaps m start end

-- The loop of `is_range_mapped`; the filter `vma.end > start` stands inside it.
unfoldable pub mapped_from : ℕ → ℕ → ℕ → Vmas → Bool
mapped_from start end cursor [] = false
mapped_from start end cursor ((k, v) ∷ m) = elim (ltb start v.end) [
  | false ↦ mapped_from start end cursor m
  | true ↦ elim (ltb cursor v.start) [
    | true ↦ false
    | false ↦
        let further = max cursor v.end in
        elim (leb end further) [ true ↦ true | false ↦ mapped_from start end further m ]
  ]
]

unfoldable pub is_range_mapped : Vmas → ℕ → ℕ → Bool
unfolding mapped_from
is_range_mapped vmas start end = mapped_from start end start vmas

-- The two parts of an area that is cut at an address inside it.
abbrev pub left_part : ℕ → GuestVma → GuestVma
left_part address v = record v { end = address }

abbrev pub right_part : ℕ → GuestVma → GuestVma
right_part address v = record v {
  start = address;
  allocation_offset = v.allocation_offset + (address - v.start);
}

-- `split_vma_at` on the area that the lookup gave.
unfoldable pub split_found : ℕ → Vmas → Option GuestVma → Vmas
split_found address vmas none = vmas
split_found address vmas (some v) =
    if address == v.start || address == v.end
    then vmas
    else OrdMap.insert address (right_part address v)
        (OrdMap.insert v.start (left_part address v) (OrdMap.remove v.start vmas))

unfoldable pub split_vma_at : ℕ → Vmas → Vmas
unfolding split_found vma_containing
split_vma_at address vmas = split_found address vmas (vma_containing vmas address)

-- `range(start..end)`, its keys.
unfoldable pub keys_between : ℕ → ℕ → Vmas → List ℕ
keys_between start end [] = []
keys_between start end ((k, v) ∷ m) =
    let rest = keys_between start end m in if leb start k && ltb k end then k ∷ rest else rest

unfoldable pub remove_keys : List ℕ → Vmas → Vmas
remove_keys [] vmas = vmas
remove_keys (k ∷ ks) vmas = remove_keys ks (OrdMap.remove k vmas)

-- `unmap_range`, the allocations apart.
unfoldable pub unmap_vmas : ℕ → ℕ → Vmas → Vmas
unfolding split_vma_at keys_between remove_keys
unmap_vmas start end vmas =
    let cut = split_vma_at end (split_vma_at start vmas) in
    remove_keys (keys_between start end cut) cut

-- `values_mut().next_back()`.
unfoldable pub last_value : Vmas → Option GuestVma
last_value [] = none
last_value ((k, v) ∷ m) = elim m [ [] ↦ some v | entry ∷ rest ↦ last_value m ]

-- The loop of `coalesce_adjacent`.
unfoldable pub coalesce_from : Vmas → Vmas → Vmas
unfolding last_value can_merge
coalesce_from merged [] = merged
coalesce_from merged ((k, v) ∷ m) = elim (last_value merged) [
  | none ↦ coalesce_from (OrdMap.insert v.start v merged) m
  | some previous ↦ elim (can_merge previous v) [
    | true ↦ coalesce_from (OrdMap.modify previous.start (λ x. record x { end = v.end }) merged) m
    | false ↦ coalesce_from (OrdMap.insert v.start v merged) m
  ]
]

unfoldable pub coalesce_adjacent : Vmas → Vmas
unfolding coalesce_from
coalesce_adjacent vmas = coalesce_from [] vmas

-- The loop of `find_free_range`.
unfoldable pub free_from : ℕ → ℕ → ℕ → Vmas → Outcome ℕ
unfolding checked_mapping_end align_up
free_from length space_end candidate [] =
    checked_mapping_end candidate length space_end >>= λ _. ok candidate
free_from length space_end candidate ((k, v) ∷ m) =
    checked_mapping_end candidate length space_end >>= λ end. elim (leb end v.start) [
      | true ↦ ok candidate
      | false ↦ elim (ltb candidate v.end) [
        | true ↦ align_up v.end >>= λ next. free_from length space_end next m
        | false ↦ free_from length space_end candidate m
      ]
    ]

unfoldable pub find_free_range : Vmas → ℕ → ℕ → ℕ → Outcome ℕ
unfolding align_up free_from
find_free_range vmas space_end hint length =
    align_up hint >>= λ candidate. free_from length space_end (max candidate min_guest_address) vmas

unfoldable pub heap_vma : Vmas → Option GuestVma
unfolding mcr.Memory.Vma.is_heap
heap_vma [] = none
heap_vma ((k, v) ∷ m) =
    let rest = heap_vma m in if mcr.Memory.Vma.is_heap v.kind then some v else rest

abbrev pub with_protection : GuestMemoryProtection → GuestVma → GuestVma
with_protection protection v = record v { protection = protection }

-- The last loop of `mprotect`: the protection of the areas under some keys.
unfoldable pub protect_keys : List ℕ → GuestMemoryProtection → Vmas → Vmas
protect_keys [] protection vmas = vmas
protect_keys (k ∷ ks) protection vmas =
    protect_keys ks protection (OrdMap.modify k (with_protection protection) vmas)
