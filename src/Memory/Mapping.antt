-- ===== src/Memory/Mapping.antt =====
-- The insertion of areas in crates/mcr-memory/src/lib.rs: `insert_mapping` and `insert_loaded_mapping`.
use mcr.Prelude.{ℕ, ◌+◌, ◌-◌, ◌==◌, List, [], ◌∷◌, if◌then◌else◌}
use mcr.Prelude.OrdMap
use mcr.Prelude.OrdMap.{Map, nat_key}
use mcr.Memory.Error.{invalid_length, address_in_use}
use mcr.Memory.Ranges.{checked_mapping_end}
use mcr.Memory.Vma.{GuestVmaKind, GuestMemoryProtection, anonymous}
use mcr.Memory.Map.{overlaps}
use mcr.Memory.State.{
  Host, to_host, Action, return, fail, lift, gets, expect, edit, ◌>>=◌, ◌>>◌, protect_range,
}
use mcr.Memory.Allocate.{ensure_allocation_unique, write_allocation}
use mcr.Memory.Reserve.{ensure_host_allocation, zero_allocation_range}

-- The length of a slice, and its bytes.
unfoldable pub byte_count : List ℕ → ℕ
byte_count [] = 0
byte_count (b ∷ bytes) = 1 + byte_count bytes

unfoldable pub byte_of : List ℕ → ℕ → ℕ
byte_of [] i = 0
byte_of (b ∷ bytes) i = if i == 0 then b else byte_of bytes (i - 1)

module _ (os : Host) where
  -- The protection of a range of an allocation, and then its area.
  unfoldable pub add_area : ℕ → ℕ → GuestMemoryProtection → GuestVmaKind → ℕ × ℕ → Action (Unit {0})
  unfolding protect_range to_host
  add_area start end protection kind (id, offset) = do
    found ← gets (λ g. OrdMap.get id g.allocations)
    allocation ← expect found
    protect_range os allocation.memory offset (end - start) (to_host protection)
    edit (λ g. record g {
      vmas =
          OrdMap.insert start
            (record {
              start = start;
              end = end;
              protection = protection;
              kind = kind;
              allocation_id = id;
              allocation_offset = offset;
            })
            g.vmas;
    })

  unfoldable pub insert_mapping : ℕ → ℕ → GuestMemoryProtection → GuestVmaKind → Action (Unit {0})
  unfolding checked_mapping_end overlaps ensure_host_allocation zero_allocation_range add_area
  insert_mapping start length protection kind = do
    space_end ← gets (λ g. g.address_space_end)
    end ← lift (checked_mapping_end start length space_end)
    used ← gets (λ g. overlaps g.vmas start end)
    if used then fail address_in_use else return tt
    place ← ensure_host_allocation os start length
    zero_allocation_range os place.0 place.1 length
    add_area start end protection kind place

  unfoldable pub insert_loaded_mapping : ℕ → ℕ → GuestMemoryProtection → List ℕ → Action (Unit {0})
  unfolding checked_mapping_end overlaps byte_count byte_of ensure_host_allocation
      ensure_allocation_unique write_allocation add_area
  insert_loaded_mapping start length protection bytes = do
    space_end ← gets (λ g. g.address_space_end)
    end ← lift (checked_mapping_end start length space_end)
    used ← gets (λ g. overlaps g.vmas start end)
    if used then fail address_in_use else return tt
    if byte_count bytes == length then return tt else fail invalid_length
    place ← ensure_host_allocation os start length
    ensure_allocation_unique os place.0
    write_allocation os place.0 place.1 length (byte_of bytes)
    add_area start end protection anonymous place
