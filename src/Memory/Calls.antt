-- ===== src/Memory/Calls.antt =====
-- mmap, munmap, mprotect and madvise of crates/mcr-memory/src/lib.rs and syscalls.rs.
use mcr.Prelude.{
  ℕ, ◌+◌, ◌==◌, Bool, true, false, not, ◌&&◌, ◌||◌, ltb, leb, max, zero, suc, if◌then◌else◌,
}
use mcr.Prelude.OrdMap
use mcr.Prelude.OrdMap.{nat_key}
use mcr.Memory.Error.{
  GuestMemoryError, invalid_address, invalid_flags, address_in_use, not_mapped, no_memory, host,
  Outcome, ok, err, panicked,
}
use mcr.Memory.Ranges.{
  is_page_aligned, min_guest_address, checked_add, align_up, checked_raw_range, page_round_length,
  checked_page_range, checked_mapping_end, is_supported_madvise,
}
use mcr.Memory.Vma.{
  GuestVmaKind, GuestMemoryProtection, vma_len, from_linux, MmapSyscallArgs, is_fixed,
  is_fixed_noreplace, mmap_kind,
}
use mcr.Memory.Map.{
  Vmas, overlaps, is_range_mapped, split_vma_at, keys_between, unmap_vmas, coalesce_adjacent,
  find_free_range, protect_keys,
}
use mcr.Memory.State.{
  Host, to_host, is_fixed_guest, GuestMemory, Action, return, fail, lift, gets, expect, edit, ◌>>=◌,
  ◌>>◌, for_each, protect_range,
}
use mcr.Memory.Allocate.{drop_unreferenced_allocations, ensure_guest_page_range_unique}
use mcr.Memory.Mapping.{insert_mapping}

unfoldable pub unmap_range : ℕ → ℕ → GuestMemory → GuestMemory
unfolding unmap_vmas drop_unreferenced_allocations
unmap_range start end g =
    drop_unreferenced_allocations (record g { vmas = unmap_vmas start end g.vmas })

unfoldable pub munmap : ℕ → ℕ → Action (Unit {0})
unfolding checked_page_range unmap_range
munmap addr length = do end ← lift (checked_page_range addr length); edit (unmap_range addr end)

unfoldable pub set_mmap_base : ℕ → Action (Unit {0})
set_mmap_base mmap_base g =
    if ltb mmap_base min_guest_address
      || leb g.address_space_end mmap_base
      || not (is_page_aligned mmap_base)
    then (err invalid_address, g)
    else (ok tt, record g { mmap_base = mmap_base })

unfoldable pub madvise : ℕ → ℕ → ℕ → Outcome ℕ
unfolding is_supported_madvise checked_raw_range
madvise addr length advice =
    if not (is_page_aligned addr)
    then err invalid_address
    else if not (is_supported_madvise advice)
    then err invalid_flags
    else if length == 0
    then ok 0
    else elim (checked_raw_range addr length) [
      | ok end ↦ ok 0
      | err e ↦ err e
      | panicked ↦ panicked
    ]

-- The start of a mapping, on the areas and the two bounds of the memory.
unfoldable pub mmap_start : Vmas → ℕ → ℕ → MmapSyscallArgs → ℕ → Outcome ℕ
unfolding is_fixed is_fixed_noreplace checked_mapping_end overlaps align_up find_free_range
mmap_start vmas mmap_base space_end args length =
    if is_fixed args || is_fixed_noreplace args
    then if ltb args.addr min_guest_address || not (is_page_aligned args.addr)
      then err invalid_address
      else elim (checked_mapping_end args.addr length space_end) [
        | err e ↦ err e
        | panicked ↦ panicked
        | ok end ↦
            if overlaps vmas args.addr (args.addr + length) && is_fixed_noreplace args
            then err address_in_use
            else ok args.addr
      ]
    else if args.addr == 0
    then find_free_range vmas space_end mmap_base length
    else elim (align_up (max args.addr min_guest_address)) [
      | err e ↦ err e
      | panicked ↦ panicked
      | ok hint ↦ find_free_range vmas space_end hint length
    ]

unfoldable pub next_retry_mmap_start : Vmas → ℕ → ℕ → ℕ → Outcome ℕ
unfolding align_up find_free_range
next_retry_mmap_start vmas space_end previous_start length =
    elim (checked_add previous_start length no_memory) [
      | err e ↦ err e
      | panicked ↦ panicked
      | ok next ↦ elim (align_up next) [
        | err e ↦ err e
        | panicked ↦ panicked
        | ok next_hint ↦
            if leb space_end next_hint
            then err no_memory
            else find_free_range vmas space_end next_hint length
      ]
    ]

unfoldable pub is_host_error : GuestMemoryError → Bool
is_host_error (host kind) = true
is_host_error _ = false

-- `should_retry_mmap_host_conflict`, its count of attempts apart.
unfoldable pub may_retry : GuestMemory → MmapSyscallArgs → GuestMemoryError → Bool
unfolding is_fixed_guest is_fixed is_fixed_noreplace is_host_error
may_retry g args error =
    is_fixed_guest g.host_address_mode
    && not (is_fixed args)
    && not (is_fixed_noreplace args)
    && is_host_error error

abbrev pub mmap_host_conflict_retries : ℕ
mmap_host_conflict_retries = 64

-- The end of a pass of the loop of `mmap`: the start, the error, or another pass from a new start.
unfoldable pub after_attempt :
    (ℕ → Action ℕ)
    → MmapSyscallArgs
    → ℕ
    → ℕ
    → Outcome (Unit {0}) × GuestMemory
    → Outcome ℕ × GuestMemory
unfolding may_retry next_retry_mmap_start
after_attempt again args length start (ok _, g) = (ok start, g)
after_attempt again args length start (panicked, g) = (panicked, g)
after_attempt again args length start (err e, g) = elim (may_retry g args e) [
  | false ↦ (err e, g)
  | true ↦ (lift (next_retry_mmap_start g.vmas g.address_space_end start length) >>= again) g
]

module _ (os : Host) where
  -- One pass of the loop of `mmap`.
  unfoldable pub mmap_attempt :
      MmapSyscallArgs → ℕ → GuestMemoryProtection → GuestVmaKind → ℕ → Action (Unit {0})
  unfolding is_fixed unmap_range insert_mapping
  mmap_attempt args length protection kind start = do
    if is_fixed args then edit (unmap_range start (start + length)) else return tt
    insert_mapping os start length protection kind

  -- The loop of `mmap`, by the number of retries that are left: 64 less the attempts.
  unfoldable pub mmap_loop :
      ℕ → MmapSyscallArgs → ℕ → GuestMemoryProtection → GuestVmaKind → ℕ → Action ℕ
  unfolding mmap_attempt after_attempt
  mmap_loop zero args length protection kind start g =
      (mmap_attempt args length protection kind start >> return start) g
  mmap_loop (suc retries) args length protection kind start g =
      after_attempt (mmap_loop retries args length protection kind) args length start
        (mmap_attempt args length protection kind start g)

  unfoldable pub mmap : MmapSyscallArgs → Action ℕ
  unfolding from_linux page_round_length mmap_kind mmap_start mmap_loop
  mmap args = do
    protection ← lift (from_linux args.prot)
    length ← lift (page_round_length args.length)
    kind ← lift (mmap_kind args)
    first ← gets (λ g. mmap_start g.vmas g.mmap_base g.address_space_end args length)
    start ← lift first
    mmap_loop mmap_host_conflict_retries args length protection kind start

  -- The host protection of the area under a key.
  unfoldable pub protect_area : GuestMemoryProtection → ℕ → Action (Unit {0})
  unfolding protect_range to_host
  protect_area protection key = do
    found ← gets (λ g. OrdMap.get key g.vmas)
    vma ← expect found
    found ← gets (λ g. OrdMap.get vma.allocation_id g.allocations)
    allocation ← expect found
    protect_range os allocation.memory vma.allocation_offset (vma_len vma) (to_host protection)

  -- `mprotect` of a range that is mapped, after the cuts at its ends.
  unfoldable pub protect_cut : ℕ → ℕ → GuestMemoryProtection → Action (Unit {0})
  unfolding ensure_guest_page_range_unique keys_between for_each protect_area protect_keys
      coalesce_adjacent
  protect_cut start end protection = do
    ensure_guest_page_range_unique os start end
    keys ← gets (λ g. keys_between start end g.vmas)
    for_each keys (protect_area protection)
    edit (λ g. record g { vmas = coalesce_adjacent (protect_keys keys protection g.vmas) })

  -- `mprotect` of a range that is mapped.
  unfoldable pub protect_mapped : ℕ → ℕ → GuestMemoryProtection → Action (Unit {0})
  unfolding split_vma_at protect_cut
  protect_mapped start end protection = do
    edit (λ g. record g { vmas = split_vma_at end (split_vma_at start g.vmas) })
    protect_cut start end protection

  unfoldable pub mprotect : ℕ → ℕ → ℕ → Action (Unit {0})
  unfolding from_linux checked_page_range is_range_mapped protect_mapped
  mprotect addr length prot = do
    protection ← lift (from_linux prot)
    (if length == 0 then return tt else (do
      end ← lift (checked_page_range addr length)
      mapped ← gets (λ g. is_range_mapped g.vmas addr end)
      if mapped then protect_mapped addr end protection else fail not_mapped))
