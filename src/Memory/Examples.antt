-- ===== src/Memory/Examples.antt =====
-- The theorems of the memory on a small one: two areas with a hole between them.
use mcr.Prelude.{
  ℕ, ◌+◌, ◌^◌, ◌≤◌, ◌<◌, ◌≡◌, refl, ◌==◌, true, false, ltb, none, some, [], ◌∷◌, inl, inr, arith,
  pos, negsuc, if◌then◌else◌,
}
use mcr.Prelude.OrdMap
use mcr.Sys.Errno.{enomem}
use mcr.Memory.Error.{errno_of, not_mapped, invalid_length, ok, err}
use mcr.Memory.Ranges.{
  align_up, align_up_to, checked_raw_range, page_round_length, checked_page_range,
  checked_mapping_end,
}
use mcr.Memory.Vma.{GuestVma, GuestMemoryProtection, anonymous, MmapSyscallArgs, from_linux}
use mcr.Memory.Map.{
  Vmas, vma_containing, is_range_mapped, split_vma_at, unmap_vmas, coalesce_adjacent, overlaps,
  find_free_range, free_from, keys_between, protect_keys,
}
use mcr.Memory.Map.Order.{Ordered, area_at, vma_containing-eq-area_at}
use mcr.Memory.Map.Cut.{cell_at, IsCut, split_vma_at-IsCut}
use mcr.Memory.Map.Unmap.{IsUnmapped, unmap_vmas-IsUnmapped}
use mcr.Memory.Map.Join.{coalesce_adjacent-keeps}
use mcr.Memory.Map.Search.{IsFree, find_free_range-IsFree, find_free_range-first}
use mcr.Memory.Map.Range.{IsMapped, is_range_mapped_iff}
use mcr.Memory.Map.Protect.{IsProtected, protect_keys-IsProtected}
use mcr.Memory.State.{Host, GuestMemory, HostMemory, flexible, read_write}
use mcr.Memory.Allocate.{ensure_guest_page_range_unique}
use mcr.Memory.Mapping.{insert_mapping}
use mcr.Memory.Calls.{mmap, mprotect}
use mcr.Memory.Read.{read_access, copy_guest, copy_from, chunk_of, slice, permits}
use mcr.Memory.Read.Each.{read_each}
use mcr.Memory.Read.Whole.{copy_guest-read_each}
use mcr.Memory.Intrinsics.{position, intrinsic_memchr}
use mcr.Memory.Intrinsics.Search.{IsFirst, intrinsic_memchr-IsFirst}
use mcr.Memory.Brk.{set_brk}
use mcr.Memory.Quiet.Brk.{BrkRun, set_brk-BrkRun}
use mcr.Memory.Bytes.{Sound}
use mcr.Memory.Bytes.Detach.{Unseen, ensure_guest_page_range_unique-Unseen}
use mcr.Memory.Refines.{IsPageRange, checked_page_range-IsPageRange}
use mcr.Memory.Refines.Insert.{InsertRun, insert_mapping-InsertRun}
use mcr.Memory.Refines.Mprotect.{mprotect-hole}
use mcr.Memory.Refines.Mmap.Whole.{MmapRun, mmap-MmapRun}

abbrev readable_writable : GuestMemoryProtection
readable_writable = record { read = true; write = true; execute = false }

abbrev only_readable : GuestMemoryProtection
only_readable = record { read = true; write = false; execute = false }

abbrev low_area : GuestVma
low_area = record {
  start = 0x1000;
  end = 0x3000;
  protection = readable_writable;
  kind = anonymous;
  allocation_id = 1;
  allocation_offset = 0;
}

abbrev high_area : GuestVma
high_area = record low_area { start = 0x5000; end = 0x6000; allocation_id = 2 }

abbrev areas : Vmas
areas = (0x1000, low_area) ∷ (0x5000, high_area) ∷ []

abbrev buffer : ℕ → ℕ → HostMemory
buffer handle len = record {
  buffer_id = handle;
  len = len;
  byte = λ i. if i == 0 then 7 else 9;
  shared = true;
}

abbrev guest : GuestMemory
guest = record {
  vmas = areas;
  allocations =
      (1, record { guest_start = 0x1000; memory = buffer 0 0x2000 })
      ∷ (2, record { guest_start = 0x5000; memory = buffer 1 0x1000 })
      ∷ [];
  next_allocation_id = 3;
  brk_base = 0x100000;
  current_brk = 0x100000;
  mmap_base = 0x2000;
  address_space_end = 0x200000;
  host_address_mode = flexible;
  executable_write_generation = 0;
  host_calls = 2;
  page_protection = λ _ _. read_write;
}

-- An operating system that grants everything.
abbrev granting : Host
granting = record {
  granularity = 0x10000;
  allocate_answer = λ _ _ _. none;
  protect_answer = λ _ _ _ _. none;
  flush_answer = λ _ _ _. none;
}

areas-Ordered : Ordered 0 areas
areas-Ordered = (omega arith, refl, omega arith, (omega arith, refl, omega arith, tt))

-- An anonymous private mapping of one page anywhere, and one at an address that is taken.
abbrev anywhere : MmapSyscallArgs
anywhere = record {
  addr = 0;
  length = 0x1000;
  prot = 3;
  flags = 0x22;
  fd = negsuc 0;
  offset = pos 0;
}

mmap-MmapRun_example : MmapRun anywhere guest (mmap granting anywhere guest)
mmap-MmapRun_example = mmap-MmapRun granting anywhere guest areas-Ordered

-- No address lies in an allocation from the third on.
guest-Sound : Sound guest
unfolding cell_at
guest-Sound = record { ordered = areas-Ordered; used = λ x c e. ground (arith, e) }

only_readable_pages : from_linux 1 ≡ ok only_readable
unfolding from_linux
only_readable_pages = refl

three_pages : checked_page_range 0x2000 0x2800 ≡ ok 0x5000
unfolding checked_page_range page_round_length checked_raw_range align_up align_up_to
three_pages = refl

hole : area_at areas 0x3000 ≡ none
unfolding area_at
hole = refl

mprotect-hole_example :
    (mprotect granting 0x2000 0x2800 1 guest ≡ (err not_mapped, guest))
    × (errno_of not_mapped ≡ enomem)
mprotect-hole_example =
    mprotect-hole granting 0x2000 0x2800 1 0x5000 0x3000 only_readable guest areas-Ordered
      only_readable_pages three_pages (omega arith) (omega arith) hole

copy_guest-read_each_example : copy_guest guest 0x2ffe 4 read_access ≡ (
    if ltb (0x2ffe + 4) (2 ^ 64) then read_each guest read_access 0x2ffe 4 else err invalid_length)
copy_guest-read_each_example = copy_guest-read_each guest read_access areas-Ordered 0x2ffe 4

-- The byte 7 stands at the start of the area, and 9 after it.
nine_found : intrinsic_memchr guest 0x1000 9 3 ≡ ok (some 0x1001)
unfolding intrinsic_memchr position copy_guest copy_from chunk_of slice permits vma_containing
    OrdMap.get
nine_found = refl

intrinsic_memchr-IsFirst_example : IsFirst guest 9 0x1000 (0x1000 + 3) (some 0x1001)
intrinsic_memchr-IsFirst_example =
    intrinsic_memchr-IsFirst guest 0x1000 9 3 (some 0x1001) areas-Ordered nine_found

insert_mapping-InsertRun_example :
    InsertRun 0x3000 0x1000 readable_writable anonymous guest
      (insert_mapping granting 0x3000 0x1000 readable_writable anonymous guest)
insert_mapping-InsertRun_example =
    insert_mapping-InsertRun granting 0x3000 0x1000 readable_writable anonymous guest areas-Ordered
      (omega arith)

ensure_guest_page_range_unique-Unseen_example :
    Unseen guest (ensure_guest_page_range_unique granting 0x1800 0x2800 guest).1
ensure_guest_page_range_unique-Unseen_example =
    ensure_guest_page_range_unique-Unseen granting 0x1800 0x2800 guest guest-Sound

vma_containing-eq-area_at_example : vma_containing areas 0x2fff ≡ area_at areas 0x2fff
vma_containing-eq-area_at_example = vma_containing-eq-area_at 0 areas 0x2fff areas-Ordered

split_vma_at-IsCut_example : IsCut 0x2000 areas (split_vma_at 0x2000 areas)
split_vma_at-IsCut_example = split_vma_at-IsCut areas 0x2000 areas-Ordered

unmap_vmas-IsUnmapped_example : IsUnmapped 0x2000 0x5800 areas (unmap_vmas 0x2000 0x5800 areas)
unmap_vmas-IsUnmapped_example = unmap_vmas-IsUnmapped 0x2000 0x5800 areas areas-Ordered

coalesce_adjacent-keeps_example :
    Ordered 0 (coalesce_adjacent areas)
    × ((x : ℕ) → cell_at (coalesce_adjacent areas) x ≡ cell_at areas x)
coalesce_adjacent-keeps_example = coalesce_adjacent-keeps areas areas-Ordered

protect_keys-IsProtected_example :
    IsProtected only_readable 0x1000 0x3000 areas
      (protect_keys (keys_between 0x1000 0x3000 areas) only_readable areas)
protect_keys-IsProtected_example =
    protect_keys-IsProtected only_readable 0x1000 0x3000 areas areas-Ordered
      (inl (omega arith), (inl (omega arith), tt)) (inr (omega arith), (inl (omega arith), tt))

is_range_mapped_iff_example :
    ((is_range_mapped areas 0x2000 0x5000 ≡ true)
      → (a : ℕ) → 0x2000 ≤ a
      → a < 0x5000
      → IsMapped areas a)
    × (((a : ℕ) → 0x2000 ≤ a → a < 0x5000 → IsMapped areas a)
        → is_range_mapped areas 0x2000 0x5000 ≡ true)
is_range_mapped_iff_example = is_range_mapped_iff areas 0x2000 0x5000 areas-Ordered (omega arith)

two_pages_free : find_free_range areas 0x200000 0x2000 0x2000 ≡ ok 0x3000
unfolding find_free_range free_from align_up align_up_to checked_mapping_end checked_raw_range
two_pages_free = refl

find_free_range-IsFree_example : IsFree areas 0x2000 0x200000 0x2000 0x3000
find_free_range-IsFree_example =
    find_free_range-IsFree areas 0x200000 0x2000 0x2000 0x3000 areas-Ordered two_pages_free

behind_all : overlaps areas 0x6000 0x8000 ≡ false
unfolding overlaps
behind_all = refl

find_free_range-first_example :
    (r : ℕ) × (find_free_range areas 0x200000 0x2000 0x2000 ≡ ok r) × (r ≤ 0x6000)
find_free_range-first_example =
    find_free_range-first areas 0x200000 0x2000 0x2000 0x6000 areas-Ordered (omega arith)
      (omega arith) (omega arith)
      (record { from = omega arith; aligned = refl; ends = omega arith; free = behind_all })

checked_page_range-IsPageRange_example : IsPageRange 0x2000 0x2800 0x5000
checked_page_range-IsPageRange_example =
    checked_page_range-IsPageRange 0x2000 0x2800 0x5000 three_pages

-- The break moves up by two pages and a little.
set_brk-BrkRun_example : BrkRun 0x102010 guest (set_brk granting 0x102010 guest)
set_brk-BrkRun_example = set_brk-BrkRun granting 0x102010 guest
