-- ===== src/Memory/Vma.antt =====
-- Protections, kinds and areas of crates/mcr-memory/src/lib.rs.
use mcr.Prelude.{
  ℕ, ◌+◌, ◌-◌, ◌==◌, ◌≡◌, ◌↔◌, Bool, true, false, not, ◌&&◌, ◌||◌, ltb, leb, ℤ, pos, negsuc, arith,
  bit_and, if◌then◌else◌,
}
use mcr.Task.Fd.{int_eq, int_eq_iff}
use mcr.Sys.Args.{not32, has_any}
use mcr.Memory.Error.{
  invalid_protection, invalid_flags, invalid_offset, bad_file_descriptor, Outcome, ok, err,
}
use mcr.Memory.Ranges.{is_page_aligned}

abbrev pub linux_prot_read : ℕ
linux_prot_read = 1

abbrev pub linux_prot_write : ℕ
linux_prot_write = 2

abbrev pub linux_prot_exec : ℕ
linux_prot_exec = 4

abbrev pub linux_prot_valid_mask : ℕ
linux_prot_valid_mask = 7

abbrev pub linux_map_shared : ℕ
linux_map_shared = 0x01

abbrev pub linux_map_private : ℕ
linux_map_private = 0x02

abbrev pub linux_map_fixed : ℕ
linux_map_fixed = 0x10

abbrev pub linux_map_anonymous : ℕ
linux_map_anonymous = 0x20

abbrev pub linux_map_hugetlb : ℕ
linux_map_hugetlb = 0x40000

abbrev pub linux_map_sync : ℕ
linux_map_sync = 0x80000

abbrev pub linux_map_fixed_noreplace : ℕ
linux_map_fixed_noreplace = 0x100000

abbrev pub linux_map_type_mask : ℕ
linux_map_type_mask = 0x03

-- The `|` of the sixteen flags that the source lists, which are single bits.
abbrev pub linux_map_valid_mask : ℕ
linux_map_valid_mask = 0x1ff973

pub record GuestMemoryProtection : Type 0 where
  pub read : Bool
  pub write : Bool
  pub execute : Bool

unfoldable pub from_linux : ℕ → Outcome GuestMemoryProtection
unfolding has_any not32
from_linux prot =
    if has_any prot (not32 linux_prot_valid_mask)
    then err invalid_protection
    else ok (record {
      read = has_any prot linux_prot_read;
      write = has_any prot linux_prot_write;
      execute = has_any prot linux_prot_exec;
    })

pub data GuestVmaKind : Type 0 where
  anonymous heap : GuestVmaKind
  -- The descriptor, the offset, and whether the mapping is shared.
  file_backed : ℤ → ℤ → Bool → GuestVmaKind

pub record GuestVma : Type 0 where
  pub start : ℕ
  pub end : ℕ
  pub protection : GuestMemoryProtection
  pub kind : GuestVmaKind
  pub allocation_id : ℕ
  pub allocation_offset : ℕ

abbrev pub vma_len : GuestVma → ℕ
vma_len vma = vma.end - vma.start

abbrev pub vma_contains : GuestVma → ℕ → Bool
vma_contains vma address = leb vma.start address && ltb address vma.end

-- The derived equality of Booleans, protections and kinds.
unfoldable pub bool_eq : Bool → Bool → Bool
bool_eq true b = b
bool_eq false b = not b

unfoldable pub protection_eq : GuestMemoryProtection → GuestMemoryProtection → Bool
unfolding bool_eq
protection_eq p q = bool_eq p.read q.read && bool_eq p.write q.write && bool_eq p.execute q.execute

unfoldable pub kind_eq : GuestVmaKind → GuestVmaKind → Bool
unfolding bool_eq
kind_eq anonymous anonymous = true
kind_eq heap heap = true
kind_eq (file_backed a b c) (file_backed x y z) = int_eq a x && int_eq b y && bool_eq c z
kind_eq _ _ = false

bool_eq_iff : (a b : Bool) → (bool_eq a b ≡ true) ↔ (a ≡ b)
unfolding bool_eq
bool_eq_iff a b = ground arith

pub protection_eq_iff : (p q : GuestMemoryProtection) → (protection_eq p q ≡ true) ↔ (p ≡ q)
unfolding protection_eq
protection_eq_iff p q = ground arith

pub kind_eq-eq : (a b : GuestVmaKind) → kind_eq a b ≡ true → a ≡ b
unfolding kind_eq
kind_eq-eq (file_backed a b c) (file_backed x y z) h =
    ground (arith, int_eq_iff a x, int_eq_iff b y)
kind_eq-eq a b h = ground arith

unfoldable pub is_heap : GuestVmaKind → Bool
is_heap heap = true
is_heap _ = false

-- `can_merge` of ranges.rs.
unfoldable pub can_merge : GuestVma → GuestVma → Bool
unfolding protection_eq kind_eq
can_merge left right =
    left.end == right.start
    && protection_eq left.protection right.protection
    && kind_eq left.kind right.kind
    && left.allocation_id == right.allocation_id
    && left.allocation_offset + vma_len left == right.allocation_offset

pub record MmapSyscallArgs : Type 0 where
  pub addr : ℕ
  pub length : ℕ
  pub prot : ℕ
  pub flags : ℕ
  pub fd : ℤ
  pub offset : ℤ

unfoldable pub is_fixed : MmapSyscallArgs → Bool
unfolding has_any
is_fixed args = has_any args.flags linux_map_fixed

unfoldable pub is_fixed_noreplace : MmapSyscallArgs → Bool
unfolding has_any
is_fixed_noreplace args = has_any args.flags linux_map_fixed_noreplace

unfoldable pub is_anonymous : MmapSyscallArgs → Bool
unfolding has_any
is_anonymous args = has_any args.flags linux_map_anonymous

is_negative : ℤ → Bool
is_negative (pos n) = false
is_negative (negsuc n) = true

-- `args.offset < 0 || !is_page_aligned(args.offset as u64)`.
bad_offset : ℤ → Bool
bad_offset (pos n) = not (is_page_aligned n)
bad_offset (negsuc n) = true

unfoldable pub mmap_kind : MmapSyscallArgs → Outcome GuestVmaKind
unfolding has_any not32 is_anonymous is_negative bad_offset int_eq
mmap_kind args =
    let map_type = bit_and args.flags linux_map_type_mask in
    if has_any args.flags (not32 linux_map_valid_mask)
      || has_any args.flags (linux_map_hugetlb + linux_map_sync)
    then err invalid_flags
    else if not (map_type == linux_map_private) && not (map_type == linux_map_shared)
    then err invalid_flags
    else if is_anonymous args
    then if int_eq args.offset (pos 0) then ok anonymous else err invalid_offset
    else if is_negative args.fd
    then err bad_file_descriptor
    else if bad_offset args.offset
    then err invalid_offset
    else ok (file_backed args.fd args.offset (has_any args.flags linux_map_shared))
