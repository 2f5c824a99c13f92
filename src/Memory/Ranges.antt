-- ===== src/Memory/Ranges.antt =====
-- crates/mcr-memory/src/ranges.rs: checked ranges and page arithmetic on 64-bit addresses. A `usize`
-- of the host has 64 bits, so the conversions between `u64` and `usize` keep the number.
use mcr.Prelude.{ℕ, ◌+◌, ◌-◌, ◌%◌, ◌^◌, ◌==◌, Bool, false, not, ◌&&◌, ◌||◌, ltb, leb, if◌then◌else◌}
use mcr.Memory.Error.{
  GuestMemoryError, invalid_address, invalid_length, no_memory, Outcome, ok, err, ◌>>=◌,
}

abbrev pub guest_page_size : ℕ
guest_page_size = 4096

abbrev pub min_guest_address : ℕ
min_guest_address = guest_page_size

-- `checked_add`, with an error where it overflows.
abbrev pub checked_add : ℕ → ℕ → GuestMemoryError → Outcome ℕ
checked_add a b e = if ltb (a + b) (2 ^ 64) then ok (a + b) else err e

abbrev pub is_page_aligned : ℕ → Bool
is_page_aligned value = value % guest_page_size == 0

-- `value & !(2 ^ k - 1)`: the number without its part below the alignment 2 ^ k.
abbrev pub align_down_to : ℕ → ℕ → ℕ
align_down_to value alignment = value - value % alignment

unfoldable pub align_up_to : ℕ → ℕ → Outcome ℕ
align_up_to value alignment = do
  sum ← checked_add value (alignment - 1) invalid_length
  ok (align_down_to sum alignment)

unfoldable pub align_up : ℕ → Outcome ℕ
unfolding align_up_to
align_up value = align_up_to value guest_page_size

-- The filter `end >= start` holds of every sum that does not overflow.
unfoldable pub checked_raw_range : ℕ → ℕ → Outcome ℕ
checked_raw_range start length = checked_add start length invalid_length

unfoldable pub page_round_length : ℕ → Outcome ℕ
unfolding align_up
page_round_length length = if length == 0 then err invalid_length else align_up length

unfoldable pub checked_page_range : ℕ → ℕ → Outcome ℕ
unfolding page_round_length checked_raw_range
checked_page_range start length =
    if not (is_page_aligned start) || length == 0
    then err invalid_address
    else (page_round_length length >>= checked_raw_range start)

unfoldable pub raw_ranges_overlap : ℕ → ℕ → ℕ → Outcome Bool
unfolding checked_raw_range
raw_ranges_overlap lhs rhs len = if len == 0 then ok false else (do
  lhs_end ← checked_raw_range lhs len
  rhs_end ← checked_raw_range rhs len
  ok (ltb lhs rhs_end && ltb rhs lhs_end))

unfoldable pub checked_mapping_end : ℕ → ℕ → ℕ → Outcome ℕ
unfolding checked_raw_range
checked_mapping_end start length space_end =
    if ltb start min_guest_address || not (is_page_aligned start)
    then err invalid_address
    else (checked_raw_range start length >>= λ end.
        if ltb space_end end then err no_memory else ok end)

unfoldable pub is_supported_madvise : ℕ → Bool
is_supported_madvise advice =
    leb advice 4 || (leb 8 advice && leb advice 25) || advice == 100 || advice == 101
