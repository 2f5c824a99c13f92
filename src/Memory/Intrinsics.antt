-- ===== src/Memory/Intrinsics.antt =====
-- crates/mcr-memory/src/intrinsics.rs: functions of the C library on the bytes of the guest.
pub mod Search
use mcr.Prelude.{
  ℕ, ◌+◌, ◌-◌, ◌^◌, ◌%◌, ◌==◌, Bool, true, false, leb, Option, none, some, List, [], ◌∷◌, zero, suc,
  ℤ, pos, negsuc, if◌then◌else◌,
}
use mathlib.Core.Option
use mcr.Memory.Error
use mcr.Memory.Error.{Outcome, ok, err, panicked}
use mcr.Memory.Ranges.{checked_raw_range, raw_ranges_overlap}
use mcr.Memory.State.{Host, GuestMemory, Action, return, lift, gets, ◌>>=◌, ◌>>◌}
use mcr.Memory.Read.{copy_guest, read_access}
use mcr.Memory.Write.{write_guest}

pub data GuestLibcIntrinsic : Type 0 where
  memcpy memmove memset memchr memcmp : GuestLibcIntrinsic
  strlen : ℕ → GuestLibcIntrinsic

-- The result of an intrinsic; an error of the memory is one of the call.
pub data LibcOutcome : Type 0 where
  value : ℕ → LibcOutcome
  unsupported_overlap unterminated_string : LibcOutcome

-- `iter().position(|byte| *byte == needle)`.
unfoldable pub position : ℕ → List ℕ → Option ℕ
position needle [] = none
position needle (b ∷ bytes) = if b == needle then some 0 else Option.map suc (position needle bytes)

-- The first difference of two buffers, as `i32::from(left) - i32::from(right)`.
unfoldable pub first_difference : List ℕ → List ℕ → ℤ
first_difference (a ∷ left) (b ∷ right) =
    if a == b
    then first_difference left right
    else if leb b a
    then pos (a - b)
    else negsuc (b - a - 1)
first_difference _ _ = pos 0

-- `vec![value; len]`.
unfoldable pub repeat : ℕ → ℕ → List ℕ
repeat byte zero = []
repeat byte (suc len) = byte ∷ repeat byte len

-- `(result as i64) as u64`.
unfoldable pub sign_extended : ℤ → ℕ
sign_extended (pos n) = n
sign_extended (negsuc n) = 2 ^ 64 - (n + 1)

-- The bytes of a range for reading.
abbrev pub bytes_of : ℕ → ℕ → Action (List ℕ)
bytes_of address len g = (copy_guest g address len read_access, g)

unfoldable pub intrinsic_memcmp : ℕ → ℕ → ℕ → Action ℤ
unfolding copy_guest first_difference
intrinsic_memcmp lhs rhs len = do
  lhs_bytes ← bytes_of lhs len
  rhs_bytes ← bytes_of rhs len
  return (first_difference lhs_bytes rhs_bytes)

unfoldable pub intrinsic_memchr : GuestMemory → ℕ → ℕ → ℕ → Outcome (Option ℕ)
unfolding copy_guest position
intrinsic_memchr g address needle len = elim (copy_guest g address len read_access) [
  | ok bytes ↦ ok (Option.map (λ i. address + i) (position needle bytes))
  | err e ↦ err e
  | panicked ↦ panicked
]

unfoldable pub intrinsic_strlen : GuestMemory → ℕ → ℕ → Outcome (Option ℕ)
unfolding copy_guest position
intrinsic_strlen g address max_len = elim (copy_guest g address max_len read_access) [
  | ok bytes ↦ ok (position 0 bytes)
  | err e ↦ err e
  | panicked ↦ panicked
]

module _ (os : Host) where
  unfoldable pub intrinsic_memset : ℕ → ℕ → ℕ → Action (Unit {0})
  unfolding checked_raw_range write_guest repeat
  intrinsic_memset address byte len = do
    end ← lift (checked_raw_range address len)
    write_guest os address (repeat byte len)

  unfoldable pub intrinsic_memmove : ℕ → ℕ → ℕ → Action (Unit {0})
  unfolding copy_guest write_guest
  intrinsic_memmove destination source len = do
    bytes ← bytes_of source len
    write_guest os destination bytes

  unfoldable pub dispatch_libc_intrinsic : GuestLibcIntrinsic → ℕ → ℕ → ℕ → Action LibcOutcome
  unfolding raw_ranges_overlap intrinsic_memmove intrinsic_memset intrinsic_memchr intrinsic_memcmp
      intrinsic_strlen sign_extended
  dispatch_libc_intrinsic memcpy rdi rsi rdx = do
    overlap ← lift (raw_ranges_overlap rdi rsi rdx)
    (if overlap
        then return unsupported_overlap
        else intrinsic_memmove rdi rsi rdx >> return (value rdi))
  dispatch_libc_intrinsic memmove rdi rsi rdx = intrinsic_memmove rdi rsi rdx >> return (value rdi)
  dispatch_libc_intrinsic memset rdi rsi rdx =
      intrinsic_memset rdi (rsi % 256) rdx >> return (value rdi)
  dispatch_libc_intrinsic memchr rdi rsi rdx = do
    result ← gets (λ g. intrinsic_memchr g rdi (rsi % 256) rdx)
    found ← lift result
    return (value (Option.get_or found 0))
  dispatch_libc_intrinsic memcmp rdi rsi rdx = do
    result ← intrinsic_memcmp rdi rsi rdx
    return (value (sign_extended result))
  dispatch_libc_intrinsic (strlen max_len) rdi rsi rdx = do
    result ← gets (λ g. intrinsic_strlen g rdi max_len)
    found ← lift result
    elim found [ some len ↦ return (value len) | none ↦ return unterminated_string ]
