-- ===== src/Sys/Return.antt =====
-- crates/mcr-sys/src/return_value.rs, and the outcome of a syscall from dispatcher.rs.
pub mod RoundTrip
use mcr.Prelude.{
  ℕ, suc, ◌-◌, ◌%◌, ◌^◌, Bool, true, false, ◌&&◌, ℤ, pos, negsuc, Option, none, some, ltb, leb,
  if◌then◌else◌,
}
use mcr.Sys.Errno.{new_errno, max_errno, enosys}

pub data SyscallReturn : Type 0 where
  success : ℕ → SyscallReturn
  errno : ℕ → SyscallReturn

-- `raw as i64` and `value as u64`.
unfoldable pub as_i64 : ℕ → ℤ
as_i64 raw = if ltb raw (2 ^ 63) then pos raw else negsuc (2 ^ 64 - 1 - raw)

unfoldable pub as_u64 : ℤ → ℕ
as_u64 (pos n) = n % 2 ^ 64
as_u64 (negsuc n) = 2 ^ 64 - 1 - n % 2 ^ 64

-- `-(n as i64)` for an unsigned `n` that fits.
unfoldable pub neg_of : ℕ → ℤ
neg_of n = elim n [ ℕ.zero ↦ pos 0 | suc m ↦ negsuc m ]

unfoldable pub encode_i64 : SyscallReturn → ℤ
unfolding as_i64 neg_of
encode_i64 (success value) = as_i64 value
encode_i64 (errno raw) = neg_of raw

unfoldable pub encode_u64 : SyscallReturn → ℕ
unfolding encode_i64 as_u64
encode_u64 r = as_u64 (encode_i64 r)

-- The branch of `decode_rax` for a value in the error range, with `raw` for a failed conversion.
decode_errno : ℕ → Option ℕ → SyscallReturn
decode_errno raw none = success raw
decode_errno raw (some e) = errno e

-- The magnitude of a negative number from -limit up.
small_negative : ℕ → ℤ → Option ℕ
small_negative limit (pos n) = none
small_negative limit (negsuc n) = if leb (suc n) limit then some (suc n) else none

unfoldable pub decode_rax : ℕ → SyscallReturn
unfolding as_i64 small_negative decode_errno new_errno
decode_rax raw = elim (small_negative max_errno (as_i64 raw)) [
  | none ↦ success raw
  | some magnitude ↦ decode_errno raw (new_errno (magnitude % 2 ^ 16))
]

-- The trace fields and the host error of an outcome are left out: they only feed the tracer.
pub record SyscallOutcome : Type 0 where
  pub result : SyscallReturn
  pub unsupported : Bool

abbrev pub ok_with : ℕ → SyscallOutcome
ok_with value = record { result = success value; unsupported = false }

abbrev pub fail_with : ℕ → SyscallOutcome
fail_with raw = record { result = errno raw; unsupported = false }

abbrev pub not_supported : SyscallOutcome
not_supported = record { result = errno enosys; unsupported = true }
