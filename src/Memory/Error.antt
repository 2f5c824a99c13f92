-- ===== src/Memory/Error.antt =====
-- The errors of crates/mcr-memory/src/lib.rs, and the kinds of crates/mcr-win's host errors.
use mcr.Prelude.{ℕ, ◌≡◌, refl}
use mcr.Sys.Errno.{
  enoent, eintr, eio, ebadf, eagain, enomem, eacces, eexist, einval, epipe, enosys, etimedout,
}

pub data HostErrorKind : Type 0 where
  access_denied invalid_input out_of_memory unsupported interrupted timed_out : HostErrorKind
  would_block broken_pipe not_found already_exists poisoned unavailable other : HostErrorKind

unfoldable pub host_error_errno : HostErrorKind → ℕ
host_error_errno access_denied = eacces
host_error_errno invalid_input = einval
host_error_errno out_of_memory = enomem
host_error_errno unsupported = enosys
host_error_errno interrupted = eintr
host_error_errno timed_out = etimedout
host_error_errno would_block = eagain
host_error_errno broken_pipe = epipe
host_error_errno not_found = enoent
host_error_errno already_exists = eexist
host_error_errno poisoned = eio
host_error_errno unavailable = eio
host_error_errno other = eio

-- Of a host error, its kind.
pub data GuestMemoryError : Type 0 where
  invalid_address invalid_length invalid_protection invalid_flags invalid_offset : GuestMemoryError
  bad_file_descriptor address_in_use not_mapped no_memory denied : GuestMemoryError
  region_too_large : GuestMemoryError
  host : HostErrorKind → GuestMemoryError

unfoldable pub errno_of : GuestMemoryError → ℕ
unfolding host_error_errno
errno_of invalid_address = einval
errno_of invalid_length = einval
errno_of invalid_protection = einval
errno_of invalid_flags = einval
errno_of invalid_offset = einval
errno_of bad_file_descriptor = ebadf
errno_of address_in_use = eexist
errno_of not_mapped = enomem
errno_of no_memory = enomem
errno_of denied = eacces
errno_of region_too_large = enomem
errno_of (host kind) = host_error_errno kind

-- `Result<A, GuestMemoryError>`, or a panic of an `expect` or of a slice out of bounds.
pub data Outcome {ℓ} (A : Type ℓ) : Type ℓ where
  panicked : Outcome A
  err : GuestMemoryError → Outcome A
  ok : A → Outcome A

module _ {ℓ κ} {A : Type ℓ} {B : Type κ} where
  -- The operator `?` and what follows it.
  infixl 5 ◌>>=◌
  abbrev pub ◌>>=◌ : Outcome A → (A → Outcome B) → Outcome B
  panicked >>= next = panicked
  err e >>= next = err e
  ok a >>= next = next a

  -- A bind that gives a value comes from a value.
  pub >>=-eq-ok :
      (m : Outcome A) (next : A → Outcome B) {b : B}
      → (m >>= next) ≡ ok b
      → (a : A) × (m ≡ ok a) × (next a ≡ ok b)
  >>=-eq-ok panicked next h = cc
  >>=-eq-ok (err e) next h = cc
  >>=-eq-ok (ok a) next h = (a, refl, h)
