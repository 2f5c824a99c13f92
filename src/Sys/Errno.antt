-- ===== src/Sys/Errno.antt =====
-- crates/mcr-sys/src/errno.rs: a `LinuxErrno` is its raw number; the constants that are used.
use mcr.Prelude.{ℕ, ◌&&◌, Option, none, some, leb, if◌then◌else◌}

abbrev pub max_errno : ℕ
max_errno = 4095

abbrev pub eperm : ℕ
eperm = 1

abbrev pub esrch : ℕ
esrch = 3

abbrev pub eintr : ℕ
eintr = 4

abbrev pub enoexec : ℕ
enoexec = 8

abbrev pub ebadf : ℕ
ebadf = 9

abbrev pub echild : ℕ
echild = 10

abbrev pub eagain : ℕ
eagain = 11

abbrev pub efault : ℕ
efault = 14

abbrev pub einval : ℕ
einval = 22

abbrev pub enosys : ℕ
enosys = 38

abbrev pub etimedout : ℕ
etimedout = 110

-- `LinuxErrno::new`.
unfoldable pub new_errno : ℕ → Option ℕ
new_errno raw = if leb 1 raw && leb raw max_errno then some raw else none

abbrev pub enoent : ℕ
enoent = 2

abbrev pub eio : ℕ
eio = 5

abbrev pub enomem : ℕ
enomem = 12

abbrev pub eacces : ℕ
eacces = 13

abbrev pub eexist : ℕ
eexist = 17

abbrev pub epipe : ℕ
epipe = 32
