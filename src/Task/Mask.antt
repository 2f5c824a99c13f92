-- ===== src/Task/Mask.antt =====
-- The signal masks of crates/mcr-task/src/kernel/signal.rs, as 64-bit words.
use mcr.Prelude.{
  ℕ, ◌-◌, ◌^◌, Bool, not, ◌&&◌, Option, none, some, List, bit_and, bit_or, ltb, leb, ◌==◌,
  if◌then◌else◌, find_by,
}
use mcr.Prelude.OrdSet
use mcr.Sys.Args.{not64, linux_sig_block, linux_sig_unblock, linux_sig_setmask}
use mcr.Task.Error.{Result, ok, err, invalid_signal, invalid_signal_mask_how}
use mcr.Task.State.{GuestTask}

abbrev pub linux_sigkill : ℕ
linux_sigkill = 9

abbrev pub linux_sigstop : ℕ
linux_sigstop = 19

abbrev pub linux_signal_count : ℕ
linux_signal_count = 64

unfoldable pub validate_signal : ℕ → Result (Unit {0})
validate_signal signal =
    if ltb 0 signal
      && leb signal linux_signal_count
      && not (signal == linux_sigkill)
      && not (signal == linux_sigstop)
    then ok tt
    else err (invalid_signal signal)

unfoldable pub validate_signal_or_probe : ℕ → Result (Unit {0})
validate_signal_or_probe signal =
    if leb signal linux_signal_count then ok tt else err (invalid_signal signal)

unfoldable pub signal_matches_mask : ℕ → ℕ → Bool
signal_matches_mask mask signal =
    ltb 0 signal && leb signal linux_signal_count && not (bit_and mask (2 ^ (signal - 1)) == 0)

-- The lowest pending signal that the mask admits, taken out of the set.
unfoldable pub take_pending_signal : List ℕ → ℕ → Option ℕ × List ℕ
unfolding find_by signal_matches_mask
take_pending_signal pending mask = elim (find_by (signal_matches_mask mask) pending) [
  | none ↦ (none, pending)
  | some signal ↦ (some signal, OrdSet.remove signal pending)
]

abbrev pub unblockable_signal_mask : ℕ
unblockable_signal_mask = bit_or (2 ^ (linux_sigkill - 1)) (2 ^ (linux_sigstop - 1))

unfoldable pub sanitize_signal_mask : ℕ → ℕ
unfolding not64
sanitize_signal_mask mask = bit_and mask (not64 unblockable_signal_mask)

unfoldable pub masked : ℕ → ℕ → ℕ → Result ℕ
unfolding sanitize_signal_mask
masked how mask old =
    if how == linux_sig_block
    then ok (sanitize_signal_mask (bit_or old (sanitize_signal_mask mask)))
    else if how == linux_sig_unblock
    then ok (bit_and old (not64 (sanitize_signal_mask mask)))
    else if how == linux_sig_setmask
    then ok (sanitize_signal_mask mask)
    else err (invalid_signal_mask_how how)

-- `apply_task_signal_mask`: an unknown `how` leaves the task as it is.
unfoldable pub apply_task_signal_mask : GuestTask → ℕ → ℕ → Result GuestTask
unfolding masked
apply_task_signal_mask t how mask = elim (masked how mask t.signal_mask) [
  | err e ↦ err e
  | ok new ↦ ok (record t { signal_mask = new })
]
