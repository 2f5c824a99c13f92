-- ===== src/Task/Moves.antt =====
-- The kernel's calls as sequences of small moves, each with what it may change.
use mcr.Prelude.{ℕ, ◌+◌, true, ◌≡◌, refl, some, List, [], ◌∷◌, bit_and, ℤ}
use mcr.Prelude.OrdSet
use mcr.Task.Process.{GuestProcess, running}
use mcr.Task.Process
use mcr.Task.State.{GuestKernel, GuestTask, TaskState}
use mcr.Task.Kernel.{process, task, edit_process, edit_task, insert_task, set_state, set_states}
use mcr.Task.Mask.{unblockable_signal_mask}
use mcr.Task.Clone.{install_child}
use mcr.Task.Wait.{reap_exited}

-- SIGKILL and SIGSTOP are not in the mask.
abbrev pub MaskOk : ℕ → Type 0
MaskOk mask = bit_and mask unblockable_signal_mask ≡ 0

-- What a change of a task through `task_mut` leaves alone.
pub record KeptTask (t t' : GuestTask) : Type 0 where
  pub tid : t'.tid ≡ t.tid
  pub pid : t'.pid ≡ t.pid
  pub state : t'.state ≡ t.state
  pub mask : MaskOk t.signal_mask → MaskOk t'.signal_mask

-- What a change of a process through `process_mut` leaves alone.
pub record KeptProcess (p p' : GuestProcess) : Type 0 where
  pub pid : p'.pid ≡ p.pid
  pub parent : p'.parent ≡ p.parent
  pub children : p'.children ≡ p.children

pub data Move (k k' : GuestKernel) : Type 0 where
  changes_state : (tid : ℕ) (s : TaskState) → k' ≡ set_state k tid s → Move k k'
  edits_task :
      (tid : ℕ) (f : GuestTask → GuestTask)
      → ((t : GuestTask) → task k tid ≡ some t → KeptTask t (f t))
      → k' ≡ edit_task tid f k
      → Move k k'
  edits_process :
      (pid : ℕ) (f : GuestProcess → GuestProcess)
      → ((p : GuestProcess) → KeptProcess p (f p))
      → k' ≡ edit_process pid f k
      → Move k k'
  uses_pid : k' ≡ record k { next_pid = k.next_pid + 1 } → Move k k'
  forks :
      (tid : ℕ) (t : GuestTask) (p : GuestProcess)
      → task k tid ≡ some t
      → process k t.pid ≡ some p
      → k'
        ≡ install_child t p k.next_pid k.next_tid
            (record k { next_pid = k.next_pid + 1; next_tid = k.next_tid + 1 })
      → Move k k'
  spawns :
      (tid : ℕ) (t new : GuestTask) (p : GuestProcess)
      → task k tid ≡ some t
      → process k t.pid ≡ some p
      → new.tid ≡ k.next_tid
      → new.pid ≡ t.pid
      → new.signal_mask ≡ t.signal_mask
      → k' ≡ insert_task (record k { next_tid = k.next_tid + 1 }) new
      → Move k k'
  reaps :
      (parent_pid child_pid : ℕ) (p c : GuestProcess) (status : ℤ)
      → process k parent_pid ≡ some p
      → OrdSet.contains child_pid p.children ≡ true
      → process k child_pid ≡ some c
      → c.exit_state ≡ Process.exited status
      → k' ≡ (reap_exited parent_pid child_pid status k).1
      → Move k k'

pub data Moves (k : GuestKernel) : GuestKernel → Type 0 where
  done : Moves k k
  next : {m k' : GuestKernel} → Moves k m → Move m k' → Moves k k'

pub Moves-trans : {k m n : GuestKernel} → Moves k m → Moves m n → Moves k n
Moves-trans a done = a
Moves-trans a (next b mv) = next (Moves-trans a b) mv

-- A property that every move keeps is kept by all moves.
pub Moves-keep {ℓ} :
    (P : GuestKernel → Type ℓ)
    → ((k k' : GuestKernel) → Move k k' → P k → P k')
    → {k k' : GuestKernel} → Moves k k'
    → P k
    → P k'
Moves-keep P keep done h = h
Moves-keep P keep (next {m} {k'} ms mv) h = keep m k' mv (Moves-keep P keep ms h)

module _ {k m : GuestKernel} (ms : Moves k m) where
  pub Moves-set_state : (tid : ℕ) (s : TaskState) → Moves k (set_state m tid s)
  Moves-set_state tid s = next ms (changes_state tid s refl)

  pub Moves-edit_task :
      (tid : ℕ) (f : GuestTask → GuestTask)
      → ((t : GuestTask) → task m tid ≡ some t → KeptTask t (f t))
      → Moves k (edit_task tid f m)
  Moves-edit_task tid f kept = next ms (edits_task tid f kept refl)

  pub Moves-edit_process :
      (pid : ℕ) (f : GuestProcess → GuestProcess)
      → ((p : GuestProcess) → KeptProcess p (f p))
      → Moves k (edit_process pid f m)
  Moves-edit_process pid f kept = next ms (edits_process pid f kept refl)

pub Moves-set_states :
    {k : GuestKernel} (tids : List ℕ) (s : TaskState) {m : GuestKernel}
    → Moves k m
    → Moves k (set_states m tids s)
unfolding set_states
Moves-set_states [] s ms = ms
Moves-set_states (tid ∷ tids) s ms = Moves-set_states tids s (Moves-set_state ms tid s)
