-- ===== src/Task/Index/Sweep.antt =====
-- The loops of crates/mcr-task/src/kernel/signal.rs and kernel/clone.rs that give many tasks one
-- state: the end of a process, and the resumption of a vfork parent.
use mathlib.Core.Option
use mcr.Prelude.{
  ℕ, ◌≡◌, refl, ◌==◌, ◌||◌, Bool, true, false, none, some, List, [], ◌∷◌, if◌then◌else◌, ap, ◌∙◌,
}
use mcr.Prelude.OrdSet
use mcr.Task.State.{GuestKernel, GuestTask, TaskState}
use mcr.Task.Kernel.{task, set_state, set_states}
use mcr.Task.Index.{task-set_state, with_state}

-- A state given twice, or given once.
twice :
    (b c : Bool) (s : TaskState) (o : Option.Option GuestTask)
    → (if c
        then Option.map (with_state s) (if b then Option.map (with_state s) o else o)
        else if b
        then Option.map (with_state s) o
        else o)
      ≡ (if b || c then Option.map (with_state s) o else o)
twice true true s none = refl
twice true true s (some x) = refl
twice true false s o = refl
twice false true s o = refl
twice false false s o = refl

-- `set_states` gives its state to the tasks that are listed and there, and leaves every other
-- lookup as it was.
pub task-set_states :
    (tids : List ℕ) (s : TaskState) (k : GuestKernel) (t : ℕ)
    → task (set_states k tids s) t
      ≡ (if OrdSet.contains t tids then Option.map (with_state s) (task k t) else task k t)
unfolding set_states OrdSet.contains
task-set_states [] s k t = refl
task-set_states (tid ∷ tids) s k t =
    task-set_states tids s (set_state k tid s) t
    ∙ ap (λ o. if OrdSet.contains t tids then Option.map (with_state s) o else o)
        (task-set_state k tid t s)
    ∙ twice (tid == t) (OrdSet.contains t tids) s (task k t)
