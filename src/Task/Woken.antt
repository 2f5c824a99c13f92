-- ===== src/Task/Woken.antt =====
-- Whom `wake_futex_waiters` of crates/mcr-task/src/kernel/wait.rs wakes.
use mathlib.Core.Option
use mcr.Prelude.{
  ℕ, ◌+◌, ◌<◌, ◌≤◌, ◌≡◌, refl, ◌⊎◌, inl, inr, ◌∙◌, ap, Bool, true, false, not, ◌&&◌, List, [], ◌∷◌,
  arith, ◌==◌, ==_iff, if◌then◌else◌, Option-cases, Bool-cases, holds, length,
}
use mcr.Prelude.OrdSet
use mcr.Task.State.{
  GuestKernel, FutexWaitKey, TaskState, runnable, waiting_for_futex, waits_on_futex,
}
use mcr.Task.Kernel.{task, set_state, set_states, futex_waiters}
use mcr.Task.Futex.{wake_loop, wake_futex_waiters}
use mcr.Task.Index.{IsIndexed, futex_waits, in_queue, queued, task-set_state, with_state}
use mcr.Task.Index.Sweep.{task-set_states}

-- A task that is there and waits on a futex key.
abbrev pub waits : FutexWaitKey → GuestKernel → ℕ → Bool
waits key k u = holds (λ t. waits_on_futex key t.state) (task k u)

-- No tid stands twice.
unfoldable pub distinct : List ℕ → Bool
distinct [] = true
distinct (x ∷ xs) = not (OrdSet.contains x xs) && distinct xs

-- The loop over some tids, from a number of tasks that have been resumed.
record Looped (key : FutexWaitKey) (limit resumed : ℕ) (queue : List ℕ) (k : GuestKernel)
    (result : ℕ × GuestKernel) : Type 0 where
  woken : List ℕ
  once : distinct woken ≡ true
  count : result.0 ≡ resumed + length woken
  bounded : result.0 ≤ limit
  after : result.1 ≡ set_states k woken runnable
  waited : (u : ℕ) → OrdSet.contains u woken ≡ true → waits key k u ≡ true
  left :
      (result.0 ≡ limit) ⊎ ((u : ℕ) → OrdSet.contains u queue ≡ true → waits key result.1 u ≡ false)

waits-set_state :
    (key : FutexWaitKey) (tid u : ℕ) (k : GuestKernel)
    → waits key (set_state k tid runnable) u ≡ (not (tid == u) && waits key k u)
unfolding waits_on_futex
waits-set_state key tid u k = elim (Option-cases (task k u)) [
  | inl e ↦ ground (arith, e, task-set_state k tid u runnable)
  | inr (t, e) ↦ ground (arith, e, task-set_state k tid u runnable)
]

waits-set_states :
    (key : FutexWaitKey) (tids : List ℕ) (u : ℕ) (k : GuestKernel)
    → waits key (set_states k tids runnable) u ≡ (not (OrdSet.contains u tids) && waits key k u)
unfolding set_states OrdSet.contains
waits-set_states key [] u k = ground arith
waits-set_states key (tid ∷ tids) u k =
    ground
      (arith, waits-set_states key tids u (set_state k tid runnable), waits-set_state key tid u k)

wake_loop-Looped :
    (key : FutexWaitKey) (limit : ℕ) (queue : List ℕ) (resumed : ℕ) (k : GuestKernel)
    → resumed < limit
    → Looped key limit resumed queue k (wake_loop key limit queue resumed k)
unfolding wake_loop distinct set_states OrdSet.contains
wake_loop-Looped key limit [] resumed k h = record {
  woken = [];
  once = refl;
  count = ground arith;
  bounded = ground (arith, h);
  after = refl;
  waited = λ u e. absurd (ground (arith, e));
  left = inr (λ u e. absurd (ground (arith, e)));
}
wake_loop-Looped key limit (tid ∷ queue) resumed k h = elim (Bool-cases (waits key k tid)) [
  | inr e ↦ rw (e, wake_loop) (skipped e (wake_loop-Looped key limit queue resumed k h))
  | inl e ↦ elim (Bool-cases (resumed + 1 == limit)) [
    | inl f ↦
        rw (e, f, wake_loop)
          (record {
            woken = tid ∷ [];
            once = refl;
            count = refl;
            bounded = ground (arith, f);
            after = refl;
            waited = λ u c. ground (arith, e, c, ==_iff tid u);
            left = inl (ground (arith, f));
          })
    | inr f ↦
        rw (e, f, wake_loop)
          (woke e (
            wake_loop-Looped key limit queue (resumed + 1) (set_state k tid runnable)
              (ground (arith, h, f))))
  ]
]
  where
    skipped :
        {result : ℕ × GuestKernel}
        → waits key k tid ≡ false
        → Looped key limit resumed queue k result
        → Looped key limit resumed (tid ∷ queue) k result
    skipped {result} e r = record {
      woken = r.woken;
      once = r.once;
      count = r.count;
      bounded = r.bounded;
      after = r.after;
      waited = r.waited;
      left = elim r.left [
        | inl full ↦ inl full
        | inr none_left ↦ inr (λ u c. rw r.after (
            ground (
              arith,
              c,
              e,
              ==_iff tid u,
              waits-set_states key r.woken u k,
              ap (λ m. waits key m u) r.after,
              none_left u,
            )))
      ];
    }

    woke :
        {result : ℕ × GuestKernel}
        → waits key k tid ≡ true
        → Looped key limit (resumed + 1) queue (set_state k tid runnable) result
        → Looped key limit resumed (tid ∷ queue) k result
    woke {result} e r = record {
      woken = tid ∷ r.woken;
      once = ground (arith, r.once, r.waited tid, waits-set_state key tid tid k);
      count = ground (arith, r.count);
      bounded = r.bounded;
      after = r.after;
      waited = λ u c. ground (arith, c, e, ==_iff tid u, r.waited u, waits-set_state key tid u k);
      left = elim r.left [
        | inl full ↦ inl full
        | inr none_left ↦ inr (λ u c. ground (
          arith,
          c,
          ==_iff tid u,
          waits-set_states key r.woken u (set_state k tid runnable),
          waits-set_state key tid u k,
          ap (λ m. waits key m u) r.after,
          none_left u,
        ))
      ];
    }

in_queue-waits_on_futex :
    (key : FutexWaitKey) (s : TaskState) → in_queue (futex_waits key) s ≡ waits_on_futex key s
unfolding in_queue waits_on_futex
in_queue-waits_on_futex key (waiting_for_futex other) = refl
in_queue-waits_on_futex key _ = refl

-- The queue of a key holds the tasks that wait on it.
contains-futex_waiters :
    (key : FutexWaitKey) (k : GuestKernel)
    → IsIndexed k
    → (u : ℕ) → OrdSet.contains u (futex_waiters key k.futex_wait_tids) ≡ waits key k u
unfolding queued
contains-futex_waiters key k indexed u = elim (Option-cases (task k u)) [
  | inl e ↦ ground (arith, e, indexed.at (futex_waits key) u)
  | inr (t, e) ↦
      ground (arith, e, indexed.at (futex_waits key) u, in_queue-waits_on_futex key t.state)
]

-- The tasks that a wake resumes, of which none is named twice: as many as it reports and at most
-- `limit`, each of them there and waiting on the key before, and runnable after; no lookup of
-- another task changes; and unless `limit` is reached, no task waits on the key any more.
pub record Woken (key : FutexWaitKey) (limit : ℕ) (k : GuestKernel) (result : ℕ × GuestKernel)
    : Type 0 where
  pub tids : List ℕ
  pub once : distinct tids ≡ true
  pub count : result.0 ≡ length tids
  pub bounded : result.0 ≤ limit
  pub waited : (u : ℕ) → OrdSet.contains u tids ≡ true → waits key k u ≡ true
  pub lookup :
      (u : ℕ)
      → task result.1 u
        ≡ (if OrdSet.contains u tids then Option.map (with_state runnable) (task k u) else task k u)
  pub left : (result.0 ≡ limit) ⊎ ((u : ℕ) → waits key result.1 u ≡ false)

-- Where the queues agree with the states of the tasks, `wake_futex_waiters` resumes distinct tasks
-- that waited on the key, as many as it reports and at most `limit`, and changes no other task;
-- unless it reports `limit`, no task waits on the key afterwards.
pub wake_futex_waiters-Woken :
    (key : FutexWaitKey) (limit : ℕ) (k : GuestKernel)
    → IsIndexed k
    → Woken key limit k (wake_futex_waiters key limit k)
unfolding wake_futex_waiters OrdSet.contains distinct
wake_futex_waiters-Woken key limit k indexed = elim (Bool-cases (limit == 0)) [
  | inl e ↦
      rw (e, wake_futex_waiters)
        (record {
          tids = [];
          once = refl;
          count = refl;
          bounded = ground arith;
          waited = λ u c. absurd (ground (arith, c));
          lookup = λ u. refl;
          left = inl (ground (arith, e));
        })
  | inr e ↦
      rw (e, wake_futex_waiters)
        (woke (
          wake_loop-Looped key limit (futex_waiters key k.futex_wait_tids) 0 k (ground (arith, e))))
]
  where
    woke :
        {result : ℕ × GuestKernel}
        → Looped key limit 0 (futex_waiters key k.futex_wait_tids) k result
        → Woken key limit k result
    woke {result} r = record {
      tids = r.woken;
      once = r.once;
      count = ground (arith, r.count);
      bounded = r.bounded;
      waited = r.waited;
      lookup = λ u. ap (λ m. task m u) r.after ∙ task-set_states r.woken runnable k u;
      left = elim r.left [
        | inl full ↦ inl full
        | inr none_left ↦ inr (λ u. ground (
          arith,
          none_left u,
          contains-futex_waiters key k indexed u,
          waits-set_states key r.woken u k,
          ap (λ m. waits key m u) r.after,
        ))
      ];
    }
