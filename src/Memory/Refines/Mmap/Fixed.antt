-- ===== src/Memory/Refines/Mmap/Fixed.antt =====
-- `mmap` of crates/mcr-memory/src/lib.rs, with MAP_FIXED.
use mcr.Prelude.{
  ℕ, ◌+◌, ◌≤◌, ◌<◌, ◌≡◌, refl, ap, subst, ◌∙◌, ◌||◌, Bool, true, false, zero, suc, if◌then◌else◌,
  arith,
}
use mcr.Memory.Error.{GuestMemoryError, Outcome, ok, err, panicked}
use mcr.Memory.Ranges.{is_page_aligned, min_guest_address}
use mcr.Memory.Vma.{
  GuestVmaKind, GuestMemoryProtection, MmapSyscallArgs, is_fixed, is_fixed_noreplace,
}
use mcr.Memory.Map.{Vmas}
use mcr.Memory.Map.Order.{Ordered}
use mcr.Memory.State.{Host, GuestMemory, Action, edit, return, ◌>>=◌}
use mcr.Memory.Calls.{unmap_range, mmap_start, may_retry, mmap_attempt, after_attempt, mmap_loop}
use mcr.Memory.Quiet.{Quiet}
use mcr.Memory.Mapping.{insert_mapping}
use mcr.Memory.Refines.{Edited}
use mcr.Memory.Refines.Munmap.{cleared, unmap_range-Edited}
use mcr.Memory.Refines.Insert.{mapped, InsertRun, insert_mapping-InsertRun}

-- A run with MAP_FIXED that gives a value of some kind.
unfoldable pub ReplaceRun {ℓ} :
    {A : Type ℓ}
    → (A → Type 0)
    → ℕ
    → ℕ
    → GuestMemoryProtection
    → GuestVmaKind
    → GuestMemory
    → Outcome A × GuestMemory
    → Type 0
ReplaceRun P start length p kind g (ok a, k) =
    P a
    × (min_guest_address ≤ start)
    × (is_page_aligned start ≡ true)
    × (start + length ≤ g.address_space_end)
    × Edited (mapped start (start + length) p kind) g k
ReplaceRun P start length p kind g (err e, k) = Edited (cleared start (start + length)) g k
ReplaceRun P start length p kind g (panicked, k) = Edited (cleared start (start + length)) g k

module _ (os : Host) (args : MmapSyscallArgs) (start length : ℕ) (p : GuestMemoryProtection)
    (kind : GuestVmaKind) (n : 0 < length) where
  clear_after :
      (g h k : GuestMemory)
      → Edited (cleared start (start + length)) g h
      → Quiet h k
      → Edited (cleared start (start + length)) g k
  clear_after g h k c q = record {
    ordered = q.areas.ordered;
    views = λ x. q.areas.attributes x ∙ c.views x;
    layout = q.layout ∙ c.layout;
  }

  InsertRun-ReplaceRun :
      (g h : GuestMemory) (run : Outcome (Unit {0}) × GuestMemory)
      → Edited (cleared start (start + length)) g h
      → InsertRun start length p kind h run
      → ReplaceRun (λ _. Unit {0}) start length p kind g run
  unfolding InsertRun ReplaceRun
  InsertRun-ReplaceRun g h (ok _, k) c r = (
    tt,
    r.least,
    r.aligned,
    subst (λ e. start + length ≤ e) (ap (λ l. l.3) c.layout) r.ends,
    record {
      ordered = r.edited.ordered;
      views = λ x. ground (arith, r.edited.views x, c.views x);
      layout = r.edited.layout ∙ c.layout;
    },
  )
  InsertRun-ReplaceRun g h (err e, k) c r = clear_after g h k c r
  InsertRun-ReplaceRun g h (panicked, k) c r = clear_after g h k c r

  attempt_fixed :
      (g : GuestMemory)
      → is_fixed args ≡ true
      → Ordered 0 g.vmas
      → ReplaceRun
          (λ _. Unit {0})
          start
          length
          p
          kind
          g
          (mmap_attempt os args length p kind start g)
  unfolding mmap_attempt ◌>>=◌
  attempt_fixed g e o = by_flag (is_fixed args) e
    where
      by_flag :
          (fixed : Bool)
          → fixed ≡ true
          → ReplaceRun
              (λ _. Unit {0})
              start
              length
              p
              kind
              g
              (((if fixed then edit (unmap_range start (start + length)) else return tt) >>= λ _.
                  insert_mapping os start length p kind)
                g)
      by_flag false e = absurd (ground (arith, e))
      by_flag true e =
          let c = unmap_range-Edited start (start + length) g o in
          InsertRun-ReplaceRun g (unmap_range start (start + length) g) _ c (
            insert_mapping-InsertRun os start length p kind (unmap_range start (start + length) g)
              c.ordered n)

  after_attempt-ReplaceRun :
      (again : ℕ → Action ℕ) (g : GuestMemory) (run : Outcome (Unit {0}) × GuestMemory)
      → is_fixed args ≡ true
      → ReplaceRun (λ _. Unit {0}) start length p kind g run
      → ReplaceRun
          (λ s. s ≡ start)
          start
          length
          p
          kind
          g
          (after_attempt again args length start run)
  unfolding after_attempt ReplaceRun
  after_attempt-ReplaceRun again g (ok _, k) e r = (refl, r.1, r.2, r.3, r.4)
  after_attempt-ReplaceRun again g (panicked, k) e r = r
  after_attempt-ReplaceRun again g (err x, k) e r = rw (stop k x, after_attempt) r
    where
      stop : (k : GuestMemory) (x : GuestMemoryError) → may_retry k args x ≡ false
      stop k x = unfold may_retry in ground (arith, e)

  last_attempt-ReplaceRun :
      (g : GuestMemory) (run : Outcome (Unit {0}) × GuestMemory)
      → ReplaceRun (λ _. Unit {0}) start length p kind g run
      → ReplaceRun (λ s. s ≡ start) start length p kind g (((λ _. run) >>= λ _. return start) g)
  unfolding ◌>>=◌ ReplaceRun
  last_attempt-ReplaceRun g (ok _, k) r = (refl, r.1, r.2, r.3, r.4)
  last_attempt-ReplaceRun g (panicked, k) r = r
  last_attempt-ReplaceRun g (err x, k) r = r

  pub mmap_loop-ReplaceRun :
      (retries : ℕ) (g : GuestMemory)
      → is_fixed args ≡ true
      → Ordered 0 g.vmas
      → ReplaceRun
          (λ s. s ≡ start)
          start
          length
          p
          kind
          g
          (mmap_loop os retries args length p kind start g)
  unfolding mmap_loop ◌>>=◌
  mmap_loop-ReplaceRun zero g e o =
      last_attempt-ReplaceRun g (mmap_attempt os args length p kind start g) (attempt_fixed g e o)
  mmap_loop-ReplaceRun (suc retries) g e o =
      after_attempt-ReplaceRun (mmap_loop os retries args length p kind) g
        (mmap_attempt os args length p kind start g) e (attempt_fixed g e o)

pub mmap_start-exact :
    (vmas : Vmas) (mmap_base space_end : ℕ) (args : MmapSyscallArgs) (length start : ℕ)
    → (is_fixed args || is_fixed_noreplace args) ≡ true
    → mmap_start vmas mmap_base space_end args length ≡ ok start
    → start ≡ args.addr
unfolding mmap_start
mmap_start-exact vmas mmap_base space_end args length start e h = ground (arith, e, h)
