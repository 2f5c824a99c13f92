-- ===== src/Memory/Refines/Mmap.antt =====
-- `mmap` of crates/mcr-memory/src/lib.rs without MAP_FIXED: the search for a free range.
pub mod Fixed
pub mod Whole
use mathlib.Core.Option
use mcr.Prelude.{
  ℕ, ◌+◌, ◌-◌, ◌≤◌, ◌<◌, ◌≡◌, ◌⊎◌, inl, inr, refl, sym, ap, subst, Bool-cases, ◌∙◌, ◌==◌, ==_iff,
  ◌&&◌, ◌||◌, Bool, true, false, not, ltb, leb, max, Option, none, some, List, [], ◌∷◌, zero, suc,
  if◌then◌else◌, arith,
}
use mcr.Memory.Error.{GuestMemoryError, Outcome, ok, err, panicked}
use mcr.Memory.Ranges.{is_page_aligned, min_guest_address, checked_mapping_end, page_round_length}
use mcr.Memory.Vma.{
  GuestVma, GuestVmaKind, GuestMemoryProtection, from_linux, MmapSyscallArgs, is_fixed,
  is_fixed_noreplace, mmap_kind,
}
use mcr.Memory.Map.{Vmas, overlaps, find_free_range}
use mcr.Memory.Map.Order.{Ordered}
use mcr.Memory.Map.Unmap.{within}
use mcr.Memory.State.{Host, GuestMemory, Action, lift, gets, edit, return, ◌>>=◌}
use mcr.Memory.Calls.{
  unmap_range, mmap_start, next_retry_mmap_start, may_retry, mmap_attempt, after_attempt, mmap_loop,
  mmap, mmap_host_conflict_retries,
}
use mcr.Memory.Quiet.{Quiet, Quiet-refl, Quiet-trans, Keeps-lift, Keeps-gets, Keeps-if}
use mcr.Memory.Quiet.Bind.{Closed, bind_cases}
use mcr.Memory.Mapping.{insert_mapping}
use mcr.Memory.Refines.{View, view, Edited, Edited-after, page_round_length-bounds}
use mcr.Memory.Refines.Munmap.{cleared, unmap_range-Edited}
use mcr.Memory.Refines.Insert.{mapped, IsInserted, InsertRun, insert_mapping-InsertRun}

IsInserted-after :
    (start length : ℕ) (p : GuestMemoryProtection) (kind : GuestVmaKind) (g h k : GuestMemory)
    → Quiet g h
    → IsInserted start length p kind h k
    → IsInserted start length p kind g k
IsInserted-after start length p kind g h k q i = record {
  least = i.least;
  aligned = i.aligned;
  ends = subst (λ e. start + length ≤ e) (ap (λ l. l.3) q.layout) i.ends;
  free = λ x inside. sym (q.areas.attributes x) ∙ i.free x inside;
  edited =
      Edited-after (mapped start (start + length) p kind) g h k (λ v w x e. ground (arith, e)) q
        i.edited;
}

-- A run of the loop without MAP_FIXED, from a first start.
unfoldable pub SearchRun :
    MmapSyscallArgs
    → ℕ
    → GuestMemoryProtection
    → GuestVmaKind
    → ℕ
    → GuestMemory
    → Outcome ℕ × GuestMemory
    → Type 0
SearchRun args length p kind first g (ok start, g') =
    IsInserted start length p kind g g' × (is_fixed_noreplace args ≡ true → start ≡ first)
SearchRun args length p kind first g (err e, g') = Quiet g g'
SearchRun args length p kind first g (panicked, g') = Quiet g g'

module _ (os : Host) (args : MmapSyscallArgs) (length : ℕ) (p : GuestMemoryProtection)
    (kind : GuestVmaKind) (n : 0 < length) where
  attempt_elsewhere :
      (start : ℕ) (g : GuestMemory)
      → is_fixed args ≡ false
      → Ordered 0 g.vmas
      → InsertRun start length p kind g (mmap_attempt os args length p kind start g)
  unfolding mmap_attempt ◌>>=◌
  attempt_elsewhere start g e o = by_flag (is_fixed args) e
    where
      by_flag :
          (fixed : Bool)
          → fixed ≡ false
          → InsertRun start length p kind g (
              ((if fixed then edit (unmap_range start (start + length)) else return tt) >>= λ _.
              insert_mapping os start length p kind)
                g)
      by_flag true e = absurd (ground (arith, e))
      by_flag false e = insert_mapping-InsertRun os start length p kind g o n

  SearchRun-Closed : (first : ℕ) (g : GuestMemory) → Closed g (SearchRun args length p kind first g)
  unfolding SearchRun
  SearchRun-Closed first g = record { error = λ e g' q. q; panic = λ g' q. q }

  SearchRun-after :
      (first next : ℕ) (g h : GuestMemory) (run : Outcome ℕ × GuestMemory)
      → is_fixed_noreplace args ≡ false
      → Quiet g h
      → SearchRun args length p kind next h run
      → SearchRun args length p kind first g run
  unfolding SearchRun
  SearchRun-after first next g h (ok start, k) e q r = (
    IsInserted-after start length p kind g h k q r.0,
    λ noreplace. absurd (ground (e, noreplace, arith)),
  )
  SearchRun-after first next g h (err x, k) e q r = Quiet-trans g h k q r
  SearchRun-after first next g h (panicked, k) e q r = Quiet-trans g h k q r

  after_attempt-SearchRun :
      (again : ℕ → Action ℕ) (start : ℕ) (g : GuestMemory) (run : Outcome (Unit {0}) × GuestMemory)
      → ((next : ℕ) (h : GuestMemory)
          → Ordered 0 h.vmas
          → SearchRun args length p kind next h (again next h))
      → InsertRun start length p kind g run
      → SearchRun args length p kind start g (after_attempt again args length start run)
  unfolding after_attempt InsertRun
  after_attempt-SearchRun again start g (ok _, k) next r = unfold SearchRun in (r, λ _. refl)
  after_attempt-SearchRun again start g (panicked, k) next r = unfold SearchRun in r
  after_attempt-SearchRun again start g (err x, k) next r = elim (Bool-cases (may_retry k args x)) [
    | inr stop ↦ rw (stop, after_attempt) (unfold SearchRun in r)
    | inl more ↦
        rw (more, after_attempt)
          (bind_cases (SearchRun args length p kind start g) (SearchRun-Closed start g) r
            (Keeps-lift _)
            λ found h e q.
              SearchRun-after start found g h (again found h) (movable k x more) q
                (next found h q.areas.ordered))
  ]
    where
      movable :
          (k : GuestMemory) (x : GuestMemoryError)
          → may_retry k args x ≡ true
          → is_fixed_noreplace args ≡ false
      movable k x more = unfold may_retry in ground (arith, more)

  last_attempt-SearchRun :
      (start : ℕ) (g : GuestMemory) (run : Outcome (Unit {0}) × GuestMemory)
      → InsertRun start length p kind g run
      → SearchRun args length p kind start g (((λ _. run) >>= λ _. return start) g)
  unfolding ◌>>=◌ InsertRun SearchRun
  last_attempt-SearchRun start g (ok _, k) r = (r, λ _. refl)
  last_attempt-SearchRun start g (panicked, k) r = r
  last_attempt-SearchRun start g (err x, k) r = r

  -- Without MAP_FIXED, the loop of `mmap` comes to an end after as many retries as it has left, each
  -- from a new start: it gives a mapping in a range that was free, or leaves the memory as the guest
  -- sees it.
  pub mmap_loop-SearchRun :
      (retries start : ℕ) (g : GuestMemory)
      → is_fixed args ≡ false
      → Ordered 0 g.vmas
      → SearchRun args length p kind start g (mmap_loop os retries args length p kind start g)
  unfolding mmap_loop ◌>>=◌
  mmap_loop-SearchRun zero start g e o =
      last_attempt-SearchRun start g (mmap_attempt os args length p kind start g)
        (attempt_elsewhere start g e o)
  mmap_loop-SearchRun (suc retries) start g e o =
      after_attempt-SearchRun (mmap_loop os retries args length p kind) start g
        (mmap_attempt os args length p kind start g)
        (λ next h o'. mmap_loop-SearchRun retries next h e o') (attempt_elsewhere start g e o)
