-- ===== src/Memory/Refines/Mmap/Whole.antt =====
-- `mmap` of crates/mcr-memory/src/lib.rs, as a whole.
use mcr.Prelude.{ℕ, ◌+◌, ◌≤◌, ◌≡◌, inl, inr, subst, Bool-cases, ◌||◌, true, false, none, arith}
use mcr.Memory.Error.{Outcome, ok, err, panicked}
use mcr.Memory.Ranges.{is_page_aligned, min_guest_address, page_round_length}
use mcr.Memory.Vma.{
  GuestVmaKind, GuestMemoryProtection, from_linux, MmapSyscallArgs, is_fixed, is_fixed_noreplace,
  mmap_kind,
}
use mcr.Memory.Map.Order.{Ordered}
use mcr.Memory.Map.Unmap.{within}
use mcr.Memory.State.{Host, GuestMemory}
use mcr.Memory.Calls.{mmap_start, mmap_loop, mmap, mmap_host_conflict_retries}
use mcr.Memory.Quiet.{Quiet, Quiet-refl, Keeps-lift, Keeps-gets}
use mcr.Memory.Quiet.Bind.{Closed, bind_cases}
use mcr.Memory.Refines.{view, Edited, page_round_length-bounds}
use mcr.Memory.Refines.Munmap.{cleared}
use mcr.Memory.Refines.Insert.{mapped}
use mcr.Memory.Refines.Mmap.{SearchRun, mmap_loop-SearchRun}
use mcr.Memory.Refines.Mmap.Fixed.{ReplaceRun, mmap_loop-ReplaceRun, mmap_start-exact}

-- A mapping that `mmap` gives.
pub record IsMmap (args : MmapSyscallArgs) (start : ℕ) (g g' : GuestMemory) : Type 0 where
  pub protection : GuestMemoryProtection
  pub length : ℕ
  pub kind : GuestVmaKind
  pub decoded : from_linux args.prot ≡ ok protection
  pub rounded : page_round_length args.length ≡ ok length
  pub accepted : mmap_kind args ≡ ok kind
  pub least : min_guest_address ≤ start
  pub aligned : is_page_aligned start ≡ true
  pub ends : start + length ≤ g.address_space_end
  pub exact : (is_fixed args || is_fixed_noreplace args) ≡ true → start ≡ args.addr
  pub free :
      is_fixed args ≡ false → (x : ℕ) → within start (start + length) x ≡ true → view g x ≡ none
  pub edited : Edited (mapped start (start + length) protection kind) g g'

-- After a failure every address has its protection and kind, or, with MAP_FIXED, every address outside
-- the range, which is unmapped.
pub data IsLost (args : MmapSyscallArgs) (g g' : GuestMemory) : Type 0 where
  unchanged : Quiet g g' → IsLost args g g'
  range_lost :
      (length : ℕ)
      → is_fixed args ≡ true
      → page_round_length args.length ≡ ok length
      → Edited (cleared args.addr (args.addr + length)) g g'
      → IsLost args g g'

unfoldable pub MmapRun : MmapSyscallArgs → GuestMemory → Outcome ℕ × GuestMemory → Type 0
MmapRun args g (ok start, g') = IsMmap args start g g'
MmapRun args g (err e, g') = IsLost args g g'
MmapRun args g (panicked, g') = IsLost args g g'

-- What `mmap` has found before its loop, on a memory that is still as it was.
record IsPlanned (args : MmapSyscallArgs) (p : GuestMemoryProtection) (length : ℕ)
    (kind : GuestVmaKind) (start : ℕ) (g : GuestMemory) : Type 0 where
  decoded : from_linux args.prot ≡ ok p
  rounded : page_round_length args.length ≡ ok length
  accepted : mmap_kind args ≡ ok kind
  found : mmap_start g.vmas g.mmap_base g.address_space_end args length ≡ ok start

module _ (args : MmapSyscallArgs) (p : GuestMemoryProtection) (length : ℕ) (kind : GuestVmaKind)
    (first : ℕ) (g : GuestMemory) (plan : IsPlanned args p length kind first g) where
  SearchRun-MmapRun :
      (run : Outcome ℕ × GuestMemory)
      → is_fixed args ≡ false
      → SearchRun args length p kind first g run
      → MmapRun args g run
  unfolding SearchRun MmapRun
  SearchRun-MmapRun (ok start, k) e (placed, exact) = record {
    protection = p;
    length = length;
    kind = kind;
    decoded = plan.decoded;
    rounded = plan.rounded;
    accepted = plan.accepted;
    least = placed.least;
    aligned = placed.aligned;
    ends = placed.ends;
    exact = λ flag. ground (
      arith,
      exact (ground (arith, flag, e)),
      mmap_start-exact g.vmas g.mmap_base g.address_space_end args length first flag plan.found,
    );
    free = λ _. placed.free;
    edited = placed.edited;
  }
  SearchRun-MmapRun (err x, k) e r = unchanged r
  SearchRun-MmapRun (panicked, k) e r = unchanged r

  first_exact : is_fixed args ≡ true → first ≡ args.addr
  first_exact e =
      mmap_start-exact g.vmas g.mmap_base g.address_space_end args length first (ground (arith, e))
        plan.found

  lost :
      (k : GuestMemory)
      → is_fixed args ≡ true
      → Edited (cleared first (first + length)) g k
      → IsLost args g k
  lost k e c =
      range_lost length e plan.rounded
        (subst (λ s. Edited (cleared s (s + length)) g k) (first_exact e) c)

  ReplaceRun-MmapRun :
      (run : Outcome ℕ × GuestMemory)
      → is_fixed args ≡ true
      → ReplaceRun (λ s. s ≡ first) first length p kind g run
      → MmapRun args g run
  unfolding ReplaceRun MmapRun
  ReplaceRun-MmapRun (ok start, k) e r = rw r.0 (record {
    protection = p;
    length = length;
    kind = kind;
    decoded = plan.decoded;
    rounded = plan.rounded;
    accepted = plan.accepted;
    least = r.1;
    aligned = r.2;
    ends = r.3;
    exact = λ _. first_exact e;
    free = λ other. absurd (ground (arith, e, other));
    edited = r.4;
  })
  ReplaceRun-MmapRun (err x, k) e r = lost k e r
  ReplaceRun-MmapRun (panicked, k) e r = lost k e r

  mmap_loop-MmapRun :
      (os : Host) (retries : ℕ)
      → Ordered 0 g.vmas
      → MmapRun args g (mmap_loop os retries args length p kind first g)
  mmap_loop-MmapRun os retries o =
      let n = page_round_length-bounds args.length length plan.rounded in
      elim (Bool-cases (is_fixed args)) [
        | inl fixed ↦
            ReplaceRun-MmapRun (mmap_loop os retries args length p kind first g) fixed
              (mmap_loop-ReplaceRun os args first length p kind (omega arith) retries g fixed o)
        | inr free ↦
            SearchRun-MmapRun (mmap_loop os retries args length p kind first g) free
              (mmap_loop-SearchRun os args length p kind (omega arith) retries first g free o)
      ]

MmapRun-Closed : (args : MmapSyscallArgs) (g : GuestMemory) → Closed g (MmapRun args g)
unfolding MmapRun
MmapRun-Closed args g = record { error = λ e g' q. unchanged q; panic = λ g' q. unchanged q }

-- On ordered areas, `mmap`, whose loop always comes to an end, gives only a range of whole pages in
-- the address space: the one that was asked for with MAP_FIXED or MAP_FIXED_NOREPLACE, and without
-- MAP_FIXED one of which no address was mapped. The addresses of the range then have the decoded
-- protection and kind, and every other address has the protection and kind that it had. Where it
-- fails or panics, whatever the operating system answers, every address has the protection and kind
-- that it had, or, with MAP_FIXED, the range that was asked for is unmapped and every other address
-- has them. Nothing is said of the bytes.
pub mmap-MmapRun :
    (os : Host) (args : MmapSyscallArgs) (g : GuestMemory)
    → Ordered 0 g.vmas
    → MmapRun args g (mmap os args g)
unfolding mmap
mmap-MmapRun os args g o =
    bind_cases (MmapRun args g) (MmapRun-Closed args g) (Quiet-refl g o) (Keeps-lift _)
      λ p g1 e1 q1.
        bind_cases (MmapRun args g) (MmapRun-Closed args g) q1 (Keeps-lift _) λ length g2 e2 q2.
          bind_cases (MmapRun args g) (MmapRun-Closed args g) q2 (Keeps-lift _) λ kind g3 e3 q3.
            bind_cases (MmapRun args g) (MmapRun-Closed args g) q3 (Keeps-gets _) λ found g4 e4 q4.
              bind_cases (MmapRun args g) (MmapRun-Closed args g) q4 (Keeps-lift _)
                λ start g5 e5 q5.
                  let same : g5 ≡ g = cc in
                  let plan : IsPlanned args p length kind start g = record {
                    decoded = cc;
                    rounded = cc;
                    accepted = cc;
                    found = cc;
                  } in
                  rw same (
                    mmap_loop-MmapRun args p length kind start g plan os mmap_host_conflict_retries
                      o)
