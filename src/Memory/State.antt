-- ===== src/Memory/State.antt =====
-- `GuestMemory` of crates/mcr-memory/src/lib.rs with the host memory behind it, and the calls on it:
-- what was written before an error stays written. Of crates/mcr-win/src/memory.rs, the checks before
-- the calls of the operating system, whose answers are a parameter.
use mcr.Prelude.{
  ℕ, ◌+◌, ◌-◌, ◌^◌, ◌==◌, ◌%◌, Bool, true, false, not, ◌&&◌, ◌||◌, ltb, leb, min, Option, none,
  some, List, [], ◌∷◌, if◌then◌else◌,
}
use mcr.Prelude.OrdMap.{Map}
use mcr.Memory.Error.{
  GuestMemoryError, invalid_address, host, HostErrorKind, invalid_input, Outcome, ok, err, panicked,
}
use mcr.Memory.Ranges.{is_page_aligned, min_guest_address}
use mcr.Memory.Vma.{GuestMemoryProtection}
use mcr.Memory.Map.{Vmas}

pub data MemoryProtection : Type 0 where
  no_access read_only read_write execute_read execute_read_write : MemoryProtection

unfoldable pub to_host : GuestMemoryProtection → MemoryProtection
to_host p =
    if p.write
    then if p.execute then execute_read_write else read_write
    else if p.execute
    then execute_read
    else if p.read
    then read_only
    else no_access

-- Behind an `Arc`: its bytes, and whether another memory holds it too. `buffer_id` is the model's: it
-- stands for the address that the operating system has given.
pub record HostMemory : Type 0 where
  pub buffer_id : ℕ
  pub len : ℕ
  pub byte : ℕ → ℕ
  pub shared : Bool

pub record GuestAllocation : Type 0 where
  pub guest_start : ℕ
  pub memory : HostMemory

unfoldable pub guest_end : GuestAllocation → ℕ
guest_end a = min (a.guest_start + a.memory.len) (2 ^ 64 - 1)

unfoldable pub contains_guest_range : GuestAllocation → ℕ → ℕ → Bool
unfolding guest_end
contains_guest_range a start end = leb a.guest_start start && leb end (guest_end a)

unfoldable pub overlaps_guest_range : GuestAllocation → ℕ → ℕ → Bool
unfolding guest_end
overlaps_guest_range a start end = ltb a.guest_start end && ltb start (guest_end a)

pub data HostAddressMode : Type 0 where
  flexible fixed_guest : HostAddressMode

unfoldable pub is_fixed_guest : HostAddressMode → Bool
is_fixed_guest flexible = false
is_fixed_guest fixed_guest = true

-- The last two fields are the model's: how often the operating system has been called, and the
-- protection that it has for each page of a buffer, by the `buffer_id` and the page's offset.
pub record GuestMemory : Type 0 where
  pub vmas : Vmas
  pub allocations : Map ℕ GuestAllocation
  pub next_allocation_id : ℕ
  pub brk_base : ℕ
  pub current_brk : ℕ
  pub mmap_base : ℕ
  pub address_space_end : ℕ
  pub host_address_mode : HostAddressMode
  pub executable_write_generation : ℕ
  pub host_calls : ℕ
  pub page_protection : ℕ → ℕ → MemoryProtection

-- The operating system: the granularity of its allocations, and the error that a call gives, if any.
-- The answers may depend on the number of the call. The other arguments are the address and the size
-- of a new allocation, or the offset and the length of a range.
pub record Host : Type 0 where
  pub granularity : ℕ
  pub allocate_answer : ℕ → Option ℕ → ℕ → Option HostErrorKind
  pub protect_answer : ℕ → ℕ → ℕ → MemoryProtection → Option HostErrorKind
  pub flush_answer : ℕ → ℕ → ℕ → Option HostErrorKind

-- A method call on the memory.
abbrev pub Action {ℓ} : Type ℓ → Type ℓ
Action A = GuestMemory → Outcome A × GuestMemory

module _ {ℓ} {A : Type ℓ} where
  abbrev pub return : A → Action A
  return a g = (ok a, g)

  abbrev pub fail : GuestMemoryError → Action A
  fail e g = (err e, g)

  abbrev pub panic : Action A
  panic g = (panicked, g)

  -- A computation that does not touch the memory.
  abbrev pub lift : Outcome A → Action A
  lift m g = (m, g)

  abbrev pub gets : (GuestMemory → A) → Action A
  gets f g = (ok (f g), g)

  -- `ok_or(e)?` and `expect(..)`.
  abbrev pub ok_or : Option A → GuestMemoryError → Action A
  ok_or none e = fail e
  ok_or (some a) e = return a

  abbrev pub expect : Option A → Action A
  expect none = panic
  expect (some a) = return a

abbrev pub edit : (GuestMemory → GuestMemory) → Action (Unit {0})
edit f g = (ok tt, f g)

infixl 5 ◌>>=◌ ◌>>◌
unfoldable pub ◌>>=◌ {ℓ κ} : {A : Type ℓ} {B : Type κ} → Action A → (A → Action B) → Action B
◌>>=◌ m f g =
    let (r, g') = m g in elim r [ ok a ↦ f a g' | err e ↦ (err e, g') | panicked ↦ (panicked, g') ]

abbrev pub ◌>>◌ {ℓ} : {B : Type ℓ} → Action (Unit {0}) → Action B → Action B
m >> k = m >>= λ _. k

unfoldable pub for_each {ℓ} : {A : Type ℓ} → List A → (A → Action (Unit {0})) → Action (Unit {0})
for_each [] f = return tt
for_each (a ∷ rest) f = f a >> for_each rest f

-- A call of the operating system.
unfoldable pub host_call : (ℕ → Option HostErrorKind) → Action (Unit {0})
host_call answer g = elim (answer g.host_calls) [
  | none ↦ (ok tt, record g { host_calls = g.host_calls + 1 })
  | some kind ↦ (err (host kind), record g { host_calls = g.host_calls + 1 })
]

-- `checked_add(len)` and the bounds, before a call on a range of host memory.
unfoldable pub bad_range : HostMemory → ℕ → ℕ → Bool
bad_range memory offset len =
    leb (2 ^ 64) (offset + len) || len == 0 || ltb memory.len (offset + len)

-- The page of an offset.
unfoldable pub page_of : ℕ → ℕ
page_of offset = offset - offset % 4096

-- The pages of a range of a buffer, which the operating system protects as a whole.
unfoldable pub in_pages : ℕ → ℕ → ℕ → Bool
unfolding page_of
in_pages offset len page = leb (page_of offset) page && ltb page (offset + len)

-- The effect of an answer without an error on the pages of a range.
unfoldable pub protect_pages : ℕ → ℕ → ℕ → MemoryProtection → GuestMemory → GuestMemory
unfolding in_pages
protect_pages handle offset len protection g = record g {
  page_protection = λ h page.
      if h == handle && in_pages offset len page then protection else g.page_protection h page;
}

-- A new buffer, readable and writable, of zero bytes, under the number of the call as its `buffer_id`.
unfoldable pub new_buffer : (ℕ → Option HostErrorKind) → ℕ → Action HostMemory
unfolding host_call protect_pages
new_buffer answer size = do
  handle ← gets (λ g. g.host_calls)
  host_call answer
  edit (protect_pages handle 0 size read_write)
  return (record { buffer_id = handle; len = size; byte = λ _. 0; shared = false })

module _ (os : Host) where
  unfoldable pub allocate : ℕ → Action HostMemory
  unfolding new_buffer
  allocate size =
      if size == 0
      then fail (host invalid_input)
      else new_buffer (λ n. os.allocate_answer n none size) size

  unfoldable pub allocate_at : ℕ → ℕ → Action HostMemory
  unfolding new_buffer
  allocate_at address size =
      if address == 0 || size == 0
      then fail (host invalid_input)
      else new_buffer (λ n. os.allocate_answer n (some address) size) size

  unfoldable pub protect_range : HostMemory → ℕ → ℕ → MemoryProtection → Action (Unit {0})
  unfolding bad_range protect_pages
  protect_range memory offset len protection =
      if bad_range memory offset len
      then fail (host invalid_input)
      else host_call (λ n. os.protect_answer n offset len protection)
        >> edit (protect_pages memory.buffer_id offset len protection)

  unfoldable pub protect : HostMemory → MemoryProtection → Action (Unit {0})
  unfolding protect_range
  protect memory protection = protect_range memory 0 memory.len protection

  unfoldable pub flush_instruction_cache_range : HostMemory → ℕ → ℕ → Action (Unit {0})
  unfolding bad_range
  flush_instruction_cache_range memory offset len =
      if bad_range memory offset len
      then fail (host invalid_input)
      else host_call (λ n. os.flush_answer n offset len)

unfoldable pub with_layout : ℕ → ℕ → ℕ → Outcome GuestMemory
with_layout initial_brk mmap_base address_space_end =
    if not (is_page_aligned initial_brk)
      || not (is_page_aligned mmap_base)
      || not (is_page_aligned address_space_end)
      || ltb initial_brk min_guest_address
      || ltb mmap_base min_guest_address
      || leb address_space_end min_guest_address
    then err invalid_address
    else ok (record {
      vmas = [];
      allocations = [];
      next_allocation_id = 1;
      brk_base = initial_brk;
      current_brk = initial_brk;
      mmap_base = mmap_base;
      address_space_end = address_space_end;
      host_address_mode = flexible;
      executable_write_generation = 0;
      host_calls = 0;
      page_protection = λ _ _. no_access;
    })

abbrev pub default_mmap_base : ℕ
default_mmap_base = 0x700000000000

abbrev pub guest_address_space_end : ℕ
guest_address_space_end = 0x800000000000

-- `GuestMemory::new`.
unfoldable pub new_memory : ℕ → Outcome GuestMemory
unfolding with_layout
new_memory initial_brk = with_layout initial_brk default_mmap_base guest_address_space_end
