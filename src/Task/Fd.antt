-- ===== src/Task/Fd.antt =====
-- crates/mcr-task/src/fd.rs: the descriptor table of a process.
use mcr.Prelude.{
  Bool, true, false, ℕ, ℤ, pos, negsuc, arith, ltb, ◌==◌, ◌≡◌, ◌↔◌, none, some, [], ◌∷◌,
  if◌then◌else◌,
}
use mcr.Prelude.OrdMap
use mcr.Task.Error.{Result, ok, err, bad_fd}
use Prim.Native.String.{String}
use mcr.Prelude.OrdMap.{Map, Key}

pub record GuestFdEntry : Type 0 where
  pub description : String
  pub cloexec : Bool

-- An `i32` key; guest descriptors are never negative.
unfoldable pub int_eq : ℤ → ℤ → Bool
int_eq (pos m) (pos n) = m == n
int_eq (negsuc m) (negsuc n) = m == n
int_eq (pos m) (negsuc n) = false
int_eq (negsuc m) (pos n) = false

unfoldable pub int_lt : ℤ → ℤ → Bool
int_lt (pos m) (pos n) = ltb m n
int_lt (negsuc m) (negsuc n) = ltb n m
int_lt (pos m) (negsuc n) = false
int_lt (negsuc m) (pos n) = true

pub int_eq_iff : (a b : ℤ) → (int_eq a b ≡ true) ↔ (a ≡ b)
unfolding int_eq
int_eq_iff a b = ground arith

instance abbrev pub int_key : Key ℤ
int_key = record { key_eq = int_eq; key_lt = int_lt; key_eq_iff = int_eq_iff }

pub record GuestFdTable : Type 0 where
  pub entries : Map ℤ GuestFdEntry

-- `insert_exact`: a negative descriptor or one in use is refused.
unfoldable pub insert_exact : GuestFdTable → ℤ → GuestFdEntry → Bool → Result GuestFdTable
insert_exact table (negsuc n) entry cloexec = err (bad_fd (negsuc n))
insert_exact table (pos n) entry cloexec = elim (OrdMap.get (pos n) table.entries) [
  | some old ↦ err (bad_fd (pos n))
  | none ↦ ok (record {
    entries = OrdMap.insert (pos n) (record entry { cloexec = cloexec }) table.entries;
  })
]

abbrev pub stdio : String → GuestFdEntry
stdio name = record { description = name; cloexec = false }

-- The table after an insertion that must succeed.
after_insert : GuestFdTable → Result GuestFdTable → GuestFdTable
after_insert table (ok next) = next
after_insert table (err e) = table

insert_stdio : GuestFdTable → ℕ → String → GuestFdTable
unfolding insert_exact after_insert
insert_stdio table fd name = after_insert table (insert_exact table (pos fd) (stdio name) false)

unfoldable pub with_stdio : GuestFdTable
unfolding insert_stdio
with_stdio =
    insert_stdio (insert_stdio (insert_stdio (record { entries = [] }) 0 "stdin") 1 "stdout") 2
      "stderr"

unfoldable pub set_cloexec : GuestFdTable → ℤ → Bool → Result GuestFdTable
set_cloexec table fd cloexec = elim (OrdMap.get fd table.entries) [
  | none ↦ err (bad_fd fd)
  | some entry ↦
      ok (record { entries = OrdMap.modify fd (λ e. record e { cloexec = cloexec }) table.entries })
]

-- `entries.retain(|_, entry| !entry.cloexec)`.
retain_open : Map ℤ GuestFdEntry → Map ℤ GuestFdEntry
retain_open [] = []
retain_open ((fd, entry) ∷ m) =
    let rest = retain_open m in if entry.cloexec then rest else (fd, entry) ∷ rest

unfoldable pub close_on_exec : GuestFdTable → GuestFdTable
unfolding retain_open
close_on_exec table = record { entries = retain_open table.entries }
