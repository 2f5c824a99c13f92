-- ===== src/Memory/Refines.antt =====
-- What the calls of crates/mcr-memory promise: changes of a map from addresses to attributes.
pub mod Munmap
pub mod Insert
pub mod Mmap
pub mod Mprotect
use mathlib.Core.Option
use mcr.Prelude.{
  ℕ, ◌+◌, ◌-◌, ◌%◌, ◌^◌, ◌≤◌, ◌<◌, ◌≡◌, refl, ap, ◌∙◌, ◌==◌, ==_iff, ◌&&◌, ◌||◌, Bool, true, false,
  not, ltb, leb, Option, none, some, if◌then◌else◌, arith,
}
use mcr.Memory.Error.{Outcome, ok, err, panicked}
use mcr.Memory.Ranges.{
  is_page_aligned, checked_add, align_up, align_up_to, checked_raw_range, page_round_length,
  checked_page_range,
}
use mcr.Memory.Map.Order.{Ordered}
use mcr.Memory.State.{GuestMemory}
use mcr.Memory.Quiet.{Attributes, attributes_at, layout_of, Quiet}

-- The attributes of the addresses.
abbrev pub View : Type 0
View = ℕ → Option Attributes

abbrev pub view : GuestMemory → View
view g = attributes_at g.vmas

-- The areas stay in order, and the attributes are changed in a given way.
pub record Edited (change : View → View) (g g' : GuestMemory) : Type 0 where
  pub ordered : Ordered 0 g'.vmas
  pub views : (x : ℕ) → view g' x ≡ change (view g) x
  pub layout : layout_of g' ≡ layout_of g

pub Quiet-Edited : (g g' : GuestMemory) → Quiet g g' → Edited (λ v. v) g g'
Quiet-Edited g g' q = record {
  ordered = q.areas.ordered;
  views = q.areas.attributes;
  layout = q.layout;
}

-- A change after quiet steps, where it goes by what each address had.
pub Edited-after :
    (change : View → View) (g h k : GuestMemory)
    → ((v w : View) (x : ℕ) → v x ≡ w x → change v x ≡ change w x)
    → Quiet g h
    → Edited change h k
    → Edited change g k
Edited-after change g h k local q e = record {
  ordered = e.ordered;
  views = λ x. e.views x ∙ local (view h) (view g) x (q.areas.attributes x);
  layout = e.layout ∙ q.layout;
}

-- A range of whole pages.
pub record IsPageRange (start length end : ℕ) : Type 0 where
  pub aligned : is_page_aligned start ≡ true
  pub whole : is_page_aligned end ≡ true
  pub covers : start + length ≤ end
  pub tight : end < start + length + 4096
  pub nonempty : 0 < length

pub page_round_length-bounds :
    (length r : ℕ)
    → page_round_length length ≡ ok r
    → (0 < length) × (length ≤ r) × (r < length + 4096) × (is_page_aligned r ≡ true)
unfolding page_round_length align_up align_up_to
page_round_length-bounds length r h = ground (arith, h)

-- A range that `checked_page_range` accepts is not empty and starts at a page, and its end is the
-- first page boundary that is not below its last address and one.
pub checked_page_range-IsPageRange :
    (start length end : ℕ) → checked_page_range start length ≡ ok end → IsPageRange start length end
unfolding checked_page_range checked_raw_range page_round_length align_up align_up_to
checked_page_range-IsPageRange start length end h = record {
  aligned = ground (arith, h);
  whole = ground (arith, h);
  covers = ground (arith, h);
  tight = ground (arith, h);
  nonempty = ground (arith, h);
}
