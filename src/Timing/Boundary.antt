-- ===== src/Timing/Boundary.antt =====
-- src/src/core_dll/timing/BoundarySlot.hpp: the result of a deadline, passed from the thread that
-- waits for it to the one that asks for it. The number is odd while a result is written.
pub mod Whole
mod Tests
use cccaster_ver_b.Prelude.{
  ℕ, Bool, true, false, ◌%◌, not, ◌&&◌, ◌||◌, List, [], ◌∷◌, Option, none, some, ◌==◌,
  if◌then◌else◌,
}
use cccaster_ver_b.Prelude.Int.{ℤ, ltb_ℤ, eqb_ℤ}
use cccaster_ver_b.Prelude.Words.{add32}

pub record Sample : Type 0 where
  pub due : ℤ
  pub stamp : ℤ
  pub entered : ℤ

pub record BoundarySlot : Type 0 where
  pub sequence : ℕ
  pub sample : Sample

pub data Field : Type 0 where
  due_field stamp_field entered_field : Field

abbrev pub set_field : Sample → Field → ℤ → Sample
set_field x due_field v = record x { due = v }
set_field x stamp_field v = record x { stamp = v }
set_field x entered_field v = record x { entered = v }

-- The atomic operations of `Publish`.
pub data Store : Type 0 where
  next_sequence : Store
  store_field : Field → ℤ → Store

abbrev pub perform : BoundarySlot → Store → BoundarySlot
perform b next_sequence = record b { sequence = add32 b.sequence 1 }
perform b (store_field f v) = record b { sample = set_field b.sample f v }

abbrev pub publish : Sample → List Store
publish x =
    next_sequence
    ∷ store_field due_field x.due
    ∷ store_field stamp_field x.stamp
    ∷ store_field entered_field x.entered
    ∷ next_sequence
    ∷ []

-- `Read`, its five loads at the moments `b0` to `b4`.
unfoldable pub read_sample :
    ℤ → BoundarySlot → BoundarySlot → BoundarySlot → BoundarySlot → BoundarySlot → Option Sample
read_sample target b0 b1 b2 b3 b4 =
    let next : Sample = record {
      due = b1.sample.due;
      stamp = b2.sample.stamp;
      entered = b3.sample.entered;
    } in
    if b0.sequence % 2 == 1
    then none
    else if not (b0.sequence == b4.sequence)
        || not (eqb_ℤ next.due target)
        || ltb_ℤ next.stamp target
    then none
    else some next
