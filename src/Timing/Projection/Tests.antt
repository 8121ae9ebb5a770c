-- ===== src/Timing/Projection/Tests.antt =====
-- A clock that is published while it is read, and a deadline.
use cccaster_ver_b.Prelude.{◌≡◌, refl, List, [], ◌∷◌, arith}
use cccaster_ver_b.Prelude.Int.{◌-ℤ◌, ◌+ℤ◌, max_ℤ, ◌*ℤ◌, div_ℤ, mod_ℤ, pos, negsuc}
use cccaster_ver_b.Timing.Projection.{
  ClockAnchor, Store, store_generation, store_field, time_field, qpc_field, fraction_field,
  ppm_field, perform, search_tick, read_once, at_ticks, deadline_ticks, store_field, perform,
  search_tick, time_field, qpc_field, fraction_field, ppm_field, store_generation,
}
use cccaster_ver_b.Timing.Projection.Rate.{Steady}
use cccaster_ver_b.Timing.Projection.Published.{
  Writer, Consistent, begin_publish, after_store, now, stores, begins, read_once-published,
}

abbrev unset : ClockAnchor
unset = record { qpc = pos 0; time = pos 0; fraction = pos 0; ppm = pos 0 }

abbrev anchor : ClockAnchor
anchor = record { qpc = pos 1; time = pos 0; fraction = pos 999_999; ppm = negsuc 999 }

abbrev fresh : Writer
fresh = record {
  memory = record { even_slot = unset; odd_slot = unset; generation = 0 };
  pending = [];
  target = unset;
  published = unset;
}

fresh-Consistent : Consistent fresh
fresh-Consistent = record { bound = omega arith; current = refl; completes = tt }

abbrev begun : Writer
begun = begin_publish fresh anchor

abbrev left : List Store
left =
    store_field time_field 1 (pos 0)
    ∷ store_field fraction_field 1 (pos 999_999)
    ∷ store_field ppm_field 1 (negsuc 999)
    ∷ store_generation 1
    ∷ []

-- One field is stored.
abbrev begun_one : Writer
begun_one = after_store begun (store_field qpc_field 1 (pos 1)) left

read_once-published_example :
    (read_once fresh.memory begun.memory begun_one.memory begun_one.memory begun_one.memory
      begun_one.memory).1
    ≡ unset
unfolding perform
read_once-published_example =
    read_once-published fresh begun begun_one begun_one begun_one begun_one 0 0 0 0 0
      fresh-Consistent (begins anchor now refl) (stores _ left now refl) now now now (omega arith)
      refl

anchor-Steady : Steady anchor
anchor-Steady = record { ppm_bound = omega arith; fraction_bound = omega arith }

-- With a rest that is positive and a rate that is negative the clock steps back by a tick after a
-- million ticks: here the target is already reached two ticks before the deadline that is found.
found_deadline : deadline_ticks anchor 5 (pos 999_001) (pos 999_997) ≡ pos 1_000_002
unfolding deadline_ticks search_tick at_ticks ◌-ℤ◌ ◌+ℤ◌ max_ℤ ◌*ℤ◌ div_ℤ mod_ℤ
found_deadline = refl

reached_before : at_ticks anchor (pos 1_000_000) ≡ pos 999_001
unfolding at_ticks ◌-ℤ◌ ◌+ℤ◌ max_ℤ ◌*ℤ◌ div_ℤ mod_ℤ
reached_before = refl

stepped_back : at_ticks anchor (pos 1_000_001) ≡ pos 999_000
unfolding at_ticks ◌-ℤ◌ ◌+ℤ◌ max_ℤ ◌*ℤ◌ div_ℤ mod_ℤ
stepped_back = refl
