-- ===== src/Timing/Cadence.antt =====
-- src/src/core_dll/timing/FrameCadence.hpp and ClockUnits.hpp: the deadline of the next frame, in 1/60 of
-- a microsecond, with the fractions carried over. `int64_t` values are integers without wrap.
pub mod Exact
use cccaster_ver_b.Prelude.{ℕ, ◌+◌, ◌*◌, ◌%◌, ◌/◌, max}
use cccaster_ver_b.Prelude.Int.{ℤ, pos, ◌+ℤ◌, ◌*ℤ◌, div_ℤ, mod_ℤ}

abbrev pub clock_frame : ℕ
clock_frame = 1_000_000

abbrev pub clock_parts : ℕ
clock_parts = 1_000_000

pub record FrameCadence : Type 0 where
  pub next : ℤ
  pub fraction : ℤ
  pub parts : ℤ

unfoldable pub reset_ticks : ℤ → FrameCadence
reset_ticks ticks = record { next = ticks; fraction = pos 0; parts = pos 0 }

pub reset : ℤ → FrameCadence
unfolding reset_ticks
reset start_us = reset_ticks (start_us *ℤ pos 60)

pub shift : FrameCadence → ℤ → FrameCadence
shift c delta_us = record c { next = c.next +ℤ delta_us *ℤ pos 60 }

unfoldable pub shift_ticks : FrameCadence → ℤ → FrameCadence
shift_ticks c delta = record c { next = c.next +ℤ delta }

-- The correction is in millionths of a tick.
unfoldable pub advance_corrected : FrameCadence → ℤ → ℕ → FrameCadence
advance_corrected c correction scale =
    let denominator = clock_parts * max 1 scale in
    let parts = c.parts +ℤ (pos (clock_frame * clock_parts) +ℤ correction) in
    record c { next = c.next +ℤ div_ℤ parts denominator; parts = mod_ℤ parts denominator }

pub next_us : FrameCadence → ℤ
next_us c = div_ℤ (c.next +ℤ pos 59) 60

pub advance : FrameCadence → ℤ → ℕ → FrameCadence
advance c interval_us scale =
    let fraction = c.fraction +ℤ pos (1_000_000 % (60 * scale)) in
    record c {
      next = c.next +ℤ (interval_us *ℤ pos 60 +ℤ div_ℤ fraction scale);
      fraction = mod_ℤ fraction scale;
    }
