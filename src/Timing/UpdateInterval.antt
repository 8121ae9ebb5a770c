-- ===== src/Timing/UpdateInterval.antt =====
-- src/src/core_dll/timing/UpdateCadence.hpp: the interval between the updates of consecutive frames,
-- measured for diagnosis. The switches in the environment are left out.
pub mod Measured
use cccaster_ver_b.Prelude.{
  ℕ, ◌+◌, ◌/◌, Bool, true, false, not, ◌&&◌, ◌||◌, ltb, ◌==◌, if◌then◌else◌, Option, none, some,
}
use cccaster_ver_b.Prelude.Int.{ℤ, pos, negsuc, ◌-ℤ◌, ltb_ℤ}
use cccaster_ver_b.Prelude.Words.{add32}

-- In 1/60 microseconds; the limit is 3 microseconds.
abbrev pub period : ℤ
period = pos 1_000_000

abbrev pub limit : ℕ
limit = 180

pub record Sample : Type 0 where
  pub frame : ℕ
  pub previous : ℕ
  pub ordinal : ℕ
  pub now : ℤ
  pub interval : ℤ
  pub error : ℤ
  pub play : Bool
  pub consecutive : Bool
  pub spike : Bool

abbrev pub no_sample : Sample
no_sample = record {
  frame = 0;
  previous = 0;
  ordinal = 0;
  now = pos 0;
  interval = pos 0;
  error = pos 0;
  play = false;
  consecutive = false;
  spike = false;
}

pub record UpdateCadence : Type 0 where
  pub dropped : ℕ
  pub raw_frame : ℕ
  pub raw_ticks : ℤ
  pub raw_play : Bool
  pub raw_pending : Bool
  pub sample : Sample
  pub armed : ℕ
  pub previous_frame : ℕ
  pub count : ℕ
  pub previous_ticks : ℤ
  pub pending : Bool
  pub armed_play : Bool
  pub previous_play : Bool

pub arm : UpdateCadence → ℕ → Bool → UpdateCadence
arm u frame play = record u { armed = frame; armed_play = play }

abbrev pub is_armed : UpdateCadence → Bool
is_armed u = not (u.armed == 0)

-- The frame that is measured follows the previous one in the same block of numbers.
abbrev pub consecutive_to : UpdateCadence → Bool
consecutive_to u =
    u.raw_play
    && u.previous_play
    && not (u.previous_frame == 0)
    && u.raw_frame == add32 u.previous_frame 1
    && u.raw_frame / 65536 == u.previous_frame / 65536

pub measure : UpdateCadence → Sample
unfolding ◌-ℤ◌
measure u =
    let base = record no_sample {
      frame = u.raw_frame;
      previous = u.previous_frame;
      now = u.raw_ticks;
      play = u.raw_play;
      ordinal = add32 u.count 1;
      consecutive = consecutive_to u;
    } in
    let interval = u.raw_ticks -ℤ u.previous_ticks in
    let error = interval -ℤ period in
    if consecutive_to u
    then record base {
      interval = interval;
      error = error;
      spike = ltb_ℤ (pos limit) error || ltb_ℤ error (negsuc 179);
    }
    else base

pub finalize : UpdateCadence → UpdateCadence
unfolding measure
finalize u = if not u.raw_pending then u else record u {
  raw_pending = false;
  sample = measure u;
  count = add32 u.count 1;
  previous_ticks = u.raw_ticks;
  previous_frame = u.raw_frame;
  previous_play = u.raw_play;
}

-- A sample that was not taken is finished first, and counted as dropped.
pub capture : UpdateCadence → ℤ → UpdateCadence
unfolding finalize
capture u ticks =
    let f = finalize u in
    if u.armed == 0 then u else record f {
      dropped = if u.pending then add32 u.dropped 1 else u.dropped;
      raw_frame = u.armed;
      raw_play = u.armed_play;
      raw_ticks = ticks;
      armed = 0;
      raw_pending = true;
      pending = true;
    }

pub take : UpdateCadence → Option Sample × UpdateCadence
unfolding finalize
take u =
    let f = finalize u in
    if not u.pending then (none, u) else (some f.sample, record f { pending = false })
