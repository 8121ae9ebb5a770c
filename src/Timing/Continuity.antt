-- ===== src/Timing/Continuity.antt =====
-- src/src/core_dll/timing/ClockContinuity.hpp: the processor's clock, tuned slowly to the phase of the
-- sound card's, and left alone once that has failed. `units` is the number of ticks in a microsecond.
pub mod Tuned
pub mod Reads
mod Tests
use cccaster_ver_b.Prelude.{
  ℕ, Bool, true, false, ◌*◌, not, ◌&&◌, ◌||◌, ltb, leb, ◌==◌, if◌then◌else◌,
}
use cccaster_ver_b.Prelude.Int.{
  ℤ, pos, negsuc, ◌+ℤ◌, ◌-ℤ◌, ◌*ℤ◌, div_ℤ, mod_ℤ, max_ℤ, clamp_ℤ, ltb_ℤ, leb_ℤ, eqb_ℤ,
}
use cccaster_ver_b.Timing.Projection.{ClockAnchor}

pub record ClockContinuity : Type 0 where
  pub units : ℕ
  pub output : ℤ
  pub last_qpc : ℤ
  pub offset : ℤ
  pub anchor_qpc : ℤ
  pub anchor_audio : ℤ
  pub control_qpc : ℤ
  pub rate_ppm : ℤ
  pub fraction : ℤ
  pub residual_since : ℤ
  pub initialized : Bool
  pub used_audio : Bool
  pub is_fallback : Bool

unfoldable pub new_clock : ℕ → ClockContinuity
new_clock units = record {
  units = units;
  output = pos 0;
  last_qpc = pos 0;
  offset = pos 0;
  anchor_qpc = pos 0;
  anchor_audio = pos 0;
  control_qpc = pos 0;
  rate_ppm = pos 0;
  fraction = pos 0;
  residual_since = pos 0;
  initialized = false;
  used_audio = false;
  is_fallback = false;
}

unfoldable pub fall_back : ClockContinuity → ClockContinuity
fall_back c = record c { is_fallback = true; rate_ppm = pos 0; fraction = pos 0 }

unfoldable pub start_at : ClockContinuity → ℤ → ClockContinuity
start_at c qpc =
    if c.initialized then c else record c { initialized = true; last_qpc = qpc; output = qpc }

-- The output after `elapsed` ticks.
unfoldable pub run_on : ClockContinuity → ℤ → ClockContinuity
run_on c elapsed =
    let fractional = c.fraction +ℤ mod_ℤ elapsed 1_000_000 *ℤ c.rate_ppm in
    record c {
      output =
          c.output
          +ℤ (elapsed +ℤ div_ℤ elapsed 1_000_000 *ℤ c.rate_ppm +ℤ div_ℤ fractional 1_000_000);
      fraction = mod_ℤ fractional 1_000_000;
    }

unfoldable pub advance : ClockContinuity → ℤ → ClockContinuity
unfolding run_on
advance c qpc =
    let c' = run_on c (max_ℤ (pos 0) (qpc -ℤ c.last_qpc)) in
    record c' { last_qpc = max_ℤ c.last_qpc qpc }

unfoldable pub first_audio : ClockContinuity → ℤ → ℤ → ClockContinuity
first_audio c qpc audio = record c {
  used_audio = true;
  offset = c.output -ℤ audio;
  anchor_qpc = qpc;
  control_qpc = qpc;
  anchor_audio = audio;
}

-- Every 250 ms: the sound card's clock has to be within a hundredth of the processor's.
unfoldable pub watch : ClockContinuity → ℤ → ℤ → ClockContinuity
unfolding fall_back
watch c qpc audio =
    let real = qpc -ℤ c.anchor_qpc in
    let measured = audio -ℤ c.anchor_audio in
    let far = ltb_ℤ measured (real -ℤ div_ℤ real 100) || ltb_ℤ (real +ℤ div_ℤ real 100) measured in
    let c' = if far then fall_back c else c in
    if leb_ℤ (pos (250_000 * c.units)) real
    then record c' { anchor_qpc = qpc; anchor_audio = audio }
    else c

-- The rate that takes the error away in a second; an error above 5 ms for a second is a failure.
unfoldable pub control : ClockContinuity → ℤ → ℤ → ClockContinuity
unfolding fall_back
control c qpc audio =
    let error = audio +ℤ c.offset -ℤ c.output in
    let tuned : ClockContinuity = record c {
      control_qpc = qpc;
      rate_ppm = clamp_ℤ (div_ℤ error c.units) (negsuc 999) (pos 1_000);
    } in
    if ltb_ℤ (pos (5_000 * c.units)) error || ltb_ℤ error (pos 0 -ℤ pos (5_000 * c.units))
    then (if eqb_ℤ c.residual_since (pos 0)
        then record tuned { residual_since = qpc }
        else if leb_ℤ (pos (1_000_000 * c.units)) (qpc -ℤ c.residual_since)
        then fall_back tuned
        else tuned)
    else record tuned { residual_since = pos 0 }

unfoldable pub follow : ClockContinuity → ℤ → ℤ → ClockContinuity
unfolding watch control
follow c qpc audio =
    let watched = watch c qpc audio in
    if watched.is_fallback || ltb_ℤ (qpc -ℤ watched.control_qpc) (pos (10_000 * c.units))
    then watched
    else control watched qpc audio

unfoldable pub tune : ClockContinuity → ℤ → ℤ → ClockContinuity
unfolding fall_back first_audio follow
tune c qpc audio =
    let c' = if c.used_audio && leb_ℤ audio (pos 0) then fall_back c else c in
    if leb_ℤ audio (pos 0) || c'.is_fallback
    then c'
    else if not c'.used_audio
    then first_audio c' qpc audio
    else follow c' qpc audio

-- `Read`, whose result is the `output` of the new state.
unfoldable pub read_clock : ClockContinuity → ℤ → ℤ → ClockContinuity
unfolding start_at advance tune
read_clock c qpc audio = tune (advance (start_at c qpc) qpc) qpc audio

abbrev pub anchor : ClockContinuity → ClockAnchor
anchor c = record { qpc = c.last_qpc; time = c.output; fraction = c.fraction; ppm = c.rate_ppm }
