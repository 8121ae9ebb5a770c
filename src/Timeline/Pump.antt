-- ===== src/Timeline/Pump.antt =====
-- src/src/core_dll/sync/InputTimeline.cpp, `PumpTicksImpl`: the next deadline, and the loop over the frames
-- that are due. The loop runs on a list with an item for each round.
use cccaster_ver_b.Prelude.{
  ℕ, ◌+◌, ◌*◌, List, [], ◌∷◌, leb, Bool, true, false, not, ◌&&◌, ◌||◌, Option, none, some, ◌==◌,
  if◌then◌else◌,
}
use mathlib.Core.Option
use cccaster_ver_b.Prelude.Int.{ℤ, pos, ◌+ℤ◌, ◌-ℤ◌, ◌*ℤ◌, div_ℤ, clamp_ℤ, leb_ℤ, eqb_ℤ, pos_part}
use cccaster_ver_b.Timing.Cadence
use cccaster_ver_b.Timing.Cadence.{FrameCadence, clock_frame, clock_parts}
use cccaster_ver_b.Timing.Follower
use cccaster_ver_b.Timing.Follower.{PhaseFollower, minus}
use cccaster_ver_b.Timeline.State.{
  Timeline, World, Moment, CaptureTarget, is_loading, publish_schedule,
}
use cccaster_ver_b.Timeline.Control.{set_consumed}
use cccaster_ver_b.Timeline.Capture.{is_fresh, adopt_period, is_full, stop_full, capture}

-- The correction of the period follows the model of the other clock by a tick a frame.
unfoldable pub next_rate : Moment → Timeline → ℤ
next_rate m t =
    let goal =
      if t.host || is_loading t.phase
      then pos 0
      else div_ℤ (m.period_correction *ℤ pos t.period_ticks) clock_frame in
    t.rate_parts +ℤ clamp_ℤ (goal -ℤ t.rate_parts) (minus clock_parts) (pos clock_parts)

-- How far the next deadline is from where the other player's schedule has it.
unfoldable pub error_of : Moment → Timeline → FrameCadence → ℤ
error_of m t nominal =
    let length = pos (clock_frame * clock_parts) +ℤ m.peer.period_correction_parts in
    let ahead = (pos t.next -ℤ pos m.peer.frame) *ℤ length in
    m.peer.due_ticks +ℤ div_ℤ ahead (clock_parts * m.scale) -ℤ nominal.next

-- The error, the shift at once and the follower.
unfoldable pub follow : Moment → Bool → Timeline → FrameCadence → ℤ × ℤ × PhaseFollower
unfolding error_of
follow m fresh t nominal =
    let error = error_of m t nominal in
    let (shift, follower) =
      Follower.recovery_ticks t.follower error t.next (pos_part m.peer.stamp_ticks) m.scale in
    if fresh then (error, shift, follower) else (pos 0, pos 0, t.follower)

-- The deadline of the frame after the one that was sampled.
unfoldable pub reschedule : Moment → Bool → Timeline → Timeline
unfolding next_rate follow
reschedule m fresh t =
    let rate = next_rate m t in
    let slowdown = (pos t.period_ticks -ℤ pos clock_frame) *ℤ pos clock_parts in
    let nominal = Cadence.advance_corrected t.cadence (slowdown +ℤ rate) m.scale in
    let (error, shift, follower) = follow m fresh t nominal in
    let ready = fresh && m.peer.model_ready in
    let (phase, follower') =
      Follower.update_parts follower error t.next (ready && eqb_ℤ shift (pos 0)) m.scale in
    let advanced = Cadence.advance_corrected t.cadence (slowdown +ℤ rate +ℤ phase) m.scale in
    record t {
      rate_parts = rate;
      phase_error = error;
      phase_shift = shift;
      model_ready = ready;
      model_revision = m.peer.model_revision;
      phase_theta = if fresh then m.peer.theta_ticks else t.phase_theta;
      phase_rtt = if fresh then m.peer.rtt_ticks else t.phase_rtt;
      phase_parts = phase;
      follower = follower';
      cadence = Cadence.shift_ticks advanced shift;
    }

unfoldable pub round : Moment → Bool → World → World
unfolding capture reschedule
round m fresh w = let w' = capture m w in record w' { timeline = reschedule m fresh w'.timeline }

unfoldable pub is_due : Moment → Timeline → Bool
is_due m t = leb_ℤ t.cadence.next m.now

-- `SetConsumed` of the game thread, which needs no lock, between two rounds: the game has consumed
-- `count` frames more, of those that were sampled.
unfoldable pub consume : ℕ → World → World
unfolding set_consumed
consume count w =
    if leb (w.timeline.consumed + count) w.timeline.next
    then set_consumed w (w.timeline.consumed + count)
    else w

-- An item for each round: what the game consumes before the test of that round. `none` means that
-- the rounds ran out.
unfoldable pub rounds : List ℕ → Moment → Bool → World → Option World
unfolding consume is_due is_full stop_full round publish_schedule
rounds [] m fresh w = none
rounds (count ∷ counts) m fresh w =
    let w' = consume count w in
    let rest = rounds counts m fresh (round m fresh w') in
    if is_due m w'.timeline
    then if is_full w'.timeline then some (stop_full w') else rest
    else some (publish_schedule w')

-- False if there is nothing to do yet.
unfoldable pub pump_ticks : List ℕ → Moment → World → Option (Bool × World)
unfolding rounds is_fresh adopt_period is_due
pump_ticks counts m w =
    if not w.timeline.active || not (is_due m w.timeline)
    then some (false, w)
    else Option.map (λ w'. (true, w')) (rounds counts m (is_fresh m w.timeline) (adopt_period m w))

-- Another sampler was faster, or the epoch is another.
unfoldable pub is_stale : CaptureTarget → Timeline → Bool
is_stale target t =
    not (target.generation == t.generation)
    || not (target.frame == t.next)
    || not (eqb_ℤ target.due t.cadence.next)
    || not t.active

-- A sampler that does not get the lock tries again later.
unfoldable pub try_pump : List ℕ → Bool → CaptureTarget → Moment → World → Option (Bool × World)
unfolding pump_ticks is_stale
try_pump counts locked target m w =
    if not locked
    then some (false, w)
    else if is_stale target w.timeline
    then some (true, w)
    else pump_ticks counts m w
