-- ===== src/Timeline/Control.antt =====
-- src/src/core_dll/sync/InputTimeline.cpp: the calls of the game thread.
use cccaster_ver_b.Prelude.{
  ℕ, ◌+◌, ◌%◌, Bool, true, false, not, ◌&&◌, ◌||◌, Option, none, some, leb, ◌==◌, if◌then◌else◌,
}
use cccaster_ver_b.Prelude.Int.{div_ℤ, ◌+ℤ◌, ℤ, pos, eqb_ℤ}
use cccaster_ver_b.Prelude.Words.{sub32}
use cccaster_ver_b.Timing.Cadence
use cccaster_ver_b.Timing.Cadence.{FrameCadence, clock_frame, clock_parts}
use cccaster_ver_b.Timing.Follower
use cccaster_ver_b.Timing.Follower.{PhaseFollower, minus}
use cccaster_ver_b.Timing.Pacing
use cccaster_ver_b.Timing.Pacing.{NetworkPacing}
use cccaster_ver_b.Scene.Input.{GameInput}
use cccaster_ver_b.Scene.Filter
use cccaster_ver_b.Scene.Filter.{GamePhase, FilterState}
use cccaster_ver_b.Sync.MatchInput.{ring_size, write_loading_input}
use cccaster_ver_b.Timeline.State.{
  CaptureTime, no_capture, Timeline, World, CaptureTarget, is_loading, is_chara_select,
  set_frame_period, publish_schedule,
}

unfoldable pub reset : World → World
reset w =
    let t = w.timeline in
    record w {
      timeline = record t {
        generation = t.generation + 1;
        active = false;
        overflow = false;
        sampled = 0;
        consumed = 0;
        gate = false;
        pacing = Pacing.reset;
        period_ticks = Pacing.normal;
        base = 0;
        next = 0;
        last_value = 0;
        capture_times = λ i. no_capture;
      };
    }

-- The clock is read where no first deadline is given.
first_cadence : ℤ → ℤ → FrameCadence
first_cadence first_ticks now =
    Cadence.reset_ticks (if eqb_ℤ first_ticks (pos 0) then now else first_ticks)

unfoldable pub begin : World → ℕ → ℕ → GamePhase → Bool → ℤ → ℤ → World
unfolding first_cadence
begin w base first_capture phase host first_ticks now =
    let t = w.timeline in
    publish_schedule (record w {
      timeline = record t {
        generation = t.generation + 1;
        phase_parts = pos 0;
        rate_parts = pos 0;
        model_revision = 0;
        model_ready = false;
        follower = Follower.reset;
        pacing = Pacing.reset;
        period_ticks = Pacing.normal;
        phase_error = pos 0;
        phase_shift = pos 0;
        phase_theta = pos 0;
        phase_rtt = pos 0;
        base = base;
        next = first_capture;
        phase = phase;
        host = host;
        last_value = 0;
        sampled = sub32 first_capture 1;
        capture_times = λ i. no_capture;
        consumed = base;
        overflow = false;
        cadence = first_cadence first_ticks now;
        starting = not (eqb_ℤ first_ticks (pos 0));
        active = true;
      };
      metronome = set_frame_period w.metronome Pacing.normal;
      buffer = if is_loading phase then write_loading_input w.buffer 0 0 else w.buffer;
      filter = Filter.reset;
    })

unfoldable pub pause : World → World
pause w =
    let t = w.timeline in
    publish_schedule
      (record w { timeline = record t { generation = t.generation + 1; active = false } })

unfoldable pub resume : World → World
resume w =
    let t = w.timeline in
    if not t.overflow && not (t.base == 0)
    then record w { timeline = record t { generation = t.generation + 1; active = true } }
    else w

unfoldable pub set_consumed : World → ℕ → World
set_consumed w frame = record w { timeline = record w.timeline { consumed = frame } }

unfoldable pub next_capture : World → CaptureTarget
next_capture w =
    let t = w.timeline in
    record {
      generation = t.generation;
      frame = t.next;
      due = if t.active then t.cadence.next else pos 0;
    }

abbrev pub sample_of : Timeline → ℕ → CaptureTime
sample_of t frame = t.capture_times (frame % ring_size)

unfoldable pub captured_deadline_ticks : World → ℕ → ℤ
captured_deadline_ticks w frame =
    let t = w.timeline in
    if t.active && (sample_of t frame).frame == frame then (sample_of t frame).due_ticks else pos 0

unfoldable pub try_get_menu_input : World → ℕ → Option GameInput
try_get_menu_input w frame =
    let t = w.timeline in
    if not t.active
      || not (is_chara_select t.phase)
      || leb frame t.base
      || leb t.next frame
      || not ((sample_of t frame).frame == frame)
    then none
    else some (sample_of t frame).menu_input

unfoldable pub captured_deadline_us : World → ℕ → ℤ
captured_deadline_us w frame =
    let t = w.timeline in
    if t.active && (sample_of t frame).frame == frame
    then div_ℤ ((sample_of t frame).due_ticks +ℤ pos 59) 60
    else pos 0

unfoldable pub next_deadline_ticks : World → ℤ
next_deadline_ticks w = if w.timeline.active then w.timeline.cadence.next else pos 0

unfoldable pub next_deadline_us : World → ℤ
next_deadline_us w = if w.timeline.active then Cadence.next_us w.timeline.cadence else pos 0
