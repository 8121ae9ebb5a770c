-- ===== src/Timeline/Tests.antt =====
-- Concrete runs of the sampler, in the selection of characters.
use cccaster_ver_b.Prelude.{ℕ, zero, suc, List, [], ◌∷◌, ◌<◌, ◌≡◌, true, false, some, arith, refl}
use cccaster_ver_b.Prelude.Int.{pos, ◌+ℤ◌, div_ℤ, ◌*ℤ◌, ◌-ℤ◌, clamp_ℤ}
use cccaster_ver_b.Timing.Cadence
use cccaster_ver_b.Timing.Follower
use cccaster_ver_b.Scene.Filter.{GamePhase}
use cccaster_ver_b.Sync.MatchInput.{Buffer, empty, empty_slot}
use cccaster_ver_b.Network.Receiver.{no_schedule}
use cccaster_ver_b.Timeline.State.{
  Timeline, World, Moment, CaptureTarget, no_capture, publish_schedule,
}
use cccaster_ver_b.Timeline.Control.{set_consumed}
use cccaster_ver_b.Timeline.Capture.{is_full, is_fresh, adopt_period}
use cccaster_ver_b.Timeline.Pump.{
  consume, round, rounds, is_due, pump_ticks, try_pump, is_stale, reschedule,
}
use cccaster_ver_b.Timeline.Steps.{IsSound, Reach, here, next, captures, consumes}
use cccaster_ver_b.Timeline.Steps.Advance.{IsRecorded, IsKept}
use cccaster_ver_b.Timeline.Steps.Run.{frames_stay}
use cccaster_ver_b.Timeline.Steps.Pumps.{pump_ends, IsDone}
use cccaster_ver_b.Timeline.Steps.Once.{captured_once}

abbrev ring : Buffer
ring = record {
  ring = λ i. empty;
  write_head = 65536;
  loading_input = 0;
  game_read_frame = empty_slot;
  mismatch_frame = 0;
  has_mismatch = false;
  confirmed_remote_frame = empty_slot;
  confirm_conflicts = 0;
  delay = pos 3;
  max_rollback = pos 4;
}

abbrev begun : Timeline
begun = record {
  capture_times = λ i. no_capture;
  phase_parts = pos 0;
  rate_parts = pos 0;
  model_revision = 0;
  pacing = record { requested = 1_000_000; adjusted = pos 0; over_since = pos 0 };
  period_ticks = 1_000_000;
  model_ready = false;
  phase_error = pos 0;
  phase_shift = pos 0;
  phase_theta = pos 0;
  phase_rtt = pos 0;
  active = true;
  overflow = false;
  sampled = 65536;
  consumed = 65536;
  base = 65536;
  next = 65537;
  last_value = 0;
  generation = 3;
  host = true;
  starting = true;
  phase = GamePhase.chara_select;
  cadence = record { next = pos 7_000_000; fraction = pos 0; parts = pos 0 };
  follower = record {
    frame = 0xffff_ffff;
    recovery_frame = 0xffff_ffff;
    observation = 0;
    rate = pos 0;
    recovery_direction = pos 0;
  };
  gate = false;
}

-- A request for a delay of 5 is waiting.
abbrev start : World
start = record {
  timeline = begun;
  buffer = ring;
  filter = record {
    prev_direction = 0;
    since_dir_change = 1_000_000;
    since_confirm_taken = 1_000_000;
  };
  settings = record {
    queued = 0xa500_0000;
    pending = 0xa500_0000;
    delay = pos 3;
    rollback = pos 4;
    notice = 0;
  };
  schedule = no_schedule;
  metronome = 1_000_000;
}

start-IsSound : IsSound start
start-IsSound = record {
  ordered = omega arith;
  room = omega arith;
  small = omega arith;
  word = omega arith;
  playing = refl;
}

-- A little late, with a button held and the window of key settings closed.
abbrev moment : Moment
moment = record {
  now = pos 7_000_900;
  period_correction = pos 0;
  peer = no_schedule;
  mean_rtt = pos 0;
  polled = λ f. 0x0006_0410;
  mapping = λ f. false;
  scale = 1;
}

start_room : is_full start.timeline ≡ false
unfolding is_full
start_room = refl

abbrev once_sampled : World
once_sampled = round moment false start

sampled_next : once_sampled.timeline.next ≡ 65538
unfolding round reschedule
sampled_next = refl

sampled_once : Reach start once_sampled
sampled_once = next here (captures moment false start_room)

-- The game consumes the frame.
abbrev played : World
played = set_consumed once_sampled 65537

consumed_once : Reach once_sampled played
unfolding round reschedule
consumed_once = next here (consumes 65537 (omega arith) (omega arith))

frames_stay_example : IsRecorded once_sampled 65537 × IsKept once_sampled played 65537
unfolding round reschedule set_consumed
frames_stay_example =
    frames_stay 65537 start-IsSound sampled_once consumed_once (omega arith) (omega arith)
      (omega arith)

abbrev nothing_consumed : ℕ → List ℕ
nothing_consumed zero = []
nothing_consumed (suc n) = 0 ∷ nothing_consumed n

-- The game consumes two frames after the first round.
abbrev counts : List ℕ
counts = 0 ∷ 2 ∷ nothing_consumed 600

pump_ends_example :
    (w' : World) × (pump_ticks counts moment start ≡ some (true, w')) × IsDone moment w'
pump_ends_example = pump_ends counts moment start start-IsSound (omega arith) refl (omega arith)

abbrev target : CaptureTarget
target = record { generation = 3; frame = 65537; due = pos 7_000_000 }

abbrev pumped : World
pumped = publish_schedule once_sampled

pumped_lem : try_pump (nothing_consumed 600) true target moment start ≡ some (true, pumped)
unfolding try_pump rounds consume set_consumed round reschedule is_full is_due is_fresh adopt_period
    is_stale Cadence.advance_corrected Cadence.shift_ticks Follower.update_parts Follower.goal_parts
    ◌+ℤ◌ div_ℤ ◌*ℤ◌ ◌-ℤ◌ clamp_ℤ
pumped_lem = refl

moved_on : start.timeline.next < pumped.timeline.next
unfolding round reschedule publish_schedule
moved_on = omega arith

captured_once_example : try_pump (0 ∷ []) true target moment pumped ≡ some (true, pumped)
captured_once_example =
    captured_once (nothing_consumed 600) (0 ∷ []) target moment moment true start-IsSound pumped_lem
      moved_on here
