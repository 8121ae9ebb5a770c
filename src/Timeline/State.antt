-- ===== src/Timeline/State.antt =====
-- src/src/core_dll/sync/InputTimeline.hpp: the state of the class with the objects that it changes, which
-- are the ring of inputs, the filter of the screens, the settings, its published schedule and the
-- period of the metronome.
-- What a call reads from outside is a `Moment`: the clock, the notice of the other player, the
-- device and whether the window of key settings is open, by the frame that they are asked for. The
-- scripts of the tests of the program, waking other threads and messages are left out.
use cccaster_ver_b.Prelude.{ℕ, Bool, true, false, not, ◌&&◌, if◌then◌else◌}
use cccaster_ver_b.Prelude.Int.{ℤ, pos}
use cccaster_ver_b.Timing.Cadence.{FrameCadence}
use cccaster_ver_b.Timing.Follower.{PhaseFollower}
use cccaster_ver_b.Timing.Pacing
use cccaster_ver_b.Timing.Pacing.{NetworkPacing}
use cccaster_ver_b.Scene.Input.{GameInput, neutral}
use cccaster_ver_b.Scene.Filter.{GamePhase, FilterState}
use cccaster_ver_b.Sync.MatchInput.{Buffer}
use cccaster_ver_b.Sync.Settings.{SettingsCommands}
use cccaster_ver_b.Network.Receiver.{InputSchedule, no_schedule}

pub record CaptureTime : Type 0 where
  pub frame : ℕ
  pub due_ticks : ℤ
  pub error : ℤ
  pub shift : ℤ
  pub theta : ℤ
  pub rtt : ℤ
  pub phase_parts : ℤ
  pub rate_parts : ℤ
  pub revision : ℕ
  pub ready : Bool
  pub menu_input : GameInput

abbrev pub no_capture : CaptureTime
no_capture = record {
  frame = 0;
  due_ticks = pos 0;
  error = pos 0;
  shift = pos 0;
  theta = pos 0;
  rtt = pos 0;
  phase_parts = pos 0;
  rate_parts = pos 0;
  revision = 0;
  ready = false;
  menu_input = neutral;
}

-- `gate` is the flag of the LocalInputGate.
pub record Timeline : Type 0 where
  pub capture_times : ℕ → CaptureTime
  pub phase_parts : ℤ
  pub rate_parts : ℤ
  pub model_revision : ℕ
  pub pacing : NetworkPacing
  pub period_ticks : ℕ
  pub model_ready : Bool
  pub phase_error : ℤ
  pub phase_shift : ℤ
  pub phase_theta : ℤ
  pub phase_rtt : ℤ
  pub active : Bool
  pub overflow : Bool
  pub sampled : ℕ
  pub consumed : ℕ
  pub base : ℕ
  pub next : ℕ
  pub last_value : ℕ
  pub generation : ℕ
  pub host : Bool
  pub starting : Bool
  pub phase : GamePhase
  pub cadence : FrameCadence
  pub follower : PhaseFollower
  pub gate : Bool

pub record World : Type 0 where
  pub timeline : Timeline
  pub buffer : Buffer
  pub filter : FilterState
  pub settings : SettingsCommands
  pub schedule : InputSchedule
  pub metronome : ℕ

pub record Moment : Type 0 where
  pub now : ℤ
  pub period_correction : ℤ
  pub peer : InputSchedule
  pub mean_rtt : ℤ
  pub polled : ℕ → ℕ
  pub mapping : ℕ → Bool
  pub scale : ℕ

pub record CaptureTarget : Type 0 where
  pub generation : ℕ
  pub frame : ℕ
  pub due : ℤ

abbrev pub is_loading : GamePhase → Bool
is_loading GamePhase.loading = true
is_loading _ = false

abbrev pub is_chara_select : GamePhase → Bool
is_chara_select GamePhase.chara_select = true
is_chara_select _ = false

abbrev pub is_in_game : GamePhase → Bool
is_in_game GamePhase.in_game = true
is_in_game _ = false

abbrev pub is_rematch : GamePhase → Bool
is_rematch GamePhase.rematch = true
is_rematch _ = false

-- `Metronome::SetFramePeriodTicks`.
unfoldable pub set_frame_period : ℕ → ℕ → ℕ
set_frame_period old ticks = if Pacing.valid ticks then ticks else old

unfoldable pub publish_schedule : World → World
publish_schedule w =
    let t = w.timeline in
    let known =
      if t.active && not (is_loading t.phase)
      then record no_schedule { base = t.base; frame = t.next; due_ticks = t.cadence.next }
      else no_schedule in
    record w {
      schedule = record known {
        period_ticks = t.period_ticks;
        requested_period_ticks = t.pacing.requested;
      };
    }
