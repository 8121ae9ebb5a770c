-- ===== src/Network/Receiver.antt =====
-- src/src/core_dll/network/SyncCodec.hpp and the shared state of src/src/core_dll/sync/NetplaySession.hpp that
-- a packet may change. The clock that the codec feeds is given by its operations.
use cccaster_ver_b.Prelude.{ℕ, ◌*◌, Bool, false, List}
use cccaster_ver_b.Prelude.Int.{ℤ, pos}
use cccaster_ver_b.Sync.EpochStart.{EpochStart}
use cccaster_ver_b.Sync.FrameSequence.{stride}
use cccaster_ver_b.Sync.MatchInput.{Buffer}
use cccaster_ver_b.Sync.Selection.{SelectionState}
use cccaster_ver_b.Sync.Retry.{RetrySelection}

pub record InputSchedule : Type 0 where
  pub base : ℕ
  pub frame : ℕ
  pub due_ticks : ℤ
  pub stamp_ticks : ℤ
  pub theta_ticks : ℤ
  pub rtt_ticks : ℤ
  pub period_correction_parts : ℤ
  pub model_ready : Bool
  pub model_revision : ℕ
  pub period_ticks : ℕ
  pub requested_period_ticks : ℕ

abbrev pub no_schedule : InputSchedule
no_schedule = record {
  base = 0;
  frame = 0;
  due_ticks = pos 0;
  stamp_ticks = pos 0;
  theta_ticks = pos 0;
  rtt_ticks = pos 0;
  period_correction_parts = pos 0;
  model_ready = false;
  model_revision = 0;
  period_ticks = 1_000_000;
  requested_period_ticks = 1_000_000;
}

-- What the codec calls of the clock and its model of the peer's clock.
pub record ClockCalls (C : Type 0) : Type 0 where
  pub reset : C → C
  pub add_ntp_sample_ticks : C → ℤ → ℤ → ℤ → ℤ → C
  pub has_timing_estimate : C → Bool
  pub peer_to_local_ticks : C → ℤ → ℤ → ℤ
  pub set_peer_start_time : C → ℤ → C
  pub theta_ticks : C → ℤ
  pub rtt_ticks : C → ℤ
  pub period_correction_parts : C → ℤ → ℤ
  pub model_ready : C → ℤ → Bool
  pub model_revision : C → ℕ

-- The codec and the part of the shared state that a packet may change.
pub record Receiver (C : Type 0) : Type 0 where
  pub is_host : Bool
  pub delay_frames : ℕ
  pub max_rollback : ℕ
  pub local_boss_characters : Bool
  pub clock : C
  pub buffer : Buffer
  pub protocol_error : Bool
  pub peer_closed : Bool
  pub peer_ready : Bool
  pub frames_since_last_recv : ℕ
  pub latest_peer_frame : ℕ
  pub peer_boss_characters : Bool
  pub peer_present_rollback : Bool
  pub peer_retry : RetrySelection
  pub peer_selection : SelectionState
  pub peer_consumed_frame : ℕ
  pub peer_seed_epoch : ℕ
  pub peer_seed : List ℕ
  pub peer_loading_skip_epoch : ℕ
  pub peer_progress_token : ℕ
  pub peer_applied_frame : ℕ
  pub peer_progress_received_ticks : ℤ
  pub peer_progress_sent_ticks : ℤ
  pub local_clock_generation : ℕ
  pub peer_clock_generation : ℕ
  pub clock_valid_after_ticks : ℤ
  pub peer_schedule : InputSchedule
  pub peer_schedule_sent_ticks : ℤ
  pub peer_epoch_start : EpochStart
  pub peer_epoch_start_local_ticks : ℤ
  pub last_peer_t1 : ℤ
  pub last_peer_recv_ticks : ℤ
  pub peer_phase_base_frame : ℕ
  pub peer_phase_kind : ℕ
  pub peer_phase_ready : Bool
  pub peer_phase_token : ℕ

abbrev pub no_generation : ℕ
no_generation = 0xffff_ffff

-- The last epoch of a session.
abbrev pub last_epoch : ℕ
last_epoch = 65534 * stride
