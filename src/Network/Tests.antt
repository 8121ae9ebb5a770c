-- ===== src/Network/Tests.antt =====
-- A sender and a receiver over a clock that knows nothing.
use cccaster_ver_b.Prelude.{◌≡◌, ◌+◌, refl, ℕ, true, false, List, [], ◌∷◌, if◌then◌else◌, ◌==◌}
use cccaster_ver_b.Prelude.Int.{pos}
use cccaster_ver_b.Sync.MatchInput.{Buffer, Slot, empty_slot}
use cccaster_ver_b.Sync.MatchInput.History.{Call, after}
use cccaster_ver_b.Sync.EpochStart.{EpochStart}
use cccaster_ver_b.Sync.Selection.{SelectionState}
use cccaster_ver_b.Sync.Retry.{RetrySelection}
use cccaster_ver_b.Network.Packet.{Datagram}
use cccaster_ver_b.Network.Receiver.{Receiver, ClockCalls, no_schedule, no_generation}
use cccaster_ver_b.Network.Steps.Later.{Later}
use cccaster_ver_b.Network.Steps.Inputs.{Confirmed}
use cccaster_ver_b.Network.Receive.{process_received_packet}
use cccaster_ver_b.Network.Receive.Later.{receive_all, receive_all-Later}
use cccaster_ver_b.Network.Receive.Inputs.{process-Confirmed}
use cccaster_ver_b.Network.Receive.Closed.{closed_ignores, is_other_version}
use cccaster_ver_b.Network.Build.{Sender, build_packet}
use cccaster_ver_b.Network.Delivery.{AllOwn, delivers_own_inputs}

abbrev silent : ClockCalls ℕ
silent = record {
  reset = λ c. c;
  add_ntp_sample_ticks = λ c t1 t2 t3 t4. c + 1;
  has_timing_estimate = λ c. false;
  peer_to_local_ticks = λ c t now. t;
  set_peer_start_time = λ c t. c;
  theta_ticks = λ c. pos 0;
  rtt_ticks = λ c. pos 0;
  period_correction_parts = λ c t. pos 0;
  model_ready = λ c t. false;
  model_revision = λ c. 0;
}

abbrev written : Slot
written = record {
  local_frame = 65540;
  local_snapshot = 281492156579847;
  predicted_remote = 0;
  rollbackable = false;
  remote_frame = empty_slot;
  remote_snapshot = 0;
}

abbrev ring : Buffer
ring = record {
  ring = λ i. written;
  write_head = 65540;
  loading_input = 0;
  game_read_frame = empty_slot;
  mismatch_frame = 0;
  has_mismatch = false;
  confirmed_remote_frame = empty_slot;
  confirm_conflicts = 0;
  delay = pos 2;
  max_rollback = pos 7;
}

abbrev chosen : SelectionState
chosen = record {
  epoch = 0;
  revision = 0;
  ack = 0;
  selector = 0;
  character = 0;
  moon = 0;
  color = 0;
  confirmed = 0;
  stage = 0;
  stage_confirmed = 0;
  random_stage = 0;
  command_serial = 0;
  command = 0;
  command_ack = 0;
  delay = 0;
  rollback = 0;
}

abbrev no_retry : RetrySelection
no_retry = record { epoch = 0; choice = 0; ack = 0 }

abbrev no_start : EpochStart
no_start = record { epoch = 0; serial = 0; host_ticks = pos 0; stage = 0 }

abbrev receiver : Receiver ℕ
receiver = record {
  is_host = true;
  delay_frames = 2;
  max_rollback = 7;
  local_boss_characters = false;
  clock = 0;
  buffer = ring;
  protocol_error = false;
  peer_closed = false;
  peer_ready = false;
  frames_since_last_recv = 3;
  latest_peer_frame = 0;
  peer_boss_characters = false;
  peer_present_rollback = false;
  peer_retry = no_retry;
  peer_selection = chosen;
  peer_consumed_frame = 0;
  peer_seed_epoch = 0;
  peer_seed = [];
  peer_loading_skip_epoch = 0;
  peer_progress_token = 0;
  peer_applied_frame = 0;
  peer_progress_received_ticks = pos 0;
  peer_progress_sent_ticks = pos 0;
  local_clock_generation = 0;
  peer_clock_generation = no_generation;
  clock_valid_after_ticks = pos 0;
  peer_schedule = no_schedule;
  peer_schedule_sent_ticks = pos 0;
  peer_epoch_start = no_start;
  peer_epoch_start_local_ticks = pos 0;
  last_peer_t1 = pos 0;
  last_peer_recv_ticks = pos 0;
  peer_phase_base_frame = 0;
  peer_phase_kind = 0;
  peer_phase_ready = false;
  peer_phase_token = 0;
}

-- In the battle of the epoch 65536, with 65540 written and 65538 consumed by the peer.
abbrev sender : Sender
sender = record {
  is_host = false;
  delay_frames = 2;
  max_rollback = 7;
  last_peer_t1 = pos 0;
  last_peer_recv_ticks = pos 0;
  local_phase_token = 281474976710660;
  peer_consumed_frame = 65538;
  peer_phase_base_frame = 65536;
  retry_previous_frame = 0;
  local_selection = chosen;
  local_retry = no_retry;
  local_epoch_start = no_start;
  local_present_rollback = false;
  local_boss_characters = false;
  local_loading_skip_epoch = 0;
  local_schedule = no_schedule;
  applied_frame = 65540;
  consumed_frame = 65539;
  local_seed_epoch = 0;
  local_seed = [];
  source_generation = 1;
  time_ticks = pos 9_000;
  buffer = ring;
}

abbrev packet : Datagram
packet = build_packet 600 sender 65540 true (pos 0) true

receive_all-Later_example : Later receiver (
    receive_all silent 600 receiver (
      record { datagram = packet; generation = 0; time = pos 9_500 }
      ∷ record { datagram = packet; generation = 0; time = pos 9_700 }
      ∷ []))
receive_all-Later_example = receive_all-Later silent 600 receiver (
    record { datagram = packet; generation = 0; time = pos 9_500 }
    ∷ record { datagram = packet; generation = 0; time = pos 9_700 }
    ∷ [])

process-Confirmed_example :
    Confirmed packet.payload receiver.buffer
      (process_received_packet silent 0 600 receiver packet (pos 9_500)).buffer
process-Confirmed_example = process-Confirmed silent 0 600 receiver packet (pos 9_500)

-- The packet with the number of another version.
abbrev older : Datagram
older = record packet { header = λ i. if i == 6 then 1 else packet.header i }

closed_ignores_example :
    process_received_packet silent 0 600 (record receiver { peer_closed = true }) older (pos 9_500)
    ≡ (if is_other_version older
        then record receiver { peer_closed = true; protocol_error = true }
        else record receiver { peer_closed = true })
closed_ignores_example =
    closed_ignores silent 0 600 (record receiver { peer_closed = true }) older (pos 9_500) refl

delivers_own_inputs_example :
    (cs : List Call) × ((process_received_packet silent 0 600 receiver packet (pos 9_500)).buffer
      ≡ after ring cs)
    × AllOwn ring cs
delivers_own_inputs_example =
    delivers_own_inputs silent 0 600 sender receiver 65540 true (pos 0) true (pos 9_500)
