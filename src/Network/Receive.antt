-- ===== src/Network/Receive.antt =====
-- src/src/core_dll/network/SyncCodec.cpp, `ProcessReceivedPacket`: what a packet does to the receiver. The
-- name of the player, the emblems and the colours are left out, and so are the debug messages.
pub mod Later
pub mod Inputs
pub mod Closed
use cccaster_ver_b.Prelude.{
  ℕ, zero, suc, ◌+◌, ◌-◌, ◌*◌, ◌/◌, ◌%◌, Bool, true, false, not, ◌&&◌, ◌||◌, List, [], ◌∷◌, leb,
  ltb, ◌==◌, if◌then◌else◌,
}
use cccaster_ver_b.Prelude.Int.{ℤ, pos, ◌+ℤ◌, ◌-ℤ◌, ◌*ℤ◌, div_ℤ, ltb_ℤ, leb_ℤ, pos_part, neg_part}
use cccaster_ver_b.Prelude.Words.{pack64}
use cccaster_ver_b.Network.Packet.{
  Payload, Datagram, header_size, cc10_magic, wire_version, wire_extension, pkt_sync_tick, has_flag,
  magic_of, is_session_close_packet, times_valid, inputs_valid, flag_ready, flag_phase_ready,
  flag_loading_skip_current, flag_loading_skip_next, flag_present_rollback, flag_boss_characters,
}
use cccaster_ver_b.Sync.EpochStart.{EpochStart, newer_than}
use cccaster_ver_b.Sync.FrameSequence.{stride}
use cccaster_ver_b.Sync.MatchInput.{Buffer, confirm_remote}
use cccaster_ver_b.Sync.Selection.{SelectionState}
use cccaster_ver_b.Sync.Retry.{RetrySelection}
use cccaster_ver_b.Sync.EpochStart
use cccaster_ver_b.Sync.Selection
use cccaster_ver_b.Sync.Retry
use cccaster_ver_b.Network.Receiver.{
  Receiver, InputSchedule, no_schedule, ClockCalls, no_generation, last_epoch,
}
use cccaster_ver_b.Network.Steps.{
  take_choices, take_seed, take_loading_skip, take_present_rollback, take_progress, current_source,
  take_inputs, take_phase, allow_bosses,
}

module _ {C : Type 0} (calls : ClockCalls C) (local_generation : ℕ) where
  -- A clock that has changed its source is learned again.
  pub change_source : Receiver C → Payload → ℤ → Receiver C
  change_source r p receive_time =
      if not (local_generation == r.local_clock_generation)
        || (not (r.peer_clock_generation == no_generation)
            && ltb r.peer_clock_generation p.clock_generation)
      then record r {
        clock = calls.reset r.clock;
        clock_valid_after_ticks = receive_time;
        peer_schedule = no_schedule;
      }
      else r

  pub take_sample : Receiver C → Payload → ℤ → Receiver C
  unfolding change_source
  take_sample r p receive_time =
      let current = current_source r p in
      let r' = change_source r p receive_time in
      record r' {
        local_clock_generation = local_generation;
        peer_clock_generation = if current then p.clock_generation else r'.peer_clock_generation;
        clock =
            if current
              && ltb_ℤ (pos 0) p.echo_t1
              && leb_ℤ r'.clock_valid_after_ticks p.echo_t1
              && ltb_ℤ (pos 0) p.echo_t2
            then calls.add_ntp_sample_ticks r'.clock p.echo_t1 p.echo_t2 p.t_send receive_time
            else r'.clock;
      }

  abbrev far : ℤ → Bool
  far t = not (ltb (pos_part t + neg_part t) 120_000_000)

  -- When the peer takes its next input, on the local clock.
  pub take_schedule : Receiver C → Payload → Bool → ℤ → Receiver C
  unfolding ◌+ℤ◌ ◌-ℤ◌ ◌*ℤ◌
  take_schedule r p current receive_time =
      let c = r.clock in
      if current
        && has_flag p flag_phase_ready
        && ltb p.phase_base_frame p.next_capture_frame
        && ltb (p.next_capture_frame - p.phase_base_frame) stride
        && ltb_ℤ (pos 0) p.next_capture_ticks
        && not (far (p.next_capture_ticks -ℤ p.t_send))
        && calls.has_timing_estimate c
        && leb r.peer_schedule.base p.phase_base_frame
        && ltb_ℤ r.peer_schedule_sent_ticks p.t_send
      then record r {
        peer_schedule_sent_ticks = p.t_send;
        peer_schedule = record {
          base = p.phase_base_frame;
          frame = p.next_capture_frame;
          due_ticks = calls.peer_to_local_ticks c p.next_capture_ticks receive_time;
          stamp_ticks = receive_time;
          theta_ticks = calls.theta_ticks c;
          rtt_ticks = calls.rtt_ticks c;
          period_correction_parts =
              (pos p.frame_period_ticks -ℤ pos 1_000_000) *ℤ pos 1_000_000
              +ℤ div_ℤ (calls.period_correction_parts c receive_time *ℤ pos p.frame_period_ticks)
                  1_000_000;
          model_ready = calls.model_ready c receive_time;
          model_revision = calls.model_revision c;
          period_ticks = p.frame_period_ticks;
          requested_period_ticks = p.requested_period_ticks;
        };
      }
      else r

  pub take_epoch_start : Receiver C → Payload → ℤ → Receiver C
  take_epoch_start r p receive_time =
      if p.epoch_start.epoch == p.phase_base_frame && newer_than p.epoch_start r.peer_epoch_start
      then record r {
        peer_epoch_start = p.epoch_start;
        peer_epoch_start_local_ticks =
            if not r.is_host && calls.has_timing_estimate r.clock
            then calls.peer_to_local_ticks r.clock p.epoch_start.host_ticks receive_time
            else pos 0;
      }
      else r

  -- What to echo, the ready flag and the start time.
  pub take_signals : Receiver C → Payload → Bool → ℤ → Receiver C
  take_signals r p current receive_time = record r {
    last_peer_t1 = if current then p.t_send else r.last_peer_t1;
    last_peer_recv_ticks = if current then receive_time else r.last_peer_recv_ticks;
    peer_ready = r.peer_ready || has_flag p flag_ready;
    clock =
        if ltb_ℤ (pos 0) p.start_time_ticks
        then calls.set_peer_start_time r.clock (div_ℤ p.start_time_ticks 60)
        else r.clock;
  }

  -- The steps behind the comparison of the settings.
  pub take_payload : Receiver C → Payload → ℕ → ℤ → Receiver C
  take_payload r p kind receive_time =
      let r₁ =
        take_progress (take_loading_skip (take_present_rollback r p) p) p kind receive_time in
      let current = current_source r₁ p in
      let r₂ = take_schedule (take_sample r₁ p receive_time) p current receive_time in
      let r₃ = take_signals (take_epoch_start r₂ p receive_time) p current receive_time in
      take_phase (take_inputs r₃ p) p kind

  -- A payload whose fields are in range.
  pub take_valid : Receiver C → Payload → ℕ → ℤ → Receiver C
  take_valid r p kind receive_time =
      let alive = record r { frames_since_last_recv = 0 } in
      if not (Selection.valid p.selection (allow_bosses r p))
        || not (EpochStart.valid p.epoch_start)
        || not (Retry.valid p.retry)
      then alive
      else (let r' = take_seed (take_choices alive p) p in
          if not (p.delay == r.delay_frames) || not (p.max_rollback == r.max_rollback)
          then record r' { protocol_error = true }
          else take_payload r' p kind receive_time)

  -- `payload_size` is the size of the packed structure.
  pub process_received_packet : ℕ → Receiver C → Datagram → ℤ → Receiver C
  process_received_packet payload_size r d receive_time =
      if ltb d.size header_size || not (magic_of d == cc10_magic)
      then r
      else if not (d.header 6 == wire_version)
      then record r { protocol_error = true }
      else if is_session_close_packet d
      then record r { peer_closed = true }
      else if r.peer_closed || not (d.header 5 == pkt_sync_tick)
      then r
      else if not (d.header 7 == wire_extension)
      then record r { protocol_error = true }
      else if ltb d.size (header_size + payload_size)
          || not (times_valid d.payload receive_time)
          || not (inputs_valid d.payload)
      then r
      else take_valid r d.payload (d.header 4) receive_time
