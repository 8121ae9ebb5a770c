-- ===== src/Network/Steps.antt =====
-- src/src/core_dll/network/SyncCodec.cpp, `ProcessReceivedPacket`: its steps that do not use the clock, in
-- the order of the code.
pub mod Later
pub mod Inputs
use cccaster_ver_b.Prelude.{
  ℕ, zero, suc, ◌+◌, ◌-◌, ◌%◌, Bool, true, not, ◌&&◌, ◌||◌, leb, ltb, ◌==◌, if◌then◌else◌,
}
use cccaster_ver_b.Prelude.Int.{ℤ, ltb_ℤ}
use cccaster_ver_b.Prelude.Words.{pack64}
use cccaster_ver_b.Network.Packet.{
  Payload, has_flag, flag_phase_ready, flag_loading_skip_current, flag_loading_skip_next,
  flag_present_rollback, flag_boss_characters,
}
use cccaster_ver_b.Sync.FrameSequence.{stride}
use cccaster_ver_b.Sync.MatchInput.{Buffer, confirm_remote}
use cccaster_ver_b.Sync.Selection.{SelectionState}
use cccaster_ver_b.Sync.Retry.{RetrySelection}
use cccaster_ver_b.Sync.Selection
use cccaster_ver_b.Sync.Retry
use cccaster_ver_b.Network.Receiver.{Receiver, no_generation, last_epoch}

abbrev pub skip_current : Payload → Bool
skip_current p = has_flag p flag_loading_skip_current && not (has_flag p flag_loading_skip_next)

abbrev pub skip_next : Payload → Bool
skip_next p = has_flag p flag_loading_skip_next && not (has_flag p flag_loading_skip_current)

-- Confirms the inputs of `count` frames, from the index `i` on, up to the frame 0.
pub confirm_inputs : ℕ → ℕ → Payload → Buffer → Buffer
confirm_inputs zero i p b = b
confirm_inputs (suc count) i p b =
    let rest = confirm_inputs count (i + 1) p (confirm_remote b (p.base_frame - i) (p.inputs i)) in
    if p.base_frame - i == 0 then b else rest

module _ {C : Type 0} where
  abbrev pub allow_bosses : Receiver C → Payload → Bool
  allow_bosses r p = r.local_boss_characters && has_flag p flag_boss_characters

  -- The choices, and what they may have turned on for the rest of the session.
  pub take_choices : Receiver C → Payload → Receiver C
  take_choices r p = record r {
    peer_retry = (Retry.accept r.peer_retry p.retry).1;
    peer_selection = (Selection.accept r.peer_selection p.selection (allow_bosses r p)).1;
    peer_boss_characters = r.peer_boss_characters || has_flag p flag_boss_characters;
    peer_consumed_frame =
        if ltb r.peer_consumed_frame p.consumed_frame
        then p.consumed_frame
        else r.peer_consumed_frame;
  }

  -- The client takes the host's seed of a new epoch.
  pub take_seed : Receiver C → Payload → Receiver C
  take_seed r p =
      if not r.is_host
        && ltb 0 p.seed_epoch
        && p.seed_epoch == p.phase_base_frame
        && ltb r.peer_seed_epoch p.seed_epoch
      then record r { peer_seed = p.seed; peer_seed_epoch = p.seed_epoch }
      else r

  pub take_loading_skip : Receiver C → Payload → Receiver C
  take_loading_skip r p =
      let epoch = p.phase_base_frame + (if skip_next p then stride else 0) in
      if not (p.phase_base_frame == 0)
        && p.phase_base_frame % stride == 0
        && leb p.phase_base_frame last_epoch
        && (skip_current p || (skip_next p && ltb p.phase_base_frame last_epoch))
        && ltb r.peer_loading_skip_epoch epoch
      then record r { peer_loading_skip_epoch = epoch }
      else r

  pub take_present_rollback : Receiver C → Payload → Receiver C
  take_present_rollback r p = record r {
    peer_present_rollback = r.peer_present_rollback || has_flag p flag_present_rollback;
  }

  -- How far the peer's game has come, by phase, time of sending and frame.
  pub take_progress : Receiver C → Payload → ℕ → ℤ → Receiver C
  take_progress r p kind receive_time =
      let token = pack64 p.phase_base_frame kind in
      if has_flag p flag_phase_ready
        && ltb 0 p.phase_base_frame
        && leb p.phase_base_frame p.applied_frame
        && ltb (p.applied_frame - p.phase_base_frame) stride
        && (ltb r.peer_progress_token token
            || (token == r.peer_progress_token
                && ltb_ℤ r.peer_progress_sent_ticks p.t_send
                && leb r.peer_applied_frame p.applied_frame))
      then record r {
        peer_progress_token = token;
        peer_applied_frame = p.applied_frame;
        peer_progress_received_ticks = receive_time;
        peer_progress_sent_ticks = p.t_send;
      }
      else r

  abbrev pub current_source : Receiver C → Payload → Bool
  current_source r p =
      r.peer_clock_generation == no_generation || leb r.peer_clock_generation p.clock_generation

  pub take_inputs : Receiver C → Payload → Receiver C
  unfolding confirm_inputs
  take_inputs r p = record r {
    buffer =
        if ltb 0 p.base_frame && ltb 0 p.input_count
        then confirm_inputs p.input_count 0 p r.buffer
        else r.buffer;
    latest_peer_frame =
        if ltb r.latest_peer_frame p.base_frame then p.base_frame else r.latest_peer_frame;
  }

  -- The barrier of the phases: a base frame names one kind of phase.
  pub take_phase : Receiver C → Payload → ℕ → Receiver C
  take_phase r p kind =
      if has_flag p flag_phase_ready
        && leb r.peer_phase_base_frame p.phase_base_frame
        && ltb 0 p.phase_base_frame
      then (if p.phase_base_frame == r.peer_phase_base_frame && not (kind == r.peer_phase_kind)
          then record r { protocol_error = true }
          else record r {
            peer_phase_kind = kind;
            peer_phase_base_frame = p.phase_base_frame;
            peer_phase_ready = true;
            peer_phase_token = pack64 p.phase_base_frame kind;
          })
      else r
