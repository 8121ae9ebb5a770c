-- ===== src/Network/Build.antt =====
-- src/src/core_dll/network/SyncCodec.cpp, `RepairWindowEnd`, `BuildPacketInto` and `BuildUnifiedPacket`:
-- the packet that a player sends. The name of the player and the chunks behind the payload are left
-- out.
pub mod Sent
use cccaster_ver_b.Prelude.{
  ◌≡◌, refl, ℕ, zero, suc, ◌+◌, ◌-◌, ◌*◌, ◌/◌, ◌%◌, ◌^◌, Bool, true, false, not, ◌&&◌, ◌||◌, Option,
  none, some, List, [], leb, ltb, ◌==◌, if◌then◌else◌, min,
}
use cccaster_ver_b.Prelude.Int.{ℤ, pos, ◌*ℤ◌, pos_part}
use cccaster_ver_b.Prelude.Table.{set_at}
use cccaster_ver_b.Prelude.Words.{high32}
use cccaster_ver_b.Sync.EpochStart.{EpochStart}
use cccaster_ver_b.Sync.FrameSequence.{stride}
use cccaster_ver_b.Sync.MatchInput.{Buffer, try_get_local_input}
use cccaster_ver_b.Sync.Selection.{SelectionState}
use cccaster_ver_b.Sync.Retry.{RetrySelection}
use cccaster_ver_b.Network.Packet.{
  Payload, Datagram, header_size, wire_version, wire_extension, pkt_sync_tick, flag_ready,
  flag_phase_ready, flag_present_rollback, flag_boss_characters, flag_loading_skip_current,
  flag_loading_skip_next,
}
use cccaster_ver_b.Network.Receiver.{InputSchedule, last_epoch}

-- What the codec reads for a packet: its own state, the shared state and the clock.
pub record Sender : Type 0 where
  pub is_host : Bool
  pub delay_frames : ℕ
  pub max_rollback : ℕ
  pub last_peer_t1 : ℤ
  pub last_peer_recv_ticks : ℤ
  pub local_phase_token : ℕ
  pub peer_consumed_frame : ℕ
  pub peer_phase_base_frame : ℕ
  pub retry_previous_frame : ℕ
  pub local_selection : SelectionState
  pub local_retry : RetrySelection
  pub local_epoch_start : EpochStart
  pub local_present_rollback : Bool
  pub local_boss_characters : Bool
  pub local_loading_skip_epoch : ℕ
  pub local_schedule : InputSchedule
  pub applied_frame : ℕ
  pub consumed_frame : ℕ
  pub local_seed_epoch : ℕ
  pub local_seed : List ℕ
  pub source_generation : ℕ
  pub time_ticks : ℤ
  pub buffer : Buffer

-- GamePhase::CharaSelect and GamePhase::Rematch.
abbrev pub chara_select : ℕ
chara_select = 2

abbrev pub rematch : ℕ
rematch = 5

abbrev pub phase_base : Sender → ℕ
phase_base s = high32 s.local_phase_token

abbrev pub phase_kind : Sender → ℕ
phase_kind s = s.local_phase_token % 256

-- The newest frame to send, so that the first one that the peer lacks stays in the window.
pub repair_window_end : Sender → ℕ → ℕ
repair_window_end s frame =
    let base = phase_base s in
    let ack = s.peer_consumed_frame in
    if base == 0 || ltb frame base
    then frame
    else min frame ((if leb base ack && ltb (ack - base) stride then ack else base) + 10)

-- No inputs are sent on the selection screen, and only the last ones of the battle on the
-- rematch screen.
pub frame_to_send : Sender → ℕ → Bool → ℕ
unfolding repair_window_end
frame_to_send s frame latest_input_window =
    let base = phase_base s in
    let selecting =
      if not (base == 0) && s.local_selection.epoch == base && phase_kind s == chara_select
      then 0
      else frame in
    let retrying =
      if not (base == 0) && s.local_retry.epoch == base && phase_kind s == rematch
      then (if ltb s.peer_phase_base_frame base then s.retry_previous_frame else 0)
      else selecting in
    if latest_input_window then retrying else repair_window_end s retrying

-- Takes the inputs of `rounds` frames, the index `i` first, up to the first one that is missing.
pub gather : ℕ → ℕ → Buffer → ℕ → (ℕ → ℕ) → ℕ × (ℕ → ℕ)
gather zero i b frame inputs = (i, inputs)
gather (suc rounds) i b frame inputs = elim (try_get_local_input b (frame - i)) [
  | none ↦ (i, inputs)
  | some v ↦ gather rounds (i + 1) b frame (set_at inputs i v)
]

-- The flags are different bits, so that `|=` is a sum.
pub flags_of : Sender → Bool → ℕ
flags_of s ready =
    let base = phase_base s in
    let skip = s.local_loading_skip_epoch in
    (if ready then flag_ready else 0)
    + (if s.local_present_rollback then flag_present_rollback else 0)
    + (if s.local_boss_characters then flag_boss_characters else 0)
    + (if s.local_phase_token == 0 then 0 else flag_phase_ready)
    + (if not (base == 0) && skip == base
        then flag_loading_skip_current
        else if not (base == 0) && ltb base last_epoch && skip == base + stride
        then flag_loading_skip_next
        else 0)

-- A guest sends no seed.
abbrev no_seed : List ℕ
no_seed = []

pub build_payload : Sender → ℕ → Bool → ℤ → Bool → Payload
unfolding frame_to_send gather flags_of ◌*ℤ◌
build_payload s frame ready start_time_us latest_input_window =
    let newest = frame_to_send s frame latest_input_window in
    let gathered = gather (min newest 10) 0 s.buffer newest (λ i. 0) in
    let scheduled = s.local_schedule.base == phase_base s in
    record {
      t_send = s.time_ticks;
      echo_t1 = s.last_peer_t1;
      echo_t2 = s.last_peer_recv_ticks;
      base_frame = newest;
      input_count = gathered.0;
      delay = s.delay_frames % 256;
      max_rollback = s.max_rollback % 256;
      flags = flags_of s ready;
      start_time_ticks = start_time_us *ℤ pos 60;
      phase_base_frame = phase_base s;
      inputs = gathered.1;
      seed_epoch = if s.is_host then s.local_seed_epoch else 0;
      seed = if s.is_host then s.local_seed else no_seed;
      consumed_frame = s.consumed_frame;
      applied_frame = s.applied_frame;
      next_capture_frame = if scheduled then s.local_schedule.frame else 0;
      next_capture_ticks = if scheduled then s.local_schedule.due_ticks else pos 0;
      selection = s.local_selection;
      epoch_start = s.local_epoch_start;
      retry = s.local_retry;
      clock_generation = s.source_generation;
      frame_period_ticks = if scheduled then s.local_schedule.period_ticks else 1_000_000;
      requested_period_ticks =
          if scheduled then s.local_schedule.requested_period_ticks else 1_000_000;
    }

abbrev pub header_byte : ℕ → ℤ → ℕ → ℕ
header_byte kind timestamp i =
    if i == 0 || i == 1
    then 0x43
    else if i == 2
    then 0x31
    else if i == 3
    then 0x30
    else if i == 4
    then kind
    else if i == 5
    then pkt_sync_tick
    else if i == 6
    then wire_version
    else if i == 7
    then wire_extension
    else if leb 8 i && ltb i 16
    then pos_part timestamp / 256 ^ (i - 8) % 256
    else 0

-- `payload_size` is the size of the packed structure.
pub build_packet : ℕ → Sender → ℕ → Bool → ℤ → Bool → Datagram
unfolding build_payload
build_packet payload_size s frame ready start_time_us latest_input_window = record {
  size = header_size + payload_size;
  header = header_byte (phase_kind s) s.time_ticks;
  payload = build_payload s frame ready start_time_us latest_input_window;
}

pub build_packet-payload :
    (size : ℕ) (s : Sender) (frame : ℕ) (ready : Bool) (start : ℤ) (latest : Bool)
    → (build_packet size s frame ready start latest).payload
      ≡ build_payload s frame ready start latest
unfolding build_packet
build_packet-payload size s frame ready start latest = refl
