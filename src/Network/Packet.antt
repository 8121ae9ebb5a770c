-- ===== src/Network/Packet.antt =====
-- src/src/core_dll/network/SyncCodec.cpp and SyncCodec.hpp: the one kind of packet of a session. The
-- fields of the payload are those that `memcpy` reads from the packed structure; a packet keeps its
-- header as bytes. The name of the player and the chunks behind the payload are left out.
use cccaster_ver_b.Prelude.{
  ℕ, zero, suc, ◌+◌, ◌*◌, ◌/◌, ◌%◌, Bool, true, ◌&&◌, ◌||◌, List, leb, ◌==◌, if◌then◌else◌,
}
use cccaster_ver_b.Prelude.Int.{ℤ, pos, leb_ℤ}
use cccaster_ver_b.Sync.EpochStart.{EpochStart}
use cccaster_ver_b.Sync.Selection.{SelectionState}
use cccaster_ver_b.Sync.Retry.{RetrySelection}
use cccaster_ver_b.Timing.Pacing

pub record Payload : Type 0 where
  pub t_send : ℤ
  pub echo_t1 : ℤ
  pub echo_t2 : ℤ
  pub base_frame : ℕ
  pub input_count : ℕ
  pub delay : ℕ
  pub max_rollback : ℕ
  pub flags : ℕ
  pub start_time_ticks : ℤ
  pub phase_base_frame : ℕ
  -- The newest input stands first: `inputs i` is that of the frame `base_frame - i`.
  pub inputs : ℕ → ℕ
  pub seed_epoch : ℕ
  pub seed : List ℕ
  pub consumed_frame : ℕ
  pub applied_frame : ℕ
  pub next_capture_frame : ℕ
  pub next_capture_ticks : ℤ
  pub selection : SelectionState
  pub epoch_start : EpochStart
  pub retry : RetrySelection
  pub clock_generation : ℕ
  pub frame_period_ticks : ℕ
  pub requested_period_ticks : ℕ

-- `size` counts all bytes, `header` the first 20 of them.
pub record Datagram : Type 0 where
  pub size : ℕ
  pub header : ℕ → ℕ
  pub payload : Payload

abbrev pub header_size : ℕ
header_size = 20

-- The bytes "CC10", as a little-endian number.
abbrev pub cc10_magic : ℕ
cc10_magic = 0x30314343

abbrev pub wire_version : ℕ
wire_version = 10

abbrev pub wire_extension : ℕ
wire_extension = 8

abbrev pub pkt_sync_tick : ℕ
pkt_sync_tick = 0x30

abbrev pub flag_ready : ℕ
flag_ready = 0x01

abbrev pub flag_phase_ready : ℕ
flag_phase_ready = 0x02

abbrev pub flag_loading_skip_current : ℕ
flag_loading_skip_current = 0x04

abbrev pub flag_loading_skip_next : ℕ
flag_loading_skip_next = 0x08

abbrev pub flag_present_rollback : ℕ
flag_present_rollback = 0x10

abbrev pub flag_boss_characters : ℕ
flag_boss_characters = 0x20

-- `flags & flag`, for a single bit.
abbrev pub has_flag : Payload → ℕ → Bool
has_flag p flag = p.flags / flag % 2 == 1

abbrev pub magic_of : Datagram → ℕ
magic_of d = d.header 0 + 256 * (d.header 1 + 256 * (d.header 2 + 256 * d.header 3))

-- The bytes of the message that closes a session.
abbrev close_byte : ℕ → ℕ
close_byte i =
    if i == 0 || i == 1
    then 0x43
    else if i == 2
    then 0x31
    else if i == 3
    then 0x30
    else if i == 5
    then 0x31
    else if i == 6
    then wire_version
    else 0

all_equal : ℕ → (ℕ → ℕ) → Bool
all_equal zero bytes = true
all_equal (suc n) bytes = bytes n == close_byte n && all_equal n bytes

pub is_session_close_packet : Datagram → Bool
unfolding all_equal
is_session_close_packet d = d.size == header_size && all_equal header_size d.header

-- 0 is allowed: not set.
abbrev pub valid_time : ℤ → Bool
valid_time t = leb_ℤ (pos 0) t && leb_ℤ t (pos 0x1fff_ffff_ffff_ffff)

-- The times and periods are in their ranges.
pub times_valid : Payload → ℤ → Bool
times_valid p receive_time =
    valid_time receive_time
    && valid_time p.t_send
    && valid_time p.echo_t1
    && valid_time p.echo_t2
    && valid_time p.next_capture_ticks
    && valid_time p.start_time_ticks
    && valid_time p.epoch_start.host_ticks
    && Pacing.valid p.frame_period_ticks
    && Pacing.valid p.requested_period_ticks

-- No more inputs than the field holds, nor than there are frames.
unfoldable pub inputs_valid : Payload → Bool
inputs_valid p = leb p.input_count 10 && leb p.input_count p.base_frame
