-- ===== src/Timeline/Capture.antt =====
-- src/src/core_dll/sync/InputTimeline.cpp, `PumpTicksImpl` up to the publication of one frame.
use Prim.Native.Nat.{bit_or}
use cccaster_ver_b.Prelude.{
  ℕ, ◌-◌, ◌*◌, ◌%◌, Bool, true, false, not, ◌&&◌, ◌||◌, ltb, leb, ◌==◌, if◌then◌else◌, max, ◌/◌,
}
use cccaster_ver_b.Prelude.Int.{pos, ◌-ℤ◌, ltb_ℤ, leb_ℤ}
use cccaster_ver_b.Prelude.Table.{set_at}
use cccaster_ver_b.Prelude.Words.{add32, sub32}
use cccaster_ver_b.Timing.Pacing
use cccaster_ver_b.Timing.Pacing.{NetworkPacing}
use cccaster_ver_b.Scene.Input.{GameInput, pack, unpack}
use cccaster_ver_b.Scene.Gate
use cccaster_ver_b.Scene.Filter
use cccaster_ver_b.Scene.Filter.{GamePhase, FilterState}
use cccaster_ver_b.Sync.FrameSequence.{stride}
use cccaster_ver_b.Sync.MatchInput.{Buffer, ring_size, write_local, write_loading_input}
use cccaster_ver_b.Sync.Settings
use cccaster_ver_b.Sync.Settings.{SettingsCommands}
use cccaster_ver_b.Timeline.State.{
  CaptureTime, Timeline, World, Moment, is_loading, is_chara_select, is_in_game, is_rematch,
  set_frame_period, publish_schedule,
}

-- The notice of the other player is of this epoch and at most a quarter of a second old; the host,
-- loading and the selection of characters follow none.
unfoldable pub is_fresh : Moment → Timeline → Bool
is_fresh m t =
    not t.host
    && not (is_loading t.phase)
    && not (is_chara_select t.phase)
    && m.peer.base == t.base
    && ltb t.base m.peer.frame
    && ltb_ℤ (pos 0) m.peer.stamp_ticks
    && leb_ℤ m.peer.stamp_ticks m.now
    && ltb_ℤ (m.now -ℤ m.peer.stamp_ticks) (pos (250_000 * 60))

unfoldable pub is_peer_fresh : Moment → Timeline → Bool
is_peer_fresh m t =
    m.peer.base == t.base
    && ltb_ℤ (pos 0) m.peer.stamp_ticks
    && leb_ℤ m.peer.stamp_ticks m.now
    && ltb_ℤ (m.now -ℤ m.peer.stamp_ticks) (pos (1_000_000 * 60))

-- The host takes the longer of both requested periods, and the client takes the host's.
unfoldable pub chosen_period : Moment → Timeline → ℕ → ℕ
unfolding is_peer_fresh
chosen_period m t requested =
    if t.host
    then max requested (if is_peer_fresh m t then m.peer.requested_period_ticks else t.period_ticks)
    else if is_peer_fresh m t
    then m.peer.period_ticks
    else t.period_ticks

unfoldable pub adopt_period : Moment → World → World
unfolding chosen_period set_frame_period
adopt_period m w =
    let t = w.timeline in
    let pacing = Pacing.update t.pacing m.now m.mean_rtt w.settings.delay in
    let period = chosen_period m t pacing.requested in
    if is_in_game t.phase
    then record w {
      timeline = record t { pacing = pacing; period_ticks = period };
      metronome = set_frame_period w.metronome period;
    }
    else w

-- No frame is sampled over one that is not consumed, nor over the last ones that are sent again.
unfoldable pub is_full : Timeline → Bool
is_full t =
    not (is_loading t.phase)
    && (leb (ring_size - 32) (sub32 t.next t.consumed) || leb (add32 t.base (stride - 1)) t.next)

unfoldable pub stop_full : World → World
stop_full w =
    publish_schedule (record w { timeline = record w.timeline { overflow = true; active = false } })

-- A whole period late.
unfoldable pub missed : Moment → Timeline → Bool
missed m t = leb_ℤ (pos (t.period_ticks / m.scale)) (m.now -ℤ t.cadence.next)

-- A missed frame repeats the last input.
unfoldable pub raw_value : Moment → Timeline → ℕ
raw_value m t = if missed m t then t.last_value else m.polled t.next

unfoldable pub filter_value : GamePhase → FilterState → ℕ → ℕ × FilterState
filter_value phase f value = if is_rematch phase then (value, f) else Filter.apply phase f value

unfoldable pub add_command : GamePhase → SettingsCommands → ℕ → ℕ × SettingsCommands
add_command phase s value =
    if is_chara_select phase
    then (bit_or value (Settings.capture s).0, (Settings.capture s).1)
    else (value, s)

unfoldable pub write_input : GamePhase → Buffer → ℕ → ℕ → Buffer
write_input phase b frame value =
    if is_loading phase
    then write_loading_input b frame value
    else write_local b frame value 0 false

-- What is kept of the frame that is sampled.
unfoldable pub sample : Timeline → GameInput → CaptureTime
sample t menu_input = record {
  frame = t.next;
  due_ticks = t.cadence.next;
  error = t.phase_error;
  shift = t.phase_shift;
  theta = t.phase_theta;
  rtt = t.phase_rtt;
  phase_parts = t.phase_parts;
  rate_parts = t.rate_parts;
  revision = t.model_revision;
  ready = t.model_ready;
  menu_input = menu_input;
}

-- One frame is sampled and published.
unfoldable pub capture : Moment → World → World
unfolding raw_value missed filter_value add_command write_input sample
capture m w =
    let t = w.timeline in
    let raw = raw_value m t in
    let (gated, gate) = Gate.apply t.gate (unpack raw) (m.mapping t.next) in
    let (filtered, filter) = filter_value t.phase w.filter (pack gated) in
    let (value, settings) = add_command t.phase w.settings filtered in
    record w {
      timeline = record t {
        starting = false;
        last_value = raw;
        gate = gate;
        capture_times =
            set_at t.capture_times (t.next % ring_size) (sample t (unpack (pack gated)));
        phase_shift = pos 0;
        sampled = t.next;
        next = add32 t.next 1;
      };
      filter = filter;
      settings = settings;
      buffer = write_input t.phase w.buffer t.next value;
    }
