-- ===== src/Timeline/Steps/Word.antt =====
-- What a sampled frame is published with is a word.
use cccaster_ver_b.Prelude.{ℕ, ◌<◌, Bool, false, arith, Bool-cases, inl, inr}
use cccaster_ver_b.Prelude.Words.{u32_mod}
use cccaster_ver_b.Prelude.Masks.{bit_or-lt}
use cccaster_ver_b.Scene.Input.{GameInput, IsInput, pack, unpack}
use cccaster_ver_b.Scene.Gate
use cccaster_ver_b.Scene.Filter.{GamePhase, FilterState}
use cccaster_ver_b.Scene.Filter.Width.{apply-lt, unpack-IsInput, pack-lt}
use cccaster_ver_b.Sync.Settings
use cccaster_ver_b.Sync.Settings.{SettingsCommands}
use cccaster_ver_b.Timeline.State.{World, Moment, is_rematch, is_chara_select}
use cccaster_ver_b.Timeline.Capture.{raw_value, filter_value, add_command, capture}
use cccaster_ver_b.Timeline.Pump.{round}

-- The value that a sampled frame is published with.
abbrev pub gated : Moment → World → GameInput
gated m w =
    (Gate.apply w.timeline.gate (unpack (raw_value m w.timeline)) (m.mapping w.timeline.next)).0

abbrev pub published : Moment → World → ℕ
published m w =
    (add_command w.timeline.phase w.settings
      (filter_value w.timeline.phase w.filter (pack (gated m w))).0).0

gated-IsInput :
    (waits : Bool) (v : ℕ) (open_window : Bool)
    → IsInput (Gate.apply waits (unpack v) open_window).0
unfolding Gate.apply
gated-IsInput waits v open_window = ground (arith, unpack-IsInput v)

filter_value-lt :
    (phase : GamePhase) (f : FilterState) (i : GameInput)
    → IsInput i
    → (filter_value phase f (pack i)).0 < u32_mod
unfolding filter_value
filter_value-lt phase f i h = elim (Bool-cases (is_rematch phase)) [
  | inl rematch ↦ rw rematch (pack-lt i h)
  | inr other ↦ rw other (apply-lt phase f (pack i))
]

add_command-lt :
    (phase : GamePhase) (s : SettingsCommands) (v : ℕ)
    → s.queued < u32_mod
    → v < u32_mod
    → ((add_command phase s v).0 < u32_mod) × ((add_command phase s v).1.queued < u32_mod)
unfolding add_command Settings.capture
add_command-lt phase s v hs hv = elim (Bool-cases (is_chara_select phase)) [
  | inl yes' ↦ rw yes' (bit_or-lt 32 v s.queued hv hs, omega arith)
  | inr other ↦ rw other (hv, hs)
]

pub published-lt :
    (m : Moment) (w : World)
    → w.settings.queued < u32_mod
    → (published m w < u32_mod) × ((round m false w).settings.queued < u32_mod)
unfolding round capture
published-lt m w h =
    let g = gated-IsInput w.timeline.gate (raw_value m w.timeline) (m.mapping w.timeline.next) in
    let f = filter_value-lt w.timeline.phase w.filter (gated m w) g in
    add_command-lt w.timeline.phase w.settings
      (filter_value w.timeline.phase w.filter (pack (gated m w))).0 h f
