-- ===== src/Scene/InputDelay.antt =====
-- src/src/core_dll/engine/TrainingInputDelay.hpp and LocalInputHistory.hpp: inputs of the training
-- mode, held back for some frames, and the last inputs by frame.
pub mod Lag
use cccaster_ver_b.Prelude.{
  ℕ, zero, suc, ◌+◌, ◌%◌, Bool, true, false, not, ◌&&◌, ◌||◌, Option, none, some, leb, ltb, ◌==◌,
  if◌then◌else◌,
}
use cccaster_ver_b.Prelude.Int.{ℤ, pos, negsuc, ltb_ℤ, eqb_ℤ, pos_part}
use cccaster_ver_b.Prelude.Table.{set_at}
use cccaster_ver_b.Prelude.Words.{add32}
use cccaster_ver_b.Scene.Input.{
  GameInput, neutral, pack, pressed, button_start, button_fn1, button_fn2,
}
use cccaster_ver_b.Sync.Settings.{max_delay}

abbrev pub Pair : Type 0
Pair = GameInput × GameInput

abbrev pub no_inputs : Pair
no_inputs = (neutral, neutral)

pub record TrainingInputDelay : Type 0 where
  pub history : ℕ → Pair
  pub cursor : ℕ
  pub delay : ℤ

abbrev pub clear : TrainingInputDelay → TrainingInputDelay
clear t = record t { history = λ i. no_inputs; cursor = 0 }

abbrev pub controls : ℕ
controls = button_start + button_fn1 + button_fn2

-- A delay out of range is none; a new one starts with an empty history.
pub set_delay : TrainingInputDelay → ℤ → TrainingInputDelay
set_delay t delay =
    let d = if ltb_ℤ delay (pos 0) || ltb_ℤ (pos max_delay) delay then pos 0 else delay in
    if eqb_ℤ d t.delay then t else record (clear t) { delay = d }

pub apply : TrainingInputDelay → GameInput → GameInput → ℤ → Bool → Pair × TrainingInputDelay
unfolding set_delay
apply t p1 p2 delay active =
    let t' = set_delay t delay in
    if not active || pressed p1.buttons controls || pressed p2.buttons controls
    then ((p1, p2), clear t')
    else if eqb_ℤ t'.delay (pos 0)
    then ((p1, p2), t')
    else (
      t'.history t'.cursor,
      record t' {
        history = set_at t'.history t'.cursor (p1, p2);
        cursor = (t'.cursor + 1) % pos_part t'.delay;
      },
    )

pub record HistoryEntry : Type 0 where
  pub frame : ℕ
  pub first : ℕ
  pub second : ℕ

abbrev pub no_entry : HistoryEntry
no_entry = record { frame = 0; first = 0; second = 0 }

-- LocalInputHistory: four entries.
abbrev pub LocalInputHistory : Type 0
LocalInputHistory = ℕ → HistoryEntry

abbrev pub cleared : LocalInputHistory
cleared = λ i. no_entry

pub publish : LocalInputHistory → ℕ → GameInput → GameInput → LocalInputHistory
publish h frame p1 p2 =
    set_at h (frame % 4) (record { frame = frame; first = pack p1; second = pack p2 })

-- The input of a simulated frame is the one sampled in the next frame.
pub read : LocalInputHistory → ℕ → ℕ → Option ℕ
read h simulation_frame player =
    let source = add32 simulation_frame 1 in
    let entry = h (source % 4) in
    if ltb 1 player || not (entry.frame == source)
    then none
    else some (if player == 0 then entry.first else entry.second)

pub eligible : ℕ → Bool → Bool → Bool → Bool → Bool → Bool → ℕ → Bool
eligible mode live_battle paused configuring holding replacing_state playback_or_recording buttons =
    (mode == 1 || mode == 5)
    && live_battle
    && not paused
    && not configuring
    && not holding
    && not replacing_state
    && not playback_or_recording
    && not (pressed buttons controls)
