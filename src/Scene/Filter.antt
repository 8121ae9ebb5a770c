-- ===== src/Scene/Filter.antt =====
-- src/src/core_dll/engine/SceneInputFilter.cpp with src/src/core_dll/mbaa_mem/GamePhase.hpp: what the local
-- input may carry on each screen, before it is sent.
pub mod Guard
pub mod Width
use cccaster_ver_b.Prelude.{ℕ, ◌+◌, Bool, true, false, not, ◌&&◌, ltb, leb, ◌==◌, if◌then◌else◌}
use cccaster_ver_b.Scene.Input.{
  GameInput, pack, unpack, pressed, without, button_a, button_b, button_start, button_fn1,
  button_fn2, button_confirm, button_cancel,
}

pub data GamePhase : Type 0 where
  unknown main_menu chara_select loading in_game rematch : GamePhase

abbrev pub confirm_mask : ℕ
confirm_mask = button_a + button_confirm

abbrev pub cancel_mask : ℕ
cancel_mask = button_b + button_cancel

abbrev pub menu_escape_mask : ℕ
menu_escape_mask = button_start + button_fn1 + button_fn2

abbrev pub dir_seal_frames : ℕ
dir_seal_frames = 2

abbrev pub confirm_guard_frames : ℕ
confirm_guard_frames = 3

abbrev pub long_ago : ℕ
long_ago = 1_000_000

pub record FilterState : Type 0 where
  pub prev_direction : ℕ
  pub since_dir_change : ℕ
  pub since_confirm_taken : ℕ

pub reset : FilterState
reset = record { prev_direction = 0; since_dir_change = long_ago; since_confirm_taken = long_ago }

pub age : ℕ → ℕ
age counter = if ltb counter long_ago then counter + 1 else counter

-- The cursor moves: a return to neutral is no move.
abbrev pub moved : FilterState → ℕ → Bool
moved s direction = not (direction == s.prev_direction) && not (direction == 0)

abbrev pub dir_age : FilterState → ℕ → ℕ
dir_age s direction = if moved s direction then 0 else s.since_dir_change

-- Just after a move nothing is confirmed or cancelled.
pub seal : ℕ → ℕ → ℕ
seal since buttons =
    if ltb since dir_seal_frames then without buttons (confirm_mask + cancel_mask) else buttons

-- A confirmation soon after one that was taken is dropped.
pub guard_confirm : ℕ → ℕ → ℕ
guard_confirm since buttons =
    if pressed buttons confirm_mask && ltb since confirm_guard_frames
    then without buttons confirm_mask
    else buttons

pub next_taken : ℕ → ℕ → ℕ
next_taken since buttons =
    if pressed buttons confirm_mask && not (ltb since confirm_guard_frames) then 0 else since

pub filter_menu : FilterState → GameInput → GameInput × FilterState
filter_menu s input =
    let since = dir_age s input.direction in
    let sealed = seal since input.buttons in
    (
      record input { buttons = guard_confirm s.since_confirm_taken sealed },
      record {
        prev_direction = input.direction;
        since_dir_change = since;
        since_confirm_taken = next_taken s.since_confirm_taken sealed;
      },
    )

pub filter_phase : GamePhase → FilterState → GameInput → GameInput × FilterState
unfolding filter_menu
filter_phase GamePhase.chara_select s input = filter_menu s input
filter_phase GamePhase.rematch s input = filter_menu s input
filter_phase GamePhase.in_game s input =
    (record input { buttons = without input.buttons menu_escape_mask }, s)
filter_phase _ s input = (input, s)

pub apply : GamePhase → FilterState → ℕ → ℕ × FilterState
unfolding filter_phase age
apply phase s input =
    let (out, s') = filter_phase phase s (unpack input) in
    (
      pack out,
      record s' {
        since_dir_change = age s'.since_dir_change;
        since_confirm_taken = age s'.since_confirm_taken;
      },
    )
