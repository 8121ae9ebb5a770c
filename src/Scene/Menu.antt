-- ===== src/Scene/Menu.antt =====
-- src/src/core_dll/engine/SelectionOptions.hpp: the menu of options on the selection screen.
pub mod Block
use cccaster_ver_b.Prelude.{
  ℕ, ◌+◌, ◌/◌, ◌%◌, Bool, true, false, not, ◌&&◌, ◌||◌, leb, ◌==◌, if◌then◌else◌, ◌-◌,
}
use cccaster_ver_b.Prelude.Int.{ℤ, pos, negsuc, eqb_ℤ}
use cccaster_ver_b.Scene.Input.{
  GameInput, neutral, is_neutral, pressed, without, button_a, button_b, button_start,
  button_confirm, button_cancel,
}

-- The bits of an action.
abbrev pub toggle : ℕ
toggle = 1

abbrev pub close : ℕ
close = 2

abbrev pub up : ℕ
up = 4

abbrev pub down : ℕ
down = 8

abbrev pub left : ℕ
left = 16

abbrev pub right : ℕ
right = 32

abbrev pub has : ℕ → ℕ → Bool
has action bit = action / bit % 2 == 1

-- For `animation` and `fullscreen`, -1 is no change.
pub record Result : Type 0 where
  pub block : Bool
  pub delay_step : ℤ
  pub animation : ℤ
  pub hud_step : ℤ
  pub resolution_step : ℤ
  pub fullscreen : ℤ
  pub native_step : ℤ

abbrev pub plain : Bool → Result
plain block = record {
  block = block;
  delay_step = pos 0;
  animation = negsuc 0;
  hud_step = pos 0;
  resolution_step = pos 0;
  fullscreen = negsuc 0;
  native_step = pos 0;
}

pub record Menu : Type 0 where
  pub previous : GameInput
  pub release : Bool
  pub is_open : Bool
  pub row : ℕ

abbrev pub row_count : ℕ
row_count = 9

pub reset : Menu
reset = record { previous = neutral; release = false; is_open = false; row = 0 }

-- What stays as it is outside the menu.
pub record Surroundings : Type 0 where
  pub available : Bool
  pub mapping : Bool
  pub delay_editable : Bool
  pub animation_on : Bool
  pub is_fullscreen : Bool

abbrev sign : Bool → ℤ
sign forward = if forward then pos 1 else negsuc 0

-- What left and right do in a row.
pub turn : Result → Surroundings → ℕ → Bool → Result
turn result around row forward =
    if row == 0
    then (if around.delay_editable then record result { delay_step = sign forward } else result)
    else if row == 1
    then record result { animation = if forward then pos 1 else pos 0 }
    else if row == 2
    then record result { hud_step = sign forward }
    else if row == 3
    then record result { resolution_step = sign forward }
    else if row == 4
    then record result { fullscreen = if forward then pos 1 else pos 0 }
    else record result { native_step = sign forward }

abbrev or_one : ℤ → ℤ
or_one step = if eqb_ℤ step (pos 0) then pos 1 else step

-- What the button of confirmation does in a row.
pub confirm : Result → Surroundings → ℕ → Result
confirm result around row =
    if row == 0
    then result
    else if row == 1
    then record result { animation = if around.animation_on then pos 0 else pos 1 }
    else if row == 2
    then record result { hud_step = or_one result.hud_step }
    else if row == 3
    then record result { resolution_step = or_one result.resolution_step }
    else if row == 4
    then record result { fullscreen = if around.is_fullscreen then pos 0 else pos 1 }
    else record result { native_step = or_one result.native_step }

-- The newly pressed buttons and the new direction, 0 if it is the old one.
abbrev pub fresh_buttons : Menu → GameInput → ℕ
fresh_buttons m input = without input.buttons m.previous.buttons

abbrev pub fresh_direction : Menu → GameInput → ℕ
fresh_direction m input = if input.direction == m.previous.direction then 0 else input.direction

abbrev pub next_row : ℕ → Bool → Bool → ℕ
next_row row goes_up goes_down =
    if goes_up && not goes_down
    then (row + (row_count - 1)) % row_count
    else if goes_down && not goes_up
    then (row + 1) % row_count
    else row

-- The part of a step with the menu open; `m` still has the previous input.
pub step_open : Menu → GameInput → ℕ → Surroundings → Result × Menu
unfolding turn confirm
step_open m input action around =
    let m' = record m { previous = input; release = true } in
    let buttons = fresh_buttons m input in
    let direction = fresh_direction m input in
    let row =
      next_row m.row (has action up || direction == 8) (has action down || direction == 2) in
    let to_left = has action left || direction == 4 in
    let to_right = has action right || direction == 6 in
    let turned =
      if (to_left && not to_right) || (to_right && not to_left)
      then turn (plain true) around row to_right
      else plain true in
    if has action close || pressed buttons (button_b + button_cancel)
    then (plain true, record m' { is_open = false })
    else (
      if pressed buttons (button_a + button_confirm) then confirm turned around row else turned,
      record m' { row = row },
    )

-- A closed menu holds the input back until all is released.
unfoldable pub step_closed : Menu → GameInput → Result × Menu
step_closed m input =
    let m' = record m { previous = input } in
    if m.release
    then (plain true, if is_neutral input then record m' { release = false } else m')
    else (plain false, m')

unfoldable pub step : Menu → GameInput → ℕ → Surroundings → Result × Menu
unfolding step_open step_closed
step m input action around =
    if not around.available || around.mapping
    then step_closed (record m { release = m.release || m.is_open; is_open = false }) input
    else if has action toggle || pressed (fresh_buttons m input) button_start
    then (plain true, record m { previous = input; is_open = not m.is_open; release = true })
    else if m.is_open
    then step_open m input action around
    else step_closed m input
