-- ===== src/Scene/Rematch.antt =====
-- src/src/core_dll/engine/RematchChoice.hpp: the rematch menu of the game without a menu of its own.
pub mod Decision
use cccaster_ver_b.Prelude.{
  ℕ, ◌+◌, Bool, true, false, not, ◌&&◌, ◌||◌, leb, ltb, ◌==◌, if◌then◌else◌,
}
use cccaster_ver_b.Prelude.Int.{ℤ, pos, negsuc, ltb_ℤ, leb_ℤ, eqb_ℤ}
use cccaster_ver_b.Prelude.Words.{add32}
use Prim.Native.Nat.{bit_and}
use cccaster_ver_b.Scene.Input.{GameInput, button_a, button_confirm}

pub record Player : Type 0 where
  pub cursor : ℕ
  -- -1 is undecided.
  pub choice : ℤ
  pub released : Bool
  pub buttons : ℕ
  pub vertical : ℤ

pub record RematchChoice : Type 0 where
  pub p1 : Player
  pub p2 : Player
  pub result : ℤ
  pub opening_frames : ℕ

abbrev fresh : Player
fresh = record { cursor = 0; choice = negsuc 0; released = false; buttons = 0; vertical = pos 0 }

pub reset : RematchChoice
reset = record { p1 = fresh; p2 = fresh; result = negsuc 0; opening_frames = 0 }

abbrev pub confirm_of : GameInput → ℕ
confirm_of i = bit_and i.buttons (button_a + button_confirm)

abbrev pub vertical_of : GameInput → ℤ
vertical_of i =
    if leb 1 i.direction && leb i.direction 3
    then pos 1
    else if leb 7 i.direction && leb i.direction 9
    then negsuc 0
    else pos 0

-- The player's cursor and choice, while there is no choice.
pub choose : Player → ℕ → ℤ → Player
choose p confirm vertical =
    let moved =
      if not (eqb_ℤ vertical (pos 0)) && not (eqb_ℤ vertical p.vertical)
      then record p { cursor = if ltb_ℤ (pos 0) vertical then 1 else 0 }
      else p in
    if ltb_ℤ p.choice (pos 0)
    then (if p.released && not (confirm == 0) && p.buttons == 0 && eqb_ℤ vertical (pos 0)
        then record moved { choice = pos moved.cursor }
        else moved)
    else p

-- In the first 30 frames a button held from the battle is only watched.
pub step_player : Player → Bool → GameInput → Player
unfolding choose
step_player p opening input =
    let confirm = confirm_of input in
    let vertical = vertical_of input in
    if opening
    then record p { released = confirm == 0; buttons = confirm; vertical = vertical }
    else record (choose (record p { released = p.released || confirm == 0 }) confirm vertical) {
      buttons = confirm;
      vertical = vertical;
    }

abbrev pub decided : ℤ → ℤ → ℤ → ℤ
decided a b result =
    if eqb_ℤ a (pos 1) || eqb_ℤ b (pos 1)
    then pos 1
    else if eqb_ℤ a (pos 0) && eqb_ℤ b (pos 0)
    then pos 0
    else result

pub step : RematchChoice → GameInput → GameInput → RematchChoice
unfolding step_player
step r i1 i2 =
    let opening = leb (add32 r.opening_frames 1) 30 in
    let p1 = step_player r.p1 opening i1 in
    let p2 = step_player r.p2 opening i2 in
    if leb_ℤ (pos 0) r.result then r else record {
      p1 = p1;
      p2 = p2;
      result = decided p1.choice p2.choice r.result;
      opening_frames = add32 r.opening_frames 1;
    }
