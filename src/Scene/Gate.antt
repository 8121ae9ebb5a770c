-- ===== src/Scene/Gate.antt =====
-- src/src/core_dll/engine/LocalInputGate.hpp and RetryInputGate.hpp: what a menu holds back from the game.
pub mod Release
use Prim.Native.Nat.{bit_and, bit_or}
use cccaster_ver_b.Prelude.{
  ℕ, ◌+◌, Bool, true, false, not, ◌&&◌, ◌||◌, ltb, leb, ◌==◌, if◌then◌else◌,
}
use cccaster_ver_b.Scene.Input.{GameInput, neutral, is_neutral, pressed, button_a, button_confirm}

-- The gate's flag: it waits until everything is released.
unfoldable pub apply : Bool → GameInput → Bool → GameInput × Bool
apply waits input configuring =
    if configuring
    then (neutral, true)
    else if waits
    then (neutral, not (is_neutral input))
    else (input, false)

pub record RetryGate : Type 0 where
  pub waits : Bool
  pub opening : ℕ
  pub settled : ℕ

pub initial : RetryGate
initial = record { waits = false; opening = 0; settled = 0 }

abbrev pub is_vertical : ℕ → Bool
is_vertical direction = (leb 1 direction && leb direction 3) || (leb 7 direction && leb direction 9)

pub next_settled : ℕ → ℕ → Bool → ℕ
next_settled settled direction vertical =
    if vertical then 0 else if ltb settled 3 then settled + 1 else settled

-- The buttons that pass: A and confirm, once the cursor has settled; A confirms as well.
pub menu_buttons : ℕ → ℕ → ℕ
menu_buttons settled buttons =
    let kept = bit_and buttons (button_a + button_confirm) in
    let allowed = if ltb settled 3 then 0 else kept in
    if pressed allowed button_a then bit_or allowed button_confirm else allowed

pub retry_apply : RetryGate → GameInput → GameInput × RetryGate
unfolding apply next_settled menu_buttons
retry_apply g raw =
    let opening = g.opening + 1 in
    let (input, waits) = apply g.waits raw (leb opening 30) in
    let settled = next_settled g.settled input.direction (is_vertical input.direction) in
    (
      record input { buttons = menu_buttons settled input.buttons },
      record { waits = waits; opening = opening; settled = settled },
    )
