-- ===== src/Scene/Filter/Width.antt =====
-- What passes the filter is an input of 32 bits.
use cccaster_ver_b.Prelude.{ℕ, ◌-◌, ◌≤◌, ◌<◌, ◌^◌, ltb, ◌&&◌, if_cases, arith, ◌+◌}
use cccaster_ver_b.Prelude.Masks.{bit_and-le}
use cccaster_ver_b.Scene.Input.{GameInput, IsInput, pack, unpack, pressed}
use cccaster_ver_b.Scene.Filter.{
  GamePhase, FilterState, apply, filter_phase, filter_menu, seal, guard_confirm, confirm_mask,
  cancel_mask, menu_escape_mask, confirm_guard_frames, dir_age,
}

seal-le : (since buttons : ℕ) → seal since buttons ≤ buttons
unfolding seal
seal-le since buttons = ground (arith, bit_and-le buttons (0xffff - (confirm_mask + cancel_mask)))

guard_confirm-le : (since buttons : ℕ) → guard_confirm since buttons ≤ buttons
unfolding guard_confirm
guard_confirm-le since buttons =
    if_cases (λ b. b ≤ buttons) (pressed buttons confirm_mask && ltb since confirm_guard_frames)
      (bit_and-le buttons (0xffff - confirm_mask)) (omega arith)

filter_menu-IsInput : (s : FilterState) (i : GameInput) → IsInput i → IsInput (filter_menu s i).0
unfolding filter_menu
filter_menu-IsInput s i h =
    let sealed = seal (dir_age s i.direction) i.buttons in
    omega (
      arith,
      seal-le (dir_age s i.direction) i.buttons,
      guard_confirm-le s.since_confirm_taken sealed,
    )

filter_phase-IsInput :
    (phase : GamePhase) (s : FilterState) (i : GameInput)
    → IsInput i
    → IsInput (filter_phase phase s i).0
unfolding filter_phase
filter_phase-IsInput GamePhase.chara_select s i h = filter_menu-IsInput s i h
filter_phase-IsInput GamePhase.rematch s i h = filter_menu-IsInput s i h
filter_phase-IsInput GamePhase.in_game s i h =
    omega (arith, bit_and-le i.buttons (0xffff - menu_escape_mask))
filter_phase-IsInput GamePhase.unknown s i h = h
filter_phase-IsInput GamePhase.main_menu s i h = h
filter_phase-IsInput GamePhase.loading s i h = h

pub pack-lt : (i : GameInput) → IsInput i → pack i < 2 ^ 32
unfolding pack
pack-lt i h = omega arith

pub unpack-IsInput : (v : ℕ) → IsInput (unpack v)
unfolding unpack
unpack-IsInput v = omega arith

pub apply-lt : (phase : GamePhase) (s : FilterState) (v : ℕ) → (apply phase s v).0 < 2 ^ 32
unfolding apply
apply-lt phase s v =
    let i = (filter_phase phase s (unpack v)).0 in
    pack-lt i (filter_phase-IsInput phase s (unpack v) (unpack-IsInput v))
