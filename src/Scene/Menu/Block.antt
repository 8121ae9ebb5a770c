-- ===== src/Scene/Menu/Block.antt =====
-- What the menu keeps from the game.
use cccaster_ver_b.Prelude.{
  ℕ, ◌+◌, ◌≡◌, Bool, true, false, not, ◌&&◌, ◌||◌, ◌==◌, if◌then◌else◌, if_cases, refl, ◌∙◌, ◌⊎◌,
  arith, Bool-cases, inl, inr, ◌⊎◌,
}
use cccaster_ver_b.Scene.Input.{
  GameInput, pressed, button_start, button_a, button_b, button_cancel, button_confirm,
}
use cccaster_ver_b.Scene.Menu.{
  Menu, Result, Surroundings, step, step_open, step_closed, turn, confirm, plain, has, toggle,
  close, up, down, left, right, fresh_buttons, fresh_direction, next_row,
}

-- An input that passes leaves a closed menu that waits for nothing.
Sound : Result × Menu → Type 0
Sound x = (x.0.block ≡ true) ⊎ ((x.1.is_open ≡ false) × (x.1.release ≡ false))

turn-block :
    (r : Result) (s : Surroundings) (row : ℕ) (forward : Bool)
    → (turn r s row forward).block ≡ r.block
unfolding turn
turn-block r s row forward = ground arith

confirm-block : (r : Result) (s : Surroundings) (row : ℕ) → (confirm r s row).block ≡ r.block
unfolding confirm
confirm-block r s row = ground arith

Blocks : Result → Type 0
Blocks r = r.block ≡ true

Blocks-Sound : (r : Result) (m : Menu) → Blocks r → Sound (r, m)
unfolding Blocks Sound
Blocks-Sound r m h = inl h

plain-Blocks : Blocks (plain true)
unfolding Blocks
plain-Blocks = refl

turn-Blocks :
    (r : Result) (s : Surroundings) (row : ℕ) (forward : Bool)
    → Blocks r
    → Blocks (turn r s row forward)
unfolding Blocks
turn-Blocks r s row forward h = turn-block r s row forward ∙ h

confirm-Blocks : (r : Result) (s : Surroundings) (row : ℕ) → Blocks r → Blocks (confirm r s row)
unfolding Blocks
confirm-Blocks r s row h = confirm-block r s row ∙ h

step_closed-Sound : (m : Menu) (i : GameInput) → m.is_open ≡ false → Sound (step_closed m i)
unfolding step_closed Sound
step_closed-Sound m i h = elim (Bool-cases m.release) [
  | inl held ↦ rw (held, step_closed) (inl refl)
  | inr free ↦ rw (free, step_closed) (inr (h, refl))
]

step_open-Sound :
    (m : Menu) (i : GameInput) (action : ℕ) (s : Surroundings) → Sound (step_open m i action s)
unfolding step_open
step_open-Sound m i action s =
    let buttons = fresh_buttons m i in
    let direction = fresh_direction m i in
    let to_left = has action left || direction == 4 in
    let to_right = has action right || direction == 6 in
    let row =
      next_row m.row (has action up || direction == 8) (has action down || direction == 2) in
    let turned =
      if_cases Blocks ((to_left && not to_right) || (to_right && not to_left))
        (turn-Blocks (plain true) s row to_right plain-Blocks) plain-Blocks in
    if_cases Sound (has action close || pressed buttons (button_b + button_cancel))
      (Blocks-Sound (plain true) _ plain-Blocks)
      (Blocks-Sound _ _ (
        if_cases Blocks (pressed buttons (button_a + button_confirm))
          (confirm-Blocks _ s row turned) turned))

either :
    (b : Bool) (x y : Result × Menu)
    → (b ≡ true → Sound x)
    → (b ≡ false → Sound y)
    → Sound (if b then x else y)
either true x y p q = p refl
either false x y p q = q refl

step-Sound : (m : Menu) (i : GameInput) (action : ℕ) (s : Surroundings) → Sound (step m i action s)
unfolding step
step-Sound m i action s =
    if_cases Sound (not s.available || s.mapping)
      (step_closed-Sound (record m { release = m.release || m.is_open; is_open = false }) i refl)
      (if_cases Sound (has action toggle || pressed (fresh_buttons m i) button_start)
        (Blocks-Sound (plain true) _ plain-Blocks)
        (either m.is_open _ _ (λ h. step_open-Sound m i action s) (λ h. step_closed-Sound m i h)))

-- In any state, for any input and action: an input that the menu lets through to the game leaves
-- the menu closed, with no wait for the release of the buttons left over.
pub step-passes :
    (m : Menu) (i : GameInput) (action : ℕ) (s : Surroundings)
    → (step m i action s).0.block ≡ false
    → ((step m i action s).1.is_open ≡ false) × ((step m i action s).1.release ≡ false)
unfolding Sound
step-passes m i action s h = elim (step-Sound m i action s) [ inl b ↦ cc | inr c ↦ c ]
