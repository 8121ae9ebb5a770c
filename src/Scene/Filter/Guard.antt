-- ===== src/Scene/Filter/Guard.antt =====
-- What the filter keeps away from the game.
use Prim.Native.Nat.{bit_and}
use cccaster_ver_b.Prelude.{
  ℕ, ◌+◌, ◌-◌, ◌≤◌, ◌<◌, ◌≡◌, refl, Bool, true, false, not, List, [], ◌∷◌, ◌&&◌, ltb, if◌then◌else◌,
  arith, min, Bool-cases, inl, inr, ◌∙◌, ap, lt→ltb,
}
use cccaster_ver_b.Prelude.Masks.{bit_and_assoc, bit_and-zero}
use cccaster_ver_b.Scene.Input.{GameInput, pressed}
use cccaster_ver_b.Scene.Filter.{
  FilterState, GamePhase, confirm_mask, cancel_mask, menu_escape_mask, dir_seal_frames,
  confirm_guard_frames, reset, age, dir_age, seal, guard_confirm, next_taken, filter_menu,
  filter_phase,
}

unseen : (x keep seen : ℕ) → bit_and keep seen ≡ 0 → bit_and (bit_and x keep) seen ≡ 0
unseen x keep seen e = bit_and_assoc x keep seen ∙ ap (bit_and x) e ∙ bit_and-zero x

-- On the battle screen no button that opens a menu passes.
pub in_game-no_escape :
    (s : FilterState) (input : GameInput)
    → pressed (filter_phase GamePhase.in_game s input).0.buttons menu_escape_mask ≡ false
unfolding filter_phase
in_game-no_escape s input =
    rw (unseen input.buttons (0xffff - menu_escape_mask) menu_escape_mask refl)

-- While fewer than 2 frames have passed since the direction changed, no button that confirms or
-- cancels passes, whatever is pressed.
pub sealed-unseen :
    (since b : ℕ)
    → since < dir_seal_frames
    → pressed (seal since b) (confirm_mask + cancel_mask) ≡ false
unfolding seal
sealed-unseen since b h = rw (
  lt→ltb since dir_seal_frames h,
  unseen b (0xffff - (confirm_mask + cancel_mask)) (confirm_mask + cancel_mask) refl,
)

-- A confirmation passes exactly if it is pressed and the last one taken is long enough ago.
pub guard-passes :
    (since b : ℕ)
    → pressed (guard_confirm since b) confirm_mask
      ≡ (pressed b confirm_mask && not (ltb since confirm_guard_frames))
unfolding guard_confirm
guard-passes since b = elim (Bool-cases (pressed b confirm_mask)) [
  | inr up ↦ rw (up, guard_confirm) up
  | inl down ↦ elim (Bool-cases (ltb since confirm_guard_frames)) [
    | inr late ↦ rw (down, late, guard_confirm) down
    | inl soon ↦
        rw (down, soon, guard_confirm) (rw (unseen b (0xffff - confirm_mask) confirm_mask refl))
  ]
]

-- The state after the counters have aged.
pub aged : FilterState → FilterState
aged s = record s {
  since_dir_change = age s.since_dir_change;
  since_confirm_taken = age s.since_confirm_taken;
}

-- Which frames confirm, over a run of frames on a selection screen.
pub confirms : FilterState → List GameInput → List Bool
confirms s [] = []
confirms s (input ∷ rest) =
    pressed (filter_menu s input).0.buttons confirm_mask
    ∷ confirms (aged (filter_menu s input).1) rest

-- At least three frames from one confirmation to the next, `gap` frames after the last.
abbrev pub Spaced : ℕ → List Bool → Type 0
Spaced gap [] = Unit {0}
Spaced gap (true ∷ rest) = (confirm_guard_frames ≤ gap) × Spaced 1 rest
Spaced gap (false ∷ rest) = Spaced (gap + 1) rest

taken-age :
    (s : FilterState) (input : GameInput)
    → (aged (filter_menu s input).1).since_confirm_taken
      ≡ age (
          if pressed (filter_menu s input).0.buttons confirm_mask then 0 else s.since_confirm_taken)
unfolding filter_menu next_taken aged
taken-age s input =
    let b = seal (dir_age s input.direction) input.buttons in
    rw (guard-passes s.since_confirm_taken b) refl

passes_late :
    (s : FilterState) (input : GameInput)
    → pressed (filter_menu s input).0.buttons confirm_mask ≡ true
    → confirm_guard_frames ≤ s.since_confirm_taken
unfolding filter_menu
passes_late s input h =
    let b = seal (dir_age s input.direction) input.buttons in
    late s.since_confirm_taken (pressed b confirm_mask)
      (rw (guard-passes s.since_confirm_taken b) at h)
  where
    late :
        (since : ℕ) (p : Bool)
        → (p && not (ltb since confirm_guard_frames)) ≡ true
        → confirm_guard_frames ≤ since
    late since p e = ground arith

age_taken : (x since : ℕ) (b : Bool) → x ≡ age (if b then 0 else since) → b ≡ true → min x 3 ≤ 1
unfolding age
age_taken x since b e t = ground arith

age_kept :
    (x since gap : ℕ) (b : Bool)
    → x ≡ age (if b then 0 else since)
    → b ≡ false
    → min since 3 ≤ gap
    → min x 3 ≤ gap + 1
unfolding age
age_kept x since gap b e t h = ground arith

confirms-Spaced :
    (s : FilterState) (gap : ℕ) (inputs : List GameInput)
    → min s.since_confirm_taken 3 ≤ gap
    → Spaced gap (confirms s inputs)
unfolding confirms
confirms-Spaced s gap [] h = tt
confirms-Spaced s gap (input ∷ rest) h =
    elim (Bool-cases (pressed (filter_menu s input).0.buttons confirm_mask)) [
      | inl taken ↦ rw taken (
        omega (arith, passes_late s input taken),
        confirms-Spaced (aged (filter_menu s input).1) 1 rest
            (age_taken _ s.since_confirm_taken _ (taken-age s input) taken),
      )
      | inr none_ ↦ rw none_ (
          confirms-Spaced (aged (filter_menu s input).1) (gap + 1) rest
            (age_kept _ s.since_confirm_taken gap _ (taken-age s input) none_ h))
    ]

-- On a selection screen, from a fresh state, whatever is pressed: any two confirmations that pass
-- are at least three frames apart, however fast the button is hit.
pub confirmations-Spaced : (inputs : List GameInput) → Spaced 3 (confirms reset inputs)
unfolding reset
confirmations-Spaced inputs = confirms-Spaced reset 3 inputs (omega arith)
