-- ===== src/Scene/Gate/Release.antt =====
-- A button that closed a menu never reaches the game.
use cccaster_ver_b.Prelude.{
  ◌≡◌, ◌⊎◌, refl, Bool, Bool-cases, true, false, not, inl, inr, List, [], ◌∷◌, ◌++◌, ap, arith, ◌∙◌,
}
use cccaster_ver_b.Scene.Input.{GameInput, neutral, is_neutral}
use cccaster_ver_b.Scene.Gate.{apply}

-- The flag of a new gate after frames, each with its input and whether a menu was open.
abbrev pub flag_after : Bool → List (GameInput × Bool) → Bool
flag_after waits [] = waits
flag_after waits ((input, configuring) ∷ rest) = flag_after (apply waits input configuring).1 rest

-- In each of the frames something was held.
abbrev pub AllHeld : List (GameInput × Bool) → Type 0
AllHeld [] = Unit {0}
AllHeld (frame ∷ frames) = (is_neutral frame.0 ≡ false) × AllHeld frames

-- A menu was open in some frame, and in every frame after it something was held.
abbrev pub HeldSinceMenu : List (GameInput × Bool) → Type 0
HeldSinceMenu frames =
    (before : List (GameInput × Bool)) × (input : GameInput) × (after : List (GameInput × Bool))
    × (frames ≡ before ++ (input, true) ∷ after)
    × AllHeld after

flag_held : (after : List (GameInput × Bool)) → AllHeld after → flag_after true after ≡ true
unfolding apply
flag_held [] h = refl
flag_held ((input, true) ∷ rest) (h, hs) = flag_held rest hs
flag_held ((input, false) ∷ rest) (h, hs) = ap (λ b. flag_after (not b) rest) h ∙ flag_held rest hs

menu_flag :
    (waits : Bool) (before : List (GameInput × Bool)) (input : GameInput)
    (after : List (GameInput × Bool))
    → AllHeld after
    → flag_after waits (before ++ (input, true) ∷ after) ≡ true
unfolding apply
menu_flag waits [] input after h = flag_held after h
menu_flag waits ((first, configuring) ∷ before) input after h =
    menu_flag (apply waits first configuring).1 before input after h

-- Why the flag is set: it was at the start, with something held ever since, or by a menu.
flag_reason :
    (waits : Bool) (frames : List (GameInput × Bool))
    → flag_after waits frames ≡ true
    → ((waits ≡ true) × AllHeld frames) ⊎ HeldSinceMenu frames
unfolding apply
flag_reason waits [] e = inl (e, tt)
flag_reason waits ((input, true) ∷ rest) e = elim (flag_reason true rest e) [
  | inl (set, held) ↦ inr ([], input, rest, refl, held)
  | inr (before, menu, after, q, held) ↦
      inr ((input, true) ∷ before, menu, after, ap (λ fs. (input, true) ∷ fs) q, held)
]
flag_reason false ((input, false) ∷ rest) e = elim (flag_reason false rest e) [
  | inl (set, held) ↦ absurd (cc)
  | inr (before, menu, after, q, held) ↦
      inr ((input, false) ∷ before, menu, after, ap (λ fs. (input, false) ∷ fs) q, held)
]
flag_reason true ((input, false) ∷ rest) e = elim (flag_reason (not (is_neutral input)) rest e) [
  | inl (set, held) ↦ inl (refl, (ground (arith, set), held))
  | inr (before, menu, after, q, held) ↦
      inr ((input, false) ∷ before, menu, after, ap (λ fs. (input, false) ∷ fs) q, held)
]

flag_menu :
    (frames : List (GameInput × Bool)) → flag_after false frames ≡ true → HeldSinceMenu frames
flag_menu frames e = elim (flag_reason false frames e) [
  | inl (set, held) ↦ absurd (cc)
  | inr held ↦ held
]

not_held :
    (frames : List (GameInput × Bool)) → flag_after false frames ≡ false → ¬ HeldSinceMenu frames
not_held frames e (before, menu, after, q, held) =
    let set = menu_flag false before menu after held in
    let same = ap (flag_after false) q in absurd (cc)

-- A new gate, after any run of frames with any inputs and menus. If a menu is open in this frame, or one was
-- open before and in every frame since something was held, the game sees nothing; if neither is so, it
-- sees the input as it is.
pub released_view :
    (frames : List (GameInput × Bool)) (input : GameInput) (configuring : Bool)
    → (((apply (flag_after false frames) input configuring).0 ≡ neutral)
        × ((configuring ≡ true) ⊎ HeldSinceMenu frames))
      ⊎ (((apply (flag_after false frames) input configuring).0 ≡ input)
          × (configuring ≡ false)
          × (¬ HeldSinceMenu frames))
unfolding apply
released_view frames input true = inl (refl, inl refl)
released_view frames input false = elim (Bool-cases (flag_after false frames)) [
  | inl set ↦ inl (rw set refl, inr (flag_menu frames set))
  | inr clear ↦ inr (rw clear refl, refl, not_held frames clear)
]
