-- ===== src/Scene/Tests.antt =====
-- Concrete runs of inputs and scores.
use cccaster_ver_b.Prelude.{◌≡◌, ◌⊎◌, Bool, List, true, false, [], ◌∷◌, arith}
use cccaster_ver_b.Scene.Input.{GameInput, neutral}
use cccaster_ver_b.Scene.Gate.{apply}
use cccaster_ver_b.Scene.Gate.Release.{flag_after, HeldSinceMenu, released_view}
use cccaster_ver_b.Scene.Score.{ScoreScene, reset, MatchResultFacts}
use cccaster_ver_b.Scene.Score.Counting.{Observation, Increasing, counted, counted_once}

abbrev punch : GameInput
punch = record { direction = 6; buttons = 0x0410 }

-- A menu opened while a button was held, and the button is held still.
abbrev pressed : List (GameInput × Bool)
pressed = (punch, false) ∷ (punch, true) ∷ (punch, false) ∷ []

released_view_example :
    (((apply (flag_after false pressed) punch false).0 ≡ neutral)
      × ((false ≡ true) ⊎ HeldSinceMenu pressed))
    ⊎ (((apply (flag_after false pressed) punch false).0 ≡ punch)
        × (false ≡ false)
        × (¬ HeldSinceMenu pressed))
released_view_example = released_view pressed punch false

abbrev won : MatchResultFacts
won = record { p1_rounds = 2; p2_rounds = 1; rounds_to_win = 2; available = true }

abbrev fights : Observation
fights = record { scene = ScoreScene.battle; generation = 1; facts = won; confirmed = true }

abbrev shows : Observation
shows = record { scene = ScoreScene.result; generation = 2; facts = won; confirmed = true }

-- The result is shown twice.
counted_once_example : Increasing 0 (counted (reset true) (fights ∷ shows ∷ shows ∷ []))
counted_once_example =
    counted_once true (fights ∷ shows ∷ shows ∷ []) (omega arith, (omega arith, (omega arith, tt)))
