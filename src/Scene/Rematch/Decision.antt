-- ===== src/Scene/Rematch/Decision.antt =====
-- The choice of the first player on the rematch screen.
use cccaster_ver_b.Prelude.{◌≡◌, Bool, true, false, arith}
use cccaster_ver_b.Prelude.Int.{pos, ltb_ℤ}
use cccaster_ver_b.Scene.Input.{GameInput}
use cccaster_ver_b.Scene.Rematch.{RematchChoice, Player, choose, step_player, step}

step_player-choice :
    (p : Player) (opening : Bool) (i : GameInput)
    → ltb_ℤ p.choice (pos 0) ≡ false
    → (step_player p opening i).choice ≡ p.choice
unfolding step_player choose
step_player-choice p opening i h = ground arith

-- Once made, the choice of the first player stays as it is.
step-choice :
    (r : RematchChoice) (a b : GameInput)
    → ltb_ℤ r.p1.choice (pos 0) ≡ false
    → (step r a b).p1.choice ≡ r.p1.choice
unfolding step
step-choice r a b h =
    let one = step_player-choice r.p1 true a h in
    let two = step_player-choice r.p1 false a h in ground (arith, one, two)
