-- ===== src/Timing/Display/Tests.antt =====
-- A display of 144 Hz that is shown late once.
use cccaster_ver_b.Prelude.{ℕ, ◌+◌, ◌≡◌, refl, List, [], ◌∷◌, arith}
use cccaster_ver_b.Timing.Display.{DisplayCadence, configure}
use cccaster_ver_b.Timing.Display.Slots.{IsOn, run, shown, run-accounted, configure-IsOn}

-- The divisor of 144 and 1.
abbrev gcd : ℕ → ℕ → ℕ
gcd a b = 1

abbrev off : DisplayCadence
off = record { numerator = 0; period = 0; epoch = 0; next = 0; slot = 0; missed = 0 }

abbrev on : DisplayCadence
on = (configure gcd off 144 1 1_000).1

abbrev times : List ℕ
times = 1_000 ∷ 400_000 ∷ 2_000_000 ∷ []

run-accounted_example : (run on times).slot ≡ shown on times + (run on times).missed
unfolding configure
run-accounted_example =
    run-accounted gcd off 144 1 1_000 times (λ n d. (omega arith, omega arith, omega arith)) refl

on-IsOn : IsOn on
unfolding configure
on-IsOn =
    (configure-IsOn gcd off 144 1 1_000 (λ n d. (omega arith, omega arith, omega arith)) refl).0
