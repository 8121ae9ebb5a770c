-- ===== src/Peer/Text/Hex.antt =====
-- Hexadecimal text is read back.
use cccaster_ver_b.Prelude.{ℕ, ◌<◌, ◌≡◌, refl, List, [], ◌∷◌, some, arith, ap, ◌/◌, ◌%◌}
use cccaster_ver_b.Peer.Text.{hex, unhex, pairs, hex_digit, digit_value}

abbrev pub AllBytes : List ℕ → Type 0
AllBytes [] = Unit {0}
AllBytes (x ∷ xs) = (x < 256) × AllBytes xs

digit_value-digit : (n : ℕ) → n < 16 → digit_value (hex_digit n) ≡ some n
digit_value-digit n h = ground arith

pairs-hex : (xs : List ℕ) → AllBytes xs → pairs (hex xs) ≡ some xs
unfolding pairs hex
pairs-hex [] h = refl
pairs-hex (x ∷ xs) h =
    rw
      (
        digit_value-digit (x / 16) (omega (arith, h.0)),
        digit_value-digit (x % 16) (omega arith),
        pairs-hex xs h.1,
      )
      (ap (λ b. some (b ∷ xs)) (omega (arith, h.0)))

-- Bytes that are written as hexadecimal text are read back.
pub unhex-hex : (xs : List ℕ) → AllBytes xs → unhex (hex xs) ≡ xs
unfolding unhex
unhex-hex xs h = rw (pairs-hex xs h) refl
