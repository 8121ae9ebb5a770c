-- ===== src/Peer/Text.antt =====
-- src/src/p2p/Crypto.cpp: connection codes and hexadecimal text. A character is its code.
pub mod Hex
pub mod Code
mod Tests
use mathlib.Core.Option
use cccaster_ver_b.Prelude.{
  ℕ, suc, zero, Bool, true, false, ◌+◌, ◌*◌, ◌-◌, ◌/◌, ◌%◌, not, ◌&&◌, ◌||◌, List, [], ◌∷◌, ◌++◌,
  map, Option, none, some, length, leb, ◌==◌, if◌then◌else◌,
}

-- "0123456789ABCDEFGHJKMNPQRSTVWXYZ".
abbrev pub alphabet : List ℕ
alphabet =
    48 ∷ 49 ∷ 50 ∷ 51 ∷ 52 ∷ 53 ∷ 54 ∷ 55 ∷ 56 ∷ 57 ∷ 65 ∷ 66 ∷ 67 ∷ 68 ∷ 69 ∷ 70 ∷ 71 ∷ 72 ∷ 74
    ∷ 75 ∷ 77 ∷ 78 ∷ 80 ∷ 81 ∷ 82 ∷ 83 ∷ 84 ∷ 86 ∷ 87 ∷ 88 ∷ 89 ∷ 90 ∷ []

abbrev pub elem : ℕ → List ℕ → Bool
elem c [] = false
elem c (x ∷ xs) = c == x || elem c xs

abbrev pub is_space : ℕ → Bool
is_space c = c == 45 || c == 32 || c == 9 || c == 13 || c == 10

-- Capital letters, and digits in place of the letters that look like them.
unfoldable pub canonical : ℕ → ℕ
canonical c =
    let upper = if leb 97 c && leb c 122 then c - 32 else c in
    let zeroed = if upper == 79 then 48 else upper in
    if zeroed == 73 || zeroed == 76 then 49 else zeroed

-- The loop: none is its early return.
unfoldable pub code_chars : List ℕ → Option (List ℕ)
code_chars [] = some []
code_chars (c ∷ cs) =
    let rest = code_chars cs in
    if is_space c
    then rest
    else if elem (canonical c) alphabet
    then Option.map (λ out. canonical c ∷ out) rest
    else none

abbrev pub six : Option (List ℕ) → List ℕ
six none = []
six (some out) = if length out == 6 then out else []

unfoldable pub normalize_code : List ℕ → List ℕ
normalize_code text = six (code_chars text)

-- "0123456789abcdef"[n].
abbrev pub hex_digit : ℕ → ℕ
hex_digit n = if leb n 9 then 48 + n else 87 + n

unfoldable pub hex : List ℕ → List ℕ
hex [] = []
hex (c ∷ cs) = hex_digit (c / 16) ∷ hex_digit (c % 16) ∷ hex cs

abbrev pub digit_value : ℕ → Option ℕ
digit_value c =
    if leb 48 c && leb c 57
    then some (c - 48)
    else if leb 97 c && leb c 102
    then some (c - 97 + 10)
    else none

abbrev pub join : Option ℕ → Option ℕ → Option (List ℕ) → Option (List ℕ)
join none low rest = none
join (some high) none rest = none
join (some high) (some low) rest = Option.map (λ out. (high * 16 + low) % 256 ∷ out) rest

-- The bytes of the pairs of digits, none on the early return and for an odd number of digits.
unfoldable pub pairs : List ℕ → Option (List ℕ)
pairs [] = some []
pairs (c ∷ []) = none
pairs (c ∷ d ∷ cs) = join (digit_value c) (digit_value d) (pairs cs)

abbrev or_empty : Option (List ℕ) → List ℕ
or_empty none = []
or_empty (some out) = out

unfoldable pub unhex : List ℕ → List ℕ
unhex s = or_empty (pairs s)
