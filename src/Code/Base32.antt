-- ===== src/Code/Base32.antt =====
-- The older format of a code: four characters for the computer, then bytes in base 32.
use cccaster_ver_b.Prelude.{
  ℕ, ◌+◌, ◌-◌, ◌/◌, ◌*◌, ◌%◌, ◌^◌, Bool, false, ◌&&◌, ◌||◌, List, [], ◌∷◌, length, take, drop,
  Option, none, some, leb, ◌==◌, if◌then◌else◌,
}

abbrev to_upper : ℕ → ℕ
to_upper c = if leb 97 c && leb c 122 then c - 32 else c

abbrev is_allowed : ℕ → Bool
is_allowed c = leb 65 c && leb c 90 || leb 50 c && leb c 55 || c == 45

-- Capital letters; none for another character.
normalized : List ℕ → Option (List ℕ)
normalized [] = some []
normalized (c ∷ cs) = elim (normalized cs) [
  | none ↦ none
  | some rest ↦ if is_allowed (to_upper c) then some (to_upper c ∷ rest) else none
]

unfoldable pub base32_value : ℕ → Option ℕ
base32_value c =
    if leb 65 c && leb c 90
    then some (c - 65)
    else if leb 97 c && leb c 122
    then some (c - 97)
    else if leb 50 c && leb c 55
    then some (c - 50 + 26)
    else none

-- A buffer of 32 bits, and how many of its bits are left. Another character is passed over.
base32_loop : ℕ → ℕ → List ℕ → List ℕ
unfolding base32_value
base32_loop buffer bits_left [] = []
base32_loop buffer bits_left (c ∷ cs) = elim (base32_value c) [
  | none ↦ base32_loop buffer bits_left cs
  | some v ↦
      let next = (buffer * 32 + v) % 2 ^ 32 in
      let bits = bits_left + 5 in
      let left = if leb 8 bits then bits - 8 else bits in
      let rest = base32_loop next left cs in
      if leb 8 bits then (next / 2 ^ left % 256) ∷ rest else rest
]

unfoldable pub base32_decode : List ℕ → List ℕ
unfolding base32_loop
base32_decode text = base32_loop 0 0 text

abbrev has_dash : List ℕ → Bool
has_dash [] = false
has_dash (c ∷ cs) = c == 45 || has_dash cs

abbrev unless_empty : List ℕ → List ℕ → Option (List ℕ × List ℕ)
unless_empty key [] = none
unless_empty key (x ∷ xs) = some (key, x ∷ xs)

split_old : Option (List ℕ) → Option (List ℕ × List ℕ)
unfolding base32_decode
split_old none = none
split_old (some text) =
    if leb (length text) 4 || has_dash (take 4 text)
    then none
    else unless_empty (take 4 text) (base32_decode (drop 4 text))

-- The characters for the computer, and the bytes.
unfoldable pub open_old : List ℕ → Option (List ℕ × List ℕ)
unfolding normalized split_old
open_old hash = split_old (normalized hash)
