-- ===== src/Code.antt =====
-- src/src/cli_launcher/network_wrapper/ConnectionHash.cpp: the text in which a host gives its address, and
-- which the other player types in: bytes in base 62 behind a "1", the last two a checksum. A
-- character is its code. Code.Payload has the bytes, Code.Cipher the key that hides them, Code.Window the
-- whole code, and Code.Base32 the older format.
pub mod Radix
pub mod Places
pub mod Roundtrip
pub mod Seal
pub mod Cipher
pub mod Payload
pub mod Fields
pub mod Address
pub mod Base32
pub mod Window
pub mod Decoded
mod Tests
use Prim.Native.Nat.{bit_xor}
use mathlib.Core.List.{reverse}
use cccaster_ver_b.Prelude.{
  ℕ, zero, suc, ◌+◌, ◌*◌, ◌-◌, ◌/◌, ◌%◌, Bool, true, false, not, ◌&&◌, ◌||◌, List, [], ◌∷◌, ◌++◌,
  map, Option, none, some, length, take, get_or, leb, ltb, ◌==◌, if◌then◌else◌,
}

-- "0123456789ABCDEFGHIJKLMNOPQRSTUVWXYZabcdefghijklmnopqrstuvwxyz", by the index.
unfoldable pub char_of : ℕ → ℕ
char_of d = if ltb d 10 then 48 + d else if ltb d 36 then 65 + (d - 10) else 97 + (d - 36)

unfoldable pub digit_of : ℕ → Option ℕ
digit_of c =
    if leb 48 c && leb c 57
    then some (c - 48)
    else if leb 65 c && leb c 90
    then some (c - 65 + 10)
    else if leb 97 c && leb c 122
    then some (c - 97 + 36)
    else none

-- `while (carry)`: the digits of what is left, lowest first. No number has more digits than itself.
unfoldable pub spill : ℕ → ℕ → ℕ → List ℕ
spill base zero carry = []
spill base (suc rounds) carry =
    let rest = (carry % base) ∷ spill base rounds (carry / base) in if carry == 0 then [] else rest

-- The number in `digits`, lowest first, times `factor` and with `carry` added.
unfoldable pub scale : ℕ → ℕ → ℕ → List ℕ → List ℕ
unfolding spill
scale factor base carry [] = spill base carry carry
scale factor base carry (d ∷ ds) =
    let c = carry + d * factor in (c % base) ∷ scale factor base (c / base) ds

-- More places of base `factor`, highest first, for a number in base `base`.
unfoldable pub convert : ℕ → ℕ → List ℕ → List ℕ → List ℕ
unfolding scale
convert factor base digits [] = digits
convert factor base digits (x ∷ xs) = convert factor base (scale factor base x digits) xs

-- How many items at the front are `z`, and the rest.
unfoldable pub split_front : ℕ → List ℕ → ℕ × List ℕ
split_front z [] = (0, [])
split_front z (x ∷ xs) =
    let (n, rest) = split_front z xs in if x == z then (n + 1, rest) else (0, x ∷ xs)

abbrev pub replicate : ℕ → ℕ → List ℕ
replicate zero x = []
replicate (suc n) x = x ∷ replicate n x

unfoldable pub base62_encode : List ℕ → List ℕ
unfolding split_front convert
base62_encode bytes =
    let (front, rest) = split_front 0 bytes in
    replicate front 48 ++ map char_of (reverse (convert 256 62 [] rest))

-- The loop over the characters; none is its early return.
unfoldable pub from_text : ℕ → List ℕ → List ℕ → Option (List ℕ)
unfolding scale digit_of
from_text front bytes [] = some bytes
from_text front bytes (c ∷ cs) = elim (digit_of c) [
  | none ↦ none
  | some d ↦
      let more = scale 62 256 d bytes in
      let rest = from_text front more cs in if ltb 37 (front + length more) then none else rest
]

same : List ℕ → List ℕ → Bool
same [] [] = true
same (x ∷ xs) (y ∷ ys) = x == y && same xs ys
same _ _ = false

-- What the bytes would be written as has to be the text.
checked : List ℕ → List ℕ → Option (List ℕ)
unfolding same
checked text bytes = if same (base62_encode bytes) text then some bytes else none

-- The zeros in front, and the bytes highest first.
finish : List ℕ → ℕ → Option (List ℕ) → Option (List ℕ)
unfolding checked
finish text front none = none
finish text front (some bytes) =
    if ltb 37 (front + length bytes)
    then none
    else checked text (replicate front 0 ++ reverse bytes)

unfoldable pub base62_decode : List ℕ → Option (List ℕ)
unfolding split_front from_text finish
base62_decode text =
    let (front, rest) = split_front 48 text in
    if length text == 0 || ltb 50 (length text)
    then none
    else finish text front (from_text front [] rest)

-- CRC-16, bit by bit.
crc_bit : ℕ → ℕ
crc_bit crc = bit_xor (crc * 2) (if crc / 0x8000 % 2 == 1 then 0x1021 else 0) % 0x1_0000

crc_bits : ℕ → ℕ → ℕ
unfolding crc_bit
crc_bits zero crc = crc
crc_bits (suc n) crc = crc_bits n (crc_bit crc)

crc_from : ℕ → List ℕ → ℕ
unfolding crc_bits
crc_from crc [] = crc
crc_from crc (x ∷ xs) = crc_from (crc_bits 8 (bit_xor crc (x * 256))) xs

unfoldable pub checksum : List ℕ → ℕ
unfolding crc_from
checksum bytes = crc_from 0xffff bytes

-- The end of `Encode`.
unfoldable pub seal : List ℕ → List ℕ
unfolding base62_encode checksum
seal payload =
    let crc = checksum payload in
    49 ∷ base62_encode (payload ++ (crc / 256 % 256) ∷ (crc % 256) ∷ [])

-- The newer format in `DecodeAt`, on the text behind the "1".
unseal_bytes : Option (List ℕ) → Option (List ℕ)
unfolding checksum
unseal_bytes none = none
unseal_bytes (some bytes) =
    let n = length bytes in
    let stored = get_or bytes (n - 2) 0 * 256 + get_or bytes (n - 1) 0 in
    let body = take (n - 2) bytes in
    if ltb n 17 then none else if checksum body == stored then some body else none

unfoldable pub unseal : List ℕ → Option (List ℕ)
unfolding base62_decode unseal_bytes
unseal text = unseal_bytes (base62_decode text)
