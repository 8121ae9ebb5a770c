-- ===== src/Code/Seal.antt =====
-- A code that is written is read.
use cccaster_ver_b.Prelude.{
  ℕ, zero, suc, ◌+◌, ◌*◌, ◌-◌, ◌/◌, ◌%◌, ◌≤◌, ◌<◌, ◌≡◌, List, [], ◌∷◌, ◌++◌, length, length-append,
  take, drop, get_or, arith, refl, ap, ◌∙◌, some,
}
use cccaster_ver_b.Code.{
  crc_bit, crc_bits, crc_from, checksum, seal, unseal, unseal_bytes, base62_encode, base62_decode,
}
use cccaster_ver_b.Code.Radix.{AllBelow}
use cccaster_ver_b.Code.Roundtrip.{base62_decode-encode}
use cccaster_ver_b.Code.Places.{AllBelow-append}

crc_bits-lt : (n crc : ℕ) → crc < 0x1_0000 → crc_bits n crc < 0x1_0000
unfolding crc_bits crc_bit
crc_bits-lt zero crc h = h
crc_bits-lt (suc n) crc h = crc_bits-lt n (crc_bit crc) (omega arith)

crc_some-lt : (n crc : ℕ) → crc_bits (suc n) crc < 0x1_0000
unfolding crc_bits crc_bit
crc_some-lt n crc = crc_bits-lt n (crc_bit crc) (omega arith)

crc_from-lt : (xs : List ℕ) (crc : ℕ) → crc < 0x1_0000 → crc_from crc xs < 0x1_0000
unfolding crc_from
crc_from-lt [] crc h = h
crc_from-lt (x ∷ xs) crc h = crc_from-lt xs _ (crc_some-lt 7 _)

checksum-lt : (xs : List ℕ) → checksum xs < 0x1_0000
unfolding checksum
checksum-lt xs = crc_from-lt xs 0xffff (omega arith)

take_all : (xs ys : List ℕ) → take (length xs) (xs ++ ys) ≡ xs
take_all [] ys = refl
take_all (x ∷ xs) ys = ap (λ t. x ∷ t) (take_all xs ys)

get_first : (xs : List ℕ) (y : ℕ) (ys : List ℕ) → get_or (xs ++ y ∷ ys) (length xs) 0 ≡ y
get_first [] y ys = refl
get_first (x ∷ xs) y ys = get_first xs y ys

get_second :
    (xs : List ℕ) (y z : ℕ) (ys : List ℕ) → get_or (xs ++ y ∷ z ∷ ys) (suc (length xs)) 0 ≡ z
get_second [] y z ys = refl
get_second (x ∷ xs) y z ys = get_second xs y z ys

unseal_sealed :
    (xs : List ℕ) (hi lo : ℕ)
    → 15 ≤ length xs
    → checksum xs ≡ hi * 256 + lo
    → unseal_bytes (some (xs ++ hi ∷ lo ∷ [])) ≡ some xs
unfolding unseal_bytes
unseal_sealed xs hi lo h e =
    let n = length-append xs (hi ∷ lo ∷ []) in
    let back : length (xs ++ hi ∷ lo ∷ []) - 2 ≡ length xs = omega (arith, n) in
    let last : length (xs ++ hi ∷ lo ∷ []) - 1 ≡ suc (length xs) = omega (arith, n) in
    rw (back, last, take_all xs (hi ∷ lo ∷ []), get_first xs hi (lo ∷ []), get_second xs hi lo [])
      (ground (arith, n, e, h))

unseal_of :
    (text bytes : List ℕ)
    → base62_decode text ≡ some bytes
    → unseal text ≡ unseal_bytes (some bytes)
unfolding unseal
unseal_of text bytes e = ap unseal_bytes e

-- A payload of 15 to 35 bytes: the code starts with "1", and what follows is read as the payload,
-- with a checksum that fits.
pub unseal-seal :
    (payload : List ℕ)
    → AllBelow 256 payload
    → 15 ≤ length payload
    → length payload ≤ 35
    → (seal payload ≡ 49 ∷ drop 1 (seal payload)) × (unseal (drop 1 (seal payload)) ≡ some payload)
unfolding seal unseal
unseal-seal payload h low high =
    let crc = checksum payload in
    let small = checksum-lt payload in
    let bytes = payload ++ (crc / 256 % 256) ∷ (crc % 256) ∷ [] in
    let long = length-append payload ((crc / 256 % 256) ∷ (crc % 256) ∷ []) in
    let all =
      AllBelow-append 256 payload ((crc / 256 % 256) ∷ (crc % 256) ∷ []) h
        (omega arith, (omega arith, tt)) in
    let read = base62_decode-encode bytes all (omega (arith, long)) (omega (arith, long)) in
    let end = unseal_sealed payload (crc / 256 % 256) (crc % 256) low (omega (arith, small)) in
    (refl, unseal_of (base62_encode bytes) bytes read ∙ end)
