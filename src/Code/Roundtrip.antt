-- ===== src/Code/Roundtrip.antt =====
-- Bytes that are written in base 62 are read back.
use mathlib.Core.List.{reverse, reverse-reverse}
use cccaster_ver_b.Prelude.{
  ℕ, zero, suc, ◌+◌, ◌^◌, ◌-◌, ◌≤◌, ◌<◌, ◌≡◌, List, [], ◌∷◌, ◌++◌, map, length, length-append, ◌==◌,
  leb, ltb, ◌&&◌, ◌||◌, Bool, true, false, leb→le, arith, refl, ap, ◌∙◌, sym, Bool-cases, inl, inr,
  some,
}
use native.Mathlib.Nat.{pow-le-pow_right}
use cccaster_ver_b.Code.{
  char_of, scale, spill, convert, split_front, replicate, base62_encode, from_text, same, checked,
  base62_decode, finish,
}
use cccaster_ver_b.Code.Radix.{
  value, AllBelow, IsShort, unique, value-convert, convert-AllBelow, convert-IsShort, horner,
  value-lt, value-ge,
}
use cccaster_ver_b.Code.Places.{
  digit_of-char_of, horner-reverse, AllBelow-reverse, length-reverse, length-map, length-replicate,
  Starts, reverse-IsShort, reverse-Starts, split_replicate, split_back, split_Starts, split_chars,
  length-convert,
}

from_text-chars :
    (front : ℕ) (bytes ds : List ℕ)
    → AllBelow 62 ds
    → front + length (convert 62 256 bytes ds) ≤ 37
    → from_text front bytes (map char_of ds) ≡ some (convert 62 256 bytes ds)
unfolding from_text convert
from_text-chars front bytes [] h k = refl
from_text-chars front bytes (d ∷ ds) (h, hs) k =
    let more = scale 62 256 d bytes in
    let fits = length-convert 62 256 more ds in
    let small : ltb 37 (front + length more) ≡ false = ground (arith, fits, k) in
    rw (digit_of-char_of d h, from_text, small) (from_text-chars front more ds hs k)

same_refl : (xs : List ℕ) → same xs xs ≡ true
unfolding same
same_refl [] = refl
same_refl (x ∷ xs) = let rest = same_refl xs in ground (arith, rest)

-- The digits of at most 37 bytes fit into 50 characters.
fits : ℕ → Bool
fits n = leb (256 ^ (37 - n)) (62 ^ (50 - n))

all_fit : ℕ → Bool
all_fit zero = true
all_fit (suc n) = fits n && all_fit n

all_fit_lem : (n k : ℕ) → all_fit n ≡ true → k < n → fits k ≡ true
unfolding all_fit
all_fit_lem zero k h p = absurd (omega arith)
all_fit_lem (suc n) k h p = elim (Bool-cases (k == n)) [
  | inl last ↦ (let e : k ≡ n = ground arith in rw e (ground arith))
  | inr before ↦ all_fit_lem n k (ground arith) (ground arith)
]

table : all_fit 38 ≡ true
unfolding all_fit fits
table = refl

power_bound : (n : ℕ) → n ≤ 37 → 256 ^ (37 - n) ≤ 62 ^ (50 - n)
unfolding fits
power_bound n h = leb→le _ _ (all_fit_lem 38 n table (omega arith))

length_bound :
    (front n v : ℕ) (ds : List ℕ)
    → IsShort ds
    → value 62 ds ≡ v
    → v < 256 ^ n
    → front + n ≤ 37
    → front + length ds ≤ 50
length_bound front n v [] s e h k = omega arith
length_bound front n v (d ∷ ds) s e h k =
    let low = value-ge 62 (omega arith) d ds s in
    let most = pow-le-pow_right {n = 256} (omega arith) {i = n} {j = 37 - front} (omega arith) in
    let table_row = power_bound front (omega arith) in
    elim (Bool-cases (leb (front + length (d ∷ ds)) 50)) [
      | inl ok ↦ ground arith
      | inr long ↦
          let least =
            pow-le-pow_right {n = 62} (omega arith) {i = 50 - front} {j = length ds}
              (ground arith) in
          absurd (omega (arith, low, most, table_row, least, h, e))
    ]

split_AllBelow : (b z : ℕ) (xs : List ℕ) → AllBelow b xs → AllBelow b (split_front z xs).1
unfolding split_front
split_AllBelow b z [] h = tt
split_AllBelow b z (x ∷ xs) (h, hs) = elim (Bool-cases (x == z)) [
  | inl front ↦ rw front (split_AllBelow b z xs hs)
  | inr other ↦ rw other (h, hs)
]

-- Into base 62 and back, highest place first.
digits_back :
    (rest : List ℕ)
    → AllBelow 256 rest
    → Starts rest
    → convert 62 256 [] (reverse (convert 256 62 [] rest)) ≡ reverse rest
digits_back rest h s =
    let ds = convert 256 62 [] rest in
    let there = value-convert 62 (omega arith) 256 [] rest in
    let back = value-convert 256 (omega arith) 62 [] (reverse ds) in
    let whole = horner-reverse 256 (reverse rest) in
    unique 256 (omega arith) (convert 62 256 [] (reverse ds)) (reverse rest)
      (convert-AllBelow 256 (omega arith) 62 [] (reverse ds) tt) (AllBelow-reverse 256 rest h)
      (convert-IsShort 256 (omega arith) 62 [] (reverse ds) (omega arith) tt)
      (reverse-IsShort rest s)
      (back ∙ horner-reverse 62 ds ∙ there ∙ ap (horner 256 0) (sym (reverse-reverse rest)) ∙ whole)

digits_value :
    (rest : List ℕ) → AllBelow 256 rest → value 62 (convert 256 62 [] rest) < 256 ^ length rest
digits_value rest h =
    let there = value-convert 62 (omega arith) 256 [] rest in
    let whole = horner-reverse 256 (reverse rest) in
    let same_rest = ap (horner 256 0) (reverse-reverse rest) in
    let bound = value-lt 256 (omega arith) (reverse rest) (AllBelow-reverse 256 rest h) in
    let long = length-reverse rest in
    let bound' = rw long at bound in omega (arith, there, whole, same_rest, bound')

-- The text that is written has at most 50 characters, and one at least.
abbrev text_of : ℕ → List ℕ → List ℕ
text_of front rest = replicate front 48 ++ map char_of (reverse (convert 256 62 [] rest))

length-text :
    (front : ℕ) (rest : List ℕ)
    → length (text_of front rest) ≡ front + length (convert 256 62 [] rest)
length-text front rest =
    let ds = convert 256 62 [] rest in
    omega (
      arith,
      length-append (replicate front 48) (map char_of (reverse ds)),
      length-replicate front 48,
      length-map char_of (reverse ds),
      length-reverse ds,
    )

spill_some : (b x : ℕ) → 0 < x → 0 < length (spill b x x)
unfolding spill
spill_some b zero h = h
spill_some b (suc n) h = ground arith

text_pos :
    (front : ℕ) (rest : List ℕ)
    → Starts rest
    → 0 < front + length rest
    → 0 < front + length (convert 256 62 [] rest)
unfolding convert scale
text_pos front [] s h = h
text_pos front (x ∷ xs) s h =
    let longer = length-convert 256 62 (scale 256 62 x []) xs in
    let first = spill_some 62 x s in omega (arith, longer, first)

decode_steps :
    (text : List ℕ) (front : ℕ) (chars bytes : List ℕ)
    → (length text == 0 || ltb 50 (length text)) ≡ false
    → split_front 48 text ≡ (front, chars)
    → from_text front [] chars ≡ some bytes
    → ltb 37 (front + length bytes) ≡ false
    → base62_encode (replicate front 0 ++ reverse bytes) ≡ text
    → base62_decode text ≡ some (replicate front 0 ++ reverse bytes)
unfolding base62_decode finish checked
decode_steps text front chars bytes in_range parts read fits_in written =
    rw (in_range, parts, read, fits_in, written, same_refl text) refl

decode_text :
    (front : ℕ) (rest : List ℕ)
    → AllBelow 256 rest
    → Starts rest
    → front + length rest ≤ 37
    → 0 < front + length rest
    → base62_encode (replicate front 0 ++ rest) ≡ text_of front rest
    → base62_decode (text_of front rest) ≡ some (replicate front 0 ++ rest)
decode_text front rest h s fit some_byte written =
    let ds = convert 256 62 [] rest in
    let below = convert-AllBelow 62 (omega arith) 256 [] rest tt in
    let short = convert-IsShort 62 (omega arith) 256 [] rest (omega arith) tt in
    let value_ds = digits_value rest h in
    let long = length-text front rest in
    let bound = length_bound front (length rest) (value 62 ds) ds short refl value_ds fit in
    let pos_length = text_pos front rest s some_byte in
    let parts =
      split_replicate front 48 (map char_of (reverse ds))
        (split_chars (reverse ds) (AllBelow-reverse 62 ds below) (reverse-Starts ds short)) in
    let back = digits_back rest h s in
    let whole : length (convert 62 256 [] (reverse ds)) ≡ length rest =
      ap length back ∙ length-reverse rest in
    let read =
      from_text-chars front [] (reverse ds) (AllBelow-reverse 62 ds below)
        (omega (arith, whole, fit)) in
    let in_range : (length (text_of front rest) == 0 || ltb 50 (length (text_of front rest)))
        ≡ false =
      ground (arith, long, bound, pos_length) in
    let in_range' : ltb 37 (front + length (convert 62 256 [] (reverse ds))) ≡ false =
      ground (arith, whole, fit) in
    let e : reverse (convert 62 256 [] (reverse ds)) ≡ rest =
      ap reverse back ∙ reverse-reverse rest in
    rw e at (
      decode_steps (text_of front rest) front (map char_of (reverse ds))
        (convert 62 256 [] (reverse ds)) in_range parts read in_range' (rw e written))

-- Between 1 and 37 bytes that are written in base 62 are read back from the text.
pub base62_decode-encode :
    (bytes : List ℕ)
    → AllBelow 256 bytes
    → 0 < length bytes
    → length bytes ≤ 37
    → base62_decode (base62_encode bytes) ≡ some bytes
unfolding base62_encode
base62_decode-encode bytes h some_byte fit =
    let front = (split_front 0 bytes).0 in
    let rest = (split_front 0 bytes).1 in
    let whole = split_back bytes in
    let long : front + length rest ≡ length bytes =
      omega (
        arith,
        length-append (replicate front 0) rest,
        length-replicate front 0,
        ap length whole,
      ) in
    decode_text front rest (split_AllBelow 256 0 bytes h) (split_Starts bytes)
      (omega (arith, long, fit)) (omega (arith, long, some_byte)) (ap base62_encode whole)
    ∙ ap some whole
