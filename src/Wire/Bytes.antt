-- ===== src/Wire/Bytes.antt =====
-- Little-endian fields in a list of bytes, as `memcpy` to and from an unsigned integer has them.
use cccaster_ver_b.Prelude.{
  Bool, true, false, ◌==◌, ◌&&◌, refl, ap, sym, ◌∙◌, take, drop, length, ℕ, suc, zero, ◌+◌, ◌*◌,
  ◌/◌, ◌%◌, ◌^◌, ◌<◌, ◌≡◌, List, [], ◌∷◌, ◌++◌, arith, Bool, ap, true, false, ◌==◌, ◌&&◌, ◌≤◌,
}

-- The `k` low bytes of `n`.
abbrev pub bytes : ℕ → ℕ → List ℕ
bytes zero n = []
bytes (suc k) n = n % 256 ∷ bytes k (n / 256)

-- The integer of the first `k` bytes.
abbrev pub little : ℕ → List ℕ → ℕ
little zero xs = 0
little (suc k) [] = 0
little (suc k) (x ∷ xs) = x + 256 * little k xs

abbrev pub read : ℕ → ℕ → List ℕ → ℕ
read offset k xs = little k (drop offset xs)

abbrev pub zeros : ℕ → List ℕ
zeros zero = []
zeros (suc n) = 0 ∷ zeros n

-- `memcpy` into a buffer that is long enough.
abbrev pub write : ℕ → List ℕ → List ℕ → List ℕ
write offset xs buffer = take offset buffer ++ xs ++ drop (offset + length xs) buffer

pub little-bytes : (k n : ℕ) → n < 256 ^ k → little k (bytes k n) ≡ n
little-bytes zero n h = omega arith
little-bytes (suc k) n h = omega (arith, little-bytes k (n / 256) (omega arith))

-- `std::equal` of a fixed header against the start of a buffer.
abbrev pub starts_with : List ℕ → List ℕ → Bool
starts_with [] xs = true
starts_with (h ∷ hs) [] = false
starts_with (h ∷ hs) (x ∷ xs) = h == x && starts_with hs xs

drop_self : (xs ys : List ℕ) → drop (length xs) (xs ++ ys) ≡ ys
drop_self [] ys = refl
drop_self (x ∷ xs) ys = drop_self xs ys

take_self : (xs ys : List ℕ) → take (length xs) (xs ++ ys) ≡ xs
take_self [] ys = refl
take_self (x ∷ xs) ys = ap (λ zs. x ∷ zs) (take_self xs ys)

pub drop-append : (xs ys : List ℕ) (n : ℕ) → length xs ≡ n → drop n (xs ++ ys) ≡ ys
drop-append xs ys n h = ap (λ k. drop k (xs ++ ys)) (sym h) ∙ drop_self xs ys

pub take-append : (xs ys : List ℕ) (n : ℕ) → length xs ≡ n → take n (xs ++ ys) ≡ xs
take-append xs ys n h = ap (λ k. take k (xs ++ ys)) (sym h) ∙ take_self xs ys

pub length-take : (n : ℕ) (xs : List ℕ) → n ≤ length xs → length (take n xs) ≡ n
length-take zero xs h = refl
length-take (suc n) [] h = omega (arith, h)
length-take (suc n) (x ∷ xs) h = ap suc (length-take n xs (omega (arith, h)))

drop-nil : (m : ℕ) → drop {A = ℕ} m [] ≡ []
drop-nil zero = refl
drop-nil (suc m) = refl

pub drop-drop : (m n : ℕ) (xs : List ℕ) → drop m (drop n xs) ≡ drop (n + m) xs
drop-drop m zero xs = let e : m ≡ 0 + m = omega arith in ap (λ k. drop k xs) e
drop-drop m (suc n) [] = drop-nil m ∙ sym (drop-nil (suc n + m))
drop-drop m (suc n) (x ∷ xs) =
    let e : suc (n + m) ≡ suc n + m = omega arith in drop-drop m n xs ∙ ap (λ k. drop k (x ∷ xs)) e

pub starts_with_self : (xs ys : List ℕ) → starts_with xs (xs ++ ys) ≡ true
starts_with_self [] ys = refl
starts_with_self (x ∷ xs) ys = ground (arith, starts_with_self xs ys)
