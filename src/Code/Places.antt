-- ===== src/Code/Places.antt =====
-- Places of a number in a base, from the front and from behind.
use mathlib.Core.List.{reverse, reverse-cons}
use cccaster_ver_b.Prelude.{
  ℕ, zero, suc, ◌+◌, ◌*◌, ◌/◌, ◌≤◌, ◌<◌, ◌≡◌, ◌≢◌, List, [], ◌∷◌, ◌++◌, map, length, length-append,
  ◌==◌, arith, refl, ap, ◌∙◌, Bool-cases, inl, inr, some,
}
use native.Mathlib.Numerals.{add-one}
use cccaster_ver_b.Code.{char_of, digit_of, scale, convert, split_front, replicate}
use cccaster_ver_b.Code.Radix.{value, AllBelow, IsShort, horner}

pub digit_of-char_of : (d : ℕ) → d < 62 → digit_of (char_of d) ≡ some d
unfolding digit_of char_of
digit_of-char_of d h = ground arith

char_of-zero : (d : ℕ) → d < 62 → 0 < d → char_of d ≢ 48
unfolding char_of
char_of-zero d h p = λ e. ground arith

-- Lists from behind.
horner-append : (f v : ℕ) (xs ys : List ℕ) → horner f v (xs ++ ys) ≡ horner f (horner f v xs) ys
horner-append f v [] ys = refl
horner-append f v (x ∷ xs) ys = horner-append f (x + f * v) xs ys

pub horner-reverse : (f : ℕ) (ds : List ℕ) → horner f 0 (reverse ds) ≡ value f ds
horner-reverse f [] = refl
horner-reverse f (d ∷ ds) =
    ap (horner f 0) (reverse-cons d ds)
    ∙ horner-append f 0 (reverse ds) (d ∷ [])
    ∙ ap (λ v. d + f * v) (horner-reverse f ds)

pub AllBelow-append :
    (b : ℕ) (xs ys : List ℕ) → AllBelow b xs → AllBelow b ys → AllBelow b (xs ++ ys)
AllBelow-append b [] ys h k = k
AllBelow-append b (x ∷ xs) ys (h, hs) k = (h, AllBelow-append b xs ys hs k)

pub AllBelow-reverse : (b : ℕ) (xs : List ℕ) → AllBelow b xs → AllBelow b (reverse xs)
AllBelow-reverse b [] h = tt
AllBelow-reverse b (x ∷ xs) (h, hs) =
    rw (reverse-cons x xs)
      (AllBelow-append b (reverse xs) (x ∷ []) (AllBelow-reverse b xs hs) (h, tt))

pub length-reverse : (xs : List ℕ) → length (reverse xs) ≡ length xs
length-reverse [] = refl
length-reverse (x ∷ xs) =
    rw (reverse-cons x xs) (omega (arith, length-append (reverse xs) (x ∷ []), length-reverse xs))

pub length-map : (f : ℕ → ℕ) (xs : List ℕ) → length (map f xs) ≡ length xs
length-map f [] = refl
length-map f (x ∷ xs) = ap suc (length-map f xs)

pub length-replicate : (n x : ℕ) → length (replicate n x) ≡ n
length-replicate zero x = refl
length-replicate (suc n) x = ap suc (length-replicate n x)

-- No zero at the front.
abbrev pub Starts : List ℕ → Type 0
Starts [] = Unit {0}
Starts (x ∷ xs) = 0 < x

append-IsShort : (xs : List ℕ) (x : ℕ) → 0 < x → IsShort (xs ++ x ∷ [])
append-IsShort [] x h = h
append-IsShort (y ∷ []) x h = h
append-IsShort (y ∷ z ∷ xs) x h = append-IsShort (z ∷ xs) x h

pub reverse-IsShort : (xs : List ℕ) → Starts xs → IsShort (reverse xs)
reverse-IsShort [] h = tt
reverse-IsShort (x ∷ xs) h = rw (reverse-cons x xs) (append-IsShort (reverse xs) x h)

append-Starts : (xs : List ℕ) (x : ℕ) → Starts xs → 0 < length xs → Starts (xs ++ x ∷ [])
append-Starts [] x h p = absurd (omega arith)
append-Starts (y ∷ xs) x h p = h

pub reverse-Starts : (xs : List ℕ) → IsShort xs → Starts (reverse xs)
reverse-Starts [] h = tt
reverse-Starts (x ∷ []) h = h
reverse-Starts (x ∷ y ∷ xs) h = rw (reverse-cons x (y ∷ xs)) (
    append-Starts (reverse (y ∷ xs)) x (reverse-Starts (y ∷ xs) h)
      (omega (arith, length-reverse (y ∷ xs))))

-- Where the zeros at the front end.
pub split_replicate :
    (n z : ℕ) (xs : List ℕ)
    → split_front z xs ≡ (0, xs)
    → split_front z (replicate n z ++ xs) ≡ (n, xs)
unfolding split_front
split_replicate zero z xs h = h
split_replicate (suc n) z xs h = let rest = split_replicate n z xs h in ground (arith, rest)

replicate_more : (n z : ℕ) (ys : List ℕ) → replicate (n + 1) z ++ ys ≡ z ∷ (replicate n z ++ ys)
replicate_more n z ys = rw add-one refl

pub split_back : (xs : List ℕ) → replicate (split_front 0 xs).0 0 ++ (split_front 0 xs).1 ≡ xs
unfolding split_front
split_back [] = refl
split_back (x ∷ xs) = elim (Bool-cases (x == 0)) [
  | inl front ↦
      let rest = split_back xs in
      let none_left : x ≡ 0 = ground arith in
      rw front (replicate_more (split_front 0 xs).0 0 (split_front 0 xs).1 ∙ (cc))
  | inr other ↦ rw other refl
]

pub split_Starts : (xs : List ℕ) → Starts (split_front 0 xs).1
unfolding split_front
split_Starts [] = tt
split_Starts (x ∷ xs) = elim (Bool-cases (x == 0)) [
  | inl front ↦ rw front (split_Starts xs)
  | inr other ↦ rw other (ground arith)
]

pub split_chars :
    (ds : List ℕ)
    → AllBelow 62 ds
    → Starts ds
    → split_front 48 (map char_of ds) ≡ (0, map char_of ds)
unfolding split_front
split_chars [] h s = refl
split_chars (d ∷ ds) (h, hs) s = let apart = char_of-zero d h s in ground (arith, apart)

-- Each step makes the number at least as long.
length-scale : (f b c : ℕ) (ds : List ℕ) → length ds ≤ length (scale f b c ds)
unfolding scale
length-scale f b c [] = omega arith
length-scale f b c (d ∷ ds) = omega (arith, length-scale f b ((c + d * f) / b) ds)

pub length-convert : (f b : ℕ) (ds xs : List ℕ) → length ds ≤ length (convert f b ds xs)
unfolding convert
length-convert f b ds [] = omega arith
length-convert f b ds (x ∷ xs) =
    omega (arith, length-scale f b x ds, length-convert f b (scale f b x ds) xs)
