-- ===== src/Prelude/Masks.antt =====
-- Masks: the laws of `bit_and` and `bit_or` that filters of buttons rest on, for words of any width.
use Prim.Native.Nat.{
  ℕ, zero, suc, ◌+◌, ◌*◌, ◌/◌, ◌%◌, ◌^◌, ◌≤◌, ◌<◌, min, max, bit_and, bit_or, digits,
  bit_and-bitwise, bit_or-bitwise,
}
use mathlib.Core.Path.{◌≡◌, refl, ◌∙◌, sym, ap}
use native.Mathlib.Omega.{arith}

abbrev pub word_mod : ℕ
word_mod = 65536

-- The digit recursion that the native operation stands for, with any fuel from the left word on.
abbrev run : ℕ → ℕ → ℕ → ℕ
run fuel x y = digits (λ _. zero) min fuel x y

-- More fuel changes nothing.
enough : (n m x y : ℕ) → x ≤ n → x ≤ m → run n x y ≡ run m x y
enough zero zero x y p q = refl
enough zero (suc m) zero y p q = refl
enough (suc n) zero zero y p q = refl
enough (suc n) (suc m) zero y p q = refl
enough zero m (suc x) y p q = absurd (omega arith)
enough (suc n) zero (suc x) y p q = absurd (omega arith)
enough (suc n) (suc m) (suc x) y p q =
    let half = enough n m (suc x / 2) (y / 2) (omega arith) (omega arith) in omega (arith, half)

nothing_left : (y : ℕ) → bit_and 0 y ≡ 0
nothing_left y = bit_and-bitwise 0 y

-- The lowest digits are combined, and the rest is masked alike.
by_halves : (x y : ℕ) → bit_and x y ≡ bit_and (x / 2) (y / 2) * 2 + min (x % 2) (y % 2)
by_halves zero y = let a = nothing_left y in let b = nothing_left (y / 2) in omega (arith, a, b)
by_halves (suc x) y =
    let whole = bit_and-bitwise (suc x) y in
    let half = bit_and-bitwise (suc x / 2) (y / 2) in
    let same = enough x (suc x / 2) (suc x / 2) (y / 2) (omega arith) (omega arith) in
    omega (arith, whole, half, same)

nothing_right : (n x : ℕ) → x ≤ n → bit_and x 0 ≡ 0
nothing_right n zero h = nothing_left 0
nothing_right zero (suc x) h = absurd (omega arith)
nothing_right (suc n) (suc x) h =
    let half = nothing_right n (suc x / 2) (omega arith) in omega (arith, by_halves (suc x) 0, half)

pub bit_and-zero : (x : ℕ) → bit_and x 0 ≡ 0
bit_and-zero x = nothing_right x x (omega arith)

low :
    (x y : ℕ)
    → (bit_and x y % 2 ≡ min (x % 2) (y % 2)) × (bit_and x y / 2 ≡ bit_and (x / 2) (y / 2))
low x y = (omega (arith, by_halves x y), omega (arith, by_halves x y))

halves :
    (x y z : ℕ)
    → bit_and (bit_and (x / 2) (y / 2)) (z / 2) ≡ bit_and (x / 2) (bit_and (y / 2) (z / 2))
    → bit_and (bit_and x y) z ≡ bit_and x (bit_and y z)
halves x y z h =
    let xy = low x y in
    let yz = low y z in
    let left = by_halves (bit_and x y) z in
    let right = by_halves x (bit_and y z) in
    omega (
      arith,
      left,
      right,
      xy.0,
      yz.0,
      ap (λ t. bit_and t (z / 2)) xy.1,
      ap (bit_and (x / 2)) yz.1,
      h,
    )

assoc_below : (n x y z : ℕ) → x ≤ n → bit_and (bit_and x y) z ≡ bit_and x (bit_and y z)
assoc_below n zero y z h =
    ap (λ t. bit_and t z) (nothing_left y) ∙ nothing_left z ∙ sym (nothing_left (bit_and y z))
assoc_below zero (suc x) y z h = absurd (omega arith)
assoc_below (suc n) (suc x) y z h =
    halves (suc x) y z (assoc_below n (suc x / 2) (y / 2) (z / 2) (omega arith))

-- Masking twice is masking by the common bits.
pub bit_and_assoc : (x y z : ℕ) → bit_and (bit_and x y) z ≡ bit_and x (bit_and y z)
bit_and_assoc x y z = assoc_below x x y z (omega arith)

-- A mask takes bits away.
le_below : (n x y : ℕ) → x ≤ n → bit_and x y ≤ x
le_below n zero y h = omega (arith, nothing_left y)
le_below zero (suc x) y h = absurd (omega arith)
le_below (suc n) (suc x) y h =
    omega (arith, by_halves (suc x) y, le_below n (suc x / 2) (y / 2) (omega arith))

pub bit_and-le : (x y : ℕ) → bit_and x y ≤ x
bit_and-le x y = le_below x x y (omega arith)

-- The digit recursion of `bit_or`, likewise.
abbrev run_or : ℕ → ℕ → ℕ → ℕ
run_or fuel x y = digits (λ b. b) max fuel x y

enough_or : (n m x y : ℕ) → x ≤ n → x ≤ m → run_or n x y ≡ run_or m x y
enough_or zero zero x y p q = refl
enough_or zero (suc m) zero y p q = refl
enough_or (suc n) zero zero y p q = refl
enough_or (suc n) (suc m) zero y p q = refl
enough_or zero m (suc x) y p q = absurd (omega arith)
enough_or (suc n) zero (suc x) y p q = absurd (omega arith)
enough_or (suc n) (suc m) (suc x) y p q =
    let half = enough_or n m (suc x / 2) (y / 2) (omega arith) (omega arith) in omega (arith, half)

or_halves : (x y : ℕ) → bit_or (suc x) y ≡ bit_or (suc x / 2) (y / 2) * 2 + max (suc x % 2) (y % 2)
or_halves x y =
    let whole = bit_or-bitwise (suc x) y in
    let half = bit_or-bitwise (suc x / 2) (y / 2) in
    let same = enough_or x (suc x / 2) (suc x / 2) (y / 2) (omega arith) (omega arith) in
    omega (arith, whole, half, same)

-- The union of the bits of two numbers is at most their sum, and has no more bits than they.
pub bit_or-lt : (k x y : ℕ) → x < 2 ^ k → y < 2 ^ k → bit_or x y < 2 ^ k
bit_or-lt k zero y p q = omega (arith, bit_or-bitwise 0 y)
bit_or-lt zero (suc x) y p q = absurd (omega arith)
bit_or-lt (suc k) (suc x) y p q =
    omega (arith, or_halves x y, bit_or-lt k (suc x / 2) (y / 2) (omega arith) (omega arith))
