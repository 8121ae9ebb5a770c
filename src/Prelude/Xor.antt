-- ===== src/Prelude/Xor.antt =====
-- The laws of `bit_xor` that a cipher rests on.
use Prim.Native.Nat.{
  ℕ, zero, suc, ◌+◌, ◌*◌, ◌/◌, ◌%◌, ◌^◌, ◌≤◌, ◌<◌, bit_xor, digits, differ, bit_xor-bitwise,
}
use mathlib.Core.Path.{◌≡◌, refl, ◌∙◌, ap}
use native.Mathlib.Omega.{arith}

-- The digit recursion that the native operation stands for, with any fuel from the left word on.
abbrev run : ℕ → ℕ → ℕ → ℕ
run fuel x y = digits (λ b. b) differ fuel x y

enough : (n m x y : ℕ) → x ≤ n → x ≤ m → run n x y ≡ run m x y
enough zero zero x y p q = refl
enough zero (suc m) zero y p q = refl
enough (suc n) zero zero y p q = refl
enough (suc n) (suc m) zero y p q = refl
enough zero m (suc x) y p q = absurd (omega arith)
enough (suc n) zero (suc x) y p q = absurd (omega arith)
enough (suc n) (suc m) (suc x) y p q =
    let half = enough n m (suc x / 2) (y / 2) (omega arith) (omega arith) in omega (arith, half)

differ_digits : (a b : ℕ) → a < 2 → b < 2 → differ a b ≡ (a + b) % 2
differ_digits zero b p q = omega arith
differ_digits (suc zero) zero p q = refl
differ_digits (suc zero) (suc zero) p q = refl
differ_digits (suc (suc a)) b p q = absurd (omega arith)
differ_digits (suc zero) (suc (suc b)) p q = absurd (omega arith)

nothing : (y : ℕ) → bit_xor 0 y ≡ y
nothing y = bit_xor-bitwise 0 y

-- The lowest digits are compared, and the rest alike.
by_halves : (x y : ℕ) → bit_xor x y ≡ bit_xor (x / 2) (y / 2) * 2 + (x % 2 + y % 2) % 2
by_halves zero y = let a = nothing y in let b = nothing (y / 2) in omega (arith, a, b)
by_halves (suc x) y =
    let whole = bit_xor-bitwise (suc x) y in
    let half = bit_xor-bitwise (suc x / 2) (y / 2) in
    let same = enough x (suc x / 2) (suc x / 2) (y / 2) (omega arith) (omega arith) in
    let digit = differ_digits (suc x % 2) (y % 2) (omega arith) (omega arith) in
    omega (arith, whole, half, same, digit)

low : (x y : ℕ) → (bit_xor x y % 2 ≡ (x + y) % 2) × (bit_xor x y / 2 ≡ bit_xor (x / 2) (y / 2))
low x y = (omega (arith, by_halves x y), omega (arith, by_halves x y))

twice_below : (n x y : ℕ) → x ≤ n → y ≤ n → bit_xor (bit_xor x y) y ≡ x
twice_below zero zero zero p q = ap (λ t. bit_xor t 0) (nothing 0) ∙ nothing 0
twice_below zero (suc x) y p q = absurd (omega arith)
twice_below zero zero (suc y) p q = absurd (omega arith)
twice_below (suc n) x y p q =
    let whole = by_halves (bit_xor x y) y in
    let digits_of = low x y in
    let half = ap (λ t. bit_xor t (y / 2)) digits_of.1 in
    let rest = twice_below n (x / 2) (y / 2) (omega arith) (omega arith) in
    omega (arith, whole, digits_of.0, half, rest)

-- A key that is applied twice is gone.
pub bit_xor_twice : (x y : ℕ) → bit_xor (bit_xor x y) y ≡ x
bit_xor_twice x y = twice_below (x + y) x y (omega arith) (omega arith)

pub bit_xor-lt : (k x y : ℕ) → x < 2 ^ k → y < 2 ^ k → bit_xor x y < 2 ^ k
bit_xor-lt zero zero y p q = omega (arith, nothing y)
bit_xor-lt zero (suc x) y p q = absurd (omega arith)
bit_xor-lt (suc k) x y p q =
    omega (arith, by_halves x y, bit_xor-lt k (x / 2) (y / 2) (omega arith) (omega arith))
