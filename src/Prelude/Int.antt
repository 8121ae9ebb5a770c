-- ===== src/Prelude/Int.antt =====
-- Signed integers over the native numbers, with the operations of C++: division and remainder
-- round towards zero.
use Prim.Native.Nat.{ℕ, suc, ◌+◌, ◌-◌, ◌*◌, ◌/◌, ◌%◌, ◌≤◌, ◌<◌}
use mathlib.Core.Path.{◌≡◌, refl, ap}
use mathlib.Core.Bool.{Bool, true}
use native.Mathlib.Omega.{arith}
use native.Mathlib.Nat.{div-add-mod}
use cccaster_ver_b.Prelude.Tests.{ltb, leb, ◌==◌, if◌then◌else◌}

-- `negsuc n` is -(n + 1).
pub data ℤ : Type 0 where
  pos : ℕ → ℤ
  negsuc : ℕ → ℤ

abbrev pub pos_part : ℤ → ℕ
pos_part (pos n) = n
pos_part (negsuc n) = 0

abbrev pub neg_part : ℤ → ℕ
neg_part (pos n) = 0
neg_part (negsuc n) = suc n

-- a - b, as an integer.
abbrev pub sub_ℕ : ℕ → ℕ → ℤ
sub_ℕ a b = if leb b a then pos (a - b) else negsuc (b - a - 1)

infixl 65 ◌+ℤ◌ ◌-ℤ◌
infixl 70 ◌*ℤ◌
infix 50 ◌≤ℤ◌ ◌<ℤ◌
unfoldable pub ◌+ℤ◌ : ℤ → ℤ → ℤ
a +ℤ b = sub_ℕ (pos_part a + pos_part b) (neg_part a + neg_part b)

unfoldable pub ◌-ℤ◌ : ℤ → ℤ → ℤ
a -ℤ b = sub_ℕ (pos_part a + neg_part b) (neg_part a + pos_part b)

unfoldable pub ◌*ℤ◌ : ℤ → ℤ → ℤ
a *ℤ b =
    sub_ℕ (pos_part a * pos_part b + neg_part a * neg_part b)
      (pos_part a * neg_part b + neg_part a * pos_part b)

abbrev pub ◌≤ℤ◌ : ℤ → ℤ → Type 0
a ≤ℤ b = pos_part a + neg_part b ≤ pos_part b + neg_part a

abbrev pub ◌<ℤ◌ : ℤ → ℤ → Type 0
a <ℤ b = pos_part a + neg_part b < pos_part b + neg_part a

abbrev pub ltb_ℤ : ℤ → ℤ → Bool
ltb_ℤ a b = ltb (pos_part a + neg_part b) (pos_part b + neg_part a)

abbrev pub leb_ℤ : ℤ → ℤ → Bool
leb_ℤ a b = leb (pos_part a + neg_part b) (pos_part b + neg_part a)

abbrev pub eqb_ℤ : ℤ → ℤ → Bool
eqb_ℤ a b = (pos_part a + neg_part b) == (pos_part b + neg_part a)

-- Division and remainder by a positive number, rounding towards zero.
unfoldable pub div_ℤ : ℤ → ℕ → ℤ
div_ℤ (pos n) d = pos (n / d)
div_ℤ (negsuc n) d = sub_ℕ 0 (suc n / d)

unfoldable pub mod_ℤ : ℤ → ℕ → ℤ
mod_ℤ (pos n) d = pos (n % d)
mod_ℤ (negsuc n) d = sub_ℕ 0 (suc n % d)

unfoldable pub min_ℤ : ℤ → ℤ → ℤ
min_ℤ a b = if ltb_ℤ b a then b else a

unfoldable pub max_ℤ : ℤ → ℤ → ℤ
max_ℤ a b = if ltb_ℤ a b then b else a

-- `std::clamp`.
unfoldable pub clamp_ℤ : ℤ → ℤ → ℤ → ℤ
clamp_ℤ v lo hi = if ltb_ℤ v lo then lo else if ltb_ℤ hi v then hi else v

-- `omega` reads the operations through these laws on the two parts.
pub +ℤ_parts :
    (a b : ℤ)
    → pos_part (a +ℤ b) + neg_part a + neg_part b ≡ neg_part (a +ℤ b) + pos_part a + pos_part b
unfolding ◌+ℤ◌
+ℤ_parts a b = ground arith

pub -ℤ_parts :
    (a b : ℤ)
    → pos_part (a -ℤ b) + neg_part a + pos_part b ≡ neg_part (a -ℤ b) + pos_part a + neg_part b
unfolding ◌-ℤ◌
-ℤ_parts a b = ground arith

pub eq_of_parts : (a b : ℤ) → pos_part a + neg_part b ≡ pos_part b + neg_part a → a ≡ b
eq_of_parts a b h = ground arith

pub ltb_ℤ→lt : (a b : ℤ) → ltb_ℤ a b ≡ true → a <ℤ b
ltb_ℤ→lt a b h = ground arith

-- The quotient and the remainder recompose, and the remainder is smaller than the divisor.
pub div_mod_ℤ_parts : (a : ℤ) (d : ℕ) → pos_part (div_ℤ a d) * d + pos_part (mod_ℤ a d) ≡ pos_part a
unfolding div_ℤ mod_ℤ
div_mod_ℤ_parts (pos n) d = grind arith
div_mod_ℤ_parts (negsuc n) d = grind arith

pub clamp_ℤ_bounds : (v lo hi : ℤ) → lo ≤ℤ hi → (lo ≤ℤ clamp_ℤ v lo hi) × (clamp_ℤ v lo hi ≤ℤ hi)
unfolding clamp_ℤ
clamp_ℤ_bounds v lo hi h = ground arith

pub ruleset int_laws = (arith, +ℤ_parts, -ℤ_parts, eq_of_parts)

-- Scaling by a number that is not negative acts on the parts.
pub mul_pos_parts :
    (a : ℤ) (d : ℕ)
    → (pos_part (a *ℤ pos d) ≡ pos_part a * d) × (neg_part (a *ℤ pos d) ≡ neg_part a * d)
unfolding ◌*ℤ◌
mul_pos_parts (pos n) d = (ground arith, ground arith)
mul_pos_parts (negsuc n) d = (ground arith, ground arith)

pub add_mul_ℤ : (a b : ℤ) (d : ℕ) → (a +ℤ b) *ℤ pos d ≡ a *ℤ pos d +ℤ b *ℤ pos d
add_mul_ℤ a b d = omega (
  int_laws,
  mul_pos_parts (a +ℤ b) d,
  mul_pos_parts a d,
  mul_pos_parts b d,
  ap (λ (t : ℕ). t * d) (+ℤ_parts a b),
)

pub div_ℤ_parts :
    (a : ℤ) (d : ℕ)
    → (pos_part (div_ℤ a d) ≡ pos_part a / d) × (neg_part (div_ℤ a d) ≡ neg_part a / d)
unfolding div_ℤ
div_ℤ_parts (pos n) d = (refl, ground arith)
div_ℤ_parts (negsuc n) d = (ground arith, ground arith)

pub mod_ℤ_parts :
    (a : ℤ) (d : ℕ)
    → (pos_part (mod_ℤ a d) ≡ pos_part a % d) × (neg_part (mod_ℤ a d) ≡ neg_part a % d)
unfolding mod_ℤ
mod_ℤ_parts (pos n) d = (refl, ground arith)
mod_ℤ_parts (negsuc n) d = (ground arith, ground arith)

-- Dividing and taking the remainder loses nothing, whatever the sign.
pub div-mod_ℤ : (a : ℤ) (d : ℕ) → div_ℤ a d *ℤ pos d +ℤ mod_ℤ a d ≡ a
div-mod_ℤ a d = omega (
  int_laws,
  mul_pos_parts (div_ℤ a d) d,
  div_ℤ_parts a d,
  mod_ℤ_parts a d,
  ap (λ (t : ℕ). t * d) (div_ℤ_parts a d).0,
  ap (λ (t : ℕ). t * d) (div_ℤ_parts a d).1,
  div-add-mod (pos_part a) d,
  div-add-mod (neg_part a) d,
)
