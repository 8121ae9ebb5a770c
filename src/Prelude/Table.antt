-- ===== src/Prelude/Table.antt =====
-- Arrays of a fixed size that are always indexed modulo that size, as functions of the index.
use Prim.Native.Nat.{ℕ}
use mathlib.Core.Path.{◌≡◌}
use mathlib.Core.Logic.{◌≢◌}
use native.Mathlib.Omega.{arith}
use cccaster_ver_b.Prelude.Tests.{◌==◌, if◌then◌else◌}

module _ {ℓ} {A : Type ℓ} where
  abbrev pub set_at : (ℕ → A) → ℕ → A → ℕ → A
  set_at f i v j = if i == j then v else f j

  pub set_at_self : (f : ℕ → A) (i : ℕ) (v : A) → set_at f i v i ≡ v
  set_at_self f i v = ground arith

  pub set_at_ne : (f : ℕ → A) (i j : ℕ) (v : A) → i ≢ j → set_at f i v j ≡ f j
  set_at_ne f i j v h = ground arith
