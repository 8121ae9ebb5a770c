-- ===== src/Prelude/Words.antt =====
-- Machine words as native numbers.
use Prim.Native.Nat.{ℕ, ◌+◌, ◌-◌, ◌*◌, ◌/◌, ◌%◌, ◌^◌}
use cccaster_ver_b.Prelude.Tests.{ltb, if◌then◌else◌}
use cccaster_ver_b.Prelude.Int.{ℤ, pos, negsuc}

abbrev pub u32_mod : ℕ
u32_mod = 2 ^ 32

-- `uint32_t` sum and difference.
abbrev pub add32 : ℕ → ℕ → ℕ
add32 a b = (a + b) % u32_mod

abbrev pub sub32 : ℕ → ℕ → ℕ
sub32 a b = (a + u32_mod - b) % u32_mod

-- `uint64_t(hi) << 32 | lo`: the bits are disjoint, so the `|` is a sum.
abbrev pub pack64 : ℕ → ℕ → ℕ
pack64 hi lo = hi * u32_mod + lo

abbrev pub high32 : ℕ → ℕ
high32 w = w / u32_mod

abbrev pub low32 : ℕ → ℕ
low32 w = w % u32_mod

-- `static_cast<int32_t>` of a 32-bit pattern.
abbrev pub signed32 : ℕ → ℤ
signed32 w = if ltb w (2 ^ 31) then pos w else negsuc (u32_mod - w - 1)
