-- ===== src/Scene/Input.antt =====
-- src/src/core_dll/mbaa_mem/GameInput.hpp and MbaaInputDefs.hpp: one player's input for one frame.
use Prim.Native.Nat.{bit_and}
use cccaster_ver_b.Prelude.{ℕ, ◌+◌, ◌*◌, ◌/◌, ◌%◌, ◌^◌, ◌<◌, ◌≡◌, Bool, not, ◌&&◌, ◌==◌, arith, ◌-◌}
use cccaster_ver_b.Prelude.Masks.{word_mod}

-- `uint16_t` fields; the direction is as on a number pad, with 0 for neutral.
pub record GameInput : Type 0 where
  pub direction : ℕ
  pub buttons : ℕ

abbrev pub neutral : GameInput
neutral = record { direction = 0; buttons = 0 }

-- The halves are disjoint, so that `|` is a sum.
unfoldable pub pack : GameInput → ℕ
pack i = i.direction * word_mod + i.buttons

unfoldable pub unpack : ℕ → GameInput
unpack packed = record { direction = packed / word_mod % word_mod; buttons = packed % word_mod }

abbrev pub is_neutral : GameInput → Bool
is_neutral i = i.direction == 0 && i.buttons == 0

abbrev pub button_a : ℕ
button_a = 0x10

abbrev pub button_b : ℕ
button_b = 0x20

abbrev pub button_start : ℕ
button_start = 0x1

abbrev pub button_fn1 : ℕ
button_fn1 = 0x100

abbrev pub button_fn2 : ℕ
button_fn2 = 0x200

abbrev pub button_confirm : ℕ
button_confirm = 0x400

abbrev pub button_cancel : ℕ
button_cancel = 0x800

-- `buttons & mask` as a test.
abbrev pub pressed : ℕ → ℕ → Bool
pressed buttons mask = not (bit_and buttons mask == 0)

-- `buttons &= ~mask` on 16 bits.
abbrev pub without : ℕ → ℕ → ℕ
without buttons mask = bit_and buttons (0xffff - mask)

abbrev pub IsInput : GameInput → Type 0
IsInput i = (i.direction < word_mod) × (i.buttons < word_mod)

-- Packing and unpacking are inverse: on 16-bit fields, and on 32-bit words.
pub unpack-pack : (i : GameInput) → IsInput i → unpack (pack i) ≡ i
unfolding pack unpack
unpack-pack i h = ground arith

pub pack-unpack : (w : ℕ) → w < 2 ^ 32 → pack (unpack w) ≡ w
unfolding pack unpack
pack-unpack w h = omega arith
