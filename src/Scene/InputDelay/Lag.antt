-- ===== src/Scene/InputDelay/Lag.antt =====
-- What is published can be read back.
use cccaster_ver_b.Prelude.{ℕ, ◌+◌, ◌<◌, ◌≡◌, none, some, arith}
use cccaster_ver_b.Prelude.Words.{u32_mod}
use cccaster_ver_b.Scene.Input.{GameInput, pack}
use cccaster_ver_b.Scene.InputDelay.{LocalInputHistory, publish, read}

-- The inputs published for a frame are those of the simulated frame before it, for either player,
-- until four frames later; a third player has none. Frame numbers do not wrap here.
pub read-publish :
    (h : LocalInputHistory) (frame k : ℕ) (a b c d : GameInput)
    → frame + 1 + k < u32_mod
    → 0 < k
    → k < 4
    → (read (publish (publish h (frame + 1) a b) (frame + 1 + k) c d) frame 0 ≡ some (pack a))
      × (read (publish (publish h (frame + 1) a b) (frame + 1 + k) c d) frame 1 ≡ some (pack b))
      × (read (publish (publish h (frame + 1) a b) (frame + 1 + k) c d) frame 2 ≡ none)
unfolding publish read
read-publish h frame k a b c d w p q = (ground arith, ground arith, ground arith)
