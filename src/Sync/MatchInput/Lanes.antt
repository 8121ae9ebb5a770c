-- ===== src/Sync/MatchInput/Lanes.antt =====
-- What a reader of one lane sees while the other thread writes.
use cccaster_ver_b.Prelude.{
  ℕ, zero, suc, ◌%◌, ◌<◌, ◌≡◌, Bool, Option, none, some, ◌==◌, if◌then◌else◌, arith,
}
use cccaster_ver_b.Prelude.Words.{u32_mod}
use cccaster_ver_b.Sync.MatchInput.{
  Buffer, ring_size, run_stores, write_local_stores, try_get_local_input,
}

-- Reading frame `g` after some of the stores that write frame `frame`.
abbrev pub seen : Buffer → ℕ → ℕ → ℕ → Option ℕ
seen b frame input g =
    if frame % ring_size == g % ring_size
    then if frame == g then some input else none
    else try_get_local_input b g

-- A reader of the local lane that runs after any number of the stores of a write sees the slot of
-- every frame either as it was before the first store, or (from the first store on) with exactly
-- the new frame number and input: a frame that shares the slot is no longer readable, and no other
-- frame is changed. The frame and the input are 32-bit values.
pub local_reads :
    (b : Buffer) (frame input predicted : ℕ) (rollbackable : Bool) (g n : ℕ)
    → frame < u32_mod
    → input < u32_mod
    → try_get_local_input
        (run_stores (suc n) (write_local_stores frame input predicted rollbackable) b)
        g
      ≡ seen b frame input g
unfolding try_get_local_input write_local_stores
local_reads b frame input predicted rollbackable g zero hf hi = ground arith
local_reads b frame input predicted rollbackable g (suc zero) hf hi = ground arith
local_reads b frame input predicted rollbackable g (suc (suc zero)) hf hi = ground arith
local_reads b frame input predicted rollbackable g (suc (suc (suc zero))) hf hi = ground arith
local_reads b frame input predicted rollbackable g (suc (suc (suc (suc zero)))) hf hi = ground arith
local_reads b frame input predicted rollbackable g (suc (suc (suc (suc (suc n))))) hf hi =
    ground arith
