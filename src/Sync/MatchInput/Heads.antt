-- ===== src/Sync/MatchInput/Heads.antt =====
-- Read positions and heads.
use cccaster_ver_b.Prelude.{ℕ, ◌+◌, ◌-◌, ◌^◌, ◌<◌, ◌≡◌, ◌==◌, max, min, if◌then◌else◌, arith}
use cccaster_ver_b.Prelude.Int.{pos}
use cccaster_ver_b.Sync.MatchInput.{Buffer, empty_slot, get_read_pos, get_effective_head}

-- With no explicit frame, a delay and a rollback that are not negative and a write head below
-- 2 ^ 31, the game reads D + R frames behind the write head, one at least, and never before frame
-- 0; the effective head is that position, held back by the newest confirmed frame if there is one.
pub read_positions :
    (b : Buffer) (d r : ℕ)
    → b.delay ≡ pos d
    → b.max_rollback ≡ pos r
    → b.write_head < 2 ^ 31
    → b.game_read_frame ≡ empty_slot
    → (get_read_pos b ≡ b.write_head - max (d + r) 1)
      × (get_effective_head b ≡ (
          if b.confirmed_remote_frame == empty_slot
          then b.write_head - max (d + r) 1
          else min (b.write_head - max (d + r) 1) b.confirmed_remote_frame))
unfolding get_read_pos get_effective_head
read_positions b d r hd hr hw hg = (ground arith, ground arith)
