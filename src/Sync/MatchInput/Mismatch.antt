-- ===== src/Sync/MatchInput/Mismatch.antt =====
-- Wrong predictions: where the rollback has to start.
use cccaster_ver_b.Prelude.{
  ℕ, ◌≡◌, Bool, Option, none, some, ◌==◌, ltb, not, ◌&&◌, min, if◌then◌else◌, arith,
}
use cccaster_ver_b.Prelude.Words.{low32}
use cccaster_ver_b.Sync.MatchInput.{
  Buffer, Slot, slot_of, empty_slot, confirm_remote, consume_mismatch,
}

-- The oldest mismatch that waits to be taken.
abbrev pub pending : Buffer → Option ℕ
pending b = if b.has_mismatch then some b.mismatch_frame else none

abbrev pub oldest : Option ℕ → ℕ → ℕ
oldest none f = f
oldest (some g) f = min g f

-- A confirmation reveals a mismatch: the frame had another confirmed value, or (where the slot is
-- free or older) the local input of that frame was run with another prediction.
abbrev pub reveals : Slot → ℕ → ℕ → Bool
reveals s frame input =
    if s.remote_frame == frame
    then not (low32 s.remote_snapshot == input)
    else not (not (s.remote_frame == empty_slot) && ltb frame s.remote_frame)
      && (s.local_frame == frame && not (s.predicted_remote == input))

-- A confirmation leaves the oldest revealed mismatch pending: one that reveals a mismatch takes the
-- minimum with the pending one, any other leaves it alone.
pub pending-confirm :
    (b : Buffer) (frame input : ℕ)
    → pending (confirm_remote b frame input) ≡ (
        if reveals (slot_of b frame) frame input
        then some (oldest (pending b) frame)
        else pending b)
unfolding confirm_remote
pending-confirm b frame input = ground arith

-- Taking the mismatch hands out the oldest one once, and touches nothing else.
pub consume-once :
    (b : Buffer)
    → ((consume_mismatch b).0 ≡ pending b)
      × (pending (consume_mismatch b).1 ≡ none)
      × ((consume_mismatch (consume_mismatch b).1).0 ≡ none)
      × ((consume_mismatch b).1.ring ≡ b.ring)
unfolding consume_mismatch
consume-once b = (ground arith, ground arith, ground arith, ground arith)
