-- ===== src/Sync/Tests.antt =====
-- Concrete runs of the exchange between the two players.
use cccaster_ver_b.Prelude.{
  ◌≡◌, ◌%◌, ◌*◌, refl, ℕ, true, false, none, some, List, [], ◌∷◌, arith, take, inr,
}
use cccaster_ver_b.Prelude.Int.{ℤ, pos, ◌-ℤ◌}
use cccaster_ver_b.Sync.MatchInput.{
  Buffer, Slot, reset, empty_slot, confirm_remote, consume_mismatch, write_local,
  write_local_stores, run_stores, try_get_local_input, try_get_remote_input,
}
use cccaster_ver_b.Sync.MatchInput.Lanes.{seen, local_reads}
use cccaster_ver_b.Sync.MatchInput.History.{first_confirmed, remote_is_first_confirmed}
use cccaster_ver_b.Sync.MatchInput.Mismatch.{pending, consume-once}
use cccaster_ver_b.Sync.FrameSequence.Order.{Rising, consumed, consumed_once, begins, commits}
use cccaster_ver_b.Sync.Settings.{
  is_valid, apply, capture, sent, carried, game_mask, request_reaches_both, SettingsCommands,
  request, apply-is_valid, SettingsCommands, request,
}
use cccaster_ver_b.Sync.Retry.Agreement.{
  accept_notices, accept_notices-Extends, releases_agree, frames, start,
}
use cccaster_ver_b.Sync.BoundedWait.{Observation, Returns, wait-Returns}
use cccaster_ver_b.Sync.MatchInput.History
use cccaster_ver_b.Sync.FrameSequence
use cccaster_ver_b.Sync.Settings
use cccaster_ver_b.Sync.Retry

abbrev unused : Slot
unused = record {
  local_frame = empty_slot;
  local_snapshot = 0;
  predicted_remote = 0;
  rollbackable = false;
  remote_frame = empty_slot;
  remote_snapshot = 0;
}

abbrev cleared : Buffer
cleared = record {
  ring = λ i. unused;
  write_head = 20;
  loading_input = 0;
  game_read_frame = empty_slot;
  mismatch_frame = 0;
  has_mismatch = false;
  confirmed_remote_frame = 14;
  confirm_conflicts = 0;
  delay = pos 2;
  max_rollback = pos 3;
}

-- Frame 5 runs with the prediction 7; 9 is confirmed for it, and then 4, too late.
abbrev session : List History.Call
session = History.confirms 5 4 ∷ History.confirms 5 9 ∷ History.writes 5 1 7 true ∷ []

local_reads_example :
    try_get_local_input (run_stores 5 (write_local_stores 605 3 7 true) cleared) 605
    ≡ seen cleared 605 3 605
local_reads_example = local_reads cleared 605 3 7 true 605 4 (omega arith) (omega arith)

remote_is_first_confirmed_example : first_confirmed 5 session ≡ some 9
unfolding try_get_remote_input History.after History.step reset confirm_remote write_local
remote_is_first_confirmed_example =
    remote_is_first_confirmed cleared 5 session 9 (omega arith)
      (omega arith, omega arith, (omega arith, omega arith, (omega arith, omega arith, tt))) refl

abbrev mismatched : Buffer
mismatched = record cleared { mismatch_frame = 5; has_mismatch = true }

consume-once_example :
    ((consume_mismatch mismatched).0 ≡ pending mismatched)
    × (pending (consume_mismatch mismatched).1 ≡ none)
    × ((consume_mismatch (consume_mismatch mismatched).1).0 ≡ none)
    × ((consume_mismatch mismatched).1.ring ≡ mismatched.ring)
consume-once_example = consume-once mismatched

-- Two frames in the first phase, one of them given twice, and then one in the second phase.
consumed_once_example : Rising 0 (
    consumed FrameSequence.initial
      (begins 2 ∷ commits 65537 ∷ commits 65537 ∷ commits 65538 ∷ begins 2 ∷ commits 131073 ∷ []))
consumed_once_example =
    consumed_once
      (begins 2 ∷ commits 65537 ∷ commits 65537 ∷ commits 65538 ∷ begins 2 ∷ commits 131073 ∷ [])

abbrev settings : SettingsCommands
settings = Settings.reset (pos 2) (pos 7)

abbrev others : SettingsCommands
others = Settings.reset (pos 3) (pos 6)

request_reaches_both_example :
    let packed = carried settings true 4 99 in
    let mine = (apply (capture (sent settings true 4)).1 packed true).1 in
    let theirs = (apply others packed false).1 in
    ((request settings true (pos 4)).0 ≡ true)
    × (packed % game_mask ≡ 99)
    × (mine.delay ≡ settings.delay)
    × (mine.rollback ≡ pos 4)
    × (mine.pending ≡ 0)
    × (mine.queued ≡ 0)
    × (theirs.delay ≡ others.delay)
    × (theirs.rollback ≡ pos 4)
    × (theirs.pending ≡ others.pending)
unfolding Settings.reset is_valid
request_reaches_both_example =
    request_reaches_both settings others true 4 99 refl (omega arith) (omega arith) refl refl

abbrev undecided : Retry.RetrySelection
undecided = record { epoch = 65536; choice = 0; ack = 0 }

abbrev rematch : Retry.RetrySelection
rematch = record { epoch = 65536; choice = 1; ack = 1 }

retry_notices_example :
    (Retry.valid (accept_notices undecided (rematch ∷ undecided ∷ [])) ≡ true)
    × Retry.Agreement.Extends undecided (accept_notices undecided (rematch ∷ undecided ∷ []))
unfolding Retry.valid
retry_notices_example = accept_notices-Extends undecided (rematch ∷ undecided ∷ []) refl

abbrev decided : Retry.RetrySelection
decided = record { epoch = 65536; choice = 1; ack = 0 }

-- Both choose a rematch in the first frame, and acknowledge the other's choice in the second.
abbrev menus : List (Retry.RetrySelection × ℤ)
menus = (Retry.unknown, pos 0) ∷ (decided, pos 0) ∷ []

decided_lem : decided ≡ frames (start 65536) (take 1 menus)
unfolding Retry.decide
decided_lem = refl

rematch_lem : rematch ≡ frames (start 65536) (take 2 menus)
unfolding Retry.decide
rematch_lem = refl

-- An older notice comes late.
releases_agree_example :
    Retry.result
      (frames (start 65536) (take 2 menus))
      (accept_notices Retry.unknown (rematch ∷ decided ∷ []))
    ≡ Retry.result
        (frames (start 65536) (take 2 menus))
        (accept_notices Retry.unknown (decided ∷ rematch ∷ []))
unfolding Retry.can_release Retry.valid Retry.result Retry.accept accept_notices Retry.decide
releases_agree_example =
    releases_agree 65536 2 2 menus menus (decided ∷ rematch ∷ []) (rematch ∷ decided ∷ [])
      (inr (1, decided_lem), (inr (2, rematch_lem), tt))
      (inr (2, rematch_lem), (inr (1, decided_lem), tt)) refl refl

-- The clock goes on by 100 a round, and nothing else happens.
abbrev ticking : ℕ → Observation
ticking n = record { cancel = false; alive = true; clock = pos (n * 100); is_ready = false }

wait-Returns_example : Returns (pos 250) (pos 0) ticking 3 0
unfolding ◌-ℤ◌
wait-Returns_example = wait-Returns (pos 250) (pos 0) ticking 3 0 (ground arith)
