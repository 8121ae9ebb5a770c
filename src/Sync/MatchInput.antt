-- ===== src/Sync/MatchInput.antt =====
-- src/src/core_dll/sync/MatchInputBuffer.hpp: the ring of both players' inputs, by frame number.
-- The ring is a function of the index, which is always taken modulo its size. The local lane is
-- written by the game thread and the remote lane by the network thread; a call that makes several
-- atomic stores is the list of those stores, so that a reader may run between any two.
pub mod Lanes
pub mod History
pub mod Mismatch
pub mod Heads
use cccaster_ver_b.Prelude.{
  ℕ, zero, suc, ◌+◌, ◌*◌, ◌%◌, Bool, true, false, not, ◌&&◌, ◌||◌, Option, none, some, List, [],
  ◌∷◌, ltb, leb, ◌==◌, if◌then◌else◌,
}
use cccaster_ver_b.Prelude.Int.{ℤ, pos, negsuc, ◌+ℤ◌, ◌-ℤ◌, pos_part, neg_part, ltb_ℤ, leb_ℤ}
use cccaster_ver_b.Prelude.Table.{set_at}
use cccaster_ver_b.Prelude.Words.{pack64, high32, low32, signed32, add32}

abbrev pub ring_size : ℕ
ring_size = 600

-- UINT32_MAX, an unused slot.
abbrev pub empty_slot : ℕ
empty_slot = 0xffff_ffff

pub record Slot : Type 0 where
  pub local_frame : ℕ
  pub local_snapshot : ℕ
  pub predicted_remote : ℕ
  pub rollbackable : Bool
  pub remote_frame : ℕ
  pub remote_snapshot : ℕ

pub record Buffer : Type 0 where
  pub ring : ℕ → Slot
  pub write_head : ℕ
  pub loading_input : ℕ
  pub game_read_frame : ℕ
  pub mismatch_frame : ℕ
  pub has_mismatch : Bool
  pub confirmed_remote_frame : ℕ
  pub confirm_conflicts : ℕ
  pub delay : ℤ
  pub max_rollback : ℤ

abbrev pub slot_of : Buffer → ℕ → Slot
slot_of b frame = b.ring (frame % ring_size)

abbrev pub put_slot : Buffer → ℕ → Slot → Buffer
put_slot b frame s = record b { ring = set_at b.ring (frame % ring_size) s }

-- The atomic stores of `WriteLocal`, in program order.
unfoldable pub write_local_stores : ℕ → ℕ → ℕ → Bool → List (Buffer → Buffer)
write_local_stores frame input predicted rollbackable =
    (λ b. put_slot b frame (record (slot_of b frame) { local_snapshot = pack64 frame input }))
    ∷ (λ b. put_slot b frame (record (slot_of b frame) { predicted_remote = predicted }))
    ∷ (λ b. put_slot b frame (record (slot_of b frame) { rollbackable = rollbackable }))
    ∷ (λ b. put_slot b frame (record (slot_of b frame) { local_frame = frame }))
    ∷ (λ b. record b { write_head = frame })
    ∷ []

-- The state after the first `n` stores.
abbrev pub run_stores : ℕ → List (Buffer → Buffer) → Buffer → Buffer
run_stores zero stores b = b
run_stores (suc n) [] b = b
run_stores (suc n) (store ∷ stores) b = run_stores n stores (store b)

unfoldable pub write_local : Buffer → ℕ → ℕ → ℕ → Bool → Buffer
unfolding write_local_stores
write_local b frame input predicted rollbackable =
    run_stores 5 (write_local_stores frame input predicted rollbackable) b

unfoldable pub set_write_head : Buffer → ℕ → Buffer
set_write_head b frame = record b { write_head = frame }

unfoldable pub write_loading_input : Buffer → ℕ → ℕ → Buffer
write_loading_input b tick value = record b { loading_input = pack64 tick value }

-- The value, and the tick that goes through the reference argument.
unfoldable pub read_loading_input : Buffer → ℕ × ℕ
read_loading_input b = (low32 b.loading_input, high32 b.loading_input)

unfoldable pub record_mismatch : Buffer → ℕ → Buffer
record_mismatch b frame =
    if not b.has_mismatch
    then record b { mismatch_frame = frame; has_mismatch = true }
    else if ltb frame b.mismatch_frame
    then record b { mismatch_frame = frame }
    else b

-- A second confirmation of a frame: the first value stays, another value is counted.
reconfirm : Buffer → ℕ → ℕ → Buffer
unfolding record_mismatch
reconfirm b frame input =
    if low32 (slot_of b frame).remote_snapshot == input
    then b
    else record_mismatch (record b { confirm_conflicts = add32 b.confirm_conflicts 1 }) frame

-- The slot's own frame is published, and the newest confirmed frame moves on.
publish_remote : Buffer → ℕ → ℕ → Buffer
publish_remote b frame input =
    let stored =
      put_slot b frame
        (record (slot_of b frame) { remote_snapshot = pack64 frame input; remote_frame = frame }) in
    if b.confirmed_remote_frame == empty_slot || ltb b.confirmed_remote_frame frame
    then record stored { confirmed_remote_frame = frame }
    else stored

unfoldable pub confirm_remote : Buffer → ℕ → ℕ → Buffer
unfolding reconfirm publish_remote record_mismatch
confirm_remote b frame input =
    let s = slot_of b frame in
    if s.remote_frame == frame
    then reconfirm b frame input
    else if not (s.remote_frame == empty_slot) && ltb frame s.remote_frame
    then b
    else if s.local_frame == frame && not (s.predicted_remote == input)
    then publish_remote (record_mismatch b frame) frame input
    else publish_remote b frame input

unfoldable pub try_get_local_input : Buffer → ℕ → Option ℕ
try_get_local_input b frame =
    let snapshot = (slot_of b frame).local_snapshot in
    if high32 snapshot == frame then some (low32 snapshot) else none

unfoldable pub try_get_remote_input : Buffer → ℕ → Option ℕ
try_get_remote_input b frame =
    let snapshot = (slot_of b frame).remote_snapshot in
    if high32 snapshot == frame then some (low32 snapshot) else none

unfoldable pub has_local : Buffer → ℕ → Bool
has_local b frame = (slot_of b frame).local_frame == frame

unfoldable pub has_remote : Buffer → ℕ → Bool
has_remote b frame = (slot_of b frame).remote_frame == frame

unfoldable pub is_rollbackable : Buffer → ℕ → Bool
is_rollbackable b frame = (slot_of b frame).local_frame == frame && (slot_of b frame).rollbackable

unfoldable pub set_game_read_frame : Buffer → ℕ → Buffer
set_game_read_frame b frame = record b { game_read_frame = frame }

-- D + R, and one frame at least.
offset : Buffer → ℤ
unfolding ◌+ℤ◌
offset b = let sum = b.delay +ℤ b.max_rollback in if ltb_ℤ sum (pos 1) then pos 1 else sum

-- The `int32_t` difference is taken without wrap.
unfoldable pub get_read_pos : Buffer → ℕ
unfolding offset ◌-ℤ◌
get_read_pos b =
    if not (b.game_read_frame == empty_slot)
    then b.game_read_frame
    else (let position = signed32 b.write_head -ℤ offset b in
        if leb_ℤ (pos 0) position then pos_part position else 0)

-- The host is player 1.
assign_sides : Bool → Option ℕ → Option ℕ → Option (ℕ × ℕ)
assign_sides is_host none remote = none
assign_sides is_host (some local) none = none
assign_sides true (some local) (some remote) = some (local, remote)
assign_sides false (some local) (some remote) = some (remote, local)

unfoldable pub try_read_for_game : Buffer → Bool → Option (ℕ × ℕ)
unfolding assign_sides get_read_pos try_get_local_input try_get_remote_input
try_read_for_game b is_host =
    let position = get_read_pos b in
    assign_sides is_host (try_get_local_input b position) (try_get_remote_input b position)

unfoldable pub has_confirmed_remote : Buffer → Bool
has_confirmed_remote b = not (b.confirmed_remote_frame == empty_slot)

unfoldable pub get_confirmed_remote_frame : Buffer → ℕ
get_confirmed_remote_frame b =
    if b.confirmed_remote_frame == empty_slot then 0 else b.confirmed_remote_frame

unfoldable pub get_effective_head : Buffer → ℕ
unfolding offset ◌-ℤ◌ has_confirmed_remote get_confirmed_remote_frame
get_effective_head b =
    let delay_adjusted = pos_part (signed32 b.write_head -ℤ offset b) in
    if not (has_confirmed_remote b)
    then delay_adjusted
    else if ltb delay_adjusted (get_confirmed_remote_frame b)
    then delay_adjusted
    else get_confirmed_remote_frame b

-- What goes through the reference argument, and the buffer with the flag taken.
unfoldable pub consume_mismatch : Buffer → Option ℕ × Buffer
consume_mismatch b =
    let taken = record b { has_mismatch = false } in
    if b.has_mismatch then (some b.mismatch_frame, taken) else (none, taken)

abbrev pub empty : Slot
empty = record {
  local_frame = empty_slot;
  local_snapshot = pack64 empty_slot 0;
  predicted_remote = 0;
  rollbackable = false;
  remote_frame = empty_slot;
  remote_snapshot = pack64 empty_slot 0;
}

-- Progress is cleared; D and R belong to the session and stay.
unfoldable pub reset : Buffer → Buffer
reset b = record {
  ring = λ i. empty;
  write_head = 0;
  loading_input = 0;
  game_read_frame = empty_slot;
  mismatch_frame = 0;
  has_mismatch = false;
  confirmed_remote_frame = empty_slot;
  confirm_conflicts = 0;
  delay = b.delay;
  max_rollback = b.max_rollback;
}

unfoldable pub set_sync_params : Buffer → ℤ → ℤ → Buffer
set_sync_params b delay max_rollback = record b { delay = delay; max_rollback = max_rollback }

unfoldable pub initialize : Buffer → ℕ → ℤ → ℤ → Buffer
unfolding reset set_write_head set_sync_params
initialize b start_frame delay max_rollback =
    set_sync_params (set_write_head (reset b) start_frame) delay max_rollback
