-- ===== src/Sync/Settings.antt =====
-- src/src/core_dll/sync/SettingsCommands.hpp with src/src/shared_contracts/NetplaySettings.hpp: commands for
-- delay and rollback ride in the top 8 bits of the confirmed inputs. A number that the program
-- keeps as an `int` is an integer; `& GameMask` is the remainder by 2 ^ 24.
use cccaster_ver_b.Prelude.{
  ℕ, ◌+◌, ◌-◌, ◌*◌, ◌/◌, ◌%◌, ◌^◌, ◌≤◌, ◌<◌, ◌≡◌, Bool, true, false, not, ◌&&◌, ◌||◌, ltb, leb,
  ◌==◌, if◌then◌else◌, arith, refl, ap, ◌∙◌,
}
use cccaster_ver_b.Prelude.Int.{ℤ, pos, leb_ℤ, ltb_ℤ, pos_part}

abbrev pub max_delay : ℕ
max_delay = 8

abbrev pub max_rollback : ℕ
max_rollback = 7

unfoldable pub is_valid : ℤ → ℤ → Bool
is_valid delay rollback =
    leb_ℤ (pos 0) delay
    && leb_ℤ delay (pos max_delay)
    && leb_ℤ (pos 0) rollback
    && leb_ℤ rollback (pos max_rollback)

abbrev pub game_mask : ℕ
game_mask = 2 ^ 24

abbrev pub code_of : ℕ → ℕ
code_of input = input / game_mask

unfoldable pub valid_command : ℕ → Bool
valid_command command =
    if not (command % game_mask == 0)
    then false
    else (leb 0xa0 (code_of command) && leb (code_of command) (0xa0 + max_delay))
      || (leb 0xb0 (code_of command) && leb (code_of command) (0xb0 + max_rollback))

-- `notice`: 1 out of range, 2 applied, 3 cancelled at a boundary.
pub record SettingsCommands : Type 0 where
  pub queued : ℕ
  pub pending : ℕ
  pub delay : ℤ
  pub rollback : ℤ
  pub notice : ℕ

unfoldable pub reset : ℤ → ℤ → SettingsCommands
reset d r = record { queued = 0; pending = 0; delay = d; rollback = r; notice = 0 }

abbrev limit : Bool → ℤ
limit is_rollback = if is_rollback then pos max_rollback else pos max_delay

abbrev pub command_of : Bool → ℤ → ℕ
command_of is_rollback number = ((if is_rollback then 0xb0 else 0xa0) + pos_part number) * game_mask

unfoldable pub request : SettingsCommands → Bool → ℤ → Bool × SettingsCommands
request s is_rollback number =
    if ltb_ℤ number (pos 0) || ltb_ℤ (limit is_rollback) number
    then (false, record s { notice = 1 })
    else if not (s.pending == 0)
    then (false, s)
    else (
      true,
      record s {
        pending = command_of is_rollback number;
        queued = command_of is_rollback number;
        notice = 0;
      },
    )

unfoldable pub capture : SettingsCommands → ℕ × SettingsCommands
capture s = (s.queued, record s { queued = 0 })

-- The pending request of the player who made it is done with.
settle : Bool → ℕ → SettingsCommands → SettingsCommands
settle local command s = if local && s.pending == command then record s { pending = 0 } else s

adopt : SettingsCommands → ℤ → ℤ → SettingsCommands
unfolding is_valid
adopt s d r =
    if is_valid d r
    then record s { delay = d; rollback = r; notice = 2 }
    else record s { notice = 1 }

unfoldable pub apply : SettingsCommands → ℕ → Bool → Bool × SettingsCommands
unfolding settle adopt valid_command
apply s input local =
    let command = code_of input * game_mask in
    let code = code_of input in
    if not (valid_command command)
    then (false, s)
    else if ltb code 0xb0
    then (true, settle local command (adopt s (pos (code - 0xa0)) s.rollback))
    else (true, settle local command (adopt s s.delay (pos (code - 0xb0))))

unfoldable pub boundary : SettingsCommands → SettingsCommands
boundary s =
    if not (s.pending == 0)
    then record s { queued = 0; pending = 0; notice = 3 }
    else record s { queued = 0; pending = 0 }

-- The request of one player, captured into an input and applied from the confirmed input by both.
abbrev pub sent : SettingsCommands → Bool → ℕ → SettingsCommands
sent s is_rollback number = (request s is_rollback (pos number)).1

abbrev pub carried : SettingsCommands → Bool → ℕ → ℕ → ℕ
carried s is_rollback number input = input + (capture (sent s is_rollback number)).0

abbrev pub max_of : Bool → ℕ
max_of is_rollback = if is_rollback then max_rollback else max_delay

taken :
    (s : SettingsCommands) (is_rollback : Bool) (number : ℕ)
    → s.pending ≡ 0
    → number ≤ max_of is_rollback
    → ((request s is_rollback (pos number)).0 ≡ true)
      × ((sent s is_rollback number).queued ≡ command_of is_rollback (pos number))
      × ((sent s is_rollback number).pending ≡ command_of is_rollback (pos number))
      × ((sent s is_rollback number).delay ≡ s.delay)
      × ((sent s is_rollback number).rollback ≡ s.rollback)
unfolding request
taken s false number hp hn = (ground arith, ground arith, ground arith, ground arith, ground arith)
taken s true number hp hn = (ground arith, ground arith, ground arith, ground arith, ground arith)

-- A command in the input of either player sets its setting.
applied :
    (s : SettingsCommands) (is_rollback local : Bool) (number input : ℕ)
    → input < game_mask
    → number ≤ max_of is_rollback
    → is_valid s.delay s.rollback ≡ true
    → let r = (apply s (input + command_of is_rollback (pos number)) local).1 in
      (r.delay ≡ (if is_rollback then s.delay else pos number))
      × (r.rollback ≡ (if is_rollback then pos number else s.rollback))
      × (r.queued ≡ s.queued)
unfolding apply
applied s false local number input hi hn h = (ground arith, ground arith, ground arith)
applied s true local number input hi hn h = (ground arith, ground arith, ground arith)

-- The player who has made it is free for the next one, and the other player's own stays.
settled :
    (s : SettingsCommands) (is_rollback local : Bool) (number input : ℕ)
    → input < game_mask
    → number ≤ max_of is_rollback
    → (local ≡ true → s.pending ≡ command_of is_rollback (pos number))
    → (apply s (input + command_of is_rollback (pos number)) local).1.pending
      ≡ (if local then 0 else s.pending)
unfolding apply
settled s false false number input hi hn h = ground arith
settled s false true number input hi hn h = let p = h refl in ground arith
settled s true false number input hi hn h = ground arith
settled s true true number input hi hn h = let p = h refl in ground arith

bits_left :
    (is_rollback : Bool) (number input : ℕ)
    → input < game_mask
    → (input + command_of is_rollback (pos number)) % game_mask ≡ input
bits_left false number input h = omega arith
bits_left true number input h = omega arith

-- A request for the delay or for the rollback, in range and made while none is pending, is taken and
-- reaches both players: captured into the top bits of any 24-bit game input and applied, it sets
-- exactly the requested setting on either side, leaves the other setting, frees the requester for the
-- next request, and leaves the game's own 24 bits of the input unchanged. Both sides hold valid
-- settings before.
pub request_reaches_both :
    (s t : SettingsCommands) (is_rollback : Bool) (number input : ℕ)
    → s.pending ≡ 0
    → input < game_mask
    → number ≤ max_of is_rollback
    → is_valid s.delay s.rollback ≡ true
    → is_valid t.delay t.rollback ≡ true
    → let packed = carried s is_rollback number input in
      let mine = (apply (capture (sent s is_rollback number)).1 packed true).1 in
      let theirs = (apply t packed false).1 in
      ((request s is_rollback (pos number)).0 ≡ true)
      × (packed % game_mask ≡ input)
      × (mine.delay ≡ (if is_rollback then s.delay else pos number))
      × (mine.rollback ≡ (if is_rollback then pos number else s.rollback))
      × (mine.pending ≡ 0)
      × (mine.queued ≡ 0)
      × (theirs.delay ≡ (if is_rollback then t.delay else pos number))
      × (theirs.rollback ≡ (if is_rollback then pos number else t.rollback))
      × (theirs.pending ≡ t.pending)
unfolding capture
request_reaches_both s t is_rollback number input hp hi hn hs ht =
    let r = taken s is_rollback number hp hn in
    let mine : SettingsCommands = record (sent s is_rollback number) { queued = 0 } in
    let still : is_valid mine.delay mine.rollback ≡ true =
      ap (λ d. is_valid d mine.rollback) r.3 ∙ ap (is_valid s.delay) r.4 ∙ hs in
    let a = applied mine is_rollback true number input hi hn still in
    let b = applied t is_rollback false number input hi hn ht in
    rw r.1 (
      r.0,
      bits_left is_rollback number input hi,
      a.0 ∙ ap (λ d. if is_rollback then d else pos number) r.3,
      a.1 ∙ ap (λ d. if is_rollback then pos number else d) r.4,
      settled mine is_rollback true number input hi hn (λ e. r.2),
      a.2,
      b.0,
      b.1,
      settled t is_rollback false number input hi hn (λ e. ground (arith, e)),
    )

-- No input, whatever its bits, makes valid settings invalid.
pub apply-is_valid :
    (s : SettingsCommands) (input : ℕ) (local : Bool)
    → is_valid s.delay s.rollback ≡ true
    → is_valid (apply s input local).1.delay (apply s input local).1.rollback ≡ true
unfolding apply
apply-is_valid s input local h = ground arith
