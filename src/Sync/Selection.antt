-- ===== src/Sync/Selection.antt =====
-- src/src/core_dll/sync/SelectionState.hpp with src/src/shared_contracts/BossCharacters.hpp: what one player
-- has selected, sent again and again by its owner. All fields are `uint32_t`.
pub mod Exchange
pub mod Rematch
mod Tests
use cccaster_ver_b.Prelude.{
  ℕ, ◌-◌, ◌%◌, Bool, true, false, not, ◌&&◌, ◌||◌, Option, none, some, List, [], ◌∷◌, ltb, leb,
  ◌==◌, if◌then◌else◌,
}
use cccaster_ver_b.Sync.Settings.{valid_command, max_delay, max_rollback}

-- A table of pairs, searched from its start.
abbrev pub look_up : List (ℕ × ℕ) → ℕ → Option ℕ
look_up [] key = none
look_up ((k, v) ∷ rest) key = if k == key then some v else look_up rest key

-- BossCharacters: the characters and their cells.
abbrev pub boss_cells : List (ℕ × ℕ)
boss_cells =
    (16, 45) ∷ (32, 46) ∷ (53, 47) ∷ (58, 48) ∷ (59, 50) ∷ (72, 51) ∷ (73, 52) ∷ (85, 53) ∷ []

abbrev is_some : Option ℕ → Bool
is_some none = false
is_some (some x) = true

pub is_boss : ℕ → Bool
is_boss character = is_some (look_up boss_cells character)

pub boss_moon : ℕ → ℕ
boss_moon character = if character == 32 then 0 else if character == 53 then 8 else 9

pub boss_base : ℕ → ℕ
unfolding is_boss
boss_base character =
    if character == 16
    then 3
    else if leb 50 character && is_boss character
    then character - 50
    else character

abbrev pub cell_count : ℕ
cell_count = 54

abbrev pub standard_cells : List (ℕ × ℕ)
standard_cells =
    (22, 2)
    ∷ (7, 3)
    ∷ (51, 4)
    ∷ (15, 5)
    ∷ (28, 6)
    ∷ (8, 10)
    ∷ (2, 11)
    ∷ (0, 12)
    ∷ (30, 13)
    ∷ (11, 14)
    ∷ (9, 15)
    ∷ (31, 16)
    ∷ (4, 19)
    ∷ (3, 20)
    ∷ (1, 21)
    ∷ (19, 22)
    ∷ (12, 23)
    ∷ (13, 24)
    ∷ (14, 25)
    ∷ (29, 28)
    ∷ (17, 29)
    ∷ (18, 30)
    ∷ (33, 31)
    ∷ (23, 32)
    ∷ (10, 33)
    ∷ (25, 34)
    ∷ (35, 38)
    ∷ (5, 39)
    ∷ (20, 40)
    ∷ (6, 41)
    ∷ (34, 42)
    ∷ []

-- The cell of a character on the screen; the program's -1 is `none`.
pub character_cell : ℕ → Option ℕ
unfolding is_boss
character_cell character =
    if is_boss character then look_up boss_cells character else look_up standard_cells character

pub record SelectionState : Type 0 where
  pub epoch : ℕ
  pub revision : ℕ
  pub ack : ℕ
  pub selector : ℕ
  pub character : ℕ
  pub moon : ℕ
  pub color : ℕ
  pub confirmed : ℕ
  pub stage : ℕ
  pub stage_confirmed : ℕ
  pub random_stage : ℕ
  pub command_serial : ℕ
  pub command : ℕ
  pub command_ack : ℕ
  pub delay : ℕ
  pub rollback : ℕ

-- The part of `Valid` on the epoch and the character.
character_valid : SelectionState → Bool → Bool
character_valid s allow_boss =
    (s.epoch == 0 || (s.epoch % 65536 == 0 && not (s.revision == 0)))
    && (ltb s.selector (if allow_boss then cell_count else 54) && leb s.character 100)
    && (if is_boss s.character then allow_boss && s.moon == boss_moon s.character else ltb s.moon 3)
    && ltb s.color 36
    && leb s.confirmed 1
    && (s.confirmed == 0 || is_some (character_cell s.character))

-- `NetplaySettings::IsValid` takes the settings as `int`s, so that a value of 2 ^ 31 or more is
-- negative, and refused like any other above the limits.
stage_valid : SelectionState → Bool
stage_valid s =
    ltb s.stage 100
    && leb s.stage_confirmed 1
    && (s.stage_confirmed == 0 || (not (s.confirmed == 0) && not (s.stage == 0)))
    && leb s.random_stage 1
    && (s.random_stage == 0 || not (s.stage_confirmed == 0))
    && (leb s.delay max_delay && leb s.rollback max_rollback)
    && (s.command == 0 || valid_command s.command)

pub valid : SelectionState → Bool → Bool
valid s allow_boss = character_valid s allow_boss && stage_valid s

pub accept : SelectionState → SelectionState → Bool → Bool × SelectionState
accept s incoming allow_boss =
    if not (valid incoming allow_boss)
      || ltb incoming.epoch s.epoch
      || (incoming.epoch == s.epoch && ltb incoming.revision s.revision)
    then (false, s)
    else (let previous_ack = if incoming.epoch == s.epoch then s.ack else 0 in
        (
          true,
          if ltb incoming.ack previous_ack
              then record incoming { ack = previous_ack }
              else incoming,
        ))

pub peer_has_final : SelectionState → SelectionState → Bool
peer_has_final s peer =
    not (s.epoch == 0)
    && peer.epoch == s.epoch
    && not (s.confirmed == 0)
    && not (peer.confirmed == 0)
    && leb s.revision peer.ack
