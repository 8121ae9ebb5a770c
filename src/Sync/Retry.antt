-- ===== src/Sync/Retry.antt =====
-- src/src/core_dll/sync/RetrySelection.hpp: what the players choose after a match. 0 is undecided, 1 a
-- rematch and 2 the character selection.
pub mod Agreement
use cccaster_ver_b.Prelude.{
  ℕ, ◌+◌, ◌%◌, Bool, true, false, not, ◌&&◌, ◌||◌, ltb, leb, ◌==◌, if◌then◌else◌,
}
use cccaster_ver_b.Prelude.Int.{ℤ, pos, negsuc, leb_ℤ, pos_part}

pub record RetrySelection : Type 0 where
  pub epoch : ℕ
  pub choice : ℕ
  pub ack : ℕ

unfoldable pub valid : RetrySelection → Bool
valid r =
    leb r.choice 2
    && leb r.ack 2
    && (if not (r.epoch == 0) then r.epoch % 65536 == 0 else r.choice == 0 && r.ack == 0)

-- A decided choice is not overwritten by an undecided or another one.
unfoldable pub accept : RetrySelection → RetrySelection → Bool × RetrySelection
unfolding valid
accept r incoming =
    if not (valid incoming) || ltb incoming.epoch r.epoch
    then (false, r)
    else if ltb r.epoch incoming.epoch
    then (true, incoming)
    else if not (r.choice == 0) && not (incoming.choice == 0) && not (r.choice == incoming.choice)
    then (false, r)
    else if not (r.ack == 0) && not (incoming.ack == 0) && not (r.ack == incoming.ack)
    then (false, r)
    else (
      true,
      record r {
        choice = if not (incoming.choice == 0) then incoming.choice else r.choice;
        ack = if not (incoming.ack == 0) then incoming.ack else r.ack;
      },
    )

-- 0 a rematch, 1 the character selection, -1 nothing yet.
unfoldable pub result : RetrySelection → RetrySelection → ℤ
result r peer =
    if r.epoch == 0 || not (r.epoch == peer.epoch)
    then negsuc 0
    else if r.choice == 2 || peer.choice == 2
    then pos 1
    else if r.choice == 1 && peer.choice == 1
    then pos 0
    else negsuc 0

unfoldable pub can_release : RetrySelection → RetrySelection → Bool
unfolding result
can_release r peer =
    leb_ℤ (pos 0) (result r peer) && r.ack == peer.choice && (r.choice == 0 || peer.ack == r.choice)

abbrev pub unknown : RetrySelection
unknown = record { epoch = 0; choice = 0; ack = 0 }

-- A frame of the screen, in src/src/core_dll/engine/SceneRunner.cpp: what the menu of the game shows is the
-- choice, once it is 0 or 1, and the other player's choice of the same epoch is acknowledged.
unfoldable pub decide : RetrySelection → RetrySelection → ℤ → RetrySelection
decide r peer menu =
    let seen = if peer.epoch == r.epoch then peer else unknown in
    record r {
      choice =
          if r.choice == 0 && leb_ℤ (pos 0) menu && leb_ℤ menu (pos 1)
          then pos_part menu + 1
          else r.choice;
      ack = seen.choice;
    }
