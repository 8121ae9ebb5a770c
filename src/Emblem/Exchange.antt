-- ===== src/Emblem/Exchange.antt =====
-- src/src/shared_contracts/PlayerEmblem.hpp, `Exchange` and `Store`: when chunks of the own picture
-- are sent, and where the pictures of both players are kept. Times are microseconds.
pub mod Sending
mod Tests
use cccaster_ver_b.Prelude.{
  ℕ, Bool, true, false, not, ◌&&◌, ◌||◌, Option, none, some, ltb, ◌==◌, if◌then◌else◌,
}
use cccaster_ver_b.Prelude.Int.{ℤ, pos, negsuc, ◌-ℤ◌, ltb_ℤ, leb_ℤ}
use cccaster_ver_b.Prelude.Words.{add32}
use cccaster_ver_b.Prelude.Table.{set_at}
use cccaster_ver_b.Emblem.{
  Image, Chunk, Receiver, fresh, no_image, no_id, make_chunk, receiver_id, valid_chunk, accept,
}

pub record Exchange : Type 0 where
  pub local : Option Image
  pub receiver : Receiver
  pub began : ℤ
  pub last : ℤ
  pub finished : ℤ
  pub counter : ℕ
  pub acknowledged : Bool

abbrev pub start : Option Image → Exchange
start local = record {
  local = local;
  receiver = fresh;
  began = negsuc 0;
  last = negsuc 0;
  finished = negsuc 0;
  counter = 0;
  acknowledged = false;
}

abbrev pub or_none : Option Image → Image
or_none none = no_image
or_none (some image) = image

abbrev pub local_image : Exchange → Image
local_image x = or_none x.local

unfoldable pub receive : Exchange → Chunk → Option Image × Exchange
receive x c = if not (valid_chunk c) then (none, x) else (
  (accept x.receiver c).0,
  record x {
    acknowledged = x.acknowledged || c.acknowledged == (local_image x).id;
    receiver = (accept x.receiver c).1;
  },
)

abbrev or_now : ℤ → ℤ → ℤ
or_now t now = if ltb_ℤ t (pos 0) then now else t

-- Both pictures have arrived.
abbrev pub is_done : Exchange → Bool
is_done x = x.acknowledged && not (receiver_id x.receiver == no_id)

abbrev pub send : Exchange → ℤ → Option Chunk × Exchange
send x now = (
  some (make_chunk (local_image x) x.counter (receiver_id x.receiver)),
  record x { counter = add32 x.counter 1; last = now },
)

-- For 20 seconds, every 20 ms.
abbrev pub waits : Exchange → ℤ → Bool
waits x now =
    ltb_ℤ (pos 20_000_000) (now -ℤ x.began)
    || (leb_ℤ (pos 0) x.last && ltb_ℤ (now -ℤ x.last) (pos 20_000))

-- A second after both have arrived.
abbrev pub is_over : Exchange → ℤ → Bool
is_over x now = ltb_ℤ (pos 1_000_000) (now -ℤ x.finished)

abbrev pub begun : Exchange → ℤ → Exchange
begun x now = record x { began = or_now x.began now }

abbrev pub ending : Exchange → ℤ → Exchange
ending x now = record x { finished = or_now x.finished now }

abbrev pub last_second : Exchange → ℤ → Option Chunk × Exchange
last_second x now = if is_over x now then (none, x) else send x now

unfoldable pub next : Exchange → ℤ → Option Chunk × Exchange
next x now =
    let x1 = begun x now in
    if waits x1 now
    then (none, x1)
    else if is_done x1
    then last_second (ending x1 now) now
    else send x1 now

-- The four slots: the own picture, the other player's, and those of two players that are watched.
pub record Store : Type 0 where
  pub images : ℕ → Option Image
  pub host : Bool

unfoldable pub start_store : Option Image → Bool → Store
start_store local host = record { images = set_at (λ slot. none) 0 local; host = host }

unfoldable pub set_image : Store → ℕ → Option Image → Store
set_image s slot image =
    if not (ltb slot 4) then s else record s { images = set_at s.images slot image }

unfoldable pub get_image : Store → ℕ → Option Image
get_image s slot = if ltb slot 4 then s.images slot else none

unfoldable pub players : Store → Bool → Option Image × Option Image
players s spectator =
    if spectator
    then (s.images 2, s.images 3)
    else if s.host
    then (s.images 0, s.images 1)
    else (s.images 1, s.images 0)
