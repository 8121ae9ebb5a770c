-- ===== src/Wire/Probe.antt =====
-- src/src/shared_contracts/StartupNegotiation.hpp: the probe that both launchers exchange before
-- the game starts, and the agreement on a pair of session numbers.
pub mod Roundtrip
pub mod Pairing
mod Tests
use cccaster_ver_b.Prelude.{
  length, ℕ, Bool, true, false, not, ◌&&◌, ◌||◌, List, ◌++◌, Option, none, some, ltb, leb, ◌==◌,
  if◌then◌else◌,
}
use cccaster_ver_b.Prelude.Int.{ℤ, pos, leb_ℤ, ltb_ℤ}
use cccaster_ver_b.Wire.Bytes.{bytes, read, write, zeros}

abbrev pub magic : ℕ
magic = 0x314e5343

pub record Probe : Type 0 where
  pub sequence : ℕ
  pub timestamp : ℕ
  pub echoed_time : ℕ
  pub processing_delay : ℕ
  pub nonce : ℕ
  pub echo_nonce : ℕ
  pub extended : Bool

short_probe : List ℕ → Probe
short_probe packet = record {
  sequence = read 0 2 packet;
  timestamp = read 2 8 packet;
  echoed_time = read 10 8 packet;
  processing_delay = read 18 8 packet;
  nonce = 0;
  echo_nonce = 0;
  extended = false;
}

long_probe : List ℕ → Probe
long_probe packet = record (short_probe packet) {
  nonce = read 30 8 packet;
  echo_nonce = read 38 8 packet;
  extended = true;
}

unfoldable pub decode : List ℕ → Option Probe
unfolding short_probe long_probe
decode packet =
    if length packet == 26
    then some (short_probe packet)
    else if not (length packet == 46)
    then none
    else if not (read 26 4 packet == magic)
    then none
    else if read 30 8 packet == 0
    then none
    else some (long_probe packet)

stamp : Probe → List ℕ → List ℕ
stamp p packet = write 18 (bytes 8 p.processing_delay) (
    write 10 (bytes 8 p.echoed_time)
      (write 2 (bytes 8 p.timestamp) (write 0 (bytes 2 p.sequence) packet)))

unfoldable pub encode : Probe → List ℕ
unfolding stamp
encode p =
    if p.extended
    then write 38 (bytes 8 p.echo_nonce)
        (write 30 (bytes 8 p.nonce) (write 26 (bytes 4 magic) (stamp p (zeros 46))))
    else stamp p (zeros 26)

pub record Agreement : Type 0 where
  pub local_nonce : ℕ
  pub peer_nonce : ℕ
  pub echoed : Bool
  pub reply_sent : Bool

abbrev is_set : ℕ → Bool
is_set n = not (n == 0)

unfoldable pub receive : Agreement → Probe → Bool × Agreement
receive a p =
    if not p.extended
    then (true, a)
    else if p.nonce == 0
        || p.nonce == a.local_nonce
        || (is_set a.peer_nonce && not (a.peer_nonce == p.nonce))
        || (is_set p.echo_nonce && not (p.echo_nonce == a.local_nonce))
    then (false, a)
    else (
      true,
      record a { peer_nonce = p.nonce; echoed = a.echoed || p.echo_nonce == a.local_nonce },
    )

unfoldable pub sent : Agreement → ℕ → Agreement
sent a echo =
    if is_set a.peer_nonce && echo == a.peer_nonce then record a { reply_sent = true } else a

unfoldable pub is_ready : Agreement → Bool
is_ready a = is_set a.local_nonce && is_set a.peer_nonce && a.echoed && a.reply_sent

-- Whether to answer a late probe: for 30 s, unless the clocks agree already.
unfoldable pub can_reply : Probe → ℕ → ℕ → ℤ → Bool → Bool
can_reply p local peer elapsed_us synced =
    not synced
    && leb_ℤ (pos 0) elapsed_us
    && ltb_ℤ elapsed_us (pos 30_000_000)
    && is_set local
    && is_set peer
    && p.extended
    && is_set p.timestamp
    && p.nonce == peer
    && p.echo_nonce == local
