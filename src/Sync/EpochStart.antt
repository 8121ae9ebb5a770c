-- ===== src/Sync/EpochStart.antt =====
-- src/src/core_dll/sync/EpochStart.hpp: the two players fix the clock tick at which an epoch starts.
-- Ticks are 1/60 of a microsecond; `int64_t` values are integers without wrap.
pub mod Agreement
mod Tests
use cccaster_ver_b.Prelude.{
  ℕ, ◌+◌, ◌%◌, Bool, true, false, not, ◌&&◌, ◌||◌, ltb, leb, ◌==◌, if◌then◌else◌,
}
use cccaster_ver_b.Prelude.Int.{ℤ, pos, ◌+ℤ◌, ◌-ℤ◌, ◌*ℤ◌, ltb_ℤ, leb_ℤ, eqb_ℤ, clamp_ℤ}
use cccaster_ver_b.Prelude.Words.{add32}

pub record EpochStart : Type 0 where
  pub epoch : ℕ
  pub serial : ℕ
  pub host_ticks : ℤ
  pub stage : ℕ

-- The stages, as the packet carries them.
abbrev pub ready : ℕ
ready = 1

abbrev pub offer : ℕ
offer = 2

abbrev pub accepted : ℕ
accepted = 3

abbrev pub commit : ℕ
commit = 4

abbrev pub committed : ℕ
committed = 5

abbrev pub is_zero : ℤ → Bool
is_zero t = eqb_ℤ t (pos 0)

unfoldable pub valid : EpochStart → Bool
valid e =
    if e.epoch == 0
    then e.serial == 0 && is_zero e.host_ticks && e.stage == 0
    else e.epoch % 65536 == 0
      && leb ready e.stage
      && leb e.stage committed
      && (if e.stage == ready
          then e.serial == 0 && is_zero e.host_ticks
          else not (e.serial == 0) && ltb_ℤ (pos 0) e.host_ticks)

unfoldable pub newer_than : EpochStart → EpochStart → Bool
unfolding valid
newer_than e old =
    if not (valid e)
    then false
    else if not (e.epoch == old.epoch)
    then ltb old.epoch e.epoch
    else if not (e.serial == old.serial)
    then ltb old.serial e.serial
    else eqb_ℤ e.host_ticks old.host_ticks && leb old.stage e.stage

abbrev pub matches : EpochStart → EpochStart → Bool
matches a b = a.epoch == b.epoch && a.serial == b.serial && eqb_ℤ a.host_ticks b.host_ticks

pub data Verdict : Type 0 where
  waiting armed expired : Verdict

pub record Gate : Type 0 where
  pub local : EpochStart
  pub due_ticks : ℤ

unfoldable pub begin : ℕ → Gate
begin epoch = record {
  local = record { epoch = epoch; serial = 0; host_ticks = pos 0; stage = ready };
  due_ticks = pos 0;
}

-- 100 ms.
abbrev pub guard : ℤ
guard = pos 6_000_000

-- The lead time of a proposal: three round trips and 200 ms, within 0.5 s and 2.5 s.
unfoldable pub lead : ℤ → ℤ
unfolding ◌+ℤ◌ ◌*ℤ◌ clamp_ℤ
lead rtt = clamp_ℤ (rtt *ℤ pos 3 +ℤ pos 12_000_000) (pos 30_000_000) (pos 150_000_000)

-- A new proposal, while there is none or the one made runs out of time.
host_offer : Gate → ℤ → ℤ → Gate
unfolding lead ◌+ℤ◌ ◌-ℤ◌
host_offer g now rtt =
    if g.local.stage == ready
      || (g.local.stage == offer && ltb_ℤ (g.due_ticks -ℤ now) (rtt +ℤ guard))
    then (let due = now +ℤ lead rtt in
        record {
          local = record g.local {
            serial = add32 g.local.serial 1;
            host_ticks = due;
            stage = offer;
          };
          due_ticks = due;
        })
    else g

host_commit : Gate → EpochStart → Gate
host_commit g peer =
    if g.local.stage == offer && peer.stage == accepted && matches g.local peer
    then record g { local = record g.local { stage = commit } }
    else g

host_verdict : Gate → EpochStart → ℤ → Verdict
host_verdict g peer now =
    if g.local.stage == commit
    then (if leb_ℤ g.due_ticks now
        then expired
        else if peer.stage == committed && matches g.local peer
        then armed
        else waiting)
    else waiting

client_accept : Gate → EpochStart → ℤ → ℤ → Gate
unfolding ◌-ℤ◌
client_accept g peer peer_local now =
    if peer.stage == offer && ltb g.local.serial peer.serial && leb_ℤ guard (peer_local -ℤ now)
    then record { local = record peer { stage = accepted }; due_ticks = peer_local }
    else g

client_commit : Gate → EpochStart → ℤ → Verdict × Gate
client_commit g peer now =
    if peer.stage == commit && g.local.stage == accepted && matches g.local peer
    then (if leb_ℤ g.due_ticks now
        then (expired, g)
        else (armed, record g { local = record g.local { stage = committed } }))
    else (waiting, g)

host_update : Gate → EpochStart → ℤ → ℤ → Verdict × Gate
unfolding host_commit host_verdict
host_update g peer now rtt =
    let g' = host_commit (host_offer g now rtt) peer in (host_verdict g' peer now, g')

client_update : Gate → EpochStart → ℤ → ℤ → Verdict × Gate
unfolding client_commit
client_update g peer peer_local now = client_commit (client_accept g peer peer_local now) peer now

pub update : Gate → Bool → EpochStart → ℤ → ℤ → ℤ → Verdict × Gate
unfolding host_update client_update
update g host peer peer_local now rtt =
    if not (peer.epoch == g.local.epoch) || not (valid peer)
    then (waiting, g)
    else if host
    then host_update g peer now (clamp_ℤ rtt (pos 0) (pos 60_000_000))
    else client_update g peer peer_local now
