-- ===== src/Sync/EpochStart/Tests.antt =====
-- A start that both players agree on: offer, acceptance, commitment; the round trip is 60000 ticks.
use cccaster_ver_b.Prelude.{◌≡◌, refl, ℕ, ◌∷◌, arith}
use cccaster_ver_b.Prelude.Int.{pos}
use cccaster_ver_b.Sync.EpochStart.{
  EpochStart, update, commit, committed, begin, valid, host_update, client_update, host_offer,
  host_commit, host_verdict, client_accept, client_commit,
}
use cccaster_ver_b.Sync.EpochStart.Agreement.{
  System, Reach, Same, start, host_turn, client_turn, host_armed_agree, client_armed_agree, here,
  done, next, host_steps, client_steps,
}

abbrev notice : ℕ → ℕ → ℕ → EpochStart
notice serial ticks stage = record {
  epoch = 65536;
  serial = serial;
  host_ticks = pos ticks;
  stage = stage;
}

abbrev fresh : System
fresh = start 65536

abbrev host_after : System → EpochStart → ℕ → System
host_after s m now = record s {
  host = (host_turn s m (pos 0) (pos now) (pos 60_000)).1;
  from_host = (host_turn s m (pos 0) (pos now) (pos 60_000)).1.local ∷ s.from_host;
}

abbrev client_after : System → EpochStart → ℕ → System
client_after s m now = record s {
  client = (client_turn s m (pos 30_001_000) (pos now) (pos 0)).1;
  from_client = (client_turn s m (pos 30_001_000) (pos now) (pos 0)).1.local ∷ s.from_client;
}

abbrev offered : System
offered = host_after fresh (notice 0 0 1) 1_000

abbrev taken : System
taken = client_after offered (notice 1 30_001_000 2) 2_000

abbrev settled : System
settled = host_after taken (notice 1 30_001_000 3) 3_000

abbrev agreed : System
agreed = client_after settled (notice 1 30_001_000 4) 4_000

offered-Reach : Reach fresh offered
unfolding begin
offered-Reach =
    next done (host_steps (notice 0 0 1) (pos 0) (pos 1_000) (pos 60_000) here (omega arith))

taken-Reach : Reach fresh taken
unfolding begin update host_update host_offer host_commit valid
taken-Reach =
    next offered-Reach
      (client_steps (notice 1 30_001_000 2) (pos 30_001_000) (pos 2_000) (pos 0) here)

settled-Reach : Reach fresh settled
unfolding begin update host_update host_offer host_commit client_update client_accept client_commit
    valid
settled-Reach =
    next taken-Reach
      (host_steps (notice 1 30_001_000 3) (pos 0) (pos 3_000) (pos 60_000) here (omega arith))

agreed-Reach : Reach fresh agreed
unfolding begin update host_update host_offer host_commit client_update client_accept client_commit
    valid
agreed-Reach =
    next settled-Reach
      (client_steps (notice 1 30_001_000 4) (pos 30_001_000) (pos 4_000) (pos 0) here)

client_armed_agree_example :
    (settled.host.local.stage ≡ commit)
    × Same
        (client_turn settled (notice 1 30_001_000 4) (pos 30_001_000) (pos 4_000) (pos 0)).1.local
        settled.host.local
unfolding begin update host_update host_offer host_commit client_update client_accept client_commit
    valid
client_armed_agree_example =
    client_armed_agree 65536 settled (notice 1 30_001_000 4) (pos 30_001_000) (pos 4_000) (pos 0)
      settled-Reach here refl

host_armed_agree_example :
    (agreed.client.local.stage ≡ committed)
    × Same agreed.client.local
        (host_turn agreed (notice 1 30_001_000 5) (pos 0) (pos 5_000) (pos 60_000)).1.local
unfolding begin update host_update host_offer host_commit host_verdict client_update client_accept
    client_commit valid
host_armed_agree_example =
    host_armed_agree 65536 agreed (notice 1 30_001_000 5) (pos 0) (pos 5_000) (pos 60_000)
      agreed-Reach here refl
