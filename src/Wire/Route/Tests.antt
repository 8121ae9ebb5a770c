-- ===== src/Wire/Route/Tests.antt =====
-- A ping with an address.
use cccaster_ver_b.Prelude.{ℕ, refl, false, List, [], ◌∷◌, arith, ◌^◌, ◌-◌}
use cccaster_ver_b.Wire.Route.{RoutePacket, select}
use cccaster_ver_b.Wire.Route.Roundtrip.{Fits}

abbrev address : List ℕ
address = 32 ∷ 1 ∷ 13 ∷ 184 ∷ 0 ∷ 0 ∷ 0 ∷ 0 ∷ 0 ∷ 0 ∷ 0 ∷ 0 ∷ 0 ∷ 0 ∷ 0 ∷ 7 ∷ []

abbrev packet : RoutePacket
packet = record {
  kind = select;
  punched = false;
  available = 3;
  attempted = 2;
  token = 2 ^ 32 - 1;
  sequence = 70_000;
  processing_us = 300;
  nonce = 9;
  echo_nonce = 0;
  v6_port = 46_318;
  v6 = address;
}

packet-Fits : Fits packet
packet-Fits = record {
  available_bound = omega arith;
  attempted_bound = omega arith;
  token_bound = omega arith;
  sequence_bound = omega arith;
  processing_bound = omega arith;
  nonce_bound = omega arith;
  echo_bound = omega arith;
  port_bound = omega arith;
  address_length = refl;
  nonce_set = omega arith;
}
