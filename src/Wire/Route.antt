-- ===== src/Wire/Route.antt =====
-- src/src/cli_launcher/network_wrapper/RouteSelection.hpp: the packets that compare the routes of a
-- connection over IPv4 and IPv6.
pub mod Roundtrip
mod Tests
use cccaster_ver_b.Prelude.{
  ℕ, Bool, true, false, not, ◌&&◌, ◌||◌, List, [], ◌∷◌, ◌++◌, Option, none, some, length, take,
  drop, ltb, ◌==◌, if◌then◌else◌,
}
use cccaster_ver_b.Wire.Bytes.{bytes, read, starts_with}

pub data RouteType : Type 0 where
  ping pong select accept : RouteType

abbrev pub type_code : RouteType → ℕ
type_code ping = 1
type_code pong = 2
type_code select = 3
type_code accept = 4

-- `Type(b)`, for a byte from 1 to 4.
abbrev pub type_of : ℕ → RouteType
type_of b = if b == 1 then ping else if b == 2 then pong else if b == 3 then select else accept

pub record RoutePacket : Type 0 where
  pub kind : RouteType
  pub punched : Bool
  pub available : ℕ
  pub attempted : ℕ
  pub token : ℕ
  pub sequence : ℕ
  pub processing_us : ℕ
  pub nonce : ℕ
  pub echo_nonce : ℕ
  pub v6_port : ℕ
  pub v6 : List ℕ

-- "CCBRTE", 0, 1.
abbrev pub route_magic : List ℕ
route_magic = 67 ∷ 67 ∷ 66 ∷ 82 ∷ 84 ∷ 69 ∷ 0 ∷ 1 ∷ []

abbrev flag : Bool → ℕ
flag b = if b then 1 else 0

unfoldable pub encode_route : RoutePacket → List ℕ
encode_route p =
    route_magic
    ++ bytes 1 (type_code p.kind)
    ++ bytes 1 (flag p.punched)
    ++ bytes 1 p.available
    ++ bytes 1 p.attempted
    ++ bytes 4 p.token
    ++ bytes 8 p.nonce
    ++ bytes 8 p.echo_nonce
    ++ bytes 4 p.sequence
    ++ bytes 2 p.v6_port
    ++ p.v6
    ++ bytes 4 p.processing_us

abbrev out_of_order : List ℕ → Bool
out_of_order b =
    not (length b == 58)
    || not (starts_with route_magic b)
    || ltb (read 8 1 b) 1
    || ltb 4 (read 8 1 b)
    || ltb 1 (read 9 1 b)
    || ltb 3 (read 10 1 b)
    || ltb 3 (read 11 1 b)

abbrev fields : List ℕ → RoutePacket
fields b = record {
  kind = type_of (read 8 1 b);
  punched = not (read 9 1 b == 0);
  available = read 10 1 b;
  attempted = read 11 1 b;
  token = read 12 4 b;
  nonce = read 16 8 b;
  echo_nonce = read 24 8 b;
  sequence = read 32 4 b;
  v6_port = read 36 2 b;
  v6 = take 16 (drop 38 b);
  processing_us = read 54 4 b;
}

unfoldable pub decode_route : List ℕ → Option RoutePacket
decode_route b = if out_of_order b then none else if read 16 8 b == 0 then none else some (fields b)
