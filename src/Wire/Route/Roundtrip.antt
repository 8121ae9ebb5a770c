-- ===== src/Wire/Route/Roundtrip.antt =====
-- A packet about routes arrives as it was sent.
use cccaster_ver_b.Prelude.{
  if◌then◌else◌, ℕ, Bool, ◌^◌, ◌<◌, ◌≤◌, ◌≡◌, ◌≢◌, refl, ap, ◌∙◌, true, false, not, some, none,
  arith, ◌==◌, length, length-append, Option, ◌||◌, ltb,
}
use cccaster_ver_b.Wire.Bytes.{
  bytes, little, read, little-bytes, take-append, drop-append, starts_with,
}
use cccaster_ver_b.Wire.Route.{
  RoutePacket, RouteType, ping, pong, select, accept, type_of, type_code, flag, encode_route,
  decode_route, fields, out_of_order, route_magic,
}

-- The ranges of the fields; the address has 16 bytes, and there are at most two families of
-- addresses in a mask.
pub record Fits (p : RoutePacket) : Type 0 where
  pub available_bound : p.available ≤ 3
  pub attempted_bound : p.attempted ≤ 3
  pub token_bound : p.token < 256 ^ 4
  pub sequence_bound : p.sequence < 256 ^ 4
  pub processing_bound : p.processing_us < 256 ^ 4
  pub nonce_bound : p.nonce < 256 ^ 8
  pub echo_bound : p.echo_nonce < 256 ^ 8
  pub port_bound : p.v6_port < 256 ^ 2
  pub address_length : length p.v6 ≡ 16
  pub nonce_set : p.nonce ≢ 0

type_code-bounds : (t : RouteType) → (1 ≤ type_code t) × (type_code t ≤ 4)
type_code-bounds ping = omega arith
type_code-bounds pong = omega arith
type_code-bounds select = omega arith
type_code-bounds accept = omega arith

type_of-code : (t : RouteType) → type_of (type_code t) ≡ t
type_of-code ping = refl
type_of-code pong = refl
type_of-code select = refl
type_of-code accept = refl

flag-back : (b : Bool) → not (flag b == 0) ≡ b
flag-back true = refl
flag-back false = refl

flag-bound : (b : Bool) → flag b ≤ 1
flag-bound true = omega arith
flag-bound false = omega arith

set_number : (n : ℕ) (v : Option RoutePacket) → n ≢ 0 → (if n == 0 then none else v) ≡ v
set_number n v h = ground arith

ranges :
    (size kind punched available attempted : ℕ) (header : Bool)
    → size ≡ 58
    → header ≡ true
    → 1 ≤ kind
    → kind ≤ 4
    → punched ≤ 1
    → available ≤ 3
    → attempted ≤ 3
    → (not (size == 58)
        || not header
        || ltb kind 1
        || ltb 4 kind
        || ltb 1 punched
        || ltb 3 available
        || ltb 3 attempted)
      ≡ false
ranges size kind punched available attempted header a b c d e f g = ground arith

module _ (p : RoutePacket) (h : Fits p) where
  kind_field : read 8 1 (encode_route p) ≡ type_code p.kind
  unfolding encode_route
  kind_field = omega (arith, type_code-bounds p.kind)

  punched_field : read 9 1 (encode_route p) ≡ flag p.punched
  unfolding encode_route
  punched_field = omega (arith, flag-bound p.punched)

  available_field : read 10 1 (encode_route p) ≡ p.available
  unfolding encode_route
  available_field = omega (arith, h.available_bound)

  attempted_field : read 11 1 (encode_route p) ≡ p.attempted
  unfolding encode_route
  attempted_field = omega (arith, h.attempted_bound)

  nonce_field : read 16 8 (encode_route p) ≡ p.nonce
  unfolding encode_route
  nonce_field = little-bytes 8 p.nonce h.nonce_bound

  size_field : length (encode_route p) ≡ 58
  unfolding encode_route
  size_field = omega (arith, length-append p.v6 (bytes 4 p.processing_us), h.address_length)

  header_field : starts_with route_magic (encode_route p) ≡ true
  unfolding encode_route
  header_field = refl

  in_order : out_of_order (encode_route p) ≡ false
  in_order =
      ranges (length (encode_route p)) _ _ _ _ _ size_field header_field
        (rw kind_field (type_code-bounds p.kind).0) (rw kind_field (type_code-bounds p.kind).1)
        (rw punched_field (flag-bound p.punched)) (rw available_field h.available_bound)
        (rw attempted_field h.attempted_bound)

  fields-encode : fields (encode_route p) ≡ p
  unfolding encode_route
  fields-encode = λ i. record {
    kind = (ap type_of kind_field ∙ type_of-code p.kind) i;
    punched = (ap (λ (n : ℕ). not (n == 0)) punched_field ∙ flag-back p.punched) i;
    available = available_field i;
    attempted = attempted_field i;
    token = little-bytes 4 p.token h.token_bound i;
    nonce = nonce_field i;
    echo_nonce = little-bytes 8 p.echo_nonce h.echo_bound i;
    sequence = little-bytes 4 p.sequence h.sequence_bound i;
    v6_port = little-bytes 2 p.v6_port h.port_bound i;
    v6 = take-append p.v6 (bytes 4 p.processing_us) 16 h.address_length i;
    processing_us =
        (ap (little 4) (drop-append p.v6 (bytes 4 p.processing_us) 16 h.address_length)
            ∙ little-bytes 4 p.processing_us h.processing_bound)
          i;
  }

-- A packet whose fields have the ranges of their types and whose session number is set is read as it
-- was written.
pub decode_route-encode : (p : RoutePacket) → Fits p → decode_route (encode_route p) ≡ some p
unfolding decode_route
decode_route-encode p h = rw (in_order p h) (
    ap (λ (n : ℕ). if n == 0 then none else some (fields (encode_route p))) (nonce_field p h)
    ∙ set_number p.nonce (some (fields (encode_route p))) h.nonce_set
    ∙ ap some (fields-encode p h))
