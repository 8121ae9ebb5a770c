-- ===== src/Peer/Control/Tests.antt =====
-- A control packet with a tag that depends on the key and the content.
use cccaster_ver_b.Prelude.{ℕ, ◌+◌, ◌≡◌, refl, true, List, [], ◌∷◌, some, arith, length, ◌^◌}
use cccaster_ver_b.Peer.Control.{Control, selected, encode_control, decode_control}
use cccaster_ver_b.Peer.Control.Roundtrip.{Fits, decode_control-encode}

abbrev toy_mac : List ℕ → List ℕ → List ℕ
toy_mac key xs =
    (length key + length xs)
    ∷ 1
    ∷ 2
    ∷ 3
    ∷ 4
    ∷ 5
    ∷ 6
    ∷ 7
    ∷ 8
    ∷ 9
    ∷ 10
    ∷ 11
    ∷ 12
    ∷ 13
    ∷ 14
    ∷ 15
    ∷ 16
    ∷ 17
    ∷ 18
    ∷ 19
    ∷ 20
    ∷ 21
    ∷ 22
    ∷ 23
    ∷ 24
    ∷ 25
    ∷ 26
    ∷ 27
    ∷ 28
    ∷ 29
    ∷ 30
    ∷ 31
    ∷ []

abbrev control : Control
control = record {
  kind = selected;
  host = true;
  session = 1 ∷ 2 ∷ 3 ∷ 4 ∷ 5 ∷ 6 ∷ 7 ∷ 255 ∷ [];
  sequence = 2 ^ 40 + 3;
  route = 100 ∷ 101 ∷ [];
}

control-Fits : Fits control
control-Fits = record {
  session_length = refl;
  sequence_bound = omega arith;
  route_length = omega arith;
}

decode_control-encode_example :
    decode_control toy_mac (9 ∷ []) (encode_control toy_mac (9 ∷ []) control) ≡ some control
decode_control-encode_example =
    decode_control-encode toy_mac (9 ∷ []) control (λ xs. refl) control-Fits
