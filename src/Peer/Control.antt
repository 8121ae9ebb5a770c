-- ===== src/Peer/Control.antt =====
-- src/src/p2p/Protocol.cpp: control packets of a direct connection, with an authentication tag.
-- `mac` is the library's HMAC, cut to 32 bytes.
pub mod Roundtrip
mod Tests
use cccaster_ver_b.Prelude.{
  ℕ, suc, zero, Bool, true, false, ◌+◌, ◌*◌, ◌-◌, ◌/◌, ◌%◌, ◌^◌, not, ◌&&◌, ◌||◌, List, [], ◌∷◌,
  ◌++◌, Option, none, some, length, take, drop, leb, ltb, ◌==◌, if◌then◌else◌,
}
use cccaster_ver_b.Wire.Bytes.{starts_with, read}

pub data ControlType : Type 0 where
  punch ack select selected keepalive : ControlType

abbrev pub type_code : ControlType → ℕ
type_code punch = 1
type_code ack = 2
type_code select = 3
type_code selected = 4
type_code keepalive = 5

-- `ControlType(n)`, for 1 to 5.
abbrev pub type_of : ℕ → ControlType
type_of n =
    if n == 1
    then punch
    else if n == 2
    then ack
    else if n == 3
    then select
    else if n == 4
    then selected
    else keepalive

pub record Control : Type 0 where
  pub kind : ControlType
  pub host : Bool
  pub session : List ℕ
  pub sequence : ℕ
  pub route : List ℕ

-- The `k` low bytes of `n`, the highest first.
abbrev pub big : ℕ → ℕ → List ℕ
big zero n = []
big (suc k) n = n / 256 ^ k % 256 ∷ big k n

-- `sequence = (sequence << 8) | b` over the first `k` bytes.
abbrev pub big_value : ℕ → ℕ → List ℕ → ℕ
big_value zero s xs = s
big_value (suc k) s [] = s
big_value (suc k) s (x ∷ xs) = big_value k ((s * 256 + x) % 2 ^ 64) xs

-- `Equal`, which compares in constant time: the sizes agree, and so does each byte.
abbrev pub equal : List ℕ → List ℕ → Bool
equal a b = length a == length b && starts_with a b

abbrev pub magic : List ℕ
magic = 67 ∷ 66 ∷ 80 ∷ 1 ∷ []

abbrev kind_byte : Control → ℕ
kind_byte p = type_code p.kind + (if p.host then 0x80 else 0)

abbrev pub body : Control → List ℕ
body p = magic ++ (kind_byte p ∷ (p.session ++ (big 8 p.sequence ++ p.route)))

abbrev pub out_of_order : List ℕ → Bool
out_of_order b =
    ltb (length b) 37
    || ltb 197 (length b)
    || not (starts_with magic b)
    || ltb (read 4 1 b % 0x80) 1
    || ltb 5 (read 4 1 b % 0x80)

abbrev pub fields : List ℕ → Control
fields b = record {
  kind = type_of (read 4 1 b % 0x80);
  host = not (read 4 1 b / 0x80 == 0);
  session = take 8 (drop 5 b);
  sequence = big_value 8 0 (drop 13 b);
  route = take (length b - 37) (drop 21 b);
}

module _ (mac : List ℕ → List ℕ → List ℕ) where
  unfoldable pub encode_control : List ℕ → Control → List ℕ
  encode_control key p =
      if ltb 160 (length p.route) then [] else body p ++ take 16 (mac key (body p))

  abbrev pub tagged : List ℕ → List ℕ → Bool
  tagged key b = equal (take 16 (mac key (take (length b - 16) b))) (drop (length b - 16) b)

  unfoldable pub decode_control : List ℕ → List ℕ → Option Control
  decode_control key b =
      if out_of_order b then none else if not (tagged key b) then none else some (fields b)
