-- ===== src/Code/Tests.antt =====
-- Codes, and how they are read.
use cccaster_ver_b.Prelude.{
  ℕ, ◌≡◌, List, [], ◌∷◌, true, false, ◌==◌, if◌then◌else◌, some, none, refl, arith,
}
use cccaster_ver_b.Code.{same, char_of, base62_encode, base62_decode, checksum}
use cccaster_ver_b.Code.Payload.{Inet}
use cccaster_ver_b.Code.Address.{IsIpv4}
use cccaster_ver_b.Code.Window.{encode, decode_at}
use cccaster_ver_b.Code.Decoded.{decode_at-encode}
use cccaster_ver_b.Code.Base32.{base32_decode, base32_value}

-- "1.2.3.4".
abbrev dotted : List ℕ
dotted = 49 ∷ 46 ∷ 50 ∷ 46 ∷ 51 ∷ 46 ∷ 52 ∷ []

-- A system that knows this address only.
abbrev inet : Inet
inet = record {
  pton4 = λ t. if same t dotted then some 0x0403_0201 else none;
  ntop4 = λ v. if v == 0x0403_0201 then dotted else [];
  pton6 = λ t. none;
  ntop6 = λ v. [];
}

dotted-IsIpv4 : IsIpv4 inet dotted
unfolding same
dotted-IsIpv4 = (0x0403_0201, refl, omega arith, refl)

-- Read an hour later.
decode_at-encode_example :
    decode_at inet (encode inet dotted [] 46318 [] 77 1_700_000_000) 1_700_003_600 ≡ (
      true,
      record {
        ipv4 = dotted;
        ipv6 = [];
        local_ipv4 = [];
        port = 46318;
        public_key = [];
        session_token = 77;
        is_expired = false;
      },
    )
decode_at-encode_example =
    decode_at-encode inet dotted [] [] 46318 77 1_700_000_000 1_700_003_600 dotted-IsIpv4 tt tt
      (omega arith) (omega arith) (omega arith) (omega arith) (omega arith) (omega arith)

-- The check value of this CRC: the text "123456789".
checksum_nine : checksum (49 ∷ 50 ∷ 51 ∷ 52 ∷ 53 ∷ 54 ∷ 55 ∷ 56 ∷ 57 ∷ []) ≡ 0x29b1
unfolding checksum
checksum_nine = refl

-- "0z" is a zero byte and 61; "z!" has no such character.
read_zero : base62_decode (48 ∷ 122 ∷ []) ≡ some (0 ∷ 61 ∷ [])
unfolding base62_decode base62_encode char_of
read_zero = refl

read_other : base62_decode (122 ∷ 33 ∷ []) ≡ none
unfolding base62_decode
read_other = refl

write_zero : base62_encode (0 ∷ 61 ∷ []) ≡ 48 ∷ 122 ∷ []
unfolding base62_encode char_of
write_zero = refl

-- "MFRGG" is "abc" in base 32.
read_old : base32_decode (77 ∷ 70 ∷ 82 ∷ 71 ∷ 71 ∷ []) ≡ 97 ∷ 98 ∷ 99 ∷ []
unfolding base32_decode base32_value
read_old = refl
