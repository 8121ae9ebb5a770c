-- ===== src/Code/Payload.antt =====
-- BuildPlainPayload and ParsePlainPayload: the addresses, port, token and time as bytes. What the system
-- makes of the text of an address, and back, is a parameter; a text is the list of its characters.
use cccaster_ver_b.Prelude.{
  ℕ, suc, ◌+◌, ◌*◌, ◌/◌, ◌%◌, ◌^◌, Bool, true, false, not, ◌||◌, List, [], ◌∷◌, ◌++◌, length, take,
  drop, Option, none, some, leb, ltb, ◌==◌, if◌then◌else◌,
}
use cccaster_ver_b.Wire.Bytes.{bytes, little}

infixl 5 ◌>>=◌
abbrev pub ◌>>=◌ {ℓ κ} : {A : Type ℓ} {B : Type κ} → Option A → (A → Option B) → Option B
none >>= f = none
some a >>= f = f a

-- `inet_pton` and `inet_ntop` for the two kinds of address. An address of the older kind is a number,
-- and one of the newer kind its bytes.
pub record Inet : Type 0 where
  pub pton4 : List ℕ → Option ℕ
  pub ntop4 : ℕ → List ℕ
  pub pton6 : List ℕ → Option (List ℕ)
  pub ntop6 : List ℕ → List ℕ

pub record DecodedAddress : Type 0 where
  pub ipv4 : List ℕ
  pub ipv6 : List ℕ
  pub local_ipv4 : List ℕ
  pub port : ℕ
  pub public_key : List ℕ
  pub session_token : ℕ
  pub is_expired : Bool

abbrev pub no_address : DecodedAddress
no_address = record {
  ipv4 = [];
  ipv6 = [];
  local_ipv4 = [];
  port = 0;
  public_key = [];
  session_token = 0;
  is_expired = false;
}

abbrev pub is_empty : List ℕ → Bool
is_empty [] = true
is_empty (x ∷ xs) = false

abbrev pub value_or_zero : Option ℕ → ℕ
value_or_zero none = 0
value_or_zero (some v) = v

-- Big-endian fields.
abbrev pub big2 : ℕ → List ℕ
big2 n = (n / 256 % 256) ∷ (n % 256) ∷ []

abbrev pub big4 : ℕ → List ℕ
big4 n = (n / 2 ^ 24 % 256) ∷ (n / 2 ^ 16 % 256) ∷ (n / 256 % 256) ∷ (n % 256) ∷ []

abbrev pub from_big : ℕ → List ℕ → ℕ
from_big v [] = v
from_big v (x ∷ xs) = from_big (v * 256 + x) xs

-- The bytes of an address of the older kind, none if its text is empty.
abbrev pub four : Inet → List ℕ → List ℕ
four inet text = if is_empty text then [] else bytes 4 (value_or_zero (inet.pton4 text))

-- An address of the newer kind is left out, with its flag, if its text is not one.
abbrev pub sixteen : Inet → List ℕ → Option (List ℕ)
sixteen inet text = if is_empty text then none else inet.pton6 text

abbrev pub flag_of : ℕ → Bool → ℕ
flag_of bit missing = if missing then 0 else bit

abbrev pub flag_sixteen : Option (List ℕ) → ℕ
flag_sixteen none = 0
flag_sixteen (some xs) = 2

abbrev pub is_some : Option (List ℕ) → Bool
is_some none = false
is_some (some xs) = true

abbrev pub or_nothing : Option (List ℕ) → List ℕ
or_nothing none = []
or_nothing (some xs) = xs

unfoldable pub build_plain_payload : Inet → List ℕ → List ℕ → ℕ → ℕ → ℕ → List ℕ → List ℕ
build_plain_payload inet ipv4 ipv6 port token timestamp local =
    let six = sixteen inet ipv6 in
    (flag_of 1 (is_empty ipv4) + flag_sixteen six + flag_of 4 (is_empty local))
    ∷ (four inet ipv4
        ++ (or_nothing six
            ++ (big2 port ++ (big4 token ++ (big4 (timestamp % 2 ^ 32) ++ four inet local)))))

-- The next `n` bytes, if there are so many, and what is behind them.
unfoldable pub field : ℕ → List ℕ → Option (List ℕ × List ℕ)
field n xs = if ltb (length xs) n then none else some (take n xs, drop n xs)

-- A field whose flag is not set is empty.
unfoldable pub optional : Bool → ℕ → List ℕ → Option (List ℕ × List ℕ)
unfolding field
optional present n xs = if present then field n xs else some ([], xs)

abbrev pub bit_of : ℕ → ℕ → Bool
bit_of flags bit = flags / bit % 2 == 1

abbrev pub size_if : Bool → ℕ → ℕ
size_if present n = if present then n else 0

-- The text of a field of four bytes and of one of sixteen.
abbrev pub text4 : Inet → List ℕ → List ℕ
text4 inet xs = if is_empty xs then [] else inet.ntop4 (little 4 xs)

abbrev pub text6 : Inet → List ℕ → List ℕ
text6 inet xs = if is_empty xs then [] else inet.ntop6 xs

-- The fields behind the flags, in order.
unfoldable pub parse_fields : Inet → List ℕ → ℕ → List ℕ → Option (DecodedAddress × ℕ)
unfolding optional field
parse_fields inet key flags rest = do
  (v4, r4) ← optional (bit_of flags 1) 4 rest
  (v6, r6) ← optional (bit_of flags 2) 16 r4
  (port, r2) ← field 2 r6
  (token, rt) ← field 4 r2
  (time, rl) ← field 4 rt
  (near, end) ← optional (bit_of flags 4) 4 rl
  if from_big 0 port == 0
      then none
      else some (
        record {
          ipv4 = text4 inet v4;
          ipv6 = text6 inet v6;
          local_ipv4 = text4 inet near;
          port = from_big 0 port;
          public_key = key;
          session_token = from_big 0 token;
          is_expired = false;
        },
        from_big 0 time,
      )

-- The address and the time, for a candidate with the given key. What a parse that fails has stored is
-- not used.
unfoldable pub parse_plain_payload : Inet → List ℕ → List ℕ → Option (DecodedAddress × ℕ)
unfolding parse_fields
parse_plain_payload inet key [] = none
parse_plain_payload inet key (flags ∷ rest) =
    let expected =
      11 + size_if (bit_of flags 1) 4 + size_if (bit_of flags 2) 16 + size_if (bit_of flags 4) 4 in
    if flags == 0 || leb 8 flags || not (suc (length rest) == expected)
    then none
    else parse_fields inet key flags rest
