-- ===== src/Code/Address.antt =====
-- What is built from an address is parsed as that address.
use cccaster_ver_b.Prelude.{
  ℕ, ◌+◌, ◌%◌, ◌^◌, ◌<◌, ◌≤◌, ◌≡◌, Bool, false, List, [], ◌∷◌, ◌++◌, length, Option, none, some,
  refl, ap, not, ◌∙◌, sym, arith,
}
use cccaster_ver_b.Wire.Bytes.{little-bytes}
use cccaster_ver_b.Code.Radix.{AllBelow}
use cccaster_ver_b.Code.Places.{AllBelow-append}
use cccaster_ver_b.Code.Payload.{
  Inet, DecodedAddress, build_plain_payload, parse_plain_payload, is_empty, four, sixteen, big2,
  big4, from_big, flag_of, flag_sixteen, or_nothing, bit_of, size_if, text4, text6, is_some,
}
use cccaster_ver_b.Code.Fields.{
  field-append, optional-append, optional_all, from_big-big2, from_big-big4, fields_in_order, bits,
  guards_pass, length_parts,
}

-- A text is empty or that of an address of the older kind.
abbrev pub IsIpv4 : Inet → List ℕ → Type 0
IsIpv4 inet [] = Unit {0}
IsIpv4 inet (c ∷ cs) =
    (v : ℕ) × (inet.pton4 (c ∷ cs) ≡ some v) × (v < 2 ^ 32) × (inet.ntop4 v ≡ c ∷ cs)

-- The same for the newer kind.
abbrev pub IsIpv6 : Inet → List ℕ → Type 0
IsIpv6 inet [] = Unit {0}
IsIpv6 inet (c ∷ cs) =
    (v : List ℕ) × (inet.pton6 (c ∷ cs) ≡ some v)
    × (length v ≡ 16)
    × AllBelow 256 v
    × (inet.ntop6 v ≡ c ∷ cs)

length-four :
    (inet : Inet) (text : List ℕ) → length (four inet text) ≡ size_if (not (is_empty text)) 4
length-four inet [] = refl
length-four inet (c ∷ cs) = refl

text4-four : (inet : Inet) (text : List ℕ) → IsIpv4 inet text → text4 inet (four inet text) ≡ text
text4-four inet [] h = refl
text4-four inet (c ∷ cs) (v, e, small, back) = rw e (ap inet.ntop4 (little-bytes 4 v small) ∙ back)

four-AllBelow : (inet : Inet) (text : List ℕ) → AllBelow 256 (four inet text)
four-AllBelow inet [] = tt
four-AllBelow inet (c ∷ cs) = omega arith

length-sixteen :
    (inet : Inet) (text : List ℕ)
    → IsIpv6 inet text
    → length (or_nothing (sixteen inet text)) ≡ size_if (is_some (sixteen inet text)) 16
length-sixteen inet [] h = refl
length-sixteen inet (c ∷ cs) (v, e, long, small, back) = rw e long

text6_nonempty : (inet : Inet) (v : List ℕ) → length v ≡ 16 → text6 inet v ≡ inet.ntop6 v
text6_nonempty inet [] h = absurd (omega arith)
text6_nonempty inet (x ∷ xs) h = refl

text6-sixteen :
    (inet : Inet) (text : List ℕ)
    → IsIpv6 inet text
    → text6 inet (or_nothing (sixteen inet text)) ≡ text
text6-sixteen inet [] h = refl
text6-sixteen inet (c ∷ cs) (v, e, long, small, back) = rw e (text6_nonempty inet v long ∙ back)

sixteen-AllBelow :
    (inet : Inet) (text : List ℕ) → IsIpv6 inet text → AllBelow 256 (or_nothing (sixteen inet text))
sixteen-AllBelow inet [] h = tt
sixteen-AllBelow inet (c ∷ cs) (v, e, long, small, back) = rw e small

abbrev pub outcome : List ℕ → List ℕ → List ℕ → List ℕ → ℕ → ℕ → ℕ → Option (DecodedAddress × ℕ)
outcome key v4 v6 near port token time = some (
  record {
    ipv4 = v4;
    ipv6 = v6;
    local_ipv4 = near;
    port = port;
    public_key = key;
    session_token = token;
    is_expired = false;
  },
  time,
)

-- The text of each field is the text that it was made from.
same_texts :
    (inet : Inet) (key ipv4 ipv6 local : List ℕ) (port token time : ℕ)
    → IsIpv4 inet ipv4
    → IsIpv6 inet ipv6
    → IsIpv4 inet local
    → port < 0x1_0000
    → token < 2 ^ 32
    → time < 2 ^ 32
    → outcome key
        (text4 inet (four inet ipv4))
        (text6 inet (or_nothing (sixteen inet ipv6)))
        (text4 inet (four inet local))
        (from_big 0 (big2 port))
        (from_big 0 (big4 token))
        (from_big 0 (big4 time))
      ≡ outcome key ipv4 ipv6 local port token time
same_texts inet key ipv4 ipv6 local port token time a b c p q r =
    let six = text6 inet (or_nothing (sixteen inet ipv6)) in
    let near = text4 inet (four inet local) in
    let number = from_big 0 (big2 port) in
    let once = from_big 0 (big4 token) in
    let when = from_big 0 (big4 time) in
    ap (λ t. outcome key t six near number once when) (text4-four inet ipv4 a)
    ∙ ap (λ t. outcome key ipv4 t near number once when) (text6-sixteen inet ipv6 b)
    ∙ ap (λ t. outcome key ipv4 ipv6 t number once when) (text4-four inet local c)
    ∙ ap (λ t. outcome key ipv4 ipv6 local t once when) (from_big-big2 port p)
    ∙ ap (λ t. outcome key ipv4 ipv6 local port t when) (from_big-big4 token q)
    ∙ ap (λ t. outcome key ipv4 ipv6 local port token t) (from_big-big4 time r)

-- Without an address there is no flag, and then the payload is refused.
abbrev pub HasAddress : Inet → List ℕ → List ℕ → List ℕ → Type 0
HasAddress inet ipv4 ipv6 local =
    0 < flag_of 1 (is_empty ipv4) + flag_sixteen (sixteen inet ipv6) + flag_of 4 (is_empty local)

some_field :
    (a : Bool) (s : Option (List ℕ)) (c : Bool)
    → 0 < flag_of 1 a + flag_sixteen s + flag_of 4 c
    → (4 ≤ size_if (not a) 4 + size_if (is_some s) 16 + size_if (not c) 4)
      × (size_if (not a) 4 + size_if (is_some s) 16 + size_if (not c) 4 ≤ 24)
some_field a none c h = (ground arith, ground arith)
some_field a (some xs) c h = (ground arith, ground arith)

pub length-build :
    (inet : Inet) (ipv4 ipv6 local : List ℕ) (port token time : ℕ)
    → IsIpv6 inet ipv6
    → HasAddress inet ipv4 ipv6 local
    → (15 ≤ length (build_plain_payload inet ipv4 ipv6 port token time local))
      × (length (build_plain_payload inet ipv4 ipv6 port token time local) ≤ 35)
unfolding build_plain_payload
length-build inet ipv4 ipv6 local port token time b has =
    let six = sixteen inet ipv6 in
    let ts = time % 2 ^ 32 in
    let body = big2 port ++ (big4 token ++ big4 ts) in
    let total = length_parts (four inet ipv4) (or_nothing six) body (four inet local) in
    let l4 = length-four inet ipv4 in
    let l6 = length-sixteen inet ipv6 b in
    let ln = length-four inet local in
    let sizes = some_field (is_empty ipv4) six (is_empty local) has in
    (omega (arith, total, l4, l6, ln, sizes.0), omega (arith, total, l4, l6, ln, sizes.1))

pub build-AllBelow :
    (inet : Inet) (ipv4 ipv6 local : List ℕ) (port token time : ℕ)
    → IsIpv6 inet ipv6
    → AllBelow 256 (build_plain_payload inet ipv4 ipv6 port token time local)
unfolding build_plain_payload
build-AllBelow inet ipv4 ipv6 local port token time b =
    let six = or_nothing (sixteen inet ipv6) in
    let ts = time % 2 ^ 32 in
    let body = big2 port ++ (big4 token ++ big4 ts) in
    let body_below : AllBelow 256 body = omega arith in
    let near = AllBelow-append 256 body (four inet local) body_below (four-AllBelow inet local) in
    let more =
      AllBelow-append 256 six (body ++ four inet local) (sixteen-AllBelow inet ipv6 b) near in
    let first = bits (is_empty ipv4) (sixteen inet ipv6) (is_empty local) in
    (
      omega (arith, first.3),
      AllBelow-append 256 (four inet ipv4) (six ++ (body ++ four inet local))
          (four-AllBelow inet ipv4) more,
    )

pub parse_plain_payload-build :
    (inet : Inet) (key ipv4 ipv6 local : List ℕ) (port token time : ℕ)
    → IsIpv4 inet ipv4
    → IsIpv6 inet ipv6
    → IsIpv4 inet local
    → HasAddress inet ipv4 ipv6 local
    → 0 < port
    → port < 0x1_0000
    → token < 2 ^ 32
    → time < 2 ^ 32
    → parse_plain_payload inet key (build_plain_payload inet ipv4 ipv6 port token time local)
      ≡ outcome key ipv4 ipv6 local port token time
unfolding build_plain_payload
parse_plain_payload-build inet key ipv4 ipv6 local port token time a b c has pos p q r =
    let six = sixteen inet ipv6 in
    let flags = flag_of 1 (is_empty ipv4) + flag_sixteen six + flag_of 4 (is_empty local) in
    let v4 = four inet ipv4 in
    let v6 = or_nothing six in
    let near = four inet local in
    let ts = time % 2 ^ 32 in
    let same_time : ts ≡ time = omega arith in
    let bit = bits (is_empty ipv4) six (is_empty local) in
    let l4 = length-four inet ipv4 ∙ ap (λ x. size_if x 4) (sym bit.0) in
    let l6 = length-sixteen inet ipv6 b ∙ ap (λ x. size_if x 16) (sym bit.1) in
    let ln = length-four inet local ∙ ap (λ x. size_if x 4) (sym bit.2) in
    let total = length_parts v4 v6 (big2 port ++ (big4 token ++ big4 ts)) near in
    let tail = big4 token ++ (big4 ts ++ near) in
    guards_pass inet key flags (v4 ++ (v6 ++ (big2 port ++ tail))) has bit.3
      (omega (arith, total, l4, l6, ln))
    ∙ fields_in_order inet key flags (v4 ++ (v6 ++ (big2 port ++ tail))) v4
        (v6 ++ (big2 port ++ tail)) v6 (big2 port ++ tail) (big2 port) tail (big4 token)
        (big4 ts ++ near) (big4 ts) near near []
        (optional-append (bit_of flags 1) 4 v4 (v6 ++ (big2 port ++ tail)) l4)
        (optional-append (bit_of flags 2) 16 v6 (big2 port ++ tail) l6)
        (field-append 2 (big2 port) tail refl) (field-append 4 (big4 token) (big4 ts ++ near) refl)
        (field-append 4 (big4 ts) near refl) (optional_all (bit_of flags 4) 4 near ln)
        (omega (arith, from_big-big2 port p, pos))
    ∙ rw same_time (same_texts inet key ipv4 ipv6 local port token time a b c p q r)
