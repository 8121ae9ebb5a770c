-- ===== src/Code/Fields.antt =====
-- How the fields of the bytes of an address are found one behind another.
use cccaster_ver_b.Prelude.{
  ℕ, suc, ◌+◌, ◌^◌, ◌<◌, ◌≡◌, Bool, true, false, List, [], ◌∷◌, ◌++◌, length, length-append, Option,
  none, some, refl, ap, not, leb, ◌==◌, ◌∙◌, sym, arith,
}
use cccaster_ver_b.Wire.Bytes.{take-append, drop-append}
use cccaster_ver_b.Code.Payload.{
  Inet, parse_plain_payload, parse_fields, optional, field, big2, big4, from_big, flag_of,
  flag_sixteen, bit_of, size_if, text4, text6, is_some,
}

pub field-append : (n : ℕ) (xs ys : List ℕ) → length xs ≡ n → field n (xs ++ ys) ≡ some (xs, ys)
unfolding field
field-append n xs ys h =
    let total = length-append xs ys in
    rw (take-append xs ys n h, drop-append xs ys n h) (ground (arith, total, h))

pub optional-append :
    (present : Bool) (n : ℕ) (xs ys : List ℕ)
    → length xs ≡ size_if present n
    → optional present n (xs ++ ys) ≡ some (xs, ys)
unfolding optional
optional-append true n xs ys h = field-append n xs ys h
optional-append false n [] ys h = refl
optional-append false n (x ∷ xs) ys h = absurd (omega (arith, h))

append-nil : (xs : List ℕ) → xs ++ [] ≡ xs
append-nil [] = refl
append-nil (x ∷ xs) = ap (λ t. x ∷ t) (append-nil xs)

pub optional_all :
    (present : Bool) (n : ℕ) (xs : List ℕ)
    → length xs ≡ size_if present n
    → optional present n xs ≡ some (xs, [])
optional_all present n xs h =
    ap (optional present n) (sym (append-nil xs)) ∙ optional-append present n xs [] h

pub from_big-big2 : (n : ℕ) → n < 0x1_0000 → from_big 0 (big2 n) ≡ n
from_big-big2 n h = omega arith

pub from_big-big4 : (n : ℕ) → n < 2 ^ 32 → from_big 0 (big4 n) ≡ n
from_big-big4 n h = omega arith

-- The fields in order, each found in what the one before has left.
pub fields_in_order :
    (inet : Inet) (key : List ℕ) (flags : ℕ)
    → (rest v4 r4 v6 r6 port r2 token rt time rl near end : List ℕ)
    → optional (bit_of flags 1) 4 rest ≡ some (v4, r4)
    → optional (bit_of flags 2) 16 r4 ≡ some (v6, r6)
    → field 2 r6 ≡ some (port, r2)
    → field 4 r2 ≡ some (token, rt)
    → field 4 rt ≡ some (time, rl)
    → optional (bit_of flags 4) 4 rl ≡ some (near, end)
    → 0 < from_big 0 port
    → parse_fields inet key flags rest
      ≡ some (
        record {
          ipv4 = text4 inet v4;
          ipv6 = text6 inet v6;
          local_ipv4 = text4 inet near;
          port = from_big 0 port;
          public_key = key;
          session_token = from_big 0 token;
          is_expired = false;
        },
        from_big 0 time,
      )
unfolding parse_fields
fields_in_order inet key flags rest v4 r4 v6 r6 port r2 token rt time rl near end a b c d e f h =
    let nonzero : (from_big 0 port == 0) ≡ false = ground (arith, h) in
    rw a (rw b (rw c (rw d (rw e (rw f (rw nonzero refl))))))

-- What the flags say.
pub bits :
    (a : Bool) (s : Option (List ℕ)) (c : Bool)
    → (bit_of (flag_of 1 a + flag_sixteen s + flag_of 4 c) 1 ≡ not a)
      × (bit_of (flag_of 1 a + flag_sixteen s + flag_of 4 c) 2 ≡ is_some s)
      × (bit_of (flag_of 1 a + flag_sixteen s + flag_of 4 c) 4 ≡ not c)
      × (flag_of 1 a + flag_sixteen s + flag_of 4 c < 8)
bits true none true = (refl, refl, refl, omega arith)
bits true none false = (refl, refl, refl, omega arith)
bits true (some xs) true = (refl, refl, refl, omega arith)
bits true (some xs) false = (refl, refl, refl, omega arith)
bits false none true = (refl, refl, refl, omega arith)
bits false none false = (refl, refl, refl, omega arith)
bits false (some xs) true = (refl, refl, refl, omega arith)
bits false (some xs) false = (refl, refl, refl, omega arith)

-- The guards pass for a payload of the size that its flags tell.
pub guards_pass :
    (inet : Inet) (key : List ℕ) (flags : ℕ) (rest : List ℕ)
    → 0 < flags
    → flags < 8
    → suc (length rest)
      ≡ 11 + size_if (bit_of flags 1) 4 + size_if (bit_of flags 2) 16 + size_if (bit_of flags 4) 4
    → parse_plain_payload inet key (flags ∷ rest) ≡ parse_fields inet key flags rest
unfolding parse_plain_payload
guards_pass inet key flags rest p q e =
    let a : (flags == 0) ≡ false = ground arith in
    let b : leb 8 flags ≡ false = ground arith in rw (a, b, e) (ground arith)

pub length_parts :
    (v4 v6 body near : List ℕ)
    → length (v4 ++ (v6 ++ (body ++ near))) ≡ length v4 + (length v6 + (length body + length near))
length_parts v4 v6 body near =
    let a = length-append v4 (v6 ++ (body ++ near)) in
    let b = length-append v6 (body ++ near) in
    let c = length-append body near in omega (arith, a, b, c)
