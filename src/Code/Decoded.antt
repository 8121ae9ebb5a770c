-- ===== src/Code/Decoded.antt =====
-- A code is read in the six hours in which it is made.
use cccaster_ver_b.Prelude.{
  ℕ, ◌-◌, ◌/◌, ◌^◌, ◌≤◌, ◌<◌, ◌≡◌, true, false, List, [], ◌∷◌, length, drop, ◌∙◌, ap, refl, arith,
  none, some, leb, ltb, ◌==◌, sym, Bool-cases, inl, inr, suc, suc,
}
use cccaster_ver_b.Code.{seal, unseal, base62_decode, suc}
use cccaster_ver_b.Code.Seal.{unseal-seal}
use cccaster_ver_b.Code.Radix.{AllBelow}
use cccaster_ver_b.Code.Cipher.{
  time_window_seconds, generate_key_stream, xor_cipher_twice, length-xor_cipher,
  xor_cipher-AllBelow, generate_key_stream-AllBelow,
}
use cccaster_ver_b.Code.Payload.{Inet, DecodedAddress, build_plain_payload, parse_plain_payload}
use cccaster_ver_b.Code.Address.{
  IsIpv4, IsIpv6, HasAddress, length-build, build-AllBelow, parse_plain_payload-build,
}
use cccaster_ver_b.Code.Window.{
  cipher_at, encode, opened, no_key, elapsed, windows, try_windows, decode_opened, decode_at,
  decode_spectator,
}

cipher_at_twice : (w : ℕ) (xs : List ℕ) → cipher_at w (cipher_at w xs) ≡ xs
unfolding cipher_at
cipher_at_twice w xs =
    rw (length-xor_cipher xs (generate_key_stream w (length xs)))
      (xor_cipher_twice xs (generate_key_stream w (length xs)))

length-cipher_at : (w : ℕ) (xs : List ℕ) → length (cipher_at w xs) ≡ length xs
unfolding cipher_at
length-cipher_at w xs = length-xor_cipher xs (generate_key_stream w (length xs))

cipher_at-AllBelow : (w : ℕ) (xs : List ℕ) → AllBelow 256 xs → AllBelow 256 (cipher_at w xs)
unfolding cipher_at
cipher_at-AllBelow w xs h =
    xor_cipher-AllBelow xs (generate_key_stream w (length xs)) h
      (generate_key_stream-AllBelow w (length xs))

-- A long text is no code.
too_long : (text : List ℕ) → 50 < length text → unseal text ≡ none
unfolding unseal base62_decode
too_long text h =
    let long : ltb 50 (length text) ≡ true = ground arith in
    let some_text : (length text == 0) ≡ false = ground arith in rw (long, some_text) refl

is_short : (text xs : List ℕ) → unseal text ≡ some xs → length text ≤ 50
is_short text xs e = elim (Bool-cases (ltb 50 (length text))) [
  | inl long ↦ let empty = too_long text (ground arith) in absurd (cc)
  | inr short ↦ ground arith
]

young_head :
    (inet : Inet) (key xs : List ℕ) (now w : ℕ) (ws : List ℕ) (a : DecodedAddress) (t : ℕ)
    → parse_plain_payload inet key (cipher_at w xs) ≡ some (a, t)
    → elapsed now t ≤ 21600
    → try_windows inet key xs now (w ∷ ws) false ≡ (true, a)
unfolding try_windows
young_head inet key xs now w ws a t e h =
    let young : leb (elapsed now t) 21600 ≡ true = ground arith in
    rw (e, try_windows) (rw young refl)

-- The first window that is tried is the current one.
first_window :
    (inet : Inet) (key xs : List ℕ) (now w : ℕ) (a : DecodedAddress) (t : ℕ)
    → parse_plain_payload inet key (cipher_at w xs) ≡ some (a, t)
    → elapsed now t ≤ 21600
    → try_windows inet key xs now (windows w) false ≡ (true, a)
first_window inet key xs now w a t e h = elim (Bool-cases (w == 0)) [
  | inl early ↦
      let none_before : w ≡ 0 = ground arith in
      let start = ap (λ (v : ℕ). try_windows inet key xs now (windows v) false) none_before in
      start
      ∙ young_head inet key xs now 0 [] a t
          (ap (λ v. parse_plain_payload inet key (cipher_at v xs)) (sym none_before) ∙ e) h
  | inr later ↦ rw later (young_head inet key xs now w ((w - 1) ∷ []) a t e h)
]

opens :
    (inet : Inet) (text xs : List ℕ) (now : ℕ)
    → unseal text ≡ some xs
    → decode_at inet (49 ∷ text) now ≡ decode_opened inet now (some ([], xs))
unfolding decode_at opened no_key
opens inet text xs now e =
    let short = is_short text xs e in
    let fits : ltb 128 (suc (length text)) ≡ false = ground arith in
    let some_text : (suc (length text) == 0) ≡ false = ground arith in
    rw (fits, some_text) (ap (λ r. decode_opened inet now (no_key r)) e)

same_window : (now later : ℕ) → now / 21600 ≡ later / 21600 → elapsed later now ≤ 21600
same_window now later h = ground arith

-- A code is read, in the same six hours of the clock and before the seconds have more than 32 bits, as the
-- addresses, the port and the token that it was made of. There has to be an address, each text that is given
-- has to be what the system writes for the address that it reads in it, and the port is not 0.
pub decode_at-encode :
    (inet : Inet) (ipv4 ipv6 local : List ℕ) (port token now later : ℕ)
    → IsIpv4 inet ipv4
    → IsIpv6 inet ipv6
    → IsIpv4 inet local
    → HasAddress inet ipv4 ipv6 local
    → 0 < port
    → port < 0x1_0000
    → token < 2 ^ 32
    → now < 2 ^ 32
    → now / time_window_seconds ≡ later / time_window_seconds
    → decode_at inet (encode inet ipv4 ipv6 port local token now) later ≡ (
      true,
      record {
        ipv4 = ipv4;
        ipv6 = ipv6;
        local_ipv4 = local;
        port = port;
        public_key = [];
        session_token = token;
        is_expired = false;
      },
    )
unfolding encode decode_opened
decode_at-encode inet ipv4 ipv6 local port token now later a b c has pos p q r h =
    let w = now / 21600 in
    let plain = build_plain_payload inet ipv4 ipv6 port token now local in
    let size = length-build inet ipv4 ipv6 local port token now b has in
    let hidden = cipher_at w plain in
    let long = length-cipher_at w plain in
    let below = cipher_at-AllBelow w plain (build-AllBelow inet ipv4 ipv6 local port token now b) in
    let sealed =
      unseal-seal hidden below (omega (arith, long, size.0)) (omega (arith, long, size.1)) in
    let parsed =
      parse_plain_payload-build inet [] ipv4 ipv6 local port token now a b c has pos p q r in
    let back = ap (parse_plain_payload inet []) (cipher_at_twice w plain) ∙ parsed in
    ap (λ t. decode_at inet t later) sealed.0
    ∙ opens inet (drop 1 (seal hidden)) hidden later sealed.1
    ∙ ap (λ v. try_windows inet [] hidden later (windows v) false) (sym h)
    ∙ first_window inet [] hidden later w _ now back (same_window now later h)

-- The prefix of a spectator's code is not part of it.
prefix_dropped :
    (inet : Inet) (code : List ℕ) (now : ℕ)
    → decode_spectator inet (83 ∷ 45 ∷ code) now ≡ decode_at inet code now
unfolding decode_spectator
prefix_dropped inet code now = refl
