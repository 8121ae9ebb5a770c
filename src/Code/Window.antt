-- ===== src/Code/Window.antt =====
-- Encode and DecodeAt: a code is made with the key of the current six hours, and read with that key or the
-- one before.
use cccaster_ver_b.Prelude.{
  ℕ, ◌-◌, ◌/◌, Bool, true, false, ◌&&◌, ◌||◌, List, [], ◌∷◌, length, drop, Option, none, some, leb,
  ltb, ◌==◌, if◌then◌else◌,
}
use cccaster_ver_b.Code.{seal, unseal}
use cccaster_ver_b.Code.Cipher.{time_window_seconds, generate_key_stream, xor_cipher}
use cccaster_ver_b.Code.Base32.{open_old}
use cccaster_ver_b.Code.Payload.{
  Inet, DecodedAddress, no_address, build_plain_payload, parse_plain_payload,
}

abbrev pub expiry_seconds : ℕ
expiry_seconds = 21600

-- The bytes under the key of the window.
unfoldable pub cipher_at : ℕ → List ℕ → List ℕ
unfolding generate_key_stream xor_cipher
cipher_at window payload = xor_cipher payload (generate_key_stream window (length payload))

unfoldable pub encode : Inet → List ℕ → List ℕ → ℕ → List ℕ → ℕ → ℕ → List ℕ
unfolding seal cipher_at build_plain_payload
encode inet ipv4 ipv6 port local token now = seal (
    cipher_at (now / time_window_seconds) (build_plain_payload inet ipv4 ipv6 port token now local))

-- The branch of the newer format has no characters for the computer.
unfoldable pub no_key : Option (List ℕ) → Option (List ℕ × List ℕ)
no_key none = none
no_key (some bytes) = some ([], bytes)

unfoldable pub opened : List ℕ → Option (List ℕ × List ℕ)
unfolding no_key unseal open_old
opened [] = none
opened (c ∷ cs) = if c == 49 then no_key (unseal cs) else open_old (c ∷ cs)

abbrev pub elapsed : ℕ → ℕ → ℕ
elapsed now timestamp = if leb timestamp now then now - timestamp else timestamp - now

-- The windows that are tried: the current one and, if there is one, that before.
abbrev pub windows : ℕ → List ℕ
windows w = if w == 0 then 0 ∷ [] else w ∷ (w - 1) ∷ []

-- The loop over the windows. A candidate that is too old does not end it.
unfoldable pub try_windows : Inet → List ℕ → List ℕ → ℕ → List ℕ → Bool → Bool × DecodedAddress
unfolding cipher_at parse_plain_payload
try_windows inet key encrypted now [] expired = (false, record no_address { is_expired = expired })
try_windows inet key encrypted now (w ∷ ws) expired =
    elim (parse_plain_payload inet key (cipher_at w encrypted)) [
      | none ↦ try_windows inet key encrypted now ws expired
      | some found ↦
          let rest = try_windows inet key encrypted now ws true in
          if leb (elapsed now found.1) expiry_seconds then (true, found.0) else rest
    ]

unfoldable pub decode_opened : Inet → ℕ → Option (List ℕ × List ℕ) → Bool × DecodedAddress
unfolding try_windows
decode_opened inet now none = (false, no_address)
decode_opened inet now (some found) =
    try_windows inet found.0 found.1 now (windows (now / time_window_seconds)) false

-- Whether it is read, and the address.
unfoldable pub decode_at : Inet → List ℕ → ℕ → Bool × DecodedAddress
unfolding opened decode_opened
decode_at inet hash now =
    if length hash == 0 || ltb 128 (length hash)
    then (false, no_address)
    else decode_opened inet now (opened hash)

-- "S-" or "s-" in front.
abbrev pub is_prefixed : List ℕ → Bool
is_prefixed [] = false
is_prefixed (c ∷ []) = false
is_prefixed (c ∷ d ∷ ds) = (c == 83 || c == 115) && d == 45

-- A spectator's code may have such a prefix.
unfoldable pub decode_spectator : Inet → List ℕ → ℕ → Bool × DecodedAddress
unfolding decode_at
decode_spectator inet code now = decode_at inet (if is_prefixed code then drop 2 code else code) now
