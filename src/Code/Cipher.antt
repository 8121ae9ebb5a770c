-- ===== src/Code/Cipher.antt =====
-- GenerateKeyStream and XorCipher: the bytes are hidden under a key that is made of the time, in windows of
-- six hours.
use Prim.Native.Nat.{bit_xor}
use cccaster_ver_b.Prelude.{
  ℕ, zero, suc, ◌+◌, ◌*◌, ◌/◌, ◌%◌, ◌^◌, ◌≡◌, List, [], ◌∷◌, length, refl, ap, arith,
}
use cccaster_ver_b.Prelude.Xor.{bit_xor_twice, bit_xor-lt}
use cccaster_ver_b.Code.Radix.{AllBelow}

abbrev pub time_window_seconds : ℕ
time_window_seconds = 21600

-- One step of FNV-1a on 64 bits.
fnv : ℕ → ℕ → ℕ
fnv h x = bit_xor h x * 1_099_511_628_211 % 2 ^ 64

hash_all : ℕ → List ℕ → ℕ
unfolding fnv
hash_all h [] = h
hash_all h (x ∷ xs) = hash_all (fnv h x) xs

-- The eight bytes of a number, lowest first.
window_bytes : ℕ → ℕ → List ℕ
window_bytes zero w = []
window_bytes (suc n) w = (w % 256) ∷ window_bytes n (w / 256)

-- "CCCaster_v10_Session_2026".
abbrev salt : List ℕ
salt =
    67 ∷ 67 ∷ 67 ∷ 97 ∷ 115 ∷ 116 ∷ 101 ∷ 114 ∷ 95 ∷ 118 ∷ 49 ∷ 48 ∷ 95 ∷ 83 ∷ 101 ∷ 115 ∷ 115 ∷ 105
    ∷ 111 ∷ 110 ∷ 95 ∷ 50 ∷ 48 ∷ 50 ∷ 54 ∷ []

stream : ℕ → ℕ → ℕ → List ℕ
unfolding fnv
stream zero i state = []
stream (suc n) i state =
    let next = fnv state (i + 1) in (next / 2 ^ 24 % 256) ∷ stream n (i + 1) next

unfoldable pub generate_key_stream : ℕ → ℕ → List ℕ
unfolding hash_all window_bytes stream
generate_key_stream window count =
    stream count 0 (hash_all (hash_all 14_695_981_039_346_656_037 (window_bytes 8 window)) salt)

-- Only as many bytes as the key has.
unfoldable pub xor_cipher : List ℕ → List ℕ → List ℕ
xor_cipher [] keys = []
xor_cipher (x ∷ xs) [] = x ∷ xs
xor_cipher (x ∷ xs) (k ∷ ks) = bit_xor x k ∷ xor_cipher xs ks

pub xor_cipher_twice : (xs keys : List ℕ) → xor_cipher (xor_cipher xs keys) keys ≡ xs
unfolding xor_cipher
xor_cipher_twice [] keys = refl
xor_cipher_twice (x ∷ xs) [] = refl
xor_cipher_twice (x ∷ xs) (k ∷ ks) =
    let head = bit_xor_twice x k in let rest = xor_cipher_twice xs ks in cc

pub length-xor_cipher : (xs keys : List ℕ) → length (xor_cipher xs keys) ≡ length xs
unfolding xor_cipher
length-xor_cipher [] keys = refl
length-xor_cipher (x ∷ xs) [] = refl
length-xor_cipher (x ∷ xs) (k ∷ ks) = ap suc (length-xor_cipher xs ks)

stream-AllBelow : (n i state : ℕ) → AllBelow 256 (stream n i state)
unfolding stream
stream-AllBelow zero i state = tt
stream-AllBelow (suc n) i state = (omega arith, stream-AllBelow n (i + 1) (fnv state (i + 1)))

pub generate_key_stream-AllBelow : (w n : ℕ) → AllBelow 256 (generate_key_stream w n)
unfolding generate_key_stream
generate_key_stream-AllBelow w n =
    stream-AllBelow n 0 (hash_all (hash_all 14_695_981_039_346_656_037 (window_bytes 8 w)) salt)

pub xor_cipher-AllBelow :
    (xs keys : List ℕ) → AllBelow 256 xs → AllBelow 256 keys → AllBelow 256 (xor_cipher xs keys)
unfolding xor_cipher
xor_cipher-AllBelow [] keys h p = tt
xor_cipher-AllBelow (x ∷ xs) [] h p = h
xor_cipher-AllBelow (x ∷ xs) (k ∷ ks) (h, hs) (p, ps) =
    (bit_xor-lt 8 x k h p, xor_cipher-AllBelow xs ks hs ps)
