-- ===== src/Emblem.antt =====
-- src/src/shared_contracts/PlayerEmblem.hpp: a small picture that each player shows, sent in five
-- chunks beside the inputs. Pixels are functions of the index; of `received_`, a mask, the bits.
-- An absent picture of one's own is `none`.
pub mod Chunks
pub mod Delivery
pub mod Exchange
mod Tests
use Prim.Native.Nat.{bit_xor}
use cccaster_ver_b.Prelude.{
  ℕ, zero, suc, Bool, true, false, ◌+◌, ◌-◌, ◌*◌, ◌%◌, ◌^◌, min, not, ◌&&◌, ◌||◌, Option, none,
  some, ltb, leb, ◌==◌, if◌then◌else◌,
}
use cccaster_ver_b.Prelude.Table.{set_at}

abbrev pub byte_count : ℕ
byte_count = 1152

abbrev pub chunk_bytes : ℕ
chunk_bytes = 256

abbrev pub chunk_count : ℕ
chunk_count = 5

abbrev pub magic : ℕ
magic = 0x324d4543

abbrev pub no_id : ℕ
no_id = 0xffff_ffff

abbrev pub chunk_size : ℕ → ℕ
chunk_size index = min chunk_bytes (byte_count - index * chunk_bytes)

pub record Image : Type 0 where
  pub id : ℕ
  pub pixels : ℕ → ℕ

-- The loop of `Hash` over the `k` bytes from the index `i`.
pub hash_bytes : (ℕ → ℕ) → ℕ → ℕ → ℕ → ℕ
hash_bytes pixels i zero h = h
hash_bytes pixels i (suc k) h =
    hash_bytes pixels (suc i) k (bit_xor h (pixels i) * 16777619 % 2 ^ 32)

unfoldable pub hash : (ℕ → ℕ) → ℕ
hash pixels =
    let h = hash_bytes pixels 0 byte_count 2166136261 in
    if not (h == 0) && not (h == no_id) then h else 1

pub all_zero : (ℕ → ℕ) → ℕ → ℕ → Bool
all_zero pixels i zero = true
all_zero pixels i (suc k) = let rest = all_zero pixels (suc i) k in pixels i == 0 && rest

unfoldable pub valid_image : Image → Bool
valid_image image =
    if not (image.id == 0)
    then image.id == hash image.pixels
    else all_zero image.pixels 0 byte_count

pub record Chunk : Type 0 where
  pub magic_word : ℕ
  pub id : ℕ
  pub index : ℕ
  pub acknowledged : ℕ
  pub pixels : ℕ → ℕ

abbrev pub valid_chunk : Chunk → Bool
valid_chunk c =
    c.magic_word == magic && ltb c.index chunk_count && (not (c.id == 0) || c.index == 0)

abbrev chunk_index : Image → ℕ → ℕ
chunk_index image index = if not (image.id == 0) then index % chunk_count else 0

unfoldable pub make_chunk : Image → ℕ → ℕ → Chunk
make_chunk image index acknowledged =
    let place = chunk_index image index in
    record {
      magic_word = magic;
      id = image.id;
      index = place;
      acknowledged = acknowledged;
      pixels = λ j.
          if not (image.id == 0) && ltb j (chunk_size place)
          then image.pixels (place * chunk_bytes + j)
          else 0;
    }

pub record Receiver : Type 0 where
  pub pending : Image
  pub received : ℕ → Bool
  pub completed : Bool

abbrev pub no_image : Image
no_image = record { id = 0; pixels = λ i. 0 }

abbrev pub fresh : Receiver
fresh = record { pending = no_image; received = λ i. false; completed = false }

abbrev pub receiver_id : Receiver → ℕ
receiver_id r = if r.completed then r.pending.id else no_id

abbrev pub any_received : (ℕ → Bool) → Bool
any_received r = r 0 || r 1 || r 2 || r 3 || r 4

abbrev pub all_received : (ℕ → Bool) → Bool
all_received r = r 0 && r 1 && r 2 && r 3 && r 4

-- `memcpy` of a chunk into the picture.
abbrev pub paste : (ℕ → ℕ) → Chunk → ℕ → ℕ
paste pixels c i =
    if leb (c.index * chunk_bytes) i && ltb i (c.index * chunk_bytes + chunk_size c.index)
    then c.pixels (i - c.index * chunk_bytes)
    else pixels i

-- After the chunk is stored: publish the picture once it is complete, or start again if its bytes
-- do not have its number.
abbrev pub store : Receiver → Option Image × Receiver
store r =
    if not (all_received r.received)
    then (none, r)
    else if not (valid_image r.pending)
    then (none, record r { received = λ i. false; pending = no_image })
    else (some r.pending, record r { completed = true })

abbrev pub refused : Receiver → Chunk → Bool
refused r c =
    not (valid_chunk c) || r.completed || (any_received r.received && not (r.pending.id == c.id))

abbrev pub with_chunk : Receiver → Chunk → Receiver
with_chunk r c = record r {
  pending = record { id = c.id; pixels = paste r.pending.pixels c };
  received = set_at r.received c.index true;
}

unfoldable pub accept : Receiver → Chunk → Option Image × Receiver
accept r c =
    if refused r c
    then (none, r)
    else if c.id == 0
    then (some no_image, record r { pending = no_image; completed = true })
    else store (with_chunk r c)
