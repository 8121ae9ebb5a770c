-- ===== src/Emblem/Chunks.antt =====
-- A chunk puts its part of the picture in its place.
use cccaster_ver_b.Prelude.{
  ℕ, zero, suc, ◌+◌, ◌-◌, ◌*◌, ◌/◌, ◌%◌, ◌≤◌, ◌<◌, ◌≡◌, ◌≢◌, refl, ap, ◌∙◌, true, not, ◌&&◌, ltb,
  leb, ◌==◌, if◌then◌else◌, arith, ◌^◌, Bool-cases, inl, inr,
}
use cccaster_ver_b.Emblem.{
  Image, make_chunk, valid_chunk, paste, hash, hash_bytes, byte_count, chunk_count, chunk_size,
  bit_xor,
}

-- The bytes of two pictures agree.
abbrev pub SameBytes : (ℕ → ℕ) → (ℕ → ℕ) → Type 0
SameBytes p q = (i : ℕ) → i < byte_count → p i ≡ q i

hash_bytes-same :
    (p q : ℕ → ℕ) (k i h : ℕ)
    → i + k ≤ byte_count
    → SameBytes p q
    → hash_bytes p i k h ≡ hash_bytes q i k h
unfolding hash_bytes
hash_bytes-same p q zero i h b s = refl
hash_bytes-same p q (suc k) i h b s =
    ap (λ x. hash_bytes p (suc i) k (bit_xor h x * 16777619 % 2 ^ 32)) (s i (omega (arith, b)))
    ∙ hash_bytes-same p q k (suc i) _ (omega (arith, b)) s

pub hash-same : (p q : ℕ → ℕ) → SameBytes p q → hash p ≡ hash q
unfolding hash
hash-same p q s = rw (hash_bytes-same p q byte_count 0 2166136261 (omega arith) s) refl

-- The bytes of a chunk are those of its place.
in_place :
    (place i : ℕ)
    → i < byte_count
    → place < chunk_count
    → (leb (place * 256) i && ltb i (place * 256 + chunk_size place)) ≡ (i / 256 == place)
in_place place i h b = ground arith

inside :
    (place i : ℕ)
    → i < byte_count
    → place < chunk_count
    → (i / 256 == place) ≡ true
    → (ltb (i - place * 256) (chunk_size place) ≡ true) × (place * 256 + (i - place * 256) ≡ i)
inside place i h b e = ground (arith, e)

paste_place :
    (f g : ℕ → ℕ) (place i : ℕ)
    → i < byte_count
    → place < chunk_count
    → (if leb (place * 256) i && ltb i (place * 256 + chunk_size place)
        then (if ltb (i - place * 256) (chunk_size place)
            then f (place * 256 + (i - place * 256))
            else 0)
        else g i)
      ≡ (if i / 256 == place then f i else g i)
paste_place f g place i h b = elim (Bool-cases (i / 256 == place)) [
  | inl e ↦ let t = inside place i h b e in rw (in_place place i h b, e, t.0) (ap f t.1)
  | inr e ↦ rw (in_place place i h b, e) refl
]

module _ (image : Image) (some_image : image.id ≢ 0) (k acknowledged : ℕ) where
  pub make_chunk-valid :
      (valid_chunk (make_chunk image k acknowledged) ≡ true)
      × ((make_chunk image k acknowledged).id ≡ image.id)
      × ((make_chunk image k acknowledged).index ≡ k % chunk_count)
  unfolding make_chunk
  make_chunk-valid = ground (arith, some_image)

  pub paste-make_chunk :
      (pixels : ℕ → ℕ) (i : ℕ)
      → i < byte_count
      → paste pixels (make_chunk image k acknowledged) i
        ≡ (if i / 256 == k % chunk_count then image.pixels i else pixels i)
  unfolding make_chunk
  paste-make_chunk pixels i h =
      let has_id : not (image.id == 0) ≡ true = ground (arith, some_image) in
      rw has_id (paste_place image.pixels pixels (k % chunk_count) i h (omega arith))
