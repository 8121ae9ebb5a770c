-- ===== src/Emblem/Delivery.antt =====
-- A picture arrives whole, once, whatever happens to its chunks on the way.
use mathlib.Core.Path.{subst}
use cccaster_ver_b.Prelude.{
  ℕ, suc, ◌/◌, ◌%◌, ◌<◌, ◌≡◌, ◌≢◌, refl, ap, sym, ◌∙◌, true, false, Bool, Bool-cases, inl, inr,
  List, [], ◌∷◌, Option, none, some, length, ◌==◌, if◌then◌else◌, arith, zero, not, ◌≤◌, ◌+◌,
}
use cccaster_ver_b.Prelude.Table.{set_at, set_at_ne}
use cccaster_ver_b.Emblem.{
  Image, Chunk, Receiver, fresh, make_chunk, valid_chunk, valid_image, accept, all_received,
  any_received, byte_count, chunk_count, refused, store, with_chunk, all_zero, no_image,
}
use cccaster_ver_b.Emblem.Chunks.{SameBytes, hash-same, make_chunk-valid, paste-make_chunk}

abbrev pub keep : Option Image → List Image → List Image
keep none images = images
keep (some image) images = image ∷ images

abbrev pub is_empty : List (ℕ × ℕ) → Bool
is_empty [] = true
is_empty (c ∷ cs) = false

-- The pictures that a receiver publishes.
abbrev pub run : Receiver → List Chunk → List Image
run r [] = []
run r (c ∷ cs) = keep (accept r c).0 (run (accept r c).1 cs)

-- Chunks of a picture, as they arrive: the counter of the sender and its acknowledgement.
abbrev pub arriving : Image → List (ℕ × ℕ) → List Chunk
arriving image [] = []
arriving image (c ∷ order) = make_chunk image c.0 c.1 ∷ arriving image order

-- The parts that have arrived.
abbrev pub arrived : (ℕ → Bool) → List (ℕ × ℕ) → ℕ → Bool
arrived parts [] = parts
arrived parts (c ∷ order) = arrived (set_at parts (c.0 % chunk_count) true) order

abbrev pub SameImage : Image → Image → Type 0
SameImage image other = (other.id ≡ image.id) × SameBytes other.pixels image.pixels

abbrev pub AllSame : Image → List Image → Type 0
AllSame image [] = Unit {0}
AllSame image (other ∷ others) = SameImage image other × AllSame image others

refuse_closed : (r : Receiver) (c : Chunk) → r.completed ≡ true → refused r c ≡ true
refuse_closed r c h = ground (arith, h)

closed-run : (r : Receiver) (cs : List Chunk) → r.completed ≡ true → run r cs ≡ []
unfolding accept
closed-run r [] h = refl
closed-run r (c ∷ cs) h = rw (refuse_closed r c h) (closed-run r cs h)

-- The parts that have arrived are those of the picture, and it is not complete.
record Has (image : Image) (r : Receiver) : Type 0 where
  is_open : r.completed ≡ false
  incomplete : all_received r.received ≡ false
  id : any_received r.received ≡ true → r.pending.id ≡ image.id
  part :
      (i : ℕ) → i < byte_count → r.received (i / 256) ≡ true → r.pending.pixels i ≡ image.pixels i

not_refused :
    (image : Image) (r : Receiver) (c : Chunk)
    → Has image r
    → (valid_chunk c ≡ true) × (c.id ≡ image.id)
    → refused r c ≡ false
not_refused image r c h v = ground (arith, h.is_open, h.id, v)

accept-store :
    (image : Image) (r : Receiver) (c : Chunk)
    → image.id ≢ 0
    → Has image r
    → (valid_chunk c ≡ true) × (c.id ≡ image.id)
    → accept r c ≡ store (with_chunk r c)
unfolding accept
accept-store image r c n h v =
    let set : (c.id == 0) ≡ false = ground (arith, n, v.1) in
    rw (not_refused image r c h v, set) refl

apart : (k i : ℕ) → (i / 256 == k % chunk_count) ≡ false → i / 256 ≢ k % chunk_count
apart k i e = ground (arith, e)

same_id :
    (image other : Image)
    → image.id ≢ 0
    → SameImage image other
    → valid_image image ≡ true
    → valid_image other ≡ true
unfolding valid_image
same_id image other n s v = ground (arith, hash-same other.pixels image.pixels s.1, s.0)

all_parts : (parts : ℕ → Bool) (j : ℕ) → all_received parts ≡ true → j < 5 → parts j ≡ true
all_parts parts zero h b = ground (arith, h)
all_parts parts (suc zero) h b = ground (arith, h)
all_parts parts (suc (suc zero)) h b = ground (arith, h)
all_parts parts (suc (suc (suc zero))) h b = ground (arith, h)
all_parts parts (suc (suc (suc (suc zero)))) h b = ground (arith, h)
all_parts parts (suc (suc (suc (suc (suc j))))) h b = absurd (omega (arith, b))

store-more : (r : Receiver) → all_received r.received ≡ false → store r ≡ (none, r)
store-more r e = rw e refl

store-last :
    (r : Receiver)
    → all_received r.received ≡ true
    → valid_image r.pending ≡ true
    → store r ≡ (some r.pending, record r { completed = true })
store-last r e v = rw (e, v) refl

module _ (image : Image) (some_image : image.id ≢ 0) (valid : valid_image image ≡ true)
    (k ack : ℕ) where
  -- The receiver after a chunk of the picture is stored.
  abbrev stored : Receiver → Receiver
  stored r = with_chunk r (make_chunk image k ack)

  stored-part :
      (r : Receiver) (i : ℕ)
      → Has image r
      → i < byte_count
      → (stored r).received (i / 256) ≡ true
      → (stored r).pending.pixels i ≡ image.pixels i
  stored-part r i h b e =
      let place = (make_chunk-valid image some_image k ack).2 in
      let p = paste-make_chunk image some_image k ack r.pending.pixels i b in
      elim (Bool-cases (i / 256 == k % chunk_count)) [
        | inl here ↦ p ∙ rw here refl
        | inr other ↦
            p
            ∙ rw other (
                h.part i b (
                  sym (set_at_ne r.received _ (i / 256) true (λ s. apart k i other (sym s ∙ place)))
                  ∙ e))
      ]

  stored-same :
      (r : Receiver)
      → Has image r
      → all_received (stored r).received ≡ true
      → SameImage image (stored r).pending
  stored-same r h e = (
    (make_chunk-valid image some_image k ack).1,
    λ i b. stored-part r i h b (all_parts (stored r).received (i / 256) e (omega (arith, b))),
  )

  stored-Has :
      (r : Receiver) → Has image r → all_received (stored r).received ≡ false → Has image (stored r)
  stored-Has r h e = record {
    is_open = h.is_open;
    incomplete = e;
    id = λ a. (make_chunk-valid image some_image k ack).1;
    part = λ i b p. stored-part r i h b p;
  }

  accept-more :
      (r : Receiver)
      → Has image r
      → all_received (stored r).received ≡ false
      → accept r (make_chunk image k ack) ≡ (none, stored r)
  accept-more r h e =
      let v = make_chunk-valid image some_image k ack in
      accept-store image r (make_chunk image k ack) some_image h (v.0, v.1)
      ∙ store-more (stored r) e

  accept-last :
      (r : Receiver)
      → Has image r
      → all_received (stored r).received ≡ true
      → accept r (make_chunk image k ack)
        ≡ (some (stored r).pending, record (stored r) { completed = true })
  accept-last r h e =
      let v = make_chunk-valid image some_image k ack in
      accept-store image r (make_chunk image k ack) some_image h (v.0, v.1)
      ∙ store-last (stored r) e
          (same_id image (stored r).pending some_image (stored-same r h e) valid)

pub keeps :
    (parts : ℕ → Bool) (order : List (ℕ × ℕ))
    → all_received parts ≡ true
    → all_received (arrived parts order) ≡ true
keeps parts [] h = h
keeps parts (c ∷ order) h = keeps (set_at parts (c.0 % chunk_count) true) order (ground (arith, h))

-- Until the picture is complete nothing is published, and then it is.
Delivered : Image → List Image → Bool → Type 0
Delivered image images complete =
    (length images ≡ (if complete then 1 else 0)) × AllSame image images

run-Delivered :
    (image : Image) (r : Receiver) (order : List (ℕ × ℕ))
    → image.id ≢ 0
    → valid_image image ≡ true
    → Has image r
    → Delivered image (run r (arriving image order)) (all_received (arrived r.received order))
unfolding Delivered
run-Delivered image r [] n v h = rw h.incomplete (refl, tt)
run-Delivered image r (c ∷ order) n v h =
    let next = stored image n v c.0 c.1 r in
    let q : next.received ≡ set_at r.received (c.0 % chunk_count) true =
      ap (λ j. set_at r.received j true) (make_chunk-valid image n c.0 c.1).2 in
    elim (Bool-cases (all_received next.received)) [
      | inl e ↦
          rw
            (
              accept-last image n v c.0 c.1 r h e,
              closed-run (record next { completed = true }) (arriving image order) refl,
              keeps (set_at r.received (c.0 % chunk_count) true) order
                  (ap all_received (sym q) ∙ e),
            )
            (refl, (stored-same image n v c.0 c.1 r h e, tt))
      | inr e ↦ rw (accept-more image n v c.0 c.1 r h e) (
          subst
            (λ parts.
              Delivered image (run next (arriving image order))
                (all_received (arrived parts order)))
            q (run-Delivered image next order n v (stored-Has image n v c.0 c.1 r h e)))
    ]

published_parts :
    (image : Image) (order : List (ℕ × ℕ))
    → image.id ≢ 0
    → valid_image image ≡ true
    → Delivered image (run fresh (arriving image order)) (all_received (arrived (λ i. false) order))
published_parts image order n v = run-Delivered image fresh order n v (record {
  is_open = refl;
  incomplete = refl;
  id = λ e. ground (arith, e);
  part = λ i b e. ground (arith, e);
})

zero_bytes :
    (pixels : ℕ → ℕ) (i k j : ℕ) → all_zero pixels i k ≡ true → i ≤ j → j < i + k → pixels j ≡ 0
unfolding all_zero
zero_bytes pixels i zero j h p q = absurd (omega (arith, p, q))
zero_bytes pixels i (suc k) j h p q = elim (Bool-cases (i == j)) [
  | inl here ↦ ground (arith, h, here)
  | inr later ↦
      zero_bytes pixels (suc i) k j (ground (arith, h)) (ground (arith, p, later))
        (omega (arith, q))
]

blank-same : (image : Image) → image.id ≡ 0 → valid_image image ≡ true → SameImage image no_image
unfolding valid_image
blank-same image z v =
    let zeros : all_zero image.pixels 0 byte_count ≡ true = rw z at v in
    (
      sym z,
      λ i b. sym (zero_bytes image.pixels 0 byte_count i zeros (omega arith) (omega (arith, b))),
    )

blank_accepted :
    (image : Image) (k ack : ℕ)
    → image.id ≡ 0
    → accept fresh (make_chunk image k ack) ≡ (some no_image, record fresh { completed = true })
unfolding accept make_chunk
blank_accepted image k ack z = rw z refl

-- The blank picture is complete with its first chunk, any other with all of its parts.
abbrev pub is_complete : Image → List (ℕ × ℕ) → Bool
is_complete image order =
    if image.id == 0 then not (is_empty order) else all_received (arrived (λ i. false) order)

run-published-blank :
    (image : Image) (order : List (ℕ × ℕ))
    → image.id ≡ 0
    → valid_image image ≡ true
    → Delivered image (run fresh (arriving image order)) (not (is_empty order))
unfolding Delivered
run-published-blank image [] z v = (refl, tt)
run-published-blank image (c ∷ order) z v =
    rw
      (
        blank_accepted image c.0 c.1 z,
        closed-run (record fresh { completed = true }) (arriving image order) refl,
      )
      (refl, (blank-same image z v, tt))

-- The chunks of a valid picture, in any order and any number of times each, whatever they
-- acknowledge, reach a new receiver. If the picture is not blank, it publishes nothing if one of the
-- five parts is missing, and otherwise exactly one picture, with the number and all the bytes of the one that
-- was sent. The blank picture, with the number 0, is published in the same way once a chunk has
-- arrived.
pub run-published :
    (image : Image) (order : List (ℕ × ℕ))
    → valid_image image ≡ true
    → (length (run fresh (arriving image order)) ≡ (if is_complete image order then 1 else 0))
      × AllSame image (run fresh (arriving image order))
unfolding Delivered
run-published image order v = elim (Bool-cases (image.id == 0)) [
  | inl blank ↦ rw blank (run-published-blank image order (ground (arith, blank)) v)
  | inr shown ↦ rw shown (published_parts image order (λ z. ground (arith, shown, z)) v)
]
