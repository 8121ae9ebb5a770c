-- ===== src/Emblem/Exchange/Sending.antt =====
-- What one side sends is enough for the other.
use mathlib.Core.Path.{subst}
use cccaster_ver_b.Prelude.{
  ◌==◌, ℕ, suc, ◌≤◌, ◌≡◌, ◌⊎◌, refl, ap, ◌∙◌, true, false, Bool-cases, inl, inr, List, [], ◌∷◌,
  Option, none, some, length, arith,
}
use cccaster_ver_b.Prelude.Int.{ℤ}
use cccaster_ver_b.Prelude.Words.{add32}
use cccaster_ver_b.Emblem.{
  Image, Chunk, fresh, make_chunk, receiver_id, valid_image, all_received, valid_chunk,
}
use cccaster_ver_b.Emblem.Delivery.{
  run, arriving, arrived, AllSame, run-published, keeps, is_complete,
}
use cccaster_ver_b.Emblem.Exchange.{
  or_none, send, last_second, waits, is_over, is_done, begun, ending, Exchange, start, receive,
  next,
}

-- The calls of one side's exchange.
pub data Event : Type 0 where
  asked : (now : ℤ) → Event
  received : Chunk → Event

abbrev pub handle : Exchange → Event → Option Chunk × Exchange
handle x (asked now) = next x now
handle x (received c) = (none, (receive x c).1)

abbrev pub keep_chunk : Option Chunk → List Chunk → List Chunk
keep_chunk none cs = cs
keep_chunk (some c) cs = c ∷ cs

-- The chunks that it sends.
abbrev pub sent : Exchange → List Event → List Chunk
sent x [] = []
sent x (e ∷ es) = keep_chunk (handle x e).0 (sent (handle x e).1 es)

-- The counters of the chunks go up from `n`.
abbrev Counted : ℕ → List (ℕ × ℕ) → Type 0
Counted n [] = Unit {0}
Counted n (c ∷ order) = (c.0 ≡ n) × Counted (add32 n 1) order

-- A call keeps the picture, and sends nothing or the next chunk.
abbrev Moves : Image → Exchange → Option Chunk × Exchange → Type 0
Moves image x r =
    (r.1.local ≡ some image)
    × (((r.0 ≡ none) × (r.1.counter ≡ x.counter))
        ⊎ ((a : ℕ) × (r.0 ≡ some (make_chunk image x.counter a))
            × (r.1.counter ≡ add32 x.counter 1)))

Moves-send :
    (image : Image) (x y : Exchange) (now : ℤ)
    → y.local ≡ some image
    → y.counter ≡ x.counter
    → Moves image x (send y now)
Moves-send image x y now e c = (
  e,
  inr (
    receiver_id y.receiver,
    (λ i. some (make_chunk (or_none (e i)) (c i) (receiver_id y.receiver))),
    ap (λ n. add32 n 1) c,
  ),
)

Moves-last :
    (image : Image) (x y : Exchange) (now : ℤ)
    → y.local ≡ some image
    → y.counter ≡ x.counter
    → Moves image x (last_second y now)
Moves-last image x y now e c = elim (Bool-cases (is_over y now)) [
  | inl over ↦ rw over (e, inl (refl, c))
  | inr more ↦ rw more (Moves-send image x y now e c)
]

Moves-next :
    (image : Image) (x : Exchange) (now : ℤ) → x.local ≡ some image → Moves image x (next x now)
unfolding next
Moves-next image x now e = elim (Bool-cases (waits (begun x now) now)) [
  | inl w ↦ rw w (e, inl (refl, refl))
  | inr w ↦ rw w (elim (Bool-cases (is_done (begun x now))) [
    | inl d ↦ rw d (Moves-last image x (ending (begun x now) now) now e refl)
    | inr d ↦ rw d (Moves-send image x (begun x now) now e refl)
  ])
]

receive-frame :
    (x : Exchange) (c : Chunk)
    → ((receive x c).1.local ≡ x.local) × ((receive x c).1.counter ≡ x.counter)
unfolding receive
receive-frame x c = elim (Bool-cases (valid_chunk c)) [
  | inl v ↦ rw v (refl, refl)
  | inr v ↦ rw v (refl, refl)
]

Moves-handle :
    (image : Image) (x : Exchange) (e : Event) → x.local ≡ some image → Moves image x (handle x e)
Moves-handle image x (asked now) l = Moves-next image x now l
Moves-handle image x (received c) l = let f = receive-frame x c in (f.0 ∙ l, inl (refl, f.1))

-- Everything that is sent are chunks of the picture, numbered in order.
sent-Counted :
    (image : Image) (x : Exchange) (es : List Event)
    → x.local ≡ some image
    → (order : List (ℕ × ℕ)) × (sent x es ≡ arriving image order) × Counted x.counter order
sent-Counted image x [] l = ([], refl, tt)
sent-Counted image x (e ∷ es) l =
    let m = Moves-handle image x e l in
    let rest = sent-Counted image (handle x e).1 es m.0 in
    elim m.1 [
      | inl nothing ↦ (
        rest.0,
        ap (λ o. keep_chunk o (sent (handle x e).1 es)) nothing.0 ∙ rest.1,
        subst (λ n. Counted n rest.0) nothing.1 rest.2,
      )
      | inr chunk ↦ (
        (x.counter, chunk.0) ∷ rest.0,
        ap (λ o. keep_chunk o (sent (handle x e).1 es)) chunk.1
            ∙ ap (λ cs. make_chunk image x.counter chunk.0 ∷ cs) rest.1,
        (refl, subst (λ n. Counted n rest.0) chunk.2 rest.2),
      )
    ]

length-arriving :
    (image : Image) (order : List (ℕ × ℕ)) → length (arriving image order) ≡ length order
length-arriving image [] = refl
length-arriving image (c ∷ order) = ap suc (length-arriving image order)

-- Five chunks in a row are all the parts.
five_arrive :
    (order : List (ℕ × ℕ))
    → Counted 0 order
    → 5 ≤ length order
    → all_received (arrived (λ i. false) order) ≡ true
five_arrive [] c h = absurd (omega (arith, h))
five_arrive (a ∷ []) c h = absurd (omega (arith, h))
five_arrive (a ∷ b ∷ []) c h = absurd (omega (arith, h))
five_arrive (a ∷ b ∷ d ∷ []) c h = absurd (omega (arith, h))
five_arrive (a ∷ b ∷ d ∷ e ∷ []) c h = absurd (omega (arith, h))
five_arrive (a ∷ b ∷ d ∷ e ∷ f ∷ order) c h =
    keeps _ order (rw (c.0, c.1.0, c.1.1.0, c.1.1.1.0, c.1.1.1.1.0) refl)

all_complete :
    (image : Image) (order : List (ℕ × ℕ))
    → Counted 0 order
    → 5 ≤ length order
    → is_complete image order ≡ true
all_complete image [] c h = absurd (omega (arith, h))
all_complete image (a ∷ order) c h = elim (Bool-cases (image.id == 0)) [
  | inl blank ↦ rw blank refl
  | inr shown ↦ rw shown (five_arrive (a ∷ order) c h)
]

-- One side shows a valid picture, the blank one or another. Whatever it receives meanwhile and
-- whenever it is asked: if all that it sends arrives and that is five chunks or more, a new receiver
-- publishes exactly one picture, which has the number and all the bytes of the one that is shown.
pub sent-published :
    (image : Image) (es : List Event)
    → valid_image image ≡ true
    → 5 ≤ length (sent (start (some image)) es)
    → (length (run fresh (sent (start (some image)) es)) ≡ 1)
      × AllSame image (run fresh (sent (start (some image)) es))
sent-published image es v h =
    let s = sent-Counted image (start (some image)) es refl in
    let five : 5 ≤ length s.0 = omega (arith, h, ap length s.1, length-arriving image s.0) in
    let p = run-published image s.0 v in
    rw s.1 (p.0 ∙ rw (all_complete image s.0 s.2 five) refl, p.1)
