-- ===== src/Timing/Projection/Published.antt =====
-- What the other thread reads is what was published last, whenever it reads.
use mathlib.Core.Path.{subst}
use cccaster_ver_b.Prelude.{
  ℕ, ◌+◌, ◌%◌, ◌<◌, ◌≡◌, ◌≢◌, refl, ◌∙◌, true, false, List, [], ◌∷◌, arith, ◌==◌, Bool-cases, inl,
  inr, false, some, if◌then◌else◌,
}
use cccaster_ver_b.Prelude.Int.{eqb_ℤ, pos}
use cccaster_ver_b.Prelude.Words.{add32, u32_mod}
use cccaster_ver_b.Timing.Projection.{
  ClockAnchor, Projection, Field, Store, store_field, store_generation, set_field, perform, publish,
  slot_of, read_once, ℤ, Loads, read_anchor,
}

-- The writing thread: the stores that are left of its `Publish` of `target`, and the anchor of the
-- last `Publish` that it finished.
pub record Writer : Type 0 where
  pub memory : Projection
  pub pending : List Store
  pub target : ClockAnchor
  pub published : ClockAnchor

-- What a store finishes.
abbrev pub finished : Writer → Store → ClockAnchor
finished w (store_field f g v) = w.published
finished w (store_generation g) = w.target

abbrev pub publications : Store → ℕ
publications (store_field f g v) = 0
publications (store_generation g) = 1

abbrev pub after_store : Writer → Store → List Store → Writer
after_store w s rest = record {
  memory = perform w.memory s;
  pending = rest;
  target = w.target;
  published = finished w s;
}

abbrev pub begin_publish : Writer → ClockAnchor → Writer
begin_publish w a = record w { pending = publish w.memory a; target = a }

-- What the writer does in a while, and how many times it stores a new generation in it.
pub data Later (w : Writer) : ℕ → Writer → Type 0 where
  now : Later w 0 w
  stores :
      {n : ℕ} {v : Writer} (s : Store) (rest : List Store)
      → Later w n v
      → v.pending ≡ s ∷ rest
      → Later w (n + publications s) (after_store v s rest)
  begins :
      {n : ℕ} {v : Writer} (a : ClockAnchor)
      → Later w n v
      → v.pending ≡ []
      → Later w n (begin_publish v a)

-- The stores that are left complete the anchor `t` in the slot of the next generation `g`, which
-- holds `x`.
abbrev pub Completes : ClockAnchor → ℕ → ClockAnchor → List Store → Type 0
Completes t g x [] = Unit {0}
Completes t g x (store_field f h v ∷ rest) = (h ≡ g) × Completes t g (set_field x f v) rest
Completes t g x (store_generation h ∷ rest) = (h ≡ g) × (x ≡ t) × (rest ≡ [])

pub record Consistent (w : Writer) : Type 0 where
  pub bound : w.memory.generation < u32_mod
  pub current : slot_of w.memory w.memory.generation ≡ w.published
  pub completes :
      Completes w.target
        (add32 w.memory.generation 1)
        (slot_of w.memory (add32 w.memory.generation 1))
        w.pending

Consistent-begin : (w : Writer) (a : ClockAnchor) → Consistent w → Consistent (begin_publish w a)
Consistent-begin w a h = record {
  bound = h.bound;
  current = h.current;
  completes = (refl, (refl, (refl, (refl, (refl, refl, refl)))));
}

next_parity : (g : ℕ) → g < u32_mod → add32 g 1 % 2 ≢ g % 2
next_parity g h = omega (arith, h)

module _ (p : Projection) (f : Field) (g : ℕ) (v : ℤ) where
  perform_same : slot_of (perform p (store_field f g v)) g ≡ set_field (slot_of p g) f v
  unfolding perform
  perform_same = elim (Bool-cases (g % 2 == 0)) [ inl e ↦ rw e refl | inr e ↦ rw e refl ]

  perform_other : (h : ℕ) → g % 2 ≢ h % 2 → slot_of (perform p (store_field f g v)) h ≡ slot_of p h
  unfolding perform
  perform_other h d = elim (Bool-cases (g % 2 == 0)) [
    | inl e ↦ let o : (h % 2 == 0) ≡ false = ground (arith, e, d) in rw (e, o) refl
    | inr e ↦ let o : (h % 2 == 0) ≡ true = ground (arith, e, d) in rw (e, o) refl
  ]

  perform_generation : (perform p (store_field f g v)).generation ≡ p.generation
  unfolding perform
  perform_generation = elim (Bool-cases (g % 2 == 0)) [ inl e ↦ rw e refl | inr e ↦ rw e refl ]

Consistent-field :
    (w : Writer) (f : Field) (v : ℤ) (rest : List Store)
    → Consistent w
    → Completes w.target
        (add32 w.memory.generation 1)
        (set_field (slot_of w.memory (add32 w.memory.generation 1)) f v)
        rest
    → Consistent (after_store w (store_field f (add32 w.memory.generation 1) v) rest)
Consistent-field w f v rest h c =
    let g = w.memory.generation in
    let same = perform_generation w.memory f (add32 g 1) v in
    record {
      bound = rw same h.bound;
      current =
          rw same (perform_other w.memory f (add32 g 1) v g (next_parity g h.bound) ∙ h.current);
      completes = rw (same, perform_same w.memory f (add32 g 1) v) c;
    }

Consistent-generation :
    (w : Writer)
    → Consistent w
    → slot_of w.memory (add32 w.memory.generation 1) ≡ w.target
    → Consistent (after_store w (store_generation (add32 w.memory.generation 1)) [])
unfolding perform
Consistent-generation w h e = record { bound = omega arith; current = e; completes = tt }

kept : (g : ℕ) → g < u32_mod → g ≡ (g + 0) % u32_mod
kept g h = omega arith

advanced : (p : Projection) (g : ℕ) → (perform p (store_generation g)).generation ≡ g
unfolding perform
advanced p g = refl

Consistent-store :
    (w : Writer) (s : Store) (rest : List Store)
    → Consistent w
    → w.pending ≡ s ∷ rest
    → Consistent (after_store w s rest)
      × ((after_store w s rest).memory.generation
          ≡ (w.memory.generation + publications s) % u32_mod)
Consistent-store w (store_field f g v) rest h e =
    let c : Completes w.target (add32 w.memory.generation 1)
        (slot_of w.memory (add32 w.memory.generation 1)) (store_field f g v ∷ rest) =
      subst
        (λ (l : List Store).
          Completes w.target (add32 w.memory.generation 1)
            (slot_of w.memory (add32 w.memory.generation 1)) l)
        e h.completes in
    rw c.0 (
      Consistent-field w f v rest h c.1,
      perform_generation w.memory f (add32 w.memory.generation 1) v
          ∙ kept w.memory.generation h.bound,
    )
Consistent-store w (store_generation g) rest h e =
    let c : Completes w.target (add32 w.memory.generation 1)
        (slot_of w.memory (add32 w.memory.generation 1)) (store_generation g ∷ rest) =
      subst
        (λ (l : List Store).
          Completes w.target (add32 w.memory.generation 1)
            (slot_of w.memory (add32 w.memory.generation 1)) l)
        e h.completes in
    rw (c.0, c.2) (Consistent-generation w h c.1, advanced w.memory (add32 w.memory.generation 1))

-- However long the writer goes on, the memory stays consistent, and the generation counts the
-- publications.
Consistent-Later :
    {w v : Writer} {n : ℕ}
    → Consistent w
    → Later w n v
    → Consistent v × (v.memory.generation ≡ (w.memory.generation + n) % u32_mod)
Consistent-Later {w} h now = (h, kept w.memory.generation h.bound)
Consistent-Later {w} h (stores {n} {v} s rest l e) =
    let k = Consistent-Later h l in
    let m = Consistent-store v s rest k.0 e in (m.0, omega (arith, m.1, k.1))
Consistent-Later h (begins {n} {v} a l e) =
    let k = Consistent-Later h l in (Consistent-begin v a k.0, k.1)

-- Without a new generation the published anchor is the same.
published-same : {w v : Writer} {n : ℕ} → Later w n v → n ≡ 0 → v.published ≡ w.published
published-same now e = refl
published-same (stores (store_field f g v) rest l p) e = published-same l (omega (arith, e))
published-same (stores (store_generation g) rest l p) e = absurd (omega (arith, e))
published-same (begins a l p) e = published-same l e

-- A load in a stretch without a new generation sees the slot of the published anchor.
load :
    {w v : Writer} {n : ℕ}
    → Consistent w
    → Later w n v
    → n ≡ 0
    → slot_of v.memory w.memory.generation ≡ w.published
load {w} {v} h l z =
    let k = Consistent-Later h l in
    let same : w.memory.generation ≡ v.memory.generation = omega (arith, k.1, z, h.bound) in
    rw same (k.0.current ∙ published-same l z)

recount : {u v : Writer} {m n : ℕ} → m ≡ n → Later u m v → Later u n v
recount {u} {v} e l = subst (λ (k : ℕ). Later u k v) e l

Later-append : {u v w : Writer} {m n : ℕ} → Later u m v → Later v n w → Later u (m + n) w
Later-append {m = m} l now = recount (omega arith) l
Later-append {m = m} l (stores {n} s rest k e) =
    recount (omega arith) (stores s rest (Later-append l k) e)
Later-append l (begins a k e) = begins a (Later-append l k) e

-- A reader whose six loads are spread over any stretch of the writer's work, in which fewer than
-- 2 ^ 32 anchors are published: when it accepts what it has read, that is no mixture of two anchors,
-- but the one whose publication was complete at its first load.
pub read_once-published :
    (w0 w1 w2 w3 w4 w5 : Writer) (n1 n2 n3 n4 n5 : ℕ)
    → Consistent w0
    → Later w0 n1 w1
    → Later w1 n2 w2
    → Later w2 n3 w3
    → Later w3 n4 w4
    → Later w4 n5 w5
    → n1 + n2 + n3 + n4 + n5 < u32_mod
    → (read_once w0.memory w1.memory w2.memory w3.memory w4.memory w5.memory).0 ≡ true
    → (read_once w0.memory w1.memory w2.memory w3.memory w4.memory w5.memory).1 ≡ w0.published
read_once-published w0 w1 w2 w3 w4 w5 n1 n2 n3 n4 n5 h a b c d e few ok =
    let ab = Later-append a b in
    let abc = Later-append ab c in
    let abcd = Later-append abc d in
    let all = Later-append abcd e in
    let same : w0.memory.generation ≡ w5.memory.generation = ground (arith, ok) in
    let none_published : n1 + n2 + n3 + n4 + n5 ≡ 0 =
      omega (arith, same, (Consistent-Later h all).1, h.bound, few) in
    let l1 = load h a (omega (arith, none_published)) in
    let l2 = load h ab (omega (arith, none_published)) in
    let l3 = load h abc (omega (arith, none_published)) in
    let l4 = load h abcd (omega (arith, none_published)) in
    λ i. record {
      qpc = (l1 i).qpc;
      time = (l2 i).time;
      fraction = (l3 i).fraction;
      ppm = (l4 i).ppm;
    }

-- A reader that has an anchor needs one round: it takes an accepted one or keeps its own.
kept_anchor :
    (l : Loads) (ls : List Loads) (cached : ClockAnchor)
    → eqb_ℤ cached.qpc (pos 0) ≡ false
    → read_anchor (l ∷ ls) cached ≡ (
        if (read_once l.first l.qpc l.time l.fraction l.ppm l.last).0
        then some (read_once l.first l.qpc l.time l.fraction l.ppm l.last).1
        else some cached)
unfolding read_anchor
kept_anchor l ls cached h = rw h refl
