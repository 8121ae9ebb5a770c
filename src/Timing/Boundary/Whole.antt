-- ===== src/Timing/Boundary/Whole.antt =====
-- A result that is taken is one that was published whole.
use mathlib.Core.Path.{subst}
use mathlib.Core.Bool.{true≢false}
use cccaster_ver_b.Prelude.{
  if◌then◌else◌, not, ℕ, ◌+◌, ◌%◌, ◌<◌, ◌≡◌, refl, ap, sym, ◌∙◌, true, false, Bool, List, [], ◌∷◌,
  none, some, arith, ◌==◌, ◌||◌,
}
use cccaster_ver_b.Prelude.Int.{ℤ, ◌≤ℤ◌, eqb_ℤ, ltb_ℤ, eq_of_parts}
use cccaster_ver_b.Prelude.Words.{add32, u32_mod}
use cccaster_ver_b.Timing.Boundary.{
  Sample, BoundarySlot, Store, next_sequence, store_field, set_field, perform, publish, read_sample,
}

-- The writing thread: what is left of its `Publish` of `target`, and the result that it published
-- last.
pub record Writer : Type 0 where
  pub slot : BoundarySlot
  pub pending : List Store
  pub target : Sample
  pub published : Sample

abbrev pub is_odd : ℕ → Bool
is_odd n = n % 2 == 1

-- The second change of the number finishes a publication.
abbrev pub finished : Writer → Store → Sample
finished w next_sequence = if is_odd w.slot.sequence then w.target else w.published
finished w (store_field f v) = w.published

abbrev pub changes : Store → ℕ
changes next_sequence = 1
changes (store_field f v) = 0

abbrev pub after_store : Writer → Store → List Store → Writer
after_store w s rest = record {
  slot = perform w.slot s;
  pending = rest;
  target = w.target;
  published = finished w s;
}

abbrev pub begin_publish : Writer → Sample → Writer
begin_publish w x = record w { pending = publish x; target = x }

-- What the writer does in a while, and how often it changes the number in it.
pub data Later (w : Writer) : ℕ → Writer → Type 0 where
  now : Later w 0 w
  stores :
      {n : ℕ} {v : Writer} (s : Store) (rest : List Store)
      → Later w n v
      → v.pending ≡ s ∷ rest
      → Later w (n + changes s) (after_store v s rest)
  begins :
      {n : ℕ} {v : Writer} (x : Sample)
      → Later w n v
      → v.pending ≡ []
      → Later w n (begin_publish v x)

-- Where the writer is: `odd` is whether the number is odd, `x` what the slot holds, `t` the target
-- and `p` the published result.
abbrev pub Progress : (odd : Bool) (x t p : Sample) → List Store → Type 0
Progress odd x t p [] = (odd ≡ false) × (x ≡ p)
Progress odd x t p (store_field f v ∷ rest) = (odd ≡ true) × Progress odd (set_field x f v) t p rest
Progress false x t p (next_sequence ∷ rest) = (x ≡ p) × Progress true x t p rest
Progress true x t p (next_sequence ∷ rest) = (x ≡ t) × Progress false x t t rest

abbrev pub Consistent : Writer → Type 0
Consistent w =
    (w.slot.sequence < u32_mod)
    × Progress (is_odd w.slot.sequence) w.slot.sample w.target w.published w.pending

begin-Progress :
    (odd : Bool) (x t p : Sample) → odd ≡ false → x ≡ p → Progress odd x t p (publish t)
begin-Progress false x t p e h = (h, (refl, (refl, (refl, (refl, (refl, refl))))))
begin-Progress true x t p e h = absurd (true≢false e)

next-Progress :
    (odd : Bool) (x t p : Sample) (rest : List Store)
    → Progress odd x t p (next_sequence ∷ rest)
    → Progress (not odd) x t (if odd then t else p) rest
next-Progress false x t p rest h = h.1
next-Progress true x t p rest h = h.1

odd_next : (n : ℕ) → n < u32_mod → is_odd (add32 n 1) ≡ not (is_odd n)
odd_next n h = ground (arith, h)

pending-Progress :
    (w : Writer) (pending : List Store)
    → w.pending ≡ pending
    → Consistent w
    → Progress (is_odd w.slot.sequence) w.slot.sample w.target w.published pending
pending-Progress w pending e h =
    subst (λ l. Progress (is_odd w.slot.sequence) w.slot.sample w.target w.published l) e h.1

Consistent-begin :
    (w : Writer) (x : Sample) → w.pending ≡ [] → Consistent w → Consistent (begin_publish w x)
Consistent-begin w x e h =
    let p = pending-Progress w [] e h in
    (h.0, begin-Progress (is_odd w.slot.sequence) w.slot.sample x w.published p.0 p.1)

Consistent-store :
    (w : Writer) (s : Store) (rest : List Store)
    → Consistent w
    → w.pending ≡ s ∷ rest
    → Consistent (after_store w s rest)
Consistent-store w (store_field f v) rest h e =
    (h.0, (pending-Progress w (store_field f v ∷ rest) e h).1)
Consistent-store w next_sequence rest h e = (
  omega arith,
  subst
      (λ odd.
        Progress odd w.slot.sample w.target
          (if is_odd w.slot.sequence then w.target else w.published) rest)
      (sym (odd_next w.slot.sequence h.0))
      (next-Progress (is_odd w.slot.sequence) w.slot.sample w.target w.published rest
        (pending-Progress w (next_sequence ∷ rest) e h)),
)

-- While no result is being written, the slot holds the published one.
even_holds :
    (odd : Bool) (x t p : Sample) (pending : List Store)
    → odd ≡ false
    → Progress odd x t p pending
    → x ≡ p
even_holds odd x t p [] e h = h.1
even_holds odd x t p (store_field f v ∷ rest) e h = absurd (true≢false (sym h.0 ∙ e))
even_holds false x t p (next_sequence ∷ rest) e h = h.0
even_holds true x t p (next_sequence ∷ rest) e h = absurd (true≢false e)

kept : (n : ℕ) → n < u32_mod → n ≡ (n + 0) % u32_mod
kept n h = omega (arith, h)

Consistent-Later :
    {w v : Writer} {n : ℕ}
    → Consistent w
    → Later w n v
    → Consistent v × (v.slot.sequence ≡ (w.slot.sequence + n) % u32_mod)
Consistent-Later {w} h now = (h, kept w.slot.sequence h.0)
Consistent-Later {w} h (stores {n} {v} next_sequence rest l e) =
    let k = Consistent-Later h l in
    (Consistent-store v next_sequence rest k.0 e, omega (arith, k.1))
Consistent-Later {w} h (stores {n} {v} (store_field f x) rest l e) =
    let k = Consistent-Later h l in
    (Consistent-store v (store_field f x) rest k.0 e, omega (arith, k.1))
Consistent-Later h (begins {n} {v} x l e) =
    let k = Consistent-Later h l in (Consistent-begin v x e k.0, k.1)

published-same : {w v : Writer} {n : ℕ} → Later w n v → n ≡ 0 → v.published ≡ w.published
published-same now e = refl
published-same (stores (store_field f x) rest l p) e = published-same l (omega (arith, e))
published-same (stores next_sequence rest l p) e = absurd (omega (arith, e))
published-same (begins x l p) e = published-same l e

-- A load in a stretch that starts at an even number and does not change it.
load :
    {w v : Writer} {n : ℕ}
    → Consistent w
    → is_odd w.slot.sequence ≡ false
    → Later w n v
    → n ≡ 0
    → v.slot.sample ≡ w.published
load {w} {v} h even l z =
    let k = Consistent-Later h l in
    let same : v.slot.sequence ≡ w.slot.sequence = omega (arith, k.1, z, h.0) in
    even_holds (is_odd v.slot.sequence) v.slot.sample v.target v.published v.pending
      (ap is_odd same ∙ even) k.0.1
    ∙ published-same l z

recount : {u v : Writer} {m n : ℕ} → m ≡ n → Later u m v → Later u n v
recount {u} {v} e l = subst (λ (k : ℕ). Later u k v) e l

Later-append : {u v w : Writer} {m n : ℕ} → Later u m v → Later v n w → Later u (m + n) w
Later-append {m = m} l now = recount (omega arith) l
Later-append {m = m} l (stores {n} s rest k e) =
    recount (omega arith) (stores s rest (Later-append l k) e)
Later-append l (begins x k e) = begins x (Later-append l k) e

-- What the tests of the reader say.
taken :
    (odd same : Bool) (next x : Sample) (target : ℤ)
    → (if odd
        then none
        else if not same || not (eqb_ℤ next.due target) || ltb_ℤ next.stamp target
        then none
        else some next)
      ≡ some x
    → (odd ≡ false) × (same ≡ true) × (next ≡ x) × (x.due ≡ target) × (target ≤ℤ x.stamp)
taken odd same next x target e = ground (arith, eq_of_parts next.due target, e)

-- A reader whose five loads are spread over any stretch of the writer's work, in which the number
-- changes fewer than 2 ^ 32 times: what it takes is no mixture of two results, but the one that was
-- published when it began.
pub read_sample-published :
    (target : ℤ) (w0 w1 w2 w3 w4 : Writer) (n1 n2 n3 n4 : ℕ) (x : Sample)
    → Consistent w0
    → Later w0 n1 w1
    → Later w1 n2 w2
    → Later w2 n3 w3
    → Later w3 n4 w4
    → n1 + n2 + n3 + n4 < u32_mod
    → read_sample target w0.slot w1.slot w2.slot w3.slot w4.slot ≡ some x
    → (x ≡ w0.published) × (x.due ≡ target) × (target ≤ℤ x.stamp)
unfolding read_sample
read_sample-published target w0 w1 w2 w3 w4 n1 n2 n3 n4 x h a b c d few ok =
    let seen : Sample = record {
      due = w1.slot.sample.due;
      stamp = w2.slot.sample.stamp;
      entered = w3.slot.sample.entered;
    } in
    let t =
      taken (is_odd w0.slot.sequence) (w0.slot.sequence == w4.slot.sequence) seen x target ok in
    let ab = Later-append a b in
    let abc = Later-append ab c in
    let same : w0.slot.sequence ≡ w4.slot.sequence = ground (arith, t.1) in
    let quiet : n1 + n2 + n3 + n4 ≡ 0 =
      omega (arith, same, (Consistent-Later h (Later-append abc d)).1, h.0, few) in
    let l1 = load h t.0 a (omega (arith, quiet)) in
    let l2 = load h t.0 ab (omega (arith, quiet)) in
    let l3 = load h t.0 abc (omega (arith, quiet)) in
    (
      sym t.2 ∙ λ i. record { due = (l1 i).due; stamp = (l2 i).stamp; entered = (l3 i).entered },
      t.3,
      t.4,
    )
