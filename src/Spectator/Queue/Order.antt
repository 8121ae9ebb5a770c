-- ===== src/Spectator/Queue/Order.antt =====
-- The queue against a list of records that has room for `n`.
use native.Mathlib.Nat.{mul-add-mod_self_left, div-add-mod, mul-le-mul_left}
use cccaster_ver_b.Prelude.{
  ℕ, zero, suc, ◌+◌, ◌*◌, ◌/◌, ◌%◌, ◌≤◌, ◌<◌, ◌≡◌, ◌≢◌, ap, sym, refl, ◌∙◌, List, [], ◌∷◌, ◌++◌,
  length, Bool, true, false, ltb, if◌then◌else◌, arith, Bool-cases, leb, inl, inr,
}
use cccaster_ver_b.Prelude.Table.{set_at, set_at_self, set_at_ne}
use cccaster_ver_b.Prelude.Words.{u32_mod, add32}
use cccaster_ver_b.Spectator.Records.{Record, copy_over}
use cccaster_ver_b.Spectator.Queue.{Queue, count}

-- What a record says: its words up to its size.
abbrev pub cut : Record → Record
cut r = record r { payload = λ i. if ltb (12 + 4 * i) r.size then r.payload i else 0 }

if_twice : (b : Bool) (x y z : ℕ) → (if b then (if b then x else y) else z) ≡ (if b then x else z)
if_twice true x y z = refl
if_twice false x y z = refl

pub cut-copy_over : (r old : Record) → cut (copy_over r old) ≡ cut r
cut-copy_over r old = λ i. record (cut r) {
  payload = λ k. if_twice (ltb (12 + 4 * k) r.size) (r.payload k) (old.payload k) 0 i;
}

abbrev pub collect : ℕ → (ℕ → Record) → ℕ → ℕ → List Record
collect n slots zero r = []
collect n slots (suc k) r = cut (slots (r % n)) ∷ collect n slots k (add32 r 1)

-- The records that wait, the oldest first.
abbrev pub contents : ℕ → Queue → List Record
contents n q = collect n q.slots (count q) q.read

pub length-collect : (n : ℕ) (slots : ℕ → Record) (k r : ℕ) → length (collect n slots k r) ≡ k
length-collect n slots zero r = refl
length-collect n slots (suc k) r = ap suc (length-collect n slots k (add32 r 1))

-- Going on by fewer than `n` steps does not come back to the same slot.
no_return : (n r j : ℕ) → 0 < j → j < n → (r + j) % n ≢ r % n
no_return n r j h k = λ e. elim (Bool-cases (leb (suc (r / n)) ((r + j) / n))) [
  | inl more ↦
      let far : n * suc (r / n) ≤ n * ((r + j) / n) = mul-le-mul_left n (ground (arith, more)) in
      grind (arith, div-add-mod r n, div-add-mod (r + j) n, e, far, k)
  | inr less ↦
      let near : n * ((r + j) / n) ≤ n * (r / n) = mul-le-mul_left n (ground (arith, less)) in
      omega (arith, div-add-mod r n, div-add-mod (r + j) n, e, near, h)
]

-- The size divides the range of the counters.
mod_range : (n m x : ℕ) → u32_mod ≡ n * m → x % u32_mod % n ≡ x % n
mod_range n m x h =
    let parts : x ≡ n * (m * (x / u32_mod)) + x % u32_mod =
      grind (arith, div-add-mod x u32_mod, ap (λ (t : ℕ). t * (x / u32_mod)) h) in
    sym (ap (λ (t : ℕ). t % n) parts ∙ mul-add-mod_self_left n (m * (x / u32_mod)) (x % u32_mod))

module _ (n m : ℕ) (range : u32_mod ≡ n * m) (slots : ℕ → Record) (v : Record) where
  -- A record at the write position comes behind those that wait.
  pub collect-set :
      (k r w : ℕ)
      → k < n
      → r < u32_mod
      → w ≡ (r + k) % u32_mod
      → collect n (set_at slots (w % n) v) (suc k) r ≡ collect n slots k r ++ (cut v ∷ [])
  collect-set zero r w h b e =
      let here : w ≡ r = omega (arith, e, b) in
      rw here (ap (λ x. cut x ∷ []) (set_at_self slots (r % n) v))
  collect-set (suc k) r w h b e =
      let there : w % n ≡ (r + suc k) % n =
        ap (λ (t : ℕ). t % n) e ∙ mod_range n m (r + suc k) range in
      let apart : w % n ≢ r % n = λ s. no_return n r (suc k) (omega arith) h (sym there ∙ s) in
      let rest = collect-set k (add32 r 1) w (omega (arith, h)) (omega arith) (omega (arith, e)) in
      ap (λ x. cut x ∷ collect n (set_at slots (w % n) v) (suc k) (add32 r 1))
        (set_at_ne slots (w % n) (r % n) v apart)
      ∙ ap (λ xs. cut (slots (r % n)) ∷ xs) rest
