-- ===== src/Peer/Text/Code.antt =====
-- A normalized code stays as it is.
use mathlib.Core.Option
use cccaster_ver_b.Prelude.{
  ℕ, ◌≡◌, refl, true, false, List, [], ◌∷◌, none, some, arith, ap, length, ◌==◌, Bool-cases, inl,
  inr, ◌∙◌,
}
use cccaster_ver_b.Peer.Text.{
  alphabet, elem, is_space, canonical, code_chars, normalize_code, Option, six,
}

canonical_plain : (c : ℕ) → elem c alphabet ≡ true → (is_space c ≡ false) × (canonical c ≡ c)
unfolding canonical
canonical_plain c h = ground arith

abbrev AllPlain : List ℕ → Type 0
AllPlain [] = Unit {0}
AllPlain (c ∷ cs) = (elem c alphabet ≡ true) × AllPlain cs

code_chars-plain : (cs : List ℕ) → AllPlain cs → code_chars cs ≡ some cs
unfolding code_chars
code_chars-plain [] h = refl
code_chars-plain (c ∷ cs) h =
    let p = canonical_plain c h.0 in rw (p.0, p.1, h.0, code_chars-plain cs h.1) refl

abbrev OutPlain : Option (List ℕ) → Type 0
OutPlain none = Unit {0}
OutPlain (some out) = AllPlain out

OutPlain-map :
    (c : ℕ) (o : Option (List ℕ))
    → elem c alphabet ≡ true
    → OutPlain o
    → OutPlain (Option.map (λ out. c ∷ out) o)
OutPlain-map c none e h = tt
OutPlain-map c (some out) e h = (e, h)

code_chars-OutPlain : (cs : List ℕ) → OutPlain (code_chars cs)
unfolding code_chars
code_chars-OutPlain [] = tt
code_chars-OutPlain (c ∷ cs) = elim (Bool-cases (is_space c)) [
  | inl space ↦ rw space (code_chars-OutPlain cs)
  | inr other ↦ elim (Bool-cases (elem (canonical c) alphabet)) [
    | inl e ↦ rw (other, e) (OutPlain-map (canonical c) (code_chars cs) e (code_chars-OutPlain cs))
    | inr e ↦ rw (other, e) tt
  ]
]

six-fixed : (o : Option (List ℕ)) → OutPlain o → normalize_code (six o) ≡ six o
unfolding normalize_code code_chars
six-fixed none h = refl
six-fixed (some out) h = elim (Bool-cases (length out == 6)) [
  | inl e ↦ rw e (ap six (code_chars-plain out h) ∙ rw e refl)
  | inr e ↦ rw e refl
]

-- Normalizing a code twice is normalizing it once, whatever text is given: what the launcher shows
-- as a code, it also takes as one.
pub normalize_code-idempotent :
    (text : List ℕ) → normalize_code (normalize_code text) ≡ normalize_code text
unfolding normalize_code
normalize_code-idempotent text = six-fixed (code_chars text) (code_chars-OutPlain text)
