-- ===== src/Wire/Probe/Roundtrip.antt =====
-- A probe arrives as it was sent.
use cccaster_ver_b.Prelude.{
  ℕ, ◌^◌, ◌<◌, ◌≡◌, ◌≢◌, refl, true, false, some, arith, List, sym, length, Bool-cases, inl, ◌∙◌,
  ap, inr,
}
use cccaster_ver_b.Wire.Bytes.{little-bytes, read}
use cccaster_ver_b.Wire.Probe.{Probe, decode, encode, short_probe, long_probe, stamp, magic}

-- The ranges of the fields' types; a probe without the extension has no session numbers.
pub record Fits (p : Probe) : Type 0 where
  pub sequence_bound : p.sequence < 256 ^ 2
  pub timestamp_bound : p.timestamp < 256 ^ 8
  pub echoed_bound : p.echoed_time < 256 ^ 8
  pub delay_bound : p.processing_delay < 256 ^ 8
  pub nonce_bound : p.nonce < 256 ^ 8
  pub echo_bound : p.echo_nonce < 256 ^ 8
  pub nonce_set : p.extended ≡ true → p.nonce ≢ 0
  pub nonce_unset : p.extended ≡ false → (p.nonce ≡ 0) × (p.echo_nonce ≡ 0)

ext :
    {p q : Probe}
    → p.sequence ≡ q.sequence
    → p.timestamp ≡ q.timestamp
    → p.echoed_time ≡ q.echoed_time
    → p.processing_delay ≡ q.processing_delay
    → p.nonce ≡ q.nonce
    → p.echo_nonce ≡ q.echo_nonce
    → p.extended ≡ q.extended
    → p ≡ q
ext a b c d e f g = λ i. record {
  sequence = a i;
  timestamp = b i;
  echoed_time = c i;
  processing_delay = d i;
  nonce = e i;
  echo_nonce = f i;
  extended = g i;
}

decode-long :
    (xs : List ℕ)
    → length xs ≡ 46
    → read 26 4 xs ≡ magic
    → read 30 8 xs ≢ 0
    → decode xs ≡ some (long_probe xs)
unfolding decode
decode-long xs h m n = ground arith

decode-short : (xs : List ℕ) → length xs ≡ 26 → decode xs ≡ some (short_probe xs)
unfolding decode
decode-short xs h = ground arith

module _ (p : Probe) (h : Fits p) where
  long_fields : p.extended ≡ true → long_probe (encode p) ≡ p
  unfolding encode short_probe long_probe stamp
  long_fields e =
      ext (rw e (little-bytes 2 p.sequence h.sequence_bound))
        (rw e (little-bytes 8 p.timestamp h.timestamp_bound))
        (rw e (little-bytes 8 p.echoed_time h.echoed_bound))
        (rw e (little-bytes 8 p.processing_delay h.delay_bound))
        (rw e (little-bytes 8 p.nonce h.nonce_bound))
        (rw e (little-bytes 8 p.echo_nonce h.echo_bound)) (sym e)

  short_fields : p.extended ≡ false → short_probe (encode p) ≡ p
  unfolding encode short_probe stamp
  short_fields e =
      ext (rw e (little-bytes 2 p.sequence h.sequence_bound))
        (rw e (little-bytes 8 p.timestamp h.timestamp_bound))
        (rw e (little-bytes 8 p.echoed_time h.echoed_bound))
        (rw e (little-bytes 8 p.processing_delay h.delay_bound)) (sym (h.nonce_unset e).0)
        (sym (h.nonce_unset e).1) (sym e)

  long_nonce : p.extended ≡ true → read 30 8 (encode p) ≡ p.nonce
  unfolding encode stamp
  long_nonce e = rw e (little-bytes 8 p.nonce h.nonce_bound)

  encode-long : p.extended ≡ true → (length (encode p) ≡ 46) × (read 26 4 (encode p) ≡ magic)
  unfolding encode stamp
  encode-long e = rw e (refl, refl)

  encode-short : p.extended ≡ false → length (encode p) ≡ 26
  unfolding encode stamp
  encode-short e = rw e refl

-- A probe whose session number is set if it is extended, and absent otherwise, is read as it was
-- written.
pub decode-encode : (p : Probe) → Fits p → decode (encode p) ≡ some p
decode-encode p h = elim (Bool-cases p.extended) [
  | inl e ↦
      decode-long (encode p) (encode-long p h e).0 (encode-long p h e).1
        (λ z. h.nonce_set e (sym (long_nonce p h e) ∙ z))
      ∙ ap some (long_fields p h e)
  | inr e ↦ decode-short (encode p) (encode-short p h e) ∙ ap some (short_fields p h e)
]
