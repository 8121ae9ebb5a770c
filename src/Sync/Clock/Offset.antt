-- ===== src/Sync/Clock/Offset.antt =====
-- How exact the estimate is, against a clock that is ahead by a fixed number of ticks.
use cccaster_ver_b.Prelude.{
  ℕ, ◌<◌, ◌≡◌, ◌⊎◌, true, false, ◌==◌, List, [], ◌∷◌, arith, Bool-cases, inl, inr, refl,
}
use cccaster_ver_b.Prelude.Int.{
  ℤ, pos, ◌+ℤ◌, ◌-ℤ◌, ◌≤ℤ◌, div_ℤ, div_ℤ_parts, mul_pos_parts, int_laws,
}
use cccaster_ver_b.Timing.Projection.Rate.{one_sign}
use cccaster_ver_b.Sync.Clock.{
  NetplayClock, ModelCalls, reset, add_ntp_sample_ticks, accepted, round_trip, offset_of, middle,
  sample_size, clock_second, store, adopt,
}
use cccaster_ver_b.Sync.Clock.Samples.{IsNear, IsGood, best_known}

-- The four times of an exchange.
pub record Exchange : Type 0 where
  pub t1 : ℤ
  pub t2 : ℤ
  pub t3 : ℤ
  pub t4 : ℤ

-- The other clock is ahead by `ahead`: nothing arrives before it is sent.
abbrev pub IsCausal : ℤ → Exchange → Type 0
IsCausal ahead e = (e.t1 +ℤ ahead ≤ℤ e.t2) × (e.t3 ≤ℤ e.t4 +ℤ ahead)

near :
    (ahead : ℤ) (e : Exchange)
    → IsCausal ahead e
    → IsNear ahead (offset_of e.t1 e.t2 e.t3 e.t4) (round_trip e.t1 e.t2 e.t3 e.t4)
near ahead e h =
    let x = e.t2 -ℤ e.t1 +ℤ (e.t3 -ℤ e.t4) in
    let q = div_ℤ_parts x 2 in
    let d = mul_pos_parts (div_ℤ x 2) 2 in
    let a = mul_pos_parts ahead 2 in
    let s = one_sign x in (omega (int_laws, q, d, a, s, h), omega (int_laws, q, d, a, s, h))

-- The ring is filled in order, and is full from then on.
abbrev Place : ℕ → ℕ → Type 0
Place count index =
    ((index ≡ count) × (count < sample_size)) ⊎ ((count ≡ sample_size) × (index < sample_size))

-- The clock after some exchanges, newest first.
module _ {P : Type 0} (calls : ModelCalls P) where
  unfoldable pub run : List Exchange → NetplayClock P
  run [] = reset calls
  run (e ∷ es) = add_ntp_sample_ticks calls (run es) e.t1 e.t2 e.t3 e.t4

abbrev pub AllCausal : ℤ → List Exchange → Type 0
AllCausal ahead [] = Unit {0}
AllCausal ahead (e ∷ es) = IsCausal ahead e × AllCausal ahead es

module _ {P : Type 0} (calls : ModelCalls P) (ahead : ℤ) where
  record IsFilled (c : NetplayClock P) : Type 0 where
    pub place : Place c.sample_count c.sample_index
    pub good : (i : ℕ) → i < c.sample_count → IsGood ahead (c.samples i)

  reset-IsFilled : IsFilled (reset calls)
  unfolding reset
  reset-IsFilled = record { place = inl (refl, omega arith); good = λ i h. absurd (omega arith) }

  accepted_rtt :
      (e : Exchange)
      → accepted e.t1 e.t2 e.t3 e.t4 ≡ true
      → round_trip e.t1 e.t2 e.t3 e.t4 ≤ℤ pos clock_second
  unfolding accepted
  accepted_rtt e h = ground arith

  store-Place :
      (c : NetplayClock P) (e : Exchange)
      → Place c.sample_count c.sample_index
      → let c' = store calls c e.t1 e.t2 e.t3 e.t4 in Place c'.sample_count c'.sample_index
  unfolding store
  store-Place c e (inl (i, n)) = elim (Bool-cases (c.sample_count == 29)) [
    | inl last ↦ inr (ground arith, ground arith)
    | inr more ↦ inl (ground arith, ground arith)
  ]
  store-Place c e (inr (n, i)) = inr (ground arith, ground arith)

  -- What the ring holds after one more sample.
  store_sample :
      (c : NetplayClock P) (e : Exchange) (i : ℕ)
      → Place c.sample_count c.sample_index
      → let c' = store calls c e.t1 e.t2 e.t3 e.t4 in
        i < c'.sample_count
        → (i ≡ c.sample_index) ⊎ ((c'.samples i ≡ c.samples i) × (i < c.sample_count))
  unfolding store
  store_sample c e i (inl (p, n)) h = elim (Bool-cases (c.sample_index == i)) [
    | inl new ↦ inl (ground arith)
    | inr old ↦ inr (rw old refl, ground arith)
  ]
  store_sample c e i (inr (n, p)) h = elim (Bool-cases (c.sample_index == i)) [
    | inl new ↦ inl (ground arith)
    | inr old ↦ inr (rw old refl, ground arith)
  ]

  new_sample :
      (c : NetplayClock P) (e : Exchange)
      → let c' = store calls c e.t1 e.t2 e.t3 e.t4 in
        ((c'.samples c.sample_index).theta ≡ offset_of e.t1 e.t2 e.t3 e.t4)
        × ((c'.samples c.sample_index).rtt ≡ round_trip e.t1 e.t2 e.t3 e.t4)
  unfolding store
  new_sample c e = (ground arith, ground arith)

  store-IsFilled :
      (c : NetplayClock P) (e : Exchange)
      → IsFilled c
      → IsCausal ahead e
      → accepted e.t1 e.t2 e.t3 e.t4 ≡ true
      → IsFilled (store calls c e.t1 e.t2 e.t3 e.t4)
  store-IsFilled c e f h ok = record {
    place = store-Place c e f.place;
    good = λ i lt. elim (store_sample c e i f.place lt) [
      | inl new ↦ let s = new_sample c e in rw (new, s.0, s.1) (near ahead e h, accepted_rtt e ok)
      | inr old ↦ rw old.0 (f.good i old.1)
    ];
  }

  adopt-IsFilled : (c : NetplayClock P) (now : ℤ) → IsFilled c → IsFilled (adopt calls c now)
  unfolding adopt
  adopt-IsFilled c now f = record { place = f.place; good = f.good }

  add-IsFilled :
      (c : NetplayClock P) (e : Exchange)
      → IsFilled c
      → IsCausal ahead e
      → IsFilled (add_ntp_sample_ticks calls c e.t1 e.t2 e.t3 e.t4)
  unfolding add_ntp_sample_ticks
  add-IsFilled c e f h = elim (Bool-cases (accepted e.t1 e.t2 e.t3 e.t4)) [
    | inl ok ↦ rw ok (
        adopt-IsFilled (store calls c e.t1 e.t2 e.t3 e.t4) (middle e.t1 e.t4)
          (store-IsFilled c e f h ok))
    | inr bad ↦ rw bad f
  ]

  run-IsFilled : (es : List Exchange) → AllCausal ahead es → IsFilled (run calls es)
  unfolding run
  run-IsFilled [] h = reset-IsFilled
  run-IsFilled (e ∷ es) (h, hs) = add-IsFilled (run calls es) e (run-IsFilled es hs) h

  add-adopt :
      (c : NetplayClock P) (e : Exchange)
      → accepted e.t1 e.t2 e.t3 e.t4 ≡ true
      → add_ntp_sample_ticks calls c e.t1 e.t2 e.t3 e.t4
        ≡ adopt calls (store calls c e.t1 e.t2 e.t3 e.t4) (middle e.t1 e.t4)
  unfolding add_ntp_sample_ticks
  add-adopt c e ok = rw ok

  adopt-IsBest :
      (c : NetplayClock P) (now : ℤ) (i : ℕ)
      → IsFilled c
      → i < (adopt calls c now).sample_count
      → calls.ready (adopt calls c now).model now ≡ false
      → let c' = adopt calls c now in
        IsNear ahead c'.theta_ticks c'.best_rtt_ticks × (c'.best_rtt_ticks ≤ℤ (c'.samples i).rtt)
  unfolding adopt
  adopt-IsBest c now i f h learning =
      rw learning (best_known ahead c.sample_count c.samples i f.good h)

  -- The other clock is ahead by a fixed number of ticks, and nothing arrives before it is sent,
  -- whatever the delays on the way: after an exchange that is accepted, as long as the model is not
  -- ready, the estimate is off by at most half of the best round trip and half a tick, and none of
  -- the samples that are kept has a shorter round trip.
  pub theta-IsNear :
      (es : List Exchange) (e : Exchange) (i : ℕ)
      → AllCausal ahead (e ∷ es)
      → accepted e.t1 e.t2 e.t3 e.t4 ≡ true
      → calls.ready (run calls (e ∷ es)).model (middle e.t1 e.t4) ≡ false
      → i < (run calls (e ∷ es)).sample_count
      → let c = run calls (e ∷ es) in
        IsNear ahead c.theta_ticks c.best_rtt_ticks × (c.best_rtt_ticks ≤ℤ (c.samples i).rtt)
  unfolding run
  theta-IsNear es e i (h, hs) ok learning lt =
      let c = store calls (run calls es) e.t1 e.t2 e.t3 e.t4 in
      let f = store-IsFilled (run calls es) e (run-IsFilled es hs) h ok in
      let added = add-adopt (run calls es) e ok in
      rw added (adopt-IsBest c (middle e.t1 e.t4) i f (rw added at lt) (rw added at learning))
