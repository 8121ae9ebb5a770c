-- ===== src/Timeline/Steps/Advance.antt =====
-- What one step does to the sampled frames.
use cccaster_ver_b.Prelude.{
  ℕ, ◌+◌, ◌≤◌, ◌<◌, ◌≡◌, ◌≢◌, ◌%◌, Bool, false, some, arith, refl, Bool-cases, inl, inr, leb, ◌∙◌,
  ap,
}
use cccaster_ver_b.Prelude.Words.{u32_mod, add32}
use cccaster_ver_b.Sync.MatchInput.{ring_size, write_local, try_get_local_input}
use cccaster_ver_b.Sync.MatchInput.Lanes.{local_reads, seen}
use cccaster_ver_b.Timeline.State.{Timeline, World, Moment, CaptureTime, is_loading}
use cccaster_ver_b.Timeline.Control.{sample_of}
use cccaster_ver_b.Timeline.Capture.{write_input, capture, is_full}
use cccaster_ver_b.Timeline.Pump.{round, reschedule}
use cccaster_ver_b.Timeline.Steps.{IsSound}
use cccaster_ver_b.Timeline.Steps.Word.{published, published-lt}

-- The input of the frame and what was kept of its sampling are there.
pub record IsRecorded (w : World) (f : ℕ) : Type 0 where
  pub input : ℕ
  pub readable : try_get_local_input w.buffer f ≡ some input
  pub sampled : (sample_of w.timeline f).frame ≡ f

-- They are the same in both states.
pub record IsKept (w w' : World) (f : ℕ) : Type 0 where
  pub input : try_get_local_input w'.buffer f ≡ try_get_local_input w.buffer f
  pub sample : sample_of w'.timeline f ≡ sample_of w.timeline f

pub IsRecorded-kept : (w w' : World) (f : ℕ) → IsKept w w' f → IsRecorded w f → IsRecorded w' f
IsRecorded-kept w w' f k r = record {
  input = r.input;
  readable = k.input ∙ r.readable;
  sampled = ap (λ (c : CaptureTime). c.frame) k.sample ∙ r.sampled;
}

-- Between two states of an epoch. Frames are recorded and kept as long as the ring holds them.
pub record Advances (w w' : World) : Type 0 where
  pub next : w.timeline.next ≤ w'.timeline.next
  pub consumed : w.timeline.consumed ≤ w'.timeline.consumed
  pub generation : w.timeline.generation ≤ w'.timeline.generation
  pub kept : (f : ℕ) → f < w.timeline.next → w'.timeline.next ≤ f + ring_size → IsKept w w' f
  pub recorded :
      (f : ℕ)
      → w.timeline.next ≤ f
      → f < w'.timeline.next
      → w'.timeline.next ≤ f + ring_size
      → IsRecorded w' f

-- The part of a state that most steps leave alone.
abbrev frames : World → (ℕ → CaptureTime) × ℕ
frames w = (w.timeline.capture_times, w.timeline.next)

pub still :
    (w w' : World)
    → frames w' ≡ frames w
    → ((f : ℕ) → try_get_local_input w'.buffer f ≡ try_get_local_input w.buffer f)
    → w.timeline.consumed ≤ w'.timeline.consumed
    → w.timeline.generation ≤ w'.timeline.generation
    → Advances w w'
still w w' e b c g = record {
  next = ground arith;
  consumed = c;
  generation = g;
  kept = λ f lt le. record {
    input = b f;
    sample = ap (λ (p : (ℕ → CaptureTime) × ℕ). p.0 (f % ring_size)) e;
  };
  recorded = λ f ge lt le. absurd (ground arith);
}

pub Advances-refl : (w : World) → Advances w w
Advances-refl w = still w w refl (λ f. refl) (omega arith) (omega arith)

IsKept-trans : (u v w : World) (f : ℕ) → IsKept u v f → IsKept v w f → IsKept u w f
IsKept-trans u v w f p q = record { input = q.input ∙ p.input; sample = q.sample ∙ p.sample }

pub Advances-trans : (u v w : World) → Advances u v → Advances v w → Advances u w
Advances-trans u v w p q = record {
  next = omega (arith, p.next, q.next);
  consumed = omega (arith, p.consumed, q.consumed);
  generation = omega (arith, p.generation, q.generation);
  kept = λ f lt le.
      IsKept-trans u v w f (p.kept f lt (omega (arith, q.next)))
        (q.kept f (omega (arith, p.next)) le);
  recorded = λ f ge lt le. elim (Bool-cases (leb v.timeline.next f)) [
    | inl later ↦ q.recorded f (ground arith) lt le
    | inr before ↦
        IsRecorded-kept v w f (q.kept f (ground arith) le)
          (p.recorded f ge (ground arith) (omega (arith, q.next)))
  ];
}

-- A round writes the next frame and no other.
pub round_next :
    (m : Moment) (fresh : Bool) (w : World)
    → (round m fresh w).timeline.next ≡ add32 w.timeline.next 1
unfolding round capture reschedule
round_next m fresh w = refl

round_buffer :
    (m : Moment) (fresh : Bool) (w : World)
    → is_loading w.timeline.phase ≡ false
    → (round m fresh w).buffer ≡ write_local w.buffer w.timeline.next (published m w) 0 false
unfolding round capture write_input
round_buffer m fresh w h = rw h

pub round_reads :
    (m : Moment) (fresh : Bool) (w : World) (f : ℕ)
    → IsSound w
    → try_get_local_input (round m fresh w).buffer f
      ≡ seen w.buffer w.timeline.next (published m w) f
unfolding write_local
round_reads m fresh w f s =
    ap (λ b. try_get_local_input b f) (round_buffer m fresh w s.playing)
    ∙ local_reads w.buffer w.timeline.next (published m w) 0 false f 4 s.small
        (published-lt m w s.word).0

pub round_sample :
    (m : Moment) (fresh : Bool) (w : World) (f : ℕ)
    → w.timeline.next % ring_size ≢ f % ring_size
    → sample_of (round m fresh w).timeline f ≡ sample_of w.timeline f
unfolding round capture reschedule
round_sample m fresh w f h = ground arith

pub round_sample_self :
    (m : Moment) (fresh : Bool) (w : World)
    → (sample_of (round m fresh w).timeline w.timeline.next).frame ≡ w.timeline.next
unfolding round capture reschedule
round_sample_self m fresh w = ground arith

pub other_slot : (f n : ℕ) → f < n → n < f + ring_size → n % ring_size ≢ f % ring_size
other_slot f n p q = λ e. omega arith

-- Where the ring is not full the next frame has a number of its own.
pub room_left :
    (t : Timeline)
    → is_loading t.phase ≡ false
    → is_full t ≡ false
    → t.consumed ≤ t.next
    → t.next < u32_mod
    → (t.next + 1 < u32_mod) × (t.next < t.consumed + 568)
unfolding is_full
room_left t p h o s = (ground arith, ground arith)
