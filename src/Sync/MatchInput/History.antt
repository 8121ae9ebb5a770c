-- ===== src/Sync/MatchInput/History.antt =====
-- The remote lane over a whole session: any interleaving of local writes and confirmations.
use cccaster_ver_b.Prelude.{
  ℕ, ◌%◌, ◌≤◌, ◌<◌, ◌≡◌, ◌≢◌, Bool, Option, none, some, List, [], ◌∷◌, ◌==◌, ltb, not, ◌&&◌,
  Bool-cases, inl, inr, if◌then◌else◌, arith,
}
use cccaster_ver_b.Prelude.Words.{u32_mod, pack64, high32, low32}
use cccaster_ver_b.Sync.MatchInput.{
  Buffer, Slot, slot_of, ring_size, empty_slot, write_local, try_get_remote_input, confirm_remote,
  reset,
}

-- One call on the buffer, by the thread that makes it.
pub data Call : Type 0 where
  writes : ℕ → ℕ → ℕ → Bool → Call
  confirms : ℕ → ℕ → Call

unfoldable pub step : Buffer → Call → Buffer
step b (writes frame input predicted rollbackable) =
    write_local b frame input predicted rollbackable
step b (confirms frame input) = confirm_remote b frame input

-- The calls stand newest first.
unfoldable pub after : Buffer → List Call → Buffer
after b [] = b
after b (c ∷ cs) = step (after b cs) c

-- The value of the first confirmation of a frame.
abbrev pub first_confirmed : ℕ → List Call → Option ℕ
first_confirmed f [] = none
first_confirmed f (writes _ _ _ _ ∷ cs) = first_confirmed f cs
first_confirmed f (confirms g input ∷ cs) = elim (first_confirmed f cs) [
  | some v ↦ some v
  | none ↦ if g == f then some input else none
]

-- Frames are numbers of real frames, and inputs are 32-bit values.
abbrev pub IsProper : List Call → Type 0
IsProper [] = Unit {0}
IsProper (writes f i _ _ ∷ cs) = (f < empty_slot) × (i < u32_mod) × IsProper cs
IsProper (confirms f i ∷ cs) = (f < empty_slot) × (i < u32_mod) × IsProper cs

-- What the slot of frame `f` holds of the confirmations so far.
abbrev Holds : ℕ → Option ℕ → Slot → Type 0
Holds f none s = (s.remote_frame ≢ f) × (s.remote_frame ≤ empty_slot)
Holds f (some v) s =
    (v < u32_mod)
    × (f ≤ s.remote_frame)
    × (s.remote_frame < empty_slot)
    × (s.remote_frame ≡ f → s.remote_snapshot ≡ pack64 f v)

-- A snapshot carries the frame that its slot publishes.
abbrev IsPublished : Slot → Type 0
IsPublished s = high32 s.remote_snapshot ≡ s.remote_frame

abbrev remote_lane : Slot → ℕ × ℕ
remote_lane s = (s.remote_frame, s.remote_snapshot)

remote_lane-write :
    (b : Buffer) (g i p : ℕ) (r : Bool) (f : ℕ)
    → remote_lane (slot_of (write_local b g i p r) f) ≡ remote_lane (slot_of b f)
unfolding write_local
remote_lane-write b g i p r f = ground arith

-- Which slots a confirmation writes, and what it writes.
abbrev confirmed_lane : ℕ × ℕ → ℕ → ℕ → ℕ × ℕ
confirmed_lane (frame, snapshot) g i =
    if frame == g
    then (frame, snapshot)
    else if not (frame == empty_slot) && ltb g frame
    then (frame, snapshot)
    else (g, pack64 g i)

remote_lane-confirm :
    (b : Buffer) (g i f : ℕ)
    → remote_lane (slot_of (confirm_remote b g i) f) ≡ (
        if f % ring_size == g % ring_size
        then confirmed_lane (remote_lane (slot_of b f)) g i
        else remote_lane (slot_of b f))
unfolding confirm_remote
remote_lane-confirm b g i f = ground arith

abbrev next_first : Option ℕ → ℕ → ℕ → ℕ → Option ℕ
next_first o g i f = elim o [ some v ↦ some v | none ↦ if g == f then some i else none ]

Holds-confirm :
    (b : Buffer) (g i f : ℕ) (o : Option ℕ)
    → g < empty_slot
    → i < u32_mod
    → Holds f o (slot_of b f)
    → Holds f (next_first o g i f) (slot_of (confirm_remote b g i) f)
Holds-confirm b g i f none hg hi h = elim (Bool-cases (g == f)) [
  | inl same ↦ rw same (ground (arith, remote_lane-confirm b g i f))
  | inr other ↦ rw other (ground (arith, remote_lane-confirm b g i f))
]
Holds-confirm b g i f (some v) hg hi h = ground (arith, remote_lane-confirm b g i f)

Holds-same :
    (f : ℕ) (s t : Slot) (o : Option ℕ) → remote_lane s ≡ remote_lane t → Holds f o t → Holds f o s
Holds-same f s t none e h = ground arith
Holds-same f s t (some v) e h = ground arith

Holds-read :
    (f : ℕ) {v : ℕ} (s : Slot) (o : Option ℕ)
    → Holds f o s
    → IsPublished s
    → (if high32 s.remote_snapshot == f then some (low32 s.remote_snapshot) else none) ≡ some v
    → o ≡ some v
Holds-read f s none h p e = ground arith
Holds-read f s (some w) h p e = ground arith

IsPublished-confirm :
    (b : Buffer) (g i f : ℕ)
    → i < u32_mod
    → IsPublished (slot_of b f)
    → IsPublished (slot_of (confirm_remote b g i) f)
IsPublished-confirm b g i f hi h = ground (arith, remote_lane-confirm b g i f)

-- Along a history that starts from a cleared buffer.
record Tracks (f : ℕ) (cs : List Call) (s : Slot) : Type 0 where
  holds : Holds f (first_confirmed f cs) s
  published : IsPublished s

after-Tracks :
    (b : Buffer) (f : ℕ) (cs : List Call)
    → f < empty_slot
    → IsProper cs
    → Tracks f cs (slot_of (after (reset b) cs) f)
unfolding after step reset
after-Tracks b f [] hf h = record { holds = omega arith; published = omega arith }
after-Tracks b f (writes g i p r ∷ cs) hf h =
    let ih = after-Tracks b f cs hf h.2 in
    let same = remote_lane-write (after (reset b) cs) g i p r f in
    record {
      holds = Holds-same f _ _ (first_confirmed f cs) same ih.holds;
      published = ground (arith, same, ih);
    }
after-Tracks b f (confirms g i ∷ cs) hf h =
    let ih = after-Tracks b f cs hf h.2 in
    record {
      holds = Holds-confirm (after (reset b) cs) g i f (first_confirmed f cs) h.0 h.1 ih.holds;
      published = IsPublished-confirm (after (reset b) cs) g i f h.1 ih.published;
    }

-- After any interleaving of local writes and confirmations from a cleared buffer, the remote input
-- that can be read for a frame is the value of the first confirmation of that frame: a repeated or
-- late packet never changes it. Frames are below the unused mark and inputs are 32-bit values.
pub remote_is_first_confirmed :
    (b : Buffer) (f : ℕ) (cs : List Call) (v : ℕ)
    → f < empty_slot
    → IsProper cs
    → try_get_remote_input (after (reset b) cs) f ≡ some v
    → first_confirmed f cs ≡ some v
unfolding try_get_remote_input
remote_is_first_confirmed b f cs v hf h e =
    let t = after-Tracks b f cs hf h in
    Holds-read f (slot_of (after (reset b) cs) f) (first_confirmed f cs) t.holds t.published e
