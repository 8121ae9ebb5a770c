-- ===== src/Peer/Control/Roundtrip.antt =====
-- A control packet arrives as it was sent.
use mathlib.Core.List.{append_assoc, append-nil}
use cccaster_ver_b.Prelude.{
  ◌+◌, ◌-◌, ◌/◌, ◌%◌, if◌then◌else◌, ℕ, Bool, ◌^◌, ◌<◌, ◌≤◌, ◌≡◌, refl, ap, ◌∙◌, sym, true, false,
  not, some, arith, ◌==◌, ◌++◌, length, take, drop, length-append, List, [], ◌+◌, ltb, ◌||◌,
}
use cccaster_ver_b.Wire.Bytes.{
  drop-drop, length-take, starts_with_self, read, take-append, drop-append,
}
use cccaster_ver_b.Peer.Control.{
  Control, ControlType, punch, ack, select, selected, keepalive, type_of, type_code, kind_byte,
  body, big, big_value, encode_control, decode_control, fields, out_of_order, tagged, equal, ltb,
}

pub record Fits (p : Control) : Type 0 where
  pub session_length : length p.session ≡ 8
  pub sequence_bound : p.sequence < 2 ^ 64
  pub route_length : length p.route ≤ 160

type_code-bounds : (t : ControlType) → (1 ≤ type_code t) × (type_code t ≤ 5)
type_code-bounds punch = omega arith
type_code-bounds ack = omega arith
type_code-bounds select = omega arith
type_code-bounds selected = omega arith
type_code-bounds keepalive = omega arith

type_of-code : (t : ControlType) → type_of (type_code t) ≡ t
type_of-code punch = refl
type_of-code ack = refl
type_of-code select = refl
type_of-code selected = refl
type_of-code keepalive = refl

big_value-big : (n : ℕ) (rest : List ℕ) → n < 2 ^ 64 → big_value 8 0 (big 8 n ++ rest) ≡ n
big_value-big n rest h = omega arith

regrouped : (a b c t : List ℕ) → (a ++ (b ++ c)) ++ t ≡ a ++ (b ++ (c ++ t))
regrouped a b c t = append_assoc a (b ++ c) t ∙ ap (λ r. a ++ r) (append_assoc b c t)

length-body : (p : Control) → Fits p → length (body p) ≡ 21 + length p.route
length-body p h =
    omega (arith, length-append p.session (big 8 p.sequence ++ p.route), h.session_length)

equal_self : (xs : List ℕ) → equal xs xs ≡ true
equal_self xs = ground (arith, append-nil xs, starts_with_self xs [])

kind_low :
    (t : ControlType) (h : Bool) → (type_code t + (if h then 0x80 else 0)) % 0x80 ≡ type_code t
kind_low t true = omega (arith, type_code-bounds t)
kind_low t false = omega (arith, type_code-bounds t)

kind_back :
    (t : ControlType) (h : Bool) → type_of ((type_code t + (if h then 0x80 else 0)) % 0x80) ≡ t
kind_back t h = ap type_of (kind_low t h) ∙ type_of-code t

host_back :
    (t : ControlType) (h : Bool) → not ((type_code t + (if h then 0x80 else 0)) / 0x80 == 0) ≡ h
host_back t true = ground (arith, type_code-bounds t)
host_back t false = ground (arith, type_code-bounds t)

ranges :
    (size kind : ℕ) (header : Bool)
    → header ≡ true
    → 37 ≤ size
    → size ≤ 197
    → 1 ≤ kind
    → kind ≤ 5
    → (ltb size 37 || ltb 197 size || not header || ltb kind 1 || ltb 5 kind) ≡ false
ranges size kind header a b c d e = ground arith

-- The parts of a packet with `tag` at its end.
module _ (p : Control) (h : Fits p) (tag : List ℕ) where
  tail : List ℕ
  tail = p.session ++ (big 8 p.sequence ++ (p.route ++ tag))

  drop_five : drop 5 (body p ++ tag) ≡ tail
  unfolding tail
  drop_five = regrouped p.session (big 8 p.sequence) p.route tag

  after_session : drop 8 tail ≡ big 8 p.sequence ++ (p.route ++ tag)
  unfolding tail
  after_session = drop-append p.session (big 8 p.sequence ++ (p.route ++ tag)) 8 h.session_length

  kind_field : read 4 1 (body p ++ tag) ≡ kind_byte p
  kind_field = omega arith

  session_field : take 8 (drop 5 (body p ++ tag)) ≡ p.session
  unfolding tail
  session_field =
      ap (λ r. take 8 r) drop_five
      ∙ take-append p.session (big 8 p.sequence ++ (p.route ++ tag)) 8 h.session_length

  sequence_field : big_value 8 0 (drop 13 (body p ++ tag)) ≡ p.sequence
  sequence_field =
      ap (λ r. big_value 8 0 r) (ap (λ r. drop 8 r) drop_five ∙ after_session)
      ∙ big_value-big p.sequence (p.route ++ tag) h.sequence_bound

  drop-route : drop 21 (body p ++ tag) ≡ p.route ++ tag
  drop-route =
      ap (λ r. drop 16 r) drop_five ∙ sym (drop-drop 8 8 tail) ∙ ap (λ r. drop 8 r) after_session

  size : length tag ≡ 16 → length (body p ++ tag) ≡ 37 + length p.route
  size t = omega (arith, length-append (body p) tag, length-body p h, t)

  route_field :
      length tag ≡ 16 → take (length (body p ++ tag) - 37) (drop 21 (body p ++ tag)) ≡ p.route
  route_field t =
      ap (λ r. take (length (body p ++ tag) - 37) r) drop-route
      ∙ take-append p.route tag (length (body p ++ tag) - 37) (omega (arith, size t))

  tagged_itself :
      (mac : List ℕ → List ℕ → List ℕ) (key : List ℕ)
      → tag ≡ take 16 (mac key (body p))
      → length tag ≡ 16
      → tagged mac key (body p ++ tag) ≡ true
  tagged_itself mac key e t =
      rw
        (
          take-append (body p) tag (length (body p ++ tag) - 16)
              (omega (arith, length-append (body p) tag, t)),
          drop-append (body p) tag (length (body p ++ tag) - 16)
              (omega (arith, length-append (body p) tag, t)),
          ← e,
        )
        (equal_self tag)

  in_order : length tag ≡ 16 → out_of_order (body p ++ tag) ≡ false
  in_order t =
      ranges (length (body p ++ tag)) (read 4 1 (body p ++ tag) % 0x80) true refl
        (omega (arith, size t)) (omega (arith, size t, h.route_length))
        (rw (kind_field, kind_low p.kind p.host) (type_code-bounds p.kind).0)
        (rw (kind_field, kind_low p.kind p.host) (type_code-bounds p.kind).1)

  fields-packet : length tag ≡ 16 → fields (body p ++ tag) ≡ p
  fields-packet t = λ i. record {
    kind = (ap (λ (n : ℕ). type_of (n % 0x80)) kind_field ∙ kind_back p.kind p.host) i;
    host = (ap (λ (n : ℕ). not (n / 0x80 == 0)) kind_field ∙ host_back p.kind p.host) i;
    session = session_field i;
    sequence = sequence_field i;
    route = route_field t i;
  }

short_route : (p : Control) → Fits p → ltb 160 (length p.route) ≡ false
short_route p h = ground (arith, h.route_length)

-- With an authentication code of 32 bytes: a packet whose session has 8 bytes, whose number has 64
-- bits and whose route is at most 160 bytes is read as it was written, under the same key.
pub decode_control-encode :
    (mac : List ℕ → List ℕ → List ℕ) (key : List ℕ) (p : Control)
    → ((xs : List ℕ) → length (mac key xs) ≡ 32)
    → Fits p
    → decode_control mac key (encode_control mac key p) ≡ some p
unfolding decode_control encode_control
decode_control-encode mac key p m h =
    let t : length (take 16 (mac key (body p))) ≡ 16 =
      length-take 16 (mac key (body p)) (omega (arith, m (body p))) in
    rw
      (
        short_route p h,
        in_order p h (take 16 (mac key (body p))) t,
        tagged_itself p h (take 16 (mac key (body p))) mac key refl t,
      )
      (ap some (fields-packet p h (take 16 (mac key (body p))) t))
