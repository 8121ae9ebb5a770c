-- ===== src/Wire/Close/Roundtrip.antt =====
-- A notice of the end of a session reaches the session that it names, and no other.
use cccaster_ver_b.Prelude.{
  ℕ, ◌^◌, ◌<◌, ◌≡◌, ◌≢◌, refl, true, false, some, none, arith, ◌==◌, ◌&&◌, if◌then◌else◌, ◌≤◌, Bool,
  length, ap, ◌∙◌, Option, ◌⊎◌, not, ◌||◌,
}
use cccaster_ver_b.Wire.Bytes.{read, little-bytes, starts_with}
use cccaster_ver_b.Wire.Close.{
  CloseMessage, ExitReason, unknown, close_button, escape, f12, reason_of, reason_code,
  encode_session_close, decode_session_close, close_header, valid_exit_reason,
}

sender_field :
    (m : CloseMessage) → m.sender < 256 ^ 8 → read 20 8 (encode_session_close m) ≡ m.sender
unfolding encode_session_close
sender_field m h = little-bytes 8 m.sender h

receiver_field :
    (m : CloseMessage) → m.receiver < 256 ^ 8 → read 28 8 (encode_session_close m) ≡ m.receiver
unfolding encode_session_close
receiver_field m h = little-bytes 8 m.receiver h

reason_code-bound : (r : ExitReason) → reason_code r ≤ 3
reason_code-bound unknown = omega arith
reason_code-bound close_button = omega arith
reason_code-bound escape = omega arith
reason_code-bound f12 = omega arith

reason_of-code : (r : ExitReason) → reason_of (reason_code r) ≡ r
reason_of-code unknown = refl
reason_of-code close_button = refl
reason_of-code escape = refl
reason_of-code f12 = refl

size_field : (m : CloseMessage) → length (encode_session_close m) ≡ 36
unfolding encode_session_close
size_field m = refl

reason_field : (m : CloseMessage) → read 4 1 (encode_session_close m) ≡ reason_code m.reason
unfolding encode_session_close
reason_field m = omega arith

ack_field : (m : CloseMessage) → read 5 1 (encode_session_close m) ≡ (if m.ack then 0x32 else 0x31)
unfolding encode_session_close
ack_field m = omega arith

header_field :
    (m : CloseMessage)
    → starts_with (close_header (encode_session_close m)) (encode_session_close m) ≡ true
unfolding encode_session_close
header_field m = ground arith

ext :
    {m k : CloseMessage}
    → m.reason ≡ k.reason
    → m.ack ≡ k.ack
    → m.sender ≡ k.sender
    → m.receiver ≡ k.receiver
    → m ≡ k
ext a b c d = λ i. record { reason = a i; ack = b i; sender = c i; receiver = d i }

-- The test of the addresses is all that is left once the header is in order.
guards :
    (n code kind s r local peer : ℕ) (h : Bool) (v : Option CloseMessage)
    → n ≡ 36
    → code ≤ 3
    → (kind ≡ 0x31) ⊎ (kind ≡ 0x32)
    → h ≡ true
    → r ≢ 0
    → s ≢ 0
    → (if not (n == 36) || local == 0 || peer == 0 || not (valid_exit_reason code)
        then none
        else if not (kind == 0x31) && not (kind == 0x32)
        then none
        else if not h
        then none
        else if not (s == peer) || not (r == local)
        then none
        else v)
      ≡ (if local == r && peer == s then v else none)
guards n code kind s r local peer h v a b c d e f = ground arith

module _ (m : CloseMessage) (hs : m.sender < 256 ^ 8) (hr : m.receiver < 256 ^ 8) where
  ack_code : (read 5 1 (encode_session_close m) ≡ 0x31) ⊎ (read 5 1 (encode_session_close m) ≡ 0x32)
  ack_code = ground (arith, ack_field m)

  decoded : CloseMessage
  decoded = record {
    reason = reason_of (read 4 1 (encode_session_close m));
    ack = read 5 1 (encode_session_close m) == 0x32;
    sender = read 20 8 (encode_session_close m);
    receiver = read 28 8 (encode_session_close m);
  }

  ack_back : (read 5 1 (encode_session_close m) == 0x32) ≡ m.ack
  ack_back = rw (ack_field m) (if_back m.ack)
    where
      if_back : (a : Bool) → ((if a then 0x32 else 0x31) == 0x32) ≡ a
      if_back true = refl
      if_back false = refl

  decoded_same : decoded ≡ m
  unfolding decoded
  decoded_same =
      ext (ap reason_of (reason_field m) ∙ reason_of-code m.reason) ack_back (sender_field m hs)
        (receiver_field m hr)

-- A notice between two sessions with 64-bit numbers that are not 0 is read back by exactly the
-- session that has the receiver's number and expects the sender's, and by no other.
pub decode_session_close-encode :
    (m : CloseMessage) (local peer : ℕ)
    → m.sender ≢ 0
    → m.receiver ≢ 0
    → m.sender < 256 ^ 8
    → m.receiver < 256 ^ 8
    → decode_session_close (encode_session_close m) local peer
      ≡ (if local == m.receiver && peer == m.sender then some m else none)
unfolding decode_session_close decoded
decode_session_close-encode m local peer hs hr bs br =
    guards (length (encode_session_close m)) _ _ (read 20 8 (encode_session_close m))
      (read 28 8 (encode_session_close m)) local peer _ (some (decoded m bs br)) (size_field m)
      (rw (reason_field m) (reason_code-bound m.reason)) (ack_code m bs br) (header_field m)
      (rw (receiver_field m br) hr) (rw (sender_field m bs) hs)
    ∙ ap (λ (q : ℕ × ℕ × CloseMessage). if local == q.0 && peer == q.1 then some q.2 else none)
        λ i. (receiver_field m br i, sender_field m bs i, decoded_same m bs br i)
