-- ===== src/Wire/Close.antt =====
-- src/src/shared_contracts/SessionClosePacket.hpp: the notice that ends a session and its
-- acknowledgement, and src/src/shared_contracts/SessionExitReason.hpp.
pub mod Roundtrip
use cccaster_ver_b.Prelude.{
  ℕ, Bool, true, false, not, ◌&&◌, ◌||◌, List, [], ◌∷◌, ◌++◌, Option, none, some, length, leb, ◌==◌,
  if◌then◌else◌,
}
use cccaster_ver_b.Wire.Bytes.{bytes, read, write, zeros, starts_with}

pub data ExitReason : Type 0 where
  unknown close_button escape f12 : ExitReason

abbrev pub reason_code : ExitReason → ℕ
reason_code unknown = 0
reason_code close_button = 1
reason_code escape = 2
reason_code f12 = 3

abbrev pub reason_of : ℕ → ExitReason
reason_of value =
    if value == 1
    then close_button
    else if value == 2
    then escape
    else if value == 3
    then f12
    else unknown

abbrev pub valid_exit_reason : ℕ → Bool
valid_exit_reason value = leb value 3

abbrev pub wire_version : ℕ
wire_version = 10

-- "CC10", the code of the packet and the version.
abbrev pub session_close_bytes : List ℕ
session_close_bytes = 67 ∷ 67 ∷ 49 ∷ 48 ∷ 0 ∷ 0x31 ∷ wire_version ∷ zeros 13

unfoldable pub is_session_close_packet : List ℕ → Bool
is_session_close_packet packet = length packet == 20 && starts_with session_close_bytes packet

pub record CloseMessage : Type 0 where
  pub reason : ExitReason
  pub ack : Bool
  pub sender : ℕ
  pub receiver : ℕ

unfoldable pub encode_session_close : CloseMessage → List ℕ
encode_session_close m = write 28 (bytes 8 m.receiver) (
    write 20 (bytes 8 m.sender) (
      write 7 (1 ∷ []) (
        write 5 ((if m.ack then 0x32 else 0x31) ∷ [])
          (write 4 (reason_code m.reason ∷ []) (session_close_bytes ++ zeros 16)))))

abbrev close_header : List ℕ → List ℕ
close_header packet =
    write 7 (1 ∷ [])
      (write 5 (read 5 1 packet ∷ []) (write 4 (read 4 1 packet ∷ []) session_close_bytes))

unfoldable pub decode_session_close : List ℕ → ℕ → ℕ → Option CloseMessage
decode_session_close packet local peer =
    if not (length packet == 36)
      || local == 0
      || peer == 0
      || not (valid_exit_reason (read 4 1 packet))
    then none
    else if not (read 5 1 packet == 0x31) && not (read 5 1 packet == 0x32)
    then none
    else if not (starts_with (close_header packet) packet)
    then none
    else if not (read 20 8 packet == peer) || not (read 28 8 packet == local)
    then none
    else some (record {
      reason = reason_of (read 4 1 packet);
      ack = read 5 1 packet == 0x32;
      sender = read 20 8 packet;
      receiver = read 28 8 packet;
    })
