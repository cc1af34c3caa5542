-- ===== src/FastPacket.antt =====
-- isobus/src/nmea2000_fast_packet_protocol.cpp: messages of up to 223 bytes in frames of 8, the
-- first with the length and 6 bytes, the others with 7. Pointers to sessions are their places in
-- `sessions`, and callbacks are recorded in the log, as in Transport. `network_callbacks` are the
-- PGNs that the network manager hands on to this protocol.
pub mod Receive
pub mod Transmit
pub mod Frames
pub mod Sender
pub mod Receiver
pub mod Steps
pub mod Reception
pub mod Transfer
pub mod Destination
pub mod Registration
use iso11783_can_stack.Prelude.{
  ℕ, zero, suc, ◌+◌, Bool, true, false, not, ◌&&◌, ◌||◌, Option, some, none, List, [], ◌∷◌, ◌++◌,
  ◌==◌, if◌then◌else◌, u8, is_some, same_pointer,
}
use iso11783_can_stack.ControlFunction.{is_internal}
use iso11783_can_stack.Message.{CanMessage, get_data_length}
use iso11783_can_stack.Identifier.{get_parameter_group_number}
use iso11783_can_stack.Network.{Env, Log, completed}

-- FastPacketProtocolSession::Direction
pub data SessionDirection : Type 0 where
  transmit receive : SessionDirection

pub record FastPacketProtocolSession : Type 0 where
  pub message : CanMessage
  pub complete_callback : Option ℕ
  pub chunk_callback : Option ℕ
  pub timestamp : ℕ
  pub last_packet : ℕ
  pub packet_count : ℕ
  pub processed_packets : ℕ
  pub sequence_number : ℕ
  pub direction : SessionDirection

pub record FastPacketHistory : Type 0 where
  pub name : ℕ
  pub pgn : ℕ
  pub sequence_number : ℕ

pub record ParameterGroupNumberCallbackData : Type 0 where
  pub pgn : ℕ
  pub callback : ℕ
  pub parent : Option ℕ

pub record FastPacketProtocol : Type 0 where
  pub sessions : List FastPacketProtocolSession
  pub history : List FastPacketHistory
  pub callbacks : List ParameterGroupNumberCallbackData
  pub network_callbacks : List ℕ
  pub log : Log

abbrev pub fp_min_parameter_group_number : ℕ
fp_min_parameter_group_number = 0x1F000

abbrev pub fp_max_parameter_group_number : ℕ
fp_max_parameter_group_number = 0x1FFFF

abbrev pub fp_timeout_ms : ℕ
fp_timeout_ms = 750

abbrev pub max_protocol_message_length : ℕ
max_protocol_message_length = 223

abbrev pub frame_counter_bit_mask : ℕ
frame_counter_bit_mask = 0x1F

abbrev pub sequence_number_bit_mask : ℕ
sequence_number_bit_mask = 0x07

abbrev pub sequence_number_bit_offset : ℕ
sequence_number_bit_offset = 5

abbrev pub bytes_per_frame : ℕ
bytes_per_frame = 7

unfoldable pub new_session : SessionDirection → CanMessage → FastPacketProtocolSession
new_session direction message = record {
  message = message;
  complete_callback = none;
  chunk_callback = none;
  timestamp = 0;
  last_packet = 0;
  packet_count = 0;
  processed_packets = 0;
  sequence_number = 0;
  direction = direction;
}

unfoldable pub session_pgn : FastPacketProtocolSession → ℕ
session_pgn s = get_parameter_group_number s.message.identifier

unfoldable pub same_callback :
    ParameterGroupNumberCallbackData → ParameterGroupNumberCallbackData → Bool
same_callback a b = b.callback == a.callback && b.pgn == a.pgn && same_pointer b.parent a.parent

unfoldable pub erase_callback :
    ParameterGroupNumberCallbackData
    → List ParameterGroupNumberCallbackData
    → List ParameterGroupNumberCallbackData
erase_callback c [] = []
erase_callback c (d ∷ ds) = if same_callback d c then ds else d ∷ erase_callback c ds

unfoldable pub has_pgn : ℕ → List ℕ → Bool
has_pgn pgn [] = false
has_pgn pgn (q ∷ qs) = q == pgn || has_pgn pgn qs

unfoldable pub erase_pgn : ℕ → List ℕ → List ℕ
erase_pgn pgn [] = []
erase_pgn pgn (q ∷ qs) = if q == pgn then qs else q ∷ erase_pgn pgn qs

-- CANNetworkManager, at the handler of this protocol.
unfoldable pub add_protocol_parameter_group_number_callback : ℕ → List ℕ → List ℕ
add_protocol_parameter_group_number_callback pgn qs = if has_pgn pgn qs then qs else qs ++ pgn ∷ []

unfoldable pub remove_protocol_parameter_group_number_callback : ℕ → List ℕ → List ℕ
remove_protocol_parameter_group_number_callback pgn qs = erase_pgn pgn qs

unfoldable pub register_multipacket_message_callback :
    ParameterGroupNumberCallbackData → FastPacketProtocol → FastPacketProtocol
register_multipacket_message_callback c p = record p {
  callbacks = p.callbacks ++ c ∷ [];
  network_callbacks = add_protocol_parameter_group_number_callback c.pgn p.network_callbacks;
}

unfoldable pub remove_multipacket_message_callback :
    ParameterGroupNumberCallbackData → FastPacketProtocol → FastPacketProtocol
remove_multipacket_message_callback c p = record p {
  callbacks = erase_callback c p.callbacks;
  network_callbacks = remove_protocol_parameter_group_number_callback c.pgn p.network_callbacks;
}

-- A place in the tail of a list, seen from the list.
abbrev pub after_one :
    Option (ℕ × FastPacketProtocolSession) → Option (ℕ × FastPacketProtocolSession)
after_one none = none
after_one (some (i, s)) = some (suc i, s)

unfoldable pub get_session :
    List FastPacketProtocolSession
    → ℕ
    → Option ℕ
    → Option ℕ
    → Option (ℕ × FastPacketProtocolSession)
get_session [] pgn source destination = none
get_session (s ∷ ss) pgn source destination =
    let later = after_one (get_session ss pgn source destination) in
    if session_pgn s == pgn
      && same_pointer s.message.source source
      && same_pointer s.message.destination destination
    then some (0, s)
    else later

unfoldable pub erase : List FastPacketProtocolSession → ℕ → List FastPacketProtocolSession
erase [] i = []
erase (s ∷ ss) zero = ss
erase (s ∷ ss) (suc i) = s ∷ erase ss i

unfoldable pub process_session_complete_callback :
    Env → FastPacketProtocolSession → Bool → Log → Log
process_session_complete_callback env s success log = elim s.message.source [
  | none ↦ log
  | some c ↦
      if is_some s.complete_callback && is_internal (env.cf c).type
      then completed (session_pgn s) (get_data_length s.message) s.message.source
          s.message.destination success
        ∷ log
      else log
]

-- `close_session` on the session at a place of the list.
unfoldable pub close_session :
    Env → ℕ → FastPacketProtocolSession → Bool → FastPacketProtocol → FastPacketProtocol
close_session env i s success p = record p {
  sessions = erase p.sessions i;
  log = process_session_complete_callback env s success p.log;
}

-- Whether a record of the history is of a NAME and a PGN.
abbrev pub is_of : ℕ → ℕ → FastPacketHistory → Bool
is_of name pgn h = h.name == name && h.pgn == pgn

unfoldable pub get_new_sequence_number : ℕ → ℕ → List FastPacketHistory → ℕ
get_new_sequence_number name pgn [] = 0
get_new_sequence_number name pgn (h ∷ hs) =
    if is_of name pgn h then h.sequence_number else get_new_sequence_number name pgn hs

unfoldable pub add_session_history : ℕ → ℕ → ℕ → List FastPacketHistory → List FastPacketHistory
add_session_history name pgn sequence [] =
    record { name = name; pgn = pgn; sequence_number = u8 (sequence + 1) } ∷ []
add_session_history name pgn sequence (h ∷ hs) =
    if is_of name pgn h
    then record h { sequence_number = u8 (h.sequence_number + 1) } ∷ hs
    else h ∷ add_session_history name pgn sequence hs
