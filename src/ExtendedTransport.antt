-- ===== src/ExtendedTransport.antt =====
-- isobus/src/can_extended_transport_protocol.cpp: the extended transport protocol (ETP), which carries
-- messages of 1786 bytes and more between two control functions, in segments of up to 255 packets
-- of 7. Sessions, callbacks and the log are as in Transport.
pub mod Frames
pub mod Receive
pub mod Transmit
pub mod Segment
pub mod Offsets
pub mod Clearances
pub mod Storing
pub mod Steps
pub mod Reception
use iso11783_can_stack.Prelude.{
  ℕ, zero, suc, Bool, true, false, ◌&&◌, Option, some, none, List, [], ◌∷◌, ◌==◌, if◌then◌else◌,
  is_some, same_pointer,
}
use iso11783_can_stack.ControlFunction.{is_internal}
use iso11783_can_stack.Message.{CanMessage, get_data_length}
use iso11783_can_stack.Identifier.{get_parameter_group_number}
use iso11783_can_stack.Network.{Env, Log, completed, get_internal_control_function}
use iso11783_can_stack.Transport.{pgn_bytes, send_frame}

pub data StateMachineState : Type 0 where
  idle request_to_send wait_for_clear_to_send rx_data_session clear_to_send : StateMachineState
  wait_for_extended_data_packet_offset tx_data_session : StateMachineState
  wait_for_end_of_message_acknowledge : StateMachineState

pub data Direction : Type 0 where
  transmit receive : Direction

pub record ExtendedTransportProtocolSession : Type 0 where
  pub state : StateMachineState
  pub message : CanMessage
  pub complete_callback : Option ℕ
  pub chunk_callback : Option ℕ
  pub timestamp : ℕ
  pub last_packet : ℕ
  pub packet_count : ℕ
  pub processed_packets : ℕ
  pub direction : Direction

pub record ExtendedTransportProtocolManager : Type 0 where
  pub sessions : List ExtendedTransportProtocolSession
  pub log : Log

pub data ConnectionAbortReason : Type 0 where
  reserved already_in_session system_resources_needed timeout : ConnectionAbortReason
  clear_to_send_received_when_data_transfer_in_progress : ConnectionAbortReason
  maximum_retransmit_request_limit_reached unexpected_data_transfer_packet : ConnectionAbortReason
  bad_sequence_number duplicate_sequence_number unexpected_edpo_packet : ConnectionAbortReason
  unexpected_edpo_pgn edpo_number_of_packets_greater_than_clear_to_send : ConnectionAbortReason
  bad_edpo_offset deprecated_reason unexpected_ects_pgn : ConnectionAbortReason
  ects_requested_packets_exceeds_message_size any_other_reason : ConnectionAbortReason

abbrev pub reason_value : ConnectionAbortReason → ℕ
reason_value reserved = 0
reason_value already_in_session = 1
reason_value system_resources_needed = 2
reason_value timeout = 3
reason_value clear_to_send_received_when_data_transfer_in_progress = 4
reason_value maximum_retransmit_request_limit_reached = 5
reason_value unexpected_data_transfer_packet = 6
reason_value bad_sequence_number = 7
reason_value duplicate_sequence_number = 8
reason_value unexpected_edpo_packet = 9
reason_value unexpected_edpo_pgn = 10
reason_value edpo_number_of_packets_greater_than_clear_to_send = 11
reason_value bad_edpo_offset = 12
reason_value deprecated_reason = 13
reason_value unexpected_ects_pgn = 14
reason_value ects_requested_packets_exceeds_message_size = 15
reason_value any_other_reason = 254

abbrev pub connection_management : ℕ
connection_management = 0xC800

abbrev pub data_transfer : ℕ
data_transfer = 0xC700

abbrev pub abort_multiplexor : ℕ
abort_multiplexor = 0xFF

abbrev pub bytes_per_packet : ℕ
bytes_per_packet = 7

unfoldable pub new_session : Direction → CanMessage → ExtendedTransportProtocolSession
new_session direction message = record {
  state = idle;
  message = message;
  complete_callback = none;
  chunk_callback = none;
  timestamp = 0;
  last_packet = 0;
  packet_count = 0;
  processed_packets = 0;
  direction = direction;
}

unfoldable pub session_pgn : ExtendedTransportProtocolSession → ℕ
session_pgn s = get_parameter_group_number s.message.identifier

unfoldable pub set_state :
    Env → StateMachineState → ExtendedTransportProtocolSession → ExtendedTransportProtocolSession
set_state env state s = record s { timestamp = env.now; state = state }

-- A session with its place in the list.
abbrev pub Found : Type 0
Found = Option (ℕ × ExtendedTransportProtocolSession)

abbrev pub next_place : Found → Found
next_place none = none
next_place (some (i, s)) = some (suc i, s)

-- `get_session` by source and destination: the first match.
unfoldable pub get_session : List ExtendedTransportProtocolSession → Option ℕ → Option ℕ → Found
get_session [] source destination = none
get_session (s ∷ ss) source destination =
    let later = next_place (get_session ss source destination) in
    if same_pointer s.message.source source && same_pointer s.message.destination destination
    then some (0, s)
    else later

-- The overload that also asks that this first match is of the PGN. Where it is not, the overload
-- says so, but leaves the caller's pointer at that match.
abbrev pub with_pgn : ℕ → Found → Found
with_pgn pgn none = none
with_pgn pgn (some (i, s)) = if session_pgn s == pgn then some (i, s) else none

unfoldable pub get_session_of_pgn :
    List ExtendedTransportProtocolSession → Option ℕ → Option ℕ → ℕ → Found
get_session_of_pgn sessions source destination pgn =
    with_pgn pgn (get_session sessions source destination)

unfoldable pub erase :
    List ExtendedTransportProtocolSession → ℕ → List ExtendedTransportProtocolSession
erase [] i = []
erase (s ∷ ss) zero = ss
erase (s ∷ ss) (suc i) = s ∷ erase ss i

unfoldable pub process_session_complete_callback :
    Env → ExtendedTransportProtocolSession → Bool → Log → Log
process_session_complete_callback env s success log = elim s.message.source [
  | none ↦ log
  | some c ↦
      if is_some s.complete_callback && is_internal (env.cf c).type
      then completed (session_pgn s) (get_data_length s.message) s.message.source
          s.message.destination success
        ∷ log
      else log
]

unfoldable pub close_session :
    Env → Found → Bool → ExtendedTransportProtocolManager → ExtendedTransportProtocolManager
close_session env none success t = t
close_session env (some (i, s)) success t = record {
  sessions = erase t.sessions i;
  log = process_session_complete_callback env s success t.log;
}

abbrev pub abort_bytes : ℕ → ConnectionAbortReason → List ℕ
abort_bytes pgn reason =
    abort_multiplexor ∷ reason_value reason ∷ 0xFF ∷ 0xFF ∷ 0xFF ∷ pgn_bytes pgn

-- `abort_session` by PGN and endpoints. Its callers ignore the result.
unfoldable pub abort_by_pgn : Env → ℕ → ConnectionAbortReason → Option ℕ → Option ℕ → Log → Log
abort_by_pgn env pgn reason source destination log =
    (send_frame env connection_management 7 (abort_bytes pgn reason) source destination log).1

unfoldable pub abort_ends : Env → ExtendedTransportProtocolSession → Direction → Option ℕ × Option ℕ
abort_ends env s transmit =
    (get_internal_control_function env s.message.source, s.message.destination)
abort_ends env s receive =
    (get_internal_control_function env s.message.destination, s.message.source)

unfoldable pub abort_session :
    Env → ExtendedTransportProtocolSession → ConnectionAbortReason → Log → Log
abort_session env s reason log =
    let (mine, partner) = abort_ends env s s.direction in
    (send_frame env connection_management 7 (abort_bytes (session_pgn s) reason) mine partner log).1
