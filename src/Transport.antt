-- ===== src/Transport.antt =====
-- isobus/src/can_transport_protocol.cpp: the transport protocol (TP), which carries messages of 9 to
-- 1785 bytes as packets of 7. A session is a record, and the pointer to it is its place in the list
-- `sessions`. The clock is read once in a handler. Callbacks of the application are recorded in
-- the log, and do not call back into the stack.
pub mod Frames
pub mod Receive
pub mod Transmit
pub mod Payload
pub mod Reassembly
pub mod Announce
pub mod Broadcast
pub mod Silence
pub mod Agreement
pub mod Undisturbed
pub mod Requests
pub mod Segment
pub mod Bounds
use iso11783_can_stack.Prelude.{
  ℕ, zero, suc, ◌+◌, ◌-◌, ◌/◌, ◌^◌, Bool, true, false, not, ◌&&◌, Option, some, none, List, [], ◌∷◌,
  bit_and, ◌==◌, if◌then◌else◌, u8, u32, ◌>>◌, is_some, same_pointer, set,
}
use iso11783_can_stack.ControlFunction.{is_internal}
use iso11783_can_stack.Message.{CanMessage, get_data_length}
use iso11783_can_stack.Identifier.{get_parameter_group_number}
use iso11783_can_stack.Network.{
  Env, Log, log_itself, completed, get_internal_control_function, send_can_message, TxRequest,
}

pub data StateMachineState : Type 0 where
  idle clear_to_send rx_data_session request_to_send : StateMachineState
  wait_for_clear_to_send broadcast_announce tx_data_session : StateMachineState
  wait_for_end_of_message_acknowledge : StateMachineState

pub data Direction : Type 0 where
  transmit receive : Direction

pub record Session : Type 0 where
  pub state : StateMachineState
  pub message : CanMessage
  pub complete_callback : Option ℕ
  pub chunk_callback : Option ℕ
  pub timestamp : ℕ
  pub last_packet : ℕ
  pub packet_count : ℕ
  pub processed_packets : ℕ
  pub clear_to_send_packet_max : ℕ
  pub direction : Direction

pub record Manager : Type 0 where
  pub sessions : List Session
  pub log : Log

pub data ConnectionAbortReason : Type 0 where
  reserved already_in_cm_session system_resources_needed timeout : ConnectionAbortReason
  clear_to_send_received_while_transfer_in_progress : ConnectionAbortReason
  maximum_retransmit_request_limit_reached : ConnectionAbortReason
  unexpected_data_transfer_packet_received bad_sequence_number : ConnectionAbortReason
  duplicate_sequence_number total_message_size_too_big any_other_error : ConnectionAbortReason

abbrev pub reason_value : ConnectionAbortReason → ℕ
reason_value reserved = 0
reason_value already_in_cm_session = 1
reason_value system_resources_needed = 2
reason_value timeout = 3
reason_value clear_to_send_received_while_transfer_in_progress = 4
reason_value maximum_retransmit_request_limit_reached = 5
reason_value unexpected_data_transfer_packet_received = 6
reason_value bad_sequence_number = 7
reason_value duplicate_sequence_number = 8
reason_value total_message_size_too_big = 9
reason_value any_other_error = 250

abbrev pub request_to_send_multiplexor : ℕ
request_to_send_multiplexor = 0x10

abbrev pub clear_to_send_multiplexor : ℕ
clear_to_send_multiplexor = 0x11

abbrev pub end_of_message_acknowledge_multiplexor : ℕ
end_of_message_acknowledge_multiplexor = 0x13

abbrev pub broadcast_announce_message_multiplexor : ℕ
broadcast_announce_message_multiplexor = 0x20

abbrev pub connection_abort_multiplexor : ℕ
connection_abort_multiplexor = 0xFF

abbrev pub max_protocol_data_length : ℕ
max_protocol_data_length = 1785

abbrev pub t1_timeout_ms : ℕ
t1_timeout_ms = 750

abbrev pub t2_t3_timeout_ms : ℕ
t2_t3_timeout_ms = 1250

abbrev pub message_tr_timeout_ms : ℕ
message_tr_timeout_ms = 200

abbrev pub protocol_bytes_per_frame : ℕ
protocol_bytes_per_frame = 7

-- CANLibParameterGroupNumber
abbrev pub transport_protocol_command : ℕ
transport_protocol_command = 0xEC00

abbrev pub transport_protocol_data : ℕ
transport_protocol_data = 0xEB00

-- The constructor of a session.
unfoldable pub new_session : Direction → CanMessage → Session
new_session direction message = record {
  state = idle;
  message = message;
  complete_callback = none;
  chunk_callback = none;
  timestamp = 0;
  last_packet = 0;
  packet_count = 0;
  processed_packets = 0;
  clear_to_send_packet_max = 0;
  direction = direction;
}

unfoldable pub session_pgn : Session → ℕ
session_pgn s = get_parameter_group_number s.message.identifier

unfoldable pub set_state : Env → StateMachineState → Session → Session
set_state env state s = record s { timestamp = env.now; state = state }

-- A place in the tail of a list, seen from the list.
abbrev pub one_further : Option (ℕ × Session) → Option (ℕ × Session)
one_further none = none
one_further (some (i, s)) = some (suc i, s)

-- `get_session` by source and destination: the first match, with its place in the list.
unfoldable pub get_session : List Session → Option ℕ → Option ℕ → Option (ℕ × Session)
get_session [] source destination = none
get_session (s ∷ ss) source destination =
    let later = one_further (get_session ss source destination) in
    if same_pointer s.message.source source && same_pointer s.message.destination destination
    then some (0, s)
    else later

abbrev pub with_pgn : ℕ → Option (ℕ × Session) → Option (ℕ × Session)
with_pgn pgn none = none
with_pgn pgn (some (i, s)) = if session_pgn s == pgn then some (i, s) else none

-- The overload that also asks that this first match is of the PGN.
unfoldable pub get_session_of_pgn : List Session → Option ℕ → Option ℕ → ℕ → Option (ℕ × Session)
get_session_of_pgn sessions source destination pgn =
    with_pgn pgn (get_session sessions source destination)

unfoldable pub erase : List Session → ℕ → List Session
erase [] i = []
erase (s ∷ ss) zero = ss
erase (s ∷ ss) (suc i) = s ∷ erase ss i

unfoldable pub process_session_complete_callback : Env → Session → Bool → Log → Log
process_session_complete_callback env s success log = elim s.message.source [
  | none ↦ log
  | some c ↦
      if is_some s.complete_callback && is_internal (env.cf c).type
      then completed (session_pgn s) (get_data_length s.message) s.message.source
          s.message.destination success
        ∷ log
      else log
]

-- `close_session` on the session at a place of the list.
unfoldable pub close_session : Env → ℕ → Session → Bool → Manager → Manager
close_session env i s success m = record {
  sessions = erase m.sessions i;
  log = process_session_complete_callback env s success m.log;
}

abbrev pub pgn_bytes : ℕ → List ℕ
pgn_bytes pgn =
    u8 (bit_and pgn 0xFF) ∷ u8 (bit_and (pgn >> 8) 0xFF) ∷ u8 (bit_and (pgn >> 16) 0xFF) ∷ []

-- A frame of the protocol itself. It goes through `send_can_message` like any message; it is too
-- short for a transport protocol, so none of the protocols takes it.
unfoldable pub send_frame : Env → ℕ → ℕ → List ℕ → Option ℕ → Option ℕ → Log → Bool × Log
send_frame env pgn priority bytes source destination log =
    send_can_message env [] priority request log
  where
    request : TxRequest
    request = record {
      pgn = pgn;
      buffer = some bytes;
      length = 8;
      source = source;
      destination = destination;
      complete_callback = none;
      chunk_callback = none;
    }

abbrev pub abort_bytes : ℕ → ConnectionAbortReason → List ℕ
abort_bytes pgn reason =
    connection_abort_multiplexor ∷ reason_value reason ∷ 0xFF ∷ 0xFF ∷ 0xFF ∷ pgn_bytes pgn

-- `abort_session` by PGN and endpoints. Its callers ignore the result.
unfoldable pub abort_by_pgn : Env → ℕ → ConnectionAbortReason → Option ℕ → Option ℕ → Log → Log
abort_by_pgn env pgn reason source destination log =
    (send_frame env transport_protocol_command 6 (abort_bytes pgn reason) source destination log).1

unfoldable pub abort_ends : Env → Session → Direction → Option ℕ × Option ℕ
abort_ends env s transmit =
    (get_internal_control_function env s.message.source, s.message.destination)
abort_ends env s receive =
    (get_internal_control_function env s.message.destination, s.message.source)

unfoldable pub abort_session : Env → Session → ConnectionAbortReason → Log → Log
abort_session env s reason log =
    let (mine, partner) = abort_ends env s s.direction in
    (send_frame env transport_protocol_command 6 (abort_bytes (session_pgn s) reason) mine partner
      log).1
