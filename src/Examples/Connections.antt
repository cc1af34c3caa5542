-- ===== src/Examples/Connections.antt =====
-- Runs of the transport protocol between two control functions.
use iso11783_can_stack.Prelude.{
  true, false, ℕ, ◌≡◌, refl, inl, inr, Option, List, some, none, [], ◌∷◌, ◌≤◌, arith, length, ◌+◌,
  ◌*◌, leb, if◌then◌else◌,
}
use iso11783_can_stack.Message.{CanMessage, new, set_data}
use iso11783_can_stack.Network.{TxRequest}
use iso11783_can_stack.Transport.{
  get_session, get_session_of_pgn, session_pgn, Session, Manager, clear_to_send, tx_data_session,
  wait_for_end_of_message_acknowledge, wait_for_clear_to_send, set_state, new_session,
  rx_data_session,
}
use iso11783_can_stack.Transport.Receive.{opened}
use iso11783_can_stack.Transport.Transmit.{
  protocol_transmit_message, tx_session, update_state_machine,
}
use iso11783_can_stack.Transport.Reassembly.{packet}
use iso11783_can_stack.ControlFunction.{get_address_valid}
use iso11783_can_stack.Identifier.{encode, get_parameter_group_number}
use iso11783_can_stack.Transport.Bounds.{AllCapped, receive_all, receive_all-bounded}
use iso11783_can_stack.Transport.Segment.{
  IsCleared, segment_sent, after_packets, packets_sent, data_frame,
}
use iso11783_can_stack.Transport.Silence.{
  IsSilent, updates, receives_data, run, receiver_never_clears_again,
}
use iso11783_can_stack.Transport.Receive.{
  process_message, process_command, process_clear_to_send, clear_to_send_for,
}
use iso11783_can_stack.Transport.Frames.{send_request_to_send}
use iso11783_can_stack.Transport.Transmit.{
  update, update_sessions, transmit_segment, send_packets, packet_bytes, payload_from, segment_done,
}
use iso11783_can_stack.Transport.Agreement.{any_between}
use iso11783_can_stack.Transport.Undisturbed.{happen, NoneFrom}
use iso11783_can_stack.Transport.Requests.{second_request_refused}
use iso11783_can_stack.Message.{get_data_length}
use iso11783_can_stack.Network.{
  Env, send_can_message, send_can_message_raw, construct_frame, frame_identifier,
  get_internal_control_function,
}
use iso11783_can_stack.Transport.{send_frame}
use iso11783_can_stack.Examples.{bus, nine_bytes}

abbrev request : ℕ → TxRequest
request pgn = record {
  pgn = pgn;
  buffer = some nine_bytes;
  length = 9;
  source = some 0;
  destination = some 1;
  complete_callback = none;
  chunk_callback = none;
}

-- Cleared for two packets.
abbrev cleared : Session
cleared = record (tx_session (bus 0) (request 0xEF00) 0) {
  state = tx_data_session;
  packet_count = 2;
}

cleared-IsCleared : IsCleared nine_bytes 0 1 0 2 cleared
unfolding tx_session new_session set_data new
cleared-IsCleared = record {
  state = refl;
  own_bytes = refl;
  buffered = refl;
  bytes = refl;
  source = refl;
  destination = refl;
  processed = refl;
  left = refl;
  byte_wide = omega arith;
  segment = omega arith;
  size = omega arith;
}

cleared_fresh : cleared.last_packet ≡ 0
unfolding tx_session new_session
cleared_fresh = refl

segment_sent_example : update_state_machine (bus 9) cleared [] ≡ (
  some (
      set_state
        (bus 9)
        (if leb 9 (7 * (0 + 2))
          then wait_for_end_of_message_acknowledge
          else wait_for_clear_to_send)
        (after_packets (bus 9) 2 cleared)),
  packets_sent (data_frame (bus 9) nine_bytes 0 1) 0 2 [],
)
segment_sent_example =
    segment_sent (bus 9) (λ log f. refl) nine_bytes 0 1 (omega arith) (omega arith) (omega arith) 2
      0 cleared [] cleared-IsCleared cleared_fresh

-- A request to send of nine bytes, with segments of one packet.
abbrev request_to_send_frame : CanMessage
request_to_send_frame = record {
  bytes = 0x10 ∷ 9 ∷ 0 ∷ 2 ∷ 1 ∷ 0 ∷ 0xEF ∷ 0 ∷ [];
  source = some 1;
  destination = some 0;
  identifier = 0x18EC_1C26;
  port = 0;
  callback_message_size = 0;
}

abbrev nobody : Manager
nobody = record { sessions = []; log = [] }

abbrev first_packet : CanMessage
first_packet = record request_to_send_frame {
  bytes = packet nine_bytes 0;
  identifier = 0x1CEB_1C26;
}

at_most_four : AllCapped 4 ((bus 1, request_to_send_frame) ∷ (bus 2, request_to_send_frame) ∷ [])
unfolding AllCapped
at_most_four = (omega arith, (omega arith, tt))

receive_all-bounded_example :
    length
      (receive_all
        ((bus 1, request_to_send_frame) ∷ (bus 2, request_to_send_frame) ∷ [])
        nobody).sessions
    ≤ 4
receive_all-bounded_example =
    receive_all-bounded 4 ((bus 1, request_to_send_frame) ∷ (bus 2, request_to_send_frame) ∷ [])
      nobody at_most_four (omega arith)

abbrev receiving : Session
receiving = record (opened (bus 1) clear_to_send 0xEF00 0x1C (some 0) 1 request_to_send_frame 1) {
  state = rx_data_session;
}

receiver_never_clears_again_example : IsSilent [] (
    run
      (receives_data (bus 2) first_packet ∷ updates (bus 150) ∷ updates (bus 190) ∷ [])
      (record { sessions = receiving ∷ []; log = [] }))
receiver_never_clears_again_example =
    receiver_never_clears_again []
      (receives_data (bus 2) first_packet ∷ updates (bus 150) ∷ updates (bus 190) ∷ [])
      (record { sessions = receiving ∷ []; log = [] })
      (inl (record { session = receiving; only = refl; state = refl; silent = refl }))

-- Three messages from the tractor to the implement, the last two under one PGN: all are accepted.
abbrev accept : ℕ → Manager → Manager
accept pgn t = (protocol_transmit_message (bus 0) (request pgn) t).1

second_accepted :
    (protocol_transmit_message (bus 0) (request 0xEF00) (accept 0xEF00 (accept 0xE700 nobody))).0
    ≡ true
unfolding protocol_transmit_message get_address_valid get_session_of_pgn get_session session_pgn
    tx_session encode get_parameter_group_number set_data new new_session
second_accepted = refl

second_refused :
    (protocol_transmit_message (bus 0) (request 0xEF00) (accept 0xEF00 nobody)).0 ≡ false
unfolding protocol_transmit_message get_address_valid get_session_of_pgn get_session session_pgn
    tx_session encode get_parameter_group_number set_data new new_session
second_refused = refl

-- The request to send goes out, the implement clears one packet, and this packet goes out.
abbrev one_cleared : CanMessage
one_cleared = record request_to_send_frame {
  bytes = 0x11 ∷ 1 ∷ 1 ∷ 0xFF ∷ 0xFF ∷ 0 ∷ 0xEF ∷ 0 ∷ [];
}

abbrev transfer_so_far : List (Env × Option CanMessage)
transfer_so_far = (bus 1, none) ∷ (bus 2, some one_cleared) ∷ (bus 3, none) ∷ []

abbrev after_transfer : Manager
after_transfer =
    happen transfer_so_far (protocol_transmit_message (bus 0) (request 0xEF00) nobody).1

is_accepted : (protocol_transmit_message (bus 0) (request 0xEF00) nobody).0 ≡ true
unfolding protocol_transmit_message get_address_valid get_session_of_pgn get_session
is_accepted = refl

others_send : NoneFrom 0 transfer_so_far
unfolding NoneFrom
others_send = (refl, tt)

none_before : any_between (some 0) (some 1) nobody.sessions ≡ false
unfolding any_between
none_before = refl

still_open : any_between (some 0) (some 1) after_transfer.sessions ≡ true
unfolding happen any_between protocol_transmit_message get_address_valid get_session_of_pgn
    get_session update update_sessions update_state_machine send_request_to_send send_frame
    send_can_message send_can_message_raw construct_frame frame_identifier process_message
    process_command process_clear_to_send clear_to_send_for tx_session new_session set_data new
    session_pgn encode get_parameter_group_number set_state transmit_segment send_packets
    packet_bytes payload_from segment_done get_data_length get_internal_control_function
still_open = refl

second_request_refused_example :
    protocol_transmit_message (bus 4) (request 0xEF00) after_transfer ≡ (false, after_transfer)
second_request_refused_example =
    second_request_refused (bus 0) (request 0xEF00) 0 nobody refl is_accepted transfer_so_far
      (bus 4) (request 0xEF00) (omega arith, omega arith, inr refl) (omega arith) (omega arith)
      none_before others_send refl refl refl still_open
