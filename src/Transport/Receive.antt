-- ===== src/Transport/Receive.antt =====
-- can_transport_protocol.cpp, `process_message`: what a frame of the protocol does to the sessions.
-- A frame with fewer than 8 bytes has its PGN read past its end, a fault; messages with more than 8
-- bytes do not come from the bus.
use iso11783_can_stack.Prelude.{
  ℕ, ◌+◌, ◌*◌, Bool, true, false, not, ◌&&◌, ◌||◌, Option, some, none, List, [], ◌∷◌, ◌++◌, bit_or,
  ◌==◌, leb, ltb, if◌then◌else◌, u8, u16, ◌<<◌, is_some, set, get_or, length, take, drop,
}
use iso11783_can_stack.ControlFunction.{is_internal, broadcast_can_address}
use iso11783_can_stack.Message.{CanMessage, new, set_data_byte, set_data_size, get_data_length}
use iso11783_can_stack.Identifier.{encode, extended, get_parameter_group_number}
use iso11783_can_stack.Network.{
  Env, delivered, Fault, fault, use_after_free, out_of_range, null_dereference, can_data_length,
  get_internal_control_function,
}
use iso11783_can_stack.Transport.{
  Session, Manager, StateMachineState, idle, clear_to_send, rx_data_session, wait_for_clear_to_send,
  tx_data_session, wait_for_end_of_message_acknowledge, receive, new_session, get_session,
  get_session_of_pgn, close_session, abort_by_pgn, abort_session, ConnectionAbortReason,
  already_in_cm_session, system_resources_needed, any_other_error,
  clear_to_send_received_while_transfer_in_progress, bad_sequence_number, duplicate_sequence_number,
  protocol_bytes_per_frame, transport_protocol_command, transport_protocol_data,
  request_to_send_multiplexor, clear_to_send_multiplexor, end_of_message_acknowledge_multiplexor,
  broadcast_announce_message_multiplexor, connection_abort_multiplexor,
}
use iso11783_can_stack.Transport.Frames.{send_end_of_session_acknowledgement}

abbrev pub byte : CanMessage → ℕ → ℕ
byte m i = get_or m.bytes i 0

abbrev pub add_fault : Fault → Manager → Manager
add_fault f t = record t { log = fault f ∷ t.log }

abbrev pub whole : CanMessage → Bool
whole m = can_data_length == length m.bytes

abbrev pub has_room : Env → Manager → Bool
has_room env t = ltb (length t.sessions) env.max_sessions

-- The session that BAM and RTS open, up to what only one of them sets. The source may be a null
-- pointer here, and is followed.
unfoldable pub opened : Env → StateMachineState → ℕ → ℕ → Option ℕ → ℕ → CanMessage → ℕ → Session
opened env state pgn address destination cts_max m source = record fresh {
  message = record (set_data_size (bit_or (byte m 1) (u16 (byte m 2 << 8))) (new m.port)) {
    source = some source;
    destination = destination;
    identifier = encode extended pgn 7 address (env.cf source).address;
  };
  packet_count = byte m 3;
  clear_to_send_packet_max = cts_max;
  state = state;
  timestamp = env.now;
}
  where
    fresh : Session
    fresh = new_session receive (new m.port)

unfoldable pub open_session : Env → StateMachineState → ℕ → ℕ → ℕ → CanMessage → Manager → Manager
open_session env state pgn address cts_max m t = elim m.source [
  | none ↦ add_fault null_dereference t
  | some source ↦ record t {
    sessions = t.sessions ++ opened env state pgn address m.destination cts_max m source ∷ [];
  }
]

unfoldable pub process_broadcast_announce : Env → ℕ → CanMessage → Manager → Manager
process_broadcast_announce env pgn m t =
    if whole m
      && not (is_some m.destination)
      && has_room env t
      && not (is_some (get_session_of_pgn t.sessions m.source m.destination pgn))
    then open_session env rx_data_session pgn broadcast_can_address 0 m t
    else t

abbrev pub ours : Env → Option ℕ → Bool
ours env none = false
ours env (some d) = is_internal (env.cf d).type

abbrev pub address_of : Env → Option ℕ → ℕ
address_of env none = 0
address_of env (some d) = (env.cf d).address

unfoldable pub process_request_to_send : Env → ℕ → CanMessage → Manager → Manager
process_request_to_send env pgn m t =
    let found = is_some (get_session_of_pgn t.sessions m.source m.destination pgn) in
    if whole m
    then (if is_some m.destination && has_room env t && not found
        then open_session env clear_to_send pgn (address_of env m.destination) (byte m 4) m t
        else if found && ours env m.destination
        then record t {
          log = abort_by_pgn env pgn already_in_cm_session m.destination m.source t.log;
        }
        else if leb env.max_sessions (length t.sessions) && ours env m.destination
        then record t {
          log = abort_by_pgn env pgn system_resources_needed m.destination m.source t.log;
        }
        else t)
    else t

-- A CTS names us as its destination: we are the source of the session.
unfoldable pub clear_to_send_for : Env → ℕ → CanMessage → Option (ℕ × Session) → Manager → Manager
clear_to_send_for env pgn m none t = record t {
  log = abort_by_pgn env pgn any_other_error m.destination m.source t.log;
}
clear_to_send_for env pgn m (some (i, s)) t =
    let counted : Session = record s { packet_count = byte m 1; timestamp = env.now } in
    let started : Session = record counted { last_packet = 0; state = tx_data_session } in
    elim s.state [
      | wait_for_clear_to_send ↦ record t {
        sessions = set t.sessions i (if byte m 1 == 0 then counted else started);
      }
      | _ ↦ record t {
        log =
            abort_by_pgn env pgn clear_to_send_received_while_transfer_in_progress m.destination
              m.source t.log;
      }
    ]

abbrev pub both_ends : CanMessage → Bool
both_ends m = whole m && is_some m.destination && is_some m.source

unfoldable pub process_clear_to_send : Env → ℕ → CanMessage → Manager → Manager
process_clear_to_send env pgn m t =
    if both_ends m
    then clear_to_send_for env pgn m (get_session_of_pgn t.sessions m.destination m.source pgn) t
    else t

unfoldable pub acknowledge_for : Env → ℕ → CanMessage → Option (ℕ × Session) → Manager → Manager
acknowledge_for env pgn m none t = record t {
  log = abort_by_pgn env pgn any_other_error m.destination m.source t.log;
}
acknowledge_for env pgn m (some (i, s)) t =
    let aborted : Manager = record t {
      log = abort_by_pgn env pgn any_other_error m.destination m.source t.log;
    } in
    elim s.state [
      | wait_for_end_of_message_acknowledge ↦ close_session env i (record s { state = idle }) true t
      | _ ↦ close_session env i s false aborted
    ]

unfoldable pub process_end_of_message_acknowledge : Env → ℕ → CanMessage → Manager → Manager
process_end_of_message_acknowledge env pgn m t =
    if both_ends m
    then acknowledge_for env pgn m (get_session_of_pgn t.sessions m.destination m.source pgn) t
    else t

unfoldable pub process_connection_abort : Env → ℕ → CanMessage → Manager → Manager
process_connection_abort env pgn m t =
    elim (get_session_of_pgn t.sessions m.destination m.source pgn) [
      | none ↦ t
      | some (i, s) ↦ close_session env i s false t
    ]

-- The switch on the first byte, after the PGN is read from the last three.
unfoldable pub process_command : Env → CanMessage → Manager → Manager
process_command env m t =
    let pgn = bit_or (bit_or (byte m 5) (byte m 6 << 8)) (byte m 7 << 16) in
    let multiplexor = byte m 0 in
    if ltb (length m.bytes) can_data_length
    then add_fault out_of_range t
    else if multiplexor == broadcast_announce_message_multiplexor
    then process_broadcast_announce env pgn m t
    else if multiplexor == request_to_send_multiplexor
    then process_request_to_send env pgn m t
    else if multiplexor == clear_to_send_multiplexor
    then process_clear_to_send env pgn m t
    else if multiplexor == end_of_message_acknowledge_multiplexor
    then process_end_of_message_acknowledge env pgn m t
    else if multiplexor == connection_abort_multiplexor
    then process_connection_abort env pgn m t
    else t

-- The loop that copies the payload into the message, from a position on.
unfoldable pub copy_payload : List ℕ → ℕ → CanMessage → CanMessage
copy_payload [] position m = m
copy_payload (b ∷ bs) position m = copy_payload bs (position + 1) (set_data_byte b (u16 position) m)

-- The session once the next packet is stored.
unfoldable pub store_packet : List ℕ → Session → Session
store_packet bytes s = record s {
  message =
      copy_payload (take protocol_bytes_per_frame (drop 1 bytes))
        (protocol_bytes_per_frame * s.last_packet) s.message;
  last_packet = u16 (s.last_packet + 1);
  processed_packets = u8 (s.processed_packets + 1);
}

-- The message is complete: it is acknowledged if it was for us alone, delivered, and the session is
-- closed; then the time stamp of the deleted session is written.
unfoldable pub complete_message : Env → ℕ → Session → Manager → Manager
complete_message env i s t =
    let acknowledged = send_end_of_session_acknowledgement env s t.log in
    add_fault use_after_free
      (close_session env i s true (record t { log = delivered s.message ∷ acknowledged }))

unfoldable pub data_for : Env → CanMessage → ℕ → Session → Manager → Manager
data_for env m i s t =
    let sequence = byte m 0 in
    let stored = store_packet m.bytes s in
    let abort = λ (reason : ConnectionAbortReason).
      close_session env i s false (record t { log = abort_session env s reason t.log }) in
    if sequence == s.last_packet + 1
    then (if leb (get_data_length stored.message) (stored.last_packet * protocol_bytes_per_frame)
        then complete_message env i stored t
        else record t { sessions = set t.sessions i (record stored { timestamp = env.now }) })
    else if sequence == s.last_packet
    then abort duplicate_sequence_number
    else abort bad_sequence_number

abbrev pub is_receiving : StateMachineState → Bool
is_receiving rx_data_session = true
is_receiving _ = false

unfoldable pub process_data : Env → CanMessage → Manager → Manager
process_data env m t = elim (get_session t.sessions m.source m.destination) [
  | none ↦ t
  | some (i, s) ↦
      if whole m && is_receiving s.state
      then data_for env m i s t
      else close_session env i s false t
]

unfoldable pub process_message : Env → CanMessage → Manager → Manager
process_message env m t =
    let pgn = get_parameter_group_number m.identifier in
    if not (is_some m.destination) || is_some (get_internal_control_function env m.destination)
    then (if pgn == transport_protocol_command
        then process_command env m t
        else if pgn == transport_protocol_data
        then process_data env m t
        else t)
    else t
