-- ===== src/ExtendedTransport/Receive.antt =====
-- can_extended_transport_protocol.cpp, `process_message`. The log output of the handlers follows the
-- pointer to the sender of the frame: where that is null, a fault.
use iso11783_can_stack.Prelude.{
  ℕ, ◌+◌, ◌*◌, Bool, true, false, not, ◌&&◌, some, none, List, [], ◌∷◌, ◌++◌, bit_or, ◌==◌, leb,
  ltb, if◌then◌else◌, u32, ◌<<◌, is_some, set, take, drop, length,
}
use iso11783_can_stack.Message.{CanMessage, write_bytes, new, set_data_size, get_data_length}
use iso11783_can_stack.Identifier.{encode, extended, get_parameter_group_number}
use iso11783_can_stack.Network.{
  Env, delivered, Fault, fault, use_after_free, null_dereference, get_internal_control_function,
}
use iso11783_can_stack.Transport.Receive.{byte, whole, ours, address_of}
use iso11783_can_stack.ExtendedTransport.{
  ExtendedTransportProtocolSession, ExtendedTransportProtocolManager, StateMachineState, idle,
  clear_to_send, rx_data_session, wait_for_clear_to_send, tx_data_session,
  wait_for_end_of_message_acknowledge, receive, new_session, set_state, Found, get_session,
  get_session_of_pgn, close_session, abort_by_pgn, abort_session, already_in_session,
  system_resources_needed, any_other_reason, clear_to_send_received_when_data_transfer_in_progress,
  unexpected_edpo_packet, unexpected_edpo_pgn, edpo_number_of_packets_greater_than_clear_to_send,
  bad_edpo_offset, ConnectionAbortReason, connection_management, data_transfer, abort_multiplexor,
  bytes_per_packet,
}
use iso11783_can_stack.ExtendedTransport.Frames.{
  extended_request_to_send_multiplexor, extended_clear_to_send_multiplexor,
  extended_data_packet_offset_multiplexor, extended_end_of_message_acknowledgement,
  send_end_of_session_acknowledgement,
}

abbrev pub note_fault : Fault → ExtendedTransportProtocolManager → ExtendedTransportProtocolManager
note_fault f t = record t { log = fault f ∷ t.log }

-- The sender's address is put into the log output.
abbrev pub mention :
    CanMessage → ExtendedTransportProtocolManager → ExtendedTransportProtocolManager
mention m t = if is_some m.source then t else note_fault null_dereference t

-- An abort to the sender of the frame, which the log output mentions.
unfoldable pub answer_abort :
    Env
    → ℕ
    → ConnectionAbortReason
    → CanMessage
    → ExtendedTransportProtocolManager
    → ExtendedTransportProtocolManager
answer_abort env pgn reason m t =
    mention m (record t { log = abort_by_pgn env pgn reason m.destination m.source t.log })

unfoldable pub opened : Env → ℕ → CanMessage → ℕ → ExtendedTransportProtocolSession
opened env pgn m source = record fresh {
  message = record (set_data_size size (new m.port)) {
    source = some source;
    destination = m.destination;
    identifier = encode extended pgn 7 (address_of env m.destination) (env.cf source).address;
  };
  packet_count = 0xFF;
  state = clear_to_send;
  timestamp = env.now;
}
  where
    fresh : ExtendedTransportProtocolSession
    fresh = new_session receive (new m.port)

    size : ℕ
    size =
        u32 (bit_or (bit_or (bit_or (byte m 1) (byte m 2 << 8)) (byte m 3 << 16)) (byte m 4 << 24))

unfoldable pub open_session :
    Env → ℕ → CanMessage → ExtendedTransportProtocolManager → ExtendedTransportProtocolManager
open_session env pgn m t = elim m.source [
  | none ↦ note_fault null_dereference t
  | some source ↦ record t { sessions = t.sessions ++ opened env pgn m source ∷ [] }
]

unfoldable pub process_request_to_send :
    Env → ℕ → CanMessage → ExtendedTransportProtocolManager → ExtendedTransportProtocolManager
process_request_to_send env pgn m t =
    let found = get_session_of_pgn t.sessions m.source m.destination pgn in
    let pointer = get_session t.sessions m.source m.destination in
    if is_some m.destination && ltb (length t.sessions) env.max_sessions && not (is_some found)
    then open_session env pgn m t
    else if is_some found && ours env m.destination
    then close_session env pointer false (answer_abort env pgn already_in_session m t)
    else if leb env.max_sessions (length t.sessions) && ours env m.destination
    then close_session env pointer false (answer_abort env pgn system_resources_needed m t)
    else t

-- A CTS names us as its destination: we are the source of the session.
unfoldable pub clear_to_send_for :
    Env
    → ℕ
    → CanMessage
    → Found
    → ExtendedTransportProtocolManager
    → ExtendedTransportProtocolManager
clear_to_send_for env pgn m none t = answer_abort env pgn any_other_reason m t
clear_to_send_for env pgn m (some (i, s)) t =
    let counted : ExtendedTransportProtocolSession = record s {
      packet_count = byte m 1;
      timestamp = env.now;
    } in
    let started : ExtendedTransportProtocolSession = record counted {
      last_packet = 0;
      state = tx_data_session;
    } in
    elim s.state [
      | wait_for_clear_to_send ↦ record t {
        sessions = set t.sessions i (if byte m 1 == 0 then counted else started);
      }
      | _ ↦
          close_session env (some (i, s)) false
            (answer_abort env pgn clear_to_send_received_when_data_transfer_in_progress m t)
    ]

unfoldable pub process_clear_to_send :
    Env → ℕ → CanMessage → ExtendedTransportProtocolManager → ExtendedTransportProtocolManager
process_clear_to_send env pgn m t =
    clear_to_send_for env pgn m (get_session_of_pgn t.sessions m.destination m.source pgn) t

abbrev pub offset_of : CanMessage → ℕ
offset_of m = bit_or (bit_or (byte m 2) (byte m 3 << 8)) (byte m 4 << 16)

-- An abort of a session, with its log output before it, and the close after it.
unfoldable pub abort_and_close :
    Env
    → CanMessage
    → ℕ
    → ExtendedTransportProtocolSession
    → ConnectionAbortReason
    → ExtendedTransportProtocolManager
    → ExtendedTransportProtocolManager
abort_and_close env m i s reason t =
    let noted = mention m t in
    close_session env (some (i, s)) false
      (record noted { log = abort_session env s reason noted.log })

-- A data packet offset. When it announces more packets than the CTS, the session is closed, and then
-- used.
unfoldable pub offset_for :
    Env
    → CanMessage
    → ℕ
    → ExtendedTransportProtocolSession
    → ExtendedTransportProtocolManager
    → ExtendedTransportProtocolManager
offset_for env m i s t =
    let s' : ExtendedTransportProtocolSession = record s { packet_count = byte m 1 } in
    if ltb s.packet_count (byte m 1)
    then note_fault use_after_free
        (abort_and_close env m i s edpo_number_of_packets_greater_than_clear_to_send t)
    else if offset_of m == s.processed_packets
    then record t {
      sessions = set t.sessions i (set_state env rx_data_session (record s' { last_packet = 0 }));
    }
    else abort_and_close env m i s' bad_edpo_offset t

-- No session of the PGN: one with these ends is aborted and closed.
unfoldable pub offset_mismatch :
    Env
    → ℕ
    → CanMessage
    → Found
    → ExtendedTransportProtocolManager
    → ExtendedTransportProtocolManager
offset_mismatch env pgn m none t = record t {
  log = abort_by_pgn env pgn unexpected_edpo_packet m.destination m.source t.log;
}
offset_mismatch env pgn m (some (i, s)) t = abort_and_close env m i s unexpected_edpo_pgn t

unfoldable pub process_data_packet_offset :
    Env → ℕ → CanMessage → ExtendedTransportProtocolManager → ExtendedTransportProtocolManager
process_data_packet_offset env pgn m t =
    elim (get_session_of_pgn t.sessions m.source m.destination pgn) [
      | some (i, s) ↦ offset_for env m i s t
      | none ↦ offset_mismatch env pgn m (get_session t.sessions m.source m.destination) t
    ]

unfoldable pub acknowledge_for :
    Env
    → ℕ
    → CanMessage
    → Found
    → ExtendedTransportProtocolManager
    → ExtendedTransportProtocolManager
acknowledge_for env pgn m none t = answer_abort env pgn any_other_reason m t
acknowledge_for env pgn m (some (i, s)) t = elim s.state [
  | wait_for_end_of_message_acknowledge ↦
      close_session env (some (i, record s { state = idle })) true t
  | _ ↦ close_session env (some (i, s)) false (answer_abort env pgn any_other_reason m t)
]

unfoldable pub process_end_of_message_acknowledgement :
    Env → ℕ → CanMessage → ExtendedTransportProtocolManager → ExtendedTransportProtocolManager
process_end_of_message_acknowledgement env pgn m t =
    if is_some m.destination && is_some m.source
    then acknowledge_for env pgn m (get_session_of_pgn t.sessions m.destination m.source pgn) t
    else t

unfoldable pub process_connection_abort :
    Env → ℕ → CanMessage → ExtendedTransportProtocolManager → ExtendedTransportProtocolManager
process_connection_abort env pgn m t =
    close_session env (get_session_of_pgn t.sessions m.destination m.source pgn) false t

-- The switch on the first byte.
unfoldable pub process_command :
    Env → CanMessage → ExtendedTransportProtocolManager → ExtendedTransportProtocolManager
process_command env m t =
    let pgn = bit_or (bit_or (byte m 5) (byte m 6 << 8)) (byte m 7 << 16) in
    let multiplexor = byte m 0 in
    if whole m
    then (if multiplexor == extended_request_to_send_multiplexor
        then process_request_to_send env pgn m t
        else if multiplexor == extended_clear_to_send_multiplexor
        then process_clear_to_send env pgn m t
        else if multiplexor == extended_data_packet_offset_multiplexor
        then process_data_packet_offset env pgn m t
        else if multiplexor == extended_end_of_message_acknowledgement
        then process_end_of_message_acknowledgement env pgn m t
        else if multiplexor == abort_multiplexor
        then process_connection_abort env pgn m t
        else t)
    else t

abbrev pub is_receiving : StateMachineState → Bool
is_receiving rx_data_session = true
is_receiving _ = false

-- A session with the bytes of one more packet.
unfoldable pub store_packet :
    List ℕ → ExtendedTransportProtocolSession → ExtendedTransportProtocolSession
store_packet frame s = record s {
  message =
      write_bytes (take 7 (drop 1 frame)) (u32 (bytes_per_packet * s.processed_packets)) s.message;
  last_packet = u32 (s.last_packet + 1);
  processed_packets = u32 (s.processed_packets + 1);
}

-- The last packet: the acknowledgement, the callbacks, the close, and the write to the deleted
-- session.
unfoldable pub complete_message :
    Env
    → ℕ
    → ExtendedTransportProtocolSession
    → ExtendedTransportProtocolManager
    → ExtendedTransportProtocolManager
complete_message env i s t =
    let acknowledged =
      if is_some s.message.destination
      then (send_end_of_session_acknowledgement env s t.log).1
      else t.log in
    note_fault use_after_free
      (close_session env (some (i, s)) true (record t { log = delivered s.message ∷ acknowledged }))

unfoldable pub data_for :
    Env
    → CanMessage
    → ℕ
    → ExtendedTransportProtocolSession
    → ExtendedTransportProtocolManager
    → ExtendedTransportProtocolManager
data_for env m i s t =
    let stored = store_packet m.bytes s in
    if is_receiving s.state && byte m 0 == u32 (s.last_packet + 1)
    then (if leb (get_data_length stored.message)
          (u32 (stored.processed_packets * bytes_per_packet))
        then complete_message env i stored t
        else record t { sessions = set t.sessions i (record stored { timestamp = env.now }) })
    else t

unfoldable pub process_data :
    Env → CanMessage → ExtendedTransportProtocolManager → ExtendedTransportProtocolManager
process_data env m t = elim (get_session t.sessions m.source m.destination) [
  | none ↦ t
  | some (i, s) ↦ if whole m then data_for env m i s t else t
]

unfoldable pub process_message :
    Env → CanMessage → ExtendedTransportProtocolManager → ExtendedTransportProtocolManager
process_message env m t =
    let pgn = get_parameter_group_number m.identifier in
    if is_some (get_internal_control_function env m.destination)
    then (if pgn == connection_management
        then process_command env m t
        else if pgn == data_transfer
        then process_data env m t
        else t)
    else t
