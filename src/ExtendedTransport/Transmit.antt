-- ===== src/ExtendedTransport/Transmit.antt =====
-- can_extended_transport_protocol.cpp: `protocol_transmit_message`, `update` and
-- `update_state_machine`.
use iso11783_can_stack.Prelude.{
  ℕ, zero, suc, ◌+◌, ◌*◌, ◌-◌, ◌/◌, ◌%◌, ◌^◌, Bool, true, false, not, ◌&&◌, ◌||◌, Option, some,
  none, List, [], ◌∷◌, ◌++◌, ◌==◌, leb, ltb, if◌then◌else◌, u8, u16, u32, is_some, take, replicate,
}
use iso11783_can_stack.ControlFunction.{get_address_valid}
use iso11783_can_stack.Message.{new, set_data, get_data_length}
use iso11783_can_stack.Identifier.{encode, extended}
use iso11783_can_stack.Timing.{time_expired_ms}
use iso11783_can_stack.Network.{
  Env, Log, fault, iterator_invalidated, absolute_max_message_length, TxRequest,
}
use iso11783_can_stack.Transport.{send_frame}
use iso11783_can_stack.Transport.Transmit.{payload_from}
use iso11783_can_stack.ExtendedTransport.{
  ExtendedTransportProtocolSession, ExtendedTransportProtocolManager, idle, request_to_send,
  wait_for_clear_to_send, rx_data_session, clear_to_send, wait_for_extended_data_packet_offset,
  tx_data_session, wait_for_end_of_message_acknowledge, transmit, new_session, set_state,
  get_session_of_pgn, process_session_complete_callback, abort_session, ConnectionAbortReason,
  timeout, any_other_reason, data_transfer, bytes_per_packet,
}
use iso11783_can_stack.ExtendedTransport.Frames.{
  send_request_to_send, send_clear_to_send, send_data_packet_offset, expecting,
}

abbrev pub max_protocol_data_length : ℕ
max_protocol_data_length = absolute_max_message_length

abbrev pub min_protocol_data_length : ℕ
min_protocol_data_length = 1786

abbrev pub t1_timeout_ms : ℕ
t1_timeout_ms = 750

abbrev pub t2_3_timeout_ms : ℕ
t2_3_timeout_ms = 1250

-- The session for a message that is accepted.
unfoldable pub tx_session : Env → TxRequest → ℕ → ℕ → ExtendedTransportProtocolSession
tx_session env r source destination = record fresh {
  message = record (set_data r.buffer r.length (new (env.cf source).port)) {
    source = some source;
    destination = some destination;
    identifier = encode extended r.pgn 6 (env.cf destination).address (env.cf source).address;
  };
  packet_count =
      if r.length % bytes_per_packet == 0
      then r.length / bytes_per_packet
      else r.length / bytes_per_packet + 1;
  complete_callback = r.complete_callback;
  chunk_callback = r.chunk_callback;
  timestamp = env.now;
  state = request_to_send;
}
  where
    fresh : ExtendedTransportProtocolSession
    fresh = new_session transmit (new (env.cf source).port)

abbrev pub transmit_between :
    Env
    → TxRequest
    → Option ℕ
    → Option ℕ
    → ExtendedTransportProtocolManager
    → Bool × ExtendedTransportProtocolManager
transmit_between env r none destination t = (false, t)
transmit_between env r (some source) none t = (false, t)
transmit_between env r (some source) (some destination) t =
    if ltb r.length max_protocol_data_length
      && leb min_protocol_data_length r.length
      && (is_some r.buffer || is_some r.chunk_callback)
      && get_address_valid (env.cf source)
      && get_address_valid (env.cf destination)
      && not (is_some (get_session_of_pgn t.sessions r.source r.destination r.pgn))
    then (true, record t { sessions = t.sessions ++ tx_session env r source destination ∷ [] })
    else (false, t)

unfoldable pub protocol_transmit_message :
    Env → TxRequest → ExtendedTransportProtocolManager → Bool × ExtendedTransportProtocolManager
protocol_transmit_message env r t = transmit_between env r r.source r.destination t

-- The frame of the next packet; `none` where the data chunk callback fails.
unfoldable pub packet_bytes : Env → ExtendedTransportProtocolSession → Option (List ℕ)
packet_bytes env s =
    let number = u8 (s.last_packet + 1) in
    let offset = u32 (bytes_per_packet * s.processed_packets) in
    let len = get_data_length s.message in
    let left = u16 (len + 2 ^ 32 - offset) in
    let asked = if ltb bytes_per_packet left then bytes_per_packet else left in
    elim s.chunk_callback [
      | none ↦ some (number ∷ payload_from 7 offset len s.message.bytes)
      | some callback ↦ elim (env.chunk callback number offset asked) [
        | none ↦ none
        | some bytes ↦ some (number ∷ take 7 (bytes ++ replicate 7 0xFF))
      ]
    ]

-- A session after an update, or `none` where it was closed and deleted.
abbrev pub Outcome : Type 0
Outcome = Option ExtendedTransportProtocolSession × Log

unfoldable pub close : Env → ExtendedTransportProtocolSession → Bool → Log → Outcome
close env s success log = (none, process_session_complete_callback env s success log)

unfoldable pub give_up :
    Env → ExtendedTransportProtocolSession → ConnectionAbortReason → Log → Outcome
give_up env s reason log = close env s false (abort_session env s reason log)

-- The session after a packet went out.
abbrev pub after_packet : Env → ExtendedTransportProtocolSession → ExtendedTransportProtocolSession
after_packet env s = record s {
  last_packet = u32 (s.last_packet + 1);
  processed_packets = u32 (s.processed_packets + 1);
  timestamp = env.now;
}

-- The loop over the packets of a segment; `rounds` are the values of `i` left.
unfoldable pub send_packets : Env → ℕ → ExtendedTransportProtocolSession → Log → Outcome
send_packets env zero s log = (some s, log)
send_packets env (suc rounds) s log = elim (packet_bytes env s) [
  | none ↦ give_up env s any_other_reason log
  | some bytes ↦
      let (ok, log') =
        send_frame env data_transfer 7 bytes s.message.source s.message.destination log in
      let more = send_packets env rounds (after_packet env s) log' in
      if ok then more else (some s, log')
]

-- What follows the loop, for a session that it left open.
unfoldable pub segment_done : Env → Outcome → Outcome
segment_done env (none, log) = (none, log)
segment_done env (some s, log) =
    if s.last_packet == s.packet_count
    then (if leb (get_data_length s.message) (u32 (bytes_per_packet * s.processed_packets))
        then (some (set_state env wait_for_end_of_message_acknowledge s), log)
        else (some (set_state env wait_for_clear_to_send s), log))
    else (some s, log)

-- A segment starts with its data packet offset.
abbrev pub if_announced : Bool × Log → Outcome → (Log → Outcome) → Outcome
if_announced (ok, log) kept send = if ok then send log else (kept.0, log)

unfoldable pub transmit_segment : Env → ExtendedTransportProtocolSession → Log → Outcome
transmit_segment env s log =
    let rounds = s.packet_count - s.last_packet in
    let started =
      if_announced (send_data_packet_offset env s log) (some s, log) (send_packets env rounds s) in
    let going_on = send_packets env rounds s log in
    if is_some s.message.destination
    then segment_done env (if s.last_packet == 0 then started else going_on)
    else (some s, log)

-- A control frame is sent, or it is refused, and the session given up after the time-out.
abbrev pub if_sent :
    Env → Bool × Log → ExtendedTransportProtocolSession → ExtendedTransportProtocolSession → Outcome
if_sent env (ok, log) next s =
    let late = give_up env s timeout log in
    if ok
    then (some next, log)
    else (if time_expired_ms env.now s.timestamp t2_3_timeout_ms then late else (some s, log))

unfoldable pub update_state_machine : Env → ExtendedTransportProtocolSession → Log → Outcome
update_state_machine env s log = elim s.state [
  | idle ↦ (some s, log)
  | request_to_send ↦
      if_sent env (send_request_to_send env s log) (set_state env wait_for_clear_to_send s) s
  | tx_data_session ↦ transmit_segment env s log
  | rx_data_session ↦
      if s.packet_count == s.last_packet
      then (some (set_state env clear_to_send s), log)
      else (if time_expired_ms env.now s.timestamp t1_timeout_ms
          then give_up env s timeout log
          else (some s, log))
  | clear_to_send ↦
      if_sent env (send_clear_to_send env s log)
        (set_state env wait_for_extended_data_packet_offset (expecting s)) (expecting s)
  | _ ↦
      if time_expired_ms env.now s.timestamp t2_3_timeout_ms
      then give_up env s timeout log
      else (some s, log)
]

-- The loop of `update`: after a session is closed, its iterators are invalid.
abbrev pub keep_going :
    List ExtendedTransportProtocolSession
    → List ExtendedTransportProtocolSession × Log
    → Outcome
    → List ExtendedTransportProtocolSession × Log
keep_going ss rest (none, log) = (ss, fault iterator_invalidated ∷ log)
keep_going ss (ss', log') (some s, log) = (s ∷ ss', log')

unfoldable pub update_sessions :
    Env → List ExtendedTransportProtocolSession → Log → List ExtendedTransportProtocolSession × Log
update_sessions env [] log = ([], log)
update_sessions env (s ∷ ss) log =
    let next = update_state_machine env s log in keep_going ss (update_sessions env ss next.1) next

unfoldable pub update : Env → ExtendedTransportProtocolManager → ExtendedTransportProtocolManager
update env t =
    let (sessions, log) = update_sessions env t.sessions t.log in
    record { sessions = sessions; log = log }
