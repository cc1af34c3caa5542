-- ===== src/Transport/Transmit.antt =====
-- can_transport_protocol.cpp, `protocol_transmit_message`, `update` and `update_state_machine`.
use iso11783_can_stack.Prelude.{
  ℕ, zero, suc, ◌+◌, ◌*◌, ◌-◌, ◌/◌, ◌%◌, ◌^◌, Bool, true, false, not, ◌&&◌, ◌||◌, Option, some,
  none, List, [], ◌∷◌, ◌++◌, ◌==◌, leb, ltb, if◌then◌else◌, u8, u16, is_some, get_or, take,
  replicate,
}
use iso11783_can_stack.ControlFunction.{get_address_valid, broadcast_can_address}
use iso11783_can_stack.Message.{new, set_data, get_data_length}
use iso11783_can_stack.Identifier.{encode, extended}
use iso11783_can_stack.Timing.{time_expired_ms}
use iso11783_can_stack.Network.{Env, Log, fault, iterator_invalidated, can_data_length, TxRequest}
use iso11783_can_stack.Transport.{
  Session, Manager, idle, clear_to_send, rx_data_session, request_to_send, wait_for_clear_to_send,
  broadcast_announce, tx_data_session, wait_for_end_of_message_acknowledge, transmit, new_session,
  get_session_of_pgn, set_state, process_session_complete_callback, abort_session, timeout,
  any_other_error, send_frame, max_protocol_data_length, t1_timeout_ms, t2_t3_timeout_ms,
  message_tr_timeout_ms, protocol_bytes_per_frame, transport_protocol_data,
}
use iso11783_can_stack.Transport.Frames.{
  send_broadcast_announce_message, send_request_to_send, send_clear_to_send,
}

abbrev pub valid_or_null : Env → Option ℕ → Bool
valid_or_null env none = true
valid_or_null env (some d) = get_address_valid (env.cf d)

abbrev pub destination_address : Env → Option ℕ → ℕ
destination_address env none = broadcast_can_address
destination_address env (some d) = (env.cf d).address

-- The session for a message that is accepted from a source.
unfoldable pub tx_session : Env → TxRequest → ℕ → Session
tx_session env r source = record fresh {
  message = record (set_data r.buffer r.length (new (env.cf source).port)) {
    source = some source;
    destination = r.destination;
    identifier =
        encode extended r.pgn 6 (destination_address env r.destination) (env.cf source).address;
  };
  packet_count = if r.length % 7 == 0 then u8 (r.length / 7) else u8 (u8 (r.length / 7) + 1);
  complete_callback = r.complete_callback;
  chunk_callback = r.chunk_callback;
  timestamp = env.now;
  state = if is_some r.destination then request_to_send else broadcast_announce;
}
  where
    fresh : Session
    fresh = new_session transmit (new (env.cf source).port)

abbrev pub transmit_from : Env → TxRequest → Option ℕ → Manager → Bool × Manager
transmit_from env r none t = (false, t)
transmit_from env r (some source) t =
    if leb r.length max_protocol_data_length
      && ltb can_data_length r.length
      && (is_some r.buffer || is_some r.chunk_callback)
      && get_address_valid (env.cf source)
      && valid_or_null env r.destination
      && not (is_some (get_session_of_pgn t.sessions r.source r.destination r.pgn))
    then (true, record t { sessions = t.sessions ++ tx_session env r source ∷ [] })
    else (false, t)

unfoldable pub protocol_transmit_message : Env → TxRequest → Manager → Bool × Manager
protocol_transmit_message env r t = transmit_from env r r.source t

-- The seven payload bytes of the next packet, from a buffer, padded with 0xFF.
unfoldable pub payload_from : ℕ → ℕ → ℕ → List ℕ → List ℕ
payload_from zero index len bytes = []
payload_from (suc n) index len bytes =
    (if ltb index len then get_or bytes index 0xFF else 0xFF) ∷ payload_from n (index + 1) len bytes

-- The frame of the next packet; `none` where the data chunk callback fails.
unfoldable pub packet_bytes : Env → Session → Option (List ℕ)
packet_bytes env s =
    let number = u8 (s.processed_packets + 1) in
    let offset = protocol_bytes_per_frame * s.processed_packets in
    let len = get_data_length s.message in
    let left = u16 (len + 2 ^ 32 - offset) in
    let asked = if ltb protocol_bytes_per_frame left then protocol_bytes_per_frame else left in
    elim s.chunk_callback [
      | none ↦ some (number ∷ payload_from 7 offset len s.message.bytes)
      | some callback ↦ elim (env.chunk callback number offset asked) [
        | none ↦ none
        | some bytes ↦ some (number ∷ take 7 (bytes ++ replicate 7 0xFF))
      ]
    ]

-- A session after an update, or `none` where it was closed and deleted.
abbrev pub Outcome : Type 0
Outcome = Option Session × Log

unfoldable pub close : Env → Session → Bool → Log → Outcome
close env s success log = (none, process_session_complete_callback env s success log)

-- The session after a packet went out.
abbrev pub after_packet : Env → Session → Session
after_packet env s = record s {
  last_packet = u16 (s.last_packet + 1);
  processed_packets = u8 (s.processed_packets + 1);
  timestamp = env.now;
}

-- The loop over the packets of a segment; `rounds` are the values of `i` left.
unfoldable pub send_packets : Env → ℕ → Session → Log → Outcome
send_packets env zero s log = (some s, log)
send_packets env (suc rounds) s log = elim (packet_bytes env s) [
  | none ↦ close env s false (abort_session env s any_other_error log)
  | some bytes ↦
      let (ok, log') =
        send_frame env transport_protocol_data 7 bytes s.message.source s.message.destination log in
      let more = send_packets env rounds (after_packet env s) log' in
      if ok
      then (if is_some s.message.destination then more else (some (after_packet env s), log'))
      else (some s, log')
]

-- What follows the loop, for a session that it left open.
unfoldable pub segment_done : Env → Outcome → Outcome
segment_done env (none, log) = (none, log)
segment_done env (some s, log) =
    if s.last_packet == s.packet_count
    then (if leb (get_data_length s.message) (protocol_bytes_per_frame * s.processed_packets)
        then (if is_some s.message.destination
            then (some (set_state env wait_for_end_of_message_acknowledge s), log)
            else close env s true log)
        else (some (set_state env wait_for_clear_to_send s), log))
    else (some s, log)

unfoldable pub transmit_segment : Env → Session → Log → Outcome
transmit_segment env s log =
    let rounds = s.packet_count - u8 s.last_packet in
    let sent = send_packets env rounds s log in
    if is_some s.message.destination || time_expired_ms env.now s.timestamp env.bam_delay
    then segment_done env sent
    else segment_done env (some s, log)

abbrev pub if_sent : Bool × Log → Session → Session → Outcome
if_sent (ok, log) next s = (if ok then some next else some s, log)

unfoldable pub timed_out : Env → Session → Log → Outcome
timed_out env s log = close env s false (abort_session env s timeout log)

unfoldable pub update_state_machine : Env → Session → Log → Outcome
update_state_machine env s log = elim s.state [
  | idle ↦ (some s, log)
  | clear_to_send ↦ if_sent (send_clear_to_send env s log) (set_state env rx_data_session s) s
  | rx_data_session ↦
      if is_some s.message.destination
      then (if time_expired_ms env.now s.timestamp message_tr_timeout_ms
          then timed_out env s log
          else (some s, log))
      else (if time_expired_ms env.now s.timestamp t1_timeout_ms
          then close env s false log
          else (some s, log))
  | request_to_send ↦
      if_sent (send_request_to_send env s log) (set_state env wait_for_clear_to_send s) s
  | broadcast_announce ↦
      if_sent (send_broadcast_announce_message env s log) (set_state env tx_data_session s) s
  | tx_data_session ↦ transmit_segment env s log
  | _ ↦
      if time_expired_ms env.now s.timestamp t2_t3_timeout_ms
      then timed_out env s log
      else (some s, log)
]

-- The loop of `update` over the sessions. When one is closed, it is erased from the vector that the
-- loop runs over: the iterators are invalid, and what the loop then does is undefined. The model
-- records the fault and stops.
abbrev pub continue_update : List Session → List Session × Log → Outcome → List Session × Log
continue_update ss rest (none, log) = (ss, fault iterator_invalidated ∷ log)
continue_update ss (ss', log') (some s, log) = (s ∷ ss', log')

unfoldable pub update_sessions : Env → List Session → Log → List Session × Log
update_sessions env [] log = ([], log)
update_sessions env (s ∷ ss) log =
    let next = update_state_machine env s log in
    continue_update ss (update_sessions env ss next.1) next

unfoldable pub update : Env → Manager → Manager
update env t =
    let (sessions, log) = update_sessions env t.sessions t.log in
    record { sessions = sessions; log = log }
