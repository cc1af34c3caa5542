-- ===== src/FastPacket/Transmit.antt =====
-- nmea2000_fast_packet_protocol.cpp: `send_multipacket_message`, `update` and
-- `update_state_machine`. The first byte of the frames of a data chunk callback is never written:
-- what it holds is a parameter. A read past the end of the data, and what is done with a session
-- after it was deleted, is a fault, at which the model stops.
use iso11783_can_stack.Prelude.{
  ℕ, zero, suc, ◌+◌, ◌*◌, ◌-◌, ◌/◌, ◌%◌, ◌^◌, Bool, true, false, not, ◌&&◌, ◌||◌, Option, some,
  none, List, [], ◌∷◌, ◌++◌, ◌==◌, leb, ltb, if◌then◌else◌, u8, u16, is_some, take, drop, replicate,
  bit_or, ◌<<◌, length,
}
use iso11783_can_stack.ControlFunction.{get_address_valid, broadcast_can_address}
use iso11783_can_stack.Message.{CanMessage, new, set_data, get_data_length}
use iso11783_can_stack.Identifier.{encode, extended, get_priority}
use iso11783_can_stack.Timing.{time_expired_ms}
use iso11783_can_stack.Network.{
  Env, Log, fault, iterator_invalidated, use_after_free, out_of_range, TxRequest,
}
use iso11783_can_stack.Transport.{send_frame}
use iso11783_can_stack.FastPacket.{
  FastPacketProtocolSession, FastPacketHistory, FastPacketProtocol, transmit, receive, new_session,
  session_pgn, get_session, process_session_complete_callback, get_new_sequence_number,
  add_session_history, fp_min_parameter_group_number, fp_max_parameter_group_number, fp_timeout_ms,
  max_protocol_message_length, bytes_per_frame, sequence_number_bit_offset,
}

abbrev pub destination_of : Env → Option ℕ → ℕ
destination_of env none = broadcast_can_address
destination_of env (some d) = (env.cf d).address

abbrev pub tx_packet_count : ℕ → ℕ
tx_packet_count len =
    if len % bytes_per_frame == 0
    then u8 ((len - 6) / bytes_per_frame)
    else u8 ((len - 6) / bytes_per_frame + 1)

-- The session for a message that is accepted from a source.
unfoldable pub sending_session :
    Env → TxRequest → ℕ → ℕ → List FastPacketHistory → FastPacketProtocolSession
sending_session env r priority source history = record fresh {
  message = message;
  complete_callback = r.complete_callback;
  chunk_callback = r.chunk_callback;
  packet_count = tx_packet_count r.length;
  timestamp = env.now;
  sequence_number =
      get_new_sequence_number (env.cf source).name (session_pgn (new_session transmit message))
        history;
}
  where
    message : CanMessage
    message = record (set_data r.buffer r.length (new (env.cf source).port)) {
      source = some source;
      destination = r.destination;
      identifier =
          encode extended r.pgn priority (destination_of env r.destination) (env.cf source).address;
    }

    fresh : FastPacketProtocolSession
    fresh = new_session transmit (new (env.cf source).port)

abbrev pub send_multipacket_from :
    Env → TxRequest → ℕ → Option ℕ → FastPacketProtocol → Bool × FastPacketProtocol
send_multipacket_from env r priority none p = (false, p)
send_multipacket_from env r priority (some source) p =
    if get_address_valid (env.cf source)
      && leb fp_min_parameter_group_number r.pgn
      && leb r.pgn fp_max_parameter_group_number
      && leb r.length max_protocol_message_length
      && (is_some r.buffer || is_some r.chunk_callback)
      && not (is_some (get_session p.sessions r.pgn r.source r.destination))
    then (
      true,
      record p { sessions = p.sessions ++ sending_session env r priority source p.history ∷ [] },
    )
    else (false, p)

unfoldable pub send_multipacket_message :
    Env → TxRequest → ℕ → FastPacketProtocol → Bool × FastPacketProtocol
send_multipacket_message env r priority p = send_multipacket_from env r priority r.source p

-- The first byte of a frame.
abbrev pub counter_byte : FastPacketProtocolSession → ℕ
counter_byte s = u8 (bit_or s.processed_packets (s.sequence_number << sequence_number_bit_offset))

-- The data buffer of a frame, or what keeps it from being filled.
pub data Prepared : Type 0 where
  frame_bytes : List ℕ → Prepared
  chunk_failed read_past : Prepared

abbrev pub processed_so_far : FastPacketProtocolSession → ℕ
processed_so_far s =
    if s.processed_packets == 0 then 0 else u8 (6 + bytes_per_frame * (s.processed_packets - 1))

abbrev pub bytes_left : FastPacketProtocolSession → ℕ
bytes_left s =
    let left = u16 (get_data_length s.message + 2 ^ 32 - processed_so_far s) in
    if ltb bytes_per_frame left then bytes_per_frame else left

-- `count` bytes from an index on, padded to seven.
abbrev pub read_bytes : ℕ → ℕ → ℕ → List ℕ → Prepared
read_bytes first index count bytes =
    if leb (index + count) (length bytes)
    then frame_bytes (first ∷ take 7 (take count (drop index bytes) ++ replicate 7 0xFF))
    else read_past

unfoldable pub frame_data : Env → ℕ → FastPacketProtocolSession → Prepared
frame_data env uninitialized s = elim s.chunk_callback [
  | none ↦
      if s.processed_packets == 0
      then (if leb 6 (length s.message.bytes)
          then frame_bytes
              (counter_byte s ∷ u8 (get_data_length s.message) ∷ take 6 s.message.bytes)
          else read_past)
      else read_bytes (counter_byte s) (6 + (s.processed_packets - 1) * bytes_per_frame)
          (bytes_left s) s.message.bytes
  | some callback ↦
      elim (env.chunk callback uninitialized (bytes_per_frame * s.processed_packets)
        (bytes_left s)) [
          | none ↦ chunk_failed
          | some bytes ↦ frame_bytes (uninitialized ∷ take 7 (bytes ++ replicate 7 0))
        ]
]

-- How the loop over the frames ends: at its bound or at a refused frame, with the session closed
-- after a time-out, or in a fault.
pub data LoopEnd : Type 0 where
  ended : FastPacketProtocolSession → Log → LoopEnd
  cancelled : Log → LoopEnd
  failed : Option FastPacketProtocolSession → Log → LoopEnd

abbrev pub after_frame : Env → FastPacketProtocolSession → FastPacketProtocolSession
after_frame env s = record s {
  processed_packets = u8 (s.processed_packets + 1);
  timestamp = env.now;
}

unfoldable pub refused : Env → FastPacketProtocolSession → Log → LoopEnd
refused env s log =
    if time_expired_ms env.now s.timestamp fp_timeout_ms
    then cancelled (process_session_complete_callback env s false log)
    else ended s log

-- `rounds` are the values of `i` left.
unfoldable pub send_frames : Env → ℕ → ℕ → FastPacketProtocolSession → Log → LoopEnd
send_frames env uninitialized zero s log = ended s log
send_frames env uninitialized (suc rounds) s log = elim (frame_data env uninitialized s) [
  | chunk_failed ↦
      failed none (fault use_after_free ∷ process_session_complete_callback env s false log)
  | read_past ↦ failed (some s) (fault out_of_range ∷ log)
  | frame_bytes bytes ↦
      let (ok, log') =
        send_frame env (session_pgn s) (get_priority s.message.identifier) bytes s.message.source
          s.message.destination log in
      let more = send_frames env uninitialized rounds (after_frame env s) log' in
      if ok then more else refused env s log'
]

-- A session after an update, or `none` where it was closed and deleted.
abbrev pub Outcome : Type 0
Outcome = Option FastPacketProtocolSession × List FastPacketHistory × Log

-- The NAME of the source of a session; a sending session has one.
abbrev pub source_name : Env → FastPacketProtocolSession → ℕ
source_name env s = elim s.message.source [ none ↦ 0 | some c ↦ (env.cf c).name ]

unfoldable pub frames_done : Env → LoopEnd → List FastPacketHistory → Outcome
frames_done env (ended s log) history =
    if leb s.packet_count s.processed_packets
    then (
      none,
      add_session_history (source_name env s) (session_pgn s) s.sequence_number history,
      process_session_complete_callback env s true log,
    )
    else (some s, history, log)
frames_done env (cancelled log) history = (none, history, log)
frames_done env (failed o log) history = (o, history, log)

unfoldable pub update_state_machine :
    Env → ℕ → FastPacketProtocolSession → List FastPacketHistory → Log → Outcome
update_state_machine env uninitialized s history log = elim s.direction [
  | receive ↦
      if time_expired_ms env.now s.timestamp fp_timeout_ms
      then (none, history, process_session_complete_callback env s false log)
      else (some s, history, log)
  | transmit ↦
      frames_done env
        (send_frames env uninitialized (s.packet_count + 1 - s.processed_packets) s log) history
]

-- The loop of `update`: after a session is closed, its iterators are invalid.
abbrev pub go_on :
    List FastPacketProtocolSession
    → List FastPacketProtocolSession × List FastPacketHistory × Log
    → Outcome
    → List FastPacketProtocolSession × List FastPacketHistory × Log
go_on ss rest (none, history, log) = (ss, history, fault iterator_invalidated ∷ log)
go_on ss (ss', history', log') (some s, history, log) = (s ∷ ss', history', log')

unfoldable pub update_sessions :
    Env
    → ℕ
    → List FastPacketProtocolSession
    → List FastPacketHistory
    → Log
    → List FastPacketProtocolSession × List FastPacketHistory × Log
update_sessions env uninitialized [] history log = ([], history, log)
update_sessions env uninitialized (s ∷ ss) history log =
    let next = update_state_machine env uninitialized s history log in
    go_on ss (update_sessions env uninitialized ss next.1 next.2) next

unfoldable pub update : Env → ℕ → FastPacketProtocol → FastPacketProtocol
update env uninitialized p =
    let (sessions, history, log) = update_sessions env uninitialized p.sessions p.history p.log in
    record p { sessions = sessions; history = history; log = log }

-- The network manager offers every message; this protocol takes none.
unfoldable pub protocol_transmit_message :
    TxRequest → FastPacketProtocol → Bool × FastPacketProtocol
protocol_transmit_message r p = (false, p)
