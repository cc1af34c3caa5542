-- ===== src/FastPacket/Receive.antt =====
-- nmea2000_fast_packet_protocol.cpp, `process_message`: what a received frame does.
use iso11783_can_stack.Prelude.{
  ℕ, ◌+◌, ◌*◌, ◌-◌, ◌/◌, ◌%◌, ◌^◌, Bool, true, false, ◌&&◌, ◌||◌, Option, some, none, List, [], ◌∷◌,
  ◌++◌, ◌==◌, leb, if◌then◌else◌, u8, bit_and, get_or, take, drop, set, ◌>>◌,
}
use iso11783_can_stack.Message.{CanMessage, write_bytes, new, set_data_size, get_data_length}
use iso11783_can_stack.Identifier.{get_parameter_group_number}
use iso11783_can_stack.Network.{Env, Log, delivered, can_data_length}
use iso11783_can_stack.FastPacket.{
  FastPacketProtocolSession, FastPacketProtocol, ParameterGroupNumberCallbackData, receive,
  new_session, session_pgn, get_session, close_session, fp_min_parameter_group_number,
  fp_max_parameter_group_number, max_protocol_message_length, bytes_per_frame,
  frame_counter_bit_mask, sequence_number_bit_mask, sequence_number_bit_offset,
}

unfoldable pub is_wanted : ℕ → List ParameterGroupNumberCallbackData → Bool
is_wanted pgn [] = false
is_wanted pgn (c ∷ cs) = c.pgn == pgn || is_wanted pgn cs

-- The callbacks for the PGN, each with the message.
unfoldable pub deliver : ℕ → CanMessage → List ParameterGroupNumberCallbackData → Log → Log
deliver pgn m [] log = log
deliver pgn m (c ∷ cs) log = deliver pgn m cs (if c.pgn == pgn then delivered m ∷ log else log)

-- A session with the bytes of one more frame.
unfoldable pub continued : List ℕ → FastPacketProtocolSession → FastPacketProtocolSession
continued frame s = record s {
  message =
      write_bytes (take 7 (drop 1 frame)) (s.processed_packets * bytes_per_frame + 2 ^ 32 - 1)
        s.message;
  processed_packets = u8 (s.processed_packets + 1);
}

unfoldable pub continue_session :
    Env → CanMessage → ℕ → FastPacketProtocolSession → FastPacketProtocol → FastPacketProtocol
continue_session env m i s p =
    let next = continued m.bytes s in
    if leb (next.packet_count + 1) next.processed_packets
    then close_session env i next true (record p {
      sessions = set p.sessions i next;
      log = deliver (session_pgn next) next.message p.callbacks p.log;
    })
    else record p { sessions = set p.sessions i next }

abbrev pub rx_packet_count : ℕ → ℕ
rx_packet_count len =
    let base = if leb (bytes_per_frame - 1) len then u8 ((len - 6) / bytes_per_frame) else 1 in
    if len % bytes_per_frame == 0 then base else u8 (base + 1)

-- The session that a frame with counter 0 opens.
unfoldable pub opened_session : Env → CanMessage → FastPacketProtocolSession
opened_session env m = record fresh {
  message = write_bytes (take 6 (drop 2 m.bytes)) 0 message;
  packet_count = rx_packet_count (get_or m.bytes 1 0);
  last_packet = bit_and (get_or m.bytes 0 0 >> sequence_number_bit_offset) sequence_number_bit_mask;
  processed_packets = 1;
  timestamp = env.now;
}
  where
    fresh : FastPacketProtocolSession
    fresh = new_session receive (new m.port)

    message : CanMessage
    message = record (set_data_size (get_or m.bytes 1 0) (new m.port)) {
      identifier = m.identifier;
      source = m.source;
      destination = m.destination;
    }

unfoldable pub process_wanted :
    Env
    → CanMessage
    → Option (ℕ × FastPacketProtocolSession)
    → FastPacketProtocol
    → FastPacketProtocol
process_wanted env m none p =
    if bit_and (get_or m.bytes 0 0) frame_counter_bit_mask == 0
      && leb (get_or m.bytes 1 0) max_protocol_message_length
    then record p { sessions = p.sessions ++ opened_session env m ∷ [] }
    else p
process_wanted env m (some (i, s)) p =
    if bit_and (get_or m.bytes 0 0) frame_counter_bit_mask == 0
    then close_session env i s false p
    else continue_session env m i s p

unfoldable pub process_message : Env → CanMessage → FastPacketProtocol → FastPacketProtocol
process_message env m p =
    let pgn = get_parameter_group_number m.identifier in
    if can_data_length == get_data_length m
      && leb fp_min_parameter_group_number pgn
      && leb pgn fp_max_parameter_group_number
      && is_wanted pgn p.callbacks
    then process_wanted env m (get_session p.sessions pgn m.source m.destination) p
    else p
