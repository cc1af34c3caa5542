-- ===== src/ExtendedTransport/Frames.antt =====
-- The control frames of can_extended_transport_protocol.cpp.
use iso11783_can_stack.Prelude.{
  ℕ, ◌+◌, ◌-◌, ◌/◌, ◌^◌, Bool, List, ◌∷◌, ◌++◌, [], bit_and, ltb, if◌then◌else◌, u8, u32, ◌>>◌,
}
use iso11783_can_stack.Message.{get_data_length}
use iso11783_can_stack.Network.{Env, Log}
use iso11783_can_stack.Transport.{pgn_bytes, send_frame}
use iso11783_can_stack.ExtendedTransport.{
  ExtendedTransportProtocolSession, session_pgn, connection_management,
}

abbrev pub extended_request_to_send_multiplexor : ℕ
extended_request_to_send_multiplexor = 0x14

abbrev pub extended_clear_to_send_multiplexor : ℕ
extended_clear_to_send_multiplexor = 0x15

abbrev pub extended_data_packet_offset_multiplexor : ℕ
extended_data_packet_offset_multiplexor = 0x16

abbrev pub extended_end_of_message_acknowledgement : ℕ
extended_end_of_message_acknowledgement = 0x17

abbrev pub three_bytes : ℕ → List ℕ
three_bytes n = u8 (bit_and n 0xFF) ∷ u8 (bit_and (n >> 8) 0xFF) ∷ u8 (bit_and (n >> 16) 0xFF) ∷ []

-- RTS and the acknowledgement carry the length.
unfoldable pub length_bytes : ℕ → ExtendedTransportProtocolSession → List ℕ
length_bytes multiplexor s =
    let len = get_data_length s.message in
    multiplexor
    ∷ u8 (bit_and len 0xFF)
    ∷ u8 (bit_and (len >> 8) 0xFF)
    ∷ u8 (bit_and (len >> 16) 0xFF)
    ∷ u8 (bit_and (len >> 24) 0xFF)
    ∷ pgn_bytes (session_pgn s)

unfoldable pub send_end_of_session_acknowledgement :
    Env → ExtendedTransportProtocolSession → Log → Bool × Log
send_end_of_session_acknowledgement env s log =
    send_frame env connection_management 6 (length_bytes extended_end_of_message_acknowledgement s)
      s.message.destination s.message.source log

unfoldable pub send_request_to_send : Env → ExtendedTransportProtocolSession → Log → Bool × Log
send_request_to_send env s log =
    send_frame env connection_management 6 (length_bytes extended_request_to_send_multiplexor s)
      s.message.source s.message.destination log

-- The packets that are left, 255 at most.
unfoldable pub packet_max : ExtendedTransportProtocolSession → ℕ
packet_max s =
    let left =
      u32 (u32 (get_data_length s.message + 2 ^ 32 - 1) / 7 + 1 + 2 ^ 32 - s.processed_packets) in
    if ltb 0xFF left then 0xFF else left

-- The session that a CTS expects packets for.
unfoldable pub expecting : ExtendedTransportProtocolSession → ExtendedTransportProtocolSession
expecting s = record s {
  packet_count = if ltb (packet_max s) s.packet_count then packet_max s else s.packet_count;
}

unfoldable pub clear_to_send_bytes : ExtendedTransportProtocolSession → List ℕ
clear_to_send_bytes s =
    extended_clear_to_send_multiplexor ∷ u8 (packet_max s) ∷ three_bytes (s.processed_packets + 1)
    ++ pgn_bytes (session_pgn s)

unfoldable pub send_clear_to_send : Env → ExtendedTransportProtocolSession → Log → Bool × Log
send_clear_to_send env s log =
    send_frame env connection_management 6 (clear_to_send_bytes s) s.message.destination
      s.message.source log

unfoldable pub data_packet_offset_bytes : ExtendedTransportProtocolSession → List ℕ
data_packet_offset_bytes s =
    extended_data_packet_offset_multiplexor
      ∷ u8 (bit_and s.packet_count 0xFF)
      ∷ three_bytes s.processed_packets
    ++ pgn_bytes (session_pgn s)

unfoldable pub send_data_packet_offset : Env → ExtendedTransportProtocolSession → Log → Bool × Log
send_data_packet_offset env s log =
    send_frame env connection_management 6 (data_packet_offset_bytes s) s.message.source
      s.message.destination log
