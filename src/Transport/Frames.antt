-- ===== src/Transport/Frames.antt =====
-- The control frames of can_transport_protocol.cpp.
use iso11783_can_stack.Prelude.{
  ℕ, ◌+◌, ◌-◌, ◌/◌, ◌^◌, Bool, some, none, List, [], ◌∷◌, bit_and, ltb, if◌then◌else◌, u8, u32,
  ◌>>◌,
}
use iso11783_can_stack.ControlFunction.{is_internal}
use iso11783_can_stack.Message.{get_data_length}
use iso11783_can_stack.Network.{Env, Log}
use iso11783_can_stack.Transport.{
  Session, session_pgn, pgn_bytes, send_frame, transport_protocol_command,
  request_to_send_multiplexor, clear_to_send_multiplexor, end_of_message_acknowledge_multiplexor,
  broadcast_announce_message_multiplexor,
}

-- The bytes that announce a message: RTS and BAM differ in the first alone.
unfoldable pub announce_bytes : ℕ → Session → List ℕ
announce_bytes multiplexor s =
    let len = get_data_length s.message in
    multiplexor
    ∷ u8 (bit_and len 0xFF)
    ∷ u8 (bit_and (len >> 8) 0xFF)
    ∷ s.packet_count
    ∷ 0xFF
    ∷ pgn_bytes (session_pgn s)

unfoldable pub send_broadcast_announce_message : Env → Session → Log → Bool × Log
send_broadcast_announce_message env s log =
    send_frame env transport_protocol_command 6
      (announce_bytes broadcast_announce_message_multiplexor s) s.message.source none log

unfoldable pub send_request_to_send : Env → Session → Log → Bool × Log
send_request_to_send env s log =
    send_frame env transport_protocol_command 6 (announce_bytes request_to_send_multiplexor s)
      s.message.source s.message.destination log

unfoldable pub clear_to_send_bytes : Session → List ℕ
clear_to_send_bytes s =
    let remaining = u8 (s.packet_count + 2 ^ 8 - s.processed_packets) in
    let segment =
      if ltb s.clear_to_send_packet_max remaining then s.clear_to_send_packet_max else remaining in
    clear_to_send_multiplexor
    ∷ segment
    ∷ u8 (s.processed_packets + 1)
    ∷ 0xFF
    ∷ 0xFF
    ∷ pgn_bytes (session_pgn s)

unfoldable pub send_clear_to_send : Env → Session → Log → Bool × Log
send_clear_to_send env s log =
    send_frame env transport_protocol_command 6 (clear_to_send_bytes s) s.message.destination
      s.message.source log

unfoldable pub end_of_session_bytes : Session → List ℕ
end_of_session_bytes s =
    let len = get_data_length s.message in
    end_of_message_acknowledge_multiplexor
    ∷ u8 len
    ∷ u8 (len >> 8)
    ∷ u8 (u8 (u32 (len + 2 ^ 32 - 1) / 7) + 1)
    ∷ 0xFF
    ∷ u8 (session_pgn s)
    ∷ u8 (session_pgn s >> 8)
    ∷ u8 (session_pgn s >> 16)
    ∷ []

-- Called for a session with a destination only; it is sent if that is one of ours.
unfoldable pub send_end_of_session_acknowledgement : Env → Session → Log → Log
send_end_of_session_acknowledgement env s log = elim s.message.destination [
  | none ↦ log
  | some d ↦
      if is_internal (env.cf d).type
      then (send_frame env transport_protocol_command 6 (end_of_session_bytes s)
          s.message.destination s.message.source log).1
      else log
]
