-- ===== src/Transport/Segment.antt =====
-- What the sender of can_transport_protocol.cpp puts on the bus for a session with a destination,
-- once it is cleared to send a segment.
use iso11783_can_stack.Prelude.{
  ℕ, zero, suc, ◌+◌, ◌*◌, ◌^◌, ◌≤◌, ◌<◌, ◌≡◌, ◌≢◌, refl, true, some, none, List, ◌∷◌, if◌then◌else◌,
  u8, arith, length, leb,
}
use iso11783_can_stack.ControlFunction.{get_address_valid}
use iso11783_can_stack.Message.{get_data_length}
use iso11783_can_stack.Identifier.{encode, extended}
use iso11783_can_stack.Identifier.Fields.{encode_pdu1}
use iso11783_can_stack.Network.{
  Env, Log, Frame, sent, construct_frame, send_can_message, send_can_message_raw,
  default_identifier,
}
use iso11783_can_stack.Network.Frames.{construct_frame-encode}
use iso11783_can_stack.Transport.{
  Session, tx_data_session, wait_for_clear_to_send, wait_for_end_of_message_acknowledge, send_frame,
  transport_protocol_data, set_state,
}
use iso11783_can_stack.Transport.Transmit.{
  payload_from, packet_bytes, send_packets, transmit_segment, update_state_machine, after_packet,
  segment_done,
}
use iso11783_can_stack.Transport.Reassembly.{packet}

-- The log after packets `k`, `k + 1`, … of a message were sent, `n` of them.
unfoldable pub packets_sent : (ℕ → Frame) → ℕ → ℕ → Log → Log
packets_sent frame k zero log = log
packets_sent frame k (suc n) log = packets_sent frame (k + 1) n (sent (frame k) true ∷ log)

-- A session with a destination that has sent `k` packets of a message and has still to send `j` of
-- the segment it is cleared for.
pub record IsCleared (message : List ℕ) (c d k j : ℕ) (s : Session) : Type 0 where
  pub state : s.state ≡ tx_data_session
  pub own_bytes : s.chunk_callback ≡ none
  pub buffered : s.message.callback_message_size ≡ 0
  pub bytes : s.message.bytes ≡ message
  pub source : s.message.source ≡ some c
  pub destination : s.message.destination ≡ some d
  pub processed : s.processed_packets ≡ k
  pub left : s.last_packet + j ≡ s.packet_count
  pub byte_wide : k + j < 2 ^ 8
  pub segment : s.packet_count < 2 ^ 8
  pub size : length message ≤ 1785

module _ (env : Env) where
  -- The session after `n` packets.
  unfoldable pub after_packets : ℕ → Session → Session
  after_packets zero s = s
  after_packets (suc n) s = after_packets n (after_packet env s)

  module _ (message : List ℕ) (c d : ℕ) where
    -- The frame of packet `k`.
    unfoldable pub data_frame : ℕ → Frame
    data_frame k = record {
      identifier = encode extended transport_protocol_data 7 (env.cf d).address (env.cf c).address;
      channel = u8 (env.cf c).port;
      bytes = packet message k;
      is_extended = true;
    }

module _ (env : Env) (open_bus : (log : Log) (f : Frame) → env.accepts log f ≡ true)
    (message : List ℕ) (c d : ℕ) (port : (env.cf c).port < 4) (mine : (env.cf c).address < 0xFE)
    (theirs : (env.cf d).address < 0xFE) where
  construct_frame-data_frame :
      (k : ℕ)
      → construct_frame
          (env.cf c).port
          (env.cf c).address
          (env.cf d).address
          transport_protocol_data
          7
          (some (packet message k))
          8
        ≡ data_frame env message c d k
  unfolding data_frame payload_from
  construct_frame-data_frame k = ground (
    arith,
    construct_frame-encode (env.cf c).address (env.cf d).address transport_protocol_data 7
        (omega arith) (omega arith) (omega arith) (omega arith) (env.cf c).port 8 (packet message k)
        (omega arith) (omega arith),
  )

  data_frame-identifier : (k : ℕ) → default_identifier ≢ (data_frame env message c d k).identifier
  unfolding data_frame
  data_frame-identifier k = ground (
    arith,
    encode_pdu1 transport_protocol_data 7 (env.cf d).address (env.cf c).address (omega arith)
        (omega arith) (omega arith) (omega arith) (omega arith),
  )

  send_frame-data_frame :
      (k : ℕ) (log : Log)
      → send_frame env transport_protocol_data 7 (packet message k) (some c) (some d) log
        ≡ (true, sent (data_frame env message c d k) true ∷ log)
  unfolding send_frame send_can_message send_can_message_raw get_address_valid
  send_frame-data_frame k log = ground (
    arith,
    construct_frame-data_frame k,
    data_frame-identifier k,
    open_bus log (data_frame env message c d k),
    port,
    mine,
    theirs,
  )

  packet_bytes-cleared :
      (k j : ℕ) (s : Session)
      → IsCleared message c d k (suc j) s
      → packet_bytes env s ≡ some (packet message k)
  unfolding packet_bytes get_data_length
  packet_bytes-cleared k j s h = ground (arith, h)

  after_packet-IsCleared :
      (k j : ℕ) (s : Session)
      → IsCleared message c d k (suc j) s
      → IsCleared message c d (k + 1) j (after_packet env s)
  after_packet-IsCleared k j s h = ground (arith, h)

  send_packets-IsCleared :
      (j k : ℕ) (s : Session) (log : Log)
      → IsCleared message c d k j s
      → (send_packets env j s log
          ≡ (some (after_packets env j s), packets_sent (data_frame env message c d) k j log))
        × IsCleared message c d (j + k) 0 (after_packets env j s)
  unfolding send_packets packets_sent after_packets
  send_packets-IsCleared zero k s log h = (refl, ground (arith, h))
  send_packets-IsCleared (suc j) k s log h =
      let (sent_rest, cleared) =
        send_packets-IsCleared j (k + 1) (after_packet env s)
          (sent (data_frame env message c d k) true ∷ log) (after_packet-IsCleared k j s h) in
      (
        ground (
          arith,
          packet_bytes-cleared k j s h,
          send_frame-data_frame k log,
          h.source,
          h.destination,
          sent_rest,
        ),
        ground (arith, cleared),
      )

  -- A session with a destination that is cleared to send `n` packets, from packet `k` of a message
  -- of at most 1785 bytes on, no packet number beyond 255, between two valid addresses on a bus that
  -- takes every frame: one update sends exactly these packets, in order, each with its number and
  -- its seven bytes of the message (0xFF past the end), and the session then waits for the
  -- acknowledgement if the whole message is out, and for another clearance if it is not.
  pub segment_sent :
      (n k : ℕ) (s : Session) (log : Log)
      → IsCleared message c d k n s
      → s.last_packet ≡ 0
      → update_state_machine env s log ≡ (
        some (
            set_state env
              (if leb (length message) (7 * (k + n))
                then wait_for_end_of_message_acknowledge
                else wait_for_clear_to_send)
              (after_packets env n s)),
        packets_sent (data_frame env message c d) k n log,
      )
  unfolding update_state_machine transmit_segment segment_done get_data_length
  segment_sent n k s log h fresh =
      let (run, cleared) = send_packets-IsCleared n k s log h in
      let rounds : s.packet_count ≡ n = omega (arith, h) in
      ground (arith, h.state, h.destination, fresh, run, cleared, rounds)
