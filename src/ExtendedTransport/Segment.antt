-- ===== src/ExtendedTransport/Segment.antt =====
-- What the sender of can_extended_transport_protocol.cpp puts on the bus, once it is cleared to send
-- a segment.
use iso11783_can_stack.Prelude.{
  ℕ, zero, suc, ◌+◌, ◌-◌, ◌*◌, ◌/◌, ◌%◌, ◌^◌, ◌<◌, ◌≡◌, ◌≢◌, refl, true, some, none, List, ◌∷◌,
  if◌then◌else◌, u8, arith, length, leb, take, [], bit_and, ◌>>◌,
}
use iso11783_can_stack.Bits.{bit_and_ones}
use iso11783_can_stack.ControlFunction.{get_address_valid}
use iso11783_can_stack.Message.{get_data_length}
use iso11783_can_stack.Identifier.{encode, extended}
use iso11783_can_stack.Identifier.Fields.{encode_pdu1}
use iso11783_can_stack.Network.{
  Env, Log, Frame, sent, send_can_message, send_can_message_raw, default_identifier,
}
use iso11783_can_stack.Network.Frames.{construct_frame-encode}
use iso11783_can_stack.Transport.{send_frame}
use iso11783_can_stack.Transport.Transmit.{payload_from}
use iso11783_can_stack.ExtendedTransport.{
  ExtendedTransportProtocolSession, tx_data_session, wait_for_clear_to_send,
  wait_for_end_of_message_acknowledge, set_state, connection_management, data_transfer, session_pgn,
}
use iso11783_can_stack.ExtendedTransport.Frames.{send_data_packet_offset, data_packet_offset_bytes}
use iso11783_can_stack.ExtendedTransport.Transmit.{
  packet_bytes, send_packets, transmit_segment, update_state_machine, after_packet, segment_done,
}

-- Packet `k` of a message (from 0), which is number `j` (from 0) of its segment.
abbrev pub packet : List ℕ → ℕ → ℕ → List ℕ
packet message j k = (j + 1) ∷ payload_from 7 (7 * k) (length message) message

-- The log after packets `k`, `k + 1`, … of a message were sent, `n` of them, with the numbers from
-- `j` on.
unfoldable pub packets_sent : (ℕ → ℕ → Frame) → ℕ → ℕ → ℕ → Log → Log
packets_sent frame j k zero log = log
packets_sent frame j k (suc n) log =
    packets_sent frame (j + 1) (k + 1) n (sent (frame j k) true ∷ log)

-- A session that has sent `k` packets of a message, `j` of them in the segment that it is cleared
-- for, and has still to send `left` of it.
pub record IsCleared (message : List ℕ) (c d j k left : ℕ) (s : ExtendedTransportProtocolSession)
    : Type 0 where
  pub state : s.state ≡ tx_data_session
  pub own_bytes : s.chunk_callback ≡ none
  pub buffered : s.message.callback_message_size ≡ 0
  pub bytes : s.message.bytes ≡ message
  pub source : s.message.source ≡ some c
  pub destination : s.message.destination ≡ some d
  pub processed : s.processed_packets ≡ k
  pub last : s.last_packet ≡ j
  pub count : j + left ≡ s.packet_count
  pub segment : s.packet_count < 2 ^ 8
  pub in_message : 7 * (k + left) < length message + 7
  pub size : length message < 2 ^ 32 - 7

-- The bytes of the data packet offset for `n` packets from packet `k` on of a message of a PGN.
abbrev pub offset_bytes : ℕ → ℕ → ℕ → List ℕ
offset_bytes n k pgn =
    0x16
    ∷ n
    ∷ k % 2 ^ 8
    ∷ k / 2 ^ 8 % 2 ^ 8
    ∷ k / 2 ^ 16 % 2 ^ 8
    ∷ pgn % 2 ^ 8
    ∷ pgn / 2 ^ 8 % 2 ^ 8
    ∷ pgn / 2 ^ 16 % 2 ^ 8
    ∷ []

pub three_bytes_lem :
    (n : ℕ)
    → (u8 (bit_and n 0xFF) ≡ n % 2 ^ 8)
      × (u8 (bit_and (n >> 8) 0xFF) ≡ n / 2 ^ 8 % 2 ^ 8)
      × (u8 (bit_and (n >> 16) 0xFF) ≡ n / 2 ^ 16 % 2 ^ 8)
three_bytes_lem n =
    ground (arith, bit_and_ones 8 n, bit_and_ones 8 (n / 2 ^ 8), bit_and_ones 8 (n / 2 ^ 16))

data_packet_offset_bytes_lem :
    (s : ExtendedTransportProtocolSession)
    → s.packet_count < 2 ^ 8
    → data_packet_offset_bytes s ≡ offset_bytes s.packet_count s.processed_packets (session_pgn s)
unfolding data_packet_offset_bytes
data_packet_offset_bytes_lem s small = ground (
  arith,
  bit_and_ones 8 s.packet_count,
  three_bytes_lem s.processed_packets,
  three_bytes_lem (session_pgn s),
)

module _ (env : Env) where
  unfoldable pub after_packets :
      ℕ → ExtendedTransportProtocolSession → ExtendedTransportProtocolSession
  after_packets zero s = s
  after_packets (suc n) s = after_packets n (after_packet env s)

  -- A frame from `c` to `d`.
  unfoldable pub frame_between : ℕ → ℕ → ℕ → ℕ → List ℕ → Frame
  frame_between c d pgn priority bytes = record {
    identifier = encode extended pgn priority (env.cf d).address (env.cf c).address;
    channel = u8 (env.cf c).port;
    bytes = bytes;
    is_extended = true;
  }

module _ (env : Env) (open_bus : (log : Log) (f : Frame) → env.accepts log f ≡ true) (c d : ℕ)
    (port : (env.cf c).port < 4) (mine : (env.cf c).address < 0xFE)
    (theirs : (env.cf d).address < 0xFE) where
  -- A PGN that frames carry to one destination.
  module _ (pgn priority : ℕ) (small : pgn < 2 ^ 16) (some_pgn : 0 < pgn / 2 ^ 8)
      (specific : pgn / 2 ^ 8 % 2 ^ 8 < 240) (byte_wide : priority < 8) (bytes : List ℕ)
      (eight : take 8 bytes ≡ bytes) where
    frame_between-identifier :
        default_identifier ≢ (frame_between env c d pgn priority bytes).identifier
    unfolding frame_between
    frame_between-identifier = ground (
      arith,
      encode_pdu1 pgn priority (env.cf d).address (env.cf c).address (omega arith) (omega arith)
          (omega arith) (omega arith) specific,
    )

    pub send_frame-frame_between :
        (log : Log)
        → send_frame env pgn priority bytes (some c) (some d) log
          ≡ (true, sent (frame_between env c d pgn priority bytes) true ∷ log)
    unfolding send_frame send_can_message send_can_message_raw get_address_valid frame_between
    send_frame-frame_between log = ground (
      arith,
      construct_frame-encode (env.cf c).address (env.cf d).address pgn priority (omega arith)
          (omega arith) (omega arith) (omega arith) (env.cf c).port 8 bytes (omega arith)
          (omega arith),
      frame_between-identifier,
      open_bus log (frame_between env c d pgn priority bytes),
      port,
      mine,
      theirs,
      eight,
    )

  module _ (message : List ℕ) where
    abbrev pub data_frame : ℕ → ℕ → Frame
    data_frame j k = frame_between env c d data_transfer 7 (packet message j k)

    eight_bytes : (j k : ℕ) → take 8 (packet message j k) ≡ packet message j k
    unfolding payload_from
    eight_bytes j k = refl

    packet_bytes-cleared :
        (j k left : ℕ) (s : ExtendedTransportProtocolSession)
        → IsCleared message c d j k (suc left) s
        → packet_bytes env s ≡ some (packet message j k)
    unfolding packet_bytes get_data_length
    packet_bytes-cleared j k left s h = ground (arith, h)

    after_packet-IsCleared :
        (j k left : ℕ) (s : ExtendedTransportProtocolSession)
        → IsCleared message c d j k (suc left) s
        → IsCleared message c d (j + 1) (k + 1) left (after_packet env s)
    after_packet-IsCleared j k left s h = ground (arith, h)

    send_packets-IsCleared :
        (left j k : ℕ) (s : ExtendedTransportProtocolSession) (log : Log)
        → IsCleared message c d j k left s
        → (send_packets env left s log
            ≡ (some (after_packets env left s), packets_sent data_frame j k left log))
          × IsCleared message c d (left + j) (left + k) 0 (after_packets env left s)
    unfolding send_packets packets_sent after_packets
    send_packets-IsCleared zero j k s log h = (refl, ground (arith, h))
    send_packets-IsCleared (suc left) j k s log h =
        let (sent_rest, cleared) =
          send_packets-IsCleared left (j + 1) (k + 1) (after_packet env s)
            (sent (data_frame j k) true ∷ log) (after_packet-IsCleared j k left s h) in
        (
          ground (
            arith,
            packet_bytes-cleared j k left s h,
            send_frame-frame_between data_transfer 7 (omega arith) (omega arith) (omega arith)
                (omega arith) (packet message j k) (eight_bytes j k) log,
            h.source,
            h.destination,
            sent_rest,
          ),
          ground (arith, cleared),
        )

    eight_offset :
        (s : ExtendedTransportProtocolSession)
        → take 8 (data_packet_offset_bytes s) ≡ data_packet_offset_bytes s
    unfolding data_packet_offset_bytes
    eight_offset s = refl

    -- A session that is cleared to send `n` packets, from packet `k` of a message on, all of them in
    -- the message, between two valid addresses on a bus that takes every frame: one update sends
    -- the data packet offset, which has the multiplexor 0x16, `n`, `k` and the PGN of the message, and
    -- then exactly these packets, in order, each with its number in the segment and its seven bytes of the message (0xFF past the end), and the session then waits
    -- for the acknowledgement if the whole message is out, and for another clearance if not.
    pub extended_segment_sent :
        (n k : ℕ) (s : ExtendedTransportProtocolSession) (log : Log)
        → IsCleared message c d 0 k n s
        → update_state_machine env s log ≡ (
          some (
              set_state env
                (if leb (length message) (7 * (k + n))
                  then wait_for_end_of_message_acknowledge
                  else wait_for_clear_to_send)
                (after_packets env n s)),
          packets_sent data_frame 0 k n (
              sent
                (frame_between env c d connection_management 6 (offset_bytes n k (session_pgn s)))
                true
              ∷ log),
        )
    unfolding update_state_machine transmit_segment segment_done get_data_length
        send_data_packet_offset
    extended_segment_sent n k s log h =
        let (run, cleared) =
          send_packets-IsCleared n 0 k s
            (sent (frame_between env c d connection_management 6 (data_packet_offset_bytes s)) true
              ∷ log)
            h in
        let rounds : s.packet_count - s.last_packet ≡ n = omega (arith, h) in
        ground (
          arith,
          h.state,
          h.source,
          h.destination,
          h.last,
          rounds,
          send_frame-frame_between connection_management 6 (omega arith) (omega arith) (omega arith)
              (omega arith) (data_packet_offset_bytes s) (eight_offset s) log,
          run,
          cleared,
          data_packet_offset_bytes_lem s h.segment,
          h.processed,
          h.count,
        )
