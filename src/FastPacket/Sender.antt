-- ===== src/FastPacket/Sender.antt =====
-- What the sender of nmea2000_fast_packet_protocol.cpp puts on the bus.
use iso11783_can_stack.Prelude.{
  ℕ, zero, suc, ◌+◌, ◌*◌, ◌-◌, ◌≤◌, ◌<◌, ◌≡◌, ◌≢◌, refl, true, some, none, List, ◌∷◌, u8, arith,
  length, take, min,
}
use iso11783_can_stack.ControlFunction.{get_address_valid}
use iso11783_can_stack.Message.{get_data_length}
use iso11783_can_stack.Identifier.{encode, extended, get_priority}
use iso11783_can_stack.Identifier.Fields.{encode_pdu2}
use iso11783_can_stack.Network.{
  Env, Log, Frame, sent, send_can_message, send_can_message_raw, default_identifier,
}
use iso11783_can_stack.Network.Frames.{construct_frame-encode}
use iso11783_can_stack.Transport.{send_frame}
use iso11783_can_stack.Transport.Transmit.{payload_from}
use iso11783_can_stack.FastPacket.{
  FastPacketProtocolSession, FastPacketHistory, transmit, session_pgn,
  process_session_complete_callback, add_session_history,
}
use iso11783_can_stack.FastPacket.Transmit.{
  frame_data, frame_bytes, tx_packet_count, send_frames, ended, after_frame, frames_done,
  update_state_machine, bytes_left,
}
use iso11783_can_stack.FastPacket.Frames.{
  fast_frame, counter_byte_lem, take-payload_from, take-drop-payload_from,
}

-- The log after frames `k`, `k + 1`, … were sent, `n` of them.
unfoldable pub frames_sent : (ℕ → Frame) → ℕ → ℕ → Log → Log
frames_sent frame k zero log = log
frames_sent frame k (suc n) log = frames_sent frame (k + 1) n (sent (frame k) true ∷ log)

-- A sending session that has sent the first `k` frames of a message, and has still to send `j`.
pub record HasSent (message : List ℕ) (pgn p c k j : ℕ) (s : FastPacketProtocolSession)
    : Type 0 where
  pub direction : s.direction ≡ transmit
  pub own_bytes : s.chunk_callback ≡ none
  pub buffered : s.message.callback_message_size ≡ 0
  pub bytes : s.message.bytes ≡ message
  pub source : s.message.source ≡ some c
  pub destination : s.message.destination ≡ none
  pub own_pgn : session_pgn s ≡ pgn
  pub priority : get_priority s.message.identifier ≡ p
  pub processed : s.processed_packets ≡ k
  pub count : s.packet_count ≡ tx_packet_count (length message)
  pub left : k + j ≡ s.packet_count + 1

pub tx_packet_count_bounds :
    (len : ℕ)
    → 6 ≤ len
    → len ≤ 222
    → (tx_packet_count len ≤ 31)
      × (7 * tx_packet_count len ≤ len + 1)
      × (len ≤ 7 * tx_packet_count len + 7)
tx_packet_count_bounds len lo hi = ground arith

frame_data-fast_frame :
    (env : Env) (uninitialized : ℕ) (message : List ℕ) (pgn p c k j : ℕ)
    (s : FastPacketProtocolSession)
    → HasSent message pgn p c k (suc j) s
    → 6 ≤ length message
    → length message ≤ 222
    → frame_data env uninitialized s ≡ frame_bytes (fast_frame message s.sequence_number k)
unfolding frame_data fast_frame get_data_length
frame_data-fast_frame env uninitialized message pgn p c zero j s h lo hi =
    ground (arith, h, counter_byte_lem 0 s.sequence_number, take-drop-payload_from 6 0 message)
frame_data-fast_frame env uninitialized message pgn p c (suc k) j s h lo hi =
    let bounds = tx_packet_count_bounds (length message) lo hi in
    let many : suc k < 32 = omega (arith, h, bounds) in
    let left : bytes_left s ≡ min 7 (length message - (6 + 7 * k)) = ground (arith, h, bounds) in
    ground (
      arith,
      h,
      counter_byte_lem (suc k) s.sequence_number,
      take-payload_from 7 7 (bytes_left s) (6 + 7 * k) message,
    )

length-fast_frame :
    (message : List ℕ) (sequence k : ℕ)
    → take 8 (fast_frame message sequence k) ≡ fast_frame message sequence k
unfolding fast_frame payload_from
length-fast_frame message sequence zero = refl
length-fast_frame message sequence (suc k) = refl

module _ (env : Env) where
  -- The frame that carries bytes of a message from `c` to all.
  unfoldable pub bus_frame : ℕ → ℕ → ℕ → List ℕ → Frame
  bus_frame pgn p c bytes = record {
    identifier = encode extended pgn p 0xFF (env.cf c).address;
    channel = u8 (env.cf c).port;
    bytes = bytes;
    is_extended = true;
  }

  -- The session after `n` more frames.
  unfoldable pub after_frames : ℕ → FastPacketProtocolSession → FastPacketProtocolSession
  after_frames zero s = s
  after_frames (suc n) s = after_frames n (after_frame env s)

after_frame-HasSent :
    (env : Env) (message : List ℕ) (pgn p c k j : ℕ) (s : FastPacketProtocolSession)
    → HasSent message pgn p c k (suc j) s
    → 6 ≤ length message
    → length message ≤ 222
    → HasSent message pgn p c (k + 1) j (after_frame env s)
unfolding session_pgn
after_frame-HasSent env message pgn p c k j s h lo hi =
    ground (arith, h, tx_packet_count_bounds (length message) lo hi)

-- The PGNs of the protocol.
abbrev pub IsFastPgn : ℕ → Type 0
IsFastPgn pgn = (0x1F000 ≤ pgn) × (pgn ≤ 0x1FFFF)

module _ (env : Env) (open_bus : (log : Log) (f : Frame) → env.accepts log f ≡ true)
    (message : List ℕ) (pgn p c : ℕ) (fast : IsFastPgn pgn) (priority : p < 8)
    (port : (env.cf c).port < 4) (mine : (env.cf c).address < 0xFE) where
  bus_frame-identifier :
      (bytes : List ℕ) → default_identifier ≢ (bus_frame env pgn p c bytes).identifier
  unfolding bus_frame
  bus_frame-identifier bytes = ground (
    arith,
    encode_pdu2 pgn p 0xFF (env.cf c).address (omega arith) priority (omega arith) (omega arith)
        (omega arith),
  )

  send_frame-bus_frame :
      (bytes : List ℕ) (log : Log)
      → take 8 bytes ≡ bytes
      → send_frame env pgn p bytes (some c) none log
        ≡ (true, sent (bus_frame env pgn p c bytes) true ∷ log)
  unfolding send_frame send_can_message send_can_message_raw get_address_valid bus_frame
  send_frame-bus_frame bytes log whole = ground (
    arith,
    construct_frame-encode (env.cf c).address 0xFF pgn p (omega arith) (omega arith) (omega arith)
        (omega arith) (env.cf c).port 8 bytes (omega arith) (omega arith),
    bus_frame-identifier bytes,
    open_bus log (bus_frame env pgn p c bytes),
    port,
    mine,
    whole,
  )

  abbrev frames : ℕ → ℕ → Frame
  frames sequence k = bus_frame env pgn p c (fast_frame message sequence k)

  send_frames-HasSent :
      (uninitialized j k : ℕ) (s : FastPacketProtocolSession) (log : Log)
      → 6 ≤ length message
      → length message ≤ 222
      → HasSent message pgn p c k j s
      → (send_frames env uninitialized j s log
          ≡ ended (after_frames env j s) (frames_sent (frames s.sequence_number) k j log))
        × HasSent message pgn p c (j + k) 0 (after_frames env j s)
        × ((after_frames env j s).sequence_number ≡ s.sequence_number)
  unfolding send_frames frames_sent after_frames
  send_frames-HasSent uninitialized zero k s log lo hi h = (refl, ground (arith, h), refl)
  send_frames-HasSent uninitialized (suc j) k s log lo hi h =
      let next = after_frame-HasSent env message pgn p c k j s h lo hi in
      let (sent_rest, rest, same) =
        send_frames-HasSent uninitialized j (k + 1) (after_frame env s)
          (sent (frames s.sequence_number k) true ∷ log) lo hi next in
      (
        ground (
          arith,
          frame_data-fast_frame env uninitialized message pgn p c k j s h lo hi,
          send_frame-bus_frame (fast_frame message s.sequence_number k) log
              (length-fast_frame message s.sequence_number k),
          h,
          sent_rest,
        ),
        ground (arith, rest),
        same,
      )

  -- A message of 6 to 222 bytes to all, of a PGN of the protocol, in a session that has sent
  -- nothing yet, on a bus that takes every frame: one update sends exactly the frames of the
  -- message, in order, from frame 0 to the one with the number of the packet count; the session
  -- ends with success, and the next sequence number of the NAME and PGN goes to the history.
  pub message_sent :
      (uninitialized : ℕ) (s : FastPacketProtocolSession) (history : List FastPacketHistory)
      (log : Log)
      → 6 ≤ length message
      → length message ≤ 222
      → HasSent message pgn p c 0 (s.packet_count + 1) s
      → update_state_machine env uninitialized s history log ≡ (
        none,
        add_session_history (env.cf c).name pgn s.sequence_number history,
        process_session_complete_callback env
            (after_frames env (s.packet_count + 1) s)
            true
            (frames_sent (frames s.sequence_number) 0 (s.packet_count + 1) log),
      )
  unfolding update_state_machine frames_done
  message_sent uninitialized s history log lo hi h =
      let (run, rest, same) =
        send_frames-HasSent uninitialized (s.packet_count + 1) 0 s log lo hi h in
      ground (arith, h, run, rest, same)
