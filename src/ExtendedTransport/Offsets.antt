-- ===== src/ExtendedTransport/Offsets.antt =====
-- The data packet offsets of can_extended_transport_protocol.cpp, between the node that sends a
-- message and the one that receives it.
use iso11783_can_stack.Prelude.{
  ℕ, ◌+◌, ◌*◌, ◌/◌, ◌%◌, ◌^◌, ◌<◌, ◌≡◌, refl, true, some, none, [], ◌∷◌, if◌then◌else◌, arith, set,
  ◌==◌, leb,
}
use iso11783_can_stack.Bits.{bit_and_ones}
use iso11783_can_stack.ControlFunction.{internal}
use iso11783_can_stack.Message.{CanMessage}
use iso11783_can_stack.Identifier.{get_parameter_group_number}
use iso11783_can_stack.Identifier.Fields.{encode_pdu1}
use iso11783_can_stack.Network.{
  Env, Log, Frame, fault, use_after_free, sent, get_internal_control_function,
}
use iso11783_can_stack.Transport.Announce.{pgn_bytes-join}
use iso11783_can_stack.Transport.Receive.{byte}
use iso11783_can_stack.ExtendedTransport.{
  ExtendedTransportProtocolSession, ExtendedTransportProtocolManager, get_session,
  get_session_of_pgn, session_pgn, set_state, rx_data_session, erase, close_session, receive,
  process_session_complete_callback, abort_session, abort_ends, connection_management, abort_bytes,
  ConnectionAbortReason, reason_value, edpo_number_of_packets_greater_than_clear_to_send,
  bad_edpo_offset,
}
use iso11783_can_stack.ExtendedTransport.Frames.{data_packet_offset_bytes}
use iso11783_can_stack.ExtendedTransport.Receive.{
  process_message, process_command, process_data_packet_offset, offset_for, offset_of,
  abort_and_close,
}
use iso11783_can_stack.ExtendedTransport.Segment.{
  frame_between, send_frame-frame_between, three_bytes_lem,
}

-- The frame with which `d` aborts a session with `c`: of PGN 0xC800 and priority 7, with a reason and
-- the PGN of the message.
abbrev pub abort_frame : Env → ℕ → ℕ → ℕ → ℕ → Frame
abort_frame env d c reason pgn = record {
  identifier = 0x1CC8_0000 + (env.cf c).address * 2 ^ 8 + (env.cf d).address;
  channel = (env.cf d).port;
  bytes =
      0xFF ∷ reason ∷ 0xFF ∷ 0xFF ∷ 0xFF ∷ pgn % 2 ^ 8 ∷ pgn / 2 ^ 8 % 2 ^ 8 ∷ pgn / 2 ^ 16 ∷ [];
  is_extended = true;
}

-- A session that `d` has open for a message from `c`, at a place of its table.
pub record IsOpen (c d i : ℕ) (t : ExtendedTransportProtocolManager)
    (s : ExtendedTransportProtocolSession) : Type 0 where
  pub found : get_session t.sessions (some c) (some d) ≡ some (i, s)
  pub source : s.message.source ≡ some c
  pub destination : s.message.destination ≡ some d
  pub direction : s.direction ≡ receive
  pub no_callback : s.complete_callback ≡ none

-- The receiver `d` and the sender `c`, as the receiver sees them.
module _ (env : Env) (open_bus : (log : Log) (f : Frame) → env.accepts log f ≡ true) (c d : ℕ)
    (port : (env.cf d).port < 4) (mine : (env.cf d).address < 0xFE)
    (theirs : (env.cf c).address < 0xFE) (ours : (env.cf d).type ≡ internal) where
  abort_session_lem :
      (s : ExtendedTransportProtocolSession) (reason : ConnectionAbortReason) (log : Log)
      → s.message.source ≡ some c
      → s.message.destination ≡ some d
      → s.direction ≡ receive
      → session_pgn s < 2 ^ 24
      → abort_session env s reason log
        ≡ sent (abort_frame env d c (reason_value reason) (session_pgn s)) true ∷ log
  unfolding abort_session abort_ends get_internal_control_function frame_between
  abort_session_lem s reason log from to receives small = ground (
    arith,
    from,
    to,
    receives,
    ours,
    send_frame-frame_between env open_bus d c port mine theirs connection_management 7 (omega arith)
        (omega arith) (omega arith) (omega arith) (abort_bytes (session_pgn s) reason) refl log,
    encode_pdu1 connection_management 7 (env.cf c).address (env.cf d).address (omega arith)
        (omega arith) (omega arith) (omega arith) (omega arith),
    three_bytes_lem (session_pgn s),
    small,
    port,
  )

  -- The abort and the close of a receiving session, for a frame from `c`.
  abort_and_close_lem :
      (m : CanMessage) (i : ℕ) (s : ExtendedTransportProtocolSession)
      (reason : ConnectionAbortReason) (t : ExtendedTransportProtocolManager)
      → m.source ≡ some c
      → s.message.source ≡ some c
      → s.message.destination ≡ some d
      → s.direction ≡ receive
      → s.complete_callback ≡ none
      → session_pgn s < 2 ^ 24
      → abort_and_close env m i s reason t ≡ record {
        sessions = erase t.sessions i;
        log = sent (abort_frame env d c (reason_value reason) (session_pgn s)) true ∷ t.log;
      }
  unfolding abort_and_close close_session process_session_complete_callback
  abort_and_close_lem m i s reason t m_from from to receives silent small =
      ground (arith, m_from, from, silent, abort_session_lem s reason t.log from to receives small)

  -- The sender's session, and the one of the receiver for the same message.
  module _ (a b : ExtendedTransportProtocolSession) (same_pgn : session_pgn a ≡ session_pgn b)
      (pgn : session_pgn b < 2 ^ 24) (count : a.packet_count < 2 ^ 8)
      (offset : a.processed_packets < 2 ^ 24) (i : ℕ) (t : ExtendedTransportProtocolManager)
      (m : CanMessage)
      (is_command : get_parameter_group_number m.identifier ≡ connection_management)
      (carries : m.bytes ≡ data_packet_offset_bytes a) (from : m.source ≡ some c)
      (to : m.destination ≡ some d) (open_for : IsOpen c d i t b) where
    offset_read : offset_of m ≡ a.processed_packets
    unfolding data_packet_offset_bytes
    offset_read = ground (arith, carries, pgn_bytes-join a.processed_packets offset)

    count_read : byte m 1 ≡ a.packet_count
    unfolding data_packet_offset_bytes
    count_read = ground (arith, carries, bit_and_ones 8 a.packet_count)

    process_message-offset : process_message env m t ≡ offset_for env m i b t
    unfolding process_message process_command process_data_packet_offset get_session_of_pgn
        get_internal_control_function data_packet_offset_bytes
    process_message-offset = ground (
      arith,
      is_command,
      carries,
      from,
      to,
      ours,
      same_pgn,
      pgn_bytes-join (session_pgn a) (ground (arith, same_pgn, pgn)),
      open_for.found,
    )

    -- The data packet offset that a sender sends for fewer than 256 packets, from a packet number
    -- of 24 bits, when the receiver has a session without a callback open for the message, between
    -- two valid addresses on a bus that takes every frame, on each branch: with at most as many
    -- packets as the receiver expects and from the packet that it has reached, it goes on to receive
    -- these packets, numbered from 1, and sends nothing; from another packet, it drops the session
    -- and sends one abort, with the reason 12 (bad offset) and the PGN of the message; with more
    -- packets than expected, it drops the session and sends one abort with the reason 11, and then
    -- writes to the deleted session, which is a fault.
    pub offset_received : process_message env m t ≡ (
        if leb a.packet_count b.packet_count
        then (if a.processed_packets == b.processed_packets
            then record t {
              sessions = set t.sessions i (record b {
                packet_count = a.packet_count;
                last_packet = 0;
                timestamp = env.now;
                state = rx_data_session;
              });
            }
            else record {
              sessions = erase t.sessions i;
              log = sent (abort_frame env d c 12 (session_pgn a)) true ∷ t.log;
            })
        else record {
          sessions = erase t.sessions i;
          log = fault use_after_free ∷ sent (abort_frame env d c 11 (session_pgn a)) true ∷ t.log;
        })
    unfolding offset_for set_state session_pgn
    offset_received =
        let close = λ (s : ExtendedTransportProtocolSession) (reason : ConnectionAbortReason).
          abort_and_close_lem m i s reason t from in
        ground (
          arith,
          process_message-offset,
          offset_read,
          count_read,
          same_pgn,
          close b edpo_number_of_packets_greater_than_clear_to_send open_for.source
              open_for.destination open_for.direction open_for.no_callback pgn,
          close (record b { packet_count = byte m 1 }) bad_edpo_offset open_for.source
              open_for.destination open_for.direction open_for.no_callback pgn,
        )
