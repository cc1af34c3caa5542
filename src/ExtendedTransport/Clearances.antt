-- ===== src/ExtendedTransport/Clearances.antt =====
-- How many packets a clearance of can_extended_transport_protocol.cpp asks for, and how many the
-- receiver then takes.
use iso11783_can_stack.Prelude.{
  ℕ, ◌+◌, ◌*◌, ◌-◌, ◌/◌, ◌^◌, ◌≤◌, ◌<◌, ◌≡◌, refl, true, some, ◌∷◌, if◌then◌else◌, arith, set, ltb,
  take,
}
use iso11783_can_stack.ControlFunction.{internal}
use iso11783_can_stack.Message.{CanMessage, get_data_length}
use iso11783_can_stack.Identifier.{get_parameter_group_number}
use iso11783_can_stack.Network.{
  Env, Log, Frame, fault, use_after_free, sent, get_internal_control_function,
}
use iso11783_can_stack.Transport.Announce.{pgn_bytes-join}
use iso11783_can_stack.ExtendedTransport.{
  ExtendedTransportProtocolSession, ExtendedTransportProtocolManager, get_session,
  get_session_of_pgn, session_pgn, set_state, clear_to_send, tx_data_session,
  wait_for_clear_to_send, wait_for_extended_data_packet_offset, erase, connection_management,
}
use iso11783_can_stack.ExtendedTransport.Frames.{
  packet_max, expecting, clear_to_send_bytes, data_packet_offset_bytes, send_clear_to_send,
}
use iso11783_can_stack.ExtendedTransport.Receive.{
  process_message, process_command, process_clear_to_send, clear_to_send_for,
}
use iso11783_can_stack.ExtendedTransport.Transmit.{update_state_machine}
use iso11783_can_stack.ExtendedTransport.Segment.{frame_between, send_frame-frame_between}
use iso11783_can_stack.ExtendedTransport.Offsets.{IsOpen, abort_frame, offset_received}

-- How many packets of a message are left, and 255 where there are more.
abbrev pub packets_left : ExtendedTransportProtocolSession → ℕ
packets_left s =
    let left = (get_data_length s.message + 6) / 7 - s.processed_packets in
    if ltb 255 left then 255 else left

module _ (b : ExtendedTransportProtocolSession) (size : get_data_length b.message < 2 ^ 32)
    (unfinished : 7 * b.processed_packets < get_data_length b.message) where
  packet_max_lem : packet_max b ≡ packets_left b
  unfolding packet_max
  packet_max_lem = ground arith

  packets_left-le : packets_left b ≤ 255
  packets_left-le = ground arith

-- The receiver once it has sent its clearance, and the sender once it has got it.
abbrev pub waiting : Env → ExtendedTransportProtocolSession → ExtendedTransportProtocolSession
waiting env b = record b { state = wait_for_extended_data_packet_offset; timestamp = env.now }

abbrev pub cleared_for :
    Env → ℕ → ExtendedTransportProtocolSession → ExtendedTransportProtocolSession
cleared_for env n a = record a {
  packet_count = n;
  last_packet = 0;
  state = tx_data_session;
  timestamp = env.now;
}

eight :
    (s : ExtendedTransportProtocolSession) → take 8 (clear_to_send_bytes s) ≡ clear_to_send_bytes s
unfolding clear_to_send_bytes
eight s = refl

-- The receiver `d` of a message from `c` is about to clear packets, and expects fewer of them than
-- are left.
module _ (env : Env) (open_bus : (log : Log) (f : Frame) → env.accepts log f ≡ true) (c d : ℕ)
    (port : (env.cf d).port < 4) (mine : (env.cf d).address < 0xFE)
    (theirs : (env.cf c).address < 0xFE) (ours : (env.cf d).type ≡ internal)
    (b : ExtendedTransportProtocolSession) (clears : b.state ≡ clear_to_send)
    (b_from : b.message.source ≡ some c) (b_to : b.message.destination ≡ some d)
    (pgn : session_pgn b < 2 ^ 24) (size : get_data_length b.message < 2 ^ 32)
    (unfinished : 7 * b.processed_packets < get_data_length b.message)
    (fewer : b.packet_count < packets_left b) where
  clearance_sent :
      (log : Log)
      → update_state_machine env b log ≡ (
        some (waiting env b),
        sent (frame_between env d c connection_management 6 (clear_to_send_bytes b)) true ∷ log,
      )
  unfolding update_state_machine send_clear_to_send expecting set_state
  clearance_sent log = ground (
    arith,
    clears,
    b_from,
    b_to,
    fewer,
    packet_max_lem b size unfinished,
    send_frame-frame_between env open_bus d c port mine theirs connection_management 6 (omega arith)
        (omega arith) (omega arith) (omega arith) (clear_to_send_bytes b) (eight b) log,
  )

  -- The sender's node, with a session that waits for a clearance of the same message.
  module _ (env' : Env) (source_ours : (env'.cf c).type ≡ internal)
      (a : ExtendedTransportProtocolSession) (waits : a.state ≡ wait_for_clear_to_send)
      (same_pgn : session_pgn a ≡ session_pgn b) (j : ℕ) (t' : ExtendedTransportProtocolManager)
      (a_found : get_session t'.sessions (some c) (some d) ≡ some (j, a))
      (offset : a.processed_packets < 2 ^ 24) (clearance : CanMessage)
      (is_command : get_parameter_group_number clearance.identifier ≡ connection_management)
      (carries : clearance.bytes ≡ clear_to_send_bytes b) (from : clearance.source ≡ some d)
      (to : clearance.destination ≡ some c) where
    clearance_received :
        process_message env' clearance t'
        ≡ record t' { sessions = set t'.sessions j (cleared_for env' (packets_left b) a) }
    unfolding process_message process_command process_clear_to_send clear_to_send_for
        get_session_of_pgn get_internal_control_function clear_to_send_bytes
    clearance_received = ground (
      arith,
      is_command,
      carries,
      from,
      to,
      source_ours,
      waits,
      same_pgn,
      a_found,
      packet_max_lem b size unfinished,
      packets_left-le b size unfinished,
      pgn_bytes-join (session_pgn b) pgn,
    )

    -- A receiver that expects fewer packets than are left of a message and than 255, as it does
    -- after a data packet offset with fewer packets than it had cleared, with a session without a
    -- callback, between two valid addresses on a bus that takes every frame: its next clearance
    -- asks for all the packets that are left, 255 at most, but it goes on to expect the smaller
    -- number; the sender of the message, which waits for the clearance, is then cleared for the
    -- packets that were asked for; and when the sender's data packet offset comes back with that
    -- number, the receiver drops the session, sends an abort with the reason 11 (more packets than
    -- cleared), and writes to the deleted session, which is a fault.
    pub full_answer_refused :
        (log : Log) (later i : ℕ) (t : ExtendedTransportProtocolManager) (m : CanMessage)
        → let full = cleared_for env' (packets_left b) a in
          get_parameter_group_number m.identifier ≡ connection_management
          → m.bytes ≡ data_packet_offset_bytes full
          → m.source ≡ some c
          → m.destination ≡ some d
          → IsOpen c d i t (waiting env b)
          → (update_state_machine env b log ≡ (
            some (waiting env b),
            sent (frame_between env d c connection_management 6 (clear_to_send_bytes b)) true ∷ log,
          ))
            × (process_message env' clearance t' ≡ record t' { sessions = set t'.sessions j full })
            × (process_message (record env { now = later }) m t ≡ record {
              sessions = erase t.sessions i;
              log =
                  fault use_after_free ∷ sent (abort_frame env d c 11 (session_pgn b)) true ∷ t.log;
            })
    unfolding session_pgn
    full_answer_refused log later i t m command offset_bytes m_from m_to is_open =
        let full = cleared_for env' (packets_left b) a in
        let received =
          offset_received (record env { now = later }) open_bus c d port mine theirs ours full
            (waiting env b) same_pgn pgn (omega (arith, packets_left-le b size unfinished)) offset i
            t m command offset_bytes m_from m_to is_open in
        (clearance_sent log, clearance_received, ground (arith, received, fewer, same_pgn))
