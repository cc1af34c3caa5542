-- ===== src/Transport/Broadcast.antt =====
-- What the sender of can_transport_protocol.cpp puts on the bus for a broadcast session.
use iso11783_can_stack.Prelude.{
  ℕ, zero, suc, ◌+◌, ◌*◌, ◌-◌, ◌^◌, ◌≤◌, ◌<◌, ◌≡◌, true, some, none, List, ◌==◌, if◌then◌else◌, u8,
  arith, length,
}
use iso11783_can_stack.Timing.{time_expired_ms}
use iso11783_can_stack.Message.{get_data_length}
use iso11783_can_stack.Network.{Env, Log}
use iso11783_can_stack.Transport.{
  Session, tx_data_session, process_session_complete_callback, send_frame, transport_protocol_data,
}
use iso11783_can_stack.Transport.Transmit.{
  packet_bytes, send_packets, transmit_segment, update_state_machine, after_packet, segment_done,
  close,
}
use iso11783_can_stack.Transport.Reassembly.{packet}

-- A session that has sent the first `k` of the `n` packets of a message.
pub record HasSent (message : List ℕ) (n k : ℕ) (s : Session) : Type 0 where
  pub state : s.state ≡ tx_data_session
  pub own_bytes : s.chunk_callback ≡ none
  pub buffered : s.message.callback_message_size ≡ 0
  pub bytes : s.message.bytes ≡ message
  pub last : s.last_packet ≡ k
  pub processed : s.processed_packets ≡ k
  pub count : s.packet_count ≡ n
  pub enough : length message ≤ 7 * n
  pub needed : 7 * n < length message + 7
  pub byte_wide : n < 2 ^ 8

module _ (env : Env) (message : List ℕ) (n k : ℕ) (s : Session) (h : HasSent message n k s)
    (more : k < n) where
  packet_bytes-packet : packet_bytes env s ≡ some (packet message k)
  unfolding packet_bytes get_data_length
  packet_bytes-packet = ground (arith, h)

  module _ (log log' : Log) (to_all : s.message.destination ≡ none)
      (due : time_expired_ms env.now s.timestamp env.bam_delay ≡ true)
      (taken : send_frame env transport_protocol_data 7 (packet message k) s.message.source none log
        ≡ (true, log')) where
    send_packets_one :
        (rounds : ℕ)
        → 0 < rounds
        → send_packets env rounds s log ≡ (some (after_packet env s), log')
    unfolding send_packets
    send_packets_one zero h = absurd (omega arith)
    send_packets_one (suc rounds) h = ground (arith, packet_bytes-packet, to_all, taken)

    -- A broadcast session that has sent the first `k` of its `n` packets, when the time between
    -- frames has passed and the bus takes the next one: one update sends exactly packet `k`,
    -- with its number and its seven bytes of the message (0xFF past the end), and the session is
    -- closed with success if that was the last one, and is otherwise kept for the packets left.
    pub broadcast_step : update_state_machine env s log ≡ (
        if k + 1 == n
        then (none, process_session_complete_callback env (after_packet env s) true log')
        else (some (after_packet env s), log'))
    unfolding update_state_machine transmit_segment segment_done close get_data_length
    broadcast_step = ground (
      arith,
      h,
      to_all,
      due,
      send_packets_one (s.packet_count - u8 s.last_packet) (omega (arith, h)),
    )
