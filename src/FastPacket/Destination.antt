-- ===== src/FastPacket/Destination.antt =====
-- Messages of nmea2000_fast_packet_protocol.cpp that name a destination.
use iso11783_can_stack.Prelude.{
  ℕ, suc, ◌+◌, ◌-◌, ◌≤◌, ◌<◌, ◌≡◌, false, some, none, List, ◌∷◌, if◌then◌else◌, arith, length, u8,
  take,
}
use iso11783_can_stack.ControlFunction.{get_address_valid}
use iso11783_can_stack.Timing.{time_expired_ms}
use iso11783_can_stack.Message.{get_data_length}
use iso11783_can_stack.Identifier.{get_priority}
use iso11783_can_stack.Network.{Env, Log, send_can_message, send_can_message_raw, empty_frame}
use iso11783_can_stack.Network.Frames.{construct_frame-encode}
use iso11783_can_stack.Transport.{send_frame}
use iso11783_can_stack.FastPacket.{
  FastPacketProtocolSession, FastPacketHistory, transmit, session_pgn,
  process_session_complete_callback,
}
use iso11783_can_stack.FastPacket.Transmit.{
  Outcome, frame_data, frame_bytes, tx_packet_count, send_frames, refused, frames_done,
  update_state_machine, counter_byte,
}
use iso11783_can_stack.FastPacket.Sender.{IsFastPgn, tx_packet_count_bounds}

-- No frame carries a destination beside a PGN of the protocol.
send_frame_refused :
    (env : Env) (c d p pgn : ℕ) (bytes : List ℕ) (log : Log)
    → IsFastPgn pgn
    → p < 8
    → (env.cf c).address < 0xFE
    → (env.cf d).address < 0xFE
    → send_frame env pgn p bytes (some c) (some d) log ≡ (false, log)
unfolding send_frame send_can_message send_can_message_raw get_address_valid empty_frame
send_frame_refused env c d p pgn bytes log fast priority mine theirs = ground (
  arith,
  construct_frame-encode (env.cf c).address (env.cf d).address pgn p (omega arith) (omega arith)
      (omega arith) (omega arith) (env.cf c).port 8 bytes (omega arith) (omega arith),
  mine,
  theirs,
)

-- A sending session with a destination.
pub record NamesDestination (env : Env) (c d : ℕ) (s : FastPacketProtocolSession) : Type 0 where
  pub sends : s.direction ≡ transmit
  pub own_bytes : s.chunk_callback ≡ none
  pub new : s.processed_packets ≡ 0
  pub from : s.message.source ≡ some c
  pub to : s.message.destination ≡ some d
  pub fast : IsFastPgn (session_pgn s)
  pub priority : get_priority s.message.identifier < 8
  pub mine : (env.cf c).address < 0xFE
  pub theirs : (env.cf d).address < 0xFE
  pub lo : 8 ≤ length s.message.bytes
  pub hi : length s.message.bytes ≤ 222
  pub count : s.packet_count ≡ tx_packet_count (length s.message.bytes)

abbrev first_bytes : FastPacketProtocolSession → List ℕ
first_bytes s = counter_byte s ∷ u8 (get_data_length s.message) ∷ take 6 s.message.bytes

frame_data-first :
    (env : Env) (uninitialized c d : ℕ) (s : FastPacketProtocolSession)
    → NamesDestination env c d s
    → frame_data env uninitialized s ≡ frame_bytes (first_bytes s)
unfolding frame_data
frame_data-first env uninitialized c d s h = ground (arith, h.own_bytes, h.new, h.lo)

send_frames-refused :
    (env : Env) (uninitialized c d rounds : ℕ) (s : FastPacketProtocolSession) (log : Log)
    → NamesDestination env c d s
    → send_frames env uninitialized (suc rounds) s log ≡ refused env s log
unfolding send_frames
send_frames-refused env uninitialized c d rounds s log h = ground (
  arith,
  frame_data-first env uninitialized c d s h,
  h.from,
  h.to,
  send_frame_refused env c d (get_priority s.message.identifier) (session_pgn s) (first_bytes s) log
      h.fast h.priority h.mine h.theirs,
)

-- A session of a message of 8 to 222 bytes, of a PGN of the protocol, that names a destination with
-- an address, and has sent nothing yet: whatever the bus takes, one update sends nothing,
-- since no frame carries a destination beside such a PGN; the session is kept as it is, or, 750 ms
-- after its start, closed as a failure.
pub destination_never_sent :
    (env : Env) (uninitialized c d : ℕ) (s : FastPacketProtocolSession)
    (history : List FastPacketHistory) (log : Log)
    → NamesDestination env c d s
    → update_state_machine env uninitialized s history log ≡ (
        if◌then◌else◌ {A = Outcome}
          (time_expired_ms env.now s.timestamp 750)
          (none, history, process_session_complete_callback env s false log)
          (some s, history, log))
unfolding update_state_machine frames_done refused
destination_never_sent env uninitialized c d s history log h =
    let bounds = tx_packet_count_bounds (length s.message.bytes) (omega (arith, h.lo)) h.hi in
    let rounds : s.packet_count + 1 - s.processed_packets ≡ suc s.packet_count =
      omega (arith, h.new) in
    ground (
      arith,
      h.sends,
      h.new,
      h.count,
      h.lo,
      bounds,
      rounds,
      send_frames-refused env uninitialized c d s.packet_count s log h,
    )
