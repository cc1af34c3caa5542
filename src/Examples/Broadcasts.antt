-- ===== src/Examples/Broadcasts.antt =====
-- Runs of the transport protocol's broadcasts and of its bookkeeping.
use iso11783_can_stack.Prelude.{
  ℕ, ◌≡◌, refl, inl, true, some, none, [], ◌∷◌, ◌≤◌, ◌<◌, arith, ◌+◌, ◌*◌, ◌==◌, if◌then◌else◌,
}
use iso11783_can_stack.Message.{CanMessage, new, set_data, get_data_length}
use iso11783_can_stack.Identifier.{encode, get_parameter_group_number}
use iso11783_can_stack.Network.{
  TxRequest, Frame, sent, send_can_message, send_can_message_raw, construct_frame, frame_identifier,
  fault, use_after_free, delivered,
}
use iso11783_can_stack.Transport.{
  Session, Manager, get_session, session_pgn, new_session, send_frame, tx_data_session,
  process_session_complete_callback, get_session_of_pgn,
}
use iso11783_can_stack.Transport.Frames.{announce_bytes}
use iso11783_can_stack.Transport.Receive.{process_message}
use iso11783_can_stack.Transport.Transmit.{
  tx_session, payload_from, update_state_machine, after_packet, protocol_transmit_message,
}
use iso11783_can_stack.Transport.Broadcast.{HasSent, broadcast_step}
use iso11783_can_stack.Transport.Requests.{accepted_covers}
use iso11783_can_stack.Timing.{time_expired_ms}
use iso11783_can_stack.ControlFunction.{get_address_valid}
use iso11783_can_stack.Transport.Reassembly.{packet, IsPacket, receive_from}
use iso11783_can_stack.Transport.Announce.{broadcast_transfer}
use iso11783_can_stack.Examples.{bus, nine_bytes}

abbrev request : TxRequest
request = record {
  pgn = 0xFEEC;
  buffer = some nine_bytes;
  length = 9;
  source = some 0;
  destination = none;
  complete_callback = none;
  chunk_callback = none;
}

abbrev nobody : Manager
nobody = record { sessions = []; log = [] }

abbrev announcement : CanMessage
announcement = record {
  bytes = 0x20 ∷ 9 ∷ 0 ∷ 2 ∷ 0xFF ∷ 0xEC ∷ 0xFE ∷ 0 ∷ [];
  source = some 0;
  destination = none;
  identifier = 0x18EC_FF1C;
  port = 0;
  callback_message_size = 0;
}

abbrev data_frame : ℕ → CanMessage
data_frame k = record announcement { bytes = packet nine_bytes k; identifier = 0x1CEB_FF1C }

data_frame-IsPacket : (k : ℕ) → IsPacket nine_bytes (some 0) k (data_frame k)
unfolding get_parameter_group_number
data_frame-IsPacket k = record { pgn = refl; from = refl; to_all = refl; carries = refl }

is_announcement : announcement.bytes ≡ announce_bytes 0x20 (tx_session (bus 0) request 0)
unfolding announce_bytes tx_session session_pgn get_data_length set_data encode
    get_parameter_group_number new_session new
is_announcement = refl

is_command : get_parameter_group_number announcement.identifier ≡ 0xEC00
unfolding get_parameter_group_number
is_command = refl

no_session : get_session nobody.sessions (some 0) none ≡ none
unfolding get_session
no_session = refl

broadcast_transfer_example :
    (got : CanMessage) × (receive_from
        (λ k. bus (k * 50))
        data_frame
        2
        0
        (process_message (bus 1000) announcement nobody)
      ≡ record { sessions = []; log = fault use_after_free ∷ delivered got ∷ [] })
    × (got.bytes ≡ nine_bytes)
    × (got.source ≡ some 0)
    × (get_parameter_group_number got.identifier ≡ 0xFEEC)
broadcast_transfer_example =
    broadcast_transfer (bus 0) request nine_bytes 0 refl refl (omega arith) refl
      (omega arith, omega arith, inl (omega arith)) (omega arith) (bus 1000) announcement nobody 0
      is_command is_announcement refl refl refl no_session (omega arith) (λ k. bus (k * 50))
      data_frame data_frame-IsPacket 1 (omega arith) (omega arith)

-- What the sender sends at each update.
abbrev sending : Session
sending = record (tx_session (bus 0) request 0) { state = tx_data_session }

sending-HasSent : HasSent nine_bytes 2 0 sending
unfolding tx_session new_session set_data new
sending-HasSent = record {
  state = refl;
  own_bytes = refl;
  buffered = refl;
  bytes = refl;
  last = refl;
  processed = refl;
  count = refl;
  enough = omega arith;
  needed = omega arith;
  byte_wide = omega arith;
}

abbrev first_frame : Frame
first_frame = record {
  identifier = 0x1CEB_FF1C;
  channel = 0;
  bytes = 1 ∷ 1 ∷ 2 ∷ 3 ∷ 4 ∷ 5 ∷ 6 ∷ 7 ∷ [];
  is_extended = true;
}

sending-to_all : sending.message.destination ≡ none
unfolding tx_session
sending-to_all = refl

is_due : time_expired_ms 60 sending.timestamp 50 ≡ true
unfolding time_expired_ms tx_session
is_due = refl

is_sent :
    send_frame (bus 60) 0xEB00 7 (packet nine_bytes 0) sending.message.source none []
    ≡ (true, sent first_frame true ∷ [])
unfolding send_frame send_can_message send_can_message_raw construct_frame frame_identifier
    get_address_valid payload_from tx_session
is_sent = refl

broadcast_step_example : update_state_machine (bus 60) sending [] ≡ (
    if 0 + 1 == 2
    then (
      none,
      process_session_complete_callback
          (bus 60)
          (after_packet (bus 60) sending)
          true
          (sent first_frame true ∷ []),
    )
    else (some (after_packet (bus 60) sending), sent first_frame true ∷ []))
broadcast_step_example =
    broadcast_step (bus 60) nine_bytes 2 0 sending sending-HasSent (omega arith) []
      (sent first_frame true ∷ []) sending-to_all is_due is_sent

-- What is accepted.
is_accepted : (protocol_transmit_message (bus 0) request nobody).0 ≡ true
unfolding protocol_transmit_message get_address_valid get_session_of_pgn get_session
is_accepted = refl

accepted_covers_example :
    ((protocol_transmit_message (bus 0) request nobody).1
      ≡ record { sessions = tx_session (bus 0) request 0 ∷ []; log = [] })
    × (8 < 9)
    × (9 ≤ 1785)
    × (9 ≤ 7 * (tx_session (bus 0) request 0).packet_count)
    × (7 * (tx_session (bus 0) request 0).packet_count < 9 + 7)
    × ((tx_session (bus 0) request 0).packet_count ≤ 255)
accepted_covers_example = accepted_covers (bus 0) request 0 nobody refl is_accepted
