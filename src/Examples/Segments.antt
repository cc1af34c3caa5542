-- ===== src/Examples/Segments.antt =====
-- Runs of the extended transport protocol. The theorems on its segments hold at any length, so the
-- message here is a short one.
use iso11783_can_stack.Prelude.{
  true, ℕ, ◌≡◌, ◌≤◌, ◌<◌, ◌+◌, ◌*◌, ◌^◌, ◌⊎◌, ◌==◌, refl, some, none, [], ◌∷◌, arith, is_some, leb,
  if◌then◌else◌,
}
use iso11783_can_stack.Message.{CanMessage, get_data_length}
use iso11783_can_stack.Identifier.{get_parameter_group_number}
use iso11783_can_stack.Network.{
  Env, sent, delivered, fault, use_after_free, get_internal_control_function,
}
use iso11783_can_stack.ExtendedTransport.{
  ExtendedTransportProtocolSession, ExtendedTransportProtocolManager, tx_data_session,
  rx_data_session, wait_for_clear_to_send, clear_to_send, wait_for_end_of_message_acknowledge,
  transmit, receive, set_state, connection_management, data_transfer, get_session, erase,
  session_pgn,
}
use iso11783_can_stack.ExtendedTransport.Frames.{
  data_packet_offset_bytes, send_end_of_session_acknowledgement, packet_max, clear_to_send_bytes,
}
use iso11783_can_stack.ExtendedTransport.Receive.{process_message}
use iso11783_can_stack.ExtendedTransport.Transmit.{update_state_machine}
use iso11783_can_stack.ExtendedTransport.Segment.{
  IsCleared, packet, packets_sent, after_packets, frame_between, extended_segment_sent,
  offset_bytes,
}
use iso11783_can_stack.ExtendedTransport.Steps.{IsPacket, receive_from}
use iso11783_can_stack.ExtendedTransport.Reception.{IsAt, extended_segment_received}
use iso11783_can_stack.ExtendedTransport.Offsets.{IsOpen, abort_frame, offset_received}
use iso11783_can_stack.ExtendedTransport.Clearances.{
  packets_left, waiting, cleared_for, full_answer_refused,
}
use iso11783_can_stack.ControlFunction.{internal}
use iso11783_can_stack.Examples.{bus, devices, nine_bytes}

abbrev cleared : ExtendedTransportProtocolSession
cleared = record {
  state = tx_data_session;
  message = record {
    bytes = nine_bytes;
    source = some 0;
    destination = some 1;
    identifier = 0x18EF_261C;
    port = 0;
    callback_message_size = 0;
  };
  complete_callback = none;
  chunk_callback = none;
  timestamp = 0;
  last_packet = 0;
  packet_count = 2;
  processed_packets = 0;
  direction = transmit;
}

cleared-IsCleared : IsCleared nine_bytes 0 1 0 0 2 cleared
cleared-IsCleared = record {
  state = refl;
  own_bytes = refl;
  buffered = refl;
  bytes = refl;
  source = refl;
  destination = refl;
  processed = refl;
  last = refl;
  count = omega arith;
  segment = omega arith;
  in_message = omega arith;
  size = omega arith;
}

extended_segment_sent_example : update_state_machine (bus 9) cleared [] ≡ (
  some (
      set_state
        (bus 9)
        (if leb 9 (7 * (0 + 2))
          then wait_for_end_of_message_acknowledge
          else wait_for_clear_to_send)
        (after_packets (bus 9) 2 cleared)),
  packets_sent
      (λ j k. frame_between (bus 9) 0 1 data_transfer 7 (packet nine_bytes j k))
      0
      0
      2
      (sent
          (frame_between
            (bus 9)
            0
            1
            connection_management
            6
            (offset_bytes 2 0 (session_pgn cleared)))
          true
        ∷ []),
)
extended_segment_sent_example =
    extended_segment_sent (bus 9) (λ log f. refl) 0 1 (omega arith) (omega arith) (omega arith)
      nine_bytes 2 0 cleared [] cleared-IsCleared

abbrev receiving : ExtendedTransportProtocolSession
receiving = record cleared {
  state = rx_data_session;
  message = record {
    bytes = 0 ∷ 0 ∷ 0 ∷ 0 ∷ 0 ∷ 0 ∷ 0 ∷ 0 ∷ 0 ∷ [];
    source = some 1;
    destination = some 0;
    identifier = 0x1CEF_1C26;
    port = 0;
    callback_message_size = 0;
  };
  direction = receive;
}

abbrev table : ExtendedTransportProtocolManager
table = record { sessions = receiving ∷ []; log = [] }

receiving-found : get_session table.sessions (some 1) (some 0) ≡ some (0, receiving)
unfolding get_session
receiving-found = refl

abbrev data_frame : ℕ → CanMessage
data_frame j = record {
  bytes = packet nine_bytes j (0 + j);
  source = some 1;
  destination = some 0;
  identifier = 0x1CC7_1C26;
  port = 0;
  callback_message_size = 0;
}

data_frame-IsPacket : (j : ℕ) → IsPacket nine_bytes (some 1) 0 j (0 + j) (data_frame j)
unfolding get_parameter_group_number
data_frame-IsPacket j = record { pgn = refl; from = refl; to = refl; carries = refl }

to_us : (j : ℕ) → is_some (get_internal_control_function (bus j) (some 0)) ≡ true
unfolding get_internal_control_function
to_us j = refl

receiving-IsAt :
    IsAt bus data_frame nine_bytes
      (some 1)
      0
      0
      data_frame-IsPacket
      to_us
      (omega arith)
      0
      0
      table
      receiving
receiving-IsAt = record {
  found = receiving-found;
  has_stored = record {
    state = refl;
    no_callback = refl;
    buffered = refl;
    last = refl;
    processed = refl;
    size = refl;
    stored = λ x h. absurd (omega arith);
  };
  from = refl;
  to = refl;
}

extended_segment_received_example :
    let got : CanMessage = record receiving.message { bytes = nine_bytes } in
    let end = receive_from bus data_frame 2 0 table in
    ((7 * (0 + 1 + 1) < 9)
      × (s' : ExtendedTransportProtocolSession) × IsAt bus data_frame nine_bytes
          (some 1)
          0
          0
          data_frame-IsPacket
          to_us
          (omega arith)
          (1 + 1)
          0
          end
          s'
      × (s'.packet_count ≡ 2))
    ⊎ ((9 ≤ 7 * (0 + 1 + 1))
        × (end ≡ record {
          sessions = erase table.sessions 0;
          log =
              fault use_after_free
              ∷ delivered got
              ∷ (send_end_of_session_acknowledgement
                  (bus 1)
                  (record receiving { message = got })
                  []).1;
        }))
extended_segment_received_example =
    extended_segment_received bus data_frame nine_bytes (some 1) 0 0 data_frame-IsPacket to_us
      (omega arith) 1 0 table receiving receiving-IsAt (omega arith) (omega arith)

-- An offset of 0 for 2 packets.
abbrev offset_frame : CanMessage
offset_frame = record {
  bytes = 0x16 ∷ 2 ∷ 0 ∷ 0 ∷ 0 ∷ 0 ∷ 0xEF ∷ 0 ∷ [];
  source = some 1;
  destination = some 0;
  identifier = 0x1CC8_1C26;
  port = 0;
  callback_message_size = 0;
}

receiving-pgn : session_pgn receiving ≡ 0xEF00
unfolding session_pgn get_parameter_group_number
receiving-pgn = refl

-- The session of the implement that offers these packets.
abbrev offering : ExtendedTransportProtocolSession
offering = record cleared { message = record receiving.message { bytes = nine_bytes } }

offering-pgn : session_pgn offering ≡ session_pgn receiving
unfolding session_pgn get_parameter_group_number
offering-pgn = refl

offer_bytes : offset_frame.bytes ≡ data_packet_offset_bytes offering
unfolding data_packet_offset_bytes session_pgn get_parameter_group_number
offer_bytes = refl

offer_command : get_parameter_group_number offset_frame.identifier ≡ 0xC800
unfolding get_parameter_group_number
offer_command = refl

receiving-IsOpen : IsOpen 1 0 0 table receiving
receiving-IsOpen = record {
  found = receiving-found;
  source = refl;
  destination = refl;
  direction = refl;
  no_callback = refl;
}

small_pgn : session_pgn receiving < 2 ^ 24
small_pgn = omega (arith, receiving-pgn)

offset_received_example : process_message (bus 9) offset_frame table ≡ (
    if leb 2 2
    then (if 0 == 0
        then record table {
          sessions =
              record receiving {
                packet_count = 2;
                last_packet = 0;
                timestamp = 9;
                state = rx_data_session;
              }
              ∷ [];
        }
        else record {
          sessions = [];
          log = sent (abort_frame (bus 9) 0 1 12 (session_pgn offering)) true ∷ [];
        })
    else record {
      sessions = [];
      log =
          fault use_after_free ∷ sent (abort_frame (bus 9) 0 1 11 (session_pgn offering)) true ∷ [];
    })
unfolding erase
offset_received_example =
    offset_received (bus 9) (λ log f. refl) 1 0 (omega arith) (omega arith) (omega arith) refl
      offering receiving offering-pgn small_pgn (omega arith) (omega arith) 0 table offset_frame
      offer_command offer_bytes refl refl receiving-IsOpen

-- Nine bytes are two packets, of which the session expects one when it clears them.
abbrev expecting_one : ExtendedTransportProtocolSession
expecting_one = record receiving { state = clear_to_send; packet_count = 1 }

-- The node of the implement, and its session that waits.
abbrev implement : Env
implement = record (bus 10) { cf = λ i. record (devices i) { type = internal } }

abbrev pending : ExtendedTransportProtocolSession
pending = record offering { state = wait_for_clear_to_send }

abbrev clearance_frame : CanMessage
clearance_frame = record {
  bytes = 0x15 ∷ 2 ∷ 1 ∷ 0 ∷ 0 ∷ 0 ∷ 0xEF ∷ 0 ∷ [];
  source = some 0;
  destination = some 1;
  identifier = 0x18C8_261C;
  port = 0;
  callback_message_size = 0;
}

clearance_command : get_parameter_group_number clearance_frame.identifier ≡ 0xC800
unfolding get_parameter_group_number
clearance_command = refl

clearance_bytes : clearance_frame.bytes ≡ clear_to_send_bytes expecting_one
unfolding clear_to_send_bytes packet_max get_data_length session_pgn get_parameter_group_number
clearance_bytes = refl

two_left : 1 < packets_left expecting_one
unfolding get_data_length
two_left = omega arith

full_bytes : offset_frame.bytes ≡ data_packet_offset_bytes (cleared_for implement 2 pending)
unfolding data_packet_offset_bytes session_pgn get_parameter_group_number
full_bytes = refl

pending_found : get_session (pending ∷ []) (some 1) (some 0) ≡ some (0, pending)
unfolding get_session
pending_found = refl

expecting_one-pgn : session_pgn expecting_one < 2 ^ 24
unfolding session_pgn
expecting_one-pgn = small_pgn

pending-pgn : session_pgn pending ≡ session_pgn expecting_one
unfolding session_pgn
pending-pgn = offering-pgn

nine_in_message : get_data_length expecting_one.message ≡ 9
unfolding get_data_length
nine_in_message = refl

waiting-IsOpen :
    IsOpen 1 0 0
      (record { sessions = waiting (bus 9) expecting_one ∷ []; log = [] })
      (waiting (bus 9) expecting_one)
unfolding get_session
waiting-IsOpen = record {
  found = refl;
  source = refl;
  destination = refl;
  direction = refl;
  no_callback = refl;
}

full_answer_refused_example :
    let asked : ExtendedTransportProtocolManager = record { sessions = pending ∷ []; log = [] } in
    let full = cleared_for implement (packets_left expecting_one) pending in
    let open_now : ExtendedTransportProtocolManager = record {
      sessions = waiting (bus 9) expecting_one ∷ [];
      log = [];
    } in
    (update_state_machine (bus 9) expecting_one [] ≡ (
      some (waiting (bus 9) expecting_one),
      sent
            (frame_between (bus 9) 0 1 connection_management 6 (clear_to_send_bytes expecting_one))
            true
          ∷ [],
    ))
    × (process_message implement clearance_frame asked ≡ record asked { sessions = full ∷ [] })
    × (process_message (bus 11) offset_frame open_now ≡ record {
      sessions = erase open_now.sessions 0;
      log =
          fault use_after_free
          ∷ sent (abort_frame (bus 9) 0 1 11 (session_pgn expecting_one)) true
          ∷ [];
    })
unfolding get_data_length
full_answer_refused_example =
    full_answer_refused (bus 9) (λ log f. refl) 1 0 (omega arith) (omega arith) (omega arith) refl
      expecting_one refl refl refl expecting_one-pgn (omega (arith, nine_in_message))
      (omega (arith, nine_in_message)) two_left implement refl pending refl pending-pgn 0
      (record { sessions = pending ∷ []; log = [] }) pending_found (omega arith) clearance_frame
      clearance_command clearance_bytes refl refl [] 11 0
      (record { sessions = waiting (bus 9) expecting_one ∷ []; log = [] }) offset_frame
      offer_command full_bytes refl refl waiting-IsOpen
