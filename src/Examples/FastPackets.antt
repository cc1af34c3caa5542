-- ===== src/Examples/FastPackets.antt =====
-- Runs of the fast packet protocol.
use iso11783_can_stack.Prelude.{
  true, false, ℕ, ◌≡◌, ◌+◌, refl, some, none, [], ◌∷◌, ◌++◌, arith, replicate, if◌then◌else◌,
}
use iso11783_can_stack.Message.{CanMessage}
use iso11783_can_stack.Timing.{time_expired_ms}
use iso11783_can_stack.Identifier.{get_parameter_group_number, get_priority}
use iso11783_can_stack.Network.{TxRequest, Frame, delivered, fault, iterator_invalidated}
use iso11783_can_stack.FastPacket.{
  FastPacketProtocol, FastPacketProtocolSession, ParameterGroupNumberCallbackData,
  add_session_history, get_new_sequence_number, same_callback, has_pgn, session_pgn, transmit,
  process_session_complete_callback, register_multipacket_message_callback,
  remove_multipacket_message_callback, get_session,
}
use iso11783_can_stack.FastPacket.Receive.{is_wanted}
use iso11783_can_stack.FastPacket.Transmit.{
  send_multipacket_message, update, update_state_machine, tx_packet_count, Outcome,
}
use iso11783_can_stack.FastPacket.Frames.{fast_frame}
use iso11783_can_stack.FastPacket.Sender.{bus_frame, frames_sent}
use iso11783_can_stack.FastPacket.Receiver.{count_callbacks}
use iso11783_can_stack.FastPacket.Reception.{receive_frames}
use iso11783_can_stack.FastPacket.Transfer.{heard, transfer}
use iso11783_can_stack.FastPacket.Destination.{NamesDestination, destination_never_sent}
use iso11783_can_stack.FastPacket.Registration.{remove_silences_other}
use iso11783_can_stack.Examples.{bus, nine_bytes}

abbrev request : TxRequest
request = record {
  pgn = 0x1F801;
  buffer = some nine_bytes;
  length = 9;
  source = some 0;
  destination = none;
  complete_callback = none;
  chunk_callback = none;
}

abbrev callback : ℕ → ParameterGroupNumberCallbackData
callback i = record { pgn = 0x1F801; callback = i; parent = none }

abbrev unused : FastPacketProtocol
unused = record { sessions = []; history = []; callbacks = []; network_callbacks = []; log = [] }

abbrev listening : FastPacketProtocol
listening = record unused { callbacks = callback 1 ∷ []; network_callbacks = 0x1F801 ∷ [] }

listening-is_wanted : is_wanted 0x1F801 listening.callbacks ≡ true
unfolding is_wanted
listening-is_wanted = refl

nothing_open : get_session [] 0x1F801 (some 0) none ≡ none
unfolding get_session
nothing_open = refl

abbrev frame : ℕ → Frame
frame k =
    bus_frame (bus 5) 0x1F801 6 0
      (fast_frame nine_bytes (get_new_sequence_number 0xA000_0000_0000_0001 0x1F801 []) k)

transfer_example :
    (send_multipacket_message (bus 5) request 6 unused).0 ≡ true
    × update (bus 5) 77 (send_multipacket_message (bus 5) request 6 unused).1 ≡ record unused {
      history =
          add_session_history 0xA000_0000_0000_0001 0x1F801
            (get_new_sequence_number 0xA000_0000_0000_0001 0x1F801 [])
            [];
      log = fault iterator_invalidated ∷ frames_sent frame 0 (tx_packet_count 9 + 1) [];
    }
    × (got : CanMessage) × (receive_frames bus
          (λ k. heard (some 0) (frame k))
          (tx_packet_count 9 + 1)
          0
          listening
        ≡ record listening {
          log = replicate (count_callbacks 0x1F801 (callback 1 ∷ [])) (delivered got) ++ [];
        })
    × (got.source ≡ some 0)
    × (get_parameter_group_number got.identifier ≡ 0x1F801)
    × (got.bytes ≡ nine_bytes)
transfer_example =
    transfer (bus 5) request nine_bytes 6 0 (omega arith, omega arith) (omega arith) refl refl refl
      refl refl refl (omega arith) (omega arith) (omega arith) unused refl (λ log f. refl)
      (omega arith) 77 bus (some 0) listening listening-is_wanted nothing_open
      (λ h. absurd (omega arith))

abbrev to_implement : FastPacketProtocolSession
to_implement = record {
  message = record {
    bytes = nine_bytes;
    source = some 0;
    destination = some 1;
    identifier = 0x19F8_011C;
    port = 0;
    callback_message_size = 0;
  };
  complete_callback = none;
  chunk_callback = none;
  timestamp = 0;
  last_packet = 0;
  packet_count = tx_packet_count 9;
  processed_packets = 0;
  sequence_number = 0;
  direction = transmit;
}

to_implement-NamesDestination : NamesDestination (bus 9) 0 1 to_implement
unfolding session_pgn get_parameter_group_number get_priority
to_implement-NamesDestination = record {
  sends = refl;
  own_bytes = refl;
  new = refl;
  from = refl;
  to = refl;
  fast = (omega arith, omega arith);
  priority = omega arith;
  mine = omega arith;
  theirs = omega arith;
  lo = omega arith;
  hi = omega arith;
  count = refl;
}

destination_never_sent_example : update_state_machine (bus 9) 77 to_implement [] [] ≡ (
    if◌then◌else◌ {A = Outcome}
      (time_expired_ms 9 0 750)
      (none, [], process_session_complete_callback (bus 9) to_implement false [])
      (some to_implement, [], []))
destination_never_sent_example =
    destination_never_sent (bus 9) 77 0 1 to_implement [] [] to_implement-NamesDestination

different : same_callback (callback 2) (callback 1) ≡ false
unfolding same_callback
different = refl

not_handed_on : has_pgn 0x1F801 [] ≡ false
unfolding has_pgn
not_handed_on = refl

remove_silences_other_example :
    let both =
      register_multipacket_message_callback
        (callback 2)
        (register_multipacket_message_callback (callback 1) unused) in
    let left = remove_multipacket_message_callback (callback 1) both in
    (has_pgn 0x1F801 both.network_callbacks ≡ true)
    × (is_wanted 0x1F801 left.callbacks ≡ true)
    × (has_pgn 0x1F801 left.network_callbacks ≡ false)
remove_silences_other_example =
    remove_silences_other (callback 1) (callback 2) unused refl different not_handed_on
