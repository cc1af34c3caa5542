-- ===== src/FastPacket/Reception.antt =====
-- All the frames of a message at the receiver of nmea2000_fast_packet_protocol.cpp.
use iso11783_can_stack.Prelude.{
  ℕ, zero, suc, ◌+◌, ◌≤◌, ◌<◌, ◌≡◌, ◌≢◌, refl, ap, ◌∙◌, true, Option, none, List, [], ◌∷◌, ◌++◌,
  arith, length, replicate, bit_and, get_or,
}
use iso11783_can_stack.Message.{CanMessage}
use iso11783_can_stack.Identifier.{get_parameter_group_number}
use iso11783_can_stack.Network.{Env, delivered}
use iso11783_can_stack.Transport.Payload.{write_bytes-fields}
use iso11783_can_stack.FastPacket.{
  FastPacketProtocolSession, FastPacketProtocol, get_session, session_pgn,
}
use iso11783_can_stack.FastPacket.Receive.{
  rx_packet_count, process_wanted, process_message, is_wanted, opened_session,
}
use iso11783_can_stack.FastPacket.Sender.{IsFastPgn, tx_packet_count_bounds}
use iso11783_can_stack.FastPacket.Transmit.{tx_packet_count}
use iso11783_can_stack.FastPacket.Receiver.{
  IsFastFrame, arrived, count_callbacks, opened_session-message, opened-HasStored,
}
use iso11783_can_stack.FastPacket.Steps.{
  IsOpen, process_message-wanted, more, more-IsOpen, continue_session_middle, continue_session_last,
  delivered_message, first_counter,
}

pub rx_packet_count_lem :
    (len : ℕ) → 6 ≤ len → len ≤ 222 → rx_packet_count len ≡ tx_packet_count len
rx_packet_count_lem len lo hi = ground arith

rx_packet_count-le : (len : ℕ) → 6 ≤ len → len ≤ 222 → rx_packet_count len ≤ 31
rx_packet_count-le len lo hi =
    omega (arith, rx_packet_count_lem len lo hi, tx_packet_count_bounds len lo hi)

-- Frames that are received one after the other, from number `k` on, each at a time of its own.
unfoldable pub receive_frames :
    (ℕ → Env) → (ℕ → CanMessage) → ℕ → ℕ → FastPacketProtocol → FastPacketProtocol
receive_frames env frames zero k p = p
receive_frames env frames (suc rounds) k p =
    receive_frames env frames rounds (suc k) (process_message (env k) (frames k) p)

module _ (message : List ℕ) (sequence pgn : ℕ) (source : Option ℕ) (fast : IsFastPgn pgn)
    (lo : 6 ≤ length message) (hi : length message ≤ 222) (env : ℕ → Env) (frames : ℕ → CanMessage)
    (received : (k : ℕ) → IsFastFrame message sequence pgn source k (frames k))
    (ss : List FastPacketProtocolSession) (none_open : get_session ss pgn source none ≡ none) where
  receive_frames-IsOpen :
      (rounds k : ℕ) (p : FastPacketProtocol) (s : FastPacketProtocolSession)
      → is_wanted pgn p.callbacks ≡ true
      → IsOpen message sequence pgn source fast lo hi (suc k) s
      → p.sessions ≡ ss ++ s ∷ []
      → k + suc rounds ≡ rx_packet_count (length message)
      → receive_frames env frames (suc rounds) (suc k) p ≡ record p {
        sessions = ss;
        log =
            replicate
              (count_callbacks pgn p.callbacks)
              (delivered (record s.message { bytes = arrived message }))
            ++ p.log;
      }
  unfolding receive_frames
  receive_frames-IsOpen zero k p s wanted h at_end e =
      continue_session_last message sequence pgn source fast lo hi (env (suc k)) (frames (suc k)) p
        wanted ss none_open k s (omega (arith, rx_packet_count-le (length message) lo hi))
        (received (suc k)) h at_end (omega arith)
  receive_frames-IsOpen (suc rounds) k p s wanted h at_end e =
      let small : k < 31 = omega (arith, rx_packet_count-le (length message) lo hi) in
      let s' =
        more message sequence pgn source fast lo hi (env (suc k)) (frames (suc k)) p wanted ss
          none_open k s small (received (suc k)) h at_end in
      let step =
        continue_session_middle message sequence pgn source fast lo hi (env (suc k))
          (frames (suc k)) p wanted ss none_open k s small (received (suc k)) h at_end
          (omega arith) in
      let opened =
        more-IsOpen message sequence pgn source fast lo hi (env (suc k)) (frames (suc k)) p wanted
          ss none_open k s small (received (suc k)) h at_end in
      let same =
        delivered_message message sequence pgn source fast lo hi (env (suc k)) (frames (suc k)) p
          wanted ss none_open k s small (received (suc k)) h at_end in
      let rest =
        receive_frames-IsOpen rounds (suc k) (record p { sessions = ss ++ s' ∷ [] }) s' wanted
          opened refl (omega arith) in
      rw (step, rest) (cc same)

  module _ (p : FastPacketProtocol) (wanted : is_wanted pgn p.callbacks ≡ true)
      (at_start : p.sessions ≡ ss) where
    first : FastPacketProtocolSession
    first = opened_session (env 0) (frames 0)

    first-kept : first.message ≡ record {
      bytes = first.message.bytes;
      source = source;
      destination = none;
      identifier = (frames 0).identifier;
      port = (frames 0).port;
      callback_message_size = 0;
    }
    unfolding first
    first-kept =
        let f = received 0 in
        let made = opened_session-message message sequence (env 0) (frames 0) hi lo f.carries in
        made ∙ write_bytes-fields _ _ _ ∙ ground (arith, f.from, f.to_all, made)

    first-IsOpen : IsOpen message sequence pgn source fast lo hi 1 first
    unfolding session_pgn first
    first-IsOpen = record {
      own_pgn = ap (λ m. get_parameter_group_number m.identifier) first-kept ∙ (received 0).own_pgn;
      from = ap (λ m. m.source) first-kept;
      to_all = ap (λ m. m.destination) first-kept;
      has_stored = opened-HasStored message sequence (env 0) (frames 0) hi lo (received 0).carries;
    }

    process_first : process_message (env 0) (frames 0) p ≡ record p { sessions = ss ++ first ∷ [] }
    unfolding process_wanted first
    process_first =
        process_message-wanted message sequence pgn source fast lo hi (env 0) (frames 0) p wanted ss
          none_open 0 (received 0)
        ∙ ground (arith, at_start, none_open, first_frame)
      where
        first_frame :
            (bit_and (get_or (frames 0).bytes 0 0) 0x1F ≡ 0)
            × (get_or (frames 0).bytes 1 0 ≡ length message)
        first_frame = rw (received 0).carries (first_counter message sequence)

    receive_rounds :
        (rounds : ℕ)
        → suc rounds ≡ rx_packet_count (length message)
        → receive_frames env frames (suc (suc rounds)) 0 p ≡ record p {
          sessions = ss;
          log =
              replicate
                (count_callbacks pgn p.callbacks)
                (delivered (record first.message { bytes = arrived message }))
              ++ p.log;
        }
    unfolding receive_frames
    receive_rounds rounds e =
        let rest =
          receive_frames-IsOpen rounds 0 (record p { sessions = ss ++ first ∷ [] }) first wanted
            first-IsOpen refl (omega (arith, e)) in
        rw (process_first, rest) refl

    -- The receiver, with other sessions open but none for the PGN and the source: the frames of a
    -- message, in order, leave it delivered once to each callback for the PGN.
    pub message_received :
        (n : ℕ)
        → n ≡ tx_packet_count (length message) + 1
        → length message ≢ 7
        → receive_frames env frames n 0 p ≡ record p {
          sessions = ss;
          log =
              replicate (count_callbacks pgn p.callbacks) (
                delivered (record {
                  bytes = arrived message;
                  source = source;
                  destination = none;
                  identifier = (frames 0).identifier;
                  port = (frames 0).port;
                  callback_message_size = 0;
                }))
              ++ p.log;
        }
    message_received zero e longer = absurd (omega (arith, e))
    message_received (suc zero) e longer = absurd (ground (arith, e))
    message_received (suc (suc rounds)) e longer =
        let same = rx_packet_count_lem (length message) lo hi in
        let kept = ap (λ (m : CanMessage). record m { bytes = arrived message }) first-kept in
        cc (receive_rounds rounds (omega (arith, same, e)), kept)
