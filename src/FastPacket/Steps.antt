-- ===== src/FastPacket/Steps.antt =====
-- One frame of a message at the receiver of nmea2000_fast_packet_protocol.cpp.
use iso11783_can_stack.Prelude.{
  ℕ, zero, suc, ◌+◌, ◌*◌, ◌%◌, ◌≤◌, ◌<◌, ◌≡◌, refl, ap, ◌∙◌, true, Option, some, none, List, [],
  ◌∷◌, ◌++◌, arith, set, length, replicate, same_pointer_iff, bit_and, get_or,
}
use iso11783_can_stack.Message.{CanMessage, get_data_length}
use iso11783_can_stack.Identifier.{get_parameter_group_number}
use iso11783_can_stack.Network.{Env, delivered}
use iso11783_can_stack.Transport.Transmit.{payload_from}
use iso11783_can_stack.FastPacket.{
  FastPacketProtocolSession, FastPacketProtocol, get_session, session_pgn, erase, after_one,
  close_session, process_session_complete_callback,
}
use iso11783_can_stack.FastPacket.Receive.{
  continued, continue_session, rx_packet_count, process_wanted, process_message, is_wanted,
}
use iso11783_can_stack.FastPacket.Frames.{fast_frame, frame_counter_lem}
use iso11783_can_stack.FastPacket.Sender.{IsFastPgn}
use iso11783_can_stack.FastPacket.Receiver.{
  HasStored, IsFastFrame, next, next-HasStored, next-fields, stored_whole, arrived, count_callbacks,
  deliver_lem,
}

after_one-none : (o : Option (ℕ × FastPacketProtocolSession)) → after_one o ≡ none → o ≡ none
after_one-none none h = refl
after_one-none (some (i, s)) h = cc

get_session-append :
    (ss : List FastPacketProtocolSession) (pgn : ℕ) (source destination : Option ℕ)
    (s : FastPacketProtocolSession)
    → get_session ss pgn source destination ≡ none
    → session_pgn s ≡ pgn
    → s.message.source ≡ source
    → s.message.destination ≡ destination
    → get_session (ss ++ s ∷ []) pgn source destination ≡ some (length ss, s)
unfolding get_session
get_session-append [] pgn source destination s h g e d = ground (
  arith,
  (same_pointer_iff s.message.source source).1 e,
  (same_pointer_iff s.message.destination destination).1 d,
)
get_session-append (t ∷ ss) pgn source destination s h g e d =
    let alone = after_one-none (get_session ss pgn source destination) in
    let rest = get_session-append ss pgn source destination s in ground (arith, alone, rest)

set-append :
    (ss : List FastPacketProtocolSession) (s s' : FastPacketProtocolSession)
    → set (ss ++ s ∷ []) (length ss) s' ≡ ss ++ s' ∷ []
set-append [] s s' = refl
set-append (t ∷ ss) s s' = ap (◌∷◌ t) (set-append ss s s')

erase-append :
    (ss : List FastPacketProtocolSession) (s : FastPacketProtocolSession)
    → erase (ss ++ s ∷ []) (length ss) ≡ ss
unfolding erase
erase-append [] s = refl
erase-append (t ∷ ss) s = ap (◌∷◌ t) (erase-append ss s)

length-frame : (message : List ℕ) (sequence k : ℕ) → length (fast_frame message sequence k) ≡ 8
unfolding fast_frame payload_from
length-frame message sequence zero = refl
length-frame message sequence (suc k) = refl

pub first_counter :
    (message : List ℕ) (sequence : ℕ)
    → (bit_and (get_or (fast_frame message sequence 0) 0 0) 0x1F ≡ 0)
      × (get_or (fast_frame message sequence 0) 1 0 ≡ length message)
unfolding fast_frame
first_counter message sequence =
    let e : sequence % 8 * 32 ≡ 0 + sequence % 8 * 32 = omega arith in
    (ap (λ x. bit_and x 0x1F) e ∙ frame_counter_lem 0 sequence (omega arith), refl)

frame_counter :
    (message : List ℕ) (sequence k : ℕ)
    → k < 31
    → bit_and (get_or (fast_frame message sequence (suc k)) 0 0) 0x1F ≡ suc k
unfolding fast_frame
frame_counter message sequence k h = frame_counter_lem (suc k) sequence (omega arith)

module _ (message : List ℕ) (sequence pgn : ℕ) (source : Option ℕ) (fast : IsFastPgn pgn)
    (lo : 6 ≤ length message) (hi : length message ≤ 222) where
  -- A session of the message, after `k` frames.
  pub record IsOpen (k : ℕ) (s : FastPacketProtocolSession) : Type 0 where
    pub own_pgn : session_pgn s ≡ pgn
    pub from : s.message.source ≡ source
    pub to_all : s.message.destination ≡ none
    pub has_stored : HasStored message k s

  next-IsOpen :
      (k : ℕ) (s : FastPacketProtocolSession) (small : k < 32) (h : IsOpen (suc k) s)
      → IsOpen (suc (suc k)) (next message sequence k s small h.has_stored)
  unfolding session_pgn
  next-IsOpen k s small h =
      let kept = next-fields message sequence k s small h.has_stored in
      record {
        own_pgn = ap (λ m. get_parameter_group_number m.identifier) kept ∙ h.own_pgn;
        from = ap (λ m. m.source) kept ∙ h.from;
        to_all = ap (λ m. m.destination) kept ∙ h.to_all;
        has_stored = next-HasStored message sequence k s small h.has_stored;
      }

  module _ (env : Env) (m : CanMessage) (p : FastPacketProtocol)
      (wanted : is_wanted pgn p.callbacks ≡ true) (ss : List FastPacketProtocolSession)
      (none_open : get_session ss pgn source none ≡ none) where
    pub process_message-wanted :
        (k : ℕ)
        → IsFastFrame message sequence pgn source k m
        → process_message env m p ≡ process_wanted env m (get_session p.sessions pgn source none) p
    unfolding process_message get_data_length
    process_message-wanted k f = ground (arith, f, fast, wanted, length-frame message sequence k)

    module _ (k : ℕ) (s : FastPacketProtocolSession) (small : k < 31)
        (f : IsFastFrame message sequence pgn source (suc k) m) (h : IsOpen (suc k) s)
        (at_end : p.sessions ≡ ss ++ s ∷ []) where
      pub more : FastPacketProtocolSession
      more = next message sequence k s (omega arith) h.has_stored

      process_message-continue : process_message env m p ≡ continue_session env m (length ss) s p
      unfolding process_wanted
      process_message-continue =
          process_message-wanted (suc k) f
          ∙ ground (
            arith,
            at_end,
            get_session-append ss pgn source none s none_open h.own_pgn h.from h.to_all,
            frame_counter message sequence k small,
            f.carries,
          )

      continued-more : continued m.bytes s ≡ more
      unfolding more next
      continued-more = ap (λ bytes. continued bytes s) f.carries

      pub more-IsOpen : IsOpen (suc (suc k)) more
      unfolding more
      more-IsOpen = next-IsOpen k s (omega arith) h

      pub continue_session_middle :
          suc k < rx_packet_count (length message)
          → process_message env m p ≡ record p { sessions = ss ++ more ∷ [] }
      unfolding continue_session
      continue_session_middle before =
          let stored = more-IsOpen.has_stored in
          process_message-continue
          ∙ ground
              (arith, at_end, continued-more, set-append ss s more, stored.processed, stored.count)

      pub delivered_message : more.message ≡ record s.message { bytes = more.message.bytes }
      unfolding more
      delivered_message = next-fields message sequence k s (omega arith) h.has_stored

      pub continue_session_last :
          suc k ≡ rx_packet_count (length message)
          → process_message env m p ≡ record p {
            sessions = ss;
            log =
                replicate
                  (count_callbacks pgn p.callbacks)
                  (delivered (record s.message { bytes = arrived message }))
                ++ p.log;
          }
      unfolding continue_session close_session process_session_complete_callback
      continue_session_last now =
          let stored = more-IsOpen.has_stored in
          process_message-continue
          ∙ ground (
            arith,
            at_end,
            continued-more,
            set-append ss s more,
            erase-append ss more,
            stored.processed,
            stored.count,
            stored.no_callback,
            more-IsOpen.own_pgn,
            deliver_lem pgn more.message p.callbacks p.log,
            delivered_message,
            stored_whole message (suc k) more stored lo hi now,
          )
