-- ===== src/FastPacket/Transfer.antt =====
-- A message of nmea2000_fast_packet_protocol.cpp from the call that sends it to the callbacks of the
-- receiver.
use iso11783_can_stack.Prelude.{
  ℕ, zero, suc, ◌+◌, ◌-◌, ◌%◌, ◌≤◌, ◌<◌, ◌≡◌, ◌≢◌, refl, ap, ◌∙◌, Bool, true, Option, some, none,
  List, [], ◌∷◌, ◌++◌, if◌then◌else◌, arith, length, take, replicate, set, ◌==◌, inl,
}
use iso11783_can_stack.ControlFunction.{get_address_valid}
use iso11783_can_stack.Message.{CanMessage, new, set_data}
use iso11783_can_stack.Identifier.{get_parameter_group_number, encode, extended, get_priority}
use iso11783_can_stack.Identifier.Fields.{encode_fields}
use iso11783_can_stack.Network.{Env, Log, Frame, TxRequest, delivered, fault, iterator_invalidated}
use iso11783_can_stack.Transport.Announce.{get_parameter_group_number-encode}
use iso11783_can_stack.FastPacket.{
  FastPacketProtocolSession, FastPacketProtocol, FastPacketHistory, get_session, session_pgn,
  new_session, process_session_complete_callback, get_new_sequence_number, add_session_history,
}
use iso11783_can_stack.FastPacket.Receive.{is_wanted}
use iso11783_can_stack.FastPacket.Transmit.{
  sending_session, send_multipacket_message, update, update_sessions, tx_packet_count, after_frame,
}
use iso11783_can_stack.FastPacket.Frames.{fast_frame}
use iso11783_can_stack.FastPacket.Sender.{
  IsFastPgn, HasSent, bus_frame, frames_sent, message_sent, after_frames,
}
use iso11783_can_stack.FastPacket.Receiver.{IsFastFrame, arrived, count_callbacks}
use iso11783_can_stack.FastPacket.Reception.{receive_frames, message_received}

-- A frame on the bus, as the network manager of another node reads it.
abbrev pub heard : Option ℕ → Frame → CanMessage
heard source f = record {
  bytes = f.bytes;
  source = source;
  destination = none;
  identifier = f.identifier;
  port = f.channel;
  callback_message_size = 0;
}

silent :
    (env : Env) (s : FastPacketProtocolSession) (success : Bool) (log : Log)
    → s.complete_callback ≡ none
    → process_session_complete_callback env s success log ≡ log
unfolding process_session_complete_callback
silent env s success log h = ground (arith, h)

after_frames-complete_callback :
    (env : Env) (n : ℕ) (s : FastPacketProtocolSession)
    → (after_frames env n s).complete_callback ≡ s.complete_callback
unfolding after_frames
after_frames-complete_callback env zero s = refl
after_frames-complete_callback env (suc n) s =
    after_frames-complete_callback env n (after_frame env s)

module _ (env : Env) (r : TxRequest) (message : List ℕ) (p c : ℕ) (fast : IsFastPgn r.pgn)
    (priority : p < 8) (buffer : r.buffer ≡ some message) (len : r.length ≡ length message)
    (source : r.source ≡ some c) (to_all : r.destination ≡ none)
    (quiet : r.complete_callback ≡ none) (whole : r.chunk_callback ≡ none) (lo : 6 ≤ length message)
    (hi : length message ≤ 222) (mine : (env.cf c).address < 0xFE) where
  identifier_lem :
      (get_parameter_group_number (encode extended r.pgn p 0xFF (env.cf c).address) ≡ r.pgn)
      × (get_priority (encode extended r.pgn p 0xFF (env.cf c).address) ≡ p)
  identifier_lem = (
    get_parameter_group_number-encode r.pgn p 0xFF (env.cf c).address
        (omega arith, omega arith, inl (omega arith)) priority (omega arith) (omega arith),
    (encode_fields r.pgn p 0xFF (env.cf c).address (omega arith) priority (omega arith)
        (omega arith) (omega arith)).0,
  )

  abbrev opened : List FastPacketHistory → FastPacketProtocolSession
  opened history = sending_session env r p c history

  take_whole : (bs : List ℕ) → take (length bs) bs ≡ bs
  take_whole [] = refl
  take_whole (b ∷ bs) = ap (◌∷◌ b) (take_whole bs)

  opened-HasSent :
      (history : List FastPacketHistory)
      → HasSent message r.pgn p c 0 ((opened history).packet_count + 1) (opened history)
  unfolding sending_session session_pgn new_session new set_data
  opened-HasSent history = record {
    direction = refl;
    own_bytes = whole;
    buffered = ground (arith, buffer);
    bytes = ground (arith, buffer, len, take_whole message);
    source = refl;
    destination = to_all;
    own_pgn = ground (arith, to_all, identifier_lem);
    priority = ground (arith, to_all, identifier_lem);
    processed = refl;
    count = ap tx_packet_count len;
    left = omega arith;
  }

  session_facts :
      (history : List FastPacketHistory)
      → (session_pgn (opened history) ≡ r.pgn)
        × ((opened history).sequence_number ≡ get_new_sequence_number (env.cf c).name r.pgn history)
        × ((opened history).packet_count ≡ tx_packet_count (length message))
        × ((opened history).complete_callback ≡ none)
  unfolding sending_session session_pgn new_session
  session_facts history = (
    ground (arith, to_all, identifier_lem),
    ground (arith, to_all, identifier_lem),
    ap tx_packet_count len,
    quiet,
  )

  module _ (t : FastPacketProtocol) (idle : t.sessions ≡ []) where
    -- The number of frames, and the frames.
    abbrev pub frame_count : ℕ
    frame_count = tx_packet_count (length message) + 1

    abbrev pub frame_of : ℕ → Frame
    frame_of k =
        bus_frame env r.pgn p c
          (fast_frame message (get_new_sequence_number (env.cf c).name r.pgn t.history) k)

    accepted :
        send_multipacket_message env r p t ≡ (true, record t { sessions = opened t.history ∷ [] })
    unfolding send_multipacket_message get_session get_address_valid
    accepted = ground (arith, source, idle, len, buffer, fast, mine)

    module _ (open_bus : (log : Log) (f : Frame) → env.accepts log f ≡ true)
        (port : (env.cf c).port < 4) (uninitialized : ℕ) where
      updated :
          update env uninitialized (record t { sessions = opened t.history ∷ [] }) ≡ record t {
            sessions = [];
            history =
                add_session_history
                  (env.cf c).name
                  r.pgn
                  (get_new_sequence_number (env.cf c).name r.pgn t.history)
                  t.history;
            log = fault iterator_invalidated ∷ frames_sent frame_of 0 frame_count t.log;
          }
      unfolding update update_sessions
      updated =
          let s = opened t.history in
          let run =
            message_sent env open_bus message r.pgn p c fast priority port mine uninitialized s
              t.history t.log lo hi (opened-HasSent t.history) in
          ground (
            arith,
            run,
            session_facts t.history,
            silent env (after_frames env (s.packet_count + 1) s) true
                (frames_sent frame_of 0 frame_count t.log),
            after_frames-complete_callback env (s.packet_count + 1) s,
          )

      module _ (envs : ℕ → Env) (peer : Option ℕ) (q : FastPacketProtocol)
          (wanted : is_wanted r.pgn q.callbacks ≡ true)
          (none_open : get_session q.sessions r.pgn peer none ≡ none) where
        frame-IsFastFrame :
            (k : ℕ)
            → IsFastFrame message
                (get_new_sequence_number (env.cf c).name r.pgn t.history)
                r.pgn
                peer
                k
                (heard peer (frame_of k))
        unfolding bus_frame
        frame-IsFastFrame k = record {
          own_pgn = identifier_lem.0;
          from = refl;
          to_all = refl;
          carries = refl;
          buffered = refl;
        }

        -- A message from end to end. A message of 6 to 222 bytes, but not of 7, to all, under a PGN
        -- of the protocol, from a control function with an address, with no complete or chunk
        -- callback, on a bus that takes every frame: the protocol, with no session open, accepts
        -- it; the next update puts all its frames on the bus, in order, takes the next sequence
        -- number and has no session left (the fault is that of the loop over the sessions, from
        -- which one is erased). A receiver that wants the PGN, with no session open for it and this
        -- source, when it has read these frames in order, each at a time of its own, has its
        -- sessions as before, and has delivered the message once to each callback for the PGN, with
        -- the source and the PGN that were sent, and with exactly the bytes that were sent, except
        -- that the last byte arrives as 0 if 7 divides the length.
        pub transfer :
            length message ≢ 7
            → (send_multipacket_message env r p t).0 ≡ true
              × update env uninitialized (send_multipacket_message env r p t).1 ≡ record t {
                history =
                    add_session_history
                      (env.cf c).name
                      r.pgn
                      (get_new_sequence_number (env.cf c).name r.pgn t.history)
                      t.history;
                log = fault iterator_invalidated ∷ frames_sent frame_of 0 frame_count t.log;
              }
              × (got : CanMessage) × (receive_frames envs
                    (λ k. heard peer (frame_of k))
                    frame_count
                    0
                    q
                  ≡ record q {
                    log = replicate (count_callbacks r.pgn q.callbacks) (delivered got) ++ q.log;
                  })
              × (got.source ≡ peer)
              × (get_parameter_group_number got.identifier ≡ r.pgn)
              × (got.bytes ≡ (
                  if length message % 7 == 0 then set message (length message - 1) 0 else message))
        unfolding bus_frame arrived
        transfer longer =
            let received =
              message_received message (get_new_sequence_number (env.cf c).name r.pgn t.history)
                r.pgn peer fast lo hi envs (λ k. heard peer (frame_of k)) frame-IsFastFrame
                q.sessions none_open q wanted refl frame_count refl longer in
            (
              ap (λ x. x.0) accepted,
              ap (λ x. update env uninitialized x.1) accepted ∙ updated ∙ ground (arith, idle),
              record {
                bytes = arrived message;
                source = peer;
                destination = none;
                identifier = (frame_of 0).identifier;
                port = (frame_of 0).channel;
                callback_message_size = 0;
              },
              received,
              refl,
              identifier_lem.0,
              arrived_lem,
            )
          where
            arrived_lem :
                arrived message
                ≡ (if length message % 7 == 0 then set message (length message - 1) 0 else message)
            arrived_lem = refl
