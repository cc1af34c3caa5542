-- ===== src/Transport/Undisturbed.antt =====
-- What updates, and frames from other control functions, leave of the sessions of
-- can_transport_protocol.cpp that one control function sends: their PGN.
use iso11783_can_stack.Prelude.{
  ◌+◌, ◌*◌, ◌-◌, u8, u16, take, drop, ℕ, zero, suc, ◌≡◌, refl, Bool, true, false, Option, some,
  none, List, [], ◌∷◌, ◌==◌, if◌then◌else◌, arith, bit_or, ◌<<◌, same_pointer,
}
use iso11783_can_stack.Message.{CanMessage, set_data_byte}
use iso11783_can_stack.Network.{Env, Log}
use iso11783_can_stack.Transport.{
  Session, Manager, StateMachineState, get_session, get_session_of_pgn, close_session,
  tx_data_session, rx_data_session, clear_to_send, session_pgn, set_state, send_frame,
  transport_protocol_data,
}
use iso11783_can_stack.Transport.Receive.{
  process_message, process_command, process_broadcast_announce, process_request_to_send,
  process_clear_to_send, clear_to_send_for, acknowledge_for, process_end_of_message_acknowledge,
  process_connection_abort, process_data, data_for, store_packet, copy_payload, opened, address_of,
  byte, complete_message, open_session,
}
use iso11783_can_stack.Transport.Transmit.{
  update, update_sessions, update_state_machine, send_packets, segment_done, transmit_segment,
  timed_out, close, packet_bytes, after_packet, Outcome,
}
use iso11783_can_stack.Transport.Agreement.{
  all_agree, agrees, agree, agree-append, agree-erase, agree-set, found_agrees, get_session-agrees,
  get_session_of_pgn-agrees,
}

module _ (c : ℕ) (destination : Option ℕ) (pgn : ℕ) where
  abbrev fits : Session → Bool
  fits s = agrees (some c) destination pgn s

  abbrev all_fit : Manager → Bool
  all_fit t = agree (some c) destination pgn t.sessions

  -- An update leaves the message of a session as it is.
  outcome_fits : Outcome → Bool
  outcome_fits (none, log) = true
  outcome_fits (some s, log) = fits s

  module _ (env : Env) where
    send_packets-fits :
        (n : ℕ) (s : Session) (log : Log)
        → fits s ≡ true
        → outcome_fits (send_packets env n s log) ≡ true
    unfolding send_packets outcome_fits close session_pgn
    send_packets-fits zero s log h = h
    send_packets-fits (suc n) s log h =
        sends (packet_bytes env s) refl (λ l. send_packets-fits n (after_packet env s) l h)
      where
        sends :
            (o : Option (List ℕ))
            → o ≡ packet_bytes env s
            → ((l : Log) → outcome_fits (send_packets env n (after_packet env s) l) ≡ true)
            → outcome_fits (send_packets env (suc n) s log) ≡ true
        sends none e more = ground (arith, e)
        sends (some bytes) e more =
            let out =
              send_frame env transport_protocol_data 7 bytes s.message.source s.message.destination
                log in
            ground (arith, e, h, more out.1)

    segment_done-fits :
        (o : Outcome) → outcome_fits o ≡ true → outcome_fits (segment_done env o) ≡ true
    unfolding segment_done outcome_fits close session_pgn set_state
    segment_done-fits (none, log) h = refl
    segment_done-fits (some s, log) h = ground (arith, h)

    update_state_machine-fits :
        (s : Session) (log : Log)
        → fits s ≡ true
        → outcome_fits (update_state_machine env s log) ≡ true
    unfolding update_state_machine transmit_segment outcome_fits close timed_out session_pgn
        set_state
    update_state_machine-fits s log h =
        let rounds = s.packet_count - u8 s.last_packet in
        ground (
          arith,
          h,
          segment_done-fits (send_packets env rounds s log) (send_packets-fits rounds s log h),
          segment_done-fits (some s, log) h,
        )

    update_sessions-fits :
        (ss : List Session) (log : Log)
        → agree (some c) destination pgn ss ≡ true
        → agree (some c) destination pgn (update_sessions env ss log).0 ≡ true
    unfolding update_sessions all_agree outcome_fits
    update_sessions-fits [] log h = refl
    update_sessions-fits (s ∷ ss) log h =
        let next = update_state_machine env s log in
        ground (arith, h, update_state_machine-fits s log, update_sessions-fits ss next.1)

    update-fits : (t : Manager) → all_fit t ≡ true → all_fit (update env t) ≡ true
    unfolding update
    update-fits t h = update_sessions-fits t.sessions t.log h

  -- A frame from another control function.
  module _ (env : Env) (m : CanMessage) (t : Manager) (h : all_fit t ≡ true)
      (other : same_pointer m.source (some c) ≡ false) where
    open_session-fits :
        (state : StateMachineState) (g a max : ℕ)
        → all_fit (open_session env state g a max m t) ≡ true
    unfolding open_session opened
    open_session-fits state g a max = open_for m.source refl
      where
        open_for :
            (o : Option ℕ) → o ≡ m.source → all_fit (open_session env state g a max m t) ≡ true
        open_for none e = ground (arith, e, h)
        open_for (some d) e = ground (
          arith,
          e,
          other,
          agree-append (some c) destination pgn t.sessions
              (opened env state g a m.destination max m d) h,
        )

    announce-fits : (g : ℕ) → all_fit (process_broadcast_announce env g m t) ≡ true
    unfolding process_broadcast_announce
    announce-fits g = ground (arith, h, open_session-fits rx_data_session g 0xFF 0)

    request-fits : (g : ℕ) → all_fit (process_request_to_send env g m t) ≡ true
    unfolding process_request_to_send
    request-fits g =
        ground
          (arith, h, open_session-fits clear_to_send g (address_of env m.destination) (byte m 4))

    abbrev found : Option (ℕ × Session) → Bool
    found o = found_agrees (some c) destination pgn o

    clear_to_send_for-fits :
        (g : ℕ) (o : Option (ℕ × Session))
        → found o ≡ true
        → all_fit (clear_to_send_for env g m o t) ≡ true
    unfolding clear_to_send_for found_agrees session_pgn
    clear_to_send_for-fits g none k = ground (arith, h)
    clear_to_send_for-fits g (some (i, s)) k =
        let counted : Session = record s { packet_count = byte m 1; timestamp = env.now } in
        let started : Session = record counted { last_packet = 0; state = tx_data_session } in
        ground (
          arith,
          h,
          agree-set (some c) destination pgn t.sessions i
              (if byte m 1 == 0 then counted else started) h,
          k,
        )

    acknowledge_for-fits :
        (g : ℕ) (o : Option (ℕ × Session)) → all_fit (acknowledge_for env g m o t) ≡ true
    unfolding acknowledge_for close_session
    acknowledge_for-fits g none = ground (arith, h)
    acknowledge_for-fits g (some (i, s)) =
        ground (arith, h, agree-erase (some c) destination pgn t.sessions i h)

    abort-fits : (g : ℕ) → all_fit (process_connection_abort env g m t) ≡ true
    unfolding process_connection_abort close_session
    abort-fits g = abort_for (get_session_of_pgn t.sessions m.destination m.source g) refl
      where
        abort_for :
            (o : Option (ℕ × Session))
            → o ≡ get_session_of_pgn t.sessions m.destination m.source g
            → all_fit (process_connection_abort env g m t) ≡ true
        abort_for none e = ground (arith, e, h)
        abort_for (some (i, s)) e =
            ground (arith, e, h, agree-erase (some c) destination pgn t.sessions i h)

    command-fits : all_fit (process_command env m t) ≡ true
    unfolding process_command process_clear_to_send process_end_of_message_acknowledge
    command-fits =
        let g = bit_or (bit_or (byte m 5) (byte m 6 << 8)) (byte m 7 << 16) in
        let o = get_session_of_pgn t.sessions m.destination m.source g in
        ground (
          arith,
          h,
          announce-fits g,
          request-fits g,
          clear_to_send_for-fits g o (
              get_session_of_pgn-agrees (some c) destination pgn t.sessions m.destination m.source g
                h),
          acknowledge_for-fits g o,
          abort-fits g,
        )

    copy_payload-ends :
        (bytes : List ℕ) (position : ℕ) (d : CanMessage)
        → ((copy_payload bytes position d).source ≡ d.source)
          × ((copy_payload bytes position d).destination ≡ d.destination)
          × ((copy_payload bytes position d).identifier ≡ d.identifier)
    unfolding copy_payload set_data_byte
    copy_payload-ends [] position d = (refl, refl, refl)
    copy_payload-ends (b ∷ bytes) position d =
        ground (arith, copy_payload-ends bytes (position + 1) (set_data_byte b (u16 position) d))

    store_packet-fits : (s : Session) → fits s ≡ true → fits (store_packet m.bytes s) ≡ true
    unfolding store_packet session_pgn
    store_packet-fits s k =
        ground (arith, k, copy_payload-ends (take 7 (drop 1 m.bytes)) (7 * s.last_packet) s.message)

    data_for-fits : (i : ℕ) (s : Session) → fits s ≡ true → all_fit (data_for env m i s t) ≡ true
    unfolding data_for complete_message close_session store_packet session_pgn
    data_for-fits i s k =
        let next : Session = record (store_packet m.bytes s) { timestamp = env.now } in
        ground (
          arith,
          h,
          agree-set (some c) destination pgn t.sessions i next h (store_packet-fits s k),
          agree-erase (some c) destination pgn t.sessions i h,
        )

    data-fits : all_fit (process_data env m t) ≡ true
    unfolding process_data close_session found_agrees
    data-fits =
        data_of (get_session t.sessions m.source m.destination) refl
          (get_session-agrees (some c) destination pgn t.sessions m.source m.destination h)
      where
        data_of :
            (o : Option (ℕ × Session))
            → o ≡ get_session t.sessions m.source m.destination
            → found o ≡ true
            → all_fit (process_data env m t) ≡ true
        data_of none e k = ground (arith, e, h)
        data_of (some (i, s)) e k =
            ground (
              arith,
              e,
              h,
              data_for-fits i s k,
              agree-erase (some c) destination pgn t.sessions i h,
            )

    message-fits : all_fit (process_message env m t) ≡ true
    unfolding process_message
    message-fits = ground (arith, h, command-fits, data-fits)

-- Updates, and frames from the bus, each at its time: `none` is an update.
unfoldable pub happen : List (Env × Option CanMessage) → Manager → Manager
happen [] t = t
happen ((env, none) ∷ es) t = happen es (update env t)
happen ((env, some m) ∷ es) t = happen es (process_message env m t)

-- No frame comes from one control function.
unfoldable pub NoneFrom : ℕ → List (Env × Option CanMessage) → Type 0
NoneFrom c [] = Unit
NoneFrom c ((env, none) ∷ es) = NoneFrom c es
NoneFrom c ((env, some m) ∷ es) = (same_pointer m.source (some c) ≡ false) × NoneFrom c es

pub happen-all_agree :
    (c : ℕ) (destination : Option ℕ) (pgn : ℕ) (es : List (Env × Option CanMessage)) (t : Manager)
    → NoneFrom c es
    → all_agree (some c) destination pgn t.sessions ≡ true
    → all_agree (some c) destination pgn (happen es t).sessions ≡ true
unfolding happen NoneFrom
happen-all_agree c destination pgn [] t others h = h
happen-all_agree c destination pgn ((env, none) ∷ es) t others h =
    happen-all_agree c destination pgn es (update env t) others
      (update-fits c destination pgn env t h)
happen-all_agree c destination pgn ((env, some m) ∷ es) t others h =
    happen-all_agree c destination pgn es (process_message env m t) others.1
      (message-fits c destination pgn env m t h others.0)
