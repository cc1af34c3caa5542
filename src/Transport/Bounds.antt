-- ===== src/Transport/Bounds.antt =====
-- How many sessions can_transport_protocol.cpp keeps, and what it accepts for sending.
use iso11783_can_stack.Prelude.{
  ℕ, zero, suc, ◌≤◌, ◌<◌, ◌≡◌, refl, Bool, Option, some, none, List, [], ◌∷◌, ◌==◌, if◌then◌else◌,
  arith, length, length-append, length-set, bit_or, ◌<<◌,
}
use iso11783_can_stack.Message.{CanMessage}
use iso11783_can_stack.Network.{Env, Log}
use iso11783_can_stack.Transport.{
  Session, Manager, StateMachineState, erase, get_session, get_session_of_pgn, close_session,
  tx_data_session, rx_data_session, clear_to_send,
}
use iso11783_can_stack.Transport.Receive.{
  process_message, process_command, process_broadcast_announce, process_request_to_send,
  process_clear_to_send, clear_to_send_for, acknowledge_for, process_end_of_message_acknowledge,
  process_connection_abort, process_data, data_for, store_packet, opened, address_of, byte,
  complete_message, open_session,
}

length-erase : (ss : List Session) (i : ℕ) → length (erase ss i) ≤ length ss
unfolding erase
length-erase [] i = omega arith
length-erase (s ∷ ss) zero = omega arith
length-erase (s ∷ ss) (suc i) = omega (arith, length-erase ss i)

module _ (env : Env) (m : CanMessage) (t : Manager) (n : ℕ) (h : length t.sessions ≤ n)
    (cap : env.max_sessions ≤ n) where
  close_session-bounded :
      (i : ℕ) (s : Session) (b : Bool) (log : Log)
      → length (close_session env i s b (record t { log = log })).sessions ≤ n
  unfolding close_session
  close_session-bounded i s b log = omega (arith, length-erase t.sessions i)

  open_session-bounded :
      (state : StateMachineState) (pgn a max : ℕ)
      → length t.sessions < env.max_sessions
      → length (open_session env state pgn a max m t).sessions ≤ n
  unfolding open_session
  open_session-bounded state pgn a max room = open_for m.source refl
    where
      open_for :
          (o : Option ℕ) → o ≡ m.source → length (open_session env state pgn a max m t).sessions ≤ n
      open_for none e = ground (arith, e, h)
      open_for (some c) e =
          ground
            (arith, e, length-append t.sessions (opened env state pgn a m.destination max m c ∷ []))

  announce-bounded : (pgn : ℕ) → length (process_broadcast_announce env pgn m t).sessions ≤ n
  unfolding process_broadcast_announce
  announce-bounded pgn = ground (arith, h, open_session-bounded rx_data_session pgn 0xFF 0)

  request-bounded : (pgn : ℕ) → length (process_request_to_send env pgn m t).sessions ≤ n
  unfolding process_request_to_send
  request-bounded pgn =
      ground
        (arith, h, open_session-bounded clear_to_send pgn (address_of env m.destination) (byte m 4))

  clear_to_send_for-bounded :
      (pgn : ℕ) (o : Option (ℕ × Session)) → length (clear_to_send_for env pgn m o t).sessions ≤ n
  unfolding clear_to_send_for
  clear_to_send_for-bounded pgn none = ground (arith, h)
  clear_to_send_for-bounded pgn (some (i, s)) =
      let counted : Session = record s { packet_count = byte m 1; timestamp = env.now } in
      let started : Session = record counted { last_packet = 0; state = tx_data_session } in
      let next = if byte m 1 == 0 then counted else started in
      ground (arith, h, length-set t.sessions i next)

  clear_to_send-bounded : (pgn : ℕ) → length (process_clear_to_send env pgn m t).sessions ≤ n
  unfolding process_clear_to_send
  clear_to_send-bounded pgn = ground (
    arith,
    h,
    clear_to_send_for-bounded pgn (get_session_of_pgn t.sessions m.destination m.source pgn),
  )

  acknowledge_for-bounded :
      (pgn : ℕ) (o : Option (ℕ × Session)) → length (acknowledge_for env pgn m o t).sessions ≤ n
  unfolding acknowledge_for close_session
  acknowledge_for-bounded pgn none = ground (arith, h)
  acknowledge_for-bounded pgn (some (i, s)) = ground (arith, h, length-erase t.sessions i)

  acknowledge-bounded :
      (pgn : ℕ) → length (process_end_of_message_acknowledge env pgn m t).sessions ≤ n
  unfolding process_end_of_message_acknowledge
  acknowledge-bounded pgn = ground (
    arith,
    h,
    acknowledge_for-bounded pgn (get_session_of_pgn t.sessions m.destination m.source pgn),
  )

  abort-bounded : (pgn : ℕ) → length (process_connection_abort env pgn m t).sessions ≤ n
  unfolding process_connection_abort close_session
  abort-bounded pgn = abort_for (get_session_of_pgn t.sessions m.destination m.source pgn) refl
    where
      abort_for :
          (o : Option (ℕ × Session))
          → o ≡ get_session_of_pgn t.sessions m.destination m.source pgn
          → length (process_connection_abort env pgn m t).sessions ≤ n
      abort_for none e = ground (arith, e, h)
      abort_for (some (i, s)) e = ground (arith, e, h, length-erase t.sessions i)

  data_for-bounded : (i : ℕ) (s : Session) → length (data_for env m i s t).sessions ≤ n
  unfolding data_for complete_message close_session
  data_for-bounded i s =
      let next : Session = record (store_packet m.bytes s) { timestamp = env.now } in
      ground (arith, h, length-set t.sessions i next, length-erase t.sessions i)

  data-bounded : length (process_data env m t).sessions ≤ n
  unfolding process_data close_session
  data-bounded = data_of (get_session t.sessions m.source m.destination) refl
    where
      data_of :
          (o : Option (ℕ × Session))
          → o ≡ get_session t.sessions m.source m.destination
          → length (process_data env m t).sessions ≤ n
      data_of none e = ground (arith, e, h)
      data_of (some (i, s)) e =
          ground (arith, e, h, data_for-bounded i s, length-erase t.sessions i)

  command-bounded : length (process_command env m t).sessions ≤ n
  unfolding process_command
  command-bounded =
      let pgn = bit_or (bit_or (byte m 5) (byte m 6 << 8)) (byte m 7 << 16) in
      ground (
        arith,
        h,
        announce-bounded pgn,
        request-bounded pgn,
        clear_to_send-bounded pgn,
        acknowledge-bounded pgn,
        abort-bounded pgn,
      )

  message-bounded : length (process_message env m t).sessions ≤ n
  unfolding process_message
  message-bounded = ground (arith, h, command-bounded, data-bounded)

-- Frames from the bus, each at its time.
unfoldable pub receive_all : List (Env × CanMessage) → Manager → Manager
receive_all [] t = t
receive_all ((env, m) ∷ frames) t = receive_all frames (process_message env m t)

-- The maximum of sessions is at most `n` whenever a frame comes.
unfoldable pub AllCapped : ℕ → List (Env × CanMessage) → Type 0
AllCapped n [] = Unit
AllCapped n ((env, m) ∷ frames) = (env.max_sessions ≤ n) × AllCapped n frames

-- Whatever frames come from the bus, at whatever times, with the maximum of sessions set to at most
-- `n` throughout: from a state with at most `n` sessions there are never more than `n`.
pub receive_all-bounded :
    (n : ℕ) (frames : List (Env × CanMessage)) (t : Manager)
    → AllCapped n frames
    → length t.sessions ≤ n
    → length (receive_all frames t).sessions ≤ n
unfolding receive_all AllCapped
receive_all-bounded n [] t cap h = h
receive_all-bounded n ((env, m) ∷ frames) t cap h =
    receive_all-bounded n frames (process_message env m t) cap.1 (message-bounded env m t n h cap.0)
