-- ===== src/Transport/Requests.antt =====
-- What can_transport_protocol.cpp accepts for sending.
use iso11783_can_stack.Prelude.{
  ℕ, ◌+◌, ◌*◌, ◌^◌, ◌≤◌, ◌<◌, ◌≡◌, refl, true, false, Option, some, List, [], ◌∷◌, ◌++◌, arith,
}
use iso11783_can_stack.Network.{Env, TxRequest}
use iso11783_can_stack.Transport.{Manager, session_pgn}
use iso11783_can_stack.Transport.Transmit.{
  tx_session, protocol_transmit_message, destination_address,
}
use iso11783_can_stack.Transport.Announce.{IsCarried, get_parameter_group_number-encode}
use iso11783_can_stack.Message.{CanMessage}
use iso11783_can_stack.Transport.Agreement.{
  any_between, all_agree, agree-append, agree_vacuous, get_session_of_pgn_found,
}
use iso11783_can_stack.Transport.Undisturbed.{happen, NoneFrom, happen-all_agree}

module _ (env : Env) (r : TxRequest) (source : ℕ) (t : Manager) (from : r.source ≡ some source)
    (accepted : (protocol_transmit_message env r t).0 ≡ true) where
  -- A message that the protocol accepts has 9 to 1785 bytes; the protocol's only change is one new
  -- session for it at the end of the list, whose packets of seven bytes are just enough for the
  -- message, and are numbered within a byte.
  pub accepted_covers :
      ((protocol_transmit_message env r t).1
        ≡ record t { sessions = t.sessions ++ tx_session env r source ∷ [] })
      × (8 < r.length)
      × (r.length ≤ 1785)
      × (r.length ≤ 7 * (tx_session env r source).packet_count)
      × (7 * (tx_session env r source).packet_count < r.length + 7)
      × ((tx_session env r source).packet_count ≤ 255)
  unfolding protocol_transmit_message tx_session
  accepted_covers = ground (arith, from, accepted)

  tx_session-source : (tx_session env r source).message.source ≡ some source
  unfolding tx_session
  tx_session-source = refl

  tx_session-destination : (tx_session env r source).message.destination ≡ r.destination
  unfolding tx_session
  tx_session-destination = refl

  tx_session-session_pgn :
      IsCarried r.pgn
      → (env.cf source).address < 2 ^ 8
      → destination_address env r.destination < 2 ^ 8
      → session_pgn (tx_session env r source) ≡ r.pgn
  unfolding tx_session session_pgn
  tx_session-session_pgn carried a d =
      get_parameter_group_number-encode r.pgn 6 (destination_address env r.destination)
        (env.cf source).address carried (omega arith) d a

  -- While a message is sent: it was accepted with no session open before between the same two
  -- control functions, whose addresses are bytes, under a PGN that identifiers carry whole. After
  -- any updates and any frames that do not come from the sender itself, at whatever times, as long
  -- as a session from the one to the other stands in the table, in whatever state, a second
  -- message under the same PGN between them is refused, and changes nothing.
  pub second_request_refused :
      (es : List (Env × Option CanMessage)) (env' : Env) (r' : TxRequest)
      → IsCarried r.pgn
      → (env.cf source).address < 2 ^ 8
      → destination_address env r.destination < 2 ^ 8
      → any_between (some source) r.destination t.sessions ≡ false
      → NoneFrom source es
      → r'.source ≡ some source
      → r'.destination ≡ r.destination
      → r'.pgn ≡ r.pgn
      → let later = happen es (protocol_transmit_message env r t).1 in
        any_between (some source) r.destination later.sessions ≡ true
        → protocol_transmit_message env' r' later ≡ (false, later)
  unfolding protocol_transmit_message
  second_request_refused es env' r' carried a d alone others from' to' same is_open =
      let opened_agrees =
        agree-append (some source) r.destination r.pgn t.sessions (tx_session env r source)
          (agree_vacuous (some source) r.destination r.pgn t.sessions alone)
          (ground (arith, tx_session-session_pgn carried a d)) in
      let later = happen es (protocol_transmit_message env r t).1 in
      let agreed : all_agree (some source) r.destination r.pgn later.sessions ≡ true =
        happen-all_agree source r.destination r.pgn es (protocol_transmit_message env r t).1 others
          (ground (arith, accepted_covers.0, opened_agrees)) in
      ground (
        arith,
        get_session_of_pgn_found (some source) r.destination r.pgn later.sessions agreed is_open,
        from',
        to',
        same,
      )
