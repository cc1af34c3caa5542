-- ===== src/Transport/Silence.antt =====
-- What the receiver of can_transport_protocol.cpp sends between the first clearance of a session
-- and its end.
use iso11783_can_stack.Prelude.{ℕ, ◌≡◌, refl, ◌⊎◌, inl, inr, some, none, List, [], ◌∷◌, arith, set}
use iso11783_can_stack.Message.{CanMessage}
use iso11783_can_stack.Network.{Env, Log}
use iso11783_can_stack.Transport.{
  Session, Manager, rx_data_session, get_session, close_session, erase,
}
use iso11783_can_stack.Transport.Receive.{process_data, data_for, complete_message, store_packet}
use iso11783_can_stack.Transport.Transmit.{
  update, update_sessions, update_state_machine, timed_out, close,
}

pub data ReceiverEvent : Type 0 where
  updates : Env → ReceiverEvent
  receives_data : Env → CanMessage → ReceiverEvent

unfoldable pub step : ReceiverEvent → Manager → Manager
step (updates env) t = update env t
step (receives_data env m) t = process_data env m t

unfoldable pub run : List ReceiverEvent → Manager → Manager
run [] t = t
run (e ∷ es) t = run es (step e t)

-- One session, which receives packets, and a log that is as it was.
pub record IsReceiving (log : Log) (t : Manager) : Type 0 where
  pub session : Session
  pub only : t.sessions ≡ session ∷ []
  pub state : session.state ≡ rx_data_session
  pub silent : t.log ≡ log

abbrev pub IsSilent : Log → Manager → Type 0
IsSilent log t = IsReceiving log t ⊎ (t.sessions ≡ [])

store_packet-state : (bytes : List ℕ) (s : Session) → (store_packet bytes s).state ≡ s.state
unfolding store_packet
store_packet-state bytes s = refl

update_receiving :
    (env : Env) (s : Session) (log : Log)
    → s.state ≡ rx_data_session
    → (update_state_machine env s log ≡ (some s, log)) ⊎ ((update_state_machine env s log).0 ≡ none)
unfolding update_state_machine timed_out close
update_receiving env s log h = ground (arith, h)

-- What a packet does to a session: it is stored, or the session is erased.
data_for_lem :
    (env : Env) (m : CanMessage) (i : ℕ) (s : Session) (t : Manager)
    → (data_for env m i s t ≡ record t {
      sessions = set t.sessions i (record (store_packet m.bytes s) { timestamp = env.now });
    })
      ⊎ ((data_for env m i s t).sessions ≡ erase t.sessions i)
unfolding data_for complete_message close_session
data_for_lem env m i s t = ground arith

process_data_lem :
    (env : Env) (m : CanMessage) (s : Session) (t : Manager)
    → t.sessions ≡ s ∷ []
    → (process_data env m t
        ≡ record t { sessions = record (store_packet m.bytes s) { timestamp = env.now } ∷ [] })
      ⊎ ((process_data env m t ≡ t) ⊎ ((process_data env m t).sessions ≡ []))
unfolding process_data get_session close_session erase
process_data_lem env m s t only = ground (arith, only, data_for_lem env m 0 s t)

module _ (log : Log) (t : Manager) (h : IsReceiving log t) where
  update-IsSilent : (env : Env) → IsSilent log (update env t)
  unfolding update update_sessions
  update-IsSilent env = elim (update_receiving env h.session t.log h.state) [
    | inl e ↦ inl (record {
      session = h.session;
      only = ground (arith, h.only, e);
      state = h.state;
      silent = ground (arith, h.only, h.silent, e);
    })
    | inr e ↦ inr (ground (arith, h.only, e))
  ]

  process_data-IsSilent : (env : Env) (m : CanMessage) → IsSilent log (process_data env m t)
  unfolding process_data get_session close_session erase
  process_data-IsSilent env m =
      let next : Session = record (store_packet m.bytes h.session) { timestamp = env.now } in
      elim (process_data_lem env m h.session t h.only) [
        | inl e ↦ inl (record {
          session = next;
          only = ground (arith, h.only, e);
          state = ground (arith, h.state, store_packet-state m.bytes h.session);
          silent = ground (arith, h.silent, e);
        })
        | inr (inl e) ↦ inl (record {
          session = h.session;
          only = ground (arith, h.only, e);
          state = h.state;
          silent = ground (arith, h.silent, e);
        })
        | inr (inr e) ↦ inr e
      ]

step-IsSilent :
    (log : Log) (e : ReceiverEvent) (t : Manager) → IsSilent log t → IsSilent log (step e t)
unfolding step update update_sessions process_data get_session
step-IsSilent log (updates env) t (inl h) = update-IsSilent log t h env
step-IsSilent log (updates env) t (inr h) = inr (ground (arith, h))
step-IsSilent log (receives_data env m) t (inl h) = process_data-IsSilent log t h env m
step-IsSilent log (receives_data env m) t (inr h) = inr (ground (arith, h))

-- From a state with no session, or with one session, which is receiving packets, through any
-- sequence of updates and of packets, at any times: either there is one session, still
-- receiving packets, and nothing was sent, so no further segment was cleared, and nobody was
-- called; or there is no session.
pub receiver_never_clears_again :
    (log : Log) (es : List ReceiverEvent) (t : Manager) → IsSilent log t → IsSilent log (run es t)
unfolding run
receiver_never_clears_again log [] t h = h
receiver_never_clears_again log (e ∷ es) t h =
    receiver_never_clears_again log es (step e t) (step-IsSilent log e t h)
