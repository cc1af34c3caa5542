-- ===== src/ExtendedTransport/Steps.antt =====
-- One packet of a segment, handled by the receiver of can_extended_transport_protocol.cpp.
use iso11783_can_stack.Prelude.{
  ℕ, zero, suc, ◌+◌, ◌*◌, ◌^◌, ◌≤◌, ◌<◌, ◌≡◌, ap, ◌∙◌, true, Option, some, none, List, ◌∷◌, arith,
  set, length, is_some,
}
use iso11783_can_stack.Message.{CanMessage, get_data_length}
use iso11783_can_stack.Identifier.{get_parameter_group_number}
use iso11783_can_stack.Network.{
  Env, Log, delivered, fault, use_after_free, get_internal_control_function,
}
use iso11783_can_stack.Transport.Transmit.{payload_from}
use iso11783_can_stack.ExtendedTransport.{
  ExtendedTransportProtocolSession, ExtendedTransportProtocolManager, get_session, erase,
  close_session, process_session_complete_callback, data_transfer, session_pgn,
}
use iso11783_can_stack.ExtendedTransport.Receive.{
  process_data, process_message, data_for, complete_message,
}
use iso11783_can_stack.ExtendedTransport.Frames.{send_end_of_session_acknowledgement, length_bytes}
use iso11783_can_stack.ExtendedTransport.Segment.{packet}
use iso11783_can_stack.ExtendedTransport.Storing.{HasStored, next, next-HasStored, next_complete}

-- A frame that carries packet `k` of a message with the number `j` of its segment (both from 0).
pub record IsPacket (message : List ℕ) (source : Option ℕ) (d j k : ℕ) (m : CanMessage)
    : Type 0 where
  pub pgn : get_parameter_group_number m.identifier ≡ data_transfer
  pub from : m.source ≡ source
  pub to : m.destination ≡ some d
  pub carries : m.bytes ≡ packet message j k

-- Frames that are received one after the other, from number `j` of a segment on, each at a time of
-- its own.
unfoldable pub receive_from :
    (ℕ → Env)
    → (ℕ → CanMessage)
    → ℕ
    → ℕ
    → ExtendedTransportProtocolManager
    → ExtendedTransportProtocolManager
receive_from env frames zero j t = t
receive_from env frames (suc rounds) j t =
    receive_from env frames rounds (j + 1) (process_message (env j) (frames j) t)

-- The acknowledgement depends on the message alone.
acknowledge_message :
    (env : Env) (s : ExtendedTransportProtocolSession) (m : CanMessage) (log : Log)
    → s.message ≡ m
    → send_end_of_session_acknowledgement env s log
      ≡ send_end_of_session_acknowledgement env (record s { message = m }) log
unfolding send_end_of_session_acknowledgement
acknowledge_message env s m log e =
    ap (λ (x : CanMessage). send_end_of_session_acknowledgement env (record s { message = x }) log)
      e

pub acknowledge_same :
    (env : Env) (s s' : ExtendedTransportProtocolSession) (log : Log)
    → s.message ≡ s'.message
    → send_end_of_session_acknowledgement env s log ≡ send_end_of_session_acknowledgement env s' log
unfolding send_end_of_session_acknowledgement length_bytes session_pgn
acknowledge_same env s s' log e =
    ap (λ (x : CanMessage). send_end_of_session_acknowledgement env (record s { message = x }) log)
      e

complete_message_lem :
    (env : Env) (i d : ℕ) (s s' : ExtendedTransportProtocolSession) (m : CanMessage)
    (t : ExtendedTransportProtocolManager)
    → s'.message ≡ m
    → s'.complete_callback ≡ none
    → m.destination ≡ some d
    → complete_message env i s' t ≡ record {
      sessions = erase t.sessions i;
      log =
          fault use_after_free
          ∷ delivered m
          ∷ (send_end_of_session_acknowledgement env (record s { message = m }) t.log).1;
    }
unfolding complete_message close_session process_session_complete_callback
    send_end_of_session_acknowledgement length_bytes session_pgn
complete_message_lem env i d s s' m t e quiet to =
    ground (arith, e, quiet, to, acknowledge_message env s' m t.log e)

module _ (env : Env) (m : CanMessage) (t : ExtendedTransportProtocolManager) (i : ℕ)
    (message : List ℕ) (source : Option ℕ) (d j k : ℕ) (s : ExtendedTransportProtocolSession)
    (small : 7 * k + 7 < 2 ^ 32) (h : HasStored message j k s) (numbered : j < 255)
    (found : get_session t.sessions source (some d) ≡ some (i, s))
    (p : IsPacket message source d j k m)
    (ours : is_some (get_internal_control_function env (some d)) ≡ true) where
  abbrev pub after : ExtendedTransportProtocolSession
  after = next message j k s small h (omega arith)

  process_message-data_for : process_message env m t ≡ data_for env m i s t
  unfolding process_message process_data payload_from
  process_message-data_for = ground (arith, p, ours, found)

  pub process_message_middle :
      7 * (k + 1) < length message
      → process_message env m t
        ≡ record t { sessions = set t.sessions i (record after { timestamp = env.now }) }
  unfolding data_for get_data_length next
  process_message_middle more =
      let stored = next-HasStored message j k s small h (omega arith) in
      process_message-data_for
      ∙ ground (arith, p.carries, h.state, h.last, stored.size, stored.processed, stored.buffered)

  pub process_message_last :
      length message ≤ 7 * (k + 1)
      → s.message.destination ≡ some d
      → process_message env m t ≡ record {
        sessions = erase t.sessions i;
        log =
            fault use_after_free
            ∷ delivered (record s.message { bytes = message })
            ∷ (send_end_of_session_acknowledgement env
                (record s { message = record s.message { bytes = message } })
                t.log).1;
      }
  unfolding data_for get_data_length next
  process_message_last all to =
      let stored = next-HasStored message j k s small h (omega arith) in
      process_message-data_for
      ∙ ground (arith, p.carries, h.state, h.last, stored.size, stored.processed, stored.buffered)
      ∙ complete_message_lem env i d s after (record s.message { bytes = message }) t
          (next_complete message j k s small h (omega arith) all) stored.no_callback to
