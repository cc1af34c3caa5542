-- ===== src/Transport/Reassembly.antt =====
-- A broadcast message, sent packet by packet, is put together again and delivered once.
use iso11783_can_stack.Prelude.{
  ℕ, zero, suc, ◌+◌, ◌*◌, ◌-◌, ◌^◌, ◌≤◌, ◌<◌, ◌≡◌, ◌≢◌, refl, ap, sym, ◌∙◌, Option, some, none,
  List, [], ◌∷◌, u8, u16, arith, get_elem?, set, length, take, dec_lt,
}
use iso11783_can_stack.Message.{CanMessage, get_data_length}
use iso11783_can_stack.Identifier.{get_parameter_group_number}
use iso11783_can_stack.Network.{Env, delivered, fault, use_after_free}
use iso11783_can_stack.Transport.{
  Session, Manager, rx_data_session, get_session, erase, one_further, close_session,
  process_session_complete_callback, transport_protocol_data,
}
use iso11783_can_stack.Transport.Receive.{
  copy_payload, store_packet, process_data, process_message, data_for, complete_message,
}
use iso11783_can_stack.Transport.Frames.{send_end_of_session_acknowledgement}
use iso11783_can_stack.Transport.Transmit.{payload_from}
use iso11783_can_stack.Transport.Payload.{
  list_ext, get_elem?_past, get_elem?-get_or, copy_payload-bytes, copy_payload-fields,
  length-copy_payload, payload_from-bytes, length-payload_from,
}

-- The bytes of packet `k` (from 0) of a message.
abbrev pub packet : List ℕ → ℕ → List ℕ
packet message k = (k + 1) ∷ payload_from 7 (7 * k) (length message) message

-- A session that has stored the first `k` packets of a message.
pub record HasStored (message : List ℕ) (k : ℕ) (s : Session) : Type 0 where
  pub state : s.state ≡ rx_data_session
  pub global : s.message.destination ≡ none
  pub no_callback : s.complete_callback ≡ none
  pub buffered : s.message.callback_message_size ≡ 0
  pub last : s.last_packet ≡ k
  pub size : length s.message.bytes ≡ length message
  pub stored : (j : ℕ) → j < 7 * k → get_elem? s.message.bytes j ≡ get_elem? message j

one_further-zero : (o : Option (ℕ × Session)) (s : Session) → one_further o ≢ some (0, s)
one_further-zero none s h = cc
one_further-zero (some (i, t)) s h = ground arith

one_further-suc :
    (o : Option (ℕ × Session)) (i : ℕ) (s : Session)
    → one_further o ≡ some (suc i, s)
    → o ≡ some (i, s)
one_further-suc none i s h = cc
one_further-suc (some (j, t)) i s h = ground arith

get_session-set :
    (ss : List Session) (source destination : Option ℕ) (i : ℕ) (s s' : Session)
    → get_session ss source destination ≡ some (i, s)
    → s'.message.source ≡ s.message.source
    → s'.message.destination ≡ s.message.destination
    → get_session (set ss i s') source destination ≡ some (i, s')
unfolding get_session
get_session-set [] source destination i s s' h e d = cc
get_session-set (t ∷ ss) source destination zero s s' h e d =
    ground (arith, one_further-zero (get_session ss source destination) s)
get_session-set (t ∷ ss) source destination (suc i) s s' h e d =
    let found = one_further-suc (get_session ss source destination) i s in
    let rest = get_session-set ss source destination i s s' in ground (arith, found, rest)

erase-set : (ss : List Session) (i : ℕ) (s : Session) → erase (set ss i s) i ≡ erase ss i
unfolding erase
erase-set [] i s = refl
erase-set (t ∷ ss) zero s = refl
erase-set (t ∷ ss) (suc i) s = ap (◌∷◌ t) (erase-set ss i s)

take_payload :
    (p len : ℕ) (bs : List ℕ) → take 7 (payload_from 7 p len bs) ≡ payload_from 7 p len bs
unfolding payload_from
take_payload p len bs = refl

module _ (message : List ℕ) (k : ℕ) (s : Session) (small : 7 * k + 7 < 2 ^ 16)
    (h : HasStored message k s) where
  copied : CanMessage
  copied = copy_payload (payload_from 7 (7 * k) (length message) message) (7 * k) s.message

  copied-bytes : (j : ℕ) → j < 7 * (k + 1) → get_elem? copied.bytes j ≡ get_elem? message j
  unfolding copied
  copied-bytes j hj =
      let p = payload_from 7 (7 * k) (length message) message in
      let size = length-payload_from 7 (7 * k) (length message) message in
      let written = copy_payload-bytes p (7 * k) s.message j (omega (arith, size)) in
      let read = payload_from-bytes 7 (7 * k) (length message) message (j - 7 * k) in
      elim (dec_lt j (7 * k)) [
        | yes old ↦ ground (arith, written, h.stored j old)
        | no new ↦
            let at : 7 * k + (j - 7 * k) ≡ j = omega arith in
            elim (dec_lt j (length message)) [
              | yes inside ↦
                  ground
                    (arith, size, written, read, h.size, get_elem?-get_or message j 0xFF inside)
              | no past ↦ ground (
                arith,
                size,
                written,
                h.size,
                get_elem?_past message j (omega arith),
                get_elem?_past s.message.bytes j (omega (arith, h.size)),
              )
            ]
      ]

  copied-fields : copied ≡ record s.message { bytes = copied.bytes }
  unfolding copied
  copied-fields = copy_payload-fields _ _ _

  store_packet_lem : store_packet (packet message k) s ≡ record s {
    message = copied;
    last_packet = u16 (k + 1);
    processed_packets = u8 (s.processed_packets + 1);
  }
  unfolding store_packet copied
  store_packet_lem = ground (arith, h.last, take_payload (7 * k) (length message) message)

  stored_bytes_size : length copied.bytes ≡ length message
  unfolding copied
  stored_bytes_size = length-copy_payload _ _ _ ∙ h.size

  store_packet-HasStored : HasStored message (k + 1) (store_packet (packet message k) s)
  store_packet-HasStored = rw store_packet_lem (record {
    state = h.state;
    global = ap (λ m. m.destination) copied-fields ∙ h.global;
    no_callback = h.no_callback;
    buffered = ap (λ m. m.callback_message_size) copied-fields ∙ h.buffered;
    last = omega arith;
    size = stored_bytes_size;
    stored = copied-bytes;
  })

  store_packet-source : (store_packet (packet message k) s).message.source ≡ s.message.source
  store_packet-source = rw store_packet_lem (ap (λ m. m.source) copied-fields)

  -- Once the packets cover the message, it has been put together whole.
  store_packet_complete :
      length message ≤ 7 * (k + 1)
      → (store_packet (packet message k) s).message ≡ record s.message { bytes = message }
  store_packet_complete e = rw store_packet_lem (
      copied-fields
      ∙ ap (λ bytes. record s.message { bytes = bytes })
          (list_ext copied.bytes message stored_bytes_size (λ j hj. copied-bytes j (omega arith))))

module _ (env : Env) (m : CanMessage) (t : Manager) (i : ℕ) (message : List ℕ) (k : ℕ) (s : Session)
    (small : 7 * k + 7 < 2 ^ 16) (h : HasStored message k s)
    (found : get_session t.sessions m.source none ≡ some (i, s)) (to_all : m.destination ≡ none)
    (carries : m.bytes ≡ packet message k) where
  next : HasStored message (k + 1) (store_packet (packet message k) s)
  next = store_packet-HasStored message k s small h

  process_data-data_for : process_data env m t ≡ data_for env m i s t
  unfolding process_data
  process_data-data_for = ground (
    arith,
    found,
    to_all,
    carries,
    length-payload_from 7 (7 * k) (length message) message,
    h.state,
  )

  process_data_middle :
      7 * (k + 1) < length message
      → process_data env m t ≡ record t {
        sessions =
            set t.sessions i (record (store_packet (packet message k) s) { timestamp = env.now });
      }
  unfolding data_for get_data_length
  process_data_middle more = process_data-data_for ∙ middle
    where
      middle : data_for env m i s t ≡ record t {
        sessions =
            set t.sessions i (record (store_packet (packet message k) s) { timestamp = env.now });
      }
      middle = ground (arith, carries, next, h)

  process_data_last :
      length message ≤ 7 * (k + 1)
      → process_data env m t ≡ record {
        sessions = erase t.sessions i;
        log = fault use_after_free ∷ delivered (record s.message { bytes = message }) ∷ t.log;
      }
  unfolding data_for get_data_length complete_message close_session
      process_session_complete_callback send_end_of_session_acknowledgement
  process_data_last all =
      process_data-data_for
      ∙ ground (arith, carries, next, h, store_packet_complete message k s small h all)

-- A frame from `source` to all that carries packet `k` of a message.
pub record IsPacket (message : List ℕ) (source : Option ℕ) (k : ℕ) (m : CanMessage) : Type 0 where
  pub pgn : get_parameter_group_number m.identifier ≡ transport_protocol_data
  pub from : m.source ≡ source
  pub to_all : m.destination ≡ none
  pub carries : m.bytes ≡ packet message k

process_message-process_data :
    (env : Env) (m : CanMessage) (t : Manager) {message : List ℕ} {source : Option ℕ} {k : ℕ}
    → IsPacket message source k m
    → process_message env m t ≡ process_data env m t
unfolding process_message
process_message-process_data env m t p = ground (arith, p)

-- `rounds` frames, received one after the other from number `k` on, each at a time of its own.
unfoldable pub receive_from : (ℕ → Env) → (ℕ → CanMessage) → ℕ → ℕ → Manager → Manager
receive_from env frames zero k t = t
receive_from env frames (suc rounds) k t =
    receive_from env frames rounds (k + 1) (process_message (env k) (frames k) t)

store_packet-message :
    (message bytes : List ℕ) (k : ℕ) (s : Session)
    → 7 * k + 7 < 2 ^ 16
    → HasStored message k s
    → record (store_packet (packet message k) s).message { bytes = bytes }
      ≡ record s.message { bytes = bytes }
store_packet-message message bytes k s small h =
    rw (store_packet_lem message k s small h)
      (ap {A = CanMessage} (λ m. record m { bytes = bytes }) (copied-fields message k s small h))

module _ (env : ℕ → Env) (frames : ℕ → CanMessage) (message : List ℕ) (source : Option ℕ)
    (packets : (k : ℕ) → IsPacket message source k (frames k)) (fits : length message ≤ 1785) where
  -- An open session for a message of at most 1785 bytes to all, which has stored the first `k`
  -- packets, receives the others in order, with other sessions beside it: the message is
  -- delivered to the application once, with exactly the bytes that were sent, and the session is
  -- closed. (After that, the code still writes to the deleted session.)
  pub receive_from_delivers :
      (r k i : ℕ) (t : Manager) (s : Session)
      → get_session t.sessions source none ≡ some (i, s)
      → HasStored message k s
      → 7 * (k + r) < length message
      → length message ≤ 7 * (k + r) + 7
      → receive_from env frames (suc r) k t ≡ record {
        sessions = erase t.sessions i;
        log = fault use_after_free ∷ delivered (record s.message { bytes = message }) ∷ t.log;
      }
  unfolding receive_from
  receive_from_delivers zero k i t s found h lo hi =
      process_message-process_data (env k) (frames k) t (packets k)
      ∙ process_data_last (env k) (frames k) t i message k s (omega arith) h
          (rw (packets k).from found) (packets k).to_all (packets k).carries (omega arith)
  receive_from_delivers (suc r) k i t s found h lo hi =
      rw (step, receive_from_delivers r (k + 1) i t' s' found' stored (omega arith) (omega arith))
        (cc (erase-set t.sessions i s', store_packet-message message message k s small h))
    where
      s' : Session
      s' = record (store_packet (packet message k) s) { timestamp = (env k).now }

      t' : Manager
      t' = record t { sessions = set t.sessions i s' }

      small : 7 * k + 7 < 2 ^ 16
      small = omega arith

      kept : HasStored message (k + 1) (store_packet (packet message k) s)
      kept = store_packet-HasStored message k s small h

      stored : HasStored message (k + 1) s'
      stored = record {
        state = kept.state;
        global = kept.global;
        no_callback = kept.no_callback;
        buffered = kept.buffered;
        last = kept.last;
        size = kept.size;
        stored = kept.stored;
      }

      found' : get_session t'.sessions source none ≡ some (i, s')
      found' =
          get_session-set t.sessions source none i s s' found
            (store_packet-source message k s small h) (kept.global ∙ sym h.global)

      step : process_message (env k) (frames k) t ≡ t'
      step =
          process_message-process_data (env k) (frames k) t (packets k)
          ∙ process_data_middle (env k) (frames k) t i message k s small h
              (rw (packets k).from found) (packets k).to_all (packets k).carries (omega arith)
