-- ===== src/ExtendedTransport/Storing.antt =====
-- One packet at the receiver of can_extended_transport_protocol.cpp.
use iso11783_can_stack.Prelude.{
  ℕ, zero, suc, ◌+◌, ◌*◌, ◌-◌, ◌^◌, ◌≤◌, ◌<◌, ◌≡◌, ◌≢◌, refl, ap, ◌∙◌, Option, some, none, List, [],
  ◌∷◌, u32, arith, get_elem?, set, length, take, drop, dec_lt,
}
use iso11783_can_stack.Transport.Transmit.{payload_from}
use iso11783_can_stack.Transport.Payload.{
  list_ext, get_elem?_past, get_elem?-get_or, write_bytes-bytes, write_bytes-fields,
  length-write_bytes, payload_from-bytes, length-payload_from,
}
use iso11783_can_stack.ExtendedTransport.{
  ExtendedTransportProtocolSession, rx_data_session, get_session, erase, next_place, Found,
}
use iso11783_can_stack.ExtendedTransport.Receive.{store_packet}
use iso11783_can_stack.ExtendedTransport.Segment.{packet}

-- A session that has stored the first `k` packets of a message, `j` of them in this segment.
pub record HasStored (message : List ℕ) (j k : ℕ) (s : ExtendedTransportProtocolSession)
    : Type 0 where
  pub state : s.state ≡ rx_data_session
  pub no_callback : s.complete_callback ≡ none
  pub buffered : s.message.callback_message_size ≡ 0
  pub last : s.last_packet ≡ j
  pub processed : s.processed_packets ≡ k
  pub size : length s.message.bytes ≡ length message
  pub stored : (x : ℕ) → x < 7 * k → get_elem? s.message.bytes x ≡ get_elem? message x

next_place-zero : (o : Found) (s : ExtendedTransportProtocolSession) → next_place o ≢ some (0, s)
next_place-zero none s h = cc
next_place-zero (some (i, t)) s h = ground arith

next_place-suc :
    (o : Found) (i : ℕ) (s : ExtendedTransportProtocolSession)
    → next_place o ≡ some (suc i, s)
    → o ≡ some (i, s)
next_place-suc none i s h = cc
next_place-suc (some (j, t)) i s h = ground arith

pub get_session-set :
    (ss : List ExtendedTransportProtocolSession) (source destination : Option ℕ) (i : ℕ)
    (s s' : ExtendedTransportProtocolSession)
    → get_session ss source destination ≡ some (i, s)
    → s'.message.source ≡ s.message.source
    → s'.message.destination ≡ s.message.destination
    → get_session (set ss i s') source destination ≡ some (i, s')
unfolding get_session
get_session-set [] source destination i s s' h e d = cc
get_session-set (t ∷ ss) source destination zero s s' h e d =
    ground (arith, next_place-zero (get_session ss source destination) s)
get_session-set (t ∷ ss) source destination (suc i) s s' h e d =
    let found = next_place-suc (get_session ss source destination) i s in
    let rest = get_session-set ss source destination i s s' in ground (arith, found, rest)

pub set-found :
    (ss : List ExtendedTransportProtocolSession) (source destination : Option ℕ) (i : ℕ)
    (s : ExtendedTransportProtocolSession)
    → get_session ss source destination ≡ some (i, s)
    → set ss i s ≡ ss
unfolding get_session
set-found [] source destination i s h = cc
set-found (t ∷ ss) source destination zero s h =
    ground (arith, next_place-zero (get_session ss source destination) s)
set-found (t ∷ ss) source destination (suc i) s h =
    let found = next_place-suc (get_session ss source destination) i s in
    let rest = set-found ss source destination i s in ground (arith, found, rest)

pub set-set :
    (ss : List ExtendedTransportProtocolSession) (i : ℕ) (s s' : ExtendedTransportProtocolSession)
    → set (set ss i s) i s' ≡ set ss i s'
set-set [] i s s' = refl
set-set (t ∷ ss) zero s s' = refl
set-set (t ∷ ss) (suc i) s s' = ap (◌∷◌ t) (set-set ss i s s')

pub erase-set :
    (ss : List ExtendedTransportProtocolSession) (i : ℕ) (s : ExtendedTransportProtocolSession)
    → erase (set ss i s) i ≡ erase ss i
unfolding erase
erase-set [] i s = refl
erase-set (t ∷ ss) zero s = refl
erase-set (t ∷ ss) (suc i) s = ap (◌∷◌ t) (erase-set ss i s)

packet_payload :
    (message : List ℕ) (j k : ℕ)
    → take 7 (drop 1 (packet message j k)) ≡ payload_from 7 (7 * k) (length message) message
unfolding payload_from
packet_payload message j k = refl

module _ (message : List ℕ) (j k : ℕ) (s : ExtendedTransportProtocolSession)
    (small : 7 * k + 7 < 2 ^ 32) (h : HasStored message j k s) (numbered : j < 2 ^ 8) where
  unfoldable pub next : ExtendedTransportProtocolSession
  next = store_packet (packet message j k) s

  next-stored : (x : ℕ) → x < 7 * (k + 1) → get_elem? next.message.bytes x ≡ get_elem? message x
  unfolding next store_packet
  next-stored x hx =
      let p = payload_from 7 (7 * k) (length message) message in
      let size = length-payload_from 7 (7 * k) (length message) message in
      let written =
        write_bytes-bytes p (u32 (7 * s.processed_packets)) (7 * k) s.message x
          (omega (arith, h.processed)) (omega (arith, size)) in
      let read = payload_from-bytes 7 (7 * k) (length message) message (x - 7 * k) in
      let payload = packet_payload message j k in
      elim (dec_lt x (7 * k)) [
        | yes old ↦ ground (arith, payload, written, h.stored x old)
        | no new ↦
            let at : 7 * k + (x - 7 * k) ≡ x = omega arith in
            elim (dec_lt x (length message)) [
              | yes inside ↦ ground (
                arith,
                payload,
                size,
                written,
                read,
                h.size,
                get_elem?-get_or message x 0xFF inside,
              )
              | no past ↦ ground (
                arith,
                payload,
                size,
                written,
                h.size,
                get_elem?_past message x (omega arith),
                get_elem?_past s.message.bytes x (omega (arith, h.size)),
              )
            ]
      ]

  pub next-fields : next.message ≡ record s.message { bytes = next.message.bytes }
  unfolding next store_packet
  next-fields = write_bytes-fields _ _ _

  next-size : length next.message.bytes ≡ length message
  unfolding next store_packet
  next-size = length-write_bytes _ _ _ ∙ h.size

  pub next-HasStored : HasStored message (j + 1) (k + 1) next
  unfolding next store_packet
  next-HasStored = record {
    state = h.state;
    no_callback = h.no_callback;
    buffered = ap (λ m. m.callback_message_size) next-fields ∙ h.buffered;
    last = omega (arith, h.last);
    processed = omega (arith, h.processed);
    size = next-size;
    stored = next-stored;
  }

  -- Once the packets cover the message, it has been put together whole.
  pub next_complete :
      length message ≤ 7 * (k + 1) → next.message ≡ record s.message { bytes = message }
  next_complete e =
      next-fields
      ∙ ap (λ bytes. record s.message { bytes = bytes })
          (list_ext next.message.bytes message next-size (λ x hx. next-stored x (omega arith)))
