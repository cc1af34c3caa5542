-- ===== src/FastPacket/Receiver.antt =====
-- What the receiver of nmea2000_fast_packet_protocol.cpp makes of the frames of a message.
use iso11783_can_stack.Prelude.{
  ℕ, zero, suc, ◌+◌, ◌*◌, ◌-◌, ◌%◌, ◌^◌, ◌≤◌, ◌<◌, ◌≡◌, refl, ap, ◌∙◌, ◌&&◌, Option, some, none,
  List, [], ◌∷◌, ◌++◌, ◌==◌, leb, ltb, if◌then◌else◌, arith, get_elem?, get_or, set, length, take,
  drop, dec_lt, length-set, replicate, length-replicate,
}
use iso11783_can_stack.Message.{CanMessage, write_bytes, set_data_size, new}
use iso11783_can_stack.Identifier.{get_parameter_group_number}
use iso11783_can_stack.Network.{Env, Log, Event, delivered}
use iso11783_can_stack.Transport.Transmit.{payload_from}
use iso11783_can_stack.Transport.Payload.{
  write_bytes-bytes, length-write_bytes, write_bytes-fields, get_elem?-replicate, take-replicate,
  list_ext, get_elem?_past, get_elem?-get_or, get_elem?-set, payload_from-bytes,
  length-payload_from,
}
use iso11783_can_stack.FastPacket.{
  FastPacketProtocolSession, ParameterGroupNumberCallbackData, new_session,
}
use iso11783_can_stack.FastPacket.Receive.{continued, rx_packet_count, deliver, opened_session}
use iso11783_can_stack.FastPacket.Frames.{fast_frame}

-- A session that has stored the first `k` frames of a message, from 1 on.
pub record HasStored (message : List ℕ) (k : ℕ) (s : FastPacketProtocolSession) : Type 0 where
  pub no_callback : s.complete_callback ≡ none
  pub processed : s.processed_packets ≡ k
  pub count : s.packet_count ≡ rx_packet_count (length message)
  pub size : length s.message.bytes ≡ length message
  pub stored : (j : ℕ) → j < 7 * k - 1 → get_elem? s.message.bytes j ≡ get_elem? message j
  pub blank : (j : ℕ) → 7 * k - 1 ≤ j → j < length message → get_elem? s.message.bytes j ≡ some 0

-- The bytes that arrive: the last one of a length that 7 divides does not.
unfoldable pub arrived : List ℕ → List ℕ
arrived message = if length message % 7 == 0 then set message (length message - 1) 0 else message

pub payload : List ℕ → ℕ → List ℕ
payload message k = payload_from 7 (6 + 7 * k) (length message) message

frame_payload :
    (message : List ℕ) (sequence k : ℕ)
    → take 7 (drop 1 (fast_frame message sequence (suc k))) ≡ payload message k
unfolding fast_frame payload payload_from
frame_payload message sequence k = refl

module _ (message : List ℕ) (sequence k : ℕ) (s : FastPacketProtocolSession) (small : k < 32)
    (h : HasStored message (suc k) s) where
  unfoldable pub next : FastPacketProtocolSession
  next = continued (fast_frame message sequence (suc k)) s

  written :
      (j : ℕ)
      → get_elem? next.message.bytes j ≡ (
          if leb (6 + 7 * k) j && ltb j (6 + 7 * k + 7) && ltb j (length message)
          then get_elem? (payload message k) (j - (6 + 7 * k))
          else get_elem? s.message.bytes j)
  unfolding next continued payload
  written j =
      let size = length-payload_from 7 (6 + 7 * k) (length message) message in
      let write =
        write_bytes-bytes (payload message k) (s.processed_packets * 7 + 2 ^ 32 - 1) (6 + 7 * k)
          s.message j (omega (arith, h.processed)) (omega (arith, size)) in
      ground (arith, write, frame_payload message sequence k, size, h.size)

  next-stored :
      (j : ℕ) → j < 7 * suc (suc k) - 1 → get_elem? next.message.bytes j ≡ get_elem? message j
  unfolding payload
  next-stored j hj =
      let read = payload_from-bytes 7 (6 + 7 * k) (length message) message (j - (6 + 7 * k)) in
      elim (dec_lt j (6 + 7 * k)) [
        | yes old ↦ ground (arith, written j, h.stored j (omega arith))
        | no new ↦
            let at : 6 + 7 * k + (j - (6 + 7 * k)) ≡ j = omega arith in
            elim (dec_lt j (length message)) [
              | yes inside ↦ ground (arith, written j, read, get_elem?-get_or message j 0xFF inside)
              | no past ↦ ground (
                arith,
                written j,
                get_elem?_past message j (omega arith),
                get_elem?_past s.message.bytes j (omega (arith, h.size)),
              )
            ]
      ]

  next-blank :
      (j : ℕ)
      → 7 * suc (suc k) - 1 ≤ j
      → j < length message
      → get_elem? next.message.bytes j ≡ some 0
  next-blank j hj inside = ground (arith, written j, h.blank j (omega arith) inside)

  next-size : length next.message.bytes ≡ length message
  unfolding next continued
  next-size = length-write_bytes _ _ _ ∙ h.size

  pub next-fields : next.message ≡ record s.message { bytes = next.message.bytes }
  unfolding next continued
  next-fields = write_bytes-fields _ _ _

  pub next-HasStored : HasStored message (suc (suc k)) next
  unfolding next continued
  next-HasStored = record {
    no_callback = h.no_callback;
    processed = omega (arith, h.processed);
    count = h.count;
    size = next-size;
    stored = next-stored;
    blank = next-blank;
  }

-- A session that has stored every frame holds the bytes that arrive.
pub stored_whole :
    (message : List ℕ) (k : ℕ) (s : FastPacketProtocolSession)
    → HasStored message (suc k) s
    → 6 ≤ length message
    → length message ≤ 222
    → k ≡ rx_packet_count (length message)
    → s.message.bytes ≡ arrived message
unfolding arrived
stored_whole message k s h lo hi e = list_ext s.message.bytes (arrived message) size elements
  where
    size : length s.message.bytes ≡ length (arrived message)
    size = ground (arith, h.size, length-set message (length message - 1) 0)

    elements :
        (j : ℕ)
        → j < length (arrived message)
        → get_elem? s.message.bytes j ≡ get_elem? (arrived message) j
    elements j hj =
        let inside : j < length message = omega (arith, size, h.size) in
        let last = get_elem?-set message (length message - 1) 0 j in
        elim (dec_lt j (7 * suc k - 1)) [
          | yes old ↦ ground (arith, last, h.stored j old, e)
          | no new ↦ ground (arith, last, h.blank j (omega arith) inside, e)
        ]

-- The frames of a message that is under way, as they are received.
pub record IsFastFrame (message : List ℕ) (sequence pgn : ℕ) (source : Option ℕ) (k : ℕ)
    (m : CanMessage) : Type 0 where
  pub own_pgn : get_parameter_group_number m.identifier ≡ pgn
  pub from : m.source ≡ source
  pub to_all : m.destination ≡ none
  pub carries : m.bytes ≡ fast_frame message sequence k
  pub buffered : m.callback_message_size ≡ 0

-- How many callbacks are registered for a PGN.
unfoldable pub count_callbacks : ℕ → List ParameterGroupNumberCallbackData → ℕ
count_callbacks pgn [] = 0
count_callbacks pgn (c ∷ cs) =
    let rest = count_callbacks pgn cs in if c.pgn == pgn then suc rest else rest

replicate-cons :
    (n : ℕ) (e : Event) (log : Log) → replicate n e ++ e ∷ log ≡ e ∷ (replicate n e ++ log)
replicate-cons zero e log = refl
replicate-cons (suc n) e log = ap (◌∷◌ e) (replicate-cons n e log)

pub deliver_lem :
    (pgn : ℕ) (m : CanMessage) (cs : List ParameterGroupNumberCallbackData) (log : Log)
    → deliver pgn m cs log ≡ replicate (count_callbacks pgn cs) (delivered m) ++ log
unfolding deliver count_callbacks
deliver_lem pgn m [] log = refl
deliver_lem pgn m (c ∷ cs) log = ground (
  arith,
  deliver_lem pgn m cs log,
  deliver_lem pgn m cs (delivered m ∷ log),
  replicate-cons (count_callbacks pgn cs) (delivered m) log,
)

-- The session that the first frame of a message opens.
module _ (message : List ℕ) (sequence : ℕ) (env : Env) (m : CanMessage)
    (small : length message ≤ 222) (lo : 6 ≤ length message)
    (carries : m.bytes ≡ fast_frame message sequence 0) where
  abbrev blanks : CanMessage
  blanks = record {
    bytes = replicate (length message) 0;
    source = m.source;
    destination = m.destination;
    identifier = m.identifier;
    port = m.port;
    callback_message_size = 0;
  }

  abbrev first_bytes : List ℕ
  first_bytes = payload_from 6 0 (length message) message

  pub opened_session-message : (opened_session env m).message ≡ write_bytes first_bytes 0 blanks
  unfolding opened_session fast_frame payload_from set_data_size new new_session
  opened_session-message = ground (arith, carries, take-replicate (length message) 0)

  length_byte :
      rx_packet_count (get_or (fast_frame message sequence 0) 1 0)
      ≡ rx_packet_count (length message)
  unfolding fast_frame
  length_byte = refl

  opened_written :
      (j : ℕ)
      → get_elem? (opened_session env m).message.bytes j ≡ (
          if ltb j 6 && ltb j (length message)
          then get_elem? first_bytes j
          else get_elem? (replicate (length message) 0) j)
  opened_written j =
      let size = length-payload_from 6 0 (length message) message in
      let blank_size = length-replicate {A = ℕ} (length message) 0 in
      let write = write_bytes-bytes first_bytes 0 0 blanks j refl (omega (arith, size)) in
      ground (arith, opened_session-message, write, size, blank_size)

  pub opened-HasStored : HasStored message 1 (opened_session env m)
  unfolding opened_session new_session
  opened-HasStored = record {
    no_callback = refl;
    processed = refl;
    count = count;
    size =
        ap (λ (x : CanMessage). length x.bytes) opened_session-message
        ∙ length-write_bytes first_bytes 0 blanks
        ∙ length-replicate {A = ℕ} (length message) 0;
    stored = stored;
    blank =
        λ j hj inside. ground (arith, opened_written j, get_elem?-replicate (length message) 0 j);
  }
    where
      count : rx_packet_count (get_or m.bytes 1 0) ≡ rx_packet_count (length message)
      count = ap (λ bytes. rx_packet_count (get_or bytes 1 0)) carries ∙ length_byte

      stored :
          (j : ℕ) → j < 6 → get_elem? (opened_session env m).message.bytes j ≡ get_elem? message j
      stored j hj = ground (
        arith,
        opened_written j,
        payload_from-bytes 6 0 (length message) message j,
        get_elem?-get_or message j 0xFF (omega arith),
      )
