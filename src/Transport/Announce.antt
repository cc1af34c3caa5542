-- ===== src/Transport/Announce.antt =====
-- What the receiver makes of the broadcast announce message of the sender.
use iso11783_can_stack.Prelude.{
  ℕ, suc, ◌+◌, ◌*◌, ◌-◌, ◌/◌, ◌%◌, ◌^◌, ◌≤◌, ◌<◌, ◌≡◌, refl, ap, ◌∙◌, true, Option, some, none,
  List, [], ◌∷◌, ◌++◌, u8, u16, arith, get_or, length, length-take, length-replicate, replicate,
  bit_and, bit_or, same_pointer_iff, ◌⊎◌,
}
use iso11783_can_stack.Bits.{bit_and_ones, bit_or_above}
use iso11783_can_stack.Message.{CanMessage, get_data_length, set_data, new, set_data_size}
use iso11783_can_stack.Identifier.{get_parameter_group_number, encode, extended}
use iso11783_can_stack.Identifier.Fields.{encode_fields}
use iso11783_can_stack.Network.{Env, TxRequest, delivered, fault, use_after_free}
use iso11783_can_stack.Transport.{
  Session, Manager, rx_data_session, get_session, get_session_of_pgn, one_further, erase,
  session_pgn, transport_protocol_command, pgn_bytes, broadcast_announce_message_multiplexor,
  new_session,
}
use iso11783_can_stack.Transport.Frames.{announce_bytes}
use iso11783_can_stack.Transport.Receive.{
  process_message, process_command, process_broadcast_announce, has_room, opened, open_session,
}
use iso11783_can_stack.Transport.Transmit.{tx_session}
use iso11783_can_stack.Transport.Reassembly.{
  HasStored, IsPacket, receive_from, receive_from_delivers,
}

-- Three bytes carry a PGN.
pub pgn_bytes-join :
    (pgn : ℕ)
    → pgn < 2 ^ 24
    → bit_or
        (bit_or (u8 (bit_and pgn 0xFF)) (u8 (bit_and (pgn / 2 ^ 8) 0xFF) * 2 ^ 8))
        (u8 (bit_and (pgn / 2 ^ 16) 0xFF) * 2 ^ 16)
      ≡ pgn
pgn_bytes-join pgn h = ground (
  arith,
  bit_and_ones 8 pgn,
  bit_and_ones 8 (pgn / 2 ^ 8),
  bit_and_ones 8 (pgn / 2 ^ 16),
  bit_or_above 8 (pgn / 2 ^ 8 % 2 ^ 8) (pgn % 2 ^ 8) (omega arith),
  bit_or_above 16 (pgn / 2 ^ 16) (pgn % 2 ^ 16) (omega arith),
)

-- Two bytes carry a length.
pub length_bytes-join :
    (len : ℕ)
    → len < 2 ^ 16
    → bit_or (u8 (bit_and len 0xFF)) (u16 (u8 (bit_and (len / 2 ^ 8) 0xFF) * 2 ^ 8)) ≡ len
length_bytes-join len h = ground (
  arith,
  bit_and_ones 8 len,
  bit_and_ones 8 (len / 2 ^ 8),
  bit_or_above 8 (len / 2 ^ 8) (len % 2 ^ 8) (omega arith),
)

one_further-none : (o : Option (ℕ × Session)) → one_further o ≡ none → o ≡ none
one_further-none none h = refl
one_further-none (some (i, s)) h = cc

-- A session at the end of the list is found when no other one has its ends.
pub get_session-append :
    (ss : List Session) (source destination : Option ℕ) (s : Session)
    → get_session ss source destination ≡ none
    → s.message.source ≡ source
    → s.message.destination ≡ destination
    → get_session (ss ++ s ∷ []) source destination ≡ some (length ss, s)
unfolding get_session
get_session-append [] source destination s h e d = ground (
  arith,
  (same_pointer_iff s.message.source source).1 e,
  (same_pointer_iff s.message.destination destination).1 d,
)
get_session-append (t ∷ ss) source destination s h e d =
    let alone = one_further-none (get_session ss source destination) in
    let rest = get_session-append ss source destination s in ground (arith, alone, rest)

-- The PGNs that an identifier carries whole: broadcast ones, and those with a low byte of 0.
abbrev pub IsCarried : ℕ → Type 0
IsCarried pgn =
    (0 < pgn / 2 ^ 8) × (pgn < 2 ^ 18) × ((240 ≤ pgn / 2 ^ 8 % 2 ^ 8) ⊎ (pgn % 2 ^ 8 ≡ 0))

pub get_parameter_group_number-encode :
    (pgn p d s : ℕ)
    → IsCarried pgn
    → p < 8
    → d < 2 ^ 8
    → s < 2 ^ 8
    → get_parameter_group_number (encode extended pgn p d s) ≡ pgn
get_parameter_group_number-encode pgn p d s c hp hd hs =
    let read = (encode_fields pgn p d s c.1 hp hd hs (omega arith)).3 in ground (arith, read)

module _ (env : Env) (r : TxRequest) (bytes : List ℕ) (source : ℕ) (buffer : r.buffer ≡ some bytes)
    (len : r.length ≡ length bytes) (fits : length bytes ≤ 1785) (to_all : r.destination ≡ none)
    (carried : IsCarried r.pgn) (address : (env.cf source).address < 2 ^ 8) where
  tx_session-pgn : session_pgn (tx_session env r source) ≡ r.pgn
  unfolding session_pgn tx_session
  tx_session-pgn = ground (
    arith,
    to_all,
    get_parameter_group_number-encode r.pgn 6 0xFF (env.cf source).address carried (omega arith)
        (omega arith) address,
  )

  tx_session-length : get_data_length (tx_session env r source).message ≡ length bytes
  unfolding tx_session get_data_length set_data new
  tx_session-length = ground (arith, buffer, len, length-take r.length bytes)

  announced_lem :
      announce_bytes broadcast_announce_message_multiplexor (tx_session env r source)
      ≡ 0x20
        ∷ u8 (bit_and (length bytes) 0xFF)
        ∷ u8 (bit_and (length bytes / 2 ^ 8) 0xFF)
        ∷ (tx_session env r source).packet_count
        ∷ 0xFF
        ∷ pgn_bytes r.pgn
  unfolding announce_bytes
  announced_lem = ground (arith, tx_session-pgn, tx_session-length)

  -- The receiver's session for the announced message.
  module _ (env' : Env) (m : CanMessage) (t : Manager) (c : ℕ)
      (command : get_parameter_group_number m.identifier ≡ transport_protocol_command)
      (announces : m.bytes
        ≡ announce_bytes broadcast_announce_message_multiplexor (tx_session env r source))
      (from : m.source ≡ some c) (global : m.destination ≡ none) (room : has_room env' t ≡ true)
      (free : get_session t.sessions (some c) none ≡ none)
      (address' : (env'.cf c).address < 2 ^ 8) where
    abbrev rx : Session
    rx = opened env' rx_data_session r.pgn 0xFF none 0 m c

    process_announce : process_message env' m t ≡ record t { sessions = t.sessions ++ rx ∷ [] }
    unfolding process_message process_command process_broadcast_announce open_session
        get_session_of_pgn
    process_announce = ground (
      arith,
      announces,
      announced_lem,
      command,
      from,
      global,
      room,
      free,
      pgn_bytes-join r.pgn (omega (arith, carried)),
    )

    rx-HasStored : HasStored bytes 0 rx
    unfolding opened new_session new set_data_size
    rx-HasStored = record {
      state = refl;
      global = refl;
      no_callback = refl;
      buffered = refl;
      last = refl;
      size = size;
      stored = λ j h. absurd (omega arith);
    }
      where
        size : length rx.message.bytes ≡ length bytes
        size =
            let n = bit_or (get_or m.bytes 1 0) (u16 (get_or m.bytes 2 0 * 2 ^ 8)) in
            let read : n ≡ length bytes =
              ground
                (arith, announces, announced_lem, length_bytes-join (length bytes) (omega arith)) in
            ground (
              arith,
              read,
              length-take {A = ℕ} n (replicate (n - 0) 0),
              length-replicate {A = ℕ} (n - 0) 0,
            )

    rx-pgn : get_parameter_group_number rx.message.identifier ≡ r.pgn
    unfolding opened
    rx-pgn =
        get_parameter_group_number-encode r.pgn 7 0xFF (env'.cf c).address carried (omega arith)
          (omega arith) address'

    rx-ends : (rx.message.source ≡ some c) × (rx.message.destination ≡ none)
    unfolding opened
    rx-ends = (refl, refl)

    erase-append : (ss : List Session) (s : Session) → erase (ss ++ s ∷ []) (length ss) ≡ ss
    unfolding erase
    erase-append [] s = refl
    erase-append (u ∷ ss) s = ap (◌∷◌ u) (erase-append ss s)

    module _ (envs : ℕ → Env) (frames : ℕ → CanMessage)
        (packets : (k : ℕ) → IsPacket bytes (some c) k (frames k)) where
      -- A broadcast from end to end. The sender was asked to send 1 to 1785 bytes to all under a
      -- PGN that identifiers carry whole, and announces its session; the receiver has room and no
      -- session open for broadcasts of this sender. When it has received the announcement and then
      -- the packets of the message in order, each at a time of its own, it has delivered exactly
      -- one message, with the bytes, the source and the PGN that the sender was given, and its
      -- list of sessions is the one from before. (The fault is the write to the deleted session.)
      pub broadcast_transfer :
          (n : ℕ)
          → 7 * n < length bytes
          → length bytes ≤ 7 * n + 7
          → (got : CanMessage) × (receive_from envs frames (suc n) 0 (process_message env' m t)
              ≡ record {
                sessions = t.sessions;
                log = fault use_after_free ∷ delivered got ∷ t.log;
              })
            × (got.bytes ≡ bytes)
            × (got.source ≡ some c)
            × (get_parameter_group_number got.identifier ≡ r.pgn)
      broadcast_transfer n lo hi =
          let opened_at = get_session-append t.sessions (some c) none rx free rx-ends.0 rx-ends.1 in
          let run =
            receive_from_delivers envs frames bytes (some c) packets fits n 0 (length t.sessions)
              (record t { sessions = t.sessions ++ rx ∷ [] }) rx opened_at rx-HasStored
              (omega arith) (omega arith) in
          (
            record rx.message { bytes = bytes },
            rw process_announce (run ∙ rw (erase-append t.sessions rx)),
            refl,
            rx-ends.0,
            rx-pgn,
          )
