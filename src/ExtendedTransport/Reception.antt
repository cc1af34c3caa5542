-- ===== src/ExtendedTransport/Reception.antt =====
-- The packets of a segment at the receiver of can_extended_transport_protocol.cpp.
use iso11783_can_stack.Prelude.{
  ℕ, zero, suc, ◌+◌, ◌*◌, ◌≤◌, ◌<◌, ◌≡◌, refl, ap, subst, sym, ◌∙◌, ◌⊎◌, inl, inr, dec_lt, true,
  Option, some, List, ◌∷◌, arith, set, length, is_some,
}
use iso11783_can_stack.Message.{CanMessage}
use iso11783_can_stack.Network.{
  Env, delivered, fault, use_after_free, get_internal_control_function,
}
use iso11783_can_stack.ExtendedTransport.{
  ExtendedTransportProtocolSession, ExtendedTransportProtocolManager, get_session, erase,
}
use iso11783_can_stack.ExtendedTransport.Receive.{process_message, store_packet}
use iso11783_can_stack.ExtendedTransport.Frames.{send_end_of_session_acknowledgement}
use iso11783_can_stack.ExtendedTransport.Segment.{packet}
use iso11783_can_stack.ExtendedTransport.Storing.{
  HasStored, next, next-HasStored, next-fields, get_session-set, set-found, set-set, erase-set,
}
use iso11783_can_stack.ExtendedTransport.Steps.{
  IsPacket, receive_from, acknowledge_same, process_message_middle, process_message_last,
}

receive_from-last :
    (env : ℕ → Env) (frames : ℕ → CanMessage) (r j : ℕ) (t : ExtendedTransportProtocolManager)
    → receive_from env frames (suc r) j t
      ≡ process_message (env (j + r)) (frames (j + r)) (receive_from env frames r j t)
unfolding receive_from
receive_from-last env frames zero j t =
    let e : j ≡ j + 0 = omega arith in ap (λ (x : ℕ). process_message (env x) (frames x) t) e
receive_from-last env frames (suc r) j t =
    let e : j + 1 + r ≡ j + suc r = omega arith in
    let rest = receive_from-last env frames r (j + 1) (process_message (env j) (frames j) t) in
    rest
    ∙ ap (λ (x : ℕ). process_message (env x) (frames x) (receive_from env frames (suc r) j t)) e

module _ (env : ℕ → Env) (frames : ℕ → CanMessage) (message : List ℕ) (source : Option ℕ)
    (d base : ℕ) (packets : (j : ℕ) → IsPacket message source d j (base + j) (frames j))
    (ours : (j : ℕ) → is_some (get_internal_control_function (env j) (some d)) ≡ true)
    (fits : length message ≤ 117440505) where
  -- A session whose ends are `source` and `d`, and that has stored `j` packets of this segment.
  pub record IsAt (j i : ℕ) (t : ExtendedTransportProtocolManager)
      (s : ExtendedTransportProtocolSession) : Type 0 where
    pub found : get_session t.sessions source (some d) ≡ some (i, s)
    pub has_stored : HasStored message j (base + j) s
    pub from : s.message.source ≡ source
    pub to : s.message.destination ≡ some d

  module _ (j i : ℕ) (t : ExtendedTransportProtocolManager) (s : ExtendedTransportProtocolSession)
      (h : IsAt j i t s) (numbered : j < 255) (more : 7 * (base + j + 1) < length message) where
    moved : ExtendedTransportProtocolSession
    moved = record (store_packet (packet message j (base + j)) s) { timestamp = (env j).now }

    moved_step :
        process_message (env j) (frames j) t ≡ record t { sessions = set t.sessions i moved }
    unfolding moved next
    moved_step =
        process_message_middle (env j) (frames j) t i message source d j (base + j) s (omega arith)
          h.has_stored numbered h.found (packets j) (ours j) more

    moved-HasStored : HasStored message (j + 1) (base + (j + 1)) moved
    unfolding moved next
    moved-HasStored =
        let e : base + j + 1 ≡ base + (j + 1) = omega arith in
        let n = next-HasStored message j (base + j) s (omega arith) h.has_stored (omega arith) in
        subst (λ (x : ℕ). HasStored message (j + 1) x moved) e
          (record {
            state = n.state;
            no_callback = n.no_callback;
            buffered = n.buffered;
            last = n.last;
            processed = n.processed;
            size = n.size;
            stored = n.stored;
          })

    moved-message : moved.message ≡ record s.message { bytes = moved.message.bytes }
    unfolding moved next
    moved-message = next-fields message j (base + j) s (omega arith) h.has_stored (omega arith)

    moved-IsAt : IsAt (j + 1) i (record t { sessions = set t.sessions i moved }) moved
    moved-IsAt =
        let from' = ap (λ m. m.source) moved-message in
        let to' = ap (λ m. m.destination) moved-message in
        record {
          found = get_session-set t.sessions source (some d) i s moved h.found from' to';
          has_stored = moved-HasStored;
          from = from' ∙ h.from;
          to = to' ∙ h.to;
        }

    moved-count : moved.packet_count ≡ s.packet_count
    unfolding moved store_packet
    moved-count = refl

  -- The session after `r` more packets, where these do not cover the message.
  pub receive_from-IsAt :
      (r j i : ℕ) (t : ExtendedTransportProtocolManager) (s : ExtendedTransportProtocolSession)
      → IsAt j i t s
      → j + r ≤ 255
      → 7 * (base + (j + r)) < length message
      → (s' : ExtendedTransportProtocolSession) × (receive_from env frames r j t
          ≡ record t { sessions = set t.sessions i s' })
        × IsAt (j + r) i (record t { sessions = set t.sessions i s' }) s'
        × (record s'.message { bytes = message } ≡ record s.message { bytes = message })
        × (s'.packet_count ≡ s.packet_count)
  unfolding receive_from
  receive_from-IsAt zero j i t s h few more =
      let e : j ≡ j + 0 = omega arith in
      let same = set-found t.sessions source (some d) i s h.found in
      (
        s,
        ap (λ sessions. record t { sessions = sessions }) (sym same),
        rw same (subst (λ (x : ℕ). IsAt x i t s) e h),
        refl,
        refl,
      )
  receive_from-IsAt (suc r) j i t s h few more =
      let numbered : j < 255 = omega arith in
      let left : 7 * (base + j + 1) < length message = omega arith in
      let s1 = moved j i t s h numbered left in
      let (s', run, at, fields, count) =
        receive_from-IsAt r (j + 1) i (record t { sessions = set t.sessions i s1 }) s1
          (moved-IsAt j i t s h numbered left) (omega arith) (omega arith) in
      let e : j + 1 + r ≡ j + suc r = omega arith in
      let again = set-set t.sessions i s1 s' in
      let same =
        ap {A = CanMessage} (λ m. record m { bytes = message })
          (moved-message j i t s h numbered left) in
      (
        s',
        rw (moved_step j i t s h numbered left)
            (run ∙ ap (λ sessions. record t { sessions = sessions }) again),
        rw (sym again, sym e) at,
        fields ∙ same,
        count ∙ moved-count j i t s h numbered left,
      )

  last_packet :
      (j i : ℕ) (t : ExtendedTransportProtocolManager) (s : ExtendedTransportProtocolSession)
      → IsAt j i t s
      → j < 255
      → 7 * (base + j) < length message
      → length message ≤ 7 * (base + j + 1)
      → process_message (env j) (frames j) t ≡ record {
        sessions = erase t.sessions i;
        log =
            fault use_after_free
            ∷ delivered (record s.message { bytes = message })
            ∷ (send_end_of_session_acknowledgement
                (env j)
                (record s { message = record s.message { bytes = message } })
                t.log).1;
      }
  last_packet j i t s h few within all =
      process_message_last (env j) (frames j) t i message source d j (base + j) s (omega arith)
        h.has_stored few h.found (packets j) (ours j) all h.to

  -- A receiving session that has stored the packets of a message before `base`, with other sessions
  -- beside it, receives the next `r + 1` packets, at most 255, in order and numbered from 1, each
  -- at a time of its own. If these do not cover the message, then the session has stored them too,
  -- counts `r + 1` packets of the segment and expects as many as before; if they do, it sends the acknowledgement, delivers the message once, with exactly
  -- its bytes, and is closed. (The fault is the write to the deleted session.)
  pub extended_segment_received :
      (r i : ℕ) (t : ExtendedTransportProtocolManager) (s : ExtendedTransportProtocolSession)
      → IsAt 0 i t s
      → r < 255
      → 7 * (base + r) < length message
      → let got : CanMessage = record s.message { bytes = message } in
        let end = receive_from env frames (suc r) 0 t in
        ((7 * (base + r + 1) < length message)
          × (s' : ExtendedTransportProtocolSession) × IsAt (r + 1) i end s'
          × (s'.packet_count ≡ s.packet_count))
        ⊎ ((length message ≤ 7 * (base + r + 1))
            × (end ≡ record {
              sessions = erase t.sessions i;
              log =
                  fault use_after_free
                  ∷ delivered got
                  ∷ (send_end_of_session_acknowledgement
                      (env r)
                      (record s { message = got })
                      t.log).1;
            }))
  extended_segment_received r i t s h few within =
      elim (dec_lt (7 * (base + r + 1)) (length message)) [
        | yes more ↦
            let (s', run, at, fields, count) =
              receive_from-IsAt (suc r) 0 i t s h (omega arith) (omega arith) in
            let e : 0 + suc r ≡ r + 1 = omega arith in inl (more, s', rw (run, sym e) at, count)
        | no all ↦
            let (s', run, at, fields, count) =
              receive_from-IsAt r 0 i t s h (omega arith) (omega arith) in
            let e : 0 + r ≡ r = omega arith in
            let at' =
              subst (λ (x : ℕ). IsAt x i (record t { sessions = set t.sessions i s' }) s') e at in
            let finish =
              last_packet r i (record t { sessions = set t.sessions i s' }) s' at' few within
                (omega arith) in
            let got : CanMessage = record s.message { bytes = message } in
            let got' : CanMessage = record s'.message { bytes = message } in
            let answer =
              acknowledge_same (env r) (record s' { message = got' }) (record s { message = got })
                t.log fields in
            inr (
              omega arith,
              receive_from-last env frames r 0 t
                  ∙ ap
                      (λ (x : ℕ).
                        process_message (env x) (frames x) (receive_from env frames r 0 t))
                      e
                  ∙ ap (process_message (env r) (frames r)) run
                  ∙ finish
                  ∙ cc (erase-set t.sessions i s', fields, answer),
            )
      ]
