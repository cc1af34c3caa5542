-- ===== src/PgnRequest/Requests.antt =====
-- What an answering node makes of the requests that can_parameter_group_number_request_protocol.cpp
-- sends.
use iso11783_can_stack.Prelude.{
  ℕ, ◌+◌, ◌*◌, ◌/◌, ◌%◌, ◌^◌, ◌≡◌, ◌<◌, ◌↔◌, refl, Bool, true, false, Option, some, none, List, [],
  ◌∷◌, bit_or, bit_and, ◌>>◌, u8, ◌==◌, ◌||◌, arith, if◌then◌else◌,
}
use iso11783_can_stack.Bits.{bit_and_ones, bit_or_above, bit_or_split, bit_or-zero, bit_or-lt}
use iso11783_can_stack.Message.{CanMessage}
use iso11783_can_stack.ControlFunction.{get_address_valid}
use iso11783_can_stack.Network.{Env, Log, Frame, sent, send_can_message, send_can_message_raw}
use iso11783_can_stack.Network.Frames.{construct_frame-encode}
use iso11783_can_stack.Identifier.{get_parameter_group_number}
use iso11783_can_stack.Identifier.Fields.{encode_pdu1}
use iso11783_can_stack.PgnRequest.{
  CallbackInfo, RequestProtocol, Application, Reply, Call, requested_pgn, request_bytes,
  process_message, process_pgn_request, ask, acknowledge, send_acknowledgement, negative,
  request_pgn, send_short, AcknowledgementType, acknowledgement_value,
}

-- Two bytes that are shifted by 8 leave 16 bits.
requested_pgn_lem :
    (pgn : ℕ)
    → pgn < 2 ^ 24
    → requested_pgn (request_bytes pgn)
      ≡ bit_or (pgn / 2 ^ 8 % 2 ^ 8) (pgn / 2 ^ 16) * 2 ^ 8 + pgn % 2 ^ 8
unfolding requested_pgn
requested_pgn_lem pgn h = ground (
  arith,
  bit_and_ones 8 pgn,
  bit_and_ones 8 (pgn / 2 ^ 8),
  bit_and_ones 8 (pgn / 2 ^ 16),
  bit_or_above 8 (pgn / 2 ^ 8 % 2 ^ 8) (pgn % 2 ^ 8) (omega arith),
  bit_or_split 8 (pgn / 2 ^ 8 % 2 ^ 8) (pgn % 2 ^ 8) (pgn / 2 ^ 16) 0 (omega arith) (omega arith),
  bit_or-zero (pgn % 2 ^ 8),
)

-- A PGN of up to 24 bits, in the bytes in which `request_parameter_group_number` and
-- `request_repetition_rate` send it, is read back as itself by the handlers exactly when it has at
-- most 16 bits.
pub requested_pgn-request_bytes :
    (pgn : ℕ) → pgn < 2 ^ 24 → (requested_pgn (request_bytes pgn) ≡ pgn) ↔ (pgn < 2 ^ 16)
requested_pgn-request_bytes pgn h =
    let joined = bit_or-lt 8 (pgn / 2 ^ 8 % 2 ^ 8) (pgn / 2 ^ 16) (omega arith) (omega arith) in
    (
      λ e. omega (arith, requested_pgn_lem pgn h, joined, e),
      λ s. ground (arith, requested_pgn_lem pgn h, bit_or-zero (pgn / 2 ^ 8 % 2 ^ 8)),
    )

-- Of a list of callbacks, which reply a request for a PGN from a source gets, `start` being in the
-- out-parameters: that of the first callback that is for this PGN or for any one and processes
-- it, and none if there is no such callback. A callback that declines may write to them, too.
pub data Answers (app : Application) (pgn : ℕ) (source : Option ℕ)
    : List CallbackInfo → Reply → Option Reply → Type 0 where
  nobody : {start : Reply} → Answers app pgn source [] start none
  not_asked :
      (c : CallbackInfo) {cs : List CallbackInfo} {start : Reply} {o : Option Reply}
      → (c.pgn == pgn) ≡ false
      → (c.pgn == 0) ≡ false
      → Answers app pgn source cs start o
      → Answers app pgn source (c ∷ cs) start o
  declines :
      (c : CallbackInfo) {cs : List CallbackInfo} {start : Reply} (left : Reply) {o : Option Reply}
      → (c.pgn == pgn || c.pgn == 0) ≡ true
      → app.handle_request c pgn source start ≡ (false, left)
      → Answers app pgn source cs left o
      → Answers app pgn source (c ∷ cs) start o
  processes :
      (c : CallbackInfo) {cs : List CallbackInfo} {start : Reply} (reply : Reply)
      → (c.pgn == pgn || c.pgn == 0) ≡ true
      → app.handle_request c pgn source start ≡ (true, reply)
      → Answers app pgn source (c ∷ cs) start (some reply)

-- Whether a request was processed, with the reply if it was.
abbrev outcome : Bool × Reply → Option Reply
outcome (false, r) = none
outcome (true, r) = some r

ask-Answers :
    {app : Application} {pgn : ℕ} {source : Option ℕ} {cs : List CallbackInfo} {start : Reply}
    {o : Option Reply}
    → Answers app pgn source cs start o
    → outcome ((ask app pgn source cs start).1, (ask app pgn source cs start).2) ≡ o
unfolding ask
ask-Answers nobody = refl
ask-Answers (not_asked c h k a) = ground (arith, h, k, ask-Answers a)
ask-Answers (declines c left h e a) = ground (arith, h, e, ask-Answers a)
ask-Answers (processes c reply h e) = ground (arith, h, e)

-- The frame with an acknowledgement: to everyone, of PGN 0xE800 and priority 6, with the kind of
-- the acknowledgement, the address of the requester, and the PGN, of 16 bits.
abbrev pub acknowledgement_frame : Env → ℕ → ℕ → ℕ → ℕ → Frame
acknowledgement_frame env mine requester kind pgn = record {
  identifier = 0x18E8_FF00 + (env.cf mine).address;
  channel = (env.cf mine).port;
  bytes =
      kind ∷ 0xFF ∷ 0xFF ∷ 0xFF ∷ (env.cf requester).address ∷ pgn % 2 ^ 8 ∷ pgn / 2 ^ 8 ∷ 0 ∷ [];
  is_extended = true;
}

-- What an answer adds to the log: one frame, or nothing.
abbrev pub respond : Env → ℕ → ℕ → ℕ → Option Reply → Log → Log
respond env mine requester pgn none log =
    sent (acknowledgement_frame env mine requester 1 pgn) true ∷ log
respond env mine requester pgn (some reply) log =
    if reply.should_acknowledge
    then sent (acknowledgement_frame env mine requester (acknowledgement_value reply.type) pgn) true
      ∷ log
    else log

module _ (env : Env) (open_bus : (log : Log) (f : Frame) → env.accepts log f ≡ true)
    (mine requester : ℕ) (port : (env.cf mine).port < 4) (valid : (env.cf mine).address < 0xFE)
    (pgn : ℕ) (small : pgn < 2 ^ 16) where
  acknowledgement_bytes :
      (u8 (bit_and pgn 0xFF) ≡ pgn % 2 ^ 8)
      × (u8 (bit_and (pgn >> 8) 0xFF) ≡ pgn / 2 ^ 8)
      × (u8 (bit_and (pgn >> 16) 0xFF) ≡ 0)
  acknowledgement_bytes =
      ground
        (arith, bit_and_ones 8 pgn, bit_and_ones 8 (pgn / 2 ^ 8), bit_and_ones 8 (pgn / 2 ^ 16))

  send_acknowledgement_lem :
      (type : AcknowledgementType) (log : Log)
      → send_acknowledgement env type pgn (some mine) (some requester) log ≡ (
        true,
        sent (acknowledgement_frame env mine requester (acknowledgement_value type) pgn) true ∷ log,
      )
  unfolding send_acknowledgement send_short send_can_message send_can_message_raw get_address_valid
  send_acknowledgement_lem type log =
      let frame = acknowledgement_frame env mine requester (acknowledgement_value type) pgn in
      ground (
        arith,
        construct_frame-encode (env.cf mine).address 0xFF 0xE800 6 (omega arith) (omega arith)
            (omega arith) (omega arith) (env.cf mine).port 8 frame.bytes (omega arith)
            (omega arith),
        encode_pdu1 0xE800 6 0xFF (env.cf mine).address (omega arith) (omega arith) (omega arith)
            (omega arith) (omega arith),
        acknowledgement_bytes,
        open_bus log frame,
        port,
        valid,
      )

  acknowledge-respond :
      (m : CanMessage) (log : Log) (asked : List Call × Bool × Reply)
      → m.destination ≡ some mine
      → m.source ≡ some requester
      → (acknowledge env pgn m asked log).1
        ≡ respond env mine requester pgn (outcome (asked.1, asked.2)) log
  unfolding acknowledge
  acknowledge-respond m log (calls, false, r) to from =
      ground (arith, to, from, send_acknowledgement_lem negative log)
  acknowledge-respond m log (calls, true, r) to from =
      ground (arith, to, from, send_acknowledgement_lem r.type log)

  -- A request for a PGN of 16 bits, in the bytes in which `request_parameter_group_number` sends
  -- it, which an internal control function with a valid address and port receives from another
  -- control function, on a bus that takes every frame: if no callback for that PGN or for any one
  -- processes it, then exactly one frame is sent, a negative acknowledgement of the PGN with the
  -- address of the requester; if the first one that does not decline processes it, then exactly
  -- the acknowledgement that this callback asks for is sent, and nothing if it asks for none. The
  -- out-parameters start as no acknowledgement and pass from callback to callback.
  pub request_answered :
      (app : Application) (p : RequestProtocol) (m : CanMessage) (log : Log) {o : Option Reply}
      → get_parameter_group_number m.identifier ≡ request_pgn
      → m.bytes ≡ request_bytes pgn
      → m.source ≡ some requester
      → m.destination ≡ some mine
      → p.control_function ≡ some mine
      → Answers app pgn m.source p.request_callbacks
          (record { should_acknowledge = false; type = negative })
          o
      → (process_message env app p m log).1 ≡ respond env mine requester pgn o log
  unfolding process_message process_pgn_request
  request_answered app p m log is_request bytes from to own a =
      let start : Reply = record { should_acknowledge = false; type = negative } in
      ground (
        arith,
        is_request,
        bytes,
        to,
        own,
        (requested_pgn-request_bytes pgn (omega arith)).1 small,
        acknowledge-respond m log (ask app pgn m.source p.request_callbacks start) to from,
        ask-Answers a,
      )
