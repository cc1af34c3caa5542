-- ===== src/Network.antt =====
-- isobus/src/can_network_manager.cpp, sending: from a message to the frame that the hardware layer
-- is handed. `send_can_message_to_hardware` is code of the application's driver: its answer to a
-- frame is a parameter, a function of all that happened before. What the stack does to the outside
-- (frames, callbacks) is a log, newest entry first.
pub mod Frames
use iso11783_can_stack.Prelude.{
  ℕ, ◌^◌, Bool, true, false, not, ◌&&◌, ◌||◌, Option, some, none, List, [], ◌∷◌, bit_and, bit_or,
  leb, ltb, ◌==◌, if◌then◌else◌, u8, u32, ◌<<◌, take, is_some,
}
use iso11783_can_stack.ControlFunction.{
  ControlFunction, internal, is_internal, null_can_address, broadcast_can_address,
  get_address_valid,
}
use iso11783_can_stack.Message.{CanMessage}

abbrev pub default_identifier : ℕ
default_identifier = 0xFFFF_FFFF

abbrev pub can_port_maximum : ℕ
can_port_maximum = 4

abbrev pub can_data_length : ℕ
can_data_length = 8

abbrev pub absolute_max_message_length : ℕ
absolute_max_message_length = 117440505

-- HardwareInterfaceCANFrame; `bytes` are the first `dataLength` ones of its buffer.
pub record Frame : Type 0 where
  pub identifier : ℕ
  pub channel : ℕ
  pub bytes : List ℕ
  pub is_extended : Bool

-- Behaviour that C++ leaves undefined: a write to a deleted object, a loop that goes on over a
-- vector after an element was erased, a read past the end of a buffer, a null pointer followed.
pub data Fault : Type 0 where
  use_after_free iterator_invalidated out_of_range null_dereference : Fault

pub data Event : Type 0 where
  -- A frame was handed to the hardware layer, which took it or not.
  sent : Frame → Bool → Event
  -- A message was passed to the callbacks of the application.
  delivered : CanMessage → Event
  -- A transmit complete callback: PGN, length, source, destination, success.
  completed : ℕ → ℕ → Option ℕ → Option ℕ → Bool → Event
  fault : Fault → Event

abbrev pub Log : Type 0
Log = List Event

-- `cf` is the object behind a pointer, `now` the time in milliseconds, `chunk` what a data chunk
-- callback writes for a packet number, an offset and a number of bytes (`none` where it fails).
pub record Env : Type 0 where
  pub cf : ℕ → ControlFunction
  pub accepts : Log → Frame → Bool
  pub now : ℕ
  pub max_sessions : ℕ
  pub bam_delay : ℕ
  pub chunk : ℕ → ℕ → ℕ → ℕ → Option (List ℕ)

-- The identifier that `construct_frame` encodes by hand.
unfoldable pub frame_identifier : ℕ → ℕ → ℕ → ℕ → ℕ
frame_identifier source dest pgn priority =
    let start = bit_or (u32 (bit_and priority 0x07 << 26)) (bit_and source 0xFF) in
    let whole = bit_or start (bit_and pgn 0x3FFFF << 8) in
    let specific = bit_or (bit_or start (dest << 8)) (bit_and pgn 0x3FF00 << 8) in
    if dest == broadcast_can_address
    then (if leb 0xF000 (bit_and pgn 0xF000) then whole else specific)
    else (if ltb (bit_and pgn 0xF000) 0xF000 then specific else default_identifier)

unfoldable pub empty_frame : Frame
empty_frame = record {
  identifier = default_identifier;
  channel = 0;
  bytes = [];
  is_extended = false;
}

unfoldable pub construct_frame : ℕ → ℕ → ℕ → ℕ → ℕ → Option (List ℕ) → ℕ → Frame
unfolding empty_frame
construct_frame port source dest pgn priority none size = empty_frame
construct_frame port source dest pgn priority (some buffer) size =
    let identifier = frame_identifier source dest pgn priority in
    let filled : Frame = record {
      identifier = bit_and identifier 0x1FFF_FFFF;
      channel = u8 port;
      bytes = take size buffer;
      is_extended = true;
    } in
    if not (null_can_address == dest) && leb priority 7 && leb size can_data_length
    then (if identifier == default_identifier then empty_frame else filled)
    else empty_frame

unfoldable pub send_can_message_raw :
    Env → ℕ → ℕ → ℕ → ℕ → ℕ → Option (List ℕ) → ℕ → Log → Bool × Log
send_can_message_raw env port source dest pgn priority buffer size log =
    let frame = construct_frame port source dest pgn priority buffer size in
    if not (default_identifier == frame.identifier) && ltb port can_port_maximum
    then (env.accepts log frame, sent frame (env.accepts log frame) ∷ log)
    else (false, log)

-- CANNetworkManager::get_internal_control_function
unfoldable pub get_internal_control_function : Env → Option ℕ → Option ℕ
get_internal_control_function env none = none
get_internal_control_function env (some c) = if is_internal (env.cf c).type then some c else none

-- The arguments of `send_can_message`; a callback is a number, and `none` is a null pointer.
pub record TxRequest : Type 0 where
  pub pgn : ℕ
  pub buffer : Option (List ℕ)
  pub length : ℕ
  pub source : Option ℕ
  pub destination : Option ℕ
  pub complete_callback : Option ℕ
  pub chunk_callback : Option ℕ

-- The state of the protocols, with the log in it.
pub record HasLog (S : Type 0) : Type 0 where
  pub log : S → Log
  pub with_log : Log → S → S

instance abbrev pub log_itself : HasLog Log
log_itself = record { log = λ l. l; with_log = λ l s. l }

module _ {S : Type 0} where
  -- The loop that offers the message to each protocol until one takes it.
  unfoldable pub offer_protocols : List (TxRequest → S → Bool × S) → TxRequest → S → Bool × S
  offer_protocols [] r s = (false, s)
  offer_protocols (p ∷ ps) r s =
      let (taken, s') = p r s in
      let others = offer_protocols ps r s' in if taken then (true, s') else others

module _ {S : Type 0} ⦃h : HasLog S⦄ where
  abbrev on_log : (Log → Bool × Log) → S → Bool × S
  on_log f s = let (b, l) = f (h.log s) in (b, h.with_log l s)

  send_unprotected : Env → ℕ → TxRequest → ℕ → S → Bool × S
  unfolding send_can_message_raw
  send_unprotected env priority r source s =
      let c = env.cf source in
      elim r.destination [
        | none ↦
            on_log (send_can_message_raw env c.port c.address 0xFF r.pgn priority r.buffer r.length)
              s
        | some d ↦
            if get_address_valid (env.cf d)
            then on_log
                (send_can_message_raw env c.port c.address (env.cf d).address r.pgn priority
                  r.buffer r.length)
                s
            else (false, s)
      ]

  -- The transmit complete callback of a message that no protocol took.
  report_sent : TxRequest → Bool × S → Bool × S
  report_sent r (ok, s) =
      if ok && is_some r.complete_callback
      then (ok, h.with_log (completed r.pgn r.length r.source r.destination ok ∷ h.log s) s)
      else (ok, s)

  send_from : Env → List (TxRequest → S → Bool × S) → ℕ → TxRequest → Option ℕ → S → Bool × S
  unfolding send_unprotected report_sent offer_protocols
  send_from env protocols priority r none s = (false, s)
  send_from env protocols priority r (some source) s =
      let (taken, s') = offer_protocols protocols r s in
      if (is_some r.buffer || is_some r.chunk_callback)
        && ltb 0 r.length
        && leb r.length absolute_max_message_length
        && (r.pgn == 0xEE00 || get_address_valid (env.cf source))
      then (if not taken && is_some r.buffer
          then report_sent r (send_unprotected env priority r source s')
          else (taken, s'))
      else (false, s)

  unfoldable pub send_can_message :
      Env → List (TxRequest → S → Bool × S) → ℕ → TxRequest → S → Bool × S
  unfolding send_from
  send_can_message env protocols priority r s = send_from env protocols priority r r.source s
