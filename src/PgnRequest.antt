-- ===== src/PgnRequest.antt =====
-- isobus/src/can_parameter_group_number_request_protocol.cpp: requests for PGNs and for repetition
-- rates. A callback of the application is a number, and what it answers a parameter; the calls that
-- are made are a result. No transport protocol takes messages of up to 8 bytes.
pub mod Registry
pub mod Requests
use iso11783_can_stack.Prelude.{
  ℕ, zero, suc, ◌^◌, Bool, true, false, not, ◌&&◌, ◌||◌, Option, some, none, List, [], ◌∷◌, ◌++◌,
  bit_and, bit_or, ◌==◌, leb, if◌then◌else◌, u8, u16, ◌<<◌, ◌>>◌, is_some, get_or, length,
  same_pointer,
}
use iso11783_can_stack.ControlFunction.{broadcast_can_address}
use iso11783_can_stack.Message.{CanMessage}
use iso11783_can_stack.Identifier.{get_parameter_group_number, get_destination_address}
use iso11783_can_stack.Network.{Env, Log, send_can_message, TxRequest, can_data_length, log_itself}

-- AcknowledgementType
pub data AcknowledgementType : Type 0 where
  positive negative access_denied cannot_respond : AcknowledgementType

abbrev pub acknowledgement_value : AcknowledgementType → ℕ
acknowledgement_value positive = 0
acknowledgement_value negative = 1
acknowledgement_value access_denied = 2
acknowledgement_value cannot_respond = 3

-- PGNRequestCallbackInfo and PGNRequestForRepetitionRateCallbackInfo.
pub record CallbackInfo : Type 0 where
  pub function : Option ℕ
  pub pgn : ℕ
  pub parent : Option ℕ

unfoldable pub same_info : CallbackInfo → CallbackInfo → Bool
same_info a b =
    same_pointer b.function a.function && b.pgn == a.pgn && same_pointer b.parent a.parent

pub record RequestProtocol : Type 0 where
  pub control_function : Option ℕ
  pub request_callbacks : List CallbackInfo
  pub rate_callbacks : List CallbackInfo

-- What `std::find` and `erase` do.
unfoldable pub contains : CallbackInfo → List CallbackInfo → Bool
contains c [] = false
contains c (d ∷ ds) = same_info d c || contains c ds

unfoldable pub erase_first : CallbackInfo → List CallbackInfo → List CallbackInfo
erase_first c [] = []
erase_first c (d ∷ ds) = if same_info d c then ds else d ∷ erase_first c ds

unfoldable pub register_pgn_request_callback :
    CallbackInfo → RequestProtocol → Bool × RequestProtocol
register_pgn_request_callback c p =
    if is_some c.function && not (contains c p.request_callbacks)
    then (true, record p { request_callbacks = p.request_callbacks ++ c ∷ [] })
    else (false, p)

unfoldable pub register_request_for_repetition_rate_callback :
    CallbackInfo → RequestProtocol → Bool × RequestProtocol
register_request_for_repetition_rate_callback c p =
    if is_some c.function && not (contains c p.rate_callbacks)
    then (true, record p { rate_callbacks = p.rate_callbacks ++ c ∷ [] })
    else (false, p)

unfoldable pub remove_pgn_request_callback : CallbackInfo → RequestProtocol → Bool × RequestProtocol
remove_pgn_request_callback c p =
    if contains c p.request_callbacks
    then (true, record p { request_callbacks = erase_first c p.request_callbacks })
    else (false, p)

unfoldable pub remove_request_for_repetition_rate_callback :
    CallbackInfo → RequestProtocol → Bool × RequestProtocol
remove_request_for_repetition_rate_callback c p =
    if contains c p.rate_callbacks
    then (true, record p { rate_callbacks = erase_first c p.rate_callbacks })
    else (false, p)

-- The static list of protocols, one for each internal control function.
unfoldable pub get_pgn_request_protocol : List RequestProtocol → Option ℕ → Option RequestProtocol
get_pgn_request_protocol [] c = none
get_pgn_request_protocol (p ∷ ps) c =
    if same_pointer p.control_function c then some p else get_pgn_request_protocol ps c

unfoldable pub assign_pgn_request_protocol :
    Option ℕ → List RequestProtocol → Bool × List RequestProtocol
assign_pgn_request_protocol c ps =
    if is_some (get_pgn_request_protocol ps c) then (false, ps) else (
      true,
      ps ++ record { control_function = c; request_callbacks = []; rate_callbacks = [] } ∷ [],
    )

unfoldable pub deassign_pgn_request_protocol :
    Option ℕ → List RequestProtocol → Bool × List RequestProtocol
deassign_pgn_request_protocol c [] = (false, [])
deassign_pgn_request_protocol c (p ∷ ps) =
    let (found, rest) = deassign_pgn_request_protocol c ps in
    if same_pointer p.control_function c then (true, ps) else (found, p ∷ rest)

abbrev pub pgn_request_length : ℕ
pgn_request_length = 3

abbrev pub any_pgn : ℕ
any_pgn = 0

abbrev pub request_pgn : ℕ
request_pgn = 0xEA00

abbrev pub repetition_rate_pgn : ℕ
repetition_rate_pgn = 0xCC00

abbrev pub acknowledge_pgn : ℕ
acknowledge_pgn = 0xE800

-- A message of at most 8 bytes, at the default priority.
unfoldable pub send_short : Env → ℕ → List ℕ → Option ℕ → Option ℕ → Log → Bool × Log
send_short env pgn bytes source destination log = send_can_message env [] 6 request log
  where
    request : TxRequest
    request = record {
      pgn = pgn;
      buffer = some bytes;
      length = length bytes;
      source = source;
      destination = destination;
      complete_callback = none;
      chunk_callback = none;
    }

abbrev pub request_bytes : ℕ → List ℕ
request_bytes pgn =
    u8 (bit_and pgn 0xFF) ∷ u8 (bit_and (pgn >> 8) 0xFF) ∷ u8 (bit_and (pgn >> 16) 0xFF) ∷ []

unfoldable pub request_parameter_group_number : Env → ℕ → Option ℕ → Option ℕ → Log → Bool × Log
request_parameter_group_number env pgn source destination log =
    send_short env request_pgn (request_bytes pgn) source destination log

abbrev pub rate_bytes : ℕ → ℕ → List ℕ
rate_bytes pgn rate =
    request_bytes pgn
    ++ u8 (bit_and rate 0xFF) ∷ u8 (bit_and (rate >> 8) 0xFF) ∷ 0xFF ∷ 0xFF ∷ 0xFF ∷ []

unfoldable pub request_repetition_rate : Env → ℕ → ℕ → Option ℕ → Option ℕ → Log → Bool × Log
request_repetition_rate env pgn rate source destination log =
    send_short env repetition_rate_pgn (rate_bytes pgn rate) source destination log

-- Addresses are read only where the destination is not a null pointer.
unfoldable pub send_acknowledgement :
    Env → AcknowledgementType → ℕ → Option ℕ → Option ℕ → Log → Bool × Log
send_acknowledgement env type pgn none destination log = (false, log)
send_acknowledgement env type pgn (some source) none log = (false, log)
send_acknowledgement env type pgn (some source) (some destination) log =
    send_short env acknowledge_pgn
      (acknowledgement_value type
        ∷ 0xFF
        ∷ 0xFF
        ∷ 0xFF
        ∷ (env.cf destination).address
        ∷ request_bytes pgn)
      (some source) none log

-- The out-parameters of a request's callback.
pub record Reply : Type 0 where
  pub should_acknowledge : Bool
  pub type : AcknowledgementType

-- What the application's callbacks answer, to a PGN (and a rate) from a control function.
pub record Application : Type 0 where
  pub handle_request : CallbackInfo → ℕ → Option ℕ → Reply → Bool × Reply
  pub handle_rate : CallbackInfo → ℕ → Option ℕ → ℕ → Bool

-- A call of a callback with a PGN.
abbrev pub Call : Type 0
Call = CallbackInfo × ℕ

abbrev pub is_asked : CallbackInfo → ℕ → Bool
is_asked c pgn = c.pgn == pgn || any_pgn == c.pgn

-- The loop over the callbacks, left at the first one that processes the request: the calls, whether
-- one did, and the out-parameters.
unfoldable pub ask :
    Application → ℕ → Option ℕ → List CallbackInfo → Reply → List Call × Bool × Reply
ask app pgn source [] r = ([], false, r)
ask app pgn source (c ∷ cs) r =
    let (done, r') = app.handle_request c pgn source r in
    let (calls, found, last) = ask app pgn source cs r' in
    let skipped = ask app pgn source cs r in
    if is_asked c pgn
    then (if done then ((c, pgn) ∷ [], true, r') else ((c, pgn) ∷ calls, found, last))
    else skipped

unfoldable pub ask_rate : Application → ℕ → Option ℕ → ℕ → List CallbackInfo → List Call
ask_rate app pgn source rate [] = []
ask_rate app pgn source rate (c ∷ cs) =
    let rest = ask_rate app pgn source rate cs in
    if is_asked c pgn
    then (if app.handle_rate c pgn source rate then (c, pgn) ∷ [] else (c, pgn) ∷ rest)
    else rest

-- The PGN that the handlers read: the third byte is shifted by 8, as the second one is.
unfoldable pub requested_pgn : List ℕ → ℕ
requested_pgn bytes =
    bit_or (bit_or (get_or bytes 0 0) (get_or bytes 1 0 << 8)) (get_or bytes 2 0 << 8)

unfoldable pub process_rate_request : Application → RequestProtocol → CanMessage → List Call
process_rate_request app p m =
    let rate = u16 (bit_or (get_or m.bytes 3 0) (get_or m.bytes 4 0 << 8)) in
    if can_data_length == length m.bytes && is_some m.destination
    then ask_rate app (requested_pgn m.bytes) m.source rate p.rate_callbacks
    else []

-- What follows the loop over the callbacks of a request.
unfoldable pub acknowledge : Env → ℕ → CanMessage → List Call × Bool × Reply → Log → List Call × Log
acknowledge env pgn m (calls, found, r) log = (
  calls,
  (if is_some m.destination
      then (if found
          then (if r.should_acknowledge
              then (send_acknowledgement env r.type pgn m.destination m.source log).1
              else log)
          else (send_acknowledgement env negative pgn m.destination m.source log).1)
      else log),
)

unfoldable pub process_pgn_request :
    Env → Application → RequestProtocol → CanMessage → Log → List Call × Log
process_pgn_request env app p m log =
    let pgn = requested_pgn m.bytes in
    let start : Reply = record { should_acknowledge = false; type = negative } in
    if leb pgn_request_length (length m.bytes)
    then acknowledge env pgn m (ask app pgn m.source p.request_callbacks start) log
    else ([], log)

unfoldable pub process_message :
    Env → Application → RequestProtocol → CanMessage → Log → List Call × Log
process_message env app p m log =
    let pgn = get_parameter_group_number m.identifier in
    if not (is_some m.destination) && broadcast_can_address == get_destination_address m.identifier
      || same_pointer m.destination p.control_function
    then (if pgn == repetition_rate_pgn
        then (process_rate_request app p m, log)
        else if pgn == request_pgn
        then process_pgn_request env app p m log
        else ([], log))
    else ([], log)
