-- ===== src/Diagnostic/Clearing.antt =====
-- isobus_diagnostic_protocol.cpp: the messages DM22, which ask to clear one trouble code, and the
-- answers to them. A DM22 that is not one of the two requests changes nothing. Transport protocols do
-- not take the answers, which have 8 bytes.
use iso11783_can_stack.Prelude.{
  ℕ, Bool, true, false, not, ◌&&◌, Option, some, none, List, [], ◌∷◌, ◌++◌, bit_and, bit_or, ◌==◌,
  if◌then◌else◌, ◌<<◌, ◌>>◌, length, is_some, get_or,
}
use iso11783_can_stack.Message.{CanMessage}
use iso11783_can_stack.Network.{Env, HasLog, TxRequest, send_can_message, can_data_length}
use iso11783_can_stack.Diagnostic.{
  DiagnosticTroubleCode, Dm22Data, DiagnosticProtocol, number_of_flags, set_flag,
}

abbrev pub diagnostic_message_22 : ℕ
diagnostic_message_22 = 0xC300

abbrev pub dm22_flag : ℕ
dm22_flag = 4

-- DM22ControlByte
abbrev pub request_to_clear_previously_active : ℕ
request_to_clear_previously_active = 0x01

abbrev pub positive_of_previously_active : ℕ
positive_of_previously_active = 0x02

abbrev pub negative_of_previously_active : ℕ
negative_of_previously_active = 0x03

abbrev pub request_to_clear_active : ℕ
request_to_clear_active = 0x11

abbrev pub positive_of_active : ℕ
positive_of_active = 0x12

abbrev pub negative_of_active : ℕ
negative_of_active = 0x13

-- DM22NegativeAcknowledgeIndicator
abbrev pub unknown_or_does_not_exist : ℕ
unknown_or_does_not_exist = 2

abbrev pub no_longer_previously_active : ℕ
no_longer_previously_active = 3

abbrev pub no_longer_active : ℕ
no_longer_active = 4

-- Whether a request is about the code; the lamp of the code does not matter.
abbrev pub is_about : Dm22Data → DiagnosticTroubleCode → Bool
is_about r c =
    r.suspect_parameter_number == c.suspect_parameter_number
    && r.failure_mode_identifier == c.failure_mode_identifier

unfoldable pub find_about : Dm22Data → List DiagnosticTroubleCode → Option DiagnosticTroubleCode
find_about r [] = none
find_about r (c ∷ cs) = if is_about r c then some c else find_about r cs

unfoldable pub erase_about : Dm22Data → List DiagnosticTroubleCode → List DiagnosticTroubleCode
erase_about r [] = []
erase_about r (c ∷ cs) = if is_about r c then cs else c ∷ erase_about r cs

-- The request as it is read from the message; `nack` is not set yet.
unfoldable pub read_request : CanMessage → Dm22Data
read_request m = record {
  destination = m.source;
  suspect_parameter_number =
      bit_or (bit_or (get_or m.bytes 5 0) (get_or m.bytes 6 0 << 8))
        ((bit_and (get_or m.bytes 7 0) 0xE0 >> 5) << 16);
  failure_mode_identifier = bit_and (get_or m.bytes 7 0) 0x1F;
  nack_indicator = 0;
  clear_active = false;
  nack = false;
}

unfoldable pub queue_response : Dm22Data → DiagnosticProtocol → DiagnosticProtocol
queue_response r p = record p {
  dm22_response_queue = p.dm22_response_queue ++ r ∷ [];
  tx_flags = set_flag number_of_flags dm22_flag p.tx_flags;
}

-- The reason of a refusal: a reason that was found is replaced.
unfoldable pub refusal : ℕ → Option DiagnosticTroubleCode → ℕ
refusal reason found =
    let indicator = if is_some found then reason else 0 in
    if not (indicator == 0) then unknown_or_does_not_exist else indicator

-- With what was found in the list of active codes.
unfoldable pub clear_active_code :
    Dm22Data → Option DiagnosticTroubleCode → DiagnosticProtocol → DiagnosticProtocol
clear_active_code r (some c) p =
    queue_response (record r { clear_active = true; nack = false })
      (record p { inactive = p.inactive ++ c ∷ []; active = erase_about r p.active })
clear_active_code r none p =
    queue_response
      (record r {
        clear_active = true;
        nack = true;
        nack_indicator = refusal no_longer_active (find_about r p.inactive);
      })
      p

-- With what was found in the list of inactive codes.
unfoldable pub clear_inactive_code :
    Dm22Data → Option DiagnosticTroubleCode → DiagnosticProtocol → DiagnosticProtocol
clear_inactive_code r (some c) p =
    queue_response (record r { nack = false }) (record p { inactive = erase_about r p.inactive })
clear_inactive_code r none p =
    queue_response
      (record r {
        nack = true;
        nack_indicator = refusal no_longer_previously_active (find_about r p.active);
      })
      p

-- By the control byte.
unfoldable pub clear_code : ℕ → Dm22Data → DiagnosticProtocol → DiagnosticProtocol
clear_code control r p =
    if control == request_to_clear_active
    then clear_active_code r (find_about r p.active) p
    else if control == request_to_clear_previously_active
    then clear_inactive_code r (find_about r p.inactive) p
    else p

unfoldable pub process_clear_request : CanMessage → DiagnosticProtocol → DiagnosticProtocol
process_clear_request m p =
    if length m.bytes == can_data_length
    then clear_code (get_or m.bytes 0 0) (read_request m) p
    else p

-- The eight bytes of an answer.
unfoldable pub response_bytes : Dm22Data → List ℕ
response_bytes r =
    let spn = r.suspect_parameter_number in
    (if r.nack
      then (if r.clear_active then negative_of_active else negative_of_previously_active)
      else if r.clear_active
      then positive_of_active
      else positive_of_previously_active)
    ∷ (if r.nack then r.nack_indicator else 0xFF)
    ∷ 0xFF
    ∷ 0xFF
    ∷ 0xFF
    ∷ bit_and spn 0xFF
    ∷ bit_and (spn >> 8) 0xFF
    ∷ bit_or (bit_and ((spn >> 16) << 5) 0xFF) (bit_and r.failure_mode_identifier 0x07)
    ∷ []

-- The last element of the queue, and the queue without it.
unfoldable pub back : List Dm22Data → Option Dm22Data
back [] = none
back (r ∷ []) = some r
back (r ∷ r' ∷ rs) = back (r' ∷ rs)

unfoldable pub pop_back : List Dm22Data → List Dm22Data
pop_back [] = []
pop_back (r ∷ []) = []
pop_back (r ∷ r' ∷ rs) = r ∷ pop_back (r' ∷ rs)

module _ {S : Type 0} ⦃h : HasLog S⦄ where
  unfoldable pub send_response : Env → Dm22Data → DiagnosticProtocol → S → Bool × S
  send_response env r p s =
      let request : TxRequest = record {
        pgn = diagnostic_message_22;
        buffer = some (response_bytes r);
        length = can_data_length;
        source = some p.control_function;
        destination = r.destination;
        complete_callback = none;
        chunk_callback = none;
      } in
      send_can_message env [] 6 request s

  -- One answer of the loop, and the ones of the list that counts them. The queue is not empty when
  -- it is read: each round takes at most one answer from it.
  unfoldable pub send_responses :
      Env → List Dm22Data → Bool → DiagnosticProtocol → S → Bool × DiagnosticProtocol × S
  send_responses env [] sent p s = (sent, p, s)
  send_responses env (_ ∷ rounds) sent p s = elim (back p.dm22_response_queue) [
    | none ↦ send_responses env rounds sent p s
    | some r ↦
        let (sent', s') = send_response env r p s in
        let kept : DiagnosticProtocol =
          if sent' then record p { dm22_response_queue = pop_back p.dm22_response_queue } else p in
        send_responses env rounds sent' kept s'
  ]

  unfoldable pub process_all_dm22_responses :
      Env → DiagnosticProtocol → S → Bool × DiagnosticProtocol × S
  process_all_dm22_responses env p s = send_responses env p.dm22_response_queue false p s
