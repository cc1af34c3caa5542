-- ===== src/Diagnostic/Requests.antt =====
-- isobus_diagnostic_protocol.cpp: the requests for PGNs that the diagnostic protocol answers, and the
-- messages that its flags ask for, one flag at a time.
use iso11783_can_stack.Prelude.{
  ℕ, Bool, true, false, not, ◌&&◌, ◌||◌, Option, some, none, List, ◌==◌, if◌then◌else◌, length,
}
use iso11783_can_stack.Timing.{time_expired_ms}
use iso11783_can_stack.Network.{Env, HasLog, TxRequest}
use iso11783_can_stack.PgnRequest.{AcknowledgementType, positive, negative}
use iso11783_can_stack.Diagnostic.{
  DiagnosticProtocol, number_of_flags, dm1_flag, set_flag, clear_active_diagnostic_trouble_codes,
  clear_inactive_diagnostic_trouble_codes, get_are_broadcasts_stopped_for_channel,
  dm_max_frequency_ms,
}
use iso11783_can_stack.Diagnostic.Messages.{
  diagnostic_message_2, send_diagnostic_message_1, send_diagnostic_message_2,
}
use iso11783_can_stack.Diagnostic.Clearing.{dm22_flag, process_all_dm22_responses}
use iso11783_can_stack.Diagnostic.Identification.{
  product_identification, software_identification, ecu_identification_information,
  diagnostic_protocol_identification, send_software_identification, send_ecu_identification,
  send_diagnostic_protocol_identification, send_product_identification,
}

abbrev pub diagnostic_message_3 : ℕ
diagnostic_message_3 = 0xFECC

abbrev pub diagnostic_message_11 : ℕ
diagnostic_message_11 = 0xFED3

abbrev pub dm2_flag : ℕ
dm2_flag = 1

abbrev pub protocol_id_flag : ℕ
protocol_id_flag = 2

abbrev pub product_identification_flag : ℕ
product_identification_flag = 3

abbrev pub dm13_timeout_ms : ℕ
dm13_timeout_ms = 6000

abbrev pub raise_flag : ℕ → DiagnosticProtocol → DiagnosticProtocol
raise_flag flag p = record p { tx_flags = set_flag number_of_flags flag p.tx_flags }

-- The answer to a request: whether it was handled, and whether and how it is acknowledged.
pub record Answer : Type 0 where
  pub handled : Bool
  pub acknowledge : Bool
  pub type : AcknowledgementType

abbrev handled_silently : Bool → Answer
handled_silently ok = record { handled = ok; acknowledge = false; type = negative }

abbrev acknowledged : Answer
acknowledged = record { handled = true; acknowledge = true; type = positive }

module _ {S : Type 0} ⦃h : HasLog S⦄ where
  unfoldable pub process_parameter_group_number_request :
      Env
      → List (TxRequest → S → Bool × S)
      → ℕ
      → Option ℕ
      → DiagnosticProtocol
      → S
      → Answer × DiagnosticProtocol × S
  process_parameter_group_number_request env protocols pgn none p s = (handled_silently false, p, s)
  process_parameter_group_number_request env protocols pgn (some requester) p s =
      if pgn == diagnostic_message_2
      then (handled_silently true, raise_flag dm2_flag p, s)
      else if pgn == diagnostic_message_3
      then (acknowledged, clear_inactive_diagnostic_trouble_codes p, s)
      else if pgn == diagnostic_message_11
      then (acknowledged, clear_active_diagnostic_trouble_codes env p, s)
      else if pgn == product_identification
      then (handled_silently true, raise_flag product_identification_flag p, s)
      else if pgn == diagnostic_protocol_identification
      then (handled_silently true, raise_flag protocol_id_flag p, s)
      else if pgn == software_identification
      then (let (ok, s') = send_software_identification env protocols p s in
          (handled_silently ok, p, s'))
      else if pgn == ecu_identification_information
      then (let (ok, s') = send_ecu_identification env protocols p s in
          (handled_silently ok, p, s'))
      else (handled_silently false, p, s)

  -- What is sent for a flag.
  unfoldable pub send_for_flag :
      Env
      → List (TxRequest → S → Bool × S)
      → ℕ
      → DiagnosticProtocol
      → S
      → Bool × DiagnosticProtocol × S
  send_for_flag env protocols flag p s =
      if flag == dm1_flag
      then (let (ok, s') = send_diagnostic_message_1 env protocols p s in
          (ok, (if ok then record p { last_dm1_sent = env.now } else p), s'))
      else if flag == dm2_flag
      then (let (ok, s') = send_diagnostic_message_2 env protocols p s in (ok, p, s'))
      else if flag == protocol_id_flag
      then (let (ok, s') = send_diagnostic_protocol_identification env protocols p s in (ok, p, s'))
      else if flag == product_identification_flag
      then (let (ok, s') = send_product_identification env protocols p s in (ok, p, s'))
      else if flag == dm22_flag
      then process_all_dm22_responses env p s
      else (false, p, s)

  -- A flag whose message was not sent is set again.
  unfoldable pub process_flags :
      Env → List (TxRequest → S → Bool × S) → ℕ → DiagnosticProtocol → S → DiagnosticProtocol × S
  process_flags env protocols flag p s =
      let (ok, p', s') = send_for_flag env protocols flag p s in
      ((if ok then p' else raise_flag flag p'), s')

-- What `update` does before it processes the flags.
unfoldable pub update_broadcasts : Env → DiagnosticProtocol → DiagnosticProtocol
update_broadcasts env p =
    let q : DiagnosticProtocol =
      if time_expired_ms env.now p.last_dm13_received dm13_timeout_ms
      then record p { stop_broadcast_network_bitfield = 0 }
      else p in
    if not (get_are_broadcasts_stopped_for_channel (env.cf q.control_function).port q)
      && (q.j1939_mode || not (length q.active == 0))
      && time_expired_ms env.now q.last_dm1_sent dm_max_frequency_ms
    then record (raise_flag dm1_flag q) { last_dm1_sent = env.now }
    else q
