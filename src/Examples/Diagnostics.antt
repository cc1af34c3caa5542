-- ===== src/Examples/Diagnostics.antt =====
-- Runs of the diagnostic protocol.
use iso11783_can_stack.Prelude.{
  true, false, ◌≡◌, ◌||◌, some, refl, [], ◌∷◌, arith, if◌then◌else◌, length,
}
use iso11783_can_stack.Network.{log_itself}
use iso11783_can_stack.Diagnostic.{
  DiagnosticTroubleCode, DiagnosticProtocol, amber_warning_slow, amber_warning, solid, slow, fast,
  solid_of, slow_of, fast_of, set_diagnostic_trouble_code_active,
  clear_active_diagnostic_trouble_codes, clear_inactive_diagnostic_trouble_codes,
  get_active_list_lamp_state_and_flash_state, get_inactive_list_lamp_state_and_flash_state,
  set_flag,
}
use iso11783_can_stack.Message.{CanMessage}
use iso11783_can_stack.Diagnostic.Clearing.{
  process_clear_request, clear_code, clear_active_code, find_about, erase_about, queue_response,
  read_request,
}
use iso11783_can_stack.Diagnostic.Lists.{AreOnce, count_code, codes-AreOnce}
use iso11783_can_stack.Diagnostic.Lamps.{any_status, lamp_state_lem}
use iso11783_can_stack.Examples.{bus}

abbrev code : DiagnosticTroubleCode
code = record {
  suspect_parameter_number = 0x201;
  failure_mode_identifier = 3;
  lamp_state = amber_warning_slow;
  occurrence_count = 1;
}

abbrev protocol : DiagnosticProtocol
protocol = record {
  control_function = 0;
  active = code ∷ [];
  inactive = [];
  dm22_response_queue = [];
  ecu_identification_fields = [] ∷ [] ∷ [] ∷ [] ∷ [] ∷ [] ∷ [];
  software_identification_fields = [];
  tx_flags = 0 ∷ [];
  product_identification_code = [];
  product_identification_brand = [];
  product_identification_model = [];
  last_dm1_sent = 0;
  stop_broadcast_network_bitfield = 0;
  last_dm13_received = 0;
  j1939_mode = true;
}

-- A DM22 that asks to clear the code.
abbrev clear_it : CanMessage
clear_it = record {
  bytes = 0x11 ∷ 0xFF ∷ 0xFF ∷ 0xFF ∷ 0xFF ∷ 0x01 ∷ 0x02 ∷ 0x03 ∷ [];
  source = some 1;
  destination = some 0;
  identifier = 0x18C3_1C26;
  port = 0;
  callback_message_size = 0;
}

-- The code is cleared, an answer is in the queue and its flag is set.
clear_it_runs :
    (process_clear_request clear_it protocol).inactive ≡ code ∷ []
    × (process_clear_request clear_it protocol).active ≡ []
    × (process_clear_request clear_it protocol).tx_flags ≡ 0x10 ∷ []
    × length (process_clear_request clear_it protocol).dm22_response_queue ≡ 1
unfolding process_clear_request clear_code clear_active_code find_about erase_about queue_response
    set_flag read_request
clear_it_runs = (refl, refl, refl, refl)

protocol-AreOnce : AreOnce protocol
unfolding count_code
protocol-AreOnce x = ground arith

codes-AreOnce_example :
    AreOnce (set_diagnostic_trouble_code_active (bus 5) code true protocol).1
    × AreOnce (set_diagnostic_trouble_code_active (bus 5) code false protocol).1
    × AreOnce (clear_active_diagnostic_trouble_codes (bus 5) protocol)
    × AreOnce (clear_inactive_diagnostic_trouble_codes protocol)
    × AreOnce (process_clear_request clear_it protocol)
codes-AreOnce_example = codes-AreOnce (bus 5) code clear_it protocol protocol-AreOnce

lamp_state_lem_example :
    (get_active_list_lamp_state_and_flash_state amber_warning protocol ≡ (
      if any_status (fast_of amber_warning) (code ∷ [])
          then fast
          else if any_status (slow_of amber_warning) (code ∷ [])
          then slow
          else solid,
      any_status (solid_of amber_warning) (code ∷ [])
          || any_status (slow_of amber_warning) (code ∷ [])
          || any_status (fast_of amber_warning) (code ∷ []),
    ))
    × (get_inactive_list_lamp_state_and_flash_state amber_warning protocol ≡ (
      if any_status (fast_of amber_warning) []
          then fast
          else if any_status (slow_of amber_warning) []
          then slow
          else solid,
      any_status (solid_of amber_warning) []
          || any_status (slow_of amber_warning) []
          || any_status (fast_of amber_warning) [],
    ))
lamp_state_lem_example = lamp_state_lem amber_warning protocol
