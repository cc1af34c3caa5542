-- ===== src/Diagnostic/Messages.antt =====
-- isobus_diagnostic_protocol.cpp: the messages DM1 and DM2, of the active and of the inactive codes.
-- With one code or none the code writes past the end of its buffer, which is as long as the codes
-- need; the model notes the fault, and goes on with the bytes that were to be sent. The control
-- function is not a null pointer.
use iso11783_can_stack.Prelude.{
  ℕ, ◌+◌, ◌*◌, Bool, true, false, ◌||◌, some, none, List, [], ◌∷◌, ◌++◌, bit_and, bit_or, leb, ltb,
  if◌then◌else◌, u8, u16, ◌<<◌, ◌>>◌, length,
}
use iso11783_can_stack.Network.{
  Env, HasLog, fault, out_of_range, TxRequest, send_can_message, can_data_length,
}
use iso11783_can_stack.Diagnostic.{
  DiagnosticTroubleCode, DiagnosticProtocol, Lamp, malfunction_indicator, red_stop, amber_warning,
  protect, FlashState, convert_flash_state_to_byte, get_active_list_lamp_state_and_flash_state,
  get_inactive_list_lamp_state_and_flash_state,
}

abbrev pub max_payload_size_bytes : ℕ
max_payload_size_bytes = 1785

abbrev pub dm_payload_bytes_per_dtc : ℕ
dm_payload_bytes_per_dtc = 4

abbrev pub diagnostic_message_1 : ℕ
diagnostic_message_1 = 0xFECA

abbrev pub diagnostic_message_2 : ℕ
diagnostic_message_2 = 0xFECB

abbrev pub lit_bit : FlashState × Bool → ℕ
lit_bit (flash, true) = 1
lit_bit (flash, false) = 0

abbrev pub flash_bits : FlashState × Bool → ℕ
flash_bits (flash, lit) = convert_flash_state_to_byte flash

-- A field of two bits for each lamp.
abbrev pub lamp_byte : (FlashState × Bool → ℕ) → (Lamp → FlashState × Bool) → ℕ
lamp_byte field state = u8 (
    bit_or
      (bit_or (bit_or (field (state protect)) (field (state amber_warning) << 2))
        (field (state red_stop) << 4))
      (field (state malfunction_indicator) << 6))

unfoldable pub lamp_bytes : Bool → (Lamp → FlashState × Bool) → List ℕ
lamp_bytes j1939_mode state =
    if j1939_mode
    then lamp_byte lit_bit state ∷ lamp_byte flash_bits state ∷ []
    else 0xFF ∷ 0xFF ∷ []

unfoldable pub code_bytes : DiagnosticTroubleCode → List ℕ
code_bytes c =
    let spn = c.suspect_parameter_number in
    u8 (bit_and spn 0xFF)
    ∷ u8 (bit_and (spn >> 8) 0xFF)
    ∷ u8 (bit_or (u8 (bit_and (spn >> 16) 0xFF) << 5) (u8 (bit_and c.failure_mode_identifier 0x1F)))
    ∷ u8 (bit_and c.occurrence_count 0x7F)
    ∷ []

unfoldable pub all_code_bytes : List DiagnosticTroubleCode → List ℕ
all_code_bytes [] = []
all_code_bytes (c ∷ cs) = code_bytes c ++ all_code_bytes cs

abbrev pub payload_size : List DiagnosticTroubleCode → ℕ
payload_size cs = u16 (length cs * dm_payload_bytes_per_dtc + 2)

-- The payload behind the bytes of the lamps.
unfoldable pub payload_bytes : List DiagnosticTroubleCode → List ℕ
payload_bytes [] = 0 ∷ 0 ∷ 0 ∷ 0 ∷ 0xFF ∷ 0xFF ∷ []
payload_bytes (c ∷ cs) =
    if ltb (payload_size (c ∷ cs)) can_data_length
    then all_code_bytes (c ∷ cs) ++ 0xFF ∷ 0xFF ∷ []
    else all_code_bytes (c ∷ cs)

module _ {S : Type 0} ⦃h : HasLog S⦄ where
  unfoldable pub send_codes :
      Env
      → List (TxRequest → S → Bool × S)
      → ℕ
      → List ℕ
      → List DiagnosticTroubleCode
      → DiagnosticProtocol
      → S
      → Bool × S
  send_codes env protocols pgn lamps cs p s =
      let size = payload_size cs in
      let request : TxRequest = record {
        pgn = pgn;
        buffer = some (lamps ++ payload_bytes cs);
        length = if ltb size can_data_length then can_data_length else size;
        source = some p.control_function;
        destination = none;
        complete_callback = none;
        chunk_callback = none;
      } in
      let noted =
        if ltb size can_data_length || ltb size (length cs * dm_payload_bytes_per_dtc + 2)
        then h.with_log (fault out_of_range ∷ h.log s) s
        else s in
      if leb size max_payload_size_bytes
      then send_can_message env protocols 6 request noted
      else (false, s)

  unfoldable pub send_diagnostic_message_1 :
      Env → List (TxRequest → S → Bool × S) → DiagnosticProtocol → S → Bool × S
  send_diagnostic_message_1 env protocols p s =
      send_codes env protocols diagnostic_message_1
        (lamp_bytes p.j1939_mode (λ l. get_active_list_lamp_state_and_flash_state l p)) p.active p s

  unfoldable pub send_diagnostic_message_2 :
      Env → List (TxRequest → S → Bool × S) → DiagnosticProtocol → S → Bool × S
  send_diagnostic_message_2 env protocols p s =
      send_codes env protocols diagnostic_message_2
        (lamp_bytes p.j1939_mode (λ l. get_inactive_list_lamp_state_and_flash_state l p)) p.inactive
        p s
