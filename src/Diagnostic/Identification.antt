-- ===== src/Diagnostic/Identification.antt =====
-- isobus_diagnostic_protocol.cpp: the fields of the identification messages, and the messages. A
-- string is the list of its bytes. The destination is global, and the control function is not a null
-- pointer.
use iso11783_can_stack.Prelude.{
  ℕ, zero, suc, ◌+◌, ◌-◌, Bool, true, false, some, none, List, [], ◌∷◌, ◌++◌, bit_and, ltb, leb,
  if◌then◌else◌, u8, ◌>>◌, set, length, ◌==◌, Option,
}
use iso11783_can_stack.Network.{Env, HasLog, fault, out_of_range, TxRequest, send_can_message}
use iso11783_can_stack.Diagnostic.{DiagnosticProtocol}

abbrev pub diagnostic_protocol_identification : ℕ
diagnostic_protocol_identification = 0xFD32

abbrev pub product_identification : ℕ
product_identification = 0xFC8D

abbrev pub software_identification : ℕ
software_identification = 0xFEDA

abbrev pub ecu_identification_information : ℕ
ecu_identification_information = 0xFDC5

abbrev pub diagnostic_message_13 : ℕ
diagnostic_message_13 = 0xDF00

abbrev pub product_identification_max_string_length : ℕ
product_identification_max_string_length = 50

abbrev pub number_of_fields : ℕ
number_of_fields = 6

-- The code of '*'.
abbrev star : ℕ
star = 0x2A

unfoldable pub set_product_identification_code :
    List ℕ → DiagnosticProtocol → Bool × DiagnosticProtocol
set_product_identification_code value p =
    if ltb (length value) product_identification_max_string_length
    then (true, record p { product_identification_code = value })
    else (false, p)

unfoldable pub set_product_identification_brand :
    List ℕ → DiagnosticProtocol → Bool × DiagnosticProtocol
set_product_identification_brand value p =
    if ltb (length value) product_identification_max_string_length
    then (true, record p { product_identification_brand = value })
    else (false, p)

unfoldable pub set_product_identification_model :
    List ℕ → DiagnosticProtocol → Bool × DiagnosticProtocol
set_product_identification_model value p =
    if ltb (length value) product_identification_max_string_length
    then (true, record p { product_identification_model = value })
    else (false, p)

-- The fields, and as many empty ones behind them as are asked for.
unfoldable pub extend : ℕ → List (List ℕ) → List (List ℕ)
extend zero fields = fields
extend (suc n) fields = extend n (fields ++ [] ∷ [])

-- With an index in range the code goes on to compare it with the size, which is not equal to it, so
-- it never drops a field.
unfoldable pub set_software_id_field : ℕ → List ℕ → DiagnosticProtocol → DiagnosticProtocol
set_software_id_field index value p =
    let fields = p.software_identification_fields in
    let resized : List (List ℕ) =
      if leb (length fields) index then extend (index + 1 - length fields) fields else fields in
    record p { software_identification_fields = set resized index value }

unfoldable pub clear_software_id_fields : DiagnosticProtocol → DiagnosticProtocol
clear_software_id_fields p = record p { software_identification_fields = [] }

-- The strings one after another, and with a star behind each.
unfoldable pub joined : List (List ℕ) → List ℕ
joined [] = []
joined (field ∷ fields) = field ++ joined fields

unfoldable pub joined_by_stars : List (List ℕ) → List ℕ
joined_by_stars [] = []
joined_by_stars (field ∷ fields) = field ++ star ∷ joined_by_stars fields

module _ {S : Type 0} ⦃h : HasLog S⦄ where
  -- The guard lets the number of fields itself through, one past the last field.
  unfoldable pub set_ecu_id_field : ℕ → List ℕ → DiagnosticProtocol → S → DiagnosticProtocol × S
  set_ecu_id_field field value p s =
      let q : DiagnosticProtocol = record p {
        ecu_identification_fields = set p.ecu_identification_fields field (value ++ star ∷ []);
      } in
      if leb field number_of_fields
      then (
        q,
        (if leb (length p.ecu_identification_fields) field
            then h.with_log (fault out_of_range ∷ h.log s) s
            else s),
      )
      else (p, s)

  unfoldable pub send_to_all : Env → List (TxRequest → S → Bool × S) → ℕ → List ℕ → ℕ → S → Bool × S
  send_to_all env protocols pgn bytes source s =
      let request : TxRequest = record {
        pgn = pgn;
        buffer = some bytes;
        length = length bytes;
        source = some source;
        destination = none;
        complete_callback = none;
        chunk_callback = none;
      } in
      send_can_message env protocols 6 request s

  unfoldable pub send_diagnostic_protocol_identification :
      Env → List (TxRequest → S → Bool × S) → DiagnosticProtocol → S → Bool × S
  send_diagnostic_protocol_identification env protocols p s =
      send_to_all env protocols diagnostic_protocol_identification
        (0x01 ∷ 0xFF ∷ 0xFF ∷ 0xFF ∷ 0xFF ∷ 0xFF ∷ 0xFF ∷ 0xFF ∷ []) p.control_function s

  unfoldable pub send_dm13_announce_suspension :
      Env → List (TxRequest → S → Bool × S) → ℕ → ℕ → S → Bool × S
  send_dm13_announce_suspension env protocols source seconds s =
      send_to_all env protocols diagnostic_message_13
        (0xFF
          ∷ 0xFF
          ∷ 0xFF
          ∷ 0xFF
          ∷ u8 (bit_and seconds 0xFF)
          ∷ u8 (seconds >> 8)
          ∷ 0xFF
          ∷ 0xFF
          ∷ [])
        source s

  unfoldable pub suspend_broadcasts :
      Env → List (TxRequest → S → Bool × S) → ℕ → Option ℕ → ℕ → S → Bool × S
  suspend_broadcasts env protocols channel none seconds s = (false, s)
  suspend_broadcasts env protocols channel (some source) seconds s =
      if channel == (env.cf source).port
      then send_dm13_announce_suspension env protocols source seconds s
      else (false, s)

  unfoldable pub send_ecu_identification :
      Env → List (TxRequest → S → Bool × S) → DiagnosticProtocol → S → Bool × S
  send_ecu_identification env protocols p s =
      send_to_all env protocols ecu_identification_information (joined p.ecu_identification_fields)
        p.control_function s

  unfoldable pub send_product_identification :
      Env → List (TxRequest → S → Bool × S) → DiagnosticProtocol → S → Bool × S
  send_product_identification env protocols p s =
      send_to_all env protocols product_identification
        (p.product_identification_code
          ++ star ∷ p.product_identification_brand
          ++ star ∷ p.product_identification_model
          ++ star ∷ [])
        p.control_function s

  unfoldable pub send_software_identification :
      Env → List (TxRequest → S → Bool × S) → DiagnosticProtocol → S → Bool × S
  send_software_identification env protocols p s =
      if length p.software_identification_fields == 0
      then (false, s)
      else send_to_all env protocols software_identification
          (joined_by_stars p.software_identification_fields) p.control_function s
