-- ===== src/Diagnostic.antt =====
-- isobus/src/isobus_diagnostic_protocol.cpp: the lists of active and of previously active trouble
-- codes and the state of the lamps; the messages are in the modules below. Of the flags of
-- utility/src/processing_flags.cpp, `set_flag`.
pub mod Clearing
pub mod Identification
pub mod Requests
pub mod Lists
pub mod Lamps
pub mod Messages
use iso11783_can_stack.Prelude.{
  ℕ, suc, ◌+◌, ◌*◌, ◌/◌, ◌%◌, Bool, true, false, not, ◌&&◌, ◌||◌, Option, some, none, List, [], ◌∷◌,
  ◌++◌, bit_and, bit_or, ◌==◌, leb, ltb, if◌then◌else◌, u8, u16, u32, ◌<<◌, ◌>>◌, set, get_or,
  length, is_some,
}
use iso11783_can_stack.Timing.{get_time_elapsed_ms}
use iso11783_can_stack.Network.{
  Env, HasLog, Fault, fault, out_of_range, TxRequest, send_can_message, can_port_maximum,
  can_data_length,
}

pub data LampStatus : Type 0 where
  no_lamp : LampStatus
  malfunction_solid malfunction_slow malfunction_fast : LampStatus
  red_stop_solid red_stop_slow red_stop_fast : LampStatus
  amber_warning_solid amber_warning_slow amber_warning_fast : LampStatus
  engine_protect_solid engine_protect_slow engine_protect_fast : LampStatus

abbrev pub status_value : LampStatus → ℕ
status_value no_lamp = 0
status_value malfunction_solid = 1
status_value malfunction_slow = 2
status_value malfunction_fast = 3
status_value red_stop_solid = 4
status_value red_stop_slow = 5
status_value red_stop_fast = 6
status_value amber_warning_solid = 7
status_value amber_warning_slow = 8
status_value amber_warning_fast = 9
status_value engine_protect_solid = 10
status_value engine_protect_slow = 11
status_value engine_protect_fast = 12

pub data Lamp : Type 0 where
  malfunction_indicator red_stop amber_warning protect : Lamp

pub data FlashState : Type 0 where
  solid slow fast : FlashState

pub record DiagnosticTroubleCode : Type 0 where
  pub suspect_parameter_number : ℕ
  pub failure_mode_identifier : ℕ
  pub lamp_state : LampStatus
  pub occurrence_count : ℕ

-- `operator==` leaves out how often the code occurred.
unfoldable pub same_code : DiagnosticTroubleCode → DiagnosticTroubleCode → Bool
same_code a b =
    a.suspect_parameter_number == b.suspect_parameter_number
    && a.failure_mode_identifier == b.failure_mode_identifier
    && status_value a.lamp_state == status_value b.lamp_state

pub record Dm22Data : Type 0 where
  pub destination : Option ℕ
  pub suspect_parameter_number : ℕ
  pub failure_mode_identifier : ℕ
  pub nack_indicator : ℕ
  pub clear_active : Bool
  pub nack : Bool

pub record DiagnosticProtocol : Type 0 where
  pub control_function : ℕ
  pub active : List DiagnosticTroubleCode
  pub inactive : List DiagnosticTroubleCode
  pub dm22_response_queue : List Dm22Data
  pub ecu_identification_fields : List (List ℕ)
  pub software_identification_fields : List (List ℕ)
  pub tx_flags : List ℕ
  pub product_identification_code : List ℕ
  pub product_identification_brand : List ℕ
  pub product_identification_model : List ℕ
  pub last_dm1_sent : ℕ
  pub stop_broadcast_network_bitfield : ℕ
  pub last_dm13_received : ℕ
  pub j1939_mode : Bool

abbrev pub dm_max_frequency_ms : ℕ
dm_max_frequency_ms = 1000

abbrev pub dm13_number_of_j1939_networks : ℕ
dm13_number_of_j1939_networks = 11

abbrev pub number_of_flags : ℕ
number_of_flags = 5

abbrev pub dm1_flag : ℕ
dm1_flag = 0

-- ProcessingFlags::set_flag, on the bytes of the flags.
unfoldable pub set_flag : ℕ → ℕ → List ℕ → List ℕ
set_flag max_flag flag bytes =
    if leb flag max_flag
    then set bytes (flag / 8) (u8 (bit_or (get_or bytes (flag / 8) 0) (1 << (flag % 8))))
    else bytes

unfoldable pub get_are_broadcasts_stopped_for_channel : ℕ → DiagnosticProtocol → Bool
get_are_broadcasts_stopped_for_channel channel p =
    if ltb channel can_port_maximum && ltb channel dm13_number_of_j1939_networks
    then not (bit_and (u32 (1 << channel)) p.stop_broadcast_network_bitfield == 0)
    else false

-- What `std::find` gives, and the list without it.
unfoldable pub find_code :
    DiagnosticTroubleCode → List DiagnosticTroubleCode → Option DiagnosticTroubleCode
find_code c [] = none
find_code c (d ∷ ds) = if same_code d c then some d else find_code c ds

unfoldable pub erase_code :
    DiagnosticTroubleCode → List DiagnosticTroubleCode → List DiagnosticTroubleCode
erase_code c [] = []
erase_code c (d ∷ ds) = if same_code d c then ds else d ∷ erase_code c ds

-- A code that is new to the protocol starts a DM1, but at most one in a second.
unfoldable pub note_new_code : Env → DiagnosticProtocol → DiagnosticProtocol
note_new_code env p =
    if ltb dm_max_frequency_ms (get_time_elapsed_ms env.now p.last_dm1_sent)
      && not (get_are_broadcasts_stopped_for_channel (env.cf p.control_function).port p)
    then record p {
      tx_flags = set_flag number_of_flags dm1_flag p.tx_flags;
      last_dm1_sent = env.now;
    }
    else p

-- With what was found in the list of inactive codes.
unfoldable pub activate :
    Env
    → DiagnosticTroubleCode
    → Option DiagnosticTroubleCode
    → DiagnosticProtocol
    → DiagnosticProtocol
activate env c (some d) p = record p {
  active = p.active ++ record d { occurrence_count = u8 (d.occurrence_count + 1) } ∷ [];
  inactive = erase_code c p.inactive;
}
activate env c none p =
    note_new_code env (record p { active = p.active ++ record c { occurrence_count = 1 } ∷ [] })

-- With what was found in the list of active codes.
unfoldable pub deactivate :
    DiagnosticTroubleCode → Option DiagnosticTroubleCode → DiagnosticProtocol → DiagnosticProtocol
deactivate c (some d) p = record p {
  inactive = p.inactive ++ d ∷ [];
  active = erase_code c p.active;
}
deactivate c none p = p

-- The result is false on every branch.
unfoldable pub set_diagnostic_trouble_code_active :
    Env → DiagnosticTroubleCode → Bool → DiagnosticProtocol → Bool × DiagnosticProtocol
set_diagnostic_trouble_code_active env c true p = (
  false,
  (if is_some (find_code c p.active) then p else activate env c (find_code c p.inactive) p),
)
set_diagnostic_trouble_code_active env c false p =
    (false, (if is_some (find_code c p.inactive) then p else deactivate c (find_code c p.active) p))

unfoldable pub get_diagnostic_trouble_code_active :
    DiagnosticTroubleCode → DiagnosticProtocol → Bool
get_diagnostic_trouble_code_active c p = is_some (find_code c p.active)

unfoldable pub clear_active_diagnostic_trouble_codes : Env → DiagnosticProtocol → DiagnosticProtocol
clear_active_diagnostic_trouble_codes env p =
    let cleared : DiagnosticProtocol = record p {
      inactive = p.inactive ++ p.active;
      active = [];
    } in
    if get_are_broadcasts_stopped_for_channel (env.cf p.control_function).port p
    then cleared
    else record cleared { tx_flags = set_flag number_of_flags dm1_flag p.tx_flags }

unfoldable pub clear_inactive_diagnostic_trouble_codes : DiagnosticProtocol → DiagnosticProtocol
clear_inactive_diagnostic_trouble_codes p = record p { inactive = [] }

unfoldable pub convert_flash_state_to_byte : FlashState → ℕ
convert_flash_state_to_byte slow = 0
convert_flash_state_to_byte fast = 1
convert_flash_state_to_byte solid = 3

-- The three states of a trouble code that are about a lamp.
abbrev pub solid_of : Lamp → LampStatus
solid_of malfunction_indicator = malfunction_solid
solid_of red_stop = red_stop_solid
solid_of amber_warning = amber_warning_solid
solid_of protect = engine_protect_solid

abbrev pub slow_of : Lamp → LampStatus
slow_of malfunction_indicator = malfunction_slow
slow_of red_stop = red_stop_slow
slow_of amber_warning = amber_warning_slow
slow_of protect = engine_protect_slow

abbrev pub fast_of : Lamp → LampStatus
fast_of malfunction_indicator = malfunction_fast
fast_of red_stop = red_stop_fast
fast_of amber_warning = amber_warning_fast
fast_of protect = engine_protect_fast

abbrev pub is_status : LampStatus → DiagnosticTroubleCode → Bool
is_status l c = status_value c.lamp_state == status_value l

abbrev pub unless_fast : FlashState → FlashState
unless_fast fast = fast
unless_fast _ = slow

-- One round of the loop over the codes.
unfoldable pub see_code : Lamp → DiagnosticTroubleCode → FlashState × Bool → FlashState × Bool
see_code l c (flash, lit) =
    if is_status (solid_of l) c
    then (flash, true)
    else if is_status (slow_of l) c
    then (unless_fast flash, true)
    else if is_status (fast_of l) c
    then (fast, true)
    else (flash, lit)

unfoldable pub see_codes : Lamp → List DiagnosticTroubleCode → FlashState × Bool → FlashState × Bool
see_codes l [] state = state
see_codes l (c ∷ cs) state = see_codes l cs (see_code l c state)

unfoldable pub get_active_list_lamp_state_and_flash_state :
    Lamp → DiagnosticProtocol → FlashState × Bool
get_active_list_lamp_state_and_flash_state l p = see_codes l p.active (solid, false)

unfoldable pub get_inactive_list_lamp_state_and_flash_state :
    Lamp → DiagnosticProtocol → FlashState × Bool
get_inactive_list_lamp_state_and_flash_state l p = see_codes l p.inactive (solid, false)
