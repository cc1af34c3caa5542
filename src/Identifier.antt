-- ===== src/Identifier.antt =====
-- isobus/src/can_identifier.cpp: the fields of a CAN identifier. An identifier is its raw 32 bit
-- number; `encode` is the constructor that takes the fields.
pub mod Fields
use iso11783_can_stack.Prelude.{
  ℕ, ◌-◌, ◌^◌, Bool, bit_and, bit_or, ltb, leb, if◌then◌else◌, u8, u32, ◌<<◌, ◌>>◌,
}

pub data IdentifierType : Type 0 where
  standard extended : IdentifierType

abbrev pub CanIdentifier : Type 0
CanIdentifier = ℕ

abbrev pub identifier_type_bit_mask : ℕ
identifier_type_bit_mask = 0x8000_0000

abbrev pub undefined_parameter_group_number : ℕ
undefined_parameter_group_number = 0xFFFF_FFFF

abbrev pub global_address : ℕ
global_address = 0xFF

abbrev pub null_address : ℕ
null_address = 0xFE

abbrev pub broadcast_pgn_mask : ℕ
broadcast_pgn_mask = 0x0003_FFFF

abbrev pub destination_specific_pgn_mask : ℕ
destination_specific_pgn_mask = 0x0003_FF00

abbrev pub pdu2_format_mask : ℕ
pdu2_format_mask = 0x00F0_0000

-- The priority (0 to 7) stands for the enumerator of `CANPriority` with that value.
unfoldable pub encode : IdentifierType → ℕ → ℕ → ℕ → ℕ → CanIdentifier
encode extended pgn priority destination source =
    let raw = u32 (priority << 26) in
    let specific = u32 (bit_and pgn destination_specific_pgn_mask << 8) in
    let broadcast = u32 (bit_and pgn broadcast_pgn_mask << 8) in
    let fields =
      if ltb (bit_and (u32 (pgn << 8)) pdu2_format_mask) pdu2_format_mask
      then bit_or (bit_or raw specific) (u32 (destination << 8))
      else bit_or raw broadcast in
    bit_or fields source
encode standard pgn priority destination source = bit_or 0 source

abbrev if_extended {ℓ} : {A : Type ℓ} → IdentifierType → A → A → A
if_extended extended x y = x
if_extended standard x y = y

unfoldable pub get_identifier_type : CanIdentifier → IdentifierType
get_identifier_type raw = if leb raw 0x7FF then standard else extended

unfoldable pub get_priority : CanIdentifier → ℕ
unfolding get_identifier_type
get_priority raw = if_extended (get_identifier_type raw) (bit_and (raw >> 26) 0x07) 0

unfoldable pub get_identifier : CanIdentifier → ℕ
get_identifier raw = bit_and raw (2 ^ 32 - 1 - identifier_type_bit_mask)

unfoldable pub get_parameter_group_number : CanIdentifier → ℕ
unfolding get_identifier_type
get_parameter_group_number raw =
    if_extended (get_identifier_type raw)
      (if ltb (bit_and pdu2_format_mask raw) pdu2_format_mask
        then bit_and (raw >> 8) destination_specific_pgn_mask
        else bit_and (raw >> 8) broadcast_pgn_mask)
      undefined_parameter_group_number

unfoldable pub get_destination_address : CanIdentifier → ℕ
unfolding get_identifier_type
get_destination_address raw =
    if_extended (get_identifier_type raw)
      (if ltb (bit_and pdu2_format_mask raw) pdu2_format_mask
        then u8 (bit_and (raw >> 8) 0xFF)
        else global_address)
      global_address

unfoldable pub get_source_address : CanIdentifier → ℕ
unfolding get_identifier_type
get_source_address raw =
    if_extended (get_identifier_type raw) (u8 (bit_and raw 0xFF)) global_address

unfoldable pub get_is_valid : CanIdentifier → Bool
unfolding get_identifier_type
get_is_valid raw = if_extended (get_identifier_type raw) (leb raw 0x1FFF_FFFF) (leb raw 0x7FF)
