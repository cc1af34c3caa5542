-- ===== src/Name.antt =====
-- isobus/src/can_NAME.cpp: the 64 bit NAME of a control function and its fields. A setter that is
-- given a value out of range logs an error and writes the low bits of the value; the log is not
-- modelled.
pub mod Fields
pub mod Filter
use iso11783_can_stack.Prelude.{
  ℕ, ◌-◌, ◌^◌, Bool, true, false, not, bit_and, bit_or, ◌==◌, u8, u16, ◌<<◌, ◌>>◌,
}

abbrev pub Name : Type 0
Name = ℕ

-- `~mask` on std::uint64_t.
abbrev pub not_64 : ℕ → ℕ
not_64 mask = 2 ^ 64 - 1 - mask

-- static_cast<std::uint64_t>(bool)
abbrev pub bool_value : Bool → ℕ
bool_value true = 1
bool_value false = 0

unfoldable pub get_arbitrary_address_capable : Name → Bool
get_arbitrary_address_capable n = not (n >> 63 == 0)

unfoldable pub set_arbitrary_address_capable : Bool → Name → Name
set_arbitrary_address_capable value n =
    bit_or (bit_and n (not_64 (1 << 63))) (bool_value value << 63)

unfoldable pub get_industry_group : Name → ℕ
get_industry_group n = u8 (bit_and (n >> 60) 0x07)

unfoldable pub set_industry_group : ℕ → Name → Name
set_industry_group value n =
    bit_or (bit_and n (not_64 0x7000_0000_0000_0000)) (bit_and value 0x07 << 60)

unfoldable pub get_device_class_instance : Name → ℕ
get_device_class_instance n = u8 (bit_and (n >> 56) 0x0F)

unfoldable pub set_device_class_instance : ℕ → Name → Name
set_device_class_instance value n =
    bit_or (bit_and n (not_64 0xF00_0000_0000_0000)) (bit_and value 0x0F << 56)

unfoldable pub get_device_class : Name → ℕ
get_device_class n = u8 (bit_and (n >> 49) 0x7F)

unfoldable pub set_device_class : ℕ → Name → Name
set_device_class value n =
    bit_or (bit_and n (not_64 0xFE_0000_0000_0000)) (bit_and value 0x7F << 49)

unfoldable pub get_function_code : Name → ℕ
get_function_code n = u8 (bit_and (n >> 40) 0xFF)

unfoldable pub set_function_code : ℕ → Name → Name
set_function_code value n = bit_or (bit_and n (not_64 0xFF00_0000_0000)) (bit_and value 0xFF << 40)

unfoldable pub get_function_instance : Name → ℕ
get_function_instance n = u8 (bit_and (n >> 35) 0x1F)

unfoldable pub set_function_instance : ℕ → Name → Name
set_function_instance value n =
    bit_or (bit_and n (not_64 0xF8_0000_0000)) (bit_and value 0x1F << 35)

unfoldable pub get_ecu_instance : Name → ℕ
get_ecu_instance n = u8 (bit_and (n >> 32) 0x07)

unfoldable pub set_ecu_instance : ℕ → Name → Name
set_ecu_instance value n = bit_or (bit_and n (not_64 0x7_0000_0000)) (bit_and value 0x07 << 32)

unfoldable pub get_manufacturer_code : Name → ℕ
get_manufacturer_code n = u16 (bit_and (n >> 21) 0x07FF)

unfoldable pub set_manufacturer_code : ℕ → Name → Name
set_manufacturer_code value n = bit_or (bit_and n (not_64 0xFFE0_0000)) (bit_and value 0x07FF << 21)

unfoldable pub get_identity_number : Name → ℕ
get_identity_number n = bit_and n 0x001F_FFFF

unfoldable pub set_identity_number : ℕ → Name → Name
set_identity_number value n = bit_or (bit_and n (not_64 0x1F_FFFF)) (bit_and value 0x1F_FFFF)

-- The whole NAME.
unfoldable pub get_full_name : Name → ℕ
get_full_name n = n

unfoldable pub set_full_name : ℕ → Name → Name
set_full_name value n = value

-- NAME::NAMEParameters
pub data NameParameter : Type 0 where
  identity_number manufacturer_code ecu_instance function_instance function_code : NameParameter
  device_class device_class_instance industry_group arbitrary_address_capable : NameParameter

pub NameParameter-discrete : Discrete NameParameter
NameParameter-discrete = hlevel
