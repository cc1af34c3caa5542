-- ===== src/ControlFunction.antt =====
-- isobus/src/can_control_function.cpp: what the stack knows of a device on the bus. An object is
-- named by a number, the model of its pointer; `Env.cf` of module Network gives the object.
use iso11783_can_stack.Prelude.{ℕ, Bool, not, ◌&&◌, ◌==◌}
use iso11783_can_stack.Name.{Name}

pub data ControlFunctionType : Type 0 where
  internal external partnered : ControlFunctionType

pub record ControlFunction : Type 0 where
  pub name : Name
  pub type : ControlFunctionType
  pub address : ℕ
  pub port : ℕ

abbrev pub null_can_address : ℕ
null_can_address = 0xFE

abbrev pub broadcast_can_address : ℕ
broadcast_can_address = 0xFF

unfoldable pub get_address_valid : ControlFunction → Bool
get_address_valid c =
    not (broadcast_can_address == c.address) && not (null_can_address == c.address)

abbrev pub is_internal : ControlFunctionType → Bool
is_internal internal = Bool.true
is_internal _ = Bool.false
