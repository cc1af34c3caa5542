-- ===== src/Tables.antt =====
-- isobus/src/can_network_manager.cpp: the table of the control functions by port and address. The
-- objects that pointers name are in a store, since the table and the list share them.
pub mod Lookup
use iso11783_can_stack.Prelude.{
  ℕ, Bool, true, false, not, ◌&&◌, Option, some, none, List, [], ◌∷◌, ◌==◌, ltb, if◌then◌else◌,
  is_some,
}
use iso11783_can_stack.Message.{CanMessage}
use iso11783_can_stack.Identifier.{get_parameter_group_number, get_source_address, null_address}
use iso11783_can_stack.ControlFunction.{ControlFunction, null_can_address}
use iso11783_can_stack.Network.{can_port_maximum}
use iso11783_can_stack.AddressClaim.{Table, address_claim_pgn}

-- `controlFunctionTable`, `activeControlFunctions`, and the objects.
pub record Tables : Type 0 where
  pub cf : ℕ → ControlFunction
  pub table : Table
  pub active : List ℕ

-- `c->address = address`
unfoldable pub set_address : ℕ → ℕ → (ℕ → ControlFunction) → ℕ → ControlFunction
set_address c address cf i = if i == c then record (cf i) { address = address } else cf i

-- `controlFunctionTable[port][address] = entry`
unfoldable pub set_entry : ℕ → ℕ → Option ℕ → Table → Table
set_entry port address entry table p a = if p == port && a == address then entry else table p a

unfoldable pub add_control_function : ℕ → Option ℕ → ℕ → Tables → Tables
add_control_function port c address t =
    if is_some c && ltb address null_can_address && ltb port can_port_maximum
    then record t { table = set_entry port address c t.table }
    else t

-- The entry is removed if its control function has lost its address.
unfoldable pub evict_entry : ℕ → ℕ → Option ℕ → Tables → Tables
evict_entry port address none t = t
evict_entry port address (some c) t =
    if null_address == (t.cf c).address
    then record t {
      cf = set_address c null_can_address t.cf;
      table = set_entry port address none t.table;
    }
    else t

-- The loop over the active control functions, left at the first one with the address.
unfoldable pub find_active : (ℕ → ControlFunction) → ℕ → List ℕ → Option ℕ
find_active cf address [] = none
find_active cf address (c ∷ cs) =
    let rest = find_active cf address cs in if (cf c).address == address then some c else rest

abbrev pub populate_with : ℕ → ℕ → Option ℕ → Tables → Tables
populate_with port address none t = t
populate_with port address (some c) t = record t {
  table = set_entry port address (some c) t.table;
  cf = set_address c address t.cf;
}

unfoldable pub populate : ℕ → ℕ → Tables → Tables
populate port address t =
    if is_some (t.table port address)
    then t
    else populate_with port address (find_active t.cf address t.active) t

-- The overload with a port and an address.
unfoldable pub update_address_table : ℕ → ℕ → Tables → Tables
update_address_table port address t =
    if ltb port can_port_maximum
    then populate port address (evict_entry port address (t.table port address) t)
    else t

-- The overload with a message.
unfoldable pub update_address_table_from : CanMessage → Tables → Tables
update_address_table_from m t =
    let address = get_source_address m.identifier in
    if address_claim_pgn == get_parameter_group_number m.identifier && ltb m.port can_port_maximum
    then populate m.port address (evict_entry m.port address (t.table m.port address) t)
    else t
