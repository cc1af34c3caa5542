-- ===== src/Examples/Lookups.antt =====
-- Runs of the table of control functions.
use iso11783_can_stack.Prelude.{
  ◌≡◌, refl, inl, true, some, none, [], ◌∷◌, ◌==◌, ◌&&◌, if◌then◌else◌, arith,
}
use iso11783_can_stack.Message.{CanMessage}
use iso11783_can_stack.AddressClaim.{get_control_function}
use iso11783_can_stack.Tables.{Tables, find_active, update_address_table, update_address_table_from}
use iso11783_can_stack.Tables.Lookup.{
  IsConsistent, is_held, update_address_table-IsConsistent, update_address_table-find_active,
}
use iso11783_can_stack.Identifier.{get_source_address, get_parameter_group_number}
use iso11783_can_stack.Network.{Frame}
use iso11783_can_stack.Tables.{set_address}
use iso11783_can_stack.Claims.{Known, claimed_name, scan, settle, update_control_functions}
use iso11783_can_stack.Claims.Listing.{IsKnown, update_control_functions-IsKnown}
use iso11783_can_stack.Examples.{devices}

-- The implement is active at 0x26 and not yet in the table, where the tractor is at 0x1C.
abbrev tables : Tables
tables = record {
  cf = devices;
  table = λ port address. if port == 0 && address == 0x1C then some 0 else none;
  active = 0 ∷ 1 ∷ [];
}

abbrev claim : CanMessage
claim = record {
  bytes = 2 ∷ 0 ∷ 0 ∷ 0 ∷ 0 ∷ 0 ∷ 0 ∷ 0xA0 ∷ [];
  source = none;
  destination = none;
  identifier = 0x18EE_FF26;
  port = 0;
  callback_message_size = 0;
}

tables-IsConsistent : IsConsistent tables
unfolding IsConsistent
tables-IsConsistent = λ port a c e. inl (ground (arith, e))

update_address_table-IsConsistent_example :
    IsConsistent (update_address_table 0 0x26 tables)
    × IsConsistent (update_address_table_from claim tables)
update_address_table-IsConsistent_example =
    update_address_table-IsConsistent 0 0x26 claim tables tables-IsConsistent

-- The implement is on port 0, and is found on port 1.
update_address_table-find_active_example :
    get_control_function (update_address_table 1 0x26 tables).table 1 0x26
    ≡ (if is_held devices none then none else find_active devices 0x26 (0 ∷ 1 ∷ []))
update_address_table-find_active_example =
    update_address_table-find_active 1 0x26 tables (omega arith) (omega arith)

wrong_port : find_active devices 0x26 (0 ∷ 1 ∷ []) ≡ some 1
unfolding find_active
wrong_port = refl

-- A claim of the implement's address 0x26 with the tractor's NAME.
abbrev claim_frame : Frame
claim_frame = record {
  identifier = 0x18EE_FF26;
  channel = 0;
  bytes = 1 ∷ 0 ∷ 0 ∷ 0 ∷ 0 ∷ 0 ∷ 0 ∷ 0xA0 ∷ [];
  is_extended = true;
}

abbrev known : Known
known = record {
  cf = devices;
  active = 0 ∷ 1 ∷ [];
  inactive = [];
  partners = [];
  filters = λ p. [];
  next = 2;
}

is_claim : get_parameter_group_number claim_frame.identifier ≡ 0xEE00
unfolding get_parameter_group_number
is_claim = refl

update_control_functions-IsKnown_example :
    IsKnown
      (claimed_name claim_frame.bytes)
      0
      (get_source_address claim_frame.identifier)
      (update_control_functions claim_frame known)
update_control_functions-IsKnown_example =
    update_control_functions-IsKnown claim_frame known is_claim refl (omega arith)

-- The tractor is found before the implement, which then keeps the address that it has lost.
both_at_the_address :
    (((update_control_functions claim_frame known).cf 0).address ≡ 0x26)
    × (((update_control_functions claim_frame known).cf 1).address ≡ 0x26)
unfolding update_control_functions settle scan set_address claimed_name get_source_address
    get_parameter_group_number
both_at_the_address = (refl, refl)
