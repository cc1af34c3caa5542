-- ===== src/Claims.antt =====
-- isobus/src/can_network_manager.cpp, `update_control_functions`: what an address claim on the bus
-- does to the control functions that the stack knows. `next` names the object that `new` gives.
pub mod Listing
use iso11783_can_stack.Prelude.{
  ℕ, suc, ◌+◌, Bool, true, false, not, ◌&&◌, Option, some, none, List, [], ◌∷◌, ◌++◌, bit_or, ◌<<◌,
  ◌==◌, ltb, if◌then◌else◌, is_some, get_or, length,
}
use iso11783_can_stack.Name.{Name}
use iso11783_can_stack.Name.Filter.{NameFilter, check_matches_name}
use iso11783_can_stack.Identifier.{get_parameter_group_number, get_source_address, null_address}
use iso11783_can_stack.ControlFunction.{ControlFunction, external}
use iso11783_can_stack.Network.{Frame, can_port_maximum, can_data_length}
use iso11783_can_stack.AddressClaim.{address_claim_pgn}
use iso11783_can_stack.Tables.{set_address}

pub record Known : Type 0 where
  pub cf : ℕ → ControlFunction
  pub active : List ℕ
  pub inactive : List ℕ
  pub partners : List (Option ℕ)
  pub filters : ℕ → List NameFilter
  pub next : ℕ

-- The NAME in the data of a claim.
unfoldable pub claimed_name : List ℕ → Name
claimed_name bytes =
    let b = λ (i : ℕ). get_or bytes i 0 in
    let low = bit_or (bit_or (bit_or (b 0) (b 1 << 8)) (b 2 << 16)) (b 3 << 24) in
    bit_or (bit_or (bit_or (bit_or low (b 4 << 32)) (b 5 << 40)) (b 6 << 48)) (b 7 << 56)

-- A loop over a list of control functions: it ends at the one with the NAME on the port, and takes
-- the address from those before it that a test asks for.
unfoldable pub scan :
    (ControlFunction → Bool)
    → Name
    → ℕ
    → List ℕ
    → (ℕ → ControlFunction)
    → Option ℕ × (ℕ → ControlFunction)
scan evicts name port [] cf = (none, cf)
scan evicts name port (c ∷ cs) cf =
    let evicted = scan evicts name port cs (set_address c null_address cf) in
    let kept = scan evicts name port cs cf in
    if name == (cf c).name && port == (cf c).port
    then (some c, cf)
    else if evicts (cf c)
    then evicted
    else kept

unfoldable pub find_partner : Known → Name → ℕ → List (Option ℕ) → Option ℕ
find_partner k name port [] = none
find_partner k name port (none ∷ ps) = find_partner k name port ps
find_partner k name port (some p ∷ ps) =
    let rest = find_partner k name port ps in
    if (k.cf p).port == port && check_matches_name (k.filters p) name then some p else rest

-- `cf` with another object behind a pointer.
unfoldable pub set_object : ℕ → ControlFunction → (ℕ → ControlFunction) → ℕ → ControlFunction
set_object c object cf i = if i == c then object else cf i

-- A control function that is in neither list: a partner, or a new one.
unfoldable pub add_unknown : Name → ℕ → ℕ → Option ℕ → Known → Known
add_unknown name port address none k = record k {
  cf =
      set_object k.next (record { name = name; type = external; address = address; port = port })
        k.cf;
  active = k.active ++ k.next ∷ [];
  next = suc k.next;
}
add_unknown name port address (some p) k = record k {
  cf = set_object p (record (k.cf p) { name = name; address = address }) k.cf;
  active = k.active ++ p ∷ [];
}

-- What follows the loops, for what they found.
unfoldable pub settle : Name → ℕ → ℕ → Option ℕ → Known → Known
settle name port address none k =
    add_unknown name port address (find_partner k name port k.partners) k
settle name port address (some c) k = record k { cf = set_address c address k.cf }

abbrev pub last_found : Option ℕ → Option ℕ → Option ℕ
last_found first none = first
last_found first (some c) = some c

unfoldable pub update_control_functions : Frame → Known → Known
update_control_functions f k =
    let name = claimed_name f.bytes in
    let address = get_source_address f.identifier in
    let (found, cf) =
      scan (λ c. c.address == address && f.channel == c.port) name f.channel k.active k.cf in
    let (again, cf') = scan (λ c. f.channel == c.port) name f.channel k.inactive cf in
    if address_claim_pgn == get_parameter_group_number f.identifier
      && can_data_length == length f.bytes
      && ltb f.channel can_port_maximum
    then settle name f.channel address (last_found found again) (record k { cf = cf' })
    else k
