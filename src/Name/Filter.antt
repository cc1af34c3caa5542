-- ===== src/Name/Filter.antt =====
-- isobus/src/can_NAME_filter.cpp, and the filters of isobus/src/can_partnered_control_function.cpp,
-- which has a switch of its own. The enumeration has nine values, so the default cases are dead.
pub mod Laws
use iso11783_can_stack.Prelude.{
  ℕ, suc, ◌+◌, Bool, true, false, not, Option, some, none, List, [], ◌∷◌, ◌==◌, ite, get_elem?,
  length, ℕ_discrete,
}
use iso11783_can_stack.Name.{
  Name, NameParameter, NameParameter-discrete, identity_number, manufacturer_code, ecu_instance,
  function_instance, function_code, device_class, device_class_instance, industry_group,
  arbitrary_address_capable, get_arbitrary_address_capable, get_industry_group,
  get_device_class_instance, get_device_class, get_function_code, get_function_instance,
  get_ecu_instance, get_manufacturer_code, get_identity_number,
}

pub record NameFilter : Type 0 where
  pub parameter : NameParameter
  pub value : ℕ

-- `==` on bool.
abbrev pub same_bool : Bool → Bool → Bool
same_bool true b = b
same_bool false b = not b

-- The switch of NAMEFilter::check_name_matches_filter.
field_matches : NameParameter → ℕ → Name → Bool
field_matches identity_number value n = get_identity_number n == value
field_matches manufacturer_code value n = get_manufacturer_code n == value
field_matches ecu_instance value n = get_ecu_instance n == value
field_matches function_instance value n = get_function_instance n == value
field_matches function_code value n = get_function_code n == value
field_matches device_class value n = get_device_class n == value
field_matches device_class_instance value n = get_device_class_instance n == value
field_matches industry_group value n = get_industry_group n == value
field_matches arbitrary_address_capable value n =
    same_bool (get_arbitrary_address_capable n) (not (0 == value))

unfoldable pub check_name_matches_filter : NameFilter → Name → Bool
unfolding field_matches
check_name_matches_filter f n = field_matches f.parameter f.value n

-- The switch of PartneredControlFunction::check_matches_name.
partner_field_matches : NameParameter → ℕ → Name → Bool
partner_field_matches identity_number value n = value == get_identity_number n
partner_field_matches manufacturer_code value n = value == get_manufacturer_code n
partner_field_matches ecu_instance value n = value == get_ecu_instance n
partner_field_matches function_instance value n = value == get_function_instance n
partner_field_matches function_code value n = value == get_function_code n
partner_field_matches device_class value n = value == get_device_class n
partner_field_matches device_class_instance value n = value == get_device_class_instance n
partner_field_matches industry_group value n = value == get_industry_group n
partner_field_matches arbitrary_address_capable value n =
    same_bool (not (0 == value)) (get_arbitrary_address_capable n)

-- Its loop, left at the first filter that fails; `found` is `retVal`.
matches_from : Bool → List NameFilter → Name → Bool
unfolding partner_field_matches
matches_from found [] n = found
matches_from found (f ∷ fs) n = elim (partner_field_matches f.parameter f.value n) [
  | false ↦ false
  | true ↦ matches_from true fs n
]

unfoldable pub check_matches_name : List NameFilter → Name → Bool
unfolding matches_from
check_matches_name filters n = matches_from (not (length filters == 0)) filters n

-- `none` is the result false, which leaves both out-parameters unset.
unfoldable pub get_name_filter_parameter : List NameFilter → ℕ → Option (NameParameter × ℕ)
get_name_filter_parameter filters index = elim (get_elem? filters index) [
  | none ↦ none
  | some f ↦ some (f.parameter, f.value)
]

unfoldable pub get_number_name_filters_with_parameter_type : List NameFilter → NameParameter → ℕ
get_number_name_filters_with_parameter_type [] p = 0
get_number_name_filters_with_parameter_type (f ∷ fs) p =
    let rest = get_number_name_filters_with_parameter_type fs p in
    ite (NameParameter-discrete p f.parameter) (rest + 1) rest
