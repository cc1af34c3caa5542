-- ===== src/Name/Fields.antt =====
-- The nine fields of the NAME in can_NAME.cpp: each getter reads what its setter wrote, and no
-- setter changes another field.
use iso11783_can_stack.Prelude.{
  ℕ, ◌+◌, ◌*◌, ◌/◌, ◌%◌, ◌^◌, ◌<◌, ◌≡◌, ◌≢◌, refl, arith, ◌==◌, ◌∙◌, sym,
}
use iso11783_can_stack.Bits.{bit_and_ones, replace_field}
use iso11783_can_stack.Name.{
  Name, bool_value, NameParameter, identity_number, manufacturer_code, ecu_instance,
  function_instance, function_code, device_class, device_class_instance, industry_group,
  arbitrary_address_capable, get_arbitrary_address_capable, set_arbitrary_address_capable,
  get_industry_group, set_industry_group, get_device_class_instance, set_device_class_instance,
  get_device_class, set_device_class, get_function_code, set_function_code, get_function_instance,
  set_function_instance, get_ecu_instance, set_ecu_instance, get_manufacturer_code,
  set_manufacturer_code, get_identity_number, set_identity_number,
}

-- Where each field stands and how wide it is, by ISO 11783-5.
abbrev pub offset : NameParameter → ℕ
offset identity_number = 0
offset manufacturer_code = 21
offset ecu_instance = 32
offset function_instance = 35
offset function_code = 40
offset device_class = 49
offset device_class_instance = 56
offset industry_group = 60
offset arbitrary_address_capable = 63

abbrev pub width : NameParameter → ℕ
width identity_number = 21
width manufacturer_code = 11
width ecu_instance = 3
width function_instance = 5
width function_code = 8
width device_class = 7
width device_class_instance = 4
width industry_group = 3
width arbitrary_address_capable = 1

-- The getter and the setter of a field; the flag is the number 0 or 1, and any other value sets it.
unfoldable pub get : NameParameter → Name → ℕ
get identity_number n = get_identity_number n
get manufacturer_code n = get_manufacturer_code n
get ecu_instance n = get_ecu_instance n
get function_instance n = get_function_instance n
get function_code n = get_function_code n
get device_class n = get_device_class n
get device_class_instance n = get_device_class_instance n
get industry_group n = get_industry_group n
get arbitrary_address_capable n = bool_value (get_arbitrary_address_capable n)

unfoldable pub set : NameParameter → ℕ → Name → Name
set identity_number v n = set_identity_number v n
set manufacturer_code v n = set_manufacturer_code v n
set ecu_instance v n = set_ecu_instance v n
set function_instance v n = set_function_instance v n
set function_code v n = set_function_code v n
set device_class v n = set_device_class v n
set device_class_instance v n = set_device_class_instance v n
set industry_group v n = set_industry_group v n
set arbitrary_address_capable v n = set_arbitrary_address_capable (v % 2 == 1) n

-- What the getters and setters mean in arithmetic.
pub get_lem : (p : NameParameter) (n : Name) → n < 2 ^ 64 → get p n ≡ n / 2 ^ offset p % 2 ^ width p
unfolding get get_identity_number get_manufacturer_code get_ecu_instance get_function_instance
    get_function_code get_device_class get_device_class_instance get_industry_group
    get_arbitrary_address_capable
get_lem identity_number n h = omega (arith, bit_and_ones 21 n)
get_lem manufacturer_code n h = omega (arith, bit_and_ones 11 (n / 2 ^ 21))
get_lem ecu_instance n h = omega (arith, bit_and_ones 3 (n / 2 ^ 32))
get_lem function_instance n h = omega (arith, bit_and_ones 5 (n / 2 ^ 35))
get_lem function_code n h = omega (arith, bit_and_ones 8 (n / 2 ^ 40))
get_lem device_class n h = omega (arith, bit_and_ones 7 (n / 2 ^ 49))
get_lem device_class_instance n h = omega (arith, bit_and_ones 4 (n / 2 ^ 56))
get_lem industry_group n h = omega (arith, bit_and_ones 3 (n / 2 ^ 60))
get_lem arbitrary_address_capable n h = ground arith

abbrev pub written : NameParameter → ℕ → Name → Name
written p v n =
    (n / 2 ^ offset p / 2 ^ width p * 2 ^ width p + v % 2 ^ width p) * 2 ^ offset p
    + n % 2 ^ offset p

pub set_lem : (p : NameParameter) (v n : ℕ) → n < 2 ^ 64 → set p v n ≡ written p v n
unfolding set set_identity_number set_manufacturer_code set_ecu_instance set_function_instance
    set_function_code set_device_class set_device_class_instance set_industry_group
    set_arbitrary_address_capable
set_lem identity_number v n h =
    ground
      (arith, bit_and_ones 21 v, replace_field 43 21 0 n (v % 2 ^ 21) (omega arith) (omega arith))
set_lem manufacturer_code v n h =
    ground
      (arith, bit_and_ones 11 v, replace_field 32 11 21 n (v % 2 ^ 11) (omega arith) (omega arith))
set_lem ecu_instance v n h =
    ground
      (arith, bit_and_ones 3 v, replace_field 29 3 32 n (v % 2 ^ 3) (omega arith) (omega arith))
set_lem function_instance v n h =
    ground
      (arith, bit_and_ones 5 v, replace_field 24 5 35 n (v % 2 ^ 5) (omega arith) (omega arith))
set_lem function_code v n h =
    ground
      (arith, bit_and_ones 8 v, replace_field 16 8 40 n (v % 2 ^ 8) (omega arith) (omega arith))
set_lem device_class v n h =
    ground (arith, bit_and_ones 7 v, replace_field 8 7 49 n (v % 2 ^ 7) (omega arith) (omega arith))
set_lem device_class_instance v n h =
    ground (arith, bit_and_ones 4 v, replace_field 4 4 56 n (v % 2 ^ 4) (omega arith) (omega arith))
set_lem industry_group v n h =
    ground (arith, bit_and_ones 3 v, replace_field 1 3 60 n (v % 2 ^ 3) (omega arith) (omega arith))
set_lem arbitrary_address_capable v n h =
    ground (arith, replace_field 0 1 63 n (v % 2) (omega arith) (omega arith))

pub set-lt : (p : NameParameter) (v n : ℕ) → n < 2 ^ 64 → set p v n < 2 ^ 64
set-lt identity_number v n h = omega (arith, set_lem identity_number v n h)
set-lt p v n h = omega (arith, set_lem p v n h)

-- Reading a field after the write of the same or of another one, in arithmetic.
written_self :
    (p : NameParameter) (v n : ℕ) → written p v n / 2 ^ offset p % 2 ^ width p ≡ v % 2 ^ width p
written_self identity_number v n = omega arith
written_self p v n = omega arith

written_other :
    (p q : NameParameter) (v n : ℕ)
    → p ≢ q
    → written p v n / 2 ^ offset q % 2 ^ width q ≡ n / 2 ^ offset q % 2 ^ width q
written_other identity_number identity_number v n h = absurd (h refl)
written_other manufacturer_code manufacturer_code v n h = absurd (h refl)
written_other ecu_instance ecu_instance v n h = absurd (h refl)
written_other function_instance function_instance v n h = absurd (h refl)
written_other function_code function_code v n h = absurd (h refl)
written_other device_class device_class v n h = absurd (h refl)
written_other device_class_instance device_class_instance v n h = absurd (h refl)
written_other industry_group industry_group v n h = absurd (h refl)
written_other arbitrary_address_capable arbitrary_address_capable v n h = absurd (h refl)
written_other p q v n h = omega arith

-- Every setter leaves a 64 bit NAME in which its field reads as the low bits of the value (the
-- value itself where it is in range), and in which every other field reads as before.
pub get-set :
    (p q : NameParameter) (v n : ℕ)
    → n < 2 ^ 64
    → p ≢ q
    → (set p v n < 2 ^ 64) × (get p (set p v n) ≡ v % 2 ^ width p) × (get q (set p v n) ≡ get q n)
get-set p q v n h ne =
    let small = set-lt p v n h in
    (
      small,
      get_lem p (set p v n) small ∙ rw (set_lem p v n h) (written_self p v n),
      get_lem q (set p v n) small
          ∙ rw (set_lem p v n h) (written_other p q v n ne)
          ∙ sym (get_lem q n h),
    )
