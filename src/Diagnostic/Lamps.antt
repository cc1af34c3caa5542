-- ===== src/Diagnostic/Lamps.antt =====
-- The state of a lamp in isobus_diagnostic_protocol.cpp.
use iso11783_can_stack.Prelude.{
  ◌≡◌, ◌∙◌, refl, Bool, true, false, ◌||◌, List, [], ◌∷◌, if◌then◌else◌, arith,
}
use iso11783_can_stack.Diagnostic.{
  DiagnosticTroubleCode, DiagnosticProtocol, LampStatus, Lamp, malfunction_indicator, red_stop,
  amber_warning, protect, unless_fast, FlashState, solid, slow, fast, solid_of, slow_of, fast_of,
  is_status, see_code, see_codes, get_active_list_lamp_state_and_flash_state,
  get_inactive_list_lamp_state_and_flash_state,
}

-- Whether some code of a list has a status.
unfoldable pub any_status : LampStatus → List DiagnosticTroubleCode → Bool
any_status l [] = false
any_status l (c ∷ cs) = is_status l c || any_status l cs

-- The strongest state that codes ask of a lamp, over one that it has.
abbrev pub strongest : Bool → Bool → FlashState → FlashState
strongest any_fast any_slow fast = fast
strongest any_fast any_slow slow = if any_fast then fast else slow
strongest any_fast any_slow solid = if any_fast then fast else if any_slow then slow else solid

-- No two of the three states of a lamp are the same.
statuses_differ :
    (l : Lamp) (c : DiagnosticTroubleCode)
    → (is_status (solid_of l) c ≡ true → is_status (slow_of l) c ≡ false)
      × (is_status (solid_of l) c ≡ true → is_status (fast_of l) c ≡ false)
      × (is_status (slow_of l) c ≡ true → is_status (fast_of l) c ≡ false)
statuses_differ malfunction_indicator c = ground arith
statuses_differ red_stop c = ground arith
statuses_differ amber_warning c = ground arith
statuses_differ protect c = ground arith

-- One code (solid, slow or fast, of which one at most) before the others (`a`, `b`, `f`).
abbrev seen : Bool → Bool → Bool → FlashState → Bool → FlashState × Bool
seen is_solid is_slow is_fast flash lit =
    if is_solid
    then (flash, true)
    else if is_slow
    then (unless_fast flash, true)
    else if is_fast
    then (fast, true)
    else (flash, lit)

abbrev combined : Bool → Bool → Bool → FlashState × Bool → FlashState × Bool
combined a b f (flash, lit) = (strongest f b flash, lit || a || b || f)

seen_lem :
    (is_solid is_slow is_fast a b f lit : Bool) (flash : FlashState)
    → (is_solid ≡ true → is_slow ≡ false)
    → (is_solid ≡ true → is_fast ≡ false)
    → (is_slow ≡ true → is_fast ≡ false)
    → combined a b f (seen is_solid is_slow is_fast flash lit)
      ≡ combined (is_solid || a) (is_slow || b) (is_fast || f) (flash, lit)
seen_lem true true is_fast a b f lit flash h k m = let e = h refl in cc
seen_lem true false true a b f lit flash h k m = let e = k refl in cc
seen_lem true false false a b f lit flash h k m = ground arith
seen_lem false true true a b f lit flash h k m = let e = m refl in cc
seen_lem false true false a b f lit solid h k m = ground arith
seen_lem false true false a b f lit slow h k m = ground arith
seen_lem false true false a b f lit fast h k m = ground arith
seen_lem false false true a b f lit solid h k m = ground arith
seen_lem false false true a b f lit slow h k m = ground arith
seen_lem false false true a b f lit fast h k m = ground arith
seen_lem false false false a b f lit flash h k m = refl

see_codes_lem :
    (l : Lamp) (cs : List DiagnosticTroubleCode) (state : FlashState × Bool)
    → see_codes l cs state
      ≡ combined
          (any_status (solid_of l) cs)
          (any_status (slow_of l) cs)
          (any_status (fast_of l) cs)
          state
unfolding see_codes see_code any_status
see_codes_lem l [] (solid, lit) = ground arith
see_codes_lem l [] (slow, lit) = ground arith
see_codes_lem l [] (fast, lit) = ground arith
see_codes_lem l (c ∷ cs) (flash, lit) =
    let (h, k, m) = statuses_differ l c in
    see_codes_lem l cs (see_code l c (flash, lit))
    ∙ step
    ∙ seen_lem (is_status (solid_of l) c) (is_status (slow_of l) c) (is_status (fast_of l) c)
        (any_status (solid_of l) cs) (any_status (slow_of l) cs) (any_status (fast_of l) cs) lit
        flash h k m
  where
    step :
        combined
          (any_status (solid_of l) cs)
          (any_status (slow_of l) cs)
          (any_status (fast_of l) cs)
          (see_code l c (flash, lit))
        ≡ combined
            (any_status (solid_of l) cs)
            (any_status (slow_of l) cs)
            (any_status (fast_of l) cs)
            (seen
              (is_status (solid_of l) c)
              (is_status (slow_of l) c)
              (is_status (fast_of l) c)
              flash
              lit)
    step = refl

-- For each lamp and each of the two lists of codes: the lamp is reported as lit just if a code of the
-- list asks for it in some way, and as flashing fast if one asks for that, otherwise slowly if one
-- asks for that, and otherwise as not flashing, in whatever order the codes stand.
pub lamp_state_lem :
    (l : Lamp) (p : DiagnosticProtocol)
    → (get_active_list_lamp_state_and_flash_state l p ≡ (
      if any_status (fast_of l) p.active
          then fast
          else if any_status (slow_of l) p.active
          then slow
          else solid,
      any_status (solid_of l) p.active
          || any_status (slow_of l) p.active
          || any_status (fast_of l) p.active,
    ))
      × (get_inactive_list_lamp_state_and_flash_state l p ≡ (
        if any_status (fast_of l) p.inactive
            then fast
            else if any_status (slow_of l) p.inactive
            then slow
            else solid,
        any_status (solid_of l) p.inactive
            || any_status (slow_of l) p.inactive
            || any_status (fast_of l) p.inactive,
      ))
unfolding get_active_list_lamp_state_and_flash_state get_inactive_list_lamp_state_and_flash_state
lamp_state_lem l p =
    (see_codes_lem l p.active (solid, false), see_codes_lem l p.inactive (solid, false))
