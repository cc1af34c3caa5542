-- ===== src/Diagnostic/Lists.antt =====
-- The two lists of trouble codes of isobus_diagnostic_protocol.cpp.
use iso11783_can_stack.Prelude.{
  ℕ, suc, ◌+◌, ◌≤◌, ◌≡◌, refl, Bool, true, false, ◌&&◌, Option, some, none, List, [], ◌∷◌, ◌++◌,
  ◌==◌, if◌then◌else◌, u8, arith, is_some, length, get_or,
}
use iso11783_can_stack.Network.{Env, can_data_length}
use iso11783_can_stack.Diagnostic.{
  DiagnosticTroubleCode, DiagnosticProtocol, same_code, status_value, find_code, erase_code,
  note_new_code, activate, deactivate, set_diagnostic_trouble_code_active,
  clear_active_diagnostic_trouble_codes, clear_inactive_diagnostic_trouble_codes, Dm22Data,
}
use iso11783_can_stack.Message.{CanMessage}
use iso11783_can_stack.Diagnostic.Clearing.{
  find_about, erase_about, clear_active_code, clear_inactive_code, queue_response, read_request,
  process_clear_request, clear_code, request_to_clear_active, request_to_clear_previously_active,
}

-- How often a code stands in a list.
unfoldable pub count_code : DiagnosticTroubleCode → List DiagnosticTroubleCode → ℕ
count_code x [] = 0
count_code x (d ∷ ds) = if same_code d x then suc (count_code x ds) else count_code x ds

-- The three numbers that are compared.
same_three :
    (p q r p' q' r' s t u : ℕ)
    → (p == p' && q == q' && r == r') ≡ true
    → ((p == s && q == t && r == u) ≡ (p' == s && q' == t && r' == u))
      × ((s == p && t == q && u == r) ≡ (s == p' && t == q' && u == r'))
same_three p q r p' q' r' s t u h = ground (arith, h)

-- The comparison is an equivalence.
same_code_left :
    (a b x : DiagnosticTroubleCode) → same_code a b ≡ true → same_code a x ≡ same_code b x
unfolding same_code
same_code_left a b x h =
    (same_three a.suspect_parameter_number a.failure_mode_identifier (status_value a.lamp_state)
      b.suspect_parameter_number b.failure_mode_identifier (status_value b.lamp_state)
      x.suspect_parameter_number x.failure_mode_identifier (status_value x.lamp_state) h).0

same_code_right :
    (a b x : DiagnosticTroubleCode) → same_code a b ≡ true → same_code x a ≡ same_code x b
unfolding same_code
same_code_right a b x h =
    (same_three a.suspect_parameter_number a.failure_mode_identifier (status_value a.lamp_state)
      b.suspect_parameter_number b.failure_mode_identifier (status_value b.lamp_state)
      x.suspect_parameter_number x.failure_mode_identifier (status_value x.lamp_state) h).1

count_code-append :
    (x : DiagnosticTroubleCode) (xs ys : List DiagnosticTroubleCode)
    → count_code x (xs ++ ys) ≡ count_code x xs + count_code x ys
unfolding count_code
count_code-append x [] ys = omega arith
count_code-append x (d ∷ xs) ys = ground (arith, count_code-append x xs ys)

count_code-same :
    (a b : DiagnosticTroubleCode) (ds : List DiagnosticTroubleCode)
    → same_code a b ≡ true
    → count_code a ds ≡ count_code b ds
unfolding count_code
count_code-same a b [] h = refl
count_code-same a b (d ∷ ds) h = ground (arith, same_code_right a b d h, count_code-same a b ds h)

count_code_absent :
    (c : DiagnosticTroubleCode) (ds : List DiagnosticTroubleCode)
    → find_code c ds ≡ none
    → count_code c ds ≡ 0
unfolding count_code find_code
count_code_absent c [] h = refl
count_code_absent c (d ∷ ds) h = ground (arith, h, count_code_absent c ds)

count_code-erase_code :
    (x c d : DiagnosticTroubleCode) (ds : List DiagnosticTroubleCode)
    → find_code c ds ≡ some d
    → count_code x ds ≡ count_code x (erase_code c ds) + (if same_code d x then 1 else 0)
unfolding count_code find_code erase_code
count_code-erase_code x c d [] h = absurd (cc)
count_code-erase_code x c d (e ∷ ds) h = ground (arith, h, count_code-erase_code x c d ds)

-- Each code stands at most once in the two lists.
abbrev pub AreOnce : DiagnosticProtocol → Type 0
AreOnce p = (x : DiagnosticTroubleCode) → count_code x p.active + count_code x p.inactive ≤ 1

if-AreOnce :
    (b : Bool) (p q : DiagnosticProtocol)
    → (b ≡ true → AreOnce p)
    → (b ≡ false → AreOnce q)
    → AreOnce (if b then p else q)
if-AreOnce true p q hp hq = hp refl
if-AreOnce false p q hp hq = hq refl

-- How often a code occurred does not matter to the comparison.
same_code_count :
    (c x : DiagnosticTroubleCode) (n : ℕ)
    → same_code (record c { occurrence_count = n }) x ≡ same_code c x
unfolding same_code
same_code_count c x n = refl

-- A code in neither list can be put at the end of the first one.
append-once :
    (c d x : DiagnosticTroubleCode) (xs ys : List DiagnosticTroubleCode)
    → find_code c xs ≡ none
    → find_code c ys ≡ none
    → same_code d x ≡ same_code c x
    → count_code x xs + count_code x ys ≤ 1
    → count_code x (xs ++ d ∷ []) + count_code x ys ≤ 1
unfolding count_code
append-once c d x xs ys h k e once = ground (
  arith,
  count_code-append x xs (d ∷ []),
  count_code_absent c xs h,
  count_code_absent c ys k,
  count_code-same c x xs,
  count_code-same c x ys,
  e,
)

-- A code that moves from the second list to the end of the first one.
move-once :
    (c d d' x : DiagnosticTroubleCode) (xs ys : List DiagnosticTroubleCode)
    → find_code c ys ≡ some d
    → same_code d' x ≡ same_code d x
    → count_code x xs + count_code x ys ≤ 1
    → count_code x (xs ++ d' ∷ []) + count_code x (erase_code c ys) ≤ 1
unfolding count_code
move-once c d d' x xs ys h e once =
    ground (arith, count_code-append x xs (d' ∷ []), count_code-erase_code x c d ys h, e)

note_new_code-AreOnce :
    (env : Env) (p : DiagnosticProtocol) → AreOnce p → AreOnce (note_new_code env p)
unfolding note_new_code
note_new_code-AreOnce env p h = if-AreOnce _ _ p (λ e. h) (λ e. h)

activate-AreOnce :
    (env : Env) (c : DiagnosticTroubleCode) (o : Option DiagnosticTroubleCode)
    (p : DiagnosticProtocol)
    → AreOnce p
    → find_code c p.active ≡ none
    → find_code c p.inactive ≡ o
    → AreOnce (activate env c o p)
unfolding activate
activate-AreOnce env c none p h new e =
    note_new_code-AreOnce env
      (record p { active = p.active ++ record c { occurrence_count = 1 } ∷ [] })
      (λ x.
        append-once c (record c { occurrence_count = 1 }) x p.active p.inactive new e
          (same_code_count c x 1) (h x))
activate-AreOnce env c (some d) p h new e =
    let n = u8 (d.occurrence_count + 1) in
    λ x.
      move-once c d (record d { occurrence_count = n }) x p.active p.inactive e
        (same_code_count d x n) (h x)

deactivate-AreOnce :
    (c : DiagnosticTroubleCode) (o : Option DiagnosticTroubleCode) (p : DiagnosticProtocol)
    → AreOnce p
    → find_code c p.active ≡ o
    → AreOnce (deactivate c o p)
unfolding deactivate
deactivate-AreOnce c none p h e = h
deactivate-AreOnce c (some d) p h e =
    λ x. omega (arith, move-once c d d x p.inactive p.active e refl (omega (arith, h x)))

count_code-erase_about :
    (x : DiagnosticTroubleCode) (r : Dm22Data) (d : DiagnosticTroubleCode)
    (ds : List DiagnosticTroubleCode)
    → find_about r ds ≡ some d
    → count_code x ds ≡ count_code x (erase_about r ds) + (if same_code d x then 1 else 0)
unfolding count_code find_about erase_about
count_code-erase_about x r d [] h = absurd (cc)
count_code-erase_about x r d (e ∷ ds) h = ground (arith, h, count_code-erase_about x r d ds)

clear_active_code-AreOnce :
    (r : Dm22Data) (o : Option DiagnosticTroubleCode) (p : DiagnosticProtocol)
    → AreOnce p
    → find_about r p.active ≡ o
    → AreOnce (clear_active_code r o p)
unfolding clear_active_code queue_response count_code
clear_active_code-AreOnce r none p h e = h
clear_active_code-AreOnce r (some d) p h e = λ x.
    ground
      (arith, h x, count_code-append x p.inactive (d ∷ []), count_code-erase_about x r d p.active e)

clear_inactive_code-AreOnce :
    (r : Dm22Data) (o : Option DiagnosticTroubleCode) (p : DiagnosticProtocol)
    → AreOnce p
    → find_about r p.inactive ≡ o
    → AreOnce (clear_inactive_code r o p)
unfolding clear_inactive_code queue_response
clear_inactive_code-AreOnce r none p h e = h
clear_inactive_code-AreOnce r (some d) p h e =
    λ x. omega (arith, h x, count_code-erase_about x r d p.inactive e)

clear_code-AreOnce :
    (control : ℕ) (r : Dm22Data) (p : DiagnosticProtocol)
    → AreOnce p
    → AreOnce (clear_code control r p)
unfolding clear_code
clear_code-AreOnce control r p h =
    let previously =
      if-AreOnce (control == request_to_clear_previously_active)
        (clear_inactive_code r (find_about r p.inactive) p) p
        (λ e. clear_inactive_code-AreOnce r (find_about r p.inactive) p h refl) (λ e. h) in
    if-AreOnce (control == request_to_clear_active) (clear_active_code r (find_about r p.active) p)
      (if control == request_to_clear_previously_active
        then clear_inactive_code r (find_about r p.inactive) p
        else p)
      (λ e. clear_active_code-AreOnce r (find_about r p.active) p h refl) (λ e. previously)

process_clear_request-AreOnce :
    (m : CanMessage) (p : DiagnosticProtocol) → AreOnce p → AreOnce (process_clear_request m p)
unfolding process_clear_request
process_clear_request-AreOnce m p h =
    if-AreOnce (length m.bytes == can_data_length)
      (clear_code (get_or m.bytes 0 0) (read_request m) p) p
      (λ e. clear_code-AreOnce (get_or m.bytes 0 0) (read_request m) p h) (λ e. h)

-- If each trouble code stands at most once in the lists of active and of inactive codes, taken
-- together, then this is so after a code is set active or inactive, whether it was known or not,
-- after either list is cleared, and after any message DM22 that may ask to clear one code.
pub codes-AreOnce :
    (env : Env) (c : DiagnosticTroubleCode) (m : CanMessage) (p : DiagnosticProtocol)
    → AreOnce p
    → AreOnce (set_diagnostic_trouble_code_active env c true p).1
      × AreOnce (set_diagnostic_trouble_code_active env c false p).1
      × AreOnce (clear_active_diagnostic_trouble_codes env p)
      × AreOnce (clear_inactive_diagnostic_trouble_codes p)
      × AreOnce (process_clear_request m p)
unfolding set_diagnostic_trouble_code_active clear_active_diagnostic_trouble_codes
    clear_inactive_diagnostic_trouble_codes find_code
codes-AreOnce env c m p h = (
  if-AreOnce (is_some (find_code c p.active)) p (activate env c (find_code c p.inactive) p) (λ e. h)
      (λ e. activate-AreOnce env c (find_code c p.inactive) p h (ground (arith, e)) refl),
  if-AreOnce (is_some (find_code c p.inactive)) p (deactivate c (find_code c p.active) p) (λ e. h)
      (λ e. deactivate-AreOnce c (find_code c p.active) p h refl),
  if-AreOnce _ _ _ (λ e. cleared) (λ e. cleared),
  λ x. omega (arith, h x, none_left x),
  process_clear_request-AreOnce m p h,
)
  where
    none_left : (x : DiagnosticTroubleCode) → count_code x [] ≡ 0
    none_left x = count_code_absent x [] refl

    cleared :
        (x : DiagnosticTroubleCode) → count_code x [] + count_code x (p.inactive ++ p.active) ≤ 1
    cleared x = omega (arith, h x, none_left x, count_code-append x p.inactive p.active)
