-- ===== src/Name/Filter/Laws.antt =====
-- Which NAMEs a partner's filters accept.
use iso11783_can_stack.Prelude.{
  ℕ, ◌≡◌, ◌≢◌, ◌↔◌, refl, true, arith, List, [], ◌∷◌, ◌==◌, if◌then◌else◌,
}
use iso11783_can_stack.Name.{Name, NameParameter, identity_number, arbitrary_address_capable}
use iso11783_can_stack.Name.Fields.{get}
use iso11783_can_stack.Name.Filter.{
  NameFilter, check_name_matches_filter, field_matches, partner_field_matches, matches_from,
  check_matches_name,
}

-- The two switches agree.
switches_agree : (p : NameParameter) (v n : ℕ) → partner_field_matches p v n ≡ field_matches p v n
unfolding partner_field_matches field_matches
switches_agree identity_number v n = ground arith
switches_agree p v n = ground arith

-- What a field must read as, for the value of a filter to accept it: the flag is set by any value
-- but 0.
abbrev pub expected : NameParameter → ℕ → ℕ
expected arbitrary_address_capable v = if v == 0 then 0 else 1
expected p v = v

field_matches_iff :
    (p : NameParameter) (v n : ℕ) → (field_matches p v n ≡ true) ↔ (get p n ≡ expected p v)
unfolding field_matches get
field_matches_iff identity_number v n = ground arith
field_matches_iff p v n = ground arith

abbrev pub AllRead : List NameFilter → Name → Type 0
AllRead [] n = Unit {0}
AllRead (f ∷ fs) n = (get f.parameter n ≡ expected f.parameter f.value) × AllRead fs n

matches_from-AllRead : (fs : List NameFilter) (n : ℕ) → matches_from true fs n ≡ true → AllRead fs n
unfolding matches_from
matches_from-AllRead [] n h = tt
matches_from-AllRead (f ∷ fs) n h = ground (
  arith,
  switches_agree f.parameter f.value n,
  field_matches_iff f.parameter f.value n,
  matches_from-AllRead fs n,
)

AllRead-matches_from : (fs : List NameFilter) (n : ℕ) → AllRead fs n → matches_from true fs n ≡ true
unfolding matches_from
AllRead-matches_from [] n h = refl
AllRead-matches_from (f ∷ fs) n h = ground (
  arith,
  switches_agree f.parameter f.value n,
  (field_matches_iff f.parameter f.value n).1 h.0,
  AllRead-matches_from fs n h.1,
)

-- A NAME filter accepts a NAME exactly when the field that it names reads as the filter's value
-- (for the flag: is set just when the value is not 0); and a partner accepts a NAME, by its own
-- copy of the switch, exactly when it has a filter and all its filters accept it.
pub check_matches_name_iff :
    (f : NameFilter) (fs : List NameFilter) (n : ℕ)
    → ((check_name_matches_filter f n ≡ true) ↔ (get f.parameter n ≡ expected f.parameter f.value))
      × ((check_matches_name fs n ≡ true) ↔ ((fs ≢ []) × AllRead fs n))
unfolding check_name_matches_filter check_matches_name
check_matches_name_iff f [] n =
    (field_matches_iff f.parameter f.value n, (λ h. ground arith, λ h. absurd (h.0 refl)))
check_matches_name_iff f (g ∷ fs) n = (
  field_matches_iff f.parameter f.value n,
  (λ h. (λ e. cc, matches_from-AllRead (g ∷ fs) n h), λ h. AllRead-matches_from (g ∷ fs) n h.1),
)
