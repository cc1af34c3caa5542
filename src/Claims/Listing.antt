-- ===== src/Claims/Listing.antt =====
-- What the stack knows after an address claim.
use iso11783_can_stack.Prelude.{
  ℕ, suc, ◌≡◌, refl, ap, ◌∙◌, ◌⊎◌, inl, inr, Bool, true, false, ◌&&◌, Option, some, none, List, [],
  ◌∷◌, ◌++◌, ◌==◌, if◌then◌else◌, arith, get_elem?, length, ℕ_discrete, Bool-cases, ◌<◌,
}
use iso11783_can_stack.Identifier.{get_source_address, get_parameter_group_number}
use iso11783_can_stack.ControlFunction.{ControlFunction, external}
use iso11783_can_stack.Name.{Name}
use iso11783_can_stack.Name.Filter.{check_matches_name}
use iso11783_can_stack.Network.{Frame}
use iso11783_can_stack.Tables.{set_address}
use iso11783_can_stack.Claims.{
  Known, claimed_name, scan, find_partner, set_object, add_unknown, settle, last_found,
  update_control_functions,
}

-- A pointer stands in a list.
abbrev pub IsIn : ℕ → List ℕ → Type 0
IsIn c cs = (i : ℕ) × (get_elem? cs i ≡ some c)

-- A control function with a NAME on a port, in one of the lists.
pub record IsKnown (n : Name) (p a : ℕ) (k : Known) : Type 0 where
  pub at : ℕ
  pub listed : IsIn at k.active ⊎ IsIn at k.inactive
  pub name : (k.cf at).name ≡ n
  pub port : (k.cf at).port ≡ p
  pub address : (k.cf at).address ≡ a

-- Names and ports are as they were.
abbrev SameIdentity : (ℕ → ControlFunction) → (ℕ → ControlFunction) → Type 0
SameIdentity cf cf' = (i : ℕ) → ((cf i).name ≡ (cf' i).name) × ((cf i).port ≡ (cf' i).port)

set_address-SameIdentity :
    (c a : ℕ) (cf : ℕ → ControlFunction) → SameIdentity (set_address c a cf) cf
unfolding set_address
set_address-SameIdentity c a cf i = ground arith

scan-SameIdentity :
    (evicts : ControlFunction → Bool) (name : Name) (port : ℕ) (cs : List ℕ)
    (cf : ℕ → ControlFunction)
    → SameIdentity (scan evicts name port cs cf).1 cf
unfolding scan
scan-SameIdentity evicts name port [] cf i = (refl, refl)
scan-SameIdentity evicts name port (c ∷ cs) cf i = ground (
  arith,
  scan-SameIdentity evicts name port cs cf i,
  scan-SameIdentity evicts name port cs (set_address c 0xFE cf) i,
  set_address-SameIdentity c 0xFE cf i,
)

-- What a scan finds has the NAME and the port.
scan-found :
    (evicts : ControlFunction → Bool) (name : Name) (port : ℕ) (cs : List ℕ)
    (cf : ℕ → ControlFunction) (d : ℕ)
    → (scan evicts name port cs cf).0 ≡ some d
    → ((cf d).name ≡ name) × ((cf d).port ≡ port)
unfolding scan
scan-found evicts name port [] cf d h = absurd (ground (arith, h))
scan-found evicts name port (c ∷ cs) cf d h =
    elim (Bool-cases (name == (cf c).name && port == (cf c).port)) [
      | inl e ↦
          let same : c ≡ d = ground (arith, h, e) in
          ground (arith, e, ap (λ j. (cf j).name) same, ap (λ j. (cf j).port) same)
      | inr e ↦ ground (
        arith,
        h,
        e,
        scan-found evicts name port cs cf d,
        scan-found evicts name port cs (set_address c 0xFE cf) d,
        set_address-SameIdentity c 0xFE cf d,
      )
    ]

-- It is in the list.
scan-IsIn :
    (evicts : ControlFunction → Bool) (name : Name) (port : ℕ) (cs : List ℕ)
    (cf : ℕ → ControlFunction) (d : ℕ)
    → (scan evicts name port cs cf).0 ≡ some d
    → IsIn d cs
unfolding scan
scan-IsIn evicts name port [] cf d h = absurd (ground (arith, h))
scan-IsIn evicts name port (c ∷ cs) cf d h =
    elim (Bool-cases (name == (cf c).name && port == (cf c).port)) [
      | inl e ↦ (0, ground (arith, h, e))
      | inr e ↦ elim (Bool-cases (evicts (cf c))) [
        | inl f ↦
            let (i, p) =
              scan-IsIn evicts name port cs (set_address c 0xFE cf) d (ground (arith, h, e, f)) in
            (suc i, p)
        | inr f ↦
            let (i, p) = scan-IsIn evicts name port cs cf d (ground (arith, h, e, f)) in (suc i, p)
      ]
    ]

append-IsIn : (cs : List ℕ) (c : ℕ) → IsIn c (cs ++ c ∷ [])
append-IsIn [] c = (0, refl)
append-IsIn (d ∷ cs) c = let (i, p) = append-IsIn cs c in (suc i, p)

find_partner-port :
    (k : Known) (name : Name) (port : ℕ) (ps : List (Option ℕ)) (p : ℕ)
    → find_partner k name port ps ≡ some p
    → (k.cf p).port ≡ port
unfolding find_partner
find_partner-port k name port [] p h = absurd (ground (arith, h))
find_partner-port k name port (none ∷ ps) p h = find_partner-port k name port ps p h
find_partner-port k name port (some q ∷ ps) p h = elim (ℕ_discrete (k.cf q).port port) [
  | yes e ↦ elim (Bool-cases (check_matches_name (k.filters q) name)) [
    | inl f ↦
        let same : q ≡ p = ground (arith, h, e, f) in
        ground (arith, e, ap (λ j. (k.cf j).port) same)
    | inr f ↦ ground (arith, h, f, find_partner-port k name port ps p)
  ]
  | no n ↦ ground (arith, h, n, find_partner-port k name port ps p)
]

set_object_self :
    (c : ℕ) (object : ControlFunction) (cf : ℕ → ControlFunction)
    → set_object c object cf c ≡ object
unfolding set_object
set_object_self c object cf = ground arith

set_address_self : (c a : ℕ) (cf : ℕ → ControlFunction) → (set_address c a cf c).address ≡ a
unfolding set_address
set_address_self c a cf = ground arith

add_unknown-IsKnown :
    (name : Name) (port a : ℕ) (o : Option ℕ) (k : Known)
    → ((p : ℕ) → o ≡ some p → (k.cf p).port ≡ port)
    → IsKnown name port a (add_unknown name port a o k)
unfolding add_unknown
add_unknown-IsKnown name port a none k h = record {
  at = k.next;
  listed = inl (append-IsIn k.active k.next);
  name = ground (
    arith,
    set_object_self k.next (record { name = name; type = external; address = a; port = port }) k.cf,
  );
  port = ground (
    arith,
    set_object_self k.next (record { name = name; type = external; address = a; port = port }) k.cf,
  );
  address = ground (
    arith,
    set_object_self k.next (record { name = name; type = external; address = a; port = port }) k.cf,
  );
}
add_unknown-IsKnown name port a (some p) k h =
    let written = set_object_self p (record (k.cf p) { name = name; address = a }) k.cf in
    record {
      at = p;
      listed = inl (append-IsIn k.active p);
      name = ground (arith, written);
      port = ground (arith, written, h p refl);
      address = ground (arith, written);
    }

settle-IsKnown :
    (name : Name) (port a : ℕ) (o : Option ℕ) (k : Known)
    → ((c : ℕ)
        → o ≡ some c
        → (IsIn c k.active ⊎ IsIn c k.inactive) × ((k.cf c).name ≡ name) × ((k.cf c).port ≡ port))
    → IsKnown name port a (settle name port a o k)
unfolding settle
settle-IsKnown name port a none k h =
    add_unknown-IsKnown name port a (find_partner k name port k.partners) k
      (λ p e. find_partner-port k name port k.partners p e)
settle-IsKnown name port a (some c) k h =
    let (listed, n, p) = h c refl in
    let kept = set_address-SameIdentity c a k.cf c in
    record {
      at = c;
      listed = listed;
      name = ground (arith, kept, n);
      port = ground (arith, kept, p);
      address = set_address_self c a k.cf;
    }

last_found_cases : (x y : Option ℕ) (c : ℕ) → last_found x y ≡ some c → (x ≡ some c) ⊎ (y ≡ some c)
last_found_cases x none c h = inl h
last_found_cases x (some d) c h = inr h

if_true-IsKnown :
    {n : Name} {p a : ℕ} (b : Bool) (x y : Known)
    → b ≡ true
    → IsKnown n p a x
    → IsKnown n p a (if b then x else y)
if_true-IsKnown true x y e h = h
if_true-IsKnown false x y e h = absurd (ground (arith, e))

-- After an address claim, a frame of eight bytes with that PGN on a port below 4, whatever was known
-- before: one of the control functions in the list of active ones or of inactive ones has the
-- claimed NAME, is on the port of the frame, and has the address that the frame came from.
pub update_control_functions-IsKnown :
    (f : Frame) (k : Known)
    → get_parameter_group_number f.identifier ≡ 0xEE00
    → length f.bytes ≡ 8
    → f.channel < 4
    → IsKnown
        (claimed_name f.bytes)
        f.channel
        (get_source_address f.identifier)
        (update_control_functions f k)
unfolding update_control_functions
update_control_functions-IsKnown f k pgn size port =
    let name = claimed_name f.bytes in
    let address = get_source_address f.identifier in
    let evicts = λ (c : ControlFunction). c.address == address && f.channel == c.port in
    let evicts' = λ (c : ControlFunction). f.channel == c.port in
    let first = scan evicts name f.channel k.active k.cf in
    let second = scan evicts' name f.channel k.inactive first.1 in
    let kept = scan-SameIdentity evicts name f.channel k.active k.cf in
    let kept' = scan-SameIdentity evicts' name f.channel k.inactive first.1 in
    if_true-IsKnown _ _ k (ground (arith, pgn, size, port)) (
      settle-IsKnown name f.channel address (last_found first.0 second.0)
        (record k { cf = second.1 })
        (λ c e. elim (last_found_cases first.0 second.0 c e) [
          | inl h ↦
              let known = scan-found evicts name f.channel k.active k.cf c h in
              (
                inl (scan-IsIn evicts name f.channel k.active k.cf c h),
                (kept' c).0 ∙ (kept c).0 ∙ known.0,
                (kept' c).1 ∙ (kept c).1 ∙ known.1,
              )
          | inr h ↦
              let known = scan-found evicts' name f.channel k.inactive first.1 c h in
              (
                inr (scan-IsIn evicts' name f.channel k.inactive first.1 c h),
                (kept' c).0 ∙ known.0,
                (kept' c).1 ∙ known.1,
              )
        ]))
