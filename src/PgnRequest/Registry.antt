-- ===== src/PgnRequest/Registry.antt =====
-- The registered callbacks of can_parameter_group_number_request_protocol.cpp.
use iso11783_can_stack.Prelude.{
  ◌≡◌, refl, sym, subst, ◌↔◌, inl, inr, Bool, true, false, List, [], ◌∷◌, ◌++◌, if◌then◌else◌,
  arith, is_some, same_pointer_iff, Bool-cases,
}
use iso11783_can_stack.PgnRequest.{
  CallbackInfo, RequestProtocol, same_info, contains, erase_first, register_pgn_request_callback,
  remove_pgn_request_callback, register_request_for_repetition_rate_callback,
  remove_request_for_repetition_rate_callback,
}

same_info_self : (c : CallbackInfo) → same_info c c ≡ true
unfolding same_info
same_info_self c = ground (
  arith,
  (same_pointer_iff c.function c.function).1 refl,
  (same_pointer_iff c.parent c.parent).1 refl,
)

-- The test of `operator==` is equality.
pub same_info_iff : (a b : CallbackInfo) → (same_info a b ≡ true) ↔ (a ≡ b)
unfolding same_info
same_info_iff a b = (
  λ h. ground (
    arith,
    h,
    (same_pointer_iff b.function a.function).0,
    (same_pointer_iff b.parent a.parent).0,
  ),
  λ e. subst (λ x. same_info a x ≡ true) e (same_info_self a),
)

same_info_comm : (a b : CallbackInfo) → same_info a b ≡ same_info b a
same_info_comm a b = elim (Bool-cases (same_info a b)) [
  | inl e ↦ rw e (sym ((same_info_iff b a).1 (sym ((same_info_iff a b).0 e))))
  | inr e ↦
      ground (
        arith,
        e,
        (same_info_iff a b).1,
        λ (x : same_info b a ≡ true). sym ((same_info_iff b a).0 x),
      )
]

contains-append : (c : CallbackInfo) (cs : List CallbackInfo) → contains c (cs ++ c ∷ []) ≡ true
unfolding contains
contains-append c [] = ground (arith, same_info_self c)
contains-append c (d ∷ cs) = ground (arith, contains-append c cs)

erase_first-append :
    (c : CallbackInfo) (cs : List CallbackInfo)
    → contains c cs ≡ false
    → erase_first c (cs ++ c ∷ []) ≡ cs
unfolding contains erase_first
erase_first-append c [] h = ground (arith, same_info_self c)
erase_first-append c (d ∷ cs) h = ground (arith, h, erase_first-append c cs)

-- No callback stands twice in a list.
unfoldable pub IsDistinct : List CallbackInfo → Type 0
IsDistinct [] = Unit {0}
IsDistinct (c ∷ cs) = (contains c cs ≡ false) × IsDistinct cs

contains-append_ne :
    (c d : CallbackInfo) (cs : List CallbackInfo)
    → contains d cs ≡ false
    → same_info c d ≡ false
    → contains d (cs ++ c ∷ []) ≡ false
unfolding contains
contains-append_ne c d [] h n = ground (arith, n)
contains-append_ne c d (e ∷ cs) h n = ground (arith, h, contains-append_ne c d cs)

contains-erase_first :
    (c d : CallbackInfo) (cs : List CallbackInfo)
    → contains d cs ≡ false
    → contains d (erase_first c cs) ≡ false
unfolding contains erase_first
contains-erase_first c d [] h = h
contains-erase_first c d (e ∷ cs) h = ground (arith, h, contains-erase_first c d cs)

if-IsDistinct :
    (b : Bool) (xs ys : List CallbackInfo)
    → IsDistinct xs
    → IsDistinct ys
    → IsDistinct (if b then xs else ys)
if-IsDistinct true xs ys hx hy = hx
if-IsDistinct false xs ys hx hy = hy

append-IsDistinct :
    (c : CallbackInfo) (cs : List CallbackInfo)
    → contains c cs ≡ false
    → IsDistinct cs
    → IsDistinct (cs ++ c ∷ [])
unfolding contains IsDistinct
append-IsDistinct c [] h d = (refl, tt)
append-IsDistinct c (e ∷ cs) h d = (
  contains-append_ne c e cs d.0 (ground (arith, h, same_info_comm c e)),
  append-IsDistinct c cs (ground (arith, h)) d.1,
)

erase_first-IsDistinct :
    (c : CallbackInfo) (cs : List CallbackInfo) → IsDistinct cs → IsDistinct (erase_first c cs)
unfolding erase_first IsDistinct
erase_first-IsDistinct c [] d = d
erase_first-IsDistinct c (e ∷ cs) d =
    if-IsDistinct (same_info e c) cs _ d.1
      (contains-erase_first c e cs d.0, erase_first-IsDistinct c cs d.1)

-- A callback that is registered, having a function and not standing in the list for requests, or not
-- in that for repetition rates: a second registration in that list is refused and changes
-- nothing, and its removal gives back the protocol from before, exactly.
pub register-remove :
    (c : CallbackInfo) (p : RequestProtocol)
    → is_some c.function ≡ true
    → contains c p.request_callbacks ≡ false
    → contains c p.rate_callbacks ≡ false
    → let (ok, p') = register_pgn_request_callback c p in
      let (ok', q) = register_request_for_repetition_rate_callback c p in
      (ok ≡ true)
      × (register_pgn_request_callback c p' ≡ (false, p'))
      × (remove_pgn_request_callback c p' ≡ (true, p))
      × (ok' ≡ true)
      × (register_request_for_repetition_rate_callback c q ≡ (false, q))
      × (remove_request_for_repetition_rate_callback c q ≡ (true, p))
unfolding register_pgn_request_callback remove_pgn_request_callback
    register_request_for_repetition_rate_callback remove_request_for_repetition_rate_callback
register-remove c p f h k =
    let there = contains-append c p.request_callbacks in
    let back = erase_first-append c p.request_callbacks h in
    let there' = contains-append c p.rate_callbacks in
    let back' = erase_first-append c p.rate_callbacks k in
    (
      ground (arith, f, h),
      ground (arith, f, h, there),
      ground (arith, f, h, there, back),
      ground (arith, f, k),
      ground (arith, f, k, there'),
      ground (arith, f, k, there', back'),
    )

-- Both lists of a protocol hold no callback twice.
abbrev pub AreDistinct : RequestProtocol → Type 0
AreDistinct p = IsDistinct p.request_callbacks × IsDistinct p.rate_callbacks

if-AreDistinct :
    (b : Bool) (x y : Bool × RequestProtocol)
    → (b ≡ true → AreDistinct x.1)
    → AreDistinct y.1
    → AreDistinct (if b then x else y).1
if-AreDistinct true x y hx hy = hx refl
if-AreDistinct false x y hx hy = hy

-- If no callback stands twice in either list, then this is so after a registration in either list,
-- and after a removal from either, whether these are accepted or refused.
pub registry-AreDistinct :
    (c : CallbackInfo) (p : RequestProtocol)
    → AreDistinct p
    → AreDistinct (register_pgn_request_callback c p).1
      × AreDistinct (register_request_for_repetition_rate_callback c p).1
      × AreDistinct (remove_pgn_request_callback c p).1
      × AreDistinct (remove_request_for_repetition_rate_callback c p).1
unfolding register_pgn_request_callback remove_pgn_request_callback
    register_request_for_repetition_rate_callback remove_request_for_repetition_rate_callback
registry-AreDistinct c p d = (
  if-AreDistinct _ (true, _) (false, p)
      (λ h. (append-IsDistinct c p.request_callbacks (ground (arith, h)) d.0, d.1)) d,
  if-AreDistinct _ (true, _) (false, p)
      (λ h. (d.0, append-IsDistinct c p.rate_callbacks (ground (arith, h)) d.1)) d,
  if-AreDistinct _ (true, _) (false, p)
      (λ h. (erase_first-IsDistinct c p.request_callbacks d.0, d.1)) d,
  if-AreDistinct _ (true, _) (false, p) (λ h. (d.0, erase_first-IsDistinct c p.rate_callbacks d.1))
      d,
)
