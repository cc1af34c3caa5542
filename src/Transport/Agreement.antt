-- ===== src/Transport/Agreement.antt =====
-- The sessions between two control functions in can_transport_protocol.cpp: no update, and no frame
-- from another control function than their source, gives them another PGN.
use iso11783_can_stack.Prelude.{
  ℕ, zero, suc, ◌≡◌, refl, Bool, true, false, not, ◌&&◌, ◌||◌, Option, some, none, List, [], ◌∷◌,
  ◌++◌, ◌==◌, arith, set, is_some, same_pointer,
}
use iso11783_can_stack.Transport.{
  Session, erase, get_session, get_session_of_pgn, session_pgn, one_further, with_pgn,
}

-- The session goes from a source to a destination.
abbrev pub is_between : Option ℕ → Option ℕ → Session → Bool
is_between source destination s =
    same_pointer s.message.source source && same_pointer s.message.destination destination

-- A session from a source to a destination, in whatever state, stands in the list.
unfoldable pub any_between : Option ℕ → Option ℕ → List Session → Bool
any_between source destination [] = false
any_between source destination (s ∷ ss) =
    is_between source destination s || any_between source destination ss

-- Each session from a source to a destination is of one PGN.
unfoldable pub all_agree : Option ℕ → Option ℕ → ℕ → List Session → Bool
all_agree source destination pgn [] = true
all_agree source destination pgn (s ∷ ss) =
    (not (is_between source destination s) || session_pgn s == pgn)
    && all_agree source destination pgn ss

module _ (source destination : Option ℕ) (pgn : ℕ) where
  abbrev pub agrees : Session → Bool
  agrees s = not (is_between source destination s) || session_pgn s == pgn

  abbrev pub agree : List Session → Bool
  agree ss = all_agree source destination pgn ss

  pub agree-append :
      (ss : List Session) (s : Session)
      → agree ss ≡ true
      → agrees s ≡ true
      → agree (ss ++ s ∷ []) ≡ true
  unfolding all_agree
  agree-append [] s h k = ground (arith, k)
  agree-append (x ∷ ss) s h k = ground (arith, h, k, agree-append ss s)

  pub agree-erase : (ss : List Session) (i : ℕ) → agree ss ≡ true → agree (erase ss i) ≡ true
  unfolding all_agree erase
  agree-erase [] i h = h
  agree-erase (x ∷ ss) zero h = ground (arith, h)
  agree-erase (x ∷ ss) (suc i) h = ground (arith, h, agree-erase ss i)

  pub agree-set :
      (ss : List Session) (i : ℕ) (s : Session)
      → agree ss ≡ true
      → agrees s ≡ true
      → agree (set ss i s) ≡ true
  unfolding all_agree
  agree-set [] i s h k = h
  agree-set (x ∷ ss) zero s h k = ground (arith, h, k)
  agree-set (x ∷ ss) (suc i) s h k = ground (arith, h, k, agree-set ss i s)

  -- With no session between the two, there is nothing to agree on.
  pub agree_vacuous :
      (ss : List Session) → any_between source destination ss ≡ false → agree ss ≡ true
  unfolding all_agree any_between
  agree_vacuous [] h = refl
  agree_vacuous (x ∷ ss) h = ground (arith, h, agree_vacuous ss)

  -- What `get_session` finds agrees, whatever ends it looks for.
  unfoldable pub found_agrees : Option (ℕ × Session) → Bool
  found_agrees none = true
  found_agrees (some (i, s)) = agrees s

  further_agrees :
      (o : Option (ℕ × Session)) → found_agrees o ≡ true → found_agrees (one_further o) ≡ true
  unfolding found_agrees
  further_agrees none h = h
  further_agrees (some (i, s)) h = h

  pub get_session-agrees :
      (ss : List Session) (a b : Option ℕ)
      → agree ss ≡ true
      → found_agrees (get_session ss a b) ≡ true
  unfolding get_session all_agree found_agrees
  get_session-agrees [] a b h = refl
  get_session-agrees (x ∷ ss) a b h =
      ground (arith, h, get_session-agrees ss a b, further_agrees (get_session ss a b))

  with_pgn-agrees :
      (g : ℕ) (o : Option (ℕ × Session))
      → found_agrees o ≡ true
      → found_agrees (with_pgn g o) ≡ true
  unfolding found_agrees
  with_pgn-agrees g none h = h
  with_pgn-agrees g (some (i, s)) h = ground (arith, h)

  pub get_session_of_pgn-agrees :
      (ss : List Session) (a b : Option ℕ) (g : ℕ)
      → agree ss ≡ true
      → found_agrees (get_session_of_pgn ss a b g) ≡ true
  unfolding get_session_of_pgn
  get_session_of_pgn-agrees ss a b g h =
      with_pgn-agrees g (get_session ss a b) (get_session-agrees ss a b h)

  one_further-of_pgn :
      (o : Option (ℕ × Session)) → is_some (with_pgn pgn (one_further o)) ≡ is_some (with_pgn pgn o)
  one_further-of_pgn none = refl
  one_further-of_pgn (some (i, s)) = ground arith

  -- A session between the two is found under the PGN that they all agree on.
  pub get_session_of_pgn_found :
      (ss : List Session)
      → agree ss ≡ true
      → any_between source destination ss ≡ true
      → is_some (get_session_of_pgn ss source destination pgn) ≡ true
  unfolding get_session_of_pgn get_session all_agree any_between
  get_session_of_pgn_found [] h k = absurd (cc)
  get_session_of_pgn_found (x ∷ ss) h k = ground (
    arith,
    h,
    k,
    get_session_of_pgn_found ss,
    one_further-of_pgn (get_session ss source destination),
  )
