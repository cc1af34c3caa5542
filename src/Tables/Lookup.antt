-- ===== src/Tables/Lookup.antt =====
-- What the network manager finds in its table of control functions.
use iso11783_can_stack.Prelude.{
  ℕ, ◌≡◌, ◌<◌, refl, sym, ap, ◌⊎◌, Bool, true, false, not, Option, some, none, List, [], ◌∷◌, ◌==◌,
  if◌then◌else◌, is_some, arith, ℕ_discrete,
}
use iso11783_can_stack.Message.{CanMessage}
use iso11783_can_stack.Identifier.{get_source_address}
use iso11783_can_stack.ControlFunction.{ControlFunction, null_can_address}
use iso11783_can_stack.AddressClaim.{Table, get_control_function}
use iso11783_can_stack.Tables.{
  Tables, set_address, set_entry, evict_entry, find_active, populate, populate_with,
  update_address_table, update_address_table_from,
}

-- Each entry is at the address of its control function, unless that has lost its address.
unfoldable pub IsConsistent : Tables → Type 0
IsConsistent t =
    (port a c : ℕ)
    → t.table port a ≡ some c
    → ((t.cf c).address ≡ a) ⊎ ((t.cf c).address ≡ null_can_address)

-- Writing the address that a control function has changes nothing.
set_address_same :
    (c a : ℕ) (cf : ℕ → ControlFunction) (i : ℕ)
    → (cf c).address ≡ a
    → (set_address c a cf i).address ≡ (cf i).address
unfolding set_address
set_address_same c a cf i h = elim (ℕ_discrete i c) [
  | yes e ↦ ground (arith, h, e, ap (λ j. (cf j).address) e)
  | no n ↦ ground (arith, n)
]

find_active_lem :
    (cf : ℕ → ControlFunction) (a : ℕ) (cs : List ℕ) (c : ℕ)
    → find_active cf a cs ≡ some c
    → (cf c).address ≡ a
unfolding find_active
find_active_lem cf a [] c h = ground (arith, h)
find_active_lem cf a (d ∷ cs) c h = elim (ℕ_discrete (cf d).address a) [
  | yes e ↦
      let found : d ≡ c = ground (arith, h, e) in ground (arith, e, ap (λ j. (cf j).address) found)
  | no n ↦ ground (arith, h, n, find_active_lem cf a cs c)
]

evict_entry-IsConsistent :
    (port a : ℕ) (o : Option ℕ) (t : Tables)
    → IsConsistent t
    → IsConsistent (evict_entry port a o t)
unfolding evict_entry set_entry IsConsistent
evict_entry-IsConsistent port a none t h = λ p b d e. h p b d e
evict_entry-IsConsistent port a (some c) t h =
    λ p b d e. ground (arith, e, h p b d, set_address_same c 0xFE t.cf d)

populate_with-IsConsistent :
    (port a : ℕ) (o : Option ℕ) (t : Tables)
    → IsConsistent t
    → ((c : ℕ) → o ≡ some c → (t.cf c).address ≡ a)
    → IsConsistent (populate_with port a o t)
unfolding set_entry IsConsistent
populate_with-IsConsistent port a none t h f = λ p b d e. h p b d e
populate_with-IsConsistent port a (some c) t h f =
    λ p b d e. ground (arith, e, h p b d, f c refl, set_address_same c a t.cf d)

if-IsConsistent :
    (b : Bool) (t u : Tables) → IsConsistent t → IsConsistent u → IsConsistent (if b then t else u)
if-IsConsistent true t u ht hu = ht
if-IsConsistent false t u ht hu = hu

populate-IsConsistent :
    (port a : ℕ) (t : Tables) → IsConsistent t → IsConsistent (populate port a t)
unfolding populate
populate-IsConsistent port a t h = if-IsConsistent (is_some (t.table port a)) t _ h (
    populate_with-IsConsistent port a (find_active t.cf a t.active) t h
      (λ c e. find_active_lem t.cf a t.active c e))

renewed-IsConsistent :
    (port a : ℕ) (t : Tables)
    → IsConsistent t
    → IsConsistent (populate port a (evict_entry port a (t.table port a) t))
renewed-IsConsistent port a t h =
    populate-IsConsistent port a _ (evict_entry-IsConsistent port a (t.table port a) t h)

-- If each entry of the table is at the address of its control function, or its control function has
-- lost its address, then this is so after either overload of `update_address_table`, for any
-- port, address and message.
pub update_address_table-IsConsistent :
    (port a : ℕ) (m : CanMessage) (t : Tables)
    → IsConsistent t
    → IsConsistent (update_address_table port a t) × IsConsistent (update_address_table_from m t)
unfolding update_address_table update_address_table_from
update_address_table-IsConsistent port a m t h = (
  if-IsConsistent _ _ t (renewed-IsConsistent port a t h) h,
  if-IsConsistent _ _ t (renewed-IsConsistent m.port (get_source_address m.identifier) t h) h,
)

-- The entry is a control function that has an address.
unfoldable pub is_held : (ℕ → ControlFunction) → Option ℕ → Bool
is_held cf none = false
is_held cf (some c) = not ((cf c).address == null_can_address)

find_active_same :
    (cf cf' : ℕ → ControlFunction) (a : ℕ) (cs : List ℕ)
    → ((i : ℕ) → (cf i).address ≡ (cf' i).address)
    → find_active cf a cs ≡ find_active cf' a cs
unfolding find_active
find_active_same cf cf' a [] h = refl
find_active_same cf cf' a (c ∷ cs) h = ground (arith, h c, find_active_same cf cf' a cs h)

set_entry_self : (port a : ℕ) (o : Option ℕ) (table : Table) → set_entry port a o table port a ≡ o
unfolding set_entry
set_entry_self port a o table = ground arith

populate_free :
    (port a : ℕ) (t : Tables)
    → t.table port a ≡ none
    → (populate port a t).table port a ≡ find_active t.cf a t.active
unfolding populate
populate_free port a t e = populate_found (find_active t.cf a t.active) refl
  where
    populate_found :
        (o : Option ℕ)
        → o ≡ find_active t.cf a t.active
        → (populate port a t).table port a ≡ find_active t.cf a t.active
    populate_found none f = ground (arith, e, f)
    populate_found (some c) f = ground (arith, e, f, set_entry_self port a (some c) t.table)

populate_kept :
    (port a : ℕ) (t : Tables) (c : ℕ)
    → t.table port a ≡ some c
    → (populate port a t).table port a ≡ t.table port a
unfolding populate
populate_kept port a t c e = ground (arith, e)

renewed_entry :
    (port a : ℕ) (t : Tables) (o : Option ℕ)
    → o ≡ t.table port a
    → (populate port a (evict_entry port a o t)).table port a
      ≡ (if is_held t.cf o then o else find_active t.cf a t.active)
unfolding is_held evict_entry
renewed_entry port a t none e = populate_free port a t (sym e)
renewed_entry port a t (some c) e = elim (ℕ_discrete (t.cf c).address 0xFE) [
  | yes n ↦
      let same =
        find_active_same (set_address c 0xFE t.cf) t.cf a t.active
          (λ i. set_address_same c 0xFE t.cf i n) in
      ground (
        arith,
        n,
        same,
        populate_free port a
            (record t { cf = set_address c 0xFE t.cf; table = set_entry port a none t.table })
            (set_entry_self port a none t.table),
      )
  | no n ↦ ground (arith, n, kept)
]
  where
    kept : (populate port a t).table port a ≡ t.table port a
    kept = populate_kept port a t c (sym e)

-- For a port below 4 and an address below the null address, `update_address_table` keeps the entry
-- for them if it is a control function that has an address; otherwise the control function that is
-- found there afterwards is the first active one with this address, whatever its port is,
-- and none if there is none.
pub update_address_table-find_active :
    (port a : ℕ) (t : Tables)
    → port < 4
    → a < 0xFE
    → get_control_function (update_address_table port a t).table port a
      ≡ (if is_held t.cf (t.table port a) then t.table port a else find_active t.cf a t.active)
unfolding update_address_table get_control_function
update_address_table-find_active port a t hp ha =
    ground (arith, hp, ha, renewed_entry port a t (t.table port a) refl)
