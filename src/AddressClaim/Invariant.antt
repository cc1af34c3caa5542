-- ===== src/AddressClaim/Invariant.antt =====
-- What can_address_claim_state_machine.cpp keeps of the claimed address, over every history.
use iso11783_can_stack.Prelude.{
  ℕ, zero, suc, ◌+◌, ◌≤◌, ◌<◌, ◌≡◌, refl, sym, ◌⊎◌, Bool, true, false, Option, some, none, List, [],
  ◌∷◌, arith, ◌&&◌, ◌==◌, if◌then◌else◌,
}
use iso11783_can_stack.Message.{CanMessage, ◌>>=◌, little_endian, get_uint24_at, get_uint64_at}
use iso11783_can_stack.Identifier.{get_parameter_group_number, get_source_address}
use iso11783_can_stack.Network.{Env, Log}
use iso11783_can_stack.AddressClaim.{
  ClaimState, idle, wait_for_request_contention_period, send_preferred_address_claim,
  send_arbitrary_address_claim, send_reclaim_address_on_request, address_claiming_complete, Machine,
  Table, new_machine, parameter_group_number_request, address_claim_pgn, send_address_claim,
  search_address, contend, update_enabled, update, process_rx_message, set_is_enabled,
  set_current_state, reclaim_if_complete,
}

-- The claimed address is none, the preferred one, or one of those that anybody may claim; and it is
-- an address wherever the machine believes that it holds one.
pub record IsSound (c : Machine) : Type 0 where
  pub preferred : c.preferred_address < 0xFE
  pub claimed :
      (c.claimed_address ≡ 0xFE)
      ⊎ ((c.claimed_address ≡ c.preferred_address)
          ⊎ ((128 ≤ c.claimed_address) × (c.claimed_address ≤ 247)))
  pub complete : c.state ≡ address_claiming_complete → c.claimed_address < 0xFE
  pub reclaims : c.state ≡ send_reclaim_address_on_request → c.claimed_address < 0xFE

new_machine-IsSound : (p n port delay : ℕ) → p < 0xFE → IsSound (new_machine p n port delay)
unfolding new_machine
new_machine-IsSound p n port delay h = ground arith

-- A claim changes nothing but the claimed address, and only if it is sent.
send_address_claim_lem :
    (env : Env) (a : ℕ) (c : Machine) (log : Log)
    → ((send_address_claim env a c log).0 ≡ true)
        × ((send_address_claim env a c log).1 ≡ record c { claimed_address = a })
      ⊎ ((send_address_claim env a c log).0 ≡ false) × ((send_address_claim env a c log).1 ≡ c)
unfolding send_address_claim
send_address_claim_lem env a c log = ground arith

search_address-IsSound :
    (env : Env) (table : Table) (r i : ℕ) (c : Machine) (log : Log)
    → 128 ≤ i
    → i + r ≤ 248
    → IsSound c
    → IsSound (search_address env table r i c log).0
unfolding search_address
search_address-IsSound env table zero i c log lo hi s = ground (arith, s)
search_address-IsSound env table (suc r) i c log lo hi s = ground (
  arith,
  s,
  send_address_claim_lem env i c log,
  search_address-IsSound env table r (i + 1) c log,
  search_address-IsSound env table r (i + 1) c (send_address_claim env i c log).2,
)

update_enabled-IsSound :
    (env : Env) (table : Table) (state : ClaimState) (c : Machine) (log : Log)
    → state ≡ c.state
    → IsSound c
    → IsSound (update_enabled env table state c log).0
unfolding update_enabled contend
update_enabled-IsSound env table send_arbitrary_address_claim c log e s =
    search_address-IsSound env table 120 128 c log (omega arith) (omega arith) s
update_enabled-IsSound env table send_preferred_address_claim c log e s =
    ground (arith, s, send_address_claim_lem env c.preferred_address c log)
update_enabled-IsSound env table send_reclaim_address_on_request c log e s =
    ground (arith, s, send_address_claim_lem env c.claimed_address c log)
update_enabled-IsSound env table idle c log e s = ground (arith, s)
update_enabled-IsSound env table state c log e s = ground (arith, s)

update-IsSound :
    (env : Env) (table : Table) (c : Machine) (log : Log)
    → IsSound c
    → IsSound (update env table c log).0
unfolding update
update-IsSound env table c log s =
    ground (arith, s, update_enabled-IsSound env table c.state c log refl)

-- The events of a history: updates, messages (a message that throws ends its handler with no
-- change), and the application's switch.
pub data ClaimEvent : Type 0 where
  updates : Env → Table → ClaimEvent
  receives : CanMessage → ClaimEvent
  enables : Bool → ClaimEvent

abbrev or_keep : Machine → Option Machine → Machine
or_keep c none = c
or_keep c (some c') = c'

reclaim_if_complete-IsSound : (c : Machine) → IsSound c → IsSound (reclaim_if_complete c.state c)
reclaim_if_complete-IsSound c h = split_state c.state refl
  where
    split_state : (state : ClaimState) → state ≡ c.state → IsSound (reclaim_if_complete state c)
    split_state address_claiming_complete e = record {
      preferred = h.preferred;
      claimed = h.claimed;
      complete = λ f. ground (arith, f);
      reclaims = λ f. h.complete (sym e);
    }
    split_state _ e = h

contested-IsSound :
    (c : Machine) → IsSound c → IsSound (set_current_state wait_for_request_contention_period c)
contested-IsSound c h = record {
  preferred = h.preferred;
  claimed = h.claimed;
  complete = λ f. ground (arith, f);
  reclaims = λ f. ground (arith, f);
}

-- What a handler leaves behind is sound, whether or not it throws.
unfoldable LeavesSound : Machine → Option Machine → Type 0
LeavesSound c o = IsSound (or_keep c o)

leaves_if :
    (c : Machine) (b : Bool) (x y : Option Machine)
    → LeavesSound c x
    → LeavesSound c y
    → LeavesSound c (if b then x else y)
leaves_if c true x y hx hy = hx
leaves_if c false x y hx hy = hy

leaves_bind :
    (c : Machine) (o : Option ℕ) (f : ℕ → Option Machine)
    → IsSound c
    → ((n : ℕ) → LeavesSound c (f n))
    → LeavesSound c (o >>= f)
unfolding LeavesSound
leaves_bind c none f h hf = h
leaves_bind c (some n) f h hf = hf n

leaves_some :
    (c : Machine) (b : Bool) (x y : Machine)
    → IsSound x
    → IsSound y
    → LeavesSound c (some (if b then x else y))
unfolding LeavesSound
leaves_some c true x y hx hy = hx
leaves_some c false x y hx hy = hy

leaves_same : {c : Machine} → IsSound c → LeavesSound c (some c)
unfolding LeavesSound
leaves_same h = h

process_rx_message-LeavesSound :
    (m : CanMessage) (c : Machine) → IsSound c → LeavesSound c (process_rx_message m c)
unfolding process_rx_message
process_rx_message-LeavesSound m c h =
    let pgn = get_parameter_group_number m.identifier in
    let requested =
      leaves_bind c (get_uint24_at m 0 little_endian) _ h
        (λ n. leaves_some c (n == address_claim_pgn) _ _ (reclaim_if_complete-IsSound c h) h) in
    let contested =
      leaves_bind c (get_uint64_at m 0 little_endian) _ h
        (λ n. leaves_some c (n == c.name) _ _ h (contested-IsSound c h)) in
    let same = leaves_same h in
    let claims =
      leaves_if c (c.claimed_address == get_source_address m.identifier) _ _ contested same in
    let others = leaves_if c (pgn == address_claim_pgn) _ _ claims same in
    let known = leaves_if c (pgn == parameter_group_number_request) _ _ requested others in
    leaves_if c (m.port == c.port && c.enabled) _ _ known same

unfoldable pub step : ClaimEvent → Machine × Log → Machine × Log
step (updates env table) (c, log) = update env table c log
step (receives m) (c, log) = (or_keep c (process_rx_message m c), log)
step (enables value) (c, log) = (set_is_enabled value c, log)

unfoldable pub run : List ClaimEvent → Machine × Log → Machine × Log
run [] s = s
run (e ∷ es) s = run es (step e s)

step-IsSound : (e : ClaimEvent) (s : Machine × Log) → IsSound s.0 → IsSound (step e s).0
unfolding step set_is_enabled LeavesSound
step-IsSound (updates env table) (c, log) h = update-IsSound env table c log h
step-IsSound (receives m) (c, log) h = process_rx_message-LeavesSound m c h
step-IsSound (enables value) (c, log) h = ground (arith, h)

run-IsSound : (es : List ClaimEvent) (s : Machine × Log) → IsSound s.0 → IsSound (run es s).0
unfolding run
run-IsSound [] s h = h
run-IsSound (e ∷ es) s h = run-IsSound es (step e s) (step-IsSound e s h)

-- From the constructor on, with a preferred address below the null address, through any history of
-- updates at any times over any tables, messages received and switching: the claimed address is
-- the null address, the preferred one or one from 128 to 247, and it is not the null address
-- whenever the machine is in the state for a completed claim or is to repeat its claim.
pub run-new_machine-IsSound :
    (p n port delay : ℕ) (log : Log) (es : List ClaimEvent)
    → p < 0xFE
    → IsSound (run es (new_machine p n port delay, log)).0
run-new_machine-IsSound p n port delay log es h =
    run-IsSound es (new_machine p n port delay, log) (new_machine-IsSound p n port delay h)
