-- ===== src/AddressClaim.antt =====
-- isobus/src/can_address_claim_state_machine.cpp: how an internal control function gets an address.
-- The table of the control functions at each address, which the network manager keeps, is an
-- argument; so is the random delay, drawn once by the constructor. A result `none` is the
-- exception that `vector::at` throws on a message that is too short.
pub mod Invariant
pub mod Search
pub mod Runs
use iso11783_can_stack.Prelude.{
  ℕ, zero, suc, ◌+◌, ◌-◌, ◌^◌, Bool, true, false, not, ◌&&◌, Option, some, none, List, [], ◌∷◌,
  bit_and, ◌==◌, leb, ltb, if◌then◌else◌, u8, u32, ◌>>◌, is_some,
}
use iso11783_can_stack.Timing.{time_expired_ms}
use iso11783_can_stack.Name.{Name, get_arbitrary_address_capable}
use iso11783_can_stack.Message.{CanMessage, ◌>>=◌, little_endian, get_uint24_at, get_uint64_at}
use iso11783_can_stack.Identifier.{get_parameter_group_number, get_source_address}
use iso11783_can_stack.ControlFunction.{null_can_address, broadcast_can_address}
use iso11783_can_stack.Network.{Env, Log, send_can_message_raw, can_port_maximum}

-- AddressClaimStateMachine::State
pub data ClaimState : Type 0 where
  idle wait_for_claim send_request_for_claim wait_for_request_contention_period : ClaimState
  send_preferred_address_claim contend_for_preferred_address : ClaimState
  send_arbitrary_address_claim send_reclaim_address_on_request unable_to_claim : ClaimState
  address_claiming_complete : ClaimState

pub record Machine : Type 0 where
  pub name : Name
  pub state : ClaimState
  pub timestamp : ℕ
  pub port : ℕ
  pub preferred_address : ℕ
  pub random_claim_delay : ℕ
  pub claimed_address : ℕ
  pub enabled : Bool

abbrev pub address_claim_pgn : ℕ
address_claim_pgn = 0xEE00

abbrev pub parameter_group_number_request : ℕ
parameter_group_number_request = 0xEA00

abbrev pub address_contention_time_ms : ℕ
address_contention_time_ms = 250

unfoldable pub new_machine : ℕ → Name → ℕ → ℕ → Machine
new_machine preferred name port delay = record {
  name = name;
  state = idle;
  timestamp = 0;
  port = port;
  preferred_address = preferred;
  random_claim_delay = delay;
  claimed_address = null_can_address;
  enabled = true;
}

-- `controlFunctionTable`, by port and address, and CANNetworkManager::get_control_function.
abbrev pub Table : Type 0
Table = ℕ → ℕ → Option ℕ

unfoldable pub get_control_function : Table → ℕ → ℕ → Option ℕ
get_control_function table port address =
    if ltb address null_can_address && ltb port can_port_maximum then table port address else none

unfoldable pub set_is_enabled : Bool → Machine → Machine
set_is_enabled value c = record c { enabled = value }

abbrev pub set_current_state : ClaimState → Machine → Machine
set_current_state state c = record c { state = state }

abbrev pub request_bytes : List ℕ
request_bytes =
    u8 (bit_and address_claim_pgn 0xFF)
    ∷ u8 (bit_and (address_claim_pgn >> 8) 0xFF)
    ∷ u8 (bit_and (address_claim_pgn >> 16) 0xFF)
    ∷ []

unfoldable pub send_request_to_claim : Env → Machine → Log → Bool × Log
send_request_to_claim env c log =
    if c.enabled
    then send_can_message_raw env c.port null_can_address broadcast_can_address
        parameter_group_number_request 6 (some request_bytes) 3 log
    else (false, log)

abbrev pub name_bytes : Name → List ℕ
name_bytes n =
    u8 n
    ∷ u8 (n >> 8)
    ∷ u8 (n >> 16)
    ∷ u8 (n >> 24)
    ∷ u8 (n >> 32)
    ∷ u8 (n >> 40)
    ∷ u8 (n >> 48)
    ∷ u8 (n >> 56)
    ∷ []

-- Whether the claim went out, with the new state.
abbrev pub Claimed : Type 0
Claimed = Bool × Machine × Log

abbrev pub note_claim : ℕ → Machine → Bool × Log → Claimed
note_claim address c (ok, log) = (ok, if ok then record c { claimed_address = address } else c, log)

unfoldable pub send_address_claim : Env → ℕ → Machine → Log → Claimed
send_address_claim env address c log =
    if c.enabled
    then note_claim address c (
        send_can_message_raw env c.port address broadcast_can_address address_claim_pgn 6
          (some (name_bytes c.name)) 8 log)
    else (false, c, log)

abbrev pub then_state : ClaimState → ClaimState → Claimed → Machine × Log
then_state sent refused (ok, c, log) = (set_current_state (if ok then sent else refused) c, log)

-- The search for a free address; `rounds` are the addresses left, from `i` on.
abbrev pub or_else : Machine × Log → Claimed → Machine × Log
or_else next (ok, c, log) =
    if ok then (set_current_state address_claiming_complete c, log) else next

unfoldable pub search_address : Env → Table → ℕ → ℕ → Machine → Log → Machine × Log
search_address env table zero i c log = (set_current_state unable_to_claim c, log)
search_address env table (suc rounds) i c log =
    let attempt = send_address_claim env i c log in
    let after_refusal = search_address env table rounds (i + 1) c attempt.2 in
    let after_skip = search_address env table rounds (i + 1) c log in
    if is_some (get_control_function table c.port i)
    then after_skip
    else or_else after_refusal attempt

-- The end of the contention period, with who is at the preferred address.
unfoldable pub contend : Env → Option ℕ → Machine → ClaimState
contend env none c = send_preferred_address_claim
contend env (some d) c =
    let theirs = (env.cf d).name in
    if not (get_arbitrary_address_capable c.name) && ltb c.name theirs
    then contend_for_preferred_address
    else if not (get_arbitrary_address_capable c.name)
    then unable_to_claim
    else if ltb theirs c.name
    then send_arbitrary_address_claim
    else send_preferred_address_claim

-- The switch of `update`, for an enabled machine.
unfoldable pub update_enabled : Env → Table → ClaimState → Machine → Log → Machine × Log
update_enabled env table idle c log = (set_current_state wait_for_claim c, log)
update_enabled env table wait_for_claim c log =
    let started : Machine = record c {
      timestamp = if 0 == c.timestamp then env.now else c.timestamp;
    } in
    (
      (if time_expired_ms env.now started.timestamp c.random_claim_delay
          then set_current_state send_request_for_claim started
          else started),
      log,
    )
update_enabled env table send_request_for_claim c log =
    let (ok, log') = send_request_to_claim env c log in
    (if ok then set_current_state wait_for_request_contention_period c else c, log')
update_enabled env table wait_for_request_contention_period c log = (
  (if time_expired_ms env.now c.timestamp (u32 (address_contention_time_ms + c.random_claim_delay))
      then set_current_state (contend env (get_control_function table c.port c.preferred_address) c)
          c
      else c),
  log,
)
update_enabled env table send_preferred_address_claim c log =
    then_state address_claiming_complete idle (send_address_claim env c.preferred_address c log)
update_enabled env table send_arbitrary_address_claim c log = search_address env table 120 128 c log
update_enabled env table send_reclaim_address_on_request c log =
    then_state address_claiming_complete send_reclaim_address_on_request
      (send_address_claim env c.claimed_address c log)
update_enabled env table _ c log = (c, log)

unfoldable pub update : Env → Table → Machine → Log → Machine × Log
update env table c log =
    if c.enabled then update_enabled env table c.state c log else (set_current_state idle c, log)

abbrev pub reclaim_if_complete : ClaimState → Machine → Machine
reclaim_if_complete address_claiming_complete c =
    set_current_state send_reclaim_address_on_request c
reclaim_if_complete _ c = c

-- The bytes are joined as in `get_uint24_at` and `get_uint64_at` of the message.
unfoldable pub process_rx_message : CanMessage → Machine → Option Machine
process_rx_message m c =
    let pgn = get_parameter_group_number m.identifier in
    let requested = (do
      request ← get_uint24_at m 0 little_endian
      some (if request == address_claim_pgn then reclaim_if_complete c.state c else c)) in
    let contested = (do
      claimed ← get_uint64_at m 0 little_endian
      some (
          if claimed == c.name
          then c
          else set_current_state wait_for_request_contention_period c)) in
    if m.port == c.port && c.enabled
    then (if pgn == parameter_group_number_request
        then requested
        else if pgn == address_claim_pgn
        then (if c.claimed_address == get_source_address m.identifier then contested else some c)
        else some c)
    else some c
