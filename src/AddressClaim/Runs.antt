-- ===== src/AddressClaim/Runs.antt =====
-- can_address_claim_state_machine.cpp over several updates.
use iso11783_can_stack.Prelude.{
  ℕ, ◌+◌, ◌≤◌, ◌<◌, ◌≡◌, ◌≢◌, refl, ap, ◌∙◌, true, false, some, none, List, [], ◌∷◌, map, arith,
  ◌^◌, u32,
}
use iso11783_can_stack.Timing.{time_expired_ms, get_time_elapsed_ms, incrementing_difference_32}
use iso11783_can_stack.Name.{Name, get_arbitrary_address_capable}
use iso11783_can_stack.Network.{
  Env, Log, Frame, sent, send_can_message_raw, construct_frame, default_identifier,
}
use iso11783_can_stack.Network.Frames.{construct_frame-encode}
use iso11783_can_stack.Identifier.Fields.{encode_pdu1}
use iso11783_can_stack.AddressClaim.{
  Machine, Table, ClaimState, wait_for_claim, send_request_for_claim,
  wait_for_request_contention_period, contend_for_preferred_address, send_preferred_address_claim,
  address_claiming_complete, new_machine, update, update_enabled, contend, get_control_function,
  set_current_state, request_bytes, parameter_group_number_request, send_request_to_claim,
}
use iso11783_can_stack.AddressClaim.Search.{claim_frame, send_address_claim-open}
use iso11783_can_stack.AddressClaim.Invariant.{updates, step, run}

-- The frame of the request for the address claims of everybody.
unfoldable pub request_frame : ℕ → Frame
request_frame port =
    construct_frame port 0xFE 0xFF parameter_group_number_request 6 (some request_bytes) 3

request_frame-identifier : (port : ℕ) → default_identifier ≢ (request_frame port).identifier
unfolding request_frame
request_frame-identifier port = ground (
  arith,
  encode_pdu1 parameter_group_number_request 6 0xFF 0xFE (omega arith) (omega arith) (omega arith)
      (omega arith) (omega arith),
  construct_frame-encode 0xFE 0xFF parameter_group_number_request 6 (omega arith) (omega arith)
      (omega arith) (omega arith) port 3 request_bytes (omega arith) (omega arith),
)

send_request_to_claim-open :
    (env : Env) (c : Machine) (open_bus : (log : Log) (f : Frame) → env.accepts log f ≡ true)
    (log : Log)
    → c.port < 4
    → c.enabled ≡ true
    → send_request_to_claim env c log ≡ (true, sent (request_frame c.port) true ∷ log)
unfolding send_request_to_claim send_can_message_raw request_frame
send_request_to_claim-open env c open_bus log port enabled =
    ground
      (arith, request_frame-identifier c.port, open_bus log (request_frame c.port), port, enabled)

module _ (p : ℕ) (name : Name) (port delay : ℕ) (p_valid : p < 0xFE) (port_valid : port < 4)
    (delay_valid : 0 < delay) (byte_wide : delay < 2 ^ 8) (envs : ℕ → Env)
    (tables : ℕ → Table) where
  abbrev at : ℕ → ClaimState → Machine
  at t state = record (new_machine p name port delay) { timestamp = t; state = state }

  -- Two updates start the random delay.
  started :
      (log : Log)
      → (envs 1).now ≢ 0
      → (envs 1).now < 2 ^ 32
      → run
          (updates (envs 0) (tables 0) ∷ updates (envs 1) (tables 1) ∷ [])
          (new_machine p name port delay, log)
        ≡ (at (envs 1).now wait_for_claim, log)
  unfolding run step update update_enabled new_machine time_expired_ms get_time_elapsed_ms
      incrementing_difference_32
  started log h w = ground arith

  -- Two more wait for its end and request the claims of everybody.
  requested :
      (t : ℕ) (log : Log)
      → t ≢ 0
      → t + delay ≤ (envs 2).now
      → (envs 2).now < 2 ^ 32
      → ((l : Log) (f : Frame) → (envs 3).accepts l f ≡ true)
      → run
          (updates (envs 2) (tables 2) ∷ updates (envs 3) (tables 3) ∷ [])
          (at t wait_for_claim, log)
        ≡ (at t wait_for_request_contention_period, sent (request_frame port) true ∷ log)
  unfolding run step update update_enabled new_machine time_expired_ms get_time_elapsed_ms
      incrementing_difference_32
  requested t log h late w open_bus = ground (
    arith,
    send_request_to_claim-open (envs 3) (at t send_request_for_claim) open_bus log port_valid refl,
  )

  -- The last two wait for the end of the contention and claim.
  claimed :
      (t : ℕ) (log : Log)
      → t + 250 + delay ≤ (envs 4).now
      → (envs 4).now < 2 ^ 32
      → get_control_function (tables 4) port p ≡ none
      → ((l : Log) (f : Frame) → (envs 5).accepts l f ≡ true)
      → run
          (updates (envs 4) (tables 4) ∷ updates (envs 5) (tables 5) ∷ [])
          (at t wait_for_request_contention_period, log)
        ≡ (
          record (at t address_claiming_complete) { claimed_address = p },
          sent (claim_frame (new_machine p name port delay) p) true ∷ log,
        )
  unfolding run step update update_enabled new_machine contend claim_frame time_expired_ms
      get_time_elapsed_ms incrementing_difference_32
  claimed t log late w free open_bus = ground (
    arith,
    free,
    send_address_claim-open (envs 5) (tables 5) (at t send_preferred_address_claim) open_bus
        port_valid refl p log (omega arith),
  )

  -- A machine just constructed, with a preferred address below the null address, a port below 4
  -- and a delay from 1 to 255 ms, over six updates, where time does not wrap: the first starts it,
  -- the second starts the delay (at a time that is not 0), the third is no earlier than the delay's
  -- end, the fifth no earlier than 250 ms after it, with nobody at the preferred address, and the
  -- bus takes frames in the fourth and the last. Then the machine has sent the request for the
  -- claims of everybody and the claim of its preferred address, in this order and nothing else,
  -- and it holds that address, with its claim completed.
  pub preferred_address_claimed :
      (log : Log)
      → (envs 1).now ≢ 0
      → (envs 1).now < 2 ^ 32
      → (envs 1).now + delay ≤ (envs 2).now
      → (envs 2).now < 2 ^ 32
      → ((l : Log) (f : Frame) → (envs 3).accepts l f ≡ true)
      → (envs 1).now + 250 + delay ≤ (envs 4).now
      → (envs 4).now < 2 ^ 32
      → get_control_function (tables 4) port p ≡ none
      → ((l : Log) (f : Frame) → (envs 5).accepts l f ≡ true)
      → run
          (updates (envs 0) (tables 0)
            ∷ updates (envs 1) (tables 1)
            ∷ updates (envs 2) (tables 2)
            ∷ updates (envs 3) (tables 3)
            ∷ updates (envs 4) (tables 4)
            ∷ updates (envs 5) (tables 5)
            ∷ [])
          (new_machine p name port delay, log)
        ≡ (
          record (at (envs 1).now address_claiming_complete) { claimed_address = p },
          sent (claim_frame (new_machine p name port delay) p) true
              ∷ sent (request_frame port) true
              ∷ log,
        )
  unfolding run
  preferred_address_claimed log h w1 late2 w2 open3 late4 w4 free open5 =
      let t = (envs 1).now in
      rw (started log h w1)
        (rw (requested t log h late2 w2 open3) (claimed t _ late4 w4 free open5))

-- A machine that contends stays as it is.
contending_step :
    (env : Env) (table : Table) (c : Machine) (log : Log)
    → c.enabled ≡ true
    → c.state ≡ contend_for_preferred_address
    → step (updates env table) (c, log) ≡ (c, log)
unfolding step update update_enabled
contending_step env table c log enabled h = ground (arith, enabled, h)

contending :
    (es : List (Env × Table)) (c : Machine) (log : Log)
    → c.enabled ≡ true
    → c.state ≡ contend_for_preferred_address
    → run (map (λ e. updates e.0 e.1) es) (c, log) ≡ (c, log)
unfolding run
contending [] c log enabled h = refl
contending ((env, table) ∷ es) c log enabled h =
    ap (run (map (λ e. updates e.0 e.1) es)) (contending_step env table c log enabled h)
    ∙ contending es c log enabled h

contends :
    (env : Env) (table : Table) (c : Machine) (log : Log) (holder : ℕ)
    → c.enabled ≡ true
    → c.state ≡ wait_for_request_contention_period
    → time_expired_ms env.now c.timestamp (u32 (250 + c.random_claim_delay)) ≡ true
    → get_control_function table c.port c.preferred_address ≡ some holder
    → get_arbitrary_address_capable c.name ≡ false
    → c.name < (env.cf holder).name
    → step (updates env table) (c, log) ≡ (set_current_state contend_for_preferred_address c, log)
unfolding step update update_enabled contend
contends env table c log holder enabled waiting over held fixed wins =
    ground (arith, enabled, waiting, over, held, fixed, wins)

-- A machine whose NAME has no arbitrary address capability and is less than the NAME of the control
-- function that holds its preferred address: from the update that ends the contention period on,
-- whatever the times, tables and busses of the updates that follow, it sends nothing, and nothing
-- changes but its state, which is the one for contending for the preferred address.
pub contend_never_claims :
    (env : Env) (table : Table) (c : Machine) (log : Log) (holder : ℕ) (es : List (Env × Table))
    → c.enabled ≡ true
    → c.state ≡ wait_for_request_contention_period
    → time_expired_ms env.now c.timestamp (u32 (250 + c.random_claim_delay)) ≡ true
    → get_control_function table c.port c.preferred_address ≡ some holder
    → get_arbitrary_address_capable c.name ≡ false
    → c.name < (env.cf holder).name
    → run (updates env table ∷ map (λ e. updates e.0 e.1) es) (c, log)
      ≡ (set_current_state contend_for_preferred_address c, log)
unfolding run
contend_never_claims env table c log holder es enabled waiting over held fixed wins =
    ap (run (map (λ e. updates e.0 e.1) es))
      (contends env table c log holder enabled waiting over held fixed wins)
    ∙ (contending es (set_current_state contend_for_preferred_address c) log enabled refl)
