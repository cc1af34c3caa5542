-- ===== src/AddressClaim/Search.antt =====
-- can_address_claim_state_machine.cpp: the search of an arbitrary address, for a bus that takes
-- every frame.
use iso11783_can_stack.Prelude.{
  ℕ, zero, suc, ◌+◌, ◌≤◌, ◌<◌, ◌≡◌, refl, true, some, none, ◌∷◌, arith, is_some, ◌^◌, dec_lt,
}
use iso11783_can_stack.Network.{
  Env, Log, Frame, sent, send_can_message_raw, construct_frame, default_identifier,
}
use iso11783_can_stack.Identifier.Fields.{encode_pdu1}
use mathlib.Core.Logic.{◌≢◌}
use iso11783_can_stack.Network.Frames.{construct_frame-encode}
use iso11783_can_stack.AddressClaim.{
  Machine, Table, send_arbitrary_address_claim, unable_to_claim, address_claiming_complete,
  send_address_claim, search_address, update, update_enabled, get_control_function,
  set_current_state, name_bytes, address_claim_pgn,
}

-- The frame of a claim of an address.
unfoldable pub claim_frame : Machine → ℕ → Frame
claim_frame c a = construct_frame c.port a 0xFF address_claim_pgn 6 (some (name_bytes c.name)) 8

claim_frame-identifier :
    (c : Machine) (a : ℕ) → a < 2 ^ 8 → default_identifier ≢ (claim_frame c a).identifier
unfolding claim_frame
claim_frame-identifier c a h = ground (
  arith,
  encode_pdu1 address_claim_pgn 6 0xFF a (omega arith) (omega arith) (omega arith) h (omega arith),
  construct_frame-encode a 0xFF address_claim_pgn 6 h (omega arith) (omega arith) (omega arith)
      c.port 8 (name_bytes c.name) (omega arith) (omega arith),
)

module _ (env : Env) (table : Table) (c : Machine)
    (open_bus : (log : Log) (f : Frame) → env.accepts log f ≡ true) (port : c.port < 4)
    (enabled : c.enabled ≡ true) where
  -- A claim of any address goes out.
  pub send_address_claim-open :
      (a : ℕ) (log : Log)
      → a < 2 ^ 8
      → send_address_claim env a c log
        ≡ (true, record c { claimed_address = a }, sent (claim_frame c a) true ∷ log)
  unfolding send_address_claim send_can_message_raw claim_frame
  send_address_claim-open a log h =
      ground (arith, claim_frame-identifier c a h, open_bus log (claim_frame c a), port, enabled)

  -- With `j` as the least free address from `i` on, within the addresses left.
  search_address_least :
      (r i j : ℕ) (log : Log)
      → i + r ≤ 248
      → i ≤ j
      → j < i + r
      → get_control_function table c.port j ≡ none
      → ((k : ℕ) → i ≤ k → k < j → is_some (get_control_function table c.port k) ≡ true)
      → search_address env table r i c log ≡ (
        record c { claimed_address = j; state = address_claiming_complete },
        sent (claim_frame c j) true ∷ log,
      )
  unfolding search_address
  search_address_least zero i j log b lo hi free taken = absurd (omega arith)
  search_address_least (suc r) i j log b lo hi free taken = elim (dec_lt i j) [
    | yes l ↦
        let rest =
          search_address_least r (i + 1) j log (omega arith) (omega arith) (omega arith) free
            (λ k p q. taken k (omega arith) q) in
        ground (arith, taken i (omega arith) l, rest)
    | no l ↦
        let e : i ≡ j = omega arith in
        ground (arith, e, free, send_address_claim-open i log (omega arith))
  ]

  search_address_full :
      (r i : ℕ) (log : Log)
      → ((k : ℕ) → i ≤ k → k < i + r → is_some (get_control_function table c.port k) ≡ true)
      → search_address env table r i c log ≡ (set_current_state unable_to_claim c, log)
  unfolding search_address
  search_address_full zero i log taken = refl
  search_address_full (suc r) i log taken =
      let rest = search_address_full r (i + 1) log (λ k p q. taken k (omega arith) (omega arith)) in
      ground (arith, taken i (omega arith) (omega arith), rest)

  module _ (log : Log) (searching : c.state ≡ send_arbitrary_address_claim) where
    -- An enabled machine that is to claim an arbitrary address, on a bus that takes every frame:
    -- for the least address from 128 to 247 that nobody holds, one update sends a claim of that
    -- address and nothing else, and the machine holds the address, with its claim completed.
    pub update_claims_least_free :
        (j : ℕ)
        → 128 ≤ j
        → j ≤ 247
        → get_control_function table c.port j ≡ none
        → ((k : ℕ) → 128 ≤ k → k < j → is_some (get_control_function table c.port k) ≡ true)
        → update env table c log ≡ (
          record c { claimed_address = j; state = address_claiming_complete },
          sent (claim_frame c j) true ∷ log,
        )
    unfolding update update_enabled
    update_claims_least_free j lo hi free taken = ground (
      arith,
      enabled,
      searching,
      search_address_least 120 128 j log (omega arith) lo (omega arith) free taken,
    )

    -- An enabled machine that is to claim an arbitrary address, on a bus that takes every frame,
    -- when somebody holds each of the addresses 128 to 247: one update sends nothing, and the
    -- machine goes to the state for being unable to claim.
    pub update_unable :
        ((k : ℕ) → 128 ≤ k → k ≤ 247 → is_some (get_control_function table c.port k) ≡ true)
        → update env table c log ≡ (set_current_state unable_to_claim c, log)
    unfolding update update_enabled
    update_unable taken = ground (
      arith,
      enabled,
      searching,
      search_address_full 120 128 log (λ k p q. taken k p (omega arith)),
    )
