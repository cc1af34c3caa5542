-- ===== src/Examples/Claims.antt =====
-- Runs of the address claim state machine.
use iso11783_can_stack.Prelude.{
  ℕ, ◌≡◌, refl, true, false, some, none, [], ◌∷◌, ◌≤◌, ◌+◌, ◌*◌, ◌<◌, arith, ◌==◌, if◌then◌else◌,
  is_some, u32,
}
use iso11783_can_stack.Timing.{time_expired_ms}
use iso11783_can_stack.Name.{get_arbitrary_address_capable}
use iso11783_can_stack.Network.{sent}
use iso11783_can_stack.AddressClaim.{
  Machine, Table, send_arbitrary_address_claim, unable_to_claim, address_claiming_complete,
  set_current_state, wait_for_request_contention_period, contend_for_preferred_address, new_machine,
  get_control_function, update,
}
use iso11783_can_stack.AddressClaim.Invariant.{
  IsSound, updates, enables, run, run-new_machine-IsSound,
}
use iso11783_can_stack.AddressClaim.Search.{claim_frame, update_claims_least_free, update_unable}
use iso11783_can_stack.AddressClaim.Runs.{
  request_frame, preferred_address_claimed, contend_never_claims,
}
use iso11783_can_stack.Examples.{bus}

-- Nobody has an address; 128 is taken; everything is taken.
abbrev nobody : Table
nobody port address = none

abbrev one : Table
one port address = if address == 128 then some 1 else none

abbrev everybody : Table
everybody port address = some 1

-- A NAME that may claim any address, and one that may not.
abbrev machine : Machine
machine = new_machine 0x1C 0xA000_0000_0000_0001 0 7

abbrev searching : Machine
searching = record {
  name = 0xA000_0000_0000_0001;
  state = send_arbitrary_address_claim;
  timestamp = 5;
  port = 0;
  preferred_address = 0x1C;
  random_claim_delay = 7;
  claimed_address = 0xFE;
  enabled = true;
}

abbrev fixed : Machine
fixed = record searching {
  name = 1;
  state = wait_for_request_contention_period;
  preferred_address = 0x26;
}

run-new_machine-IsSound_example :
    IsSound
      (run
        (updates (bus 1) nobody ∷ enables false ∷ updates (bus 2) one ∷ [])
        (new_machine 0x1C 1 0 7, [])).0
run-new_machine-IsSound_example =
    run-new_machine-IsSound 0x1C 1 0 7 []
      (updates (bus 1) nobody ∷ enables false ∷ updates (bus 2) one ∷ []) (omega arith)

abbrev times : ℕ → ℕ
times i = i * 1000

nobody_there : get_control_function nobody 0 0x1C ≡ none
unfolding get_control_function
nobody_there = refl

preferred_address_claimed_example :
    run
      (updates (bus 0) nobody
        ∷ updates (bus 1000) nobody
        ∷ updates (bus 2000) nobody
        ∷ updates (bus 3000) nobody
        ∷ updates (bus 4000) nobody
        ∷ updates (bus 5000) nobody
        ∷ [])
      (machine, [])
    ≡ (
      record machine {
        timestamp = 1000;
        state = address_claiming_complete;
        claimed_address = 0x1C;
      },
      sent (claim_frame machine 0x1C) true ∷ sent (request_frame 0) true ∷ [],
    )
preferred_address_claimed_example =
    preferred_address_claimed 0x1C 0xA000_0000_0000_0001 0 7 (omega arith) (omega arith)
      (omega arith) (omega arith) (λ i. bus (times i)) (λ i. nobody) [] (omega arith) (omega arith)
      (omega arith) (omega arith) (λ l f. refl) (omega arith) (omega arith) nobody_there
      (λ l f. refl)

one_taken : (k : ℕ) → 128 ≤ k → k < 129 → is_some (get_control_function one 0 k) ≡ true
unfolding get_control_function
one_taken k lo hi = ground arith

next_free : get_control_function one 0 129 ≡ none
unfolding get_control_function
next_free = refl

update_claims_least_free_example : update (bus 9) one searching [] ≡ (
  record searching { claimed_address = 129; state = address_claiming_complete },
  sent (claim_frame searching 129) true ∷ [],
)
update_claims_least_free_example =
    update_claims_least_free (bus 9) one searching (λ log f. refl) (omega arith) refl [] refl 129
      (omega arith) (omega arith) next_free one_taken

all_taken : (k : ℕ) → 128 ≤ k → k ≤ 247 → is_some (get_control_function everybody 0 k) ≡ true
unfolding get_control_function
all_taken k lo hi = ground arith

update_unable_example :
    update (bus 9) everybody searching [] ≡ (set_current_state unable_to_claim searching, [])
update_unable_example =
    update_unable (bus 9) everybody searching (λ log f. refl) (omega arith) refl [] refl all_taken

over : time_expired_ms 900 5 (u32 (250 + 7)) ≡ true
unfolding time_expired_ms
over = refl

held : get_control_function everybody 0 0x26 ≡ some 1
unfolding get_control_function
held = refl

cannot_choose : get_arbitrary_address_capable 1 ≡ false
unfolding get_arbitrary_address_capable
cannot_choose = refl

contend_never_claims_example :
    run
      (updates (bus 900) everybody ∷ updates (bus 1000) nobody ∷ updates (bus 2000) nobody ∷ [])
      (fixed, [])
    ≡ (set_current_state contend_for_preferred_address fixed, [])
contend_never_claims_example =
    contend_never_claims (bus 900) everybody fixed [] 1
      ((bus 1000, nobody) ∷ (bus 2000, nobody) ∷ []) refl refl over held cannot_choose (omega arith)
