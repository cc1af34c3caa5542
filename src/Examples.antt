-- ===== src/Examples.antt =====
-- Concrete runs: the theorems at values of which their conditions hold, and tests of the definitions.
pub mod Broadcasts
pub mod Connections
pub mod Claims
pub mod Basics
pub mod Lookups
pub mod Requests
pub mod FastPackets
pub mod Segments
pub mod Diagnostics
use iso11783_can_stack.Prelude.{ℕ, ◌==◌, true, none, if◌then◌else◌, List, [], ◌∷◌}
use iso11783_can_stack.ControlFunction.{ControlFunction, internal, external}
use iso11783_can_stack.Network.{Env}

-- A tractor's internal control function at address 0x1C, an implement at 0x26, on port 0.
abbrev pub devices : ℕ → ControlFunction
devices i =
    if i == 0
    then record { name = 0xA000_0000_0000_0001; type = internal; address = 0x1C; port = 0 }
    else record { name = 0xA000_0000_0000_0002; type = external; address = 0x26; port = 0 }

-- A bus that takes every frame, at a time.
abbrev pub bus : ℕ → Env
bus now = record {
  cf = devices;
  accepts = λ log frame. true;
  now = now;
  max_sessions = 4;
  bam_delay = 50;
  chunk = λ callback number offset size. none;
}

abbrev pub nine_bytes : List ℕ
nine_bytes = 1 ∷ 2 ∷ 3 ∷ 4 ∷ 5 ∷ 6 ∷ 7 ∷ 8 ∷ 9 ∷ []
