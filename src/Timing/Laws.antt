-- ===== src/Timing/Laws.antt =====
-- The counters of utility/src/system_timing.cpp measure true durations across their rollover.
use iso11783_can_stack.Prelude.{ℕ, ◌+◌, ◌^◌, ◌≤◌, ◌<◌, ◌≡◌, ◌↔◌, true, arith, u32, u64}
use iso11783_can_stack.Timing.{
  incrementing_difference_32, incrementing_difference_64, get_timestamp_ms, get_timestamp_us,
  time_expired_ms, time_expired_us,
}

-- Both overloads give the one number below 2 ^ w that leads from the previous value to the
-- current one modulo 2 ^ w, for any two values of the type, on both branches.
pub incrementing_difference_exact :
    (p d q e : ℕ)
    → p < 2 ^ 32
    → d < 2 ^ 32
    → q < 2 ^ 64
    → e < 2 ^ 64
    → (incrementing_difference_32 (u32 (p + d)) p ≡ d)
      × (incrementing_difference_64 (u64 (q + e)) q ≡ e)
unfolding incrementing_difference_32 incrementing_difference_64
incrementing_difference_exact p d q e hp hd hq he = (ground arith, ground arith)

-- A timeout that starts at one reading of the millisecond clock and is tested at a later one, less
-- than 2 ^ 32 milliseconds later, is over exactly when that many milliseconds have passed,
-- whether or not the clock, or the 32 bits that are kept of it, rolled over in between.
pub time_expired_ms-get_timestamp_ms :
    (start clock elapsed timeout : ℕ)
    → elapsed < 2 ^ 32
    → (time_expired_ms
          (get_timestamp_ms start (clock + elapsed))
          (get_timestamp_ms start clock)
          timeout
        ≡ true)
      ↔ (timeout ≤ elapsed)
unfolding time_expired_ms get_timestamp_ms
time_expired_ms-get_timestamp_ms start clock elapsed timeout h =
    (λ t. ground arith, λ t. ground arith)

-- A timeout that starts at one reading of the microsecond clock, whose start is a 64 bit number, and
-- is tested at a later one, less than 2 ^ 64 microseconds later, is over exactly when that many
-- microseconds have passed, whether or not the clock rolled over in between.
pub time_expired_us-get_timestamp_us :
    (start clock elapsed timeout : ℕ)
    → start < 2 ^ 64
    → elapsed < 2 ^ 64
    → (time_expired_us
          (get_timestamp_us start (clock + elapsed))
          (get_timestamp_us start clock)
          timeout
        ≡ true)
      ↔ (timeout ≤ elapsed)
unfolding time_expired_us get_timestamp_us
time_expired_us-get_timestamp_us start clock elapsed timeout s h =
    (λ t. ground arith, λ t. ground arith)
