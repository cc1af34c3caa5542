-- ===== src/Timing.antt =====
-- utility/src/system_timing.cpp: differences of counters that wrap around. The clock itself
-- (std::chrono) is an argument; `start` is the value of the clock that `s_timestamp_ms` holds.
pub mod Laws
use iso11783_can_stack.Prelude.{ℕ, ◌+◌, ◌-◌, ◌^◌, Bool, leb, if◌then◌else◌, u32, u64}

abbrev pub max_u32 : ℕ
max_u32 = 2 ^ 32 - 1

abbrev pub max_u64 : ℕ
max_u64 = 2 ^ 64 - 1

-- Both overloads of `incrementing_difference`.
unfoldable pub incrementing_difference_32 : ℕ → ℕ → ℕ
incrementing_difference_32 current previous =
    if leb previous current
    then u32 (current - previous)
    else u32 (max_u32 - previous + current + 1)

unfoldable pub incrementing_difference_64 : ℕ → ℕ → ℕ
incrementing_difference_64 current previous =
    if leb previous current
    then u64 (current - previous)
    else u64 (max_u64 - previous + current + 1)

-- `clock` is the count of milliseconds (microseconds) that std::chrono gives, 64 bits wide.
unfoldable pub get_timestamp_ms : ℕ → ℕ → ℕ
unfolding incrementing_difference_32
get_timestamp_ms start clock = incrementing_difference_32 (u32 clock) (u32 start)

unfoldable pub get_timestamp_us : ℕ → ℕ → ℕ
unfolding incrementing_difference_64
get_timestamp_us start clock = incrementing_difference_64 (u64 clock) start

-- From here on `now` is the value of `get_timestamp_ms` (`get_timestamp_us`).
unfoldable pub get_time_elapsed_ms : ℕ → ℕ → ℕ
get_time_elapsed_ms now timestamp = u32 (now + 2 ^ 32 - timestamp)

unfoldable pub get_time_elapsed_us : ℕ → ℕ → ℕ
get_time_elapsed_us now timestamp = u64 (now + 2 ^ 64 - timestamp)

unfoldable pub time_expired_ms : ℕ → ℕ → ℕ → Bool
unfolding get_time_elapsed_ms
time_expired_ms now timestamp timeout = leb timeout (get_time_elapsed_ms now timestamp)

unfoldable pub time_expired_us : ℕ → ℕ → ℕ → Bool
unfolding get_time_elapsed_us
time_expired_us now timestamp timeout = leb timeout (get_time_elapsed_us now timestamp)
