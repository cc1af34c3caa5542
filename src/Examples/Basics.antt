-- ===== src/Examples/Basics.antt =====
-- Runs of identifiers, NAMEs, message readers, frames and timers.
use iso11783_can_stack.Prelude.{
  ℕ, ◌≡◌, ◌≢◌, ◌↔◌, refl, true, some, [], ◌∷◌, ◌≤◌, ◌<◌, ◌+◌, ◌*◌, ◌/◌, ◌%◌, ◌^◌, arith, ltb,
  if◌then◌else◌, ◌==◌, ◌||◌, u8, u32, u64, take,
}
use iso11783_can_stack.Timing.{
  incrementing_difference_32, incrementing_difference_64, get_timestamp_ms, get_timestamp_us,
  time_expired_ms, time_expired_us,
}
use iso11783_can_stack.Timing.Laws.{
  incrementing_difference_exact, time_expired_ms-get_timestamp_ms, time_expired_us-get_timestamp_us,
}
use iso11783_can_stack.Identifier.{
  encode, extended, get_priority, get_source_address, get_is_valid, get_parameter_group_number,
  get_destination_address,
}
use iso11783_can_stack.Identifier.Fields.{encode_fields}
use iso11783_can_stack.Name.{manufacturer_code, function_code}
use iso11783_can_stack.Name.Fields.{get, set, width, get-set}
use iso11783_can_stack.Name.Filter.{NameFilter, check_name_matches_filter, check_matches_name}
use iso11783_can_stack.Name.Filter.Laws.{AllRead, expected, check_matches_name_iff}
use iso11783_can_stack.Message.{
  CanMessage, little_endian, big_endian, get_uint16_at, get_uint24_at, get_uint32_at, get_uint64_at,
}
use iso11783_can_stack.Message.Bytes.{
  get_uint16_at_lem, get_uint24_at_lem, get_uint32_at_lem, get_uint64_at_lem,
}
use iso11783_can_stack.Network.{construct_frame, empty_frame}
use iso11783_can_stack.Network.Frames.{construct_frame-encode}

incrementing_difference_exact_example :
    (incrementing_difference_32 (u32 (0xFFFF_FFFF + 3)) 0xFFFF_FFFF ≡ 3)
    × (incrementing_difference_64 (u64 (5 + 7)) 5 ≡ 7)
incrementing_difference_exact_example =
    incrementing_difference_exact 0xFFFF_FFFF 3 5 7 (omega arith) (omega arith) (omega arith)
      (omega arith)

time_expired_ms-get_timestamp_ms_example :
    (time_expired_ms
        (get_timestamp_ms 100 (2 ^ 32 + 90 + 200))
        (get_timestamp_ms 100 (2 ^ 32 + 90))
        150
      ≡ true)
    ↔ (150 ≤ 200)
time_expired_ms-get_timestamp_ms_example =
    time_expired_ms-get_timestamp_ms 100 (2 ^ 32 + 90) 200 150 (omega arith)

time_expired_us-get_timestamp_us_example :
    (time_expired_us (get_timestamp_us 100 (900 + 200)) (get_timestamp_us 100 900) 150 ≡ true)
    ↔ (150 ≤ 200)
time_expired_us-get_timestamp_us_example =
    time_expired_us-get_timestamp_us 100 900 200 150 (omega arith) (omega arith)

encode_fields_example :
    (get_priority (encode extended 0xEA00 6 0x26 0x1C) ≡ 6)
    × (get_source_address (encode extended 0xEA00 6 0x26 0x1C) ≡ 0x1C)
    × (get_is_valid (encode extended 0xEA00 6 0x26 0x1C) ≡ true)
    × (get_parameter_group_number (encode extended 0xEA00 6 0x26 0x1C) ≡ 0xEA00)
    × (get_destination_address (encode extended 0xEA00 6 0x26 0x1C) ≡ 0x26)
encode_fields_example =
    encode_fields 0xEA00 6 0x26 0x1C (omega arith) (omega arith) (omega arith) (omega arith)
      (omega arith)

get-set_example :
    (set manufacturer_code 1407 0xA000_0000_0000_0001 < 2 ^ 64)
    × (get manufacturer_code (set manufacturer_code 1407 0xA000_0000_0000_0001)
        ≡ 1407 % 2 ^ width manufacturer_code)
    × (get function_code (set manufacturer_code 1407 0xA000_0000_0000_0001)
        ≡ get function_code 0xA000_0000_0000_0001)
get-set_example =
    get-set manufacturer_code function_code 1407 0xA000_0000_0000_0001 (omega arith) (ground arith)

abbrev filter : NameFilter
filter = record { parameter = function_code; value = 0 }

check_matches_name_iff_example :
    ((check_name_matches_filter filter 1 ≡ true) ↔ (get function_code 1 ≡ expected function_code 0))
    × ((check_matches_name (filter ∷ []) 1 ≡ true) ↔ ((filter ∷ [] ≢ []) × AllRead (filter ∷ []) 1))
check_matches_name_iff_example = check_matches_name_iff filter (filter ∷ []) 1

abbrev message : CanMessage
message = record {
  bytes = 0 ∷ 0xEE ∷ 0 ∷ 4 ∷ 5 ∷ 6 ∷ 7 ∷ 8 ∷ [];
  source = some 1;
  destination = some 0;
  identifier = 0x18EA_1C26;
  port = 0;
  callback_message_size = 0;
}

get_uint16_at_lem_example :
    (get_uint16_at message 0 little_endian ≡ some (0 + 0xEE * 2 ^ 8))
    × (get_uint16_at message 0 big_endian ≡ some (0 * 2 ^ 8 + 0xEE))
get_uint16_at_lem_example =
    get_uint16_at_lem message 0 0 0xEE (refl, omega arith) (refl, omega arith)

get_uint24_at_lem_example :
    (get_uint24_at message 0 little_endian ≡ some (0 + 0xEE * 2 ^ 8 + 0 * 2 ^ 16))
    × ((get_uint24_at message 0 big_endian ≡ some (0 * 2 ^ 16 + 0xEE * 2 ^ 8 + 0))
        ↔ (◌≡◌ {A = ℕ} 0 0))
get_uint24_at_lem_example =
    get_uint24_at_lem message 0 0 0xEE (refl, omega arith) (refl, omega arith) 0 (refl, omega arith)

get_uint64_at_lem_example :
    (get_uint64_at message 0 little_endian
      ≡ some (
          0
          + 0xEE * 2 ^ 8
          + 0 * 2 ^ 16
          + 4 * 2 ^ 24
          + 5 * 2 ^ 32
          + 6 * 2 ^ 40
          + 7 * 2 ^ 48
          + 8 * 2 ^ 56))
    × (get_uint64_at message 0 big_endian
        ≡ some (
            0 * 2 ^ 56
            + 0xEE * 2 ^ 48
            + 0 * 2 ^ 40
            + 4 * 2 ^ 32
            + 5 * 2 ^ 24
            + 6 * 2 ^ 16
            + 7 * 2 ^ 8
            + 8))
get_uint64_at_lem_example =
    get_uint64_at_lem message 0 0 0xEE (refl, omega arith) (refl, omega arith) 0 (refl, omega arith)
      4 (refl, omega arith) 5 6 7 8 (refl, omega arith) (refl, omega arith) (refl, omega arith)
      (refl, omega arith)

construct_frame-encode_example :
    construct_frame 0 0x1C 0x26 0xEA00 6 (some (0 ∷ 0xEE ∷ 0 ∷ [])) 3 ≡ (
      if 0x26 == 0xFF || ltb (0xEA00 / 2 ^ 8 % 2 ^ 8) 240
      then record {
        identifier = encode extended 0xEA00 6 0x26 0x1C;
        channel = u8 0;
        bytes = take 3 (0 ∷ 0xEE ∷ 0 ∷ []);
        is_extended = true;
      }
      else empty_frame)
construct_frame-encode_example =
    construct_frame-encode 0x1C 0x26 0xEA00 6 (omega arith) (omega arith) (omega arith)
      (omega arith) 0 3 (0 ∷ 0xEE ∷ 0 ∷ []) (omega arith) (omega arith)

get_uint32_at_lem_example :
    (get_uint32_at message 0 little_endian ≡ some (0 + 0xEE * 2 ^ 8 + 0 * 2 ^ 16 + 4 * 2 ^ 24))
    × (get_uint32_at message 0 big_endian ≡ some (0 * 2 ^ 24 + 0xEE * 2 ^ 16 + 0 * 2 ^ 8 + 4))
get_uint32_at_lem_example =
    get_uint32_at_lem message 0 0 0xEE (refl, omega arith) (refl, omega arith) 0 (refl, omega arith)
      4 (refl, omega arith)
