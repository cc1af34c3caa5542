-- ===== src/Identifier/Fields.antt =====
-- The fields of an identifier, from the constructor to the getters of can_identifier.cpp.
use iso11783_can_stack.Prelude.{
  ℕ, ◌+◌, ◌*◌, ◌/◌, ◌%◌, ◌^◌, ◌≤◌, ◌<◌, ◌≡◌, true, arith, bit_and, u32, ltb, if◌then◌else◌,
  Bool-cases, inl, inr, ltb→lt,
}
use iso11783_can_stack.Bits.{bit_and_comm, bit_and_field, bit_and_ones, bit_or_disjoint}
use iso11783_can_stack.Identifier.{
  extended, encode, get_priority, get_parameter_group_number, get_destination_address,
  get_source_address, get_is_valid, global_address,
}

-- A PGN is destination specific (PDU1) when its format byte is below 240.
abbrev pub IsPdu1 : ℕ → Type 0
IsPdu1 pgn = pgn / 2 ^ 8 % 2 ^ 8 < 240

format_test : (pgn : ℕ) → bit_and (u32 (pgn * 2 ^ 8)) 0x00F0_0000 ≡ pgn / 2 ^ 12 % 16 * 2 ^ 20
format_test pgn = omega (arith, bit_and_field 20 4 (u32 (pgn * 2 ^ 8)))

module _ (pgn p d s : ℕ) (hg : pgn < 2 ^ 18) (hp : p < 8) (hd : d < 2 ^ 8) (hs : s < 2 ^ 8) where
  -- The fields stand side by side, so the words that the constructor joins are added.
  pub encode_pdu1 :
      IsPdu1 pgn → encode extended pgn p d s ≡ p * 2 ^ 26 + pgn / 2 ^ 8 * 2 ^ 16 + d * 2 ^ 8 + s
  unfolding encode
  encode_pdu1 f = ground (
    arith,
    format_test pgn,
    bit_and_field 8 10 pgn,
    bit_or_disjoint 26 p (pgn / 2 ^ 8 * 2 ^ 16) (omega arith),
    bit_or_disjoint 16 (p * 2 ^ 10 + pgn / 2 ^ 8) (d * 2 ^ 8) (omega arith),
    bit_or_disjoint 8 (p * 2 ^ 18 + pgn / 2 ^ 8 * 2 ^ 8 + d) s hs,
  )

  pub encode_pdu2 :
      240 ≤ pgn / 2 ^ 8 % 2 ^ 8 → encode extended pgn p d s ≡ p * 2 ^ 26 + pgn * 2 ^ 8 + s
  unfolding encode
  encode_pdu2 f = ground (
    arith,
    format_test pgn,
    bit_and_ones 18 pgn,
    bit_or_disjoint 26 p (pgn * 2 ^ 8) (omega arith),
    bit_or_disjoint 8 (p * 2 ^ 18 + pgn) s hs,
  )

module _ (raw : ℕ) (big : 0x7FF < raw) (small : raw < 2 ^ 29) where
  -- What the getters read from the raw number of an extended identifier.
  pub get_priority_lem : get_priority raw ≡ raw / 2 ^ 26
  unfolding get_priority
  get_priority_lem = ground (arith, bit_and_ones 3 (raw / 2 ^ 26))

  pub get_source_address_lem : get_source_address raw ≡ raw % 2 ^ 8
  unfolding get_source_address
  get_source_address_lem = ground (arith, bit_and_ones 8 raw)

  raw_format : bit_and 0x00F0_0000 raw ≡ raw / 2 ^ 20 % 16 * 2 ^ 20
  raw_format = omega (arith, bit_and_comm 0x00F0_0000 raw, bit_and_field 20 4 raw)

  pub get_destination_address_lem :
      get_destination_address raw
      ≡ (if ltb (raw / 2 ^ 20 % 16) 15 then raw / 2 ^ 8 % 2 ^ 8 else global_address)
  unfolding get_destination_address
  get_destination_address_lem = ground (arith, raw_format, bit_and_ones 8 (raw / 2 ^ 8))

  pub get_parameter_group_number_lem :
      get_parameter_group_number raw
      ≡ (if ltb (raw / 2 ^ 20 % 16) 15 then raw / 2 ^ 16 % 2 ^ 10 * 2 ^ 8 else raw / 2 ^ 8 % 2 ^ 18)
  unfolding get_parameter_group_number
  get_parameter_group_number_lem =
      ground (arith, raw_format, bit_and_field 8 10 (raw / 2 ^ 8), bit_and_ones 18 (raw / 2 ^ 8))

  pub get_is_valid_lem : get_is_valid raw ≡ true
  unfolding get_is_valid
  get_is_valid_lem = ground arith

module _ (pgn p d s : ℕ) (hg : pgn < 2 ^ 18) (hp : p < 8) (hd : d < 2 ^ 8) (hs : s < 2 ^ 8) where
  joined :
      (encode extended pgn p d s ≡ (
        if ltb (pgn / 2 ^ 8 % 2 ^ 8) 240
        then p * 2 ^ 26 + pgn / 2 ^ 8 * 2 ^ 16 + d * 2 ^ 8 + s
        else p * 2 ^ 26 + pgn * 2 ^ 8 + s))
  joined = elim (Bool-cases (ltb (pgn / 2 ^ 8 % 2 ^ 8) 240)) [
    | inl e ↦ rw e (encode_pdu1 pgn p d s hg hp hd hs (ltb→lt _ _ e))
    | inr e ↦ rw e (encode_pdu2 pgn p d s hg hp hd hs (ground arith))
  ]

  -- Every field that the constructor of an extended identifier is given in its range comes back
  -- from the getters and the identifier is valid, if the priority, the upper bits of the PGN and
  -- those of the destination are not all 0. For a destination specific PGN (format byte below
  -- 240) the destination comes back and the low byte of the PGN reads as 0; for a broadcast PGN
  -- the whole PGN comes back and the destination reads as the global address.
  pub encode_fields :
      0 < p + pgn / 2 ^ 8 + d / 2 ^ 3
      → let raw = encode extended pgn p d s in
        let pdu1 = ltb (pgn / 2 ^ 8 % 2 ^ 8) 240 in
        (get_priority raw ≡ p)
        × (get_source_address raw ≡ s)
        × (get_is_valid raw ≡ true)
        × (get_parameter_group_number raw ≡ (if pdu1 then pgn / 2 ^ 8 * 2 ^ 8 else pgn))
        × (get_destination_address raw ≡ (if pdu1 then d else global_address))
  encode_fields h =
      let raw = encode extended pgn p d s in
      let big : 0x7FF < raw = ground (arith, joined) in
      let small : raw < 2 ^ 29 = ground (arith, joined) in
      (
        ground (arith, joined, get_priority_lem raw big small),
        ground (arith, joined, get_source_address_lem raw big small),
        get_is_valid_lem raw big small,
        ground (arith, joined, get_parameter_group_number_lem raw big small),
        ground (arith, joined, get_destination_address_lem raw big small),
      )
