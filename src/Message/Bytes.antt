-- ===== src/Message/Bytes.antt =====
-- What the readers of can_message.cpp make of the bytes of a message.
use iso11783_can_stack.Prelude.{ℕ, ◌+◌, ◌*◌, ◌^◌, ◌<◌, ◌≡◌, ◌↔◌, some, arith, get_elem?, ap, bit_or}
use iso11783_can_stack.Bits.{bit_or_disjoint, bit_or_above}
use iso11783_can_stack.Message.{
  CanMessage, little_endian, big_endian, get_uint16_at, get_uint24_at, get_uint32_at, get_uint64_at,
}

-- `b` stands at an index, and is a byte.
abbrev pub ByteAt : CanMessage → ℕ → ℕ → Type 0
ByteAt m i b = (get_elem? m.bytes i ≡ some b) × (b < 2 ^ 8)

-- Four bytes joined above a 32 bit word, or below a number that is shifted by 32 bits.
module _ (e f g h : ℕ) (he : e < 2 ^ 8) (hf : f < 2 ^ 8) (hg : g < 2 ^ 8) (hh : h < 2 ^ 8) where
  join_above :
      (l : ℕ)
      → l < 2 ^ 32
      → bit_or (bit_or (bit_or (bit_or l (e * 2 ^ 32)) (f * 2 ^ 40)) (g * 2 ^ 48)) (h * 2 ^ 56)
        ≡ l + e * 2 ^ 32 + f * 2 ^ 40 + g * 2 ^ 48 + h * 2 ^ 56
  join_above l hl =
      rw
        (
          bit_or_above 32 e l hl,
          bit_or_above 40 f (e * 2 ^ 32 + l) (omega arith),
          bit_or_above 48 g (f * 2 ^ 40 + (e * 2 ^ 32 + l)) (omega arith),
          bit_or_above 56 h (g * 2 ^ 48 + (f * 2 ^ 40 + (e * 2 ^ 32 + l))) (omega arith),
        )
        (omega arith)

  join_below :
      (t : ℕ)
      → bit_or (bit_or (bit_or (bit_or (t * 2 ^ 32) (e * 2 ^ 24)) (f * 2 ^ 16)) (g * 2 ^ 8)) h
        ≡ t * 2 ^ 32 + e * 2 ^ 24 + f * 2 ^ 16 + g * 2 ^ 8 + h
  join_below t = ground (
    arith,
    bit_or_disjoint 32 t (e * 2 ^ 24) (omega arith),
    bit_or_disjoint 24 (t * 2 ^ 8 + e) (f * 2 ^ 16) (omega arith),
    bit_or_disjoint 16 (t * 2 ^ 16 + e * 2 ^ 8 + f) (g * 2 ^ 8) (omega arith),
    bit_or_disjoint 8 (t * 2 ^ 24 + e * 2 ^ 16 + f * 2 ^ 8 + g) h hh,
  )

  join_high :
      bit_or (bit_or (bit_or (e * 2 ^ 56) (f * 2 ^ 48)) (g * 2 ^ 40)) (h * 2 ^ 32)
      ≡ (e * 2 ^ 24 + f * 2 ^ 16 + g * 2 ^ 8 + h) * 2 ^ 32
  join_high = ground (
    arith,
    bit_or_disjoint 56 e (f * 2 ^ 48) (omega arith),
    bit_or_disjoint 48 (e * 2 ^ 8 + f) (g * 2 ^ 40) (omega arith),
    bit_or_disjoint 40 (e * 2 ^ 16 + f * 2 ^ 8 + g) (h * 2 ^ 32) (omega arith),
  )

module _ (m : CanMessage) (i a b : ℕ) (ha : ByteAt m i a) (hb : ByteAt m (i + 1) b) where
  -- Two bytes of the message read as a 16 bit number in either byte order.
  pub get_uint16_at_lem :
      (get_uint16_at m i little_endian ≡ some (a + b * 2 ^ 8))
      × (get_uint16_at m i big_endian ≡ some (a * 2 ^ 8 + b))
  unfolding get_uint16_at
  get_uint16_at_lem =
      (ground (arith, bit_or_above 8 b a ha.1), ground (arith, bit_or_disjoint 8 a b hb.1))

  module _ (c : ℕ) (hc : ByteAt m (i + 2) c) where
    -- Three bytes of the message read as a 24 bit number in little endian order. In big endian
    -- order the code takes the third byte for the first as well, so the number is the right one
    -- exactly when these two bytes are equal.
    pub get_uint24_at_lem :
        (get_uint24_at m i little_endian ≡ some (a + b * 2 ^ 8 + c * 2 ^ 16))
        × ((get_uint24_at m i big_endian ≡ some (a * 2 ^ 16 + b * 2 ^ 8 + c)) ↔ (a ≡ c))
    unfolding get_uint24_at
    get_uint24_at_lem =
        let low = bit_or_disjoint 16 c (b * 2 ^ 8) (omega arith) in
        let all = bit_or_disjoint 8 (c * 2 ^ 8 + b) c hc.1 in
        (
          ground (arith, bit_or_above 8 b a ha.1, bit_or_above 16 c (b * 2 ^ 8 + a) (omega arith)),
          (λ e. ground (arith, low, all), λ e. ground (arith, low, all)),
        )

    module _ (d : ℕ) (hd : ByteAt m (i + 3) d) where
      low_32 :
          bit_or (bit_or (bit_or a (b * 2 ^ 8)) (c * 2 ^ 16)) (d * 2 ^ 24)
          ≡ a + b * 2 ^ 8 + c * 2 ^ 16 + d * 2 ^ 24
      low_32 = ground (
        arith,
        bit_or_above 8 b a ha.1,
        bit_or_above 16 c (b * 2 ^ 8 + a) (omega arith),
        bit_or_above 24 d (c * 2 ^ 16 + b * 2 ^ 8 + a) (omega arith),
      )

      -- Four bytes of the message read as a 32 bit number in either byte order.
      pub get_uint32_at_lem :
          (get_uint32_at m i little_endian ≡ some (a + b * 2 ^ 8 + c * 2 ^ 16 + d * 2 ^ 24))
          × (get_uint32_at m i big_endian ≡ some (a * 2 ^ 24 + b * 2 ^ 16 + c * 2 ^ 8 + d))
      unfolding get_uint32_at
      get_uint32_at_lem = (
        ground (arith, low_32),
        ground (
          arith,
          bit_or_disjoint 24 a (b * 2 ^ 16) (omega arith),
          bit_or_disjoint 16 (a * 2 ^ 8 + b) (c * 2 ^ 8) (omega arith),
          bit_or_disjoint 8 (a * 2 ^ 16 + b * 2 ^ 8 + c) d hd.1,
        ),
      )

      module _ (e f g h : ℕ) (he : ByteAt m (i + 4) e) (hf : ByteAt m (i + 5) f)
          (hg : ByteAt m (i + 6) g) (hh : ByteAt m (i + 7) h) where
        -- Eight bytes of the message read as a 64 bit number in either byte order.
        pub get_uint64_at_lem :
            (get_uint64_at m i little_endian
              ≡ some (
                  a
                  + b * 2 ^ 8
                  + c * 2 ^ 16
                  + d * 2 ^ 24
                  + e * 2 ^ 32
                  + f * 2 ^ 40
                  + g * 2 ^ 48
                  + h * 2 ^ 56))
            × (get_uint64_at m i big_endian
                ≡ some (
                    a * 2 ^ 56
                    + b * 2 ^ 48
                    + c * 2 ^ 40
                    + d * 2 ^ 32
                    + e * 2 ^ 24
                    + f * 2 ^ 16
                    + g * 2 ^ 8
                    + h))
        unfolding get_uint64_at
        get_uint64_at_lem =
            let l = a + b * 2 ^ 8 + c * 2 ^ 16 + d * 2 ^ 24 in
            let t = a * 2 ^ 24 + b * 2 ^ 16 + c * 2 ^ 8 + d in
            let below = join_below e f g h he.1 hf.1 hg.1 hh.1 t in
            (
              rw (ha.0, hb.0, hc.0, hd.0, he.0, hf.0, hg.0, hh.0)
                  (ap some (
                    rw (low_32, join_above e f g h he.1 hf.1 hg.1 hh.1 l (omega arith))
                      (omega arith))),
              rw (ha.0, hb.0, hc.0, hd.0, he.0, hf.0, hg.0, hh.0)
                  (ap some (rw (join_high a b c d ha.1 hb.1 hc.1 hd.1, below) (omega arith))),
            )
