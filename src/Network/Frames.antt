-- ===== src/Network/Frames.antt =====
-- The frames that `construct_frame` of can_network_manager.cpp builds carry the identifier that the
-- constructor of can_identifier.cpp builds.
use iso11783_can_stack.Prelude.{
  ℕ, ◌+◌, ◌*◌, ◌/◌, ◌%◌, ◌^◌, ◌≤◌, ◌<◌, ◌≡◌, ◌≢◌, inl, inr, true, some, List, arith, bit_or, ltb,
  if◌then◌else◌, u8, take, Bool-cases, ltb→lt, ◌==◌, ◌||◌, false, ◌∙◌, sym,
}
use iso11783_can_stack.Bits.{
  bit_and_field, bit_and_ones, bit_or_disjoint, bit_or_split, bit_or-zero,
}
use iso11783_can_stack.Identifier.{encode, extended}
use iso11783_can_stack.Identifier.Fields.{encode_pdu1, encode_pdu2}
use iso11783_can_stack.Network.{frame_identifier, construct_frame, empty_frame, default_identifier}

module _ (s d pgn p : ℕ) (hs : s < 2 ^ 8) (hd : d < 2 ^ 8) (hg : pgn < 2 ^ 18) (hp : p < 8) where
  start_lem : bit_or (p * 2 ^ 26) s ≡ p * 2 ^ 26 + s
  start_lem = bit_or_disjoint 26 p s (omega arith)

  -- A word written into the gap between two fields.
  gap :
      (k a b c : ℕ)
      → c < 2 ^ k
      → (n : ℕ) → b < 2 ^ n
      → bit_or (a * 2 ^ n * 2 ^ k + c) (b * 2 ^ k) ≡ (a * 2 ^ n + b) * 2 ^ k + c
  gap k a b c hc n hb =
      let split : bit_or (a * 2 ^ n * 2 ^ k + c) (b * 2 ^ k + 0)
          ≡ bit_or (a * 2 ^ n) b * 2 ^ k + bit_or c 0 =
        bit_or_split k (a * 2 ^ n) c b 0 hc (omega arith) in
      ground (arith, split, bit_or-zero c, bit_or_disjoint n a b hb)

  frame_identifier_whole :
      240 ≤ pgn / 2 ^ 8 % 2 ^ 8
      → d ≡ 0xFF
      → frame_identifier s d pgn p ≡ p * 2 ^ 26 + pgn * 2 ^ 8 + s
  unfolding frame_identifier
  frame_identifier_whole f e = ground (
    arith,
    bit_and_ones 3 p,
    bit_and_ones 8 s,
    start_lem,
    bit_and_field 12 4 pgn,
    bit_and_ones 18 pgn,
    gap 8 p pgn s hs 18 hg,
  )

  frame_identifier_specific :
      pgn / 2 ^ 8 % 2 ^ 8 < 240
      → frame_identifier s d pgn p ≡ p * 2 ^ 26 + pgn / 2 ^ 8 * 2 ^ 16 + d * 2 ^ 8 + s
  unfolding frame_identifier
  frame_identifier_specific f = ground (
    arith,
    bit_and_ones 3 p,
    bit_and_ones 8 s,
    start_lem,
    bit_and_field 12 4 pgn,
    bit_and_field 8 10 pgn,
    gap 8 p d s hs 18 (omega arith),
    gap 16 p (pgn / 2 ^ 8) (d * 2 ^ 8 + s) (omega arith) 10 (omega arith),
  )

  frame_identifier-encode :
      (d == 0xFF || ltb (pgn / 2 ^ 8 % 2 ^ 8) 240) ≡ true
      → (frame_identifier s d pgn p ≡ encode extended pgn p d s)
        × (encode extended pgn p d s < 2 ^ 29)
  frame_identifier-encode r = elim (Bool-cases (ltb (pgn / 2 ^ 8 % 2 ^ 8) 240)) [
    | inl e ↦
        let f = ltb→lt _ _ e in
        let i = frame_identifier_specific f in
        let j = encode_pdu1 pgn p d s hg hp hd hs f in (i ∙ sym j, omega (arith, j))
    | inr e ↦
        let f : 240 ≤ pgn / 2 ^ 8 % 2 ^ 8 = ground arith in
        let i = frame_identifier_whole f (ground arith) in
        let j = encode_pdu2 pgn p d s hg hp hd hs f in (i ∙ sym j, omega (arith, j))
  ]

  frame_identifier_refused :
      (d == 0xFF || ltb (pgn / 2 ^ 8 % 2 ^ 8) 240) ≡ false
      → frame_identifier s d pgn p ≡ default_identifier
  unfolding frame_identifier
  frame_identifier_refused r = ground (arith, bit_and_field 12 4 pgn)

  -- From addresses, a PGN, a priority and a buffer in their ranges, with a destination that is
  -- not the null address: the frame that the network manager constructs carries the very
  -- identifier that the class CANIdentifier encodes, and the first bytes of the buffer, if the
  -- message is for everyone or its PGN is destination specific; otherwise it is the empty frame.
  pub construct_frame-encode :
      (port size : ℕ) (buffer : List ℕ)
      → size ≤ 8
      → d ≢ 0xFE
      → construct_frame port s d pgn p (some buffer) size ≡ (
          if d == 0xFF || ltb (pgn / 2 ^ 8 % 2 ^ 8) 240
          then record {
            identifier = encode extended pgn p d s;
            channel = u8 port;
            bytes = take size buffer;
            is_extended = true;
          }
          else empty_frame)
  unfolding construct_frame
  construct_frame-encode port size buffer h ne =
      elim (Bool-cases (d == 0xFF || ltb (pgn / 2 ^ 8 % 2 ^ 8) 240)) [
        | inl r ↦
            let (i, small) = frame_identifier-encode r in
            ground (arith, i, small, r, bit_and_ones 29 (encode extended pgn p d s))
        | inr r ↦ ground (arith, frame_identifier_refused r, r)
      ]
