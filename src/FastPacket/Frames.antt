-- ===== src/FastPacket/Frames.antt =====
-- The frames that nmea2000_fast_packet_protocol.cpp cuts a message into.
use iso11783_can_stack.Prelude.{
  ℕ, zero, suc, ◌+◌, ◌*◌, ◌-◌, ◌%◌, ◌^◌, ◌≤◌, ◌<◌, ◌≡◌, refl, ◌++◌, List, [], ◌∷◌, u8, arith,
  get_or, length, take, drop, replicate, min, bit_and, bit_or,
}
use iso11783_can_stack.Bits.{bit_and_ones, bit_or_above}
use iso11783_can_stack.Transport.Transmit.{payload_from}

-- Frame `k` of a message: the counter and the sequence number, the length in the first frame, and
-- the payload, padded with 0xFF.
unfoldable pub fast_frame : List ℕ → ℕ → ℕ → List ℕ
fast_frame message sequence zero =
    sequence % 8 * 32 ∷ length message ∷ payload_from 6 0 (length message) message
fast_frame message sequence (suc k) =
    (suc k + sequence % 8 * 32) ∷ payload_from 7 (6 + 7 * k) (length message) message

pub counter_byte_lem :
    (k sequence : ℕ) → k < 32 → u8 (bit_or k (sequence * 2 ^ 5)) ≡ k + sequence % 8 * 32
counter_byte_lem k sequence h = omega (arith, bit_or_above 5 sequence k h)

-- The receiver reads the counter back.
pub frame_counter_lem : (k sequence : ℕ) → k < 32 → bit_and (k + sequence % 8 * 32) 0x1F ≡ k
frame_counter_lem k sequence h = omega (arith, bit_and_ones 5 (k + sequence % 8 * 32))

drop-cons :
    (bytes : List ℕ) (i : ℕ)
    → i < length bytes
    → drop i bytes ≡ get_or bytes i 0xFF ∷ drop (suc i) bytes
drop-cons [] i h = absurd (omega arith)
drop-cons (b ∷ bytes) zero h = refl
drop-cons (b ∷ bytes) (suc i) h = drop-cons bytes i (omega arith)

-- The bytes that are left, at most `n`, padded.
pub take-payload_from :
    (n m count i : ℕ) (bytes : List ℕ)
    → n ≤ m
    → count ≡ min n (length bytes - i)
    → take n (take count (drop i bytes) ++ replicate m 0xFF) ≡ payload_from n i (length bytes) bytes
unfolding payload_from
take-payload_from zero m count i bytes h e = refl
take-payload_from (suc n) zero count i bytes h e = absurd (omega arith)
take-payload_from (suc n) (suc m) zero i bytes h e =
    ground (arith, take-payload_from n m 0 (i + 1) bytes (omega arith) (omega arith))
take-payload_from (suc n) (suc m) (suc count) i bytes h e =
    let here = drop-cons bytes i (omega arith) in
    let rest = take-payload_from n (suc m) count (i + 1) bytes (omega arith) (omega arith) in
    ground (arith, here, rest)

-- Bytes of which there are enough.
pub take-drop-payload_from :
    (n i : ℕ) (bytes : List ℕ)
    → i + n ≤ length bytes
    → take n (drop i bytes) ≡ payload_from n i (length bytes) bytes
unfolding payload_from
take-drop-payload_from zero i bytes h = refl
take-drop-payload_from (suc n) i bytes h =
    ground
      (arith, drop-cons bytes i (omega arith), take-drop-payload_from n (i + 1) bytes (omega arith))
