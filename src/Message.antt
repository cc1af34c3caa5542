-- ===== src/Message.antt =====
-- isobus/src/can_message.cpp and isobus/src/can_managed_message.cpp. A control function that a
-- message points to is a number, and a null pointer is `none`. `vector::at` throws on an index out
-- of range; the model returns `none` there. The class CANMessage has no `callback_message_size`:
-- for it the field is 0 and unread.
pub mod Bytes
use iso11783_can_stack.Prelude.{
  ℕ, suc, ◌+◌, ◌-◌, ◌^◌, Bool, Option, some, none, List, [], ◌∷◌, ◌++◌, bit_and, bit_or, leb, ltb,
  ◌==◌, if◌then◌else◌, u8, u16, u32, u64, ◌<<◌, get_elem?, length, set, take, replicate,
}
use iso11783_can_stack.Identifier.{CanIdentifier}

pub record CanMessage : Type 0 where
  pub bytes : List ℕ
  pub source : Option ℕ
  pub destination : Option ℕ
  pub identifier : CanIdentifier
  pub port : ℕ
  pub callback_message_size : ℕ

pub data ByteFormat : Type 0 where
  little_endian big_endian : ByteFormat

-- The failure that `at` reports ends the caller.
infixl 5 ◌>>=◌
abbrev pub ◌>>=◌ {ℓ κ} : {A : Type ℓ} {B : Type κ} → Option A → (A → Option B) → Option B
none >>= f = none
some a >>= f = f a

-- The constructor; the unique id, a number for statistics, is not modelled.
unfoldable pub new : ℕ → CanMessage
new port = record {
  bytes = [];
  source = none;
  destination = none;
  identifier = 0;
  port = port;
  callback_message_size = 0;
}

unfoldable pub get_uint8_at : CanMessage → ℕ → Option ℕ
get_uint8_at m i = get_elem? m.bytes i

unfoldable pub get_uint16_at : CanMessage → ℕ → ByteFormat → Option ℕ
get_uint16_at m i little_endian = do
  a ← get_elem? m.bytes i
  b ← get_elem? m.bytes (i + 1)
  some (u16 (bit_or a (b << 8)))
get_uint16_at m i big_endian = do
  a ← get_elem? m.bytes i
  b ← get_elem? m.bytes (i + 1)
  some (u16 (bit_or (a << 8) b))

unfoldable pub get_uint24_at : CanMessage → ℕ → ByteFormat → Option ℕ
get_uint24_at m i little_endian = do
  a ← get_elem? m.bytes i
  b ← get_elem? m.bytes (i + 1)
  c ← get_elem? m.bytes (i + 2)
  some (bit_or (bit_or a (b << 8)) (c << 16))
get_uint24_at m i big_endian = do
  a ← get_elem? m.bytes (i + 2)
  b ← get_elem? m.bytes (i + 1)
  c ← get_elem? m.bytes (i + 2)
  some (bit_or (bit_or (a << 16) (b << 8)) c)

unfoldable pub get_uint32_at : CanMessage → ℕ → ByteFormat → Option ℕ
get_uint32_at m i little_endian = do
  a ← get_elem? m.bytes i
  b ← get_elem? m.bytes (i + 1)
  c ← get_elem? m.bytes (i + 2)
  d ← get_elem? m.bytes (i + 3)
  some (u32 (bit_or (bit_or (bit_or a (b << 8)) (c << 16)) (d << 24)))
get_uint32_at m i big_endian = do
  a ← get_elem? m.bytes i
  b ← get_elem? m.bytes (i + 1)
  c ← get_elem? m.bytes (i + 2)
  d ← get_elem? m.bytes (i + 3)
  some (u32 (bit_or (bit_or (bit_or (a << 24) (b << 16)) (c << 8)) d))

unfoldable pub get_uint64_at : CanMessage → ℕ → ByteFormat → Option ℕ
get_uint64_at m i little_endian = do
  a ← get_elem? m.bytes i
  b ← get_elem? m.bytes (i + 1)
  c ← get_elem? m.bytes (i + 2)
  d ← get_elem? m.bytes (i + 3)
  e ← get_elem? m.bytes (i + 4)
  f ← get_elem? m.bytes (i + 5)
  g ← get_elem? m.bytes (i + 6)
  h ← get_elem? m.bytes (i + 7)
  let low = bit_or (bit_or (bit_or a (b << 8)) (c << 16)) (d << 24)
  some (u64 (bit_or (bit_or (bit_or (bit_or low (e << 32)) (f << 40)) (g << 48)) (h << 56)))
get_uint64_at m i big_endian = do
  a ← get_elem? m.bytes i
  b ← get_elem? m.bytes (i + 1)
  c ← get_elem? m.bytes (i + 2)
  d ← get_elem? m.bytes (i + 3)
  e ← get_elem? m.bytes (i + 4)
  f ← get_elem? m.bytes (i + 5)
  g ← get_elem? m.bytes (i + 6)
  h ← get_elem? m.bytes (i + 7)
  let high = bit_or (bit_or (bit_or (a << 56) (b << 48)) (c << 40)) (d << 32)
  some (u64 (bit_or (bit_or (bit_or (bit_or high (e << 24)) (f << 16)) (g << 8)) h))

-- The outer `none` is a failed assertion, which asks that the bits lie in the byte.
unfoldable pub get_bool_at : CanMessage → ℕ → ℕ → ℕ → Option Bool
unfolding get_uint8_at
get_bool_at m byte_index bit_index count =
    if leb (count + bit_index) 8
    then (do
      byte ← get_uint8_at m byte_index
      let mask = u8 ((1 << count) - 1 << bit_index)
      some (bit_and byte mask == mask))
    else none

-- CANLibManagedMessage. A null buffer is `none`: only its length is kept.
unfoldable pub set_data : Option (List ℕ) → ℕ → CanMessage → CanMessage
set_data none len m = record m { callback_message_size = len }
set_data (some buffer) len m = record m { bytes = m.bytes ++ take len buffer }

unfoldable pub set_data_byte : ℕ → ℕ → CanMessage → CanMessage
set_data_byte byte position m =
    if ltb position (length m.bytes) then record m { bytes = set m.bytes position byte } else m

-- The loops that set one byte after the other, from an index of 32 bits on.
unfoldable pub write_bytes : List ℕ → ℕ → CanMessage → CanMessage
write_bytes [] index m = m
write_bytes (b ∷ bs) index m = write_bytes bs (suc index) (set_data_byte b (u32 index) m)

-- vector::resize drops bytes at the end, or adds bytes 0 there.
unfoldable pub set_data_size : ℕ → CanMessage → CanMessage
set_data_size len m = record m { bytes = take len (m.bytes ++ replicate (len - length m.bytes) 0) }

unfoldable pub get_data_length : CanMessage → ℕ
get_data_length m = if 0 == m.callback_message_size then length m.bytes else m.callback_message_size
