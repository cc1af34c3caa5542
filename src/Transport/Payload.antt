-- ===== src/Transport/Payload.antt =====
-- The bytes of a message, cut into packets by the sender and copied back by the receiver.
use iso11783_can_stack.Prelude.{
  u32, ◌%◌, take, replicate, ℕ, zero, suc, ◌+◌, ◌-◌, ◌^◌, ◌≤◌, ◌<◌, ◌≡◌, refl, ap, ◌∙◌, ◌&&◌, some,
  none, List, [], ◌∷◌, ◌==◌, leb, ltb, if◌then◌else◌, u16, arith, get_elem?, get_or, set, length,
  length-set, ◌⊎◌, inl, inr, dec_lt,
}
use iso11783_can_stack.Message.{CanMessage, set_data_byte, write_bytes}
use iso11783_can_stack.Transport.Receive.{copy_payload}
use iso11783_can_stack.Transport.Transmit.{payload_from}

module _ {ℓ} {A : Type ℓ} where
  pub get_elem?-set :
      (xs : List A) (i : ℕ) (v : A) (j : ℕ)
      → get_elem? (set xs i v) j ≡ (if i == j && ltb j (length xs) then some v else get_elem? xs j)
  get_elem?-set [] i v j = ground arith
  get_elem?-set (x ∷ xs) zero v zero = ground arith
  get_elem?-set (x ∷ xs) zero v (suc j) = ground arith
  get_elem?-set (x ∷ xs) (suc i) v zero = ground arith
  get_elem?-set (x ∷ xs) (suc i) v (suc j) = ground (arith, get_elem?-set xs i v j)

  pub get_elem?_past : (xs : List A) (j : ℕ) → length xs ≤ j → get_elem? xs j ≡ none
  get_elem?_past [] j h = refl
  get_elem?_past (x ∷ xs) zero h = absurd (omega arith)
  get_elem?_past (x ∷ xs) (suc j) h = get_elem?_past xs j (omega arith)

  pub get_elem?-get_or :
      (xs : List A) (j : ℕ) (d : A) → j < length xs → get_elem? xs j ≡ some (get_or xs j d)
  get_elem?-get_or [] j d h = absurd (omega arith)
  get_elem?-get_or (x ∷ xs) zero d h = refl
  get_elem?-get_or (x ∷ xs) (suc j) d h = get_elem?-get_or xs j d (omega arith)

  -- Lists of one length with the same elements are equal.
  pub list_ext :
      (xs ys : List A)
      → length xs ≡ length ys
      → ((j : ℕ) → j < length ys → get_elem? xs j ≡ get_elem? ys j)
      → xs ≡ ys
  list_ext [] [] e h = refl
  list_ext [] (y ∷ ys) e h = absurd (omega arith)
  list_ext (x ∷ xs) [] e h = absurd (omega arith)
  list_ext (x ∷ xs) (y ∷ ys) e h =
      let head : some x ≡ some y = h 0 (omega arith) in
      let rest = list_ext xs ys (omega arith) (λ j k. h (suc j) (omega arith)) in cc

pub get_elem?-cons :
    (b : ℕ) (bs : List ℕ) (p j : ℕ)
    → ((p < j) × (get_elem? (b ∷ bs) (j - p) ≡ get_elem? bs (j - (p + 1))))
      ⊎ ((j ≤ p) × (get_elem? (b ∷ bs) (j - p) ≡ some b))
get_elem?-cons b bs p j = elim (dec_lt p j) [
  | yes h ↦ let e : j - p ≡ suc (j - (p + 1)) = omega arith in inl (h, ap (get_elem? (b ∷ bs)) e)
  | no h ↦ let e : j - p ≡ 0 = omega arith in inr (omega arith, ap (get_elem? (b ∷ bs)) e)
]

-- What the receiver's copy loop leaves at each place.
pub copy_payload-bytes :
    (bs : List ℕ) (p : ℕ) (m : CanMessage) (j : ℕ)
    → p + length bs < 2 ^ 16
    → get_elem? (copy_payload bs p m).bytes j ≡ (
        if leb p j && ltb j (p + length bs) && ltb j (length m.bytes)
        then get_elem? bs (j - p)
        else get_elem? m.bytes j)
unfolding copy_payload set_data_byte
copy_payload-bytes [] p m j h = ground arith
copy_payload-bytes (b ∷ bs) p m j h =
    let rest = copy_payload-bytes bs (p + 1) (set_data_byte b (u16 p) m) j (omega arith) in
    let same = length-set m.bytes (u16 p) b in
    let here = get_elem?-set m.bytes (u16 p) b j in
    elim (get_elem?-cons b bs p j) [
      | inl e ↦ ground (arith, rest, same, here, e)
      | inr e ↦ ground (arith, rest, same, here, e)
    ]

pub length-copy_payload :
    (bs : List ℕ) (p : ℕ) (m : CanMessage) → length (copy_payload bs p m).bytes ≡ length m.bytes
unfolding copy_payload set_data_byte
length-copy_payload [] p m = refl
length-copy_payload (b ∷ bs) p m =
    length-copy_payload bs (p + 1) (set_data_byte b (u16 p) m)
    ∙ ground (arith, length-set m.bytes (u16 p) b)

-- The copy loop changes nothing but the bytes.
pub copy_payload-fields :
    (bs : List ℕ) (p : ℕ) (m : CanMessage)
    → copy_payload bs p m ≡ record m { bytes = (copy_payload bs p m).bytes }
unfolding copy_payload set_data_byte
copy_payload-fields [] p m = refl
copy_payload-fields (b ∷ bs) p m =
    ground (arith, copy_payload-fields bs (p + 1) (set_data_byte b (u16 p) m))

pub payload_from-bytes :
    (n p len : ℕ) (bs : List ℕ) (k : ℕ)
    → get_elem? (payload_from n p len bs) k
      ≡ (if ltb k n then some (if ltb (p + k) len then get_or bs (p + k) 0xFF else 0xFF) else none)
unfolding payload_from
payload_from-bytes zero p len bs k = ground arith
payload_from-bytes (suc n) p len bs zero = ground arith
payload_from-bytes (suc n) p len bs (suc k) = ground (arith, payload_from-bytes n (p + 1) len bs k)

pub length-payload_from : (n p len : ℕ) (bs : List ℕ) → length (payload_from n p len bs) ≡ n
unfolding payload_from
length-payload_from zero p len bs = refl
length-payload_from (suc n) p len bs = ap suc (length-payload_from n (p + 1) len bs)

-- What the loops over the bytes of a frame leave at each place.
pub write_bytes-bytes :
    (bs : List ℕ) (index q : ℕ) (m : CanMessage) (j : ℕ)
    → index % 2 ^ 32 ≡ q
    → q + length bs < 2 ^ 32
    → get_elem? (write_bytes bs index m).bytes j ≡ (
        if leb q j && ltb j (q + length bs) && ltb j (length m.bytes)
        then get_elem? bs (j - q)
        else get_elem? m.bytes j)
unfolding write_bytes set_data_byte
write_bytes-bytes [] index q m j e h = ground arith
write_bytes-bytes (b ∷ bs) index q m j e h =
    let rest =
      write_bytes-bytes bs (suc index) (q + 1) (set_data_byte b (u32 index) m) j (omega arith)
        (omega arith) in
    let same = length-set m.bytes q b in
    let here = get_elem?-set m.bytes q b j in
    elim (get_elem?-cons b bs q j) [
      | inl f ↦ ground (arith, rest, same, here, e, f)
      | inr f ↦ ground (arith, rest, same, here, e, f)
    ]

pub length-write_bytes :
    (bs : List ℕ) (index : ℕ) (m : CanMessage)
    → length (write_bytes bs index m).bytes ≡ length m.bytes
unfolding write_bytes set_data_byte
length-write_bytes [] index m = refl
length-write_bytes (b ∷ bs) index m =
    length-write_bytes bs (suc index) (set_data_byte b (u32 index) m)
    ∙ ground (arith, length-set m.bytes (u32 index) b)

pub write_bytes-fields :
    (bs : List ℕ) (index : ℕ) (m : CanMessage)
    → write_bytes bs index m ≡ record m { bytes = (write_bytes bs index m).bytes }
unfolding write_bytes set_data_byte
write_bytes-fields [] index m = refl
write_bytes-fields (b ∷ bs) index m =
    ground (arith, write_bytes-fields bs (suc index) (set_data_byte b (u32 index) m))

pub get_elem?-replicate :
    (n : ℕ) (a : ℕ) (j : ℕ) → get_elem? (replicate n a) j ≡ (if ltb j n then some a else none)
get_elem?-replicate zero a j = ground arith
get_elem?-replicate (suc n) a zero = ground arith
get_elem?-replicate (suc n) a (suc j) = ground (arith, get_elem?-replicate n a j)

pub take-replicate : (n : ℕ) (a : ℕ) → take n (replicate n a) ≡ replicate n a
take-replicate zero a = refl
take-replicate (suc n) a = ap (◌∷◌ a) (take-replicate n a)
