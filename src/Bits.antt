-- ===== src/Bits.antt =====
-- `&` and `|` as arithmetic, at every width: both act on each part of a split word alone.
use Prim.Native.Nat.{min, max, digits, bit_and-bitwise, bit_or-bitwise}
use native.Mathlib.Nat.{pow-suc, one-le-pow, mod-eq_of_lt}
use iso11783_can_stack.Prelude.{
  ℕ, zero, suc, ◌+◌, ◌-◌, ◌*◌, ◌/◌, ◌%◌, ◌^◌, ◌≤◌, ◌<◌, bit_and, bit_or, ◌≡◌, refl, ap, arith,
}

-- The digit recursion behind both operations gives one result on all fuels that suffice.
module _ (rest : ℕ → ℕ) (digit : ℕ → ℕ → ℕ) where
  any_fuel : (n m a b : ℕ) → a ≤ n → a ≤ m → digits rest digit n a b ≡ digits rest digit m a b
  any_fuel (suc n) (suc m) (suc a) b h k =
      rw (any_fuel n m (suc a / 2) (b / 2) (omega arith) (omega arith))
  any_fuel zero zero zero b h k = refl
  any_fuel zero (suc m) zero b h k = refl
  any_fuel (suc n) zero zero b h k = refl
  any_fuel (suc n) (suc m) zero b h k = refl
  any_fuel zero m (suc a) b h k = absurd (omega arith)
  any_fuel (suc n) zero (suc a) b h k = absurd (omega arith)

-- The lowest bit.
bit_and_low : (a b : ℕ) → bit_and a b ≡ 2 * bit_and (a / 2) (b / 2) + min (a % 2) (b % 2)
bit_and_low zero b = omega (arith, bit_and-bitwise 0 b, bit_and-bitwise 0 (b / 2))
bit_and_low (suc a) b = omega (
  arith,
  bit_and-bitwise (suc a) b,
  bit_and-bitwise (suc a / 2) (b / 2),
  any_fuel (λ y. 0) min a (suc a / 2) (suc a / 2) (b / 2) (omega arith) (omega arith),
)

bit_or_low : (a b : ℕ) → bit_or a b ≡ 2 * bit_or (a / 2) (b / 2) + max (a % 2) (b % 2)
bit_or_low zero b = omega (arith, bit_or-bitwise 0 b, bit_or-bitwise 0 (b / 2))
bit_or_low (suc a) b = omega (
  arith,
  bit_or-bitwise (suc a) b,
  bit_or-bitwise (suc a / 2) (b / 2),
  any_fuel (λ y. y) max a (suc a / 2) (suc a / 2) (b / 2) (omega arith) (omega arith),
)

double_pow : (q k : ℕ) → q * 2 ^ suc k ≡ 2 * (q * 2 ^ k)
double_pow q k = omega (arith, ap (λ (t : ℕ). q * t) (pow-suc 2 k))

-- Both operations act on the high part and on the low `k` bits alone.
pub bit_and_split :
    (k a b c d : ℕ)
    → b < 2 ^ k
    → d < 2 ^ k
    → bit_and (a * 2 ^ k + b) (c * 2 ^ k + d) ≡ bit_and a c * 2 ^ k + bit_and b d
bit_and_split zero a b c d h h' =
    let b0 : b ≡ 0 = omega arith in let d0 : d ≡ 0 = omega arith in ground arith
bit_and_split (suc k) a b c d h h' = ground (
  arith,
  bit_and_low (a * 2 ^ suc k + b) (c * 2 ^ suc k + d),
  bit_and_low b d,
  double_pow a k,
  double_pow c k,
  double_pow (bit_and a c) k,
  pow-suc 2 k,
  bit_and_split k a (b / 2) c (d / 2) (omega (arith, pow-suc 2 k)) (omega (arith, pow-suc 2 k)),
)

pub bit_or_split :
    (k a b c d : ℕ)
    → b < 2 ^ k
    → d < 2 ^ k
    → bit_or (a * 2 ^ k + b) (c * 2 ^ k + d) ≡ bit_or a c * 2 ^ k + bit_or b d
bit_or_split zero a b c d h h' =
    let b0 : b ≡ 0 = omega arith in let d0 : d ≡ 0 = omega arith in ground arith
bit_or_split (suc k) a b c d h h' = ground (
  arith,
  bit_or_low (a * 2 ^ suc k + b) (c * 2 ^ suc k + d),
  bit_or_low b d,
  double_pow a k,
  double_pow c k,
  double_pow (bit_or a c) k,
  pow-suc 2 k,
  bit_or_split k a (b / 2) c (d / 2) (omega (arith, pow-suc 2 k)) (omega (arith, pow-suc 2 k)),
)

-- What one side leaves of the other: nothing, all of it, or its low `k` bits.
bit_and-zero_below : (n a : ℕ) → a ≤ n → bit_and a 0 ≡ 0
bit_and-zero_below n zero h = refl
bit_and-zero_below zero (suc a) h = absurd (omega arith)
bit_and-zero_below (suc n) (suc a) h =
    omega (arith, bit_and_low (suc a) 0, bit_and-zero_below n (suc a / 2) (omega arith))

pub bit_and-zero : (a : ℕ) → bit_and a 0 ≡ 0
bit_and-zero a = bit_and-zero_below a a (omega arith)

bit_or-zero_below : (n a : ℕ) → a ≤ n → bit_or a 0 ≡ a
bit_or-zero_below n zero h = refl
bit_or-zero_below zero (suc a) h = absurd (omega arith)
bit_or-zero_below (suc n) (suc a) h =
    omega (arith, bit_or_low (suc a) 0, bit_or-zero_below n (suc a / 2) (omega arith))

pub bit_or-zero : (a : ℕ) → bit_or a 0 ≡ a
bit_or-zero a = bit_or-zero_below a a (omega arith)

pub zero-bit_and : (b : ℕ) → bit_and 0 b ≡ 0
zero-bit_and b = bit_and-bitwise 0 b

pub zero-bit_or : (b : ℕ) → bit_or 0 b ≡ b
zero-bit_or b = bit_or-bitwise 0 b

bit_and_comm_below : (n a b : ℕ) → a ≤ n → bit_and a b ≡ bit_and b a
bit_and_comm_below n zero b h = omega (arith, zero-bit_and b, bit_and-zero b)
bit_and_comm_below zero (suc a) b h = absurd (omega arith)
bit_and_comm_below (suc n) (suc a) b h = omega (
  arith,
  bit_and_low (suc a) b,
  bit_and_low b (suc a),
  bit_and_comm_below n (suc a / 2) (b / 2) (omega arith),
)

pub bit_and_comm : (a b : ℕ) → bit_and a b ≡ bit_and b a
bit_and_comm a b = bit_and_comm_below a a b (omega arith)

-- Words whose set bits do not meet: `|` is `+`.
pub bit_or_disjoint : (k a b : ℕ) → b < 2 ^ k → bit_or (a * 2 ^ k) b ≡ a * 2 ^ k + b
bit_or_disjoint k a b h =
    let split : bit_or (a * 2 ^ k + 0) (0 * 2 ^ k + b) ≡ bit_or a 0 * 2 ^ k + bit_or 0 b =
      bit_or_split k a 0 0 b (one-le-pow k 2 (omega arith)) h in
    ground (arith, split, bit_or-zero a, zero-bit_or b)

pub bit_or_above : (k a b : ℕ) → b < 2 ^ k → bit_or b (a * 2 ^ k) ≡ a * 2 ^ k + b
bit_or_above k a b h =
    let split : bit_or (0 * 2 ^ k + b) (a * 2 ^ k + 0) ≡ bit_or 0 a * 2 ^ k + bit_or b 0 =
      bit_or_split k 0 b a 0 h (one-le-pow k 2 (omega arith)) in
    ground (arith, split, zero-bit_or a, bit_or-zero b)

-- A mask of `k` ones.
-- Words of `k` bits are joined to one.
pub bit_or-lt : (k a b : ℕ) → a < 2 ^ k → b < 2 ^ k → bit_or a b < 2 ^ k
bit_or-lt zero a b ha hb =
    let a0 : a ≡ 0 = omega arith in
    let b0 : b ≡ 0 = omega arith in ground (arith, a0, b0, bit_or-zero 0)
bit_or-lt (suc k) a b ha hb = omega (
  arith,
  bit_or_low a b,
  pow-suc 2 k,
  bit_or-lt k (a / 2) (b / 2) (omega (arith, pow-suc 2 k)) (omega (arith, pow-suc 2 k)),
)

bit_and_ones_below : (k r : ℕ) → r < 2 ^ k → bit_and r (2 ^ k - 1) ≡ r
bit_and_ones_below zero r h = let r0 : r ≡ 0 = omega arith in ground arith
bit_and_ones_below (suc k) r h = ground (
  arith,
  bit_and_low r (2 ^ suc k - 1),
  pow-suc 2 k,
  one-le-pow k 2,
  bit_and_ones_below k (r / 2) (omega (arith, pow-suc 2 k)),
)

pub bit_and_ones : (k a : ℕ) → bit_and a (2 ^ k - 1) ≡ a % 2 ^ k
bit_and_ones k a =
    let pos : 0 < 2 ^ k = one-le-pow k 2 (omega arith) in
    let split : bit_and (a / 2 ^ k * 2 ^ k + a % 2 ^ k) (0 * 2 ^ k + (2 ^ k - 1))
        ≡ bit_and (a / 2 ^ k) 0 * 2 ^ k + bit_and (a % 2 ^ k) (2 ^ k - 1) =
      bit_and_split k (a / 2 ^ k) (a % 2 ^ k) 0 (2 ^ k - 1) (grind arith) (omega arith) in
    ground (arith, split, bit_and-zero (a / 2 ^ k), bit_and_ones_below k (a % 2 ^ k) (omega arith))

-- `x & (ones << lo)` keeps the field of `w` bits at `lo`.
pub bit_and_field : (lo w x : ℕ) → bit_and x ((2 ^ w - 1) * 2 ^ lo) ≡ x / 2 ^ lo % 2 ^ w * 2 ^ lo
bit_and_field lo w x =
    let pos : 0 < 2 ^ lo = one-le-pow lo 2 (omega arith) in
    let split : bit_and (x / 2 ^ lo * 2 ^ lo + x % 2 ^ lo) ((2 ^ w - 1) * 2 ^ lo + 0)
        ≡ bit_and (x / 2 ^ lo) (2 ^ w - 1) * 2 ^ lo + bit_and (x % 2 ^ lo) 0 =
      bit_and_split lo (x / 2 ^ lo) (x % 2 ^ lo) (2 ^ w - 1) 0 (omega arith) pos in
    ground (arith, split, bit_and-zero (x % 2 ^ lo), bit_and_ones w (x / 2 ^ lo))

-- `(x & ~(ones << lo)) | (v << lo)` writes the field; `m` bounds what stands above it.
pub replace_field :
    (m w lo x v : ℕ)
    → x / 2 ^ lo / 2 ^ w < 2 ^ m
    → v < 2 ^ w
    → bit_or (bit_and x ((2 ^ m - 1) * 2 ^ w * 2 ^ lo + (2 ^ lo - 1))) (v * 2 ^ lo)
      ≡ (x / 2 ^ lo / 2 ^ w * 2 ^ w + v) * 2 ^ lo + x % 2 ^ lo
replace_field m w lo x v h hv =
    let pos : 0 < 2 ^ lo = one-le-pow lo 2 (omega arith) in
    let high = x / 2 ^ lo in
    let low = x % 2 ^ lo in
    let kept = high / 2 ^ w * 2 ^ w in
    let split : bit_and (high * 2 ^ lo + low) ((2 ^ m - 1) * 2 ^ w * 2 ^ lo + (2 ^ lo - 1))
        ≡ bit_and high ((2 ^ m - 1) * 2 ^ w) * 2 ^ lo + bit_and low (2 ^ lo - 1) =
      bit_and_split lo high low ((2 ^ m - 1) * 2 ^ w) (2 ^ lo - 1) (omega arith) (omega arith) in
    let cleared : bit_and high ((2 ^ m - 1) * 2 ^ w) ≡ kept =
      ground (arith, bit_and_field w m high, mod-eq_of_lt h) in
    let written : bit_or (kept * 2 ^ lo + low) (v * 2 ^ lo + 0)
        ≡ bit_or kept v * 2 ^ lo + bit_or low 0 =
      bit_or_split lo kept low v 0 (omega arith) pos in
    ground (
      arith,
      split,
      cleared,
      bit_and_ones_below lo low (omega arith),
      written,
      bit_or-zero low,
      bit_or_disjoint w (high / 2 ^ w) v hv,
    )
