-- ===== src/Base/Bits.antt =====
-- Bit fields as arithmetic: `|` of disjoint fields is a sum, `&` with a low mask a remainder.
use Prim.Native.Nat.{
  ℕ, zero, suc, ◌+◌, ◌-◌, ◌*◌, ◌/◌, ◌%◌, ◌^◌, ◌≤◌, ◌<◌, min, max, bit_and, bit_or, digits, bitwise,
  bit_and-bitwise, bit_or-bitwise,
}
use mathlib.Core.Path.{◌≡◌, refl, ap}
use native.Mathlib.Omega.{arith}
use native.Mathlib.Nat.{pow-suc, one-le-pow, le_refl}

-- `x << k` and `x >> k`, where nothing is shifted out.
abbrev pub shl : ℕ → ℕ → ℕ
shl x k = x * 2 ^ k

abbrev pub shr : ℕ → ℕ → ℕ
shr x k = x / 2 ^ k

module _ (z : ℕ → ℕ) (f : ℕ → ℕ → ℕ) where
  -- The fuel of the digit recursion does not matter once it covers the first number.
  fuel_irrelevant : (m n : ℕ) (x y : ℕ) → x ≤ m → x ≤ n → digits z f m x y ≡ digits z f n x y
  fuel_irrelevant zero zero x y p q = refl
  fuel_irrelevant zero (suc n) zero y p q = refl
  fuel_irrelevant zero (suc n) (suc x) y p q = absurd (omega arith)
  fuel_irrelevant (suc m) zero zero y p q = refl
  fuel_irrelevant (suc m) zero (suc x) y p q = absurd (omega arith)
  fuel_irrelevant (suc m) (suc n) zero y p q = refl
  fuel_irrelevant (suc m) (suc n) (suc x) y p q =
      rw (fuel_irrelevant m n (suc x / 2) (y / 2) (omega arith) (omega arith))

  lowest_digit :
      (x y : ℕ)
      → bitwise z f (suc x) y ≡ bitwise z f (suc x / 2) (y / 2) * 2 + f (suc x % 2) (y % 2)
  lowest_digit x y =
      omega (arith, fuel_irrelevant x (suc x / 2) (suc x / 2) (y / 2) (omega arith) (le_refl _))

or_digit : (x y : ℕ) → bit_or x y ≡ bit_or (x / 2) (y / 2) * 2 + max (x % 2) (y % 2)
or_digit zero y = simp bit_or-bitwise (omega arith)
or_digit (suc x) y = simp bit_or-bitwise (lowest_digit (λ b. b) max x y)

and_digit : (x y : ℕ) → bit_and x y ≡ bit_and (x / 2) (y / 2) * 2 + min (x % 2) (y % 2)
and_digit zero y = simp bit_and-bitwise (omega arith)
and_digit (suc x) y = simp bit_and-bitwise (lowest_digit (λ b. 0) min x y)

or_zero_below : (n x : ℕ) → x ≤ n → bit_or x 0 ≡ x
or_zero_below n zero h = refl
or_zero_below zero (suc x) h = absurd (omega arith)
or_zero_below (suc n) (suc x) h =
    omega (arith, or_digit (suc x) 0, or_zero_below n (suc x / 2) (omega arith))

and_zero_below : (n x : ℕ) → x ≤ n → bit_and x 0 ≡ 0
and_zero_below n zero h = refl
and_zero_below zero (suc x) h = absurd (omega arith)
and_zero_below (suc n) (suc x) h =
    omega (arith, and_digit (suc x) 0, and_zero_below n (suc x / 2) (omega arith))

double_pow : (q k : ℕ) → q * 2 ^ suc k ≡ 2 * (q * 2 ^ k)
double_pow q k = omega (arith, ap (λ (t : ℕ). q * t) (pow-suc 2 k))

-- `(hi << k) | lo` is a sum when `lo` fits in `k` bits.
pub bit_or-shl : (k hi lo : ℕ) → lo < 2 ^ k → bit_or (shl hi k) lo ≡ hi * 2 ^ k + lo
bit_or-shl zero hi lo h = ground (arith, or_zero_below hi hi)
bit_or-shl (suc k) hi lo h =
    ground (arith, or_digit (hi * 2 ^ suc k) lo, double_pow hi k, bit_or-shl k hi (lo / 2))

mask_of_fields : (k hi lo : ℕ) → lo < 2 ^ k → bit_and (hi * 2 ^ k + lo) (2 ^ k - 1) ≡ lo
mask_of_fields zero hi lo h =
    rw (and_zero_below (hi * 1 + lo) (hi * 1 + lo) (le_refl _)) (omega arith)
mask_of_fields (suc k) hi lo h = ground (
  arith,
  and_digit (hi * 2 ^ suc k + lo) (2 ^ suc k - 1),
  double_pow hi k,
  pow-suc 2 k,
  mask_of_fields k hi (lo / 2),
)

-- `x & (2^k - 1)` is the remainder by `2^k`.
pub bit_and-mask : (k x : ℕ) → bit_and x (2 ^ k - 1) ≡ x % 2 ^ k
bit_and-mask k x = ground (arith, one-le-pow k 2, mask_of_fields k (x / 2 ^ k) (x % 2 ^ k))
