-- ===== src/Float.antt =====
-- The 64-bit floats of the source as an abstract type with the operations that the code applies.
-- The results of the arithmetic are left open: a theorem that needs more than the operations
-- names the laws of `OrderLaws`.
pub mod Half
use duckdb_cog.Base.{
  ℕ, ◌+◌, ◌-◌, ◌*◌, ◌^◌, ◌≤◌, ◌<◌, ◌≡◌, ◌⊎◌, Bool, true, false, List, Option, ◌&&◌,
}
use duckdb_cog.Base.Int.{ℤ}

pub record Float (F : Type 0) : Type 0 where
  -- `n as f64` of an unsigned and of a signed number.
  pub of_nat : ℕ → F
  pub of_int : ℤ → F
  pub half : F
  pub nan : F
  pub add : F → F → F
  pub sub : F → F → F
  pub mul : F → F → F
  pub div : F → F → F
  pub neg : F → F
  pub floor : F → F
  pub ceil : F → F
  -- `f64::min` and `f64::max`.
  pub fmin : F → F → F
  pub fmax : F → F → F
  -- `<`, `<=` and `==`.
  pub lt : F → F → Bool
  pub le : F → F → Bool
  pub eq : F → F → Bool
  pub is_finite : F → Bool
  pub is_nan : F → Bool
  -- `x as u64` and `x as i64`, which saturate.
  pub to_nat : F → ℕ
  pub to_int : F → ℤ
  -- `str::parse::<f64>` on the bytes of a text.
  pub parse : List ℕ → Option F

-- `a > b` and `a >= b` are `b < a` and `b <= a`, also where an operand is NaN.
module _ {F : Type 0} ⦃fl : Float F⦄ where
  abbrev pub zero_f : F
  zero_f = fl.of_nat 0

  abbrev pub one_f : F
  one_f = fl.of_nat 1

-- What IEEE 754 and Rust's casts say of the order: `max` returns a number if it is given one,
-- `min` does not exceed its second argument, casts are monotone on numbers and exact on the
-- integers of `u32`.
pub record OrderLaws {F : Type 0} (fl : Float F) : Type 0 where
  pub not_lt-to_nat :
      (a b : F)
      → fl.lt b a ≡ false
      → fl.is_nan a ≡ false
      → fl.is_nan b ≡ false
      → fl.to_nat a ≤ fl.to_nat b
  pub nan-fmax : (a b : F) → fl.is_nan b ≡ false → fl.is_nan (fl.fmax a b) ≡ false
  pub nan-fmin : (a b : F) → fl.is_nan b ≡ false → fl.is_nan (fl.fmin a b) ≡ false
  pub fmin-le_right : (a b : F) → fl.is_nan b ≡ false → fl.lt b (fl.fmin a b) ≡ false
  pub fmax-ge_right : (a b : F) → fl.is_nan b ≡ false → fl.lt (fl.fmax a b) b ≡ false
  pub not_lt_trans :
      (a b c : F)
      → fl.is_nan a ≡ false
      → fl.is_nan b ≡ false
      → fl.is_nan c ≡ false
      → fl.lt b a ≡ false
      → fl.lt c b ≡ false
      → fl.lt c a ≡ false
  pub nan-of_nat : (n : ℕ) → fl.is_nan (fl.of_nat n) ≡ false
  pub nan-pred : (n : ℕ) → fl.is_nan (fl.sub (fl.of_nat n) (fl.of_nat 1)) ≡ false
  pub to_nat-pred : (n : ℕ) → n < 2 ^ 32 → fl.to_nat (fl.sub (fl.of_nat n) (fl.of_nat 1)) ≡ n - 1
  pub pred_zero-lt : fl.lt (fl.sub (fl.of_nat 0) (fl.of_nat 1)) (fl.of_nat 0) ≡ true
