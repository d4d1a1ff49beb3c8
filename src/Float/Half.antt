-- ===== src/Float/Half.antt =====
-- Fixed-point numbers in steps of one half: a concrete arithmetic for the tests.
use duckdb_cog.Base.{
  ℕ, zero, suc, ◌+◌, ◌-◌, ◌*◌, ◌/◌, ◌≤◌, ◌≡◌, refl, arith, ◌&&◌, true, false, none, if◌then◌else◌,
}
use duckdb_cog.Base.Int.{ℤ, pos, negsuc, sub_ℕ, ◌+ℤ◌, ◌-ℤ◌, ◌*ℤ◌, ltb_ℤ, leb_ℤ}
use duckdb_cog.Float.{Float, OrderLaws}

abbrev pub halve : ℤ → ℤ
halve (pos n) = pos (n / 2)
halve (negsuc n) = negsuc (n / 2)

abbrev pub div_half : ℤ → ℤ → ℤ
div_half a (pos zero) = pos 0
div_half a (negsuc m) = pos 0
div_half (pos n) (pos (suc m)) = pos (2 * n / suc m)
div_half (negsuc n) (pos (suc m)) = negsuc ((2 * suc n + m) / suc m - 1)

abbrev floor_half : ℤ → ℤ
floor_half (pos n) = pos (n / 2 * 2)
floor_half (negsuc n) = negsuc ((n + 2) / 2 * 2 - 1)

abbrev ceil_half : ℤ → ℤ
ceil_half (pos n) = pos ((n + 1) / 2 * 2)
ceil_half (negsuc n) = sub_ℕ 0 ((n + 1) / 2 * 2)

abbrev to_nat_half : ℤ → ℕ
to_nat_half (pos n) = n / 2
to_nat_half (negsuc n) = 0

abbrev to_int_half : ℤ → ℤ
to_int_half (pos n) = pos (n / 2)
to_int_half (negsuc n) = sub_ℕ 0 ((n + 1) / 2)

instance unfoldable pub half_float : Float ℤ
unfolding ◌+ℤ◌ ◌-ℤ◌ ◌*ℤ◌
half_float = record {
  of_nat = λ n. pos (2 * n);
  of_int = λ i. i +ℤ i;
  half = pos 1;
  nan = pos 0;
  add = ◌+ℤ◌;
  sub = ◌-ℤ◌;
  mul = λ a b. halve (a *ℤ b);
  div = div_half;
  neg = λ a. pos 0 -ℤ a;
  floor = floor_half;
  ceil = ceil_half;
  fmin = λ a b. if ltb_ℤ a b then a else b;
  fmax = λ a b. if ltb_ℤ a b then b else a;
  lt = ltb_ℤ;
  le = leb_ℤ;
  eq = λ a b. leb_ℤ a b && leb_ℤ b a;
  is_finite = λ a. true;
  is_nan = λ a. false;
  to_nat = to_nat_half;
  to_int = to_int_half;
  parse = λ s. none;
}

to_nat_half_mono : (a b : ℤ) → ltb_ℤ b a ≡ false → to_nat_half a ≤ to_nat_half b
to_nat_half_mono (pos n) (pos m) h = ground arith
to_nat_half_mono (negsuc n) b h = omega arith
to_nat_half_mono (pos n) (negsuc m) h = ground arith

pub half_laws : OrderLaws half_float
unfolding half_float
half_laws = record {
  not_lt-to_nat = λ a b h u v. to_nat_half_mono a b h;
  nan-fmax = λ a b u. refl;
  nan-fmin = λ a b u. refl;
  fmin-le_right = λ a b u. ground arith;
  fmax-ge_right = λ a b u. ground arith;
  not_lt_trans = λ a b c u v w h h'. ground arith;
  nan-of_nat = λ n. refl;
  nan-pred = λ n. refl;
  to_nat-pred = λ n small. ground arith;
  pred_zero-lt = refl;
}
