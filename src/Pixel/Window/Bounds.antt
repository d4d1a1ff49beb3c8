-- ===== src/Pixel/Window/Bounds.antt =====
-- The windows of `center_window` and the image, for floats with the order laws.
use duckdb_cog.Base.{
  ℕ, zero, suc, ◌^◌, ◌≤◌, ◌<◌, ◌≡◌, refl, sym, ◌∙◌, subst, arith, ◌||◌, Bool, true, false, Option,
  none, some, if◌then◌else◌,
}
use duckdb_cog.Float.{Float, OrderLaws, zero_f, one_f}
use duckdb_cog.Meta.{LevelMeta, Georef, Bbox}
use duckdb_cog.Pixel.{PixelWindow}
use duckdb_cog.Pixel.Window.{first_col, last_col, first_row, last_row, center_window}

-- Both intervals are nonempty and end inside the image.
pub record Inside (lv : LevelMeta) (w : PixelWindow) : Type 0 where
  pub cols : w.col_min ≤ w.col_max
  pub rows : w.row_min ≤ w.row_max
  pub col_inside : w.col_max < lv.image_width
  pub row_inside : w.row_max < lv.image_height

guarded_some :
    {A : Type 0} (b : Bool) (v w : A)
    → ◌≡◌ {A = Option A} (if b then none else some v) (some w)
    → (b ≡ false) × (v ≡ w)
guarded_some {A = A} true v w e = absurd (none_some e)
  where
    none_some : ◌≡◌ {A = Option A} none (some w) → ⊥
    none_some h = cc
guarded_some {A = A} false v w e = (refl, some_inj e)
  where
    some_inj : ◌≡◌ {A = Option A} (some v) (some w) → v ≡ w
    some_inj h = cc

module _ {F : Type 0} ⦃fl : Float F⦄ (laws : OrderLaws fl) where
  pred : ℕ → F
  pred n = fl.sub (fl.of_nat n) one_f

  -- One axis: clamped to 0 from below and to n - 1 from above, in order.
  clamp_ordered :
      (a b : F) (n : ℕ)
      → fl.lt (fl.fmin b (pred n)) (fl.fmax a zero_f) ≡ false
      → fl.to_nat (fl.fmax a zero_f) ≤ fl.to_nat (fl.fmin b (pred n))
  unfolding pred
  clamp_ordered a b n e =
      laws.not_lt-to_nat (fl.fmax a zero_f) (fl.fmin b (pred n)) e
        (laws.nan-fmax a zero_f (laws.nan-of_nat 0)) (laws.nan-fmin b (pred n) (laws.nan-pred n))

  nonempty :
      (a b : F)
      → fl.lt (fl.fmin b (pred 0)) (fl.fmax a zero_f) ≡ false
      → fl.lt (pred 0) zero_f ≡ false
  unfolding pred
  nonempty a b e =
      let low = laws.nan-fmax a zero_f (laws.nan-of_nat 0) in
      let high = laws.nan-fmin b (pred 0) (laws.nan-pred 0) in
      laws.not_lt_trans zero_f (fl.fmin b (pred 0)) (pred 0) (laws.nan-of_nat 0) high
        (laws.nan-pred 0)
        (laws.not_lt_trans zero_f (fl.fmax a zero_f) (fl.fmin b (pred 0)) (laws.nan-of_nat 0) low
          high (laws.fmax-ge_right a zero_f (laws.nan-of_nat 0)) e)
        (laws.fmin-le_right b (pred 0) (laws.nan-pred 0))

  clamp_inside :
      (a b : F) (n : ℕ)
      → n < 2 ^ 32
      → fl.lt (fl.fmin b (pred n)) (fl.fmax a zero_f) ≡ false
      → fl.to_nat (fl.fmin b (pred n)) < n
  unfolding pred
  clamp_inside a b zero small e =
      let off = nonempty a b e in let on = laws.pred_zero-lt in absurd (true_false (sym on ∙ off))
    where
      true_false : true ≡ false → ⊥
      true_false h = cc
  clamp_inside a b (suc n) small e =
      let le =
        laws.not_lt-to_nat (fl.fmin b (pred (suc n))) (pred (suc n))
          (laws.fmin-le_right b (pred (suc n)) (laws.nan-pred (suc n)))
          (laws.nan-fmin b (pred (suc n)) (laws.nan-pred (suc n))) (laws.nan-pred (suc n)) in
      let top = laws.to_nat-pred (suc n) small in omega arith

  or_false_left : (a b : Bool) → (a || b) ≡ false → a ≡ false
  or_false_left a b e = ground arith

  or_false_right : (a b : Bool) → (a || b) ≡ false → b ≡ false
  or_false_right a b e = ground arith

  window : F → F → F → F → LevelMeta → PixelWindow
  window c0 c1 r0 r1 lv = record {
    col_min = fl.to_nat (fl.fmax c0 zero_f);
    col_max = fl.to_nat (fl.fmin c1 (pred lv.image_width));
    row_min = fl.to_nat (fl.fmax r0 zero_f);
    row_max = fl.to_nat (fl.fmin r1 (pred lv.image_height));
  }

  window_empty : F → F → F → F → LevelMeta → Bool
  window_empty c0 c1 r0 r1 lv =
      fl.lt (fl.fmin c1 (pred lv.image_width)) (fl.fmax c0 zero_f)
      || fl.lt (fl.fmin r1 (pred lv.image_height)) (fl.fmax r0 zero_f)

  window-Inside :
      (c0 c1 r0 r1 : F) (lv : LevelMeta)
      → lv.image_width < 2 ^ 32
      → lv.image_height < 2 ^ 32
      → window_empty c0 c1 r0 r1 lv ≡ false
      → Inside lv (window c0 c1 r0 r1 lv)
  unfolding window window_empty
  window-Inside c0 c1 r0 r1 lv wide high e =
      let col = or_false_left (fl.lt (fl.fmin c1 (pred lv.image_width)) (fl.fmax c0 zero_f)) _ e in
      let row = or_false_right (fl.lt (fl.fmin c1 (pred lv.image_width)) (fl.fmax c0 zero_f)) _ e in
      record {
        cols = clamp_ordered c0 c1 lv.image_width col;
        rows = clamp_ordered r0 r1 lv.image_height row;
        col_inside = clamp_inside c0 c1 lv.image_width wide col;
        row_inside = clamp_inside r0 r1 lv.image_height high row;
      }

  -- For an image of 32-bit width and height and floats with the order laws: a window of
  -- `center_window` has a first column up to its last and a first row up to its last, and its last
  -- column and row are pixels of the image. The box and the georeference are arbitrary, NaN and
  -- zero pixel sizes included.
  pub center_window-Inside :
      (g : Georef F) (lv : LevelMeta) (b : Bbox F) (w : PixelWindow)
      → lv.image_width < 2 ^ 32
      → lv.image_height < 2 ^ 32
      → center_window g lv b ≡ some w
      → Inside lv w
  unfolding center_window first_col last_col first_row last_row pred window window_empty
  center_window-Inside g lv b w wide high e =
      let c0 = fl.ceil (fl.sub (fl.div (fl.sub b.xmin g.origin_x) g.pixel_x) fl.half) in
      let c1 = fl.floor (fl.sub (fl.div (fl.sub b.xmax g.origin_x) g.pixel_x) fl.half) in
      let r0 = fl.ceil (fl.sub (fl.div (fl.sub g.origin_y b.ymax) g.pixel_y) fl.half) in
      let r1 = fl.floor (fl.sub (fl.div (fl.sub g.origin_y b.ymin) g.pixel_y) fl.half) in
      let (some_pixel, same) =
        guarded_some (window_empty c0 c1 r0 r1 lv) (window c0 c1 r0 r1 lv) w e in
      subst (Inside lv) same (window-Inside c0 c1 r0 r1 lv wide high some_pixel)
