-- ===== src/Pixel.antt =====
-- crates/engine/src/pixel.rs: samples of decoded tiles, pixel windows, level selection and the
-- aggregates. A failure is an error of the source or the panic of a map look-up that misses.
pub mod Window
pub mod Reader
pub mod Select
pub mod Tests
use duckdb_cog.Base.{
  ℕ, zero, suc, ◌+◌, ◌-◌, ◌*◌, ◌/◌, ◌%◌, ◌||◌, ◌&&◌, Bool, true, false, Option, none, some, List,
  [], ◌∷◌, Result, ok, err, ltb, leb, if◌then◌else◌, head?, get_elem?,
}
use duckdb_cog.Base.Int.{ℤ}
use duckdb_cog.Float.{Float, zero_f, one_f}
use duckdb_cog.Meta.{LevelMeta, Georef, CogMeta, Bbox, MetaError}

-- `TypedArray` of async-tiff; a single-precision sample is the double that equals it.
pub data TypedArray (F : Type 0) : Type 0 where
  bool_data : List Bool → TypedArray F
  uint_8 uint_16 uint_32 uint_64 : List ℕ → TypedArray F
  int_8 int_16 int_32 int_64 : List ℤ → TypedArray F
  float_32 float_64 : List F → TypedArray F

-- `Array`: the shape and the samples.
pub record Array (F : Type 0) : Type 0 where
  pub shape : ℕ × ℕ × ℕ
  pub samples : TypedArray F

-- `PlanarConfiguration`, with its unknown values.
pub data Planar : Type 0 where
  chunky planar unknown : Planar

-- The position of a sample, or none outside the shape.
unfoldable pub sample_index : ℕ × ℕ × ℕ → Planar → ℕ → ℕ → ℕ → Option ℕ
sample_index (d0, d1, d2) chunky row col band0 =
    if leb d0 row || leb d1 col || leb d2 band0 then none else some ((row * d1 + col) * d2 + band0)
sample_index (d0, d1, d2) planar row col band0 =
    if leb d0 band0 || leb d1 row || leb d2 col then none else some ((band0 * d1 + row) * d2 + col)
sample_index (d0, d1, d2) unknown row col band0 = none

module _ {F : Type 0} ⦃fl : Float F⦄ where
  of_bool : Bool → F
  of_bool b = fl.of_nat (if b then 1 else 0)

  convert {κ} : {X : Type κ} → (X → F) → Option X → Option F
  convert f none = none
  convert f (some x) = some (f x)

  sample_get : TypedArray F → ℕ → Option F
  unfolding convert of_bool
  sample_get (bool_data v) i = convert of_bool (get_elem? v i)
  sample_get (uint_8 v) i = convert fl.of_nat (get_elem? v i)
  sample_get (uint_16 v) i = convert fl.of_nat (get_elem? v i)
  sample_get (uint_32 v) i = convert fl.of_nat (get_elem? v i)
  sample_get (uint_64 v) i = convert fl.of_nat (get_elem? v i)
  sample_get (int_8 v) i = convert fl.of_int (get_elem? v i)
  sample_get (int_16 v) i = convert fl.of_int (get_elem? v i)
  sample_get (int_32 v) i = convert fl.of_int (get_elem? v i)
  sample_get (int_64 v) i = convert fl.of_int (get_elem? v i)
  sample_get (float_32 v) i = get_elem? v i
  sample_get (float_64 v) i = get_elem? v i

  unfoldable pub sample_array : Array F → Planar → ℕ → ℕ → ℕ → Option F
  unfolding sample_get
  sample_array array layout row col band0 = elim (sample_index array.shape layout row col band0) [
    | none ↦ none
    | some i ↦ sample_get array.samples i
  ]

  unfoldable pub apply_nodata : F → Option F → Option F
  apply_nodata value none = some value
  apply_nodata value (some nd) =
      if fl.eq value nd || (fl.is_nan nd && fl.is_nan value) then none else some value

  unfoldable pub normalized_difference : Option F → Option F → Option F
  normalized_difference none v2 = none
  normalized_difference (some v1) none = none
  normalized_difference (some v1) (some v2) =
      let sum = fl.add v1 v2 in if fl.eq sum zero_f then none else some (fl.div (fl.sub v2 v1) sum)

  unfoldable pub level_georef : Georef F → LevelMeta → LevelMeta → Georef F
  level_georef g0 l0 lv = record {
    epsg = g0.epsg;
    origin_x = g0.origin_x;
    origin_y = g0.origin_y;
    pixel_x = fl.mul g0.pixel_x (fl.div (fl.of_nat l0.image_width) (fl.of_nat lv.image_width));
    pixel_y = fl.mul g0.pixel_y (fl.div (fl.of_nat l0.image_height) (fl.of_nat lv.image_height));
  }

  unfoldable pub level_scale : CogMeta F → ℕ → F
  level_scale m level = elim (head? m.levels) [
    | none ↦ one_f
    | some l0 ↦ elim (get_elem? m.levels level) [
      | none ↦ one_f
      | some lv ↦
          fl.mul (fl.div (fl.of_nat l0.image_width) (fl.of_nat lv.image_width))
            (fl.div (fl.of_nat l0.image_height) (fl.of_nat lv.image_height))
    ]
  ]

-- First and last column, first and last row, both inclusive.
pub record PixelWindow : Type 0 where
  pub col_min : ℕ
  pub col_max : ℕ
  pub row_min : ℕ
  pub row_max : ℕ

-- `ZonalStats`.
pub record ZonalStats (F : Type 0) : Type 0 where
  pub count : ℕ
  pub sum : F
  pub min_value : Option F
  pub max_value : Option F

pub data ZonalStat : Type 0 where
  count_stat sum_stat mean_stat min_stat max_stat : ZonalStat

module _ {F : Type 0} ⦃fl : Float F⦄ where
  -- `ZonalStats::EMPTY`.
  abbrev pub empty_zonal : ZonalStats F
  empty_zonal = record { count = 0; sum = zero_f; min_value = none; max_value = none }

  -- `ZonalStats::mean`.
  unfoldable pub mean : ZonalStats F → Option F
  mean z = if ltb 0 z.count then some (fl.div z.sum (fl.of_nat z.count)) else none

  unfoldable pub value_scaled : ZonalStats F → ZonalStat → F → Option F
  unfolding mean
  value_scaled z count_stat scale = some (fl.mul (fl.of_nat z.count) scale)
  value_scaled z sum_stat scale = if ltb 0 z.count then some (fl.mul z.sum scale) else none
  value_scaled z mean_stat scale = mean z
  value_scaled z min_stat scale = z.min_value
  value_scaled z max_stat scale = z.max_value

  -- `ZonalStats::value`.
  unfoldable pub value : ZonalStats F → ZonalStat → Option F
  unfolding value_scaled
  value z stat = value_scaled z stat one_f

  fold_option : (F → F → F) → F → Option F → Option F
  fold_option f v none = some v
  fold_option f v (some m) = some (f m v)

  -- The update of the accumulator by a valid pixel.
  unfoldable pub add_pixel : ZonalStats F → F → ZonalStats F
  unfolding fold_option
  add_pixel acc v = record {
    count = acc.count + 1;
    sum = fl.add acc.sum v;
    min_value = fold_option fl.fmin v acc.min_value;
    max_value = fold_option fl.fmax v acc.max_value;
  }
