-- ===== src/Pixel/Window.antt =====
-- `center_window`, `envelope_window` and the test of a bounding box.
pub mod Bounds
use duckdb_cog.Base.{ℕ, ◌+◌, ◌-◌, ◌||◌, Bool, true, false, Option, none, some, if◌then◌else◌, head?}
use duckdb_cog.Float.{Float, zero_f, one_f}
use duckdb_cog.Meta.{LevelMeta, Georef, CogMeta, Bbox}
use duckdb_cog.Pixel.{PixelWindow}

module _ {F : Type 0} ⦃fl : Float F⦄ where
  -- The four edges of the window as floats.
  pub first_col : Georef F → Bbox F → F
  first_col g b =
      fl.fmax (fl.ceil (fl.sub (fl.div (fl.sub b.xmin g.origin_x) g.pixel_x) fl.half)) zero_f

  pub last_col : Georef F → LevelMeta → Bbox F → F
  last_col g l0 b =
      fl.fmin (fl.floor (fl.sub (fl.div (fl.sub b.xmax g.origin_x) g.pixel_x) fl.half))
        (fl.sub (fl.of_nat l0.image_width) one_f)

  pub first_row : Georef F → Bbox F → F
  first_row g b =
      fl.fmax (fl.ceil (fl.sub (fl.div (fl.sub g.origin_y b.ymax) g.pixel_y) fl.half)) zero_f

  pub last_row : Georef F → LevelMeta → Bbox F → F
  last_row g l0 b =
      fl.fmin (fl.floor (fl.sub (fl.div (fl.sub g.origin_y b.ymin) g.pixel_y) fl.half))
        (fl.sub (fl.of_nat l0.image_height) one_f)

  unfoldable pub center_window : Georef F → LevelMeta → Bbox F → Option PixelWindow
  unfolding first_col last_col first_row last_row
  center_window g l0 b =
      let c0 = first_col g b in
      let c1 = last_col g l0 b in
      let r0 = first_row g b in
      let r1 = last_row g l0 b in
      if fl.lt c1 c0 || fl.lt r1 r0
      then none
      else some (record {
        col_min = fl.to_nat c0;
        col_max = fl.to_nat c1;
        row_min = fl.to_nat r0;
        row_max = fl.to_nat r1;
      })

  unfoldable pub envelope_window : CogMeta F → Bbox F → Option PixelWindow
  envelope_window m bbox = elim m.georef [
    | none ↦ none
    | some g ↦ elim (head? m.levels) [ none ↦ none | some l0 ↦ center_window g l0 bbox ]
  ]
