-- ===== src/Meta.antt =====
-- crates/engine/src/meta.rs: the tile-table model. An `ImageFileDirectory` of async-tiff is the
-- record of what its accessors return; an error keeps its kind and the numbers of its message.
pub mod Build
pub mod Tiles
pub mod Text
use duckdb_cog.Base.{
  ℕ, zero, suc, ◌+◌, ◌-◌, ◌*◌, ◌%◌, ◌^◌, min, ◌||◌, ◌&&◌, Bool, true, false, not, Option, none,
  some, List, [], ◌∷◌, Result, ok, err, ◌>>=◌, ltb, leb, ◌==◌, if◌then◌else◌, length, head?,
  get_elem?,
}
use duckdb_cog.Base.Int.{ℤ, pos, negsuc, ◌+ℤ◌, ◌-ℤ◌, saturating_inc}
use duckdb_cog.Float.{Float, zero_f}

-- `LevelMeta`.
pub record LevelMeta : Type 0 where
  pub level : ℕ
  pub image_width : ℕ
  pub image_height : ℕ
  pub tile_width : ℕ
  pub tile_height : ℕ
  pub tiles_x : ℕ
  pub tiles_y : ℕ

-- `Georef`.
pub record Georef (F : Type 0) : Type 0 where
  pub epsg : Option ℕ
  pub origin_x : F
  pub origin_y : F
  pub pixel_x : F
  pub pixel_y : F

-- `BandStats`; the field names of the source with the library's words left free.
pub record BandStats (F : Type 0) : Type 0 where
  pub min_value : Option F
  pub max_value : Option F
  pub mean : Option F
  pub stddev : Option F

-- `CogMeta`.
pub record CogMeta (F : Type 0) : Type 0 where
  pub levels : List LevelMeta
  pub georef : Option (Georef F)
  pub num_bands : ℕ
  pub nodata : Option F
  pub band_stats : Option (List (BandStats F))

-- `[f64; 4]`: xmin, ymin, xmax, ymax.
pub record Bbox (F : Type 0) : Type 0 where
  pub xmin : F
  pub ymin : F
  pub xmax : F
  pub ymax : F

-- `TileRow`.
pub record TileRow (F : Type 0) : Type 0 where
  pub id : ℕ
  pub level : ℕ
  pub tile_x : ℕ
  pub tile_y : ℕ
  pub cols : ℕ
  pub rows : ℕ
  pub bbox : Option (Bbox F)

-- `MetaError`; `tiff_shape` is the `Tiff` of a decoded tile that lacks a pixel (row, column,
-- band).
pub data MetaError : Type 0 where
  not_tiled : ℕ → MetaError
  too_many_levels : ℕ → MetaError
  grid_overflow : ℕ → ℕ → MetaError
  tiff : List ℕ → MetaError
  tiff_shape : ℕ → ℕ → ℕ → MetaError
  invalid_filter : MetaError
  filter_without_georef : MetaError
  not_georeferenced : MetaError

module _ {F : Type 0} where
  -- `CogMeta::crs`, the number of "EPSG:n".
  unfoldable pub crs : CogMeta F → Option ℕ
  crs m = elim m.georef [ none ↦ none | some g ↦ g.epsg ]

  unfoldable pub width : CogMeta F → Option ℕ
  width m = elim (head? m.levels) [ none ↦ none | some l ↦ some l.image_width ]

  unfoldable pub height : CogMeta F → Option ℕ
  height m = elim (head? m.levels) [ none ↦ none | some l ↦ some l.image_height ]

  unfoldable pub srid : CogMeta F → ℕ
  unfolding crs
  srid m = elim (crs m) [ none ↦ 0 | some e ↦ e ]

  unfoldable pub band_nodata : CogMeta F → ℕ → Option F
  band_nodata m band = if band == 0 || ltb m.num_bands band then none else m.nodata

module _ {F : Type 0} ⦃fl : Float F⦄ where
  unfoldable pub scale_gdal : Georef F → F × F
  scale_gdal g = (g.pixel_x, fl.neg g.pixel_y)

  unfoldable pub skew : Georef F → F × F
  skew g = (zero_f, zero_f)

  -- The six numbers of `georeference_gdal`, in the order of its lines.
  unfoldable pub georeference_gdal : CogMeta F → Option (F × F × F × F × F × F)
  unfolding scale_gdal skew
  georeference_gdal m = elim m.georef [
    | none ↦ none
    | some g ↦
        some ((scale_gdal g).0, (skew g).1, (skew g).0, (scale_gdal g).1, g.origin_x, g.origin_y)
  ]

  -- 1-based column and row.
  unfoldable pub world_to_raster : Georef F → F → F → ℤ × ℤ
  world_to_raster g x y = (
    saturating_inc (fl.to_int (fl.floor (fl.div (fl.sub x g.origin_x) g.pixel_x))),
    saturating_inc (fl.to_int (fl.floor (fl.div (fl.sub g.origin_y y) g.pixel_y))),
  )

  unfoldable pub raster_to_world : Georef F → ℤ → ℤ → F × F
  raster_to_world g col row = (
    fl.add g.origin_x (fl.mul (fl.of_int (col -ℤ pos 1)) g.pixel_x),
    fl.sub g.origin_y (fl.mul (fl.of_int (row -ℤ pos 1)) g.pixel_y),
  )
