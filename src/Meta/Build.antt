-- ===== src/Meta/Build.antt =====
-- `build_meta`: levels, georeference, bands and statistics from the chain of IFDs.
pub mod Validity
pub mod Tests
use duckdb_cog.Base.{
  ℕ, zero, suc, ◌+◌, ◌-◌, ◌*◌, ◌%◌, ◌^◌, ◌||◌, Bool, true, false, Option, none, some, List, [], ◌∷◌,
  Result, ok, err, ◌>>=◌, ltb, if◌then◌else◌, length, head?, get_elem?,
}
use duckdb_cog.Float.{Float}
use duckdb_cog.TileKey.{max_tile_index}
use duckdb_cog.Meta.{
  LevelMeta, Georef, CogMeta, BandStats, MetaError, not_tiled, too_many_levels, grid_overflow,
}
use duckdb_cog.Meta.Text.{parse_gdal_nodata, parse_gdal_metadata_stats}

-- What the code reads of an `ImageFileDirectory`.
pub record Ifd (F : Type 0) : Type 0 where
  pub image_width : ℕ
  pub image_height : ℕ
  pub tile_width : Option ℕ
  pub tile_height : Option ℕ
  pub tile_count : Option (ℕ × ℕ)
  pub samples_per_pixel : ℕ
  pub gdal_nodata : Option (List ℕ)
  pub gdal_metadata : Option (List ℕ)
  pub model_pixel_scale : Option (List F)
  pub model_tiepoint : Option (List F)
  -- `projected_type` and `geographic_type` of the geo key directory.
  pub geo_keys : Option (Option ℕ × Option ℕ)

or_else : Option ℕ → Option ℕ → Option ℕ
or_else none o = o
or_else (some a) o = some a

module _ {F : Type 0} where
  epsg_of : Ifd F → Option ℕ
  unfolding or_else
  epsg_of ifd = elim ifd.geo_keys [ none ↦ none | some (p, q) ↦ or_else p q ]

module _ {F : Type 0} ⦃fl : Float F⦄ where
  -- The pixel scale needs two numbers, the tie point six.
  georef_of : Option ℕ → List F → List F → Option (Georef F)
  georef_of epsg (sx ∷ sy ∷ scale) (i ∷ j ∷ k ∷ x ∷ y ∷ z ∷ tie) = some (record {
    epsg = epsg;
    origin_x = fl.sub x (fl.mul i sx);
    origin_y = fl.add y (fl.mul j sy);
    pixel_x = sx;
    pixel_y = sy;
  })
  georef_of epsg scale tie = none

  build_georef : Ifd F → Option (Georef F)
  unfolding georef_of epsg_of
  build_georef ifd = elim ifd.model_pixel_scale [
    | none ↦ none
    | some scale ↦ elim ifd.model_tiepoint [
      | none ↦ none
      | some tie ↦ georef_of (epsg_of ifd) scale tie
    ]
  ]

  level_of : ℕ → Ifd F → ℕ → ℕ → ℕ → ℕ → Result MetaError LevelMeta
  level_of i ifd tile_width tile_height tiles_x tiles_y =
      if ltb (max_tile_index + 1) tiles_x || ltb (max_tile_index + 1) tiles_y
      then err (grid_overflow tiles_x tiles_y)
      else ok (record {
        level = i;
        image_width = ifd.image_width;
        image_height = ifd.image_height;
        tile_width = tile_width;
        tile_height = tile_height;
        tiles_x = tiles_x;
        tiles_y = tiles_y;
      })

  -- The body of the loop over the IFDs.
  build_level : ℕ → Ifd F → Result MetaError LevelMeta
  unfolding level_of
  build_level i ifd = if ltb 255 i then err (too_many_levels i) else elim ifd.tile_width [
    | none ↦ err (not_tiled i)
    | some w ↦ elim ifd.tile_height [
      | none ↦ err (not_tiled i)
      | some h ↦ elim ifd.tile_count [
        | none ↦ err (not_tiled i)
        | some (nx, ny) ↦ level_of i ifd w h (nx % 2 ^ 32) (ny % 2 ^ 32)
      ]
    ]
  ]

  build_levels : ℕ → List (Ifd F) → Result MetaError (List LevelMeta)
  unfolding build_level
  build_levels i [] = ok []
  build_levels i (ifd ∷ ifds) = do
    l ← build_level i ifd
    ls ← build_levels (i + 1) ifds
    ok (l ∷ ls)

  num_bands_of : List (Ifd F) → ℕ
  num_bands_of [] = 0
  num_bands_of (ifd0 ∷ ifds) = ifd0.samples_per_pixel

  nodata_of : List (Ifd F) → Option F
  nodata_of [] = none
  nodata_of (ifd0 ∷ ifds) = elim ifd0.gdal_nodata [ none ↦ none | some s ↦ parse_gdal_nodata s ]

  stats_of : List (Ifd F) → Option (List (BandStats F))
  stats_of [] = none
  stats_of (ifd0 ∷ ifds) = elim ifd0.gdal_metadata [
    | none ↦ none
    | some xml ↦ parse_gdal_metadata_stats xml ifd0.samples_per_pixel
  ]

  first_georef : List (Ifd F) → Option (Georef F)
  unfolding build_georef
  first_georef [] = none
  first_georef (ifd0 ∷ ifds) = build_georef ifd0

  pub meta_of : List (Ifd F) → List LevelMeta → CogMeta F
  unfolding num_bands_of nodata_of stats_of first_georef
  meta_of ifds levels = record {
    levels = levels;
    georef = first_georef ifds;
    num_bands = num_bands_of ifds;
    nodata = nodata_of ifds;
    band_stats = stats_of ifds;
  }

  unfoldable pub build_meta : List (Ifd F) → Result MetaError (CogMeta F)
  unfolding build_levels meta_of
  build_meta ifds = do levels ← build_levels 0 ifds; ok (meta_of ifds levels)
