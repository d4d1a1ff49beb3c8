-- ===== src/Meta/Build/Tests.antt =====
-- An image of four by four pixels in tiles of two by two, at one unit a pixel.
use duckdb_cog.Base.{◌≡◌, ◌↔◌, refl, none, some, [], ◌∷◌, ok, length}
use duckdb_cog.Base.Int.{ℤ, pos, ◌+ℤ◌, ◌-ℤ◌, ◌*ℤ◌}
use duckdb_cog.Float.Half.{half_float}
use duckdb_cog.Meta.{LevelMeta, Georef, CogMeta}
use duckdb_cog.Meta.Build.{
  Ifd, or_else, epsg_of, georef_of, build_georef, level_of, build_level, build_levels, num_bands_of,
  nodata_of, stats_of, first_georef, meta_of, build_meta,
}
use duckdb_cog.Meta.Build.Validity.{LevelsFit, IfdsFit, build_meta-LevelsFit, build_meta-ok_iff}

abbrev pub image_ifd : Ifd ℤ
image_ifd = record {
  image_width = 4;
  image_height = 4;
  tile_width = some 2;
  tile_height = some 2;
  tile_count = some (2, 2);
  samples_per_pixel = 1;
  gdal_nodata = none;
  gdal_metadata = none;
  model_pixel_scale = some (pos 2 ∷ pos 2 ∷ []);
  model_tiepoint = some (pos 0 ∷ pos 0 ∷ pos 0 ∷ pos 0 ∷ pos 8 ∷ pos 0 ∷ []);
  geo_keys = some (none, some 4326);
}

abbrev pub image_level : LevelMeta
image_level = record {
  level = 0;
  image_width = 4;
  image_height = 4;
  tile_width = 2;
  tile_height = 2;
  tiles_x = 2;
  tiles_y = 2;
}

abbrev pub image_georef : Georef ℤ
image_georef = record {
  epsg = some 4326;
  origin_x = pos 0;
  origin_y = pos 8;
  pixel_x = pos 2;
  pixel_y = pos 2;
}

abbrev pub image_meta : CogMeta ℤ
image_meta = record {
  levels = image_level ∷ [];
  georef = some image_georef;
  num_bands = 1;
  nodata = none;
  band_stats = none;
}

pub image_built : build_meta (image_ifd ∷ []) ≡ ok image_meta
unfolding or_else epsg_of georef_of build_georef level_of build_level build_levels num_bands_of
    nodata_of stats_of first_georef meta_of build_meta half_float ◌+ℤ◌ ◌-ℤ◌ ◌*ℤ◌
image_built = refl

build_meta-LevelsFit_example :
    LevelsFit 0 image_meta.levels × (length image_meta.levels ≡ length (image_ifd ∷ []))
build_meta-LevelsFit_example = build_meta-LevelsFit (image_ifd ∷ []) image_built

build_meta-ok_iff_example :
    ((m : CogMeta ℤ) × (build_meta (image_ifd ∷ []) ≡ ok m)) ↔ IfdsFit 0 (image_ifd ∷ [])
build_meta-ok_iff_example = build_meta-ok_iff (image_ifd ∷ [])
