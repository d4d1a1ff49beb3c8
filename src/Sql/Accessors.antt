-- ===== src/Sql/Accessors.antt =====
-- The accessors of metadata: one value, or a STRUCT, for each path.
use duckdb_cog.Base.{
  ℕ, zero, suc, ◌+◌, ◌-◌, ◌^◌, Bool, true, false, Option, none, some, List, [], map, ok, err, ◌>>=◌,
  ltb, if◌then◌else◌, zip, length, get_elem?, try_map,
}
use duckdb_cog.Base.Int.{ℤ, pos, negsuc}
use duckdb_cog.Base.Texts.{Text}
use duckdb_cog.Float.{Float}
use duckdb_cog.Meta
use duckdb_cog.Meta.{
  CogMeta, Georef, BandStats, georeference_gdal, width, height, srid, band_nodata, scale_gdal, skew,
  world_to_raster, raster_to_world,
}
use duckdb_cog.Sql.{
  error, not_georeferenced, S, Cog, and_then, try_u32, try_i32, try_i32_signed, band_column,
}
use duckdb_cog.Sql.Vector.{write_texts, FlatVector, write_values}
use duckdb_cog.Sql.Open.{Opener, rows_loop}

module _ {W F T : Type 0} (open_cog : Opener W (Cog F T)) where
  -- `read_meta`: the metadata of an opened file.
  read_meta : Opener W (CogMeta F)
  read_meta w path = elim (open_cog w path).1 [
    | err e ↦ ((open_cog w path).0, err e)
    | ok c ↦ ((open_cog w path).0, ok c.0)
  ]

  pub path_row : Unit {0} → Option Text → S (Unit {0} × Option (Text × Unit {0}))
  path_row z none = ok (z, none)
  path_row z (some path) = ok (z, some (path, tt))

  pub its_meta : Text → CogMeta F → Unit {0} → S (Option (CogMeta F))
  its_meta path m j = ok (some m)

  unfoldable pub meta_per_row : W → List (Option Text) → W × S (List (Option (CogMeta F)))
  unfolding read_meta path_row its_meta
  meta_per_row w paths = rows_loop read_meta path_row its_meta tt w [] paths

module _ {F : Type 0} ⦃fl : Float F⦄ where
  -- The closures of `register`.
  unfoldable pub rs_width : CogMeta F → Option ℤ
  rs_width m = and_then (width m) try_i32

  unfoldable pub rs_height : CogMeta F → Option ℤ
  rs_height m = and_then (height m) try_i32

  unfoldable pub rs_num_bands : CogMeta F → Option ℤ
  rs_num_bands m = try_i32 m.num_bands

  unfoldable pub rs_srid : CogMeta F → Option ℤ
  rs_srid m = try_i32 (srid m)

  of_georef {ℓ} : {A : Type ℓ} → (Georef F → A) → CogMeta F → Option A
  of_georef f m = and_then m.georef (λ g. some (f g))

  unfoldable pub rs_scale_x : CogMeta F → Option F
  unfolding of_georef
  rs_scale_x = of_georef (λ g. (scale_gdal g).0)

  unfoldable pub rs_scale_y : CogMeta F → Option F
  unfolding of_georef
  rs_scale_y = of_georef (λ g. (scale_gdal g).1)

  unfoldable pub rs_skew_x : CogMeta F → Option F
  unfolding of_georef
  rs_skew_x = of_georef (λ g. (skew g).0)

  unfoldable pub rs_skew_y : CogMeta F → Option F
  unfolding of_georef
  rs_skew_y = of_georef (λ g. (skew g).1)

  unfoldable pub rs_upper_left_x : CogMeta F → Option F
  unfolding of_georef
  rs_upper_left_x = of_georef (λ g. g.origin_x)

  unfoldable pub rs_upper_left_y : CogMeta F → Option F
  unfolding of_georef
  rs_upper_left_y = of_georef (λ g. g.origin_y)

module _ {F : Type 0} ⦃fl : Float F⦄ where
  unfoldable pub rs_geo_reference : CogMeta F → Option (F × F × F × F × F × F)
  rs_geo_reference m = georeference_gdal m

module _ {W F T A V : Type 0} (open_cog : Opener W (Cog F T)) (f : FlatVector A V) where
  -- `invoke` of the accessors with one argument: the values into the output vector.
  unfoldable pub rs_meta : (CogMeta F → Option A) → W → V → List (Option Text) → W × S V
  unfolding meta_per_row
  rs_meta extract w v paths =
      let metas = meta_per_row open_cog w paths in
      (metas.0, metas.1 >>= λ ms. ok (write_values f v (map (λ m. and_then m extract) ms)))

  unfoldable pub rs_meta_text : (CogMeta F → Option A) → W → V → List (Option Text) → W × S V
  unfolding meta_per_row
  rs_meta_text extract w v paths =
      let metas = meta_per_row open_cog w paths in
      (metas.0, metas.1 >>= λ ms. ok (write_texts f v 0 (map (λ m. and_then m extract) ms)))

module _ {W F T V : Type 0} (open_cog : Opener W (Cog F T)) where
  -- `RsMetaInt` and `RsMetaDouble`.
  unfoldable pub rs_meta_int :
      FlatVector ℤ V → (CogMeta F → Option ℤ) → W → V → List (Option Text) → W × S V
  unfolding rs_meta
  rs_meta_int f extract w v paths = rs_meta open_cog f extract w v paths

  unfoldable pub rs_meta_double :
      FlatVector F V → (CogMeta F → Option F) → W → V → List (Option Text) → W × S V
  unfolding rs_meta
  rs_meta_double f extract w v paths = rs_meta open_cog f extract w v paths

-- `b - 1` of an `i32`, which wraps at its least value, and `usize::try_from`.
unfoldable pub band_index : ℤ → Option ℕ
band_index (pos zero) = none
band_index (pos (suc n)) = some n
band_index (negsuc n) = if ltb (n + 1) (2 ^ 31) then none else some (2 ^ 31 - 1)

module _ {F : Type 0} where
  -- A row of `RS_BandNoDataValue`.
  unfoldable pub band_no_data_value : Option (CogMeta F) × Option ℤ → Option F
  band_no_data_value (m, band) =
      and_then m (λ meta. and_then band (λ b. and_then (try_u32 b) (λ b'. band_nodata meta b')))

  -- A row of `RS_BandStats`.
  unfoldable pub band_stats_value : Option (CogMeta F) × Option ℤ → Option (BandStats F)
  unfolding band_index
  band_stats_value (m, band) = and_then m (λ meta.
      and_then band
        (λ b. and_then (band_index b) (λ i. and_then meta.band_stats (λ stats. get_elem? stats i))))

module _ {W F T : Type 0} (open_cog : Opener W (Cog F T)) where
  -- The rows of `RS_BandNoDataValue`; without a band column the band is 1.
  unfoldable pub rs_band_no_data_value :
      W → List (Option Text) → Option (List (Option ℤ)) → W × S (List (Option F))
  unfolding meta_per_row
  rs_band_no_data_value w paths bands =
      let metas = meta_per_row open_cog w paths in
      (
        metas.0,
        metas.1 >>= λ ms. ok (map band_no_data_value (zip ms (band_column (length paths) bands))),
      )

  unfoldable pub rs_band_stats :
      W → List (Option Text) → Option (List (Option ℤ)) → W × S (List (Option (BandStats F)))
  unfolding meta_per_row
  rs_band_stats w paths bands =
      let metas = meta_per_row open_cog w paths in
      (
        metas.0,
        metas.1 >>= λ ms. ok (map band_stats_value (zip ms (band_column (length paths) bands))),
      )

-- The children of the STRUCT of `RS_MetaData`, and which rows are NULL.
pub record MetaData (F : Type 0) : Type 0 where
  pub upper_left_x : List (Option F)
  pub upper_left_y : List (Option F)
  pub width : List (Option ℤ)
  pub height : List (Option ℤ)
  pub scale_x : List (Option F)
  pub scale_y : List (Option F)
  pub skew_x : List (Option F)
  pub skew_y : List (Option F)
  pub srid : List (Option ℤ)
  pub num_bands : List (Option ℤ)
  pub nulls : List Bool

abbrev is_none {ℓ} : {A : Type ℓ} → Option A → Bool
is_none none = true
is_none (some a) = false

module _ {W F T : Type 0} ⦃fl : Float F⦄ (open_cog : Opener W (Cog F T)) where
  field {ℓ} : {A : Type ℓ} → (CogMeta F → Option A) → List (Option (CogMeta F)) → List (Option A)
  field extract ms = map (λ m. and_then m extract) ms

  unfoldable pub rs_meta_data : W → List (Option Text) → W × S (MetaData F)
  unfolding meta_per_row field
  rs_meta_data w paths =
      let metas = meta_per_row open_cog w paths in
      (
        metas.0,
        metas.1 >>= λ ms. ok (record {
          upper_left_x = field (λ m. and_then m.georef (λ g. some g.origin_x)) ms;
          upper_left_y = field (λ m. and_then m.georef (λ g. some g.origin_y)) ms;
          width = field (λ m. and_then (Meta.width m) try_i32) ms;
          height = field (λ m. and_then (Meta.height m) try_i32) ms;
          scale_x = field (λ m. and_then m.georef (λ g. some (scale_gdal g).0)) ms;
          scale_y = field (λ m. and_then m.georef (λ g. some (scale_gdal g).1)) ms;
          skew_x = field (λ m. and_then m.georef (λ g. some (skew g).0)) ms;
          skew_y = field (λ m. and_then m.georef (λ g. some (skew g).1)) ms;
          srid = field (λ m. try_i32 (Meta.srid m)) ms;
          num_bands = field (λ m. try_i32 m.num_bands) ms;
          nulls = map is_none ms;
        }),
      )

  -- The grid position of a row, a NULL argument or file passed over.
  grid_row : Option (CogMeta F) × (Option F × Option F) → S (Option (ℤ × ℤ))
  grid_row (m, (none, y)) = ok none
  grid_row (m, (some x, none)) = ok none
  grid_row (none, (some x, some y)) = ok none
  grid_row (some m, (some x, some y)) = elim m.georef [
    | none ↦ err (error not_georeferenced)
    | some g ↦ ok (some (world_to_raster g x y))
  ]

  -- Both numbers as `i32`, or NULL for the whole row.
  pub both_i32 : Option (ℤ × ℤ) → Option (ℤ × ℤ)
  both_i32 r =
      and_then r
        (λ p. and_then (try_i32_signed p.0) (λ c. and_then (try_i32_signed p.1) (λ d. some (c, d))))

  unfoldable pub rs_world_to_raster_coord :
      W → List (Option Text) → List (Option F) → List (Option F) → W × S (List (Option (ℤ × ℤ)))
  unfolding meta_per_row grid_row both_i32
  rs_world_to_raster_coord w paths xs ys =
      let metas = meta_per_row open_cog w paths in
      (
        metas.0,
        metas.1 >>= λ ms. try_map grid_row (zip ms (zip xs ys)) >>= λ rows. ok (map both_i32 rows),
      )

  world_row : Option (CogMeta F) × (Option ℤ × Option ℤ) → S (Option (F × F))
  world_row (m, (none, r)) = ok none
  world_row (m, (some c, none)) = ok none
  world_row (none, (some c, some r)) = ok none
  world_row (some m, (some c, some r)) = elim m.georef [
    | none ↦ err (error not_georeferenced)
    | some g ↦ ok (some (raster_to_world g c r))
  ]

  unfoldable pub rs_raster_to_world_coord :
      W → List (Option Text) → List (Option ℤ) → List (Option ℤ) → W × S (List (Option (F × F)))
  unfolding meta_per_row world_row
  rs_raster_to_world_coord w paths cols rows =
      let metas = meta_per_row open_cog w paths in
      (metas.0, metas.1 >>= λ ms. try_map world_row (zip ms (zip cols rows)))
