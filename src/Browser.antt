-- ===== src/Browser.antt =====
-- crates/engine-wasm/src/registry.rs and bindings.rs: the readers that the page keeps, and the
-- functions that JavaScript calls. A promise is the value or the error that it settles with; an
-- array of JavaScript is the list of its elements, `none` for one of the wrong type.
pub mod Registry
pub mod Windows
pub mod Batch
mod Tests
use duckdb_cog.Base.{
  ℕ, ◌+◌, ◌-◌, ◌*◌, Bool, true, false, ◌&&◌, Option, none, some, List, [], ◌∷◌, map, Result, ok,
  err, ◌>>=◌, map_err, try_map, filter_map, if◌then◌else◌,
}
use duckdb_cog.Base.Texts.{Text}
use duckdb_cog.Float.{Float}
use duckdb_cog.Meta.{
  CogMeta, LevelMeta, Georef, Bbox, BandStats, width, height, srid, scale_gdal, skew,
}
use duckdb_cog.Zone.{Zone, ZoneError, envelope}
use duckdb_cog.Pixel.{PixelWindow, ZonalStat, ZonalStats, value, value_scaled, level_scale}
use duckdb_cog.Pixel.Select.{select_level}
use duckdb_cog.Pixel.Window.{envelope_window}
use duckdb_cog.Pixel.Reader.{Failure}
use duckdb_cog.Pixel.Reader.Zonal.{zonal_stats_polygon_at, zonal_stats_polygon_batch_at}
use duckdb_cog.Pixel.Reader.Band.{band_window, band_window_polygon, window_width, window_height}
use duckdb_cog.Sql.{Cog}
use duckdb_cog.Sql.Open.{Opener, find}
use duckdb_cog.Sql.Zonal.{parse_zonal_stat, joined}
use duckdb_cog.Sql.Open.Gather.{first_seen, open_all, gather}
use duckdb_cog.Sql.Zonal.Run.{level_for}

-- The reason of a rejection, or a panic.
pub data JsError : Type 0 where
  unknown_stat : JsError
  bad_zone : ZoneError → JsError
  cannot_open : Text → JsError
  read_failed : Failure → JsError
  not_strings : JsError
  not_numbers : JsError
  not_four : JsError
  panic : JsError

abbrev pub J {ℓ} : Type ℓ → Type ℓ
J A = Result JsError A

-- What `meta_to_js` makes of the metadata.
pub record MetaObject (F : Type 0) : Type 0 where
  pub width : Option ℕ
  pub height : Option ℕ
  pub num_bands : ℕ
  pub srid : ℕ
  pub nodata : Option F
  pub geotransform : Option (List F)
  pub levels : List (ℕ × ℕ × ℕ × ℕ)
  pub band_stats : Option (List (BandStats F))

-- What `window_result` makes of a window.
pub record WindowObject (F : Type 0) : Type 0 where
  pub values : List F
  pub width : ℕ
  pub height : ℕ
  pub bbox : Option (Bbox F)

-- `as_string` of each element, in order.
pub strings : List (Option Text) → J (List Text)
strings texts = try_map (λ t. elim t [ none ↦ err not_strings | some s ↦ ok s ]) texts

level_object : LevelMeta → ℕ × ℕ × ℕ × ℕ
level_object l = (l.image_width, l.image_height, l.tile_width, l.tile_height)

module _ {F : Type 0} ⦃fl : Float F⦄ where
  transform : Georef F → List F
  transform g =
      let (sx, sy) = scale_gdal g in
      let (kx, ky) = skew g in sx ∷ ky ∷ kx ∷ sy ∷ g.origin_x ∷ g.origin_y ∷ []

  unfoldable pub meta_to_js : CogMeta F → MetaObject F
  unfolding transform level_object
  meta_to_js m = record {
    width = width m;
    height = height m;
    num_bands = m.num_bands;
    srid = srid m;
    nodata = m.nodata;
    geotransform = elim m.georef [ none ↦ none | some g ↦ some (transform g) ];
    levels = map level_object m.levels;
    band_stats = m.band_stats;
  }

  -- A missing value is NaN.
  or_nan : Option F → F
  or_nan none = fl.nan
  or_nan (some v) = v

  -- The box of a window of whole pixels.
  window_box : Georef F → PixelWindow → Bbox F
  window_box g w = record {
    xmin = fl.add g.origin_x (fl.mul (fl.of_nat w.col_min) g.pixel_x);
    ymin = fl.sub g.origin_y (fl.mul (fl.of_nat (w.row_max + 1)) g.pixel_y);
    xmax = fl.add g.origin_x (fl.mul (fl.of_nat (w.col_max + 1)) g.pixel_x);
    ymax = fl.sub g.origin_y (fl.mul (fl.of_nat w.row_min) g.pixel_y);
  }

  pub empty_object : List F → WindowObject F
  empty_object values = record { values = values; width = 0; height = 0; bbox = none }

  pub placed_object : List F → Option PixelWindow → Option (Georef F) → WindowObject F
  unfolding empty_object window_box
  placed_object values (some w) (some g) = record {
    values = values;
    width = window_width w;
    height = window_height w;
    bbox = some (window_box g w);
  }
  placed_object values (some w) none = empty_object values
  placed_object values none g = empty_object values

  -- The rectangle of the envelope, unless the window is empty.
  pub rect_of : CogMeta F → Option (Bbox F) → List (Option F) → Option PixelWindow
  rect_of m env [] = none
  rect_of m none (v ∷ win) = none
  rect_of m (some e) (v ∷ win) = envelope_window m e

  -- `window_result`; a band that the file lacks is null.
  unfoldable pub window_result :
      CogMeta F → Option (Bbox F) → Option (List (Option F)) → Option (WindowObject F)
  unfolding or_nan placed_object rect_of
  window_result m env none = none
  window_result m env (some win) =
      some (placed_object (map or_nan win) (rect_of m env win) m.georef)

module _ {F : Type 0} (parse : Text → Result ZoneError (Zone F)) where
  -- `parse_inputs`: the name of the aggregate is judged first.
  unfoldable pub parse_inputs : Text → Text → J (Zone F × ZonalStat)
  parse_inputs wkt name = do
    stat ← map_err (λ _. unknown_stat) (parse_zonal_stat name)
    zone ← map_err bad_zone (parse wkt)
    ok (zone, stat)

module _ {F T : Type 0} ⦃fl : Float F⦄ where
  -- `zonal_on`.
  unfoldable pub zonal_on : Cog F T → Zone F → ℕ → ZonalStat → ℕ → J (Option F)
  unfolding level_for
  zonal_on c zone band stat max_pixels =
      let level = level_for c.0 (envelope zone) max_pixels in
      map_err read_failed (zonal_stats_polygon_at c.1 c.0 zone band level) >>= λ z.
      ok (value_scaled z stat (level_scale c.0 level))

  -- `zonal_value`, on what opening the bytes ends with; the level is the first one.
  unfoldable pub zonal_value :
      (Text → Result ZoneError (Zone F)) → Result Text (Cog F T) → Text → ℕ → Text → J (Option F)
  unfolding parse_inputs
  zonal_value parse opened wkt band name = do
    inputs ← parse_inputs parse wkt name
    c ← map_err cannot_open opened
    z ← map_err read_failed (zonal_stats_polygon_at c.1 c.0 inputs.0 band 0)
    ok (value z inputs.1)

module _ {F T : Type 0} ⦃fl : Float F⦄ where
  -- What `bandWindow` and `bandWindowPolygon` do with a reader.
  pub box_window : ℕ → Bbox F → Cog F T → J (Option (WindowObject F))
  box_window band b c = map_err read_failed (band_window c.1 c.0 (some b) band) >>= λ win.
      ok (window_result c.0 (some b) win)

  pub zone_window : ℕ → Zone F → Cog F T → J (Option (WindowObject F))
  zone_window band zone c = map_err read_failed (band_window_polygon c.1 c.0 zone band) >>= λ win.
      ok (window_result c.0 (envelope zone) win)

module _ {F : Type 0} where
  four : List F → J (Bbox F)
  four (a ∷ b ∷ c ∷ d ∷ []) = ok (record { xmin = a; ymin = b; xmax = c; ymax = d })
  four l = err not_four

  -- The numbers of an array, which are a box.
  pub box_argument : List (Option F) → J (Bbox F)
  unfolding four
  box_argument items =
      try_map (λ x. elim x [ none ↦ err not_numbers | some v ↦ ok v ]) items >>= four

abbrev or_zero : Option ℕ → ℕ
or_zero none = 0
or_zero (some n) = n

module _ {F T : Type 0} ⦃fl : Float F⦄ where
  -- `by_url[u]` of a batch, which panics on a missing key.
  batch_value : Zone F → ZonalStat → ℕ → ℕ → List (Text × Cog F T) → Text → J (Option F)
  batch_value zone stat band max_pixels by_url url = elim (find url by_url) [
    | none ↦ err panic
    | some c ↦ zonal_on c zone band stat max_pixels
  ]

  zones_on : Cog F T → List (Zone F) → ℕ → ZonalStat → ℕ → J (List (Option F))
  unfolding level_for joined
  zones_on c zones band stat max_pixels =
      let level = level_for c.0 (joined (filter_map envelope zones)) max_pixels in
      map_err read_failed (zonal_stats_polygon_batch_at c.1 c.0 zones band level) >>= λ zs.
      ok (map (λ z. value_scaled z stat (level_scale c.0 level)) zs)

module _ {F : Type 0} (parse : Text → Result ZoneError (Zone F)) where
  zone_of : Option Text → J (Zone F)
  zone_of none = err not_strings
  zone_of (some wkt) = map_err bad_zone (parse wkt)

-- The exported functions, over an opener that stands for `open_cached`.
module _ {W F T : Type 0} ⦃fl : Float F⦄ (open_cached : Opener W (Cog F T)) where
  then_opened : {B : Type 0} → W × Result Text (Cog F T) → (Cog F T → J B) → W × J B
  then_opened (w, o) next = (w, map_err cannot_open o >>= next)

  after_inputs : {A B : Type 0} → W → J A → (A → W × J B) → W × J B
  after_inputs w (err e) next = (w, err e)
  after_inputs w (ok a) next = next a

  -- `cogMeta`.
  unfoldable pub cog_meta : W → Text → W × J (MetaObject F)
  unfolding then_opened
  cog_meta w url = then_opened (open_cached w url) (λ c. ok (meta_to_js c.0))

  -- `bandWindow`.
  unfoldable pub band_window_js : W → Text → List (Option F) → ℕ → W × J (Option (WindowObject F))
  unfolding then_opened after_inputs box_argument box_window
  band_window_js w url items band =
      after_inputs w (box_argument items) (λ b. then_opened (open_cached w url) (box_window band b))

module _ {W F T : Type 0} ⦃fl : Float F⦄ (open_cached : Opener W (Cog F T))
    (parse : Text → Result ZoneError (Zone F)) where
  -- `zonalStats`.
  unfoldable pub zonal_stats : W → Text → Text → ℕ → Text → Option ℕ → W × J (Option F)
  unfolding parse_inputs then_opened after_inputs
  zonal_stats w url wkt band name max_pixels =
      after_inputs open_cached w (parse_inputs parse wkt name) (λ inputs.
        then_opened open_cached (open_cached w url)
          (λ c. zonal_on c inputs.0 band inputs.1 (or_zero max_pixels)))

  -- `zonalStatsBatch`: each address is opened once.
  unfoldable pub zonal_stats_batch :
      W → List (Option Text) → Text → ℕ → Text → Option ℕ → W × J (List (Option F))
  unfolding parse_inputs after_inputs strings batch_value
  zonal_stats_batch w urls wkt band name max_pixels =
      after_inputs open_cached w (parse_inputs parse wkt name) (λ inputs.
        after_inputs open_cached w (strings urls) (λ names.
          let opened = open_all open_cached w (first_seen [] names) in
          (
            opened.0,
            gather cannot_open [] opened.1 >>= λ by_url.
                try_map (batch_value inputs.0 inputs.1 band (or_zero max_pixels) by_url) names,
          )))

  -- `zonalStatsBatchZones`.
  unfoldable pub zonal_stats_batch_zones :
      W → Text → List (Option Text) → ℕ → Text → Option ℕ → W × J (List (Option F))
  unfolding then_opened after_inputs zone_of zones_on
  zonal_stats_batch_zones w url wkts band name max_pixels =
      after_inputs open_cached w (map_err (λ _. unknown_stat) (parse_zonal_stat name)) (λ stat.
        after_inputs open_cached w (try_map (zone_of parse) wkts) (λ zones.
          then_opened open_cached (open_cached w url)
            (λ c. zones_on c zones band stat (or_zero max_pixels))))

  -- `bandWindowPolygon`.
  unfoldable pub band_window_polygon_js : W → Text → Text → ℕ → W × J (Option (WindowObject F))
  unfolding then_opened after_inputs zone_window
  band_window_polygon_js w url wkt band =
      after_inputs open_cached w (map_err bad_zone (parse wkt))
        (λ zone. then_opened open_cached (open_cached w url) (zone_window band zone))
