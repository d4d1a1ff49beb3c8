-- ===== src/Pixel/Reader/Zonal.antt =====
-- The zonal aggregates: by box, by polygon, and by a batch of polygons over one fetch.
pub mod Union
pub mod Fetch
pub mod Batch
use duckdb_cog.Base.{
  ℕ, zero, suc, ◌+◌, ◌-◌, ◌*◌, ◌/◌, ◌||◌, ◌&&◌, Bool, true, false, Option, none, some, List, [],
  ◌∷◌, ◌++◌, map, Result, ok, err, ◌>>=◌, try_map, fold_m, ltb, ◌==◌, if◌then◌else◌, range,
  flat_map, get_elem?, head?, length, replicate,
}
use duckdb_cog.Float.{Float}
use duckdb_cog.Meta.{CogMeta, LevelMeta, Georef, Bbox, MetaError, invalid_filter, not_georeferenced}
use duckdb_cog.Meta.Tiles.{bbox_invalid}
use duckdb_cog.Zone.{Zone, envelope, contains}
use duckdb_cog.Pixel.{Array, Planar, PixelWindow, ZonalStats, empty_zonal, level_georef}
use duckdb_cog.Pixel.Window.{center_window}
use duckdb_cog.Pixel.Reader.{
  Failure, error, M, ok_or_panic, IfdReader, CogReader, tile_lookup, window_tiles, fetch_decoded,
  accumulate_tile, accumulate_window,
}

-- Whether a band number lies outside 1..=n.
abbrev pub band_outside : ℕ → ℕ → Bool
band_outside band num_bands = band == 0 || ltb num_bands band

module _ {F : Type 0} ⦃fl : Float F⦄ where
  -- The closure `keep`: the centre of the pixel lies in the zone.
  unfoldable pub center_in : Georef F → Zone F → ℕ → ℕ → Bool
  center_in g zone col row =
      contains zone (fl.add g.origin_x (fl.mul (fl.add (fl.of_nat col) fl.half) g.pixel_x))
        (fl.sub g.origin_y (fl.mul (fl.add (fl.of_nat row) fl.half) g.pixel_y))

  -- `z.envelope().and_then(|e| center_window(&g, lv, e))`.
  unfoldable pub zone_window : Georef F → LevelMeta → Zone F → Option PixelWindow
  zone_window g lv zone = elim (envelope zone) [ none ↦ none | some e ↦ center_window g lv e ]

module _ {F T : Type 0} ⦃fl : Float F⦄ where
  unfoldable pub zonal_stats_at : CogReader F T → CogMeta F → Bbox F → ℕ → ℕ → M (ZonalStats F)
  zonal_stats_at r m bbox band level =
      if bbox_invalid bbox then err (error invalid_filter) else elim m.georef [
        | none ↦ err (error not_georeferenced)
        | some g0 ↦ elim (head? m.levels) [
          | none ↦ ok empty_zonal
          | some l0 ↦ elim (get_elem? m.levels level) [
            | none ↦ ok empty_zonal
            | some lv ↦
                if band_outside band m.num_bands
                then ok empty_zonal
                else elim (center_window (level_georef g0 l0 lv) lv bbox) [
                  | none ↦ ok empty_zonal
                  | some w ↦ accumulate_window r m level w band (λ col row. true)
                ]
          ]
        ]
      ]

  unfoldable pub zonal_stats_polygon_at :
      CogReader F T → CogMeta F → Zone F → ℕ → ℕ → M (ZonalStats F)
  zonal_stats_polygon_at r m zone band level = elim m.georef [
    | none ↦ err (error not_georeferenced)
    | some g0 ↦ elim (head? m.levels) [
      | none ↦ ok empty_zonal
      | some l0 ↦ elim (get_elem? m.levels level) [
        | none ↦ ok empty_zonal
        | some lv ↦
            if band_outside band m.num_bands
            then ok empty_zonal
            else elim (zone_window (level_georef g0 l0 lv) lv zone) [
              | none ↦ ok empty_zonal
              | some w ↦ accumulate_window r m level w band (center_in (level_georef g0 l0 lv) zone)
            ]
      ]
    ]
  ]

-- `BTreeSet::insert` into the sorted list of its members.
pub tile_insert : ℕ × ℕ → List (ℕ × ℕ) → List (ℕ × ℕ)
tile_insert t [] = t ∷ []
tile_insert t (u ∷ us) =
    if t.0 == u.0 && t.1 == u.1
    then u ∷ us
    else if ltb t.0 u.0 || (t.0 == u.0 && ltb t.1 u.1)
    then t ∷ u ∷ us
    else u ∷ tile_insert t us

pub insert_tiles : List (ℕ × ℕ) → List (ℕ × ℕ) → List (ℕ × ℕ)
insert_tiles [] set = set
insert_tiles (t ∷ ts) set = insert_tiles ts (tile_insert t set)

-- The tiles of all windows, each once, in the order of the set.
unfoldable pub union_tiles : ℕ → ℕ → List (Option PixelWindow) → List (ℕ × ℕ) → List (ℕ × ℕ)
unfolding insert_tiles tile_insert
union_tiles tw th [] set = set
union_tiles tw th (none ∷ ws) set = union_tiles tw th ws set
union_tiles tw th (some w ∷ ws) set = union_tiles tw th ws (insert_tiles (window_tiles tw th w) set)

module _ {F : Type 0} ⦃fl : Float F⦄ where
  -- The loop over the tiles of one zone, with its look-ups in the map of the union.
  pub accumulate_union :
      (ℕ → ℕ → Option (Array F))
      → Planar
      → PixelWindow
      → ℕ × ℕ
      → ℕ
      → Option F
      → (ℕ → ℕ → Bool)
      → ZonalStats F
      → List (ℕ × ℕ)
      → M (ZonalStats F)
  accumulate_union by_tile layout w size band nodata keep acc [] = ok acc
  accumulate_union by_tile layout w size band nodata keep acc (t ∷ tiles) =
      ok_or_panic (by_tile t.0 t.1) >>= λ a.
      accumulate_tile a layout w (t.0 * size.0, t.1 * size.1) size band nodata keep acc >>= λ acc'.
      accumulate_union by_tile layout w size band nodata keep acc' tiles

  pub zone_stats :
      (ℕ → ℕ → Option (Array F))
      → Planar
      → CogMeta F
      → Georef F
      → LevelMeta
      → ℕ
      → Zone F
      → M (ZonalStats F)
  unfolding accumulate_union
  zone_stats by_tile layout m g lv band zone = elim (zone_window g lv zone) [
    | none ↦ ok empty_zonal
    | some w ↦
        accumulate_union by_tile layout w (lv.tile_width, lv.tile_height) band m.nodata
          (center_in g zone) empty_zonal (window_tiles lv.tile_width lv.tile_height w)
  ]

module _ {F T : Type 0} ⦃fl : Float F⦄ where
  unfoldable pub zonal_stats_polygon_batch_at :
      CogReader F T → CogMeta F → List (Zone F) → ℕ → ℕ → M (List (ZonalStats F))
  unfolding zone_stats
  zonal_stats_polygon_batch_at r m zones band level = elim m.georef [
    | none ↦ err (error not_georeferenced)
    | some g0 ↦ elim (head? m.levels) [
      | none ↦ ok (replicate (length zones) empty_zonal)
      | some l0 ↦ elim (get_elem? m.levels level) [
        | none ↦ ok (replicate (length zones) empty_zonal)
        | some lv ↦ elim (get_elem? r.ifds level) [
          | none ↦ ok (replicate (length zones) empty_zonal)
          | some ifd ↦
              if band_outside band m.num_bands
              then ok (replicate (length zones) empty_zonal)
              else let g = level_georef g0 l0 lv in
                let tiles =
                  union_tiles lv.tile_width lv.tile_height (map (zone_window g lv) zones) [] in
                fetch_decoded r ifd tiles >>= λ arrays.
                try_map (zone_stats (tile_lookup tiles arrays) ifd.layout m g lv band) zones
        ]
      ]
    ]
  ]
