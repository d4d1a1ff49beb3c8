-- ===== src/Pixel/Reader/Zonal/Batch.antt =====
-- The batch over the union of tiles against the scalar call for each zone.
use duckdb_cog.Base.{
  ℕ, ◌≡◌, ◌↔◌, inl, inr, refl, sym, ◌∙◌, arith, false, Option, none, some, List, [], ◌∷◌, map,
  Result, ok, ◌>>=◌, try_map, bind-eq_ok, get_elem?, head?, All, All-imp, Option-cases,
}
use duckdb_cog.Float.{Float}
use duckdb_cog.Meta.{CogMeta, LevelMeta, Georef}
use duckdb_cog.Zone.{Zone}
use duckdb_cog.Pixel.{Array, PixelWindow, ZonalStats, empty_zonal, level_georef}
use duckdb_cog.Pixel.Reader.{
  M, IfdReader, CogReader, tile_lookup, window_tiles, fetch_decoded, accumulate_tiles,
  accumulate_window,
}
use duckdb_cog.Pixel.Reader.Zonal.{
  band_outside, center_in, zone_window, zonal_stats_polygon_at, union_tiles, zone_stats,
  zonal_stats_polygon_batch_at,
}
use duckdb_cog.Pixel.Reader.Zonal.Union.{AllWindows, All-union, union-All}
use duckdb_cog.Pixel.Reader.Zonal.Fetch.{
  Has, fetch_decoded_total, fetch_decoded-Has, Finds, Fetched-Finds, accumulate_tiles-eq_union,
}

-- The situation in which both calls get as far as the tiles.
pub record Opens {F T : Type 0} (r : CogReader F T) (m : CogMeta F) (band level : ℕ) (g0 : Georef F)
    (l0 lv : LevelMeta) (ifd : IfdReader T) : Type 0 where
  pub georef : m.georef ≡ some g0
  pub first : head? m.levels ≡ some l0
  pub at_level : get_elem? m.levels level ≡ some lv
  pub ifd_at : get_elem? r.ifds level ≡ some ifd
  pub band_inside : band_outside band m.num_bands ≡ false

module _ {F T : Type 0} ⦃fl : Float F⦄ (r : CogReader F T) (m : CogMeta F) (band level : ℕ)
    (g0 : Georef F) (l0 lv : LevelMeta) (ifd : IfdReader T) (o : Opens r m band level g0 l0 lv ifd)
    (tile : ℕ × ℕ → Result (List ℕ) T)
    (each : (ts : List (ℕ × ℕ)) → ifd.fetch_tiles ts ≡ try_map tile ts) where
  scalar : Zone F → M (ZonalStats F)
  scalar zone = zonal_stats_polygon_at r m zone band level

  size : ℕ × ℕ
  size = (lv.tile_width, lv.tile_height)

  g : Georef F
  g = level_georef g0 l0 lv

  scalar-none :
      (zone : Zone F)
      → zone_window (level_georef g0 l0 lv) lv zone ≡ none
      → scalar zone ≡ ok empty_zonal
  unfolding scalar zonal_stats_polygon_at
  scalar-none zone e = ground (arith, o.georef, o.first, o.at_level, o.band_inside, e)

  scalar-some :
      (zone : Zone F) (w : PixelWindow)
      → zone_window (level_georef g0 l0 lv) lv zone ≡ some w
      → scalar zone ≡ (
          fetch_decoded r ifd (window_tiles lv.tile_width lv.tile_height w) >>= λ arrays.
          accumulate_tiles ifd.layout w size band m.nodata
            (center_in (level_georef g0 l0 lv) zone)
            empty_zonal
            (window_tiles lv.tile_width lv.tile_height w)
            arrays)
  unfolding scalar zonal_stats_polygon_at accumulate_window size
  scalar-some zone w e = ground (arith, o.georef, o.first, o.at_level, o.band_inside, e, o.ifd_at)

  batch_some :
      (zones : List (Zone F))
      → zonal_stats_polygon_batch_at r m zones band level ≡ (
          fetch_decoded r ifd
            (union_tiles lv.tile_width lv.tile_height (map (zone_window g lv) zones) [])
          >>= λ arrays.
              try_map
                (zone_stats
                  (tile_lookup
                    (union_tiles lv.tile_width lv.tile_height (map (zone_window g lv) zones) [])
                    arrays)
                  ifd.layout
                  m
                  g
                  lv
                  band)
                zones)
  unfolding zonal_stats_polygon_batch_at g
  batch_some zones = ground (arith, o.georef, o.first, o.at_level, o.ifd_at, o.band_inside)

  HasTile : ℕ × ℕ → Type 0
  HasTile = Has r ifd tile each

  FindsTile : (ℕ → ℕ → Option (Array F)) → ℕ × ℕ → Type 0
  FindsTile = Finds r ifd tile each

  abbrev Covers : (ℕ × ℕ → Type 0) → Option PixelWindow → Type 0
  Covers P none = Unit
  Covers P (some w) = All P (window_tiles lv.tile_width lv.tile_height w)

  windows_split :
      (P : ℕ × ℕ → Type 0) (o' : Option PixelWindow) (ws : List (Option PixelWindow))
      → AllWindows P lv.tile_width lv.tile_height (o' ∷ ws)
      → Covers P o' × AllWindows P lv.tile_width lv.tile_height ws
  windows_split P none ws a = (tt, a)
  windows_split P (some w) ws a = a

  windows_join :
      (P : ℕ × ℕ → Type 0) (o' : Option PixelWindow) (ws : List (Option PixelWindow))
      → Covers P o'
      → AllWindows P lv.tile_width lv.tile_height ws
      → AllWindows P lv.tile_width lv.tile_height (o' ∷ ws)
  windows_join P none ws a b = b
  windows_join P (some w) ws a b = (a, b)

  -- Under a map that holds the tiles of the window, a zone of the batch is the scalar call.
  zone_eq :
      (by_tile : ℕ → ℕ → Option (Array F)) (zone : Zone F)
      → Covers (FindsTile by_tile) (zone_window g lv zone)
      → zone_stats by_tile ifd.layout m g lv band zone ≡ scalar zone
  unfolding zone_stats g size FindsTile
  zone_eq by_tile zone c = elim (Option-cases (zone_window (level_georef g0 l0 lv) lv zone)) [
    | inl e ↦ rw (e, zone_stats) (sym (scalar-none zone e))
    | inr (w, e) ↦
        let ts = window_tiles lv.tile_width lv.tile_height w in
        let found : All (Finds r ifd tile each by_tile) ts = rw (e) at c in
        let has : All (Has r ifd tile each) ts =
          All-imp (Finds r ifd tile each by_tile) (Has r ifd tile each) ts
            (λ t h. let (a, d, found_here) = h in (a, d)) found in
        let (arrays, q, f) = fetch_decoded_total r ifd tile each ts has in
        let same =
          accumulate_tiles-eq_union r ifd tile each by_tile ifd.layout w size band m.nodata
            (center_in (level_georef g0 l0 lv) zone) empty_zonal ts arrays f found in
        rw (e, zone_stats) (same ∙ sym (scalar-some zone w e ∙ rw (q) refl))
  ]

  zones_eq :
      (by_tile : ℕ → ℕ → Option (Array F)) (zones : List (Zone F))
      → AllWindows (FindsTile by_tile) lv.tile_width lv.tile_height (map (zone_window g lv) zones)
      → try_map (zone_stats by_tile ifd.layout m g lv band) zones ≡ try_map scalar zones
  zones_eq by_tile [] a = refl
  zones_eq by_tile (zone ∷ zones) a =
      let (c, rest) =
        windows_split (FindsTile by_tile) (zone_window g lv zone) (map (zone_window g lv) zones)
          a in
      rw (zone_eq by_tile zone c, zones_eq by_tile zones rest) refl

  -- A scalar call that returns has its tiles.
  scalar-Has :
      (zone : Zone F) (z : ZonalStats F)
      → scalar zone ≡ ok z
      → Covers HasTile (zone_window g lv zone)
  unfolding g HasTile
  scalar-Has zone z e = elim (Option-cases (zone_window (level_georef g0 l0 lv) lv zone)) [
    | inl none_here ↦ rw (none_here) tt
    | inr (w, here) ↦
        let (arrays, q, _) =
          bind-eq_ok (fetch_decoded r ifd (window_tiles lv.tile_width lv.tile_height w)) _
            (sym (scalar-some zone w here) ∙ e) in
        rw (here)
          (fetch_decoded-Has r ifd tile each (window_tiles lv.tile_width lv.tile_height w) q)
  ]

  scalars-Has :
      (zones : List (Zone F)) (zs : List (ZonalStats F))
      → try_map scalar zones ≡ ok zs
      → AllWindows HasTile lv.tile_width lv.tile_height (map (zone_window g lv) zones)
  scalars-Has [] zs e = tt
  scalars-Has (zone ∷ zones) zs e =
      let (z, p, e') = bind-eq_ok (scalar zone) _ e in
      let (zs', q, _) = bind-eq_ok (try_map scalar zones) _ e' in
      windows_join HasTile (zone_window g lv zone) (map (zone_window g lv) zones)
        (scalar-Has zone z p) (scalars-Has zones zs' q)

  union : List (Zone F) → List (ℕ × ℕ)
  union zones = union_tiles lv.tile_width lv.tile_height (map (zone_window g lv) zones) []

  -- Once the union is fetched, the batch is the scalar calls one after the other.
  batch_fetched :
      (zones : List (Zone F)) (arrays : List (Array F))
      → fetch_decoded r ifd (union zones) ≡ ok arrays
      → zonal_stats_polygon_batch_at r m zones band level ≡ try_map scalar zones
  unfolding union FindsTile
  batch_fetched zones arrays e =
      let has = fetch_decoded-Has r ifd tile each (union zones) e in
      let (arrays', e', f) = fetch_decoded_total r ifd tile each (union zones) has in
      let found = Fetched-Finds r ifd tile each (union zones) arrays' f in
      let (windows, _) =
        union-All (FindsTile (tile_lookup (union zones) arrays')) lv.tile_width lv.tile_height
          (map (zone_window g lv) zones) [] found in
      batch_some zones ∙ rw (e') (zones_eq (tile_lookup (union zones) arrays') zones windows)

  scalars-fetched :
      (zones : List (Zone F)) (zs : List (ZonalStats F))
      → try_map scalar zones ≡ ok zs
      → (arrays : List (Array F)) × (fetch_decoded r ifd (union zones) ≡ ok arrays)
  unfolding union HasTile
  scalars-fetched zones zs e =
      let has =
        All-union HasTile lv.tile_width lv.tile_height (map (zone_window g lv) zones) []
          (scalars-Has zones zs e) tt in
      let (arrays, q, _) = fetch_decoded_total r ifd tile each (union zones) has in (arrays, q)

  -- For a fetch that answers tile by tile, on a level that exists and a band of the image: the
  -- batch returns a list of results exactly if the scalar calls of `zonal_stats_polygon_at`, one
  -- for each zone in order, all return and their results are that list.
  pub zonal_stats_polygon_batch_at-ok_iff :
      (zones : List (Zone F)) (zs : List (ZonalStats F))
      → (zonal_stats_polygon_batch_at r m zones band level ≡ ok zs)
        ↔ (try_map (λ zone. zonal_stats_polygon_at r m zone band level) zones ≡ ok zs)
  unfolding scalar union
  zonal_stats_polygon_batch_at-ok_iff zones zs = (
    (λ e.
        let (arrays, q, _) =
          bind-eq_ok (fetch_decoded r ifd (union zones)) _ (sym (batch_some zones) ∙ e) in
        sym (batch_fetched zones arrays q) ∙ e),
    (λ e. let (arrays, q) = scalars-fetched zones zs e in batch_fetched zones arrays q ∙ e),
  )
