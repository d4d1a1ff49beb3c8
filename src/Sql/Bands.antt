-- ===== src/Sql/Bands.antt =====
-- `RS_BandAsArray`: a whole band, the window of a box, or the window of a zone.
use duckdb_cog.Base.{
  ℕ, Option, none, some, List, [], Result, ok, ◌>>=◌, map_err, zip, length, replicate,
}
use duckdb_cog.Base.Int.{ℤ}
use duckdb_cog.Base.Texts.{Text}
use duckdb_cog.Float.{Float}
use duckdb_cog.Meta.{Bbox}
use duckdb_cog.Zone.{Zone, ZoneError}
use duckdb_cog.Pixel.Reader.Band.{band_window, band_window_polygon}
use duckdb_cog.Sql.{S, at_path, zone_failed, Cog, ListColumn, box_at}
use duckdb_cog.Sql.Vector.{FlatVector, ListVector, write_list_rows}
use duckdb_cog.Sql.Open.{Opener, remember, rows_loop}
use duckdb_cog.Sql.Values.{stateless, band_or_zero}

module _ {F : Type 0} where
  -- The box of a row, from the column where there is one; `none` passes the row over.
  box_arg : Option (ListColumn F) → Option (ℕ × ℕ) → S (Option (Option (Bbox F)))
  box_arg none entry = ok (some none)
  box_arg (some boxes) none = ok none
  box_arg (some boxes) (some entry) =
      box_at boxes entry >>= λ b. elim b [ none ↦ ok none | some box ↦ ok (some (some box)) ]

  unfoldable pub band_args :
      Option (ListColumn F)
      → Option Text × (Option ℤ × Option (ℕ × ℕ))
      → S (Option (Text × (Option (Bbox F) × ℤ)))
  unfolding box_arg
  band_args boxes (none, (band, entry)) = ok none
  band_args boxes (some path, (none, entry)) = ok none
  band_args boxes (some path, (some band, entry)) = box_arg boxes entry >>= λ b. elim b [
    | none ↦ ok none
    | some box ↦ ok (some (path, (box, band)))
  ]

  box_entries : ℕ → Option (ListColumn F) → List (Option (ℕ × ℕ))
  box_entries n none = replicate n none
  box_entries n (some boxes) = boxes.entries

  -- The arguments of the overload with a zone, whose text is parsed once in a chunk.
  unfoldable pub zone_band_args :
      (Text → Result ZoneError (Zone F))
      → List (Text × Zone F)
      → Option Text × (Option ℤ × Option Text)
      → S (List (Text × Zone F) × Option (Text × (Zone F × ℤ)))
  unfolding remember
  zone_band_args parse zones (some path, (some band, some wkt)) =
      remember (λ t. map_err zone_failed (parse t)) zones wkt >>= λ z.
      ok (z.0, some (path, (z.1, band)))
  zone_band_args parse zones r = ok (zones, none)

module _ {F T : Type 0} ⦃fl : Float F⦄ where
  unfoldable pub answer_band : Text → Cog F T → Option (Bbox F) × ℤ → S (Option (List (Option F)))
  answer_band path c (box, band) =
      map_err (at_path path) (band_window c.1 c.0 box (band_or_zero band))

  unfoldable pub answer_zone_band : Text → Cog F T → Zone F × ℤ → S (Option (List (Option F)))
  answer_zone_band path c (zone, band) =
      map_err (at_path path) (band_window_polygon c.1 c.0 zone (band_or_zero band))

module _ {W F T V L : Type 0} ⦃fl : Float F⦄ (open_cog : Opener W (Cog F T)) (f : FlatVector F V)
    (lv : ListVector L) where
  list_output : L → V → W × S (List (Option (List (Option F)))) → W × S (L × V)
  list_output l v r = (r.0, r.1 >>= λ rows. ok (write_list_rows f lv l v rows))

  -- `invoke`, without and with boxes.
  unfoldable pub rs_band_as_array :
      W → L → V → List (Option Text) → List (Option ℤ) → Option (ListColumn F) → W × S (L × V)
  unfolding band_args answer_band box_entries list_output
  rs_band_as_array w l v paths bands boxes = list_output l v (
      rows_loop open_cog (stateless (band_args boxes)) answer_band tt w []
        (zip paths (zip bands (box_entries (length paths) boxes))))

  -- `invoke_wkt`.
  unfoldable pub rs_band_as_array_wkt :
      (Text → Result ZoneError (Zone F))
      → W
      → L
      → V
      → List (Option Text)
      → List (Option ℤ)
      → List (Option Text)
      → W × S (L × V)
  unfolding zone_band_args answer_zone_band list_output
  rs_band_as_array_wkt parse w l v paths bands zones = list_output l v (
      rows_loop open_cog (zone_band_args parse) answer_zone_band [] w []
        (zip paths (zip bands zones)))
