-- ===== src/Browser/Batch.antt =====
-- A batch over addresses against a call for each of them.
use duckdb_cog.Base.{ℕ, ◌≡◌, refl, ◌∙◌, Option, List, [], ◌∷◌, Result, ok, ◌>>=◌, try_map, All}
use duckdb_cog.Base.Texts.{Text}
use duckdb_cog.Float.{Float}
use duckdb_cog.Zone.{Zone, ZoneError}
use duckdb_cog.Pixel.{ZonalStat}
use duckdb_cog.Sql.{Cog}
use duckdb_cog.Sql.Open.{Opener}
use duckdb_cog.Sql.Open.Alone.{Kept, find-Kept}
use duckdb_cog.Sql.Open.Gather.{first_seen}
use duckdb_cog.Sql.Open.Gather.Firsts.{first_seen-fails_first}
use duckdb_cog.Sql.Open.Gather.Logged.{OpensOnce, first_seen-OpensOnce}
use duckdb_cog.Sql.Open.Once.{logged}
use duckdb_cog.Sql.Open.Gather.Steady.{
  first_seen-All, open_alone, collect_lem, Found, collect-Holds, collect_then,
}
use duckdb_cog.Browser.{
  cannot_open, J, strings, parse_inputs, zonal_on, or_zero, batch_value, then_opened, after_inputs,
  zonal_stats, zonal_stats_batch,
}

module _ {W F T : Type 0} ⦃fl : Float F⦄ (open_cached : Opener W (Cog F T))
    (parse : Text → Result ZoneError (Zone F)) (now : Text → Result Text (Cog F T))
    (steady : (w : W) (path : Text) → (open_cached w path).1 ≡ now path) where
  -- The opening of one address.
  abbrev pub url_alone : Text → J (Cog F T)
  url_alone = open_alone cannot_open open_cached now steady

  single :
      (w : W) (url wkt : Text) (band : ℕ) (name : Text) (mp : Option ℕ)
      (inputs : Zone F × ZonalStat) (c : Cog F T)
      → parse_inputs parse wkt name ≡ ok inputs
      → url_alone url ≡ ok c
      → (zonal_stats open_cached parse w url wkt band name mp).1
        ≡ zonal_on c inputs.0 band inputs.1 (or_zero mp)
  unfolding zonal_stats after_inputs then_opened
  single w url wkt band name mp inputs c judged opens =
      rw (judged, after_inputs) (rw (steady w url, opens) refl)

  values :
      (w : W) (wkt : Text) (band : ℕ) (name : Text) (mp : Option ℕ) (inputs : Zone F × ZonalStat)
      (m : List (Text × Cog F T)) (names : List Text)
      → parse_inputs parse wkt name ≡ ok inputs
      → Kept url_alone m
      → All (Found m) names
      → try_map (batch_value inputs.0 inputs.1 band (or_zero mp) m) names
        ≡ try_map (λ url. (zonal_stats open_cached parse w url wkt band name mp).1) names
  unfolding batch_value
  values w wkt band name mp inputs m [] judged kept found = refl
  values w wkt band name mp inputs m (url ∷ names) judged kept ((c, held), found) =
      let one : (zonal_stats open_cached parse w url wkt band name mp).1
          ≡ zonal_on c inputs.0 band inputs.1 (or_zero mp) =
        single w url wkt band name mp inputs c judged (find-Kept url_alone url m c kept held) in
      let rest = values w wkt band name mp inputs m names judged kept found in
      let kept_one : batch_value inputs.0 inputs.1 band (or_zero mp) m url
          ≡ zonal_on c inputs.0 band inputs.1 (or_zero mp) =
        rw (held, batch_value) refl in
      rw (kept_one, one, rest) refl

  -- Where zone and name are accepted, for a batch over addresses that are strings. Where opening an
  -- address answers the same whenever it is done, the batch never misses a reader, fails with the
  -- first address that does not open, and otherwise settles with what the calls of `zonalStats` for
  -- the addresses, one by one in their order, settle with: all values, or the first failure. An
  -- opener that logs its addresses has logged exactly the given ones, each once.
  pub zonal_stats_batch-alone :
      (w : W) (urls : List (Option Text)) (names : List Text) (wkt : Text) (band : ℕ) (name : Text)
      (max_pixels : Option ℕ) (inputs : Zone F × ZonalStat)
      → parse_inputs parse wkt name ≡ ok inputs
      → strings urls ≡ ok names
      → ((zonal_stats_batch open_cached parse w urls wkt band name max_pixels).1 ≡ (
          try_map url_alone names >>= λ _.
          try_map (λ url. (zonal_stats open_cached parse w url wkt band name max_pixels).1) names))
        × OpensOnce (zonal_stats_batch (logged now) parse [] urls wkt band name max_pixels).0 names
  unfolding zonal_stats_batch after_inputs
  zonal_stats_batch-alone w urls names wkt band name mp inputs judged texts =
      let ps : List Text = first_seen [] names in
      let each : J (List (Option F)) =
        try_map (λ url. (zonal_stats open_cached parse w url wkt band name mp).1) names in
      (
        rw (judged, after_inputs)
            (rw (texts, after_inputs)
              (rw (collect_lem cannot_open open_cached now steady w [] ps) (
                collect_then cannot_open open_cached now steady [] ps
                  (λ m. try_map (batch_value inputs.0 inputs.1 band (or_zero mp) m) names) each
                  (λ m e.
                    let h = collect-Holds cannot_open open_cached now steady [] ps m tt e in
                    values w wkt band name mp inputs m names judged h.kept
                      (first_seen-All (Found m) [] names tt h.found))
                ∙ first_seen-fails_first url_alone each names))),
        rw (judged, after_inputs) (rw (texts, after_inputs) (first_seen-OpensOnce now names)),
      )
