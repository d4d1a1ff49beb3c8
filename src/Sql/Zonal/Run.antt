-- ===== src/Sql/Zonal/Run.antt =====
-- `RS_ZonalStats`: the files of a chunk, each opened once, and the rows' aggregates.
pub mod Alone
use duckdb_cog.Base.{
  ℕ, zero, suc, ◌+◌, ◌-◌, ◌*◌, min, Bool, true, false, ◌&&◌, ◌||◌, ◌⊎◌, inl, inr, Option, none,
  some, List, [], ◌∷◌, ◌++◌, map, Result, ok, err, ◌>>=◌, map_err, ltb, leb, ◌==◌, if◌then◌else◌,
  zip, length, get_elem?, try_map, replicate, range, filter_map,
}
use duckdb_cog.Base.Int.{ℤ, pos, negsuc}
use duckdb_cog.Base.Texts.{Text, text_eq}
use duckdb_cog.Float.{Float}
use duckdb_cog.Meta.{CogMeta, Bbox}
use duckdb_cog.Zone.{Zone, ZoneError, envelope}
use duckdb_cog.Pixel.{
  ZonalStats, ZonalStat, count_stat, sum_stat, mean_stat, min_stat, max_stat, value_scaled,
  level_scale,
}
use duckdb_cog.Pixel.Select.{select_level}
use duckdb_cog.Pixel.Reader.Zonal.{
  zonal_stats_at, zonal_stats_polygon_at, zonal_stats_polygon_batch_at,
}
use duckdb_cog.Sql.{
  SqlFailure, error, panic, cannot_open, unknown_stat, negative_max_pixels, S, at_path, zone_failed,
  Cog, ListColumn, max_end, box_at,
}
use duckdb_cog.Sql.Open.{Opener, find, remember}
use duckdb_cog.Sql.Open.Gather.{first_seen, open_all, gather}
use duckdb_cog.Sql.Vector.{FlatVector, ListVector, write_values, write_list_rows}
use duckdb_cog.Sql.Zonal.{
  ZonalRow, Job, Batch, zonal_args, zone_job, box_job, batch_job, jobs_loop, budget_column,
}

-- The loop of `run_rows` over the results of the rows, with `out` and `first_err`.
module _ {E A : Type 0} where
  unfoldable pub run_loop :
      List (Option A) → Option E → List (Result E (Option A)) → Result E (List (Option A))
  run_loop out none [] = ok out
  run_loop out (some e) [] = err e
  run_loop out first (ok v ∷ rs) = run_loop (out ++ v ∷ []) first rs
  run_loop out none (err e ∷ rs) = run_loop (out ++ none ∷ []) (some e) rs
  run_loop out (some e') (err e ∷ rs) = run_loop (out ++ none ∷ []) (some e') rs

  -- A row without a future is none.
  pub settle : Option (Result E A) → Result E (Option A)
  settle none = ok none
  settle (some (ok a)) = ok (some a)
  settle (some (err e)) = err e

-- No failure of a row stops the others, but a panic of any row ends them all.
unfoldable pub any_panic : {A : Type 0} → List (S A) → Bool
any_panic [] = false
any_panic (ok v ∷ rs) = any_panic rs
any_panic (err (error e) ∷ rs) = any_panic rs
any_panic (err panic ∷ rs) = true

module _ {A : Type 0} where
  -- The rows with what their futures end with, in order, whatever their number in flight. That every
  -- future ends is taken for granted here: of rows that share a tile that is not cached,
  -- TileCache.OneThread has one that waits for ever.
  unfoldable pub run_rows : List (Option (S A)) → S (List (Option A))
  unfolding run_loop settle any_panic
  run_rows rows =
      let done = map settle rows in if any_panic done then err panic else run_loop [] none done

-- Phases 2 and 3.
module _ {W C A B : Type 0} (open_cog : Opener W C) (run : Job A → C → S B) where
  pub job_paths : List (Option (Job A)) → List Text
  job_paths [] = []
  job_paths (none ∷ jobs) = job_paths jobs
  job_paths (some j ∷ jobs) = j.path ∷ job_paths jobs

  -- The future of a job; the map of the files is asked for its path at once.
  pub future : List (Text × C) → Option (Job A) → S (Option (S B))
  future files none = ok none
  future files (some j) = elim (find j.path files) [
    | none ↦ err panic
    | some c ↦ ok (some (run j c))
  ]

  unfoldable pub run_jobs : W → List (Option (Job A)) → W × S (List (Option B))
  unfolding job_paths first_seen open_all gather future run_rows
  run_jobs w jobs =
      let opened = open_all open_cog w (first_seen [] (job_paths jobs)) in
      (
        opened.0,
        gather (λ e. error (cannot_open e)) [] opened.1 >>= λ files.
            try_map (future files) jobs >>= λ futs. run_rows futs,
      )

module _ {F : Type 0} ⦃fl : Float F⦄ where
  -- `map_or(0, |e| select_level(…))`.
  unfoldable pub level_for : CogMeta F → Option (Bbox F) → ℕ → ℕ
  level_for m none max_pixels = 0
  level_for m (some e) max_pixels = select_level m e max_pixels

  -- The value of an element, at its place among the aggregates.
  pub slot_value : List (ZonalStats F) → ZonalStat → F → Option ℕ → S (Option F)
  slot_value zs stat scale none = ok none
  slot_value zs stat scale (some k) = elim (get_elem? zs k) [
    | none ↦ err panic
    | some z ↦ ok (value_scaled z stat scale)
  ]

module _ {F T : Type 0} ⦃fl : Float F⦄ where
  unfoldable pub run_zone : Job (Zone F) → Cog F T → S (Option F)
  unfolding level_for
  run_zone j c =
      let level = level_for c.0 (envelope j.zone) j.max_pixels in
      map_err (at_path j.path) (zonal_stats_polygon_at c.1 c.0 j.zone j.band level) >>= λ z.
      ok (value_scaled z j.stat (level_scale c.0 level))

  unfoldable pub run_box : Job (Bbox F) → Cog F T → S (Option F)
  run_box j c =
      let level = select_level c.0 j.zone j.max_pixels in
      map_err (at_path j.path) (zonal_stats_at c.1 c.0 j.zone j.band level) >>= λ z.
      ok (value_scaled z j.stat (level_scale c.0 level))

  unfoldable pub run_batch : Job (Batch F) → Cog F T → S (List (Option F))
  unfolding level_for slot_value
  run_batch j c =
      let level = level_for c.0 j.zone.env j.max_pixels in
      map_err (at_path j.path) (zonal_stats_polygon_batch_at c.1 c.0 j.zone.zones j.band level)
      >>= λ zs. try_map (slot_value zs j.stat (level_scale c.0 level)) j.zone.slot

-- `Option::flatten`.
unfoldable pub flatten : {A : Type 0} → Option (Option A) → Option A
flatten none = none
flatten (some o) = o

module _ {A : Type 0} where
  zonal_rows :
      List (Option Text)
      → List (Option A)
      → List (Option ℤ)
      → List (Option Text)
      → Option (List (Option ℤ))
      → List (ZonalRow A)
  zonal_rows paths zones bands names ms =
      zip paths (zip zones (zip bands (zip names (budget_column (length paths) ms))))

module _ {W C A B : Type 0} (open_cog : Opener W C) (run : Job A → C → S B) where
  -- An error of phase 1 opens nothing.
  run_or_fail : W → S (List (Option (Job A))) → W × S (List (Option B))
  unfolding run_jobs
  run_or_fail w (err e) = (w, err e)
  run_or_fail w (ok jobs) = run_jobs open_cog run w jobs

module _ {W F T V L : Type 0} ⦃fl : Float F⦄ (open_cog : Opener W (Cog F T)) (f : FlatVector F V)
    (lv : ListVector L) (parse : Text → Result ZoneError (Zone F)) where
  flat_output : V → W × S (List (Option (Option F))) → W × S V
  unfolding flatten
  flat_output v r = (r.0, r.1 >>= λ rows. ok (write_values f v (map flatten rows)))

  -- `invoke_wkt`.
  unfoldable pub rs_zonal_stats_wkt :
      W
      → V
      → List (Option Text)
      → List (Option Text)
      → List (Option ℤ)
      → List (Option Text)
      → Option (List (Option ℤ))
      → W × S V
  unfolding zonal_rows flat_output run_or_fail
  rs_zonal_stats_wkt w v paths zones bands names ms = flat_output v (
      run_or_fail open_cog run_zone w
        (jobs_loop (zone_job parse) [] (zonal_rows paths zones bands names ms)))

  -- `invoke` with a box.
  unfoldable pub rs_zonal_stats :
      W
      → V
      → List (Option Text)
      → ListColumn F
      → List (Option ℤ)
      → List (Option Text)
      → Option (List (Option ℤ))
      → W × S V
  unfolding zonal_rows flat_output run_or_fail
  rs_zonal_stats w v paths boxes bands names ms = flat_output v (
      run_or_fail open_cog run_box w (
        jobs_loop (λ (z : Unit {0}) r. box_job boxes r >>= λ o. ok (z, o)) tt
          (zonal_rows paths boxes.entries bands names ms)))

  -- `invoke_wkt_batch`.
  unfoldable pub rs_zonal_stats_wkt_batch :
      W
      → L
      → V
      → List (Option Text)
      → ListColumn Text
      → List (Option ℤ)
      → List (Option Text)
      → Option (List (Option ℤ))
      → W × S (L × V)
  unfolding zonal_rows run_or_fail
  rs_zonal_stats_wkt_batch w l v paths zones bands names ms =
      let r = run_or_fail open_cog run_batch w (
        jobs_loop (λ (z : Unit {0}) row. batch_job parse zones row >>= λ o. ok (z, o)) tt
          (zonal_rows paths zones.entries bands names ms)) in
      (r.0, r.1 >>= λ rows. ok (write_list_rows f lv l v rows))

-- The zone argument of the overloads of `RS_ZonalStats`.
pub data ZoneColumn (F : Type 0) : Type 0 where
  wkt : List (Option Text) → ZoneColumn F
  wkt_list : ListColumn Text → ZoneColumn F
  box_list : ListColumn F → ZoneColumn F

module _ {W F T V L : Type 0} ⦃fl : Float F⦄ (open_cog : Opener W (Cog F T)) (f : FlatVector F V)
    (lv : ListVector L) (parse : Text → Result ZoneError (Zone F)) where
  flat_result : W × S V → W × S (V ⊎ (L × V))
  flat_result r = (r.0, r.1 >>= λ v. ok (inl v))

  -- `invoke`: the overload by the type of the zone argument.
  unfoldable pub zonal_invoke :
      W
      → V
      → L
      → List (Option Text)
      → ZoneColumn F
      → List (Option ℤ)
      → List (Option Text)
      → Option (List (Option ℤ))
      → W × S (V ⊎ (L × V))
  unfolding flat_result rs_zonal_stats_wkt rs_zonal_stats rs_zonal_stats_wkt_batch
  zonal_invoke w v l paths (wkt zones) bands names ms =
      flat_result (rs_zonal_stats_wkt open_cog f lv parse w v paths zones bands names ms)
  zonal_invoke w v l paths (wkt_list zones) bands names ms =
      let r = rs_zonal_stats_wkt_batch open_cog f lv parse w l v paths zones bands names ms in
      (r.0, r.1 >>= λ out. ok (inr out))
  zonal_invoke w v l paths (box_list boxes) bands names ms =
      flat_result (rs_zonal_stats open_cog f lv parse w v paths boxes bands names ms)
