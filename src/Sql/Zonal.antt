-- ===== src/Sql/Zonal.antt =====
-- `RS_ZonalStats`: the arguments of the rows. `Run` opens the files and computes the rows.
pub mod Run
use duckdb_cog.Base.{
  ℕ, zero, suc, ◌+◌, ◌-◌, ◌*◌, min, Bool, true, false, ◌&&◌, ◌||◌, Option, none, some, List, [],
  ◌∷◌, ◌++◌, map, Result, ok, err, ◌>>=◌, map_err, ltb, leb, ◌==◌, if◌then◌else◌, zip, length,
  get_elem?, try_map, replicate, range, filter_map,
}
use duckdb_cog.Base.Int.{ℤ, pos, negsuc}
use duckdb_cog.Base.Texts.{Text, text_eq}
use duckdb_cog.Float.{Float}
use duckdb_cog.Meta.{CogMeta, Bbox}
use duckdb_cog.Zone.{Zone, ZoneError, envelope}
use duckdb_cog.Pixel.{
  ZonalStats, ZonalStat, count_stat, sum_stat, mean_stat, min_stat, max_stat, value_scaled,
  level_scale,
}
use duckdb_cog.Pixel.Select.{select_level}
use duckdb_cog.Pixel.Reader.Zonal.{
  zonal_stats_at, zonal_stats_polygon_at, zonal_stats_polygon_batch_at,
}
use duckdb_cog.Sql.{
  SqlFailure, error, panic, cannot_open, unknown_stat, negative_max_pixels, S, at_path, zone_failed,
  Cog, ListColumn, max_end, box_at,
}
use duckdb_cog.Sql.Open.{Opener, find, remember}
use duckdb_cog.Sql.Values.{band_or_zero}

-- `to_ascii_lowercase`.
lower : ℕ → ℕ
lower c = if leb b'A' c && leb c b'Z' then c + 32 else c

-- `ZonalStat::from_str`; the error holds the name in lower case.
unfoldable pub parse_zonal_stat : Text → S ZonalStat
unfolding lower
parse_zonal_stat raw =
    let s = map lower raw in
    if text_eq s (b'c' ∷ b'o' ∷ b'u' ∷ b'n' ∷ b't' ∷ [])
    then ok count_stat
    else if text_eq s (b's' ∷ b'u' ∷ b'm' ∷ [])
    then ok sum_stat
    else if text_eq s (b'm' ∷ b'e' ∷ b'a' ∷ b'n' ∷ [])
    then ok mean_stat
    else if text_eq s (b'm' ∷ b'i' ∷ b'n' ∷ [])
    then ok min_stat
    else if text_eq s (b'm' ∷ b'a' ∷ b'x' ∷ [])
    then ok max_stat
    else err (error (unknown_stat s))

-- `max_pixels`: 0 without a column; NULL passes the row over.
unfoldable pub budget : Option (Option ℤ) → S (Option ℕ)
budget none = ok (some 0)
budget (some none) = ok none
budget (some (some (pos n))) = ok (some n)
budget (some (some (negsuc n))) = err (error negative_max_pixels)

unfoldable pub budget_column : ℕ → Option (List (Option ℤ)) → List (Option (Option ℤ))
budget_column n none = replicate n none
budget_column n (some ms) = map some ms

-- What the three overloads check alike, in their order: NULLs, the name of the aggregate, the
-- budget.
pub record Checked (A : Type 0) : Type 0 where
  pub path : Text
  pub zone : A
  pub band : ℤ
  pub stat : ZonalStat
  pub max_pixels : ℕ

-- Path, zone, band, name of the aggregate, and the budget where there is a column of it.
abbrev pub ZonalRow : Type 0 → Type 0
ZonalRow A = Option Text × (Option A × (Option ℤ × (Option Text × Option (Option ℤ))))

module _ {A : Type 0} where
  unfoldable pub zonal_args : ZonalRow A → S (Option (Checked A))
  zonal_args (some path, (some zone, (some band, (some name, mp)))) =
      parse_zonal_stat name >>= λ stat. budget mp >>= λ m. elim m [
        | none ↦ ok none
        | some max_pixels ↦ ok (
            some (record {
              path = path;
              zone = zone;
              band = band;
              stat = stat;
              max_pixels = max_pixels;
            }))
      ]
  zonal_args r = ok none

-- `Job`: a row of which the arguments are parsed.
pub record Job (A : Type 0) : Type 0 where
  pub path : Text
  pub zone : A
  pub band : ℕ
  pub stat : ZonalStat
  pub max_pixels : ℕ

job_of : {A B : Type 0} → Checked A → B → Job B
job_of c zone = record {
  path = c.path;
  zone = zone;
  band = band_or_zero c.band;
  stat = c.stat;
  max_pixels = c.max_pixels;
}

-- Phase 1: a loop that stops at the first error.
module _ {Z R J : Type 0} (prepare : Z → R → S (Z × Option J)) where
  unfoldable pub jobs_loop : Z → List R → S (List (Option J))
  jobs_loop z [] = ok []
  jobs_loop z (r ∷ rs) = prepare z r >>= λ p. jobs_loop p.0 rs >>= λ jobs. ok (p.1 ∷ jobs)

module _ {F : Type 0} where
  -- A zone text, parsed once in a chunk.
  unfoldable pub zone_job :
      (Text → Result ZoneError (Zone F))
      → List (Text × Zone F)
      → ZonalRow Text
      → S (List (Text × Zone F) × Option (Job (Zone F)))
  unfolding zonal_args remember job_of
  zone_job parse zones r = zonal_args r >>= λ o. elim o [
    | none ↦ ok (zones, none)
    | some c ↦ remember (λ t. map_err zone_failed (parse t)) zones c.zone >>= λ z.
        ok (z.0, some (job_of c z.1))
  ]

  unfoldable pub box_job : ListColumn F → ZonalRow (ℕ × ℕ) → S (Option (Job (Bbox F)))
  unfolding zonal_args job_of
  box_job boxes r = zonal_args r >>= λ o. elim o [
    | none ↦ ok none
    | some c ↦
        box_at boxes c.zone >>= λ b. elim b [ none ↦ ok none | some box ↦ ok (some (job_of c box)) ]
  ]

-- The elements of a list row: the slice ends at the largest end of a row.
unfoldable pub row_elements : ListColumn Text → ℕ × ℕ → List (Option Text)
row_elements zones (o, n) = map zones.child (range o (min (o + n) (max_end zones.entries) - o))

-- A list of zones: for each element its place among the zones that are parsed, none for a NULL.
pub record Batch (F : Type 0) : Type 0 where
  pub slot : List (Option ℕ)
  pub zones : List (Zone F)
  pub env : Option (Bbox F)

module _ {F : Type 0} ⦃fl : Float F⦄ where
  -- The loop over the elements, after `slot` and `zones`.
  unfoldable pub zone_list :
      (Text → Result ZoneError (Zone F))
      → List (Option ℕ)
      → List (Zone F)
      → List (Option Text)
      → S (List (Option ℕ) × List (Zone F))
  zone_list parse slot zones [] = ok (slot, zones)
  zone_list parse slot zones (none ∷ ts) = zone_list parse (slot ++ none ∷ []) zones ts
  zone_list parse slot zones (some t ∷ ts) = map_err zone_failed (parse t) >>= λ z.
      zone_list parse (slot ++ some (length zones) ∷ []) (zones ++ z ∷ []) ts

  join : Bbox F → Bbox F → Bbox F
  join a b = record {
    xmin = fl.fmin a.xmin b.xmin;
    ymin = fl.fmin a.ymin b.ymin;
    xmax = fl.fmax a.xmax b.xmax;
    ymax = fl.fmax a.ymax b.ymax;
  }

  join_all : Bbox F → List (Bbox F) → Bbox F
  unfolding join
  join_all e [] = e
  join_all e (b ∷ bs) = join_all (join e b) bs

  -- `reduce`.
  unfoldable pub joined : List (Bbox F) → Option (Bbox F)
  unfolding join_all
  joined [] = none
  joined (b ∷ bs) = some (join_all b bs)

  unfoldable pub batch_job :
      (Text → Result ZoneError (Zone F))
      → ListColumn Text
      → ZonalRow (ℕ × ℕ)
      → S (Option (Job (Batch F)))
  unfolding zonal_args job_of zone_list joined row_elements
  batch_job parse column r = zonal_args r >>= λ o. elim o [
    | none ↦ ok none
    | some c ↦ zone_list parse [] [] (row_elements column c.zone) >>= λ z. ok (
        some
          (job_of c (record { slot = z.0; zones = z.1; env = joined (filter_map envelope z.1) })))
  ]
