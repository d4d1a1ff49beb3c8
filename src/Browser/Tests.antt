-- ===== src/Browser/Tests.antt =====
-- The image of four by four pixels under one address: its window, and a registry that opens it.
use duckdb_cog.Base.{
  err, refl, try_map, ◌>>=◌, ℕ, ◌≡◌, arith, none, some, Option, List, [], ◌∷◌, Result, ok,
}
use duckdb_cog.Base.Int.{ℤ, pos}
use duckdb_cog.Base.Texts.{Text, text_eq}
use duckdb_cog.Float.Half.{half_float}
use duckdb_cog.Meta.Text.{codes}
use duckdb_cog.Meta.Build.Tests.{image_meta}
use duckdb_cog.Pixel.Tests.{box_zone, image_reader}
use duckdb_cog.Sql.{Cog}
use duckdb_cog.Sql.Open.{Opener}
use duckdb_cog.Zone.{Zone, ZoneError}
use duckdb_cog.Browser.{
  parse_inputs, strings, zonal_stats, zonal_stats_batch, WindowObject, band_window_js,
  band_window_polygon_js,
}
use duckdb_cog.Sql.Open.Gather.Logged.{OpensOnce}
use duckdb_cog.Sql.Open.Once.{logged}
use duckdb_cog.Browser.Batch.{url_alone, zonal_stats_batch-alone}
use duckdb_cog.Sql.Zonal.{parse_zonal_stat}
use duckdb_cog.Pixel.{sum_stat}
use duckdb_cog.Browser.Windows.{IsFilled, band_window_js-IsFilled}
use duckdb_cog.Browser.Registry.{Registry, open_cached}
use duckdb_cog.Browser.Registry.Bounds.{IsKept, open_cached-IsKept}

abbrev page_store : Opener (Unit {0}) (Cog ℤ ℕ)
page_store w url = (w, ok (image_meta, image_reader))

abbrev inner_box : List (Option ℤ)
inner_box = some (pos 1) ∷ some (pos 4) ∷ some (pos 4) ∷ some (pos 8) ∷ []

-- The object that `bandWindow` returns for the box.
abbrev inner_window : WindowObject ℤ
inner_window = record {
  values = pos 0 ∷ pos 2 ∷ pos 4 ∷ pos 6 ∷ [];
  width = 2;
  height = 2;
  bbox = some (record { xmin = pos 0; ymin = pos 4; xmax = pos 4; ymax = pos 8 });
}

band_window_js-IsFilled_example :
    ((items : List (Option ℤ))
      → (band_window_js page_store tt (codes "a") items 1).1 ≡ ok (some inner_window)
      → IsFilled inner_window)
    × ((parse : Text → Result ZoneError (Zone ℤ)) (wkt : Text)
        → (band_window_polygon_js page_store parse tt (codes "a") wkt 1).1 ≡ ok (some inner_window)
        → IsFilled inner_window)
band_window_js-IsFilled_example = band_window_js-IsFilled page_store tt (codes "a") 1 inner_window

abbrev opened_image : Result Text (Cog ℤ ℕ)
opened_image = ok (image_meta, image_reader)

abbrev empty_page : Registry (Cog ℤ ℕ) ℕ
empty_page = record { readers = []; tiles = none }

open_cached-IsKept_example :
    IsKept (codes "a") (open_cached empty_page empty_page (codes "a") opened_image)
open_cached-IsKept_example =
    open_cached-IsKept empty_page empty_page (codes "a") opened_image (omega arith) (omega arith)

-- The image under every address but the one that is empty.
abbrev page_now : Text → Result Text (Cog ℤ ℕ)
page_now [] = err (codes "no address")
page_now (c ∷ url) = ok (image_meta, image_reader)

abbrev page_opener : Opener (Unit {0}) (Cog ℤ ℕ)
page_opener w url = (w, page_now url)

abbrev one_zone : Text → Result ZoneError (Zone ℤ)
one_zone wkt = ok (box_zone 1 3)

sum_of_zone : parse_inputs one_zone (codes "POLYGON") (codes "Sum") ≡ ok (box_zone 1 3, sum_stat)
unfolding parse_inputs parse_zonal_stat text_eq
sum_of_zone = refl

two_urls : strings (some (codes "a") ∷ some (codes "a") ∷ []) ≡ ok (codes "a" ∷ codes "a" ∷ [])
unfolding strings
two_urls = refl

zonal_stats_batch-alone_example :
    ((zonal_stats_batch page_opener one_zone tt
        (some (codes "a") ∷ some (codes "a") ∷ [])
        (codes "POLYGON")
        1
        (codes "Sum")
        none).1
      ≡ (try_map
            (url_alone page_opener one_zone page_now (λ w p. refl))
            (codes "a" ∷ codes "a" ∷ [])
          >>= λ _.
              try_map
                (λ url.
                  (zonal_stats page_opener one_zone tt url
                    (codes "POLYGON")
                    1
                    (codes "Sum")
                    none).1)
                (codes "a" ∷ codes "a" ∷ [])))
    × OpensOnce
        (zonal_stats_batch
          (logged page_now)
          one_zone
          []
          (some (codes "a") ∷ some (codes "a") ∷ [])
          (codes "POLYGON")
          1
          (codes "Sum")
          none).0
        (codes "a" ∷ codes "a" ∷ [])
zonal_stats_batch-alone_example =
    zonal_stats_batch-alone page_opener one_zone page_now (λ w p. refl) tt
      (some (codes "a") ∷ some (codes "a") ∷ []) (codes "a" ∷ codes "a" ∷ []) (codes "POLYGON") 1
      (codes "Sum") none (box_zone 1 3, sum_stat) sum_of_zone two_urls
