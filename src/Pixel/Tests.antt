-- ===== src/Pixel/Tests.antt =====
-- Reads of the image of four by four pixels, whose sample at (column, row) is numbered within its
-- tile.
use duckdb_cog.Base.{
  ℕ, ◌+◌, ◌-◌, ◌*◌, ◌≡◌, ◌↔◌, ◌⊎◌, refl, arith, Option, none, some, List, [], ◌∷◌, Result, ok,
  try_map, length,
}
use duckdb_cog.Base.Int.{ℤ, pos, negsuc, ◌+ℤ◌, ◌-ℤ◌, ◌*ℤ◌}
use duckdb_cog.Float.Half.{half_float, half_laws}
use duckdb_cog.Meta.{LevelMeta, CogMeta, Bbox}
use duckdb_cog.Meta.Build.Tests.{image_level, image_georef, image_meta}
use duckdb_cog.Zone.{Zone}
use duckdb_cog.Pixel.{uint_8, Array, chunky, PixelWindow, ZonalStats, empty_zonal}
use duckdb_cog.Pixel.Window.{center_window}
use duckdb_cog.Pixel.Window.Bounds.{Inside, center_window-Inside}
use duckdb_cog.Pixel.Select.{select_level}
use duckdb_cog.Pixel.Select.Pixels.{pixels_in}
use duckdb_cog.Pixel.Select.Budget.{FirstFit, NoFit, select_level_lem}
use duckdb_cog.Pixel.Reader.{IfdReader, CogReader}
use duckdb_cog.Pixel.Reader.Points.{read_pixels, read_pixel}
use duckdb_cog.Pixel.Reader.Points.Single.{Reads, read_pixels-ok_iff}
use duckdb_cog.Pixel.Reader.Zonal.{zonal_stats_polygon_at, zonal_stats_polygon_batch_at}
use duckdb_cog.Pixel.Reader.Zonal.Batch.{Opens, zonal_stats_polygon_batch_at-ok_iff}

-- The raw tile is the number of its place.
abbrev pub image_tile : ℕ × ℕ → Result (List ℕ) ℕ
image_tile t = ok (t.1 * 2 + t.0)

abbrev pub image_array : ℕ → Result (List ℕ) (Array ℤ)
image_array n = ok (record {
  shape = (2, 2, 1);
  samples = uint_8 ((4 * n) ∷ (4 * n + 1) ∷ (4 * n + 2) ∷ (4 * n + 3) ∷ []);
})

abbrev pub image_reader : CogReader ℤ ℕ
image_reader = record {
  ifds = record { layout = chunky; fetch_tiles = λ ts. try_map image_tile ts } ∷ [];
  decode = image_array;
}

abbrev pub image_fetch : IfdReader ℕ
image_fetch = record { layout = chunky; fetch_tiles = λ ts. try_map image_tile ts }

pub image_each : (ts : List (ℕ × ℕ)) → image_fetch.fetch_tiles ts ≡ try_map image_tile ts
image_each ts = refl

-- The box from (0.5, 0.5) to (3, 3) holds the centres of four pixels.
abbrev inner_box : Bbox ℤ
inner_box = record { xmin = pos 1; ymin = pos 4; xmax = pos 4; ymax = pos 8 }

abbrev pub inner_window : PixelWindow
inner_window = record { col_min = 0; col_max = 1; row_min = 0; row_max = 1 }

inner_found : center_window image_georef image_level inner_box ≡ some inner_window
unfolding center_window half_float ◌+ℤ◌ ◌-ℤ◌ ◌*ℤ◌
inner_found = refl

center_window-Inside_example : Inside image_level inner_window
center_window-Inside_example =
    center_window-Inside half_laws image_georef image_level inner_box inner_window (omega arith)
      (omega arith) inner_found

-- A second level of half the size.
abbrev overview : LevelMeta
overview = record image_level {
  level = 1;
  image_width = 2;
  image_height = 2;
  tiles_x = 1;
  tiles_y = 1;
}

abbrev two_levels : CogMeta ℤ
two_levels = record image_meta { levels = image_level ∷ overview ∷ [] }

select_level_lem_example :
    FirstFit
      (pixels_in image_georef image_level inner_box)
      1
      two_levels.levels
      (select_level two_levels inner_box 1)
    ⊎ ((select_level two_levels inner_box 1 ≡ length two_levels.levels - 1)
        × NoFit (pixels_in image_georef image_level inner_box) 1 two_levels.levels)
select_level_lem_example =
    select_level_lem two_levels inner_box 1 image_georef image_level (omega arith) (omega arith)
      refl refl

pub image-Reads : Reads image_reader image_meta 1 image_georef image_level image_fetch
image-Reads = record { georef = refl; first = refl; ifd_at = refl; band_inside = refl }

-- Two points of one tile, one outside, and one of another tile.
abbrev image_points : List (ℤ × ℤ)
image_points = (pos 7, pos 7) ∷ (pos 1, pos 7) ∷ (negsuc 0, pos 1) ∷ (pos 3, pos 5) ∷ []

abbrev image_values : List (Option ℤ)
image_values = some (pos 10) ∷ some (pos 0) ∷ none ∷ some (pos 6) ∷ []

read_pixels-ok_iff_example :
    (read_pixels image_reader image_meta image_points 1 ≡ ok image_values)
    ↔ (try_map (λ p. read_pixel image_reader image_meta p.0 p.1 1) image_points ≡ ok image_values)
read_pixels-ok_iff_example =
    read_pixels-ok_iff image_reader image_meta 1 image_georef image_level image_fetch image-Reads
      image_tile image_each image_points image_values

pub image-Opens : Opens image_reader image_meta 1 0 image_georef image_level image_level image_fetch
image-Opens = record {
  georef = refl;
  first = refl;
  at_level = refl;
  ifd_at = refl;
  band_inside = refl;
}

abbrev pub box_zone : ℕ → ℕ → Zone ℤ
box_zone lo hi =
    record {
      exterior =
          record { x = pos lo; y = pos lo }
          ∷ record { x = pos hi; y = pos lo }
          ∷ record { x = pos hi; y = pos hi }
          ∷ record { x = pos lo; y = pos hi }
          ∷ [];
      interiors = [];
    }
    ∷ []

-- Three pixels by three in the middle and to the right, and nothing.
abbrev image_zones : List (Zone ℤ)
image_zones = box_zone 2 6 ∷ [] ∷ []

abbrev image_sums : List (ZonalStats ℤ)
image_sums =
    record { count = 4; sum = pos 60; min_value = some (pos 6); max_value = some (pos 24) }
    ∷ empty_zonal
    ∷ []

zonal_stats_polygon_batch_at-ok_iff_example :
    (zonal_stats_polygon_batch_at image_reader image_meta image_zones 1 0 ≡ ok image_sums) ↔ (
      try_map (λ zone. zonal_stats_polygon_at image_reader image_meta zone 1 0) image_zones
      ≡ ok image_sums)
zonal_stats_polygon_batch_at-ok_iff_example =
    zonal_stats_polygon_batch_at-ok_iff image_reader image_meta 1 0 image_georef image_level
      image_level image_fetch image-Opens image_tile image_each image_zones image_sums
