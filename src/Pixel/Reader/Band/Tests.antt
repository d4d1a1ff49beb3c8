-- ===== src/Pixel/Reader/Band/Tests.antt =====
-- The four pixels of the upper left tile.
use duckdb_cog.Base.{
  ℕ, ◌+◌, ◌*◌, ◌/◌, ◌%◌, ◌<◌, ◌≡◌, refl, arith, Option, none, some, List, [], ◌∷◌, ok, length,
  get_elem?,
}
use duckdb_cog.Base.Int.{ℤ, pos}
use duckdb_cog.Float.Half.{half_float}
use duckdb_cog.Meta.Build.Tests.{image_level}
use duckdb_cog.Pixel.{sample_index, convert, sample_get, sample_array, apply_nodata}
use duckdb_cog.Pixel.Tests.{image_tile, image_reader, image_fetch, image_each, inner_window}
use duckdb_cog.Pixel.Reader.{as_tiff, window_tiles, span, fetch_decoded, read_sample}
use duckdb_cog.Pixel.Reader.Band.{
  window_width, window_height, store, write_pixel, write_tile, write_tiles, read_window,
}
use duckdb_cog.Pixel.Reader.Band.Pixels.{PixelIs, read_window_lem}

abbrev inner_values : List (Option ℤ)
inner_values = some (pos 0) ∷ some (pos 2) ∷ some (pos 4) ∷ some (pos 6) ∷ []

inner_read : read_window image_reader image_fetch image_level none 1 inner_window ≡ ok inner_values
unfolding store write_pixel write_tile write_tiles read_window as_tiff window_tiles span
    fetch_decoded read_sample sample_index convert sample_get sample_array apply_nodata half_float
inner_read = refl

read_window_lem_example :
    (length inner_values ≡ window_width inner_window * window_height inner_window)
    × ((k : ℕ)
        → k < window_width inner_window * window_height inner_window
        → (s : Option ℤ) × (get_elem? inner_values k ≡ some s)
          × PixelIs image_reader image_fetch image_tile image_each image_level none 1 inner_window
              (omega arith)
              (omega arith)
              (inner_window.col_min + k % window_width inner_window)
              (inner_window.row_min + k / window_width inner_window)
              s)
read_window_lem_example =
    read_window_lem image_reader image_fetch image_tile image_each image_level none 1 inner_window
      (omega arith) (omega arith) inner_values (omega arith) (omega arith) inner_read
