-- ===== src/Meta/Tiles/Tests.antt =====
-- The four tiles of the image of four by four pixels.
use duckdb_cog.Base.{
  ℕ, ◌+◌, ◌-◌, ◌*◌, ◌^◌, ◌<◌, ◌≡◌, ◌↔◌, refl, arith, none, some, List, [], ◌∷◌, ok, err, length,
  get_elem?, In,
}
use duckdb_cog.Base.Int.{ℤ, pos, ◌+ℤ◌, ◌-ℤ◌, ◌*ℤ◌}
use duckdb_cog.Float.Half.{half_float}
use duckdb_cog.TileKey.{pack_tile_key}
use duckdb_cog.Meta.{LevelMeta, Georef, Bbox, TileRow, invalid_filter, filter_without_georef}
use duckdb_cog.Meta.Build.Tests.{image_ifd, image_meta, image_built}
use duckdb_cog.Meta.Tiles.{
  level_tiles, tile_bbox, bbox_intersects, bbox_invalid, base_size, row_bbox, tile_row,
  collect_rows, enumerate_tiles, row_meets, keep_rows, enumerate_tiles_filtered,
}
use duckdb_cog.Meta.Tiles.Keys.{tiles_before, IsRowOf, enumerate_tiles_lem}
use duckdb_cog.Meta.Tiles.Shares.{LeLaws, IsFilter, IsOrdered, Shares}
use duckdb_cog.Meta.Tiles.Filter.{Sublist, enumerate_tiles_filtered_lem}

abbrev pub image_row : ℕ → ℕ → TileRow ℤ
image_row x y = record {
  id = x * 2 ^ 24 + y;
  level = 0;
  tile_x = x;
  tile_y = y;
  cols = 2;
  rows = 2;
  bbox = some (record {
    xmin = pos (4 * x);
    ymin = pos (4 - 4 * y);
    xmax = pos (4 * x + 4);
    ymax = pos (8 - 4 * y);
  });
}

abbrev pub image_rows : List (TileRow ℤ)
image_rows = image_row 0 0 ∷ image_row 1 0 ∷ image_row 0 1 ∷ image_row 1 1 ∷ []

rows_of_image : enumerate_tiles image_meta ≡ some image_rows
unfolding level_tiles tile_bbox base_size row_bbox tile_row collect_rows enumerate_tiles
    pack_tile_key half_float ◌+ℤ◌ ◌-ℤ◌ ◌*ℤ◌
rows_of_image = refl

pub unfiltered : enumerate_tiles_filtered image_meta none ≡ some (ok image_rows)
unfolding enumerate_tiles_filtered level_tiles tile_bbox base_size row_bbox tile_row collect_rows
    enumerate_tiles pack_tile_key half_float ◌+ℤ◌ ◌-ℤ◌ ◌*ℤ◌
unfiltered = refl

-- The lower left pixel.
abbrev corner_box : Bbox ℤ
corner_box = record { xmin = pos 0; ymin = pos 0; xmax = pos 1; ymax = pos 1 }

corner_kept : enumerate_tiles_filtered image_meta (some corner_box) ≡ some (ok (image_row 0 1 ∷ []))
unfolding bbox_intersects bbox_invalid row_meets keep_rows enumerate_tiles_filtered level_tiles
    tile_bbox base_size row_bbox tile_row collect_rows enumerate_tiles pack_tile_key half_float ◌+ℤ◌
    ◌-ℤ◌ ◌*ℤ◌
corner_kept = refl

enumerate_tiles_lem_example :
    (rows : List (TileRow ℤ)) × (enumerate_tiles image_meta ≡ some rows)
    × (length rows ≡ tiles_before image_meta.levels (length image_meta.levels))
    × ((i : ℕ) (l : LevelMeta) (x y : ℕ)
        → get_elem? image_meta.levels i ≡ some l
        → x < l.tiles_x
        → y < l.tiles_y
        → (r : TileRow ℤ) × (get_elem? rows (tiles_before image_meta.levels i + (y * l.tiles_x + x))
            ≡ some r)
          × IsRowOf image_meta l x y r)
enumerate_tiles_lem_example = enumerate_tiles_lem (image_ifd ∷ []) image_meta image_built

half_order : LeLaws half_float
unfolding half_float
half_order = record {
  le_trans = λ a b c h h'. ground arith;
  le_numbers = λ a b h. (ground arith, ground arith);
  le_total = λ a b h h' e. ground arith;
  finite-le = λ a h. ground arith;
  le-lt = λ a b h h'. ground arith;
}

enumerate_tiles_filtered_lem_example :
    (¬ IsFilter corner_box
      → enumerate_tiles_filtered image_meta (some corner_box) ≡ some (err invalid_filter))
    × (IsFilter corner_box
        → image_meta.georef ≡ none
        → enumerate_tiles_filtered image_meta (some corner_box) ≡ some (err filter_without_georef))
    × ((g : Georef ℤ)
        → IsFilter corner_box
        → image_meta.georef ≡ some g
        → (kept : List (TileRow ℤ)) × (enumerate_tiles_filtered image_meta (some corner_box)
            ≡ some (ok kept))
          × Sublist kept image_rows
          × ((r : TileRow ℤ) → In r kept → (b : Bbox ℤ) × (r.bbox ≡ some b))
          × ((r : TileRow ℤ) (b : Bbox ℤ)
              → In r image_rows
              → r.bbox ≡ some b
              → IsOrdered b
              → In r kept ↔ Shares b corner_box))
enumerate_tiles_filtered_lem_example =
    enumerate_tiles_filtered_lem half_order image_meta corner_box image_rows rows_of_image
