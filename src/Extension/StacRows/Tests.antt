-- ===== src/Extension/StacRows/Tests.antt =====
-- A batch of two rows: one without a box or bands, one with a box and two bands.
use duckdb_cog.Base.{none, some, [], ◌∷◌, refl}
use duckdb_cog.Base.Int.{ℤ, pos}
use duckdb_cog.Base.Texts.{Text}
use duckdb_cog.Meta.{Bbox}
use duckdb_cog.Stac.{StacAssetRow}
use duckdb_cog.Stac.Rows.Tests.{asset_row}
use duckdb_cog.Sql.Vector.Columns.{Column, Lists, column, lists, blank_lists, blank}
use duckdb_cog.Extension.StacRows.{StacChunk, write_stac_batch}
use duckdb_cog.Extension.StacRows.Read.{Reads, read-write_stac_batch}

abbrev blank_chunk : StacChunk (Column Text) (Column ℤ) (Column (Bbox ℤ)) Lists
blank_chunk = record {
  item_id = blank [];
  collection = blank [];
  datetime = blank [];
  asset_key = blank [];
  href = blank [];
  media_type = blank [];
  bbox = blank (record { xmin = pos 0; ymin = pos 0; xmax = pos 0; ymax = pos 0 });
  xmin = blank (pos 7);
  ymin = blank (pos 7);
  xmax = blank (pos 7);
  ymax = blank (pos 7);
  band_stats = blank_lists;
  min_value = blank (pos 7);
  max_value = blank (pos 7);
  mean = blank (pos 7);
  stddev = blank (pos 7);
  len = 0;
}

-- A row with a box and two bands, behind one without.
abbrev full_row : StacAssetRow ℤ
full_row = record asset_row {
  bbox = some (record { xmin = pos 1; ymin = pos 2; xmax = pos 3; ymax = pos 4 });
  band_stats = some (
      record { min_value = some (pos 5); max_value = none; mean = some (pos 6); stddev = none }
      ∷ record { min_value = none; max_value = some (pos 8); mean = none; stddev = none }
      ∷ []);
}

read-write_stac_batch_example :
    Reads column column column lists
      (write_stac_batch column column column lists (asset_row ∷ full_row ∷ []) blank_chunk)
      1
      full_row
read-write_stac_batch_example =
    read-write_stac_batch column column column lists (asset_row ∷ full_row ∷ []) blank_chunk 1
      full_row
      (
        (λ j. refl, λ j. refl, λ j. refl, λ j. refl, λ j. refl, λ j. refl),
        (λ j. refl, λ j. refl),
        (λ j. refl, λ j. refl, λ j. refl, λ j. refl),
      )
      refl
