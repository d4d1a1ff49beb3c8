-- ===== src/Extension/Tests.antt =====
-- A query over the image of four tiles, stores of two origins, and a remote reader that is opened.
use duckdb_cog.Base.{
  Option, ℕ, ◌*◌, ◌≡◌, ◌≢◌, ◌≤◌, refl, arith, true, none, some, List, [], ◌∷◌, map, Result, ok,
  length,
}
use duckdb_cog.Base.Int.{ℤ, pos}
use duckdb_cog.Base.Texts.{Text, text_eq}
use duckdb_cog.Float.Half.{half_float}
use duckdb_cog.Meta.{crs}
use duckdb_cog.Meta.Text.{codes}
use duckdb_cog.Meta.Build.Tests.{image_meta}
use duckdb_cog.Meta.Tiles.Tests.{image_rows, unfiltered}
use duckdb_cog.Pixel.Tests.{image_reader}
use duckdb_cog.Sql.{Cog}
use duckdb_cog.Sql.Open.{Opener, find}
use duckdb_cog.TileCache
use duckdb_cog.TileCache.{Cache}
use duckdb_cog.ReaderCache.{lookup_fresh}
use duckdb_cog.ReaderCache.Kept.{Kept}
use duckdb_cog.Extension.{
  chunk_size, absent, bbox_filter, cog_row, ReadCogBindData, read_cog_bind, read_cog_func,
}
use duckdb_cog.Source.{ByteSource, memory_source}
use duckdb_cog.Source.Contract.{memory_source-Serves}
use duckdb_cog.Stac.{Value}
use duckdb_cog.Stac.Rows.Tests.{one_asset, always, asset_row, parsed_asset}
use duckdb_cog.Extension.ReadStac.{read_stac_bind, stac_func, SearchParameters}
use duckdb_cog.Extension.ReadStac.Whole.{read_stac_lem}
use duckdb_cog.Extension.ReadCog.{called, read_cog_lem}
use duckdb_cog.Extension.Stores.{shared_store}
use duckdb_cog.Extension.Stores.Shared.{shared_store-shares}
use duckdb_cog.Extension.Cogs.{has_scheme, OpenCog, Caches, open_cog_cached}
use duckdb_cog.Extension.Cogs.Ids.{IsIssued, open_cog_cached-IsIssued}

abbrev three : List ℕ
three = 5 ∷ 6 ∷ 7 ∷ []

abbrev image_store : Opener (Unit {0}) (Cog ℤ ℕ)
image_store w path = (w, ok (image_meta, image_reader))

no_filter : bbox_filter {F = ℤ} absent ≡ ok none
unfolding bbox_filter
no_filter = refl

read_cog_lem_example :
    (b : ReadCogBindData ℤ) × (read_cog_bind image_store tt (codes "a") absent ≡ (tt, some (ok b)))
    × (called (read_cog_func b) 1 0 ≡ map (cog_row (crs image_meta)) image_rows)
    × ((read_cog_func b (1 * chunk_size)).1 ≡ [])
read_cog_lem_example =
    read_cog_lem image_store tt (codes "a") absent none tt (image_meta, image_reader) image_rows 1
      no_filter refl unfiltered (omega arith) (omega arith)

abbrev one_store : List (Text × ℕ)
one_store = (codes "https://a|1", 10) ∷ []

shared_store-shares_example :
    (length (shared_store (codes "https://b|1") 20 one_store).0 ≤ 32)
    × ((b : ℕ)
        → shared_store (codes "https://b|1") b (shared_store (codes "https://b|1") 20 one_store).0
          ≡ (
            (shared_store (codes "https://b|1") 20 one_store).0,
            (shared_store (codes "https://b|1") 20 one_store).1,
          ))
    × ((shared_store (codes "https://b|1") 20 one_store).1
        ≡ elim (find (codes "https://b|1") one_store) [ none ↦ 20 | some s ↦ s ])
shared_store-shares_example = shared_store-shares (codes "https://b|1") 20 one_store (omega arith)

-- The caches of the process with one reader, which the tile cache knows as 0.
abbrev one_reader : Caches ℕ ℕ
one_reader = record {
  readers = record {
    ttl = 60;
    max_readers = 8;
    entries =
        (codes "s3://a", record { cog = record { cog = 1; reader_id = some 0 }; inserted = 0 })
        ∷ [];
  };
  tiles = some (TileCache.register (TileCache.new {V = ℕ} 100)).0;
}

one-IsIssued : IsIssued one_reader
unfolding TileCache.register TileCache.new
one-IsIssued = (omega arith, tt)

abbrev seven : Result Text ℕ
seven = ok 7

open_cog_cached-IsIssued_example :
    IsIssued (open_cog_cached 1 one_reader 2 one_reader (codes "s3://b") seven).0
    × ((c : ℕ) (t : Cache ℕ)
        → has_scheme (codes "s3://b") ≡ true
        → lookup_fresh 1 (codes "s3://b") one_reader.readers ≡ none
        → seven ≡ ok c
        → one_reader.tiles ≡ some t
        → (id : ℕ) × ((open_cog_cached 1 one_reader 2 one_reader (codes "s3://b") seven).1
            ≡ ok (record { cog = c; reader_id = some id }))
          × Kept (λ (k : OpenCog ℕ). k.reader_id ≢ some id) one_reader.readers.entries)
open_cog_cached-IsIssued_example =
    open_cog_cached-IsIssued 1 one_reader 2 one_reader (codes "s3://b") seven one-IsIssued
      one-IsIssued

-- The hypotheses of its second part hold for these caches.
reader_missed :
    (has_scheme (codes "s3://b") ≡ true)
    × (lookup_fresh 1 (codes "s3://b") one_reader.readers ≡ none)
unfolding has_scheme lookup_fresh text_eq
reader_missed = (refl, refl)

abbrev stac_source : Text → Result Text ByteSource
stac_source url = ok (memory_source (1 ∷ 2 ∷ []))

read_stac_lem_example :
    (read_stac_bind stac_source (always one_asset) (codes "item.json") ≡ some (ok (asset_row ∷ [])))
    × (called (stac_func (asset_row ∷ [])) 1 0 ≡ asset_row ∷ [])
    × ((stac_func (asset_row ∷ []) (1 * chunk_size)).1 ≡ [])
read_stac_lem_example =
    read_stac_lem stac_source (always one_asset) (codes "item.json") (memory_source (1 ∷ 2 ∷ []))
      (1 ∷ 2 ∷ []) (asset_row ∷ []) 1 refl (memory_source-Serves (1 ∷ 2 ∷ [])) (omega arith)
      (omega arith) parsed_asset (omega arith) (omega arith)

-- A server whose every page is the one item.
abbrev serve : ℕ → Text → Text → Option (Value ℤ) → Result Text Text
serve k href method body = ok (1 ∷ [])

abbrev whole_search : SearchParameters ℤ
whole_search = record {
  collections = some (some (codes "c" ∷ []));
  bbox = absent;
  datetime = none;
  page_size = some (pos 10);
  max_rows = none;
}
