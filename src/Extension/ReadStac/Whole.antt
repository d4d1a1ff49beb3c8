-- ===== src/Extension/ReadStac/Whole.antt =====
-- Whole queries of read_stac and read_stac_search.
use duckdb_cog.Base.{
  ℕ, ◌+◌, ◌*◌, ◌^◌, ◌≤◌, ◌<◌, ◌≡◌, refl, ◌∙◌, zero, suc, some, List, [], Result, ok, length,
}
use duckdb_cog.Base.Texts.{Text}
use duckdb_cog.Float.{Float}
use duckdb_cog.Source.{ByteSource}
use duckdb_cog.Source.Contract.{Serves}
use duckdb_cog.Source.Document.{fetch_all_lem}
use duckdb_cog.Stac.{Value, StacAssetRow}
use duckdb_cog.Stac.Rows.{parse_stac}
use duckdb_cog.Extension.{chunk_size, next_chunk}
use duckdb_cog.Extension.Scan.{scan_drains, chunks}
use duckdb_cog.Extension.ReadCog.{called}
use duckdb_cog.Extension.ReadStac.{parsed, read_stac_bind, stac_func}

module _ {F : Type 0} where
  called-stac_func :
      (rows : List (StacAssetRow F)) (k c : ℕ) → called (stac_func rows) k c ≡ chunks rows k c
  unfolding called chunks stac_func
  called-stac_func rows zero c = refl
  called-stac_func rows (suc k) c = rw (called-stac_func rows k (next_chunk rows c).0) refl

module _ {F : Type 0} (open_source : Text → Result Text ByteSource)
    (from_slice : Text → Result Text (Value F)) where
  -- The address opens to a source that serves a document of at least one byte and less than 256 MiB,
  -- which parses to rows that k chunks hold: the bind returns the rows, the first k calls of `func`
  -- return exactly them in their order, and the next call none.
  pub read_stac_lem :
      (url : Text) (source : ByteSource) (d : Text) (rows : List (StacAssetRow F)) (k : ℕ)
      → open_source url ≡ ok source
      → Serves d source
      → 0 < length d
      → length d < 256 * 1024 * 1024
      → parse_stac from_slice d ≡ ok rows
      → length rows ≤ k * chunk_size
      → (k + 1) * chunk_size < 2 ^ 64
      → (read_stac_bind open_source from_slice url ≡ some (ok rows))
        × (called (stac_func rows) k 0 ≡ rows)
        × ((stac_func rows (k * chunk_size)).1 ≡ [])
  unfolding read_stac_bind parsed stac_func
  read_stac_lem url source d rows k opened serves some_bytes few parses long small =
      let whole = (fetch_all_lem d source serves).1 some_bytes few in
      let (first, fits, ends) = scan_drains rows k small in
      let (all, over) = ends long in
      (
        rw (opened, read_stac_bind) (rw (whole, parsed) (rw (parses) refl)),
        called-stac_func rows k 0 ∙ all,
        over,
      )
