-- ===== src/Extension/ReadStac.antt =====
-- `bind` and `func` of read_stac (src/lib.rs) and of read_stac_search (src/stac_search.rs): the
-- arguments, the document or the pages, and the chunks.
pub mod Whole
use duckdb_cog.Base.{
  ℕ, ◌^◌, Bool, true, false, Option, none, some, List, [], ◌∷◌, Result, ok, err, ◌>>=◌, map_err,
  ltb, if◌then◌else◌,
}
use duckdb_cog.Base.Int.{ℤ, pos, negsuc}
use duckdb_cog.Base.Texts.{Text}
use duckdb_cog.Float.{Float}
use duckdb_cog.Meta.{Bbox}
use duckdb_cog.Source.{ByteSource, SourceError, fetch_all}
use duckdb_cog.Stac.{Value, StacAssetRow, StacError}
use duckdb_cog.Stac.Body.{build_search_body}
use duckdb_cog.Stac.Rows.{parse_stac}
use duckdb_cog.Stac.Search.{SearchError, search}
use duckdb_cog.Extension.{next_chunk, BboxParameter, BboxError, bbox_filter}

pub data ReadStacError : Type 0 where
  cannot_open : Text → ReadStacError
  fetch_failed : Text → SourceError → ReadStacError
  parse_failed : Text → StacError → ReadStacError

module _ {F : Type 0} (open_source : Text → Result Text ByteSource)
    (from_slice : Text → Result Text (Value F)) where
  parsed :
      Text
      → Option (Result SourceError Text)
      → Option (Result ReadStacError (List (StacAssetRow F)))
  parsed url none = none
  parsed url (some (err e)) = some (err (fetch_failed url e))
  parsed url (some (ok bytes)) = some (map_err (parse_failed url) (parse_stac from_slice bytes))

  -- `bind` of `read_stac`; `none` would be a `fetch_all` without an end.
  unfoldable pub read_stac_bind : Text → Option (Result ReadStacError (List (StacAssetRow F)))
  unfolding parsed
  read_stac_bind url = elim (open_source url) [
    | err e ↦ some (err (cannot_open e))
    | ok source ↦ parsed url (fetch_all source)
  ]

-- `func` of both: the position, and the rows that `write_stac_batch` is given.
unfoldable pub stac_func : {F : Type 0} → List (StacAssetRow F) → ℕ → ℕ × List (StacAssetRow F)
unfolding next_chunk
stac_func rows cursor = next_chunk rows cursor

pub data SearchBindError : Type 0 where
  collections_not_a_list : SearchBindError
  bad_bbox : BboxError → SearchBindError
  bad_page_size : SearchBindError
  bad_max_rows : SearchBindError
  search_failed : SearchError → SearchBindError

-- The named parameters that are not NULL; `none` inside `collections` is a value that is no list.
pub record SearchParameters (F : Type 0) : Type 0 where
  pub collections : Option (Option (List Text))
  pub bbox : BboxParameter F
  pub datetime : Option Text
  pub page_size : Option ℤ
  pub max_rows : Option ℤ

collection_names : Option (Option (List Text)) → Result SearchBindError (Option (List Text))
collection_names none = ok none
collection_names (some none) = err collections_not_a_list
collection_names (some (some names)) = ok (some names)

-- `u32::try_from` of the 64-bit value.
page_limit : Option ℤ → Result SearchBindError (Option ℕ)
page_limit none = ok none
page_limit (some (negsuc n)) = err bad_page_size
page_limit (some (pos n)) = if ltb n (2 ^ 32) then ok (some n) else err bad_page_size

-- The cap on the rows, 1000 where it is not named.
unfoldable pub row_cap : Option ℤ → Result SearchBindError ℕ
row_cap none = ok 1000
row_cap (some (negsuc n)) = err bad_max_rows
row_cap (some (pos n)) = if ltb 0 n then ok n else err bad_max_rows

is_named : Option ℤ → Bool
is_named none = false
is_named (some n) = true

module _ {F : Type 0} ⦃fl : Float F⦄ where
  -- The body of the search and its cap.
  unfoldable pub search_arguments : SearchParameters F → Result SearchBindError (Value F × ℕ)
  unfolding collection_names page_limit
  search_arguments p = do
    collections ← collection_names p.collections
    bbox ← map_err bad_bbox (bbox_filter p.bbox)
    limit ← page_limit p.page_size
    cap ← row_cap p.max_rows
    ok (build_search_body collections bbox p.datetime limit, cap)

module _ {F : Type 0} ⦃fl : Float F⦄ (from_slice : Text → Result Text (Value F))
    (fetch : ℕ → Text → Text → Option (Value F) → Result Text Text) where
  -- `bind` of `read_stac_search`.
  unfoldable pub read_stac_search_bind :
      Text → SearchParameters F → Option (Result SearchBindError (List (StacAssetRow F)))
  unfolding search_arguments is_named
  read_stac_search_bind url p = elim (search_arguments p) [
    | err e ↦ some (err e)
    | ok (body, cap) ↦ elim (search from_slice fetch body (is_named p.max_rows) cap url) [
      | none ↦ none
      | some r ↦ some (map_err search_failed r)
    ]
  ]
