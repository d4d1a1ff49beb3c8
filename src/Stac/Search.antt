-- ===== src/Stac/Search.antt =====
-- src/stac_search.rs: the loop of `bind` over the pages of a search. The requests are a
-- parameter, which may answer each round differently.
pub mod Paging
use duckdb_cog.Base.{
  ℕ, zero, suc, ◌+◌, ◌||◌, ◌&&◌, Bool, true, false, not, Option, none, some, List, [], ◌∷◌, ◌++◌,
  Result, ok, err, ◌>>=◌, map_err, ltb, leb, ◌==◌, if◌then◌else◌, length, take,
}
use duckdb_cog.Float.{Float}
use duckdb_cog.Meta.{Bbox}
use duckdb_cog.Meta.Text.{codes}
use duckdb_cog.Base.Texts.{Text}
use duckdb_cog.Stac.{Value, StacAssetRow, StacError, StacNext, StacPage}
use duckdb_cog.Stac.Body.{apply_next, build_search_body}
use duckdb_cog.Stac.Rows.{parse_stac_page}

-- The three errors of the loop.
pub data SearchError : Type 0 where
  fetch_failed : Text → Text → SearchError
  parse_failed : Text → StacError → SearchError
  over_default_cap : ℕ → SearchError

pub has_next {ℓ} : {A : Type ℓ} → Option A → Bool
has_next none = false
has_next (some a) = true

module _ {F : Type 0} (from_slice : Text → Result Text (Value F))
    (fetch : ℕ → Text → Text → Option (Value F) → Result Text Text) (original : Value F)
    (explicit_cap : Bool) (max_rows : ℕ) where
  -- One round: the request and the parse of its answer.
  pub request : ℕ → Text → Text → Option (Value F) → Result SearchError (StacPage F)
  request k href method body = do
    bytes ← map_err (fetch_failed href) (fetch k href method body)
    map_err (parse_failed href) (parse_stac_page from_slice bytes)

  -- What is returned once the cap is reached.
  pub at_cap :
      List (StacAssetRow F) → Option (StacNext F) → Result SearchError (List (StacAssetRow F))
  at_cap rows next =
      if (ltb max_rows (length rows) || has_next next) && not explicit_cap
      then err (over_default_cap max_rows)
      else ok (take max_rows rows)

  -- The loop; `none` means that the fuel ran out.
  pub search_loop :
      ℕ
      → ℕ
      → List (StacAssetRow F)
      → Text
      → Text
      → Option (Value F)
      → Option (Result SearchError (List (StacAssetRow F)))
  unfolding request at_cap
  search_loop zero k rows href method body = none
  search_loop (suc fuel) k rows href method body = elim (request k href method body) [
    | err e ↦ some (err e)
    | ok page ↦
        let all = rows ++ page.rows in
        if leb max_rows (length all) then some (at_cap all page.next) else elim page.next [
          | none ↦ some (ok all)
          | some next ↦
              let (h, m, b) = apply_next original next in
              let rest = search_loop fuel (k + 1) all h m b in
              if length page.rows == 0 then some (ok all) else rest
        ]
  ]

  -- The search from its first request; a round that goes on has found a row (`search_lem`).
  unfoldable pub search : Text → Option (Result SearchError (List (StacAssetRow F)))
  unfolding search_loop
  search url = search_loop max_rows 0 [] url (codes "POST") (some original)
