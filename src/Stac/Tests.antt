-- ===== src/Stac/Tests.antt =====
-- A search of two pages, and a merge of two bodies.
use duckdb_cog.Base.{
  ℕ, zero, suc, ◌≤◌, ◌≡◌, ◌↔◌, refl, arith, true, false, Option, some, List, [], ◌∷◌, map, flat_map,
  Result, ok, All, length,
}
use duckdb_cog.Base.Int.{ℤ, pos}
use duckdb_cog.Meta.Text.{codes}
use duckdb_cog.Base.Texts.{Text}
use duckdb_cog.Stac.{
  Value, number, string, array, object, end, item, Members, close, member, StacAssetRow, StacNext,
  find_member,
}
use duckdb_cog.Stac.Body.{apply_next, or_member, apply_next-merges}
use duckdb_cog.Stac.Rows.{features_rows}
use duckdb_cog.Stac.Rows.Validity.{id_of, triple, addresses, features_rows-ok_iff}
use duckdb_cog.Stac.Search.{SearchError, search}
use duckdb_cog.Stac.Search.Paging.{Pages, search_lem}

abbrev limit_body : Members ℤ
limit_body = member (codes "limit") (number (pos 10)) close

abbrev token_body : Members ℤ
token_body = member (codes "token") (string (codes "t")) close

abbrev token_link : StacNext ℤ
token_link = record {
  href = codes "u";
  method = codes "POST";
  body = some (object token_body);
  merge = true;
}

apply_next-merges_example :
    ((apply_next (object limit_body) token_link).0 ≡ token_link.href)
    × ((apply_next (object limit_body) token_link).1 ≡ token_link.method)
    × ((merged : Members ℤ) × ((apply_next (object limit_body) token_link).2 ≡ some (object merged))
        × ((q : Text)
            → find_member q merged
              ≡ or_member (find_member q token_body) (find_member q limit_body)))
unfolding find_member
apply_next-merges_example = apply_next-merges limit_body token_link token_body refl refl (refl, tt)

abbrev feature : Value ℤ
feature = object (
    member (codes "id") (string (codes "scene")) (
      member (codes "assets")
        (object (
          member (codes "B04") (object (member (codes "href") (string (codes "b4.tif")) close))
            (member (codes "thumb") (object close) close)))
        close))

features_rows-ok_iff_example :
    ((rows : List (StacAssetRow ℤ)) × (features_rows (feature ∷ []) ≡ ok rows)
      × (map triple rows ≡ flat_map addresses (feature ∷ [])))
    ↔ All (λ f. (id : Text) × (id_of f ≡ some id)) (feature ∷ [])
features_rows-ok_iff_example = features_rows-ok_iff (feature ∷ [])

-- The first page links to the second.
abbrev page_document : Text → Value ℤ
page_document [] = object (
    member (codes "type") (string (codes "FeatureCollection"))
      (member (codes "features") (array (item feature end)) close))
page_document (c ∷ s) = object (
    member (codes "type") (string (codes "FeatureCollection")) (
      member (codes "features") (array (item feature end)) (
        member (codes "links")
          (array (
            item
              (object (
                member (codes "rel") (string (codes "next"))
                  (member (codes "href") (string (codes "second")) close)))
              end))
          close)))

abbrev parse_page : Text → Result Text (Value ℤ)
parse_page bytes = ok (page_document bytes)

abbrev fetch_page : ℕ → Text → Text → Option (Value ℤ) → Result Text Text
fetch_page zero href method body = ok (1 ∷ [])
fetch_page (suc k) href method body = ok []

search_lem_example :
    (r : Result SearchError (List (StacAssetRow ℤ))) × (search parse_page fetch_page
        (object limit_body)
        false
        1000
        (codes "first")
      ≡ some r)
    × ((out : List (StacAssetRow ℤ))
        → r ≡ ok out
        → (length out ≤ 1000)
          × (false ≡ false
              → Pages parse_page fetch_page
                  (object limit_body)
                  false
                  1000
                  0
                  (codes "first")
                  (codes "POST")
                  (some (object limit_body))
                  out))
search_lem_example =
    search_lem parse_page fetch_page (object limit_body) false 1000 (codes "first") (omega arith)
