-- ===== src/Stac/Rows/Tests.antt =====
-- A document of one feature with one asset, and what it parses to.
use duckdb_cog.Base.{none, [], ◌∷◌, ◌≡◌, refl, Result, ok}
use duckdb_cog.Base.Int.{ℤ}
use duckdb_cog.Base.Texts.{Text, text_eq}
use duckdb_cog.Meta.Text.{codes}
use duckdb_cog.Stac.{
  Value, string, object, close, member, StacAssetRow, values, members, find_member, get, as_str,
  as_array, as_object, then_get,
}
use duckdb_cog.Stac.Rows.{
  box_of, box_of_array, item_bbox, band_of, stats_of_asset, is_text, asset_href, asset_rows,
  assets_of, item_rows, features_rows, collection_rows, rows_of, parse_stac,
}

abbrev pub one_asset : Value ℤ
one_asset = object (
    member (codes "type") (string (codes "Feature")) (
      member (codes "id") (string (codes "scene")) (
        member (codes "assets")
          (object (
            member (codes "B04") (object (member (codes "href") (string (codes "b4.tif")) close))
              close))
          close)))

abbrev pub always : Value ℤ → Text → Result Text (Value ℤ)
always v bytes = ok v

abbrev pub asset_row : StacAssetRow ℤ
asset_row = record {
  item_id = codes "scene";
  collection = none;
  datetime = none;
  asset_key = codes "B04";
  href = codes "b4.tif";
  media_type = none;
  bbox = none;
  band_stats = none;
}

pub parsed_asset : parse_stac (always one_asset) (1 ∷ 2 ∷ []) ≡ ok (asset_row ∷ [])
unfolding values members find_member get as_str as_array as_object then_get box_of box_of_array
    item_bbox band_of stats_of_asset is_text asset_href asset_rows assets_of item_rows features_rows
    collection_rows rows_of parse_stac text_eq
parsed_asset = refl
