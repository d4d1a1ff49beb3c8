-- ===== src/Stac/Rows.antt =====
-- `item_rows`, `parse_stac` and `parse_stac_page`.
pub mod Validity
pub mod Tests
use duckdb_cog.Base.{
  ℕ, zero, suc, ◌+◌, ◌||◌, ◌&&◌, Bool, true, false, Option, none, some, List, [], ◌∷◌, ◌++◌, map,
  Result, ok, err, ◌>>=◌, map_err, ok_or, if◌then◌else◌,
}
use duckdb_cog.Meta.{BandStats, Bbox}
use duckdb_cog.Meta.Text.{codes}
use duckdb_cog.Base.Texts.{Text, text_eq}
use duckdb_cog.Stac.{
  Value, object, Members, close, member, StacAssetRow, StacError, parse, not_a_collection,
  without_features, unsupported_type, item_without_id, StacNext, StacPage, members, get, as_str,
  as_array, as_object, as_bool, as_f64, then_get,
}

is_text : Option Text → Text → Bool
is_text none t = false
is_text (some s) t = text_eq s t

or_text : Option Text → Text → Text
or_text none t = t
or_text (some s) t = s

or_false : Option Bool → Bool
or_false none = false
or_false (some b) = b

module _ {F : Type 0} where
  box_of : Option F → Option F → Option F → Option F → Option (Bbox F)
  box_of (some a) (some b) (some c) (some d) =
      some (record { xmin = a; ymin = b; xmax = c; ymax = d })
  box_of none b c d = none
  box_of (some a) none c d = none
  box_of (some a) (some b) none d = none
  box_of (some a) (some b) (some c) none = none

  -- The `match a.len()`: four numbers, or six with the heights left out.
  box_of_array : List (Value F) → Option (Bbox F)
  unfolding box_of
  box_of_array (a ∷ b ∷ c ∷ d ∷ []) =
      box_of (as_f64 (some a)) (as_f64 (some b)) (as_f64 (some c)) (as_f64 (some d))
  box_of_array (a ∷ b ∷ z ∷ c ∷ d ∷ z' ∷ []) =
      box_of (as_f64 (some a)) (as_f64 (some b)) (as_f64 (some c)) (as_f64 (some d))
  box_of_array [] = none
  box_of_array (a ∷ []) = none
  box_of_array (a ∷ b ∷ []) = none
  box_of_array (a ∷ b ∷ c ∷ []) = none
  box_of_array (a ∷ b ∷ c ∷ d ∷ e ∷ []) = none
  box_of_array (a ∷ b ∷ c ∷ d ∷ e ∷ f ∷ g ∷ more) = none

  item_bbox : Value F → Option (Bbox F)
  unfolding box_of_array
  item_bbox v = elim (as_array (get v (codes "bbox"))) [ none ↦ none | some a ↦ box_of_array a ]

  band_of : Value F → BandStats F
  band_of b =
      let st = get b (codes "statistics") in
      record {
        min_value = as_f64 (then_get st (codes "minimum"));
        max_value = as_f64 (then_get st (codes "maximum"));
        mean = as_f64 (then_get st (codes "mean"));
        stddev = as_f64 (then_get st (codes "stddev"));
      }

  stats_of_asset : Value F → Option (List (BandStats F))
  unfolding band_of
  stats_of_asset asset = elim (as_array (get asset (codes "raster:bands"))) [
    | none ↦ none
    | some bands ↦ some (map band_of bands)
  ]

  pub asset_href : Value F → Option Text
  asset_href asset = as_str (get asset (codes "href"))

  -- The loop over the assets; one without an address is passed over.
  pub asset_rows : Value F → Text → List (Text × Value F) → List (StacAssetRow F)
  unfolding asset_href item_bbox stats_of_asset
  asset_rows v id [] = []
  asset_rows v id ((key, asset) ∷ assets) =
      let rest = asset_rows v id assets in
      elim (asset_href asset) [
        | none ↦ rest
        | some href ↦
            record {
              item_id = id;
              collection = as_str (get v (codes "collection"));
              datetime = as_str (then_get (get v (codes "properties")) (codes "datetime"));
              asset_key = key;
              href = href;
              media_type = as_str (get asset (codes "type"));
              bbox = item_bbox v;
              band_stats = stats_of_asset asset;
            }
            ∷ rest
      ]

  pub assets_of : Value F → List (Text × Value F)
  assets_of v = elim (as_object (get v (codes "assets"))) [ none ↦ [] | some ms ↦ members ms ]

  unfoldable pub item_rows : Value F → Result StacError (List (StacAssetRow F))
  unfolding asset_rows assets_of
  item_rows v = elim (as_str (get v (codes "id"))) [
    | none ↦ err item_without_id
    | some id ↦ ok (asset_rows v id (assets_of v))
  ]

  -- The loop over the features.
  pub features_rows : List (Value F) → Result StacError (List (StacAssetRow F))
  features_rows [] = ok []
  features_rows (f ∷ feats) = do rows ← item_rows f; rest ← features_rows feats; ok (rows ++ rest)

  pub collection_rows : Value F → Result StacError (List (StacAssetRow F))
  unfolding features_rows
  collection_rows doc = elim (as_array (get doc (codes "features"))) [
    | none ↦ err without_features
    | some feats ↦ features_rows feats
  ]

  pub rows_of : Value F → Result StacError (List (StacAssetRow F))
  unfolding collection_rows is_text
  rows_of doc =
      let kind = as_str (get doc (codes "type")) in
      if is_text kind (codes "Feature")
      then item_rows doc
      else if is_text kind (codes "FeatureCollection")
      then collection_rows doc
      else err (unsupported_type kind)

  -- `parse_stac` over the parser of the text.
  unfoldable pub parse_stac :
      (Text → Result Text (Value F)) → Text → Result StacError (List (StacAssetRow F))
  unfolding rows_of
  parse_stac from_slice bytes = do doc ← map_err parse (from_slice bytes); rows_of doc

  -- `links.iter().find(..)`: the first link whose relation is "next".
  next_link : List (Value F) → Option (Value F)
  unfolding is_text
  next_link [] = none
  next_link (l ∷ ls) =
      if is_text (as_str (get l (codes "rel"))) (codes "next") then some l else next_link ls

  next_of_link : Value F → Option (StacNext F)
  unfolding or_text or_false
  next_of_link l = elim (as_str (get l (codes "href"))) [
    | none ↦ none
    | some href ↦ some (record {
      href = href;
      method = or_text (as_str (get l (codes "method"))) (codes "GET");
      body = get l (codes "body");
      merge = or_false (as_bool (get l (codes "merge")));
    })
  ]

  next_of : Value F → Option (StacNext F)
  unfolding next_link next_of_link
  next_of doc = elim (as_array (get doc (codes "links"))) [
    | none ↦ none
    | some links ↦ elim (next_link links) [ none ↦ none | some l ↦ next_of_link l ]
  ]

  page_of : Value F → Result StacError (StacPage F)
  unfolding is_text collection_rows next_of
  page_of doc =
      if is_text (as_str (get doc (codes "type"))) (codes "FeatureCollection")
      then (collection_rows doc >>= λ rows. ok (record { rows = rows; next = next_of doc }))
      else err not_a_collection

  -- `parse_stac_page`.
  unfoldable pub parse_stac_page :
      (Text → Result Text (Value F)) → Text → Result StacError (StacPage F)
  unfolding page_of
  parse_stac_page from_slice bytes = do doc ← map_err parse (from_slice bytes); page_of doc
