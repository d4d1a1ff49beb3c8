-- ===== src/Stac/Rows/Validity.antt =====
-- When a document is accepted, and which rows it has.
use duckdb_cog.Base.{
  ◌≡◌, ◌↔◌, refl, ap, ◌∙◌, Option, none, some, List, [], ◌∷◌, ◌++◌, map, filter_map, flat_map,
  Result, ok, err, bind-eq_ok, All, Option-cases, inl, inr,
}
use duckdb_cog.Meta.Text.{codes}
use duckdb_cog.Base.Texts.{Text}
use duckdb_cog.Stac.{Value, StacAssetRow, StacError, get, as_str}
use duckdb_cog.Stac.Rows.{asset_href, asset_rows, assets_of, item_rows, features_rows}

with_id : Text → Text × Text → Text × Text × Text
with_id id p = (id, p.0, p.1)

map-append {ℓ κ} :
    {A : Type ℓ} {B : Type κ} (f : A → B) (xs ys : List A) → map f (xs ++ ys) ≡ map f xs ++ map f ys
map-append f [] ys = refl
map-append f (x ∷ xs) ys = ap (◌∷◌ (f x)) (map-append f xs ys)

module _ {F : Type 0} where
  -- The key and the address of an asset that has one.
  abbrev pub address_of : Text × Value F → Option (Text × Text)
  address_of a = elim (asset_href a.1) [ none ↦ none | some href ↦ some (a.0, href) ]

  pub triple : StacAssetRow F → Text × Text × Text
  triple r = (r.item_id, r.asset_key, r.href)

  asset_rows_lem :
      (v : Value F) (id : Text) (assets : List (Text × Value F))
      → map triple (asset_rows v id assets) ≡ map (with_id id) (filter_map address_of assets)
  unfolding asset_rows triple with_id
  asset_rows_lem v id [] = refl
  asset_rows_lem v id (a ∷ assets) = elim (Option-cases (asset_href a.1)) [
    | inl e ↦ rw (e, asset_rows, filter_map) (asset_rows_lem v id assets)
    | inr (href, e) ↦
        rw (e, asset_rows, filter_map)
          (ap (λ (rows : List (Text × Text × Text)). (id, a.0, href) ∷ rows)
            (asset_rows_lem v id assets))
  ]

  -- The identity of an item, and the triples of its rows: item, asset and address, for each asset
  -- that has an address, in the order of the assets.
  abbrev pub id_of : Value F → Option Text
  id_of v = as_str (get v (codes "id"))

  pub addresses : Value F → List (Text × Text × Text)
  unfolding with_id
  addresses v = elim (id_of v) [
    | none ↦ []
    | some id ↦ map (with_id id) (filter_map address_of (assets_of v))
  ]

  item_rows_lem :
      (v : Value F) (id : Text)
      → id_of v ≡ some id
      → (rows : List (StacAssetRow F)) × (item_rows v ≡ ok rows) × (map triple rows ≡ addresses v)
  unfolding item_rows addresses
  item_rows_lem v id e = (
    asset_rows v id (assets_of v),
    rw (e, item_rows) refl,
    rw (e, addresses) (asset_rows_lem v id (assets_of v)),
  )

  item_rows-id :
      (v : Value F) {rows : List (StacAssetRow F)}
      → item_rows v ≡ ok rows
      → (id : Text) × (id_of v ≡ some id)
  unfolding item_rows
  item_rows-id v e = elim (Option-cases (as_str (get v (codes "id")))) [
    | inl missing ↦ absurd (err_ok (rw (missing, item_rows) at e))
    | inr found ↦ found
  ]
    where
      err_ok :
          {rows : List (StacAssetRow F)}
          → ◌≡◌ {A = Result StacError (List (StacAssetRow F))}
              (err StacError.item_without_id)
              (ok rows)
          → ⊥
      err_ok h = cc

  features_total :
      (feats : List (Value F))
      → All (λ f. (id : Text) × (id_of f ≡ some id)) feats
      → (rows : List (StacAssetRow F)) × (features_rows feats ≡ ok rows)
        × (map triple rows ≡ flat_map addresses feats)
  unfolding features_rows
  features_total [] a = ([], refl, refl)
  features_total (f ∷ feats) ((id, e), a) =
      let (rows, q, t) = item_rows_lem f id e in
      let (rest, q', t') = features_total feats a in
      (rows ++ rest, rw (q, q') refl, map-append triple rows rest ∙ rw (t, t') refl)

  features_ids :
      (feats : List (Value F)) {rows : List (StacAssetRow F)}
      → features_rows feats ≡ ok rows
      → All (λ f. (id : Text) × (id_of f ≡ some id)) feats
  unfolding features_rows
  features_ids [] e = tt
  features_ids (f ∷ feats) e =
      let (rows, q, e') = bind-eq_ok (item_rows f) _ e in
      let (rest, q', _) = bind-eq_ok (features_rows feats) _ e' in
      (item_rows-id f q, features_ids feats q')

  -- The features of a collection are accepted exactly if every one of them has an identity that
  -- is a text: one without it refuses the whole document. The rows of an accepted collection name,
  -- feature by feature, and asset by asset in the order in which the parsed value holds the
  -- members, the item, the asset and its address, and leave out exactly the assets without an
  -- address.
  pub features_rows-ok_iff :
      (feats : List (Value F))
      → ((rows : List (StacAssetRow F)) × (features_rows feats ≡ ok rows)
          × (map triple rows ≡ flat_map addresses feats))
        ↔ All (λ f. (id : Text) × (id_of f ≡ some id)) feats
  features_rows-ok_iff feats =
      ((λ h. let (rows, e, t) = h in features_ids feats e), features_total feats)
