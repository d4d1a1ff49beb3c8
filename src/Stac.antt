-- ===== src/Stac.antt =====
-- crates/engine/src/stac.rs: STAC documents as rows of items and assets. The parser of
-- serde_json is a parameter, its `Value` the data type here; texts are bytes.
pub mod Body
pub mod Rows
pub mod Search
mod Tests
use duckdb_cog.Base.{
  ℕ, zero, suc, ◌+◌, ◌||◌, ◌&&◌, Bool, true, false, Option, none, some, List, [], ◌∷◌, ◌++◌, map,
  Result, ok, err, ◌>>=◌, map_err, ltb, ◌==◌, if◌then◌else◌, get_elem?, length,
}
use duckdb_cog.Base.Texts.{Text, text_eq, text_ltb}
use duckdb_cog.Float.{Float}
use duckdb_cog.Meta.{BandStats, Bbox}
use duckdb_cog.Meta.Text.{codes}

-- `serde_json::Value`. Objects hold their members in the order in which its `Map` iterates, for
-- the parser of the repository sorted by their keys and not as in the text of the document.
mutual
  pub data Value (F : Type 0) : Type 0 where
    null : Value F
    boolean : Bool → Value F
    number : F → Value F
    string : Text → Value F
    array : Values F → Value F
    object : Members F → Value F

  pub data Values (F : Type 0) : Type 0 where
    end : Values F
    item : Value F → Values F → Values F

  pub data Members (F : Type 0) : Type 0 where
    close : Members F
    member : Text → Value F → Members F → Members F

-- `StacAssetRow`.
pub record StacAssetRow (F : Type 0) : Type 0 where
  pub item_id : Text
  pub collection : Option Text
  pub datetime : Option Text
  pub asset_key : Text
  pub href : Text
  pub media_type : Option Text
  pub bbox : Option (Bbox F)
  pub band_stats : Option (List (BandStats F))

-- `StacError`, with a message of its own for each `Parse`.
pub data StacError : Type 0 where
  parse : Text → StacError
  not_a_collection : StacError
  without_features : StacError
  unsupported_type : Option Text → StacError
  item_without_id : StacError

-- `StacNext`.
pub record StacNext (F : Type 0) : Type 0 where
  pub href : Text
  pub method : Text
  pub body : Option (Value F)
  pub merge : Bool

-- `StacPage`.
pub record StacPage (F : Type 0) : Type 0 where
  pub rows : List (StacAssetRow F)
  pub next : Option (StacNext F)

module _ {F : Type 0} where
  unfoldable pub values : Values F → List (Value F)
  values end = []
  values (item v vs) = v ∷ values vs

  unfoldable pub members : Members F → List (Text × Value F)
  members close = []
  members (member k v ms) = (k, v) ∷ members ms

  unfoldable pub find_member : Text → Members F → Option (Value F)
  find_member k close = none
  find_member k (member j v ms) = if text_eq j k then some v else find_member k ms

  -- `Value::get` with a key, `as_str`, `as_array`, `as_object`, `as_bool` and `as_f64`.
  unfoldable pub get : Value F → Text → Option (Value F)
  get (object ms) k = find_member k ms
  get null k = none
  get (boolean b) k = none
  get (number x) k = none
  get (string s) k = none
  get (array vs) k = none

  unfoldable pub as_str : Option (Value F) → Option Text
  as_str (some (string s)) = some s
  as_str (some null) = none
  as_str (some (boolean b)) = none
  as_str (some (number x)) = none
  as_str (some (array vs)) = none
  as_str (some (object ms)) = none
  as_str none = none

  unfoldable pub as_array : Option (Value F) → Option (List (Value F))
  as_array (some (array vs)) = some (values vs)
  as_array (some null) = none
  as_array (some (boolean b)) = none
  as_array (some (number x)) = none
  as_array (some (string s)) = none
  as_array (some (object ms)) = none
  as_array none = none

  unfoldable pub as_object : Option (Value F) → Option (Members F)
  as_object (some (object ms)) = some ms
  as_object (some null) = none
  as_object (some (boolean b)) = none
  as_object (some (number x)) = none
  as_object (some (string s)) = none
  as_object (some (array vs)) = none
  as_object none = none

  unfoldable pub as_bool : Option (Value F) → Option Bool
  as_bool (some (boolean b)) = some b
  as_bool (some null) = none
  as_bool (some (number x)) = none
  as_bool (some (string s)) = none
  as_bool (some (array vs)) = none
  as_bool (some (object ms)) = none
  as_bool none = none

  unfoldable pub as_f64 : Option (Value F) → Option F
  as_f64 (some (number x)) = some x
  as_f64 (some null) = none
  as_f64 (some (boolean b)) = none
  as_f64 (some (string s)) = none
  as_f64 (some (array vs)) = none
  as_f64 (some (object ms)) = none
  as_f64 none = none

  -- `and_then(|v| v.get(k))`.
  unfoldable pub then_get : Option (Value F) → Text → Option (Value F)
  then_get none k = none
  then_get (some v) k = get v k
