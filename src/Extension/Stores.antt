-- ===== src/Extension/Stores.antt =====
-- src/lib.rs: the object stores that addresses of one origin share, and the opening of a remote
-- source. What the crates url and object_store do are parameters.
pub mod Shared
use duckdb_cog.Base.{
  ℕ, ◌&&◌, Bool, true, false, Option, none, some, List, [], ◌∷◌, ◌++◌, Result, ok, err, leb,
  if◌then◌else◌, length,
}
use duckdb_cog.Base.Texts.{Text, text_eq}
use duckdb_cog.Meta.Text.{codes}
use duckdb_cog.Sql.Open.{find}

module _ {V : Type 0} where
  pub is_missing : Option V → Bool
  is_missing none = true
  is_missing (some v) = false

  -- `map.entry(key).or_insert(fresh)`, and the map that is left.
  pub or_insert : Text → V → List (Text × V) → Option V → List (Text × V) × V
  or_insert key fresh m (some v) = (m, v)
  or_insert key fresh m none = ((key, fresh) ∷ m, fresh)

  pub with_room : Text → List (Text × V) → List (Text × V)
  unfolding is_missing
  with_room key m = if leb 32 (length m) && is_missing (find key m) then [] else m

  -- `shared_store`.
  unfoldable pub shared_store : Text → V → List (Text × V) → List (Text × V) × V
  unfolding with_room or_insert
  shared_store key fresh m = let room = with_room key m in or_insert key fresh room (find key room)

-- `ObjectStoreSource`.
pub record ObjectStoreSource (V L : Type 0) : Type 0 where
  pub url : Text
  pub store : V
  pub location : L

abbrev pub Options : Type 0
Options = List (Text × Text)

-- `scheme` and `key_of` are those of an address that was parsed, `parse_url_opts` the new store and
-- the location in it; each failure is the text of its error.
module _ {U V L : Type 0} (parse : Text → Result Text U) (scheme : U → Text)
    (key_of : U → Options → Text) (parse_url_opts : U → Options → Result Text (V × L)) where
  -- The environment, and the option that lets plain http through.
  pub options : U → Options → Options
  options url vars =
      if text_eq (scheme url) (codes "http")
      then vars ++ (codes "allow_http", codes "true") ∷ []
      else vars

  pub placed :
      Text
      → Text
      → List (Text × V)
      → Result Text (V × L)
      → List (Text × V) × Result Text (ObjectStoreSource V L)
  placed path key m (err e) = (m, err e)
  placed path key m (ok (fresh, at)) =
      let (m', shared) = shared_store key fresh m in
      (m', ok (record { url = path; store = shared; location = at }))

  -- `ObjectStoreSource::open`, on the variables that the environment has at the time.
  unfoldable pub open_store :
      Text → Options → List (Text × V) → List (Text × V) × Result Text (ObjectStoreSource V L)
  unfolding options placed
  open_store path vars m = elim (parse path) [
    | err e ↦ (m, err e)
    | ok url ↦
        let opts = options url vars in placed path (key_of url opts) m (parse_url_opts url opts)
  ]
