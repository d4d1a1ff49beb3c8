-- ===== src/Browser/Registry.antt =====
-- crates/engine-wasm/src/registry.rs: the readers by address, and the tile cache that they share.
-- The page has one thread; the state may change while the metadata is read.
pub mod Bounds
use duckdb_cog.Base.{
  ℕ, ◌*◌, ◌%◌, ◌^◌, Bool, Option, none, some, List, [], ◌∷◌, Result, ok, err, ltb, leb,
  if◌then◌else◌, length,
}
use duckdb_cog.Base.Texts.{Text, text_eq}
use duckdb_cog.TileCache
use duckdb_cog.TileCache.{Cache, TileCacheStats}
use duckdb_cog.Sql.Open.{find}
use duckdb_cog.Extension.Cogs.{OpenCog, attach}

abbrev pub max_readers : ℕ
max_readers = 64

abbrev default_tile_cache_mb : ℕ
default_tile_cache_mb = 64

-- `READERS` and `TILE_CACHE`.
pub record Registry (C V : Type 0) : Type 0 where
  pub readers : List (Text × OpenCog C)
  pub tiles : Option (Cache V)

-- The product is a `usize`, of 32 bits on the target.
cache_bytes : ℕ → ℕ
cache_bytes mb = mb * 1024 * 1024 % 2 ^ 32

-- `HashMap::insert`.
unfoldable pub put : {A : Type 0} → Text → A → List (Text × A) → List (Text × A)
put key a [] = (key, a) ∷ []
put key a ((k, b) ∷ m) = if text_eq k key then (key, a) ∷ m else (k, b) ∷ put key a m

pub register_reader :
    {C : Type 0} → Text → OpenCog C → List (Text × OpenCog C) → List (Text × OpenCog C)
unfolding put
register_reader url cog m = put url cog (if leb max_readers (length m) then [] else m)

module _ {C V : Type 0} where
  unfoldable pub start : Registry C V
  unfolding cache_bytes
  start = record { readers = []; tiles = some (TileCache.new (cache_bytes default_tile_cache_mb)) }

  -- `configure_tile_cache`: the readers go with the old cache.
  unfoldable pub configure_tile_cache : ℕ → Registry C V → Registry C V
  unfolding cache_bytes
  configure_tile_cache mb w = record {
    readers = [];
    tiles = if ltb 0 mb then some (TileCache.new (cache_bytes mb)) else none;
  }

  -- `tile_cache_stats`.
  unfoldable pub tile_cache_stats : Registry C V → TileCacheStats
  tile_cache_stats w = elim w.tiles [
    | none ↦ record { hits = 0; misses = 0; evictions = 0; bytes = 0; max_bytes = 0 }
    | some c ↦ TileCache.stats c
  ]

  registered : Text → Registry C V → Option (Cache V) × OpenCog C → Registry C V × OpenCog C
  unfolding register_reader
  registered url w (tiles, cog) =
      (record { readers = register_reader url cog w.readers; tiles = tiles }, cog)

  -- `open_cached`, which finds the state as `w` and, once the metadata is read, as `w'`.
  unfoldable pub open_cached {ℓ} :
      {E : Type ℓ}
      → Registry C V
      → Registry C V
      → Text
      → Result E C
      → Registry C V × Result E (OpenCog C)
  unfolding registered
  open_cached w w' url open_engine = elim (find url w.readers) [
    | some hit ↦ (w, ok hit)
    | none ↦ elim open_engine [
      | err e ↦ (w', err e)
      | ok c ↦ let r = registered url w' (attach w'.tiles c) in (r.0, ok r.1)
    ]
  ]
