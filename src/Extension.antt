-- ===== src/Extension.antt =====
-- src/lib.rs: the table functions of the extension, and what they share between queries.
pub mod Scan
pub mod Stores
pub mod Cogs
pub mod ReadCog
pub mod StacRows
pub mod ReadStac
mod Tests
use duckdb_cog.Base.{
  ℕ, zero, suc, ◌+◌, ◌-◌, ◌*◌, ◌%◌, ◌^◌, min, Bool, true, false, ◌&&◌, ◌||◌, Option, none, some,
  List, [], ◌∷◌, map, Result, ok, err, ◌>>=◌, map_err, ltb, leb, ◌==◌, if◌then◌else◌, length, take,
  drop, try_map, replicate, zip,
}
use duckdb_cog.Base.Int.{ℤ, pos, negsuc, i64_max}
use duckdb_cog.Base.Texts.{Text, text_eq}
use duckdb_cog.Float.{Float}
use duckdb_cog.TileKey.{pack_tile_key, unpack_tile_key}
use duckdb_cog.TileCache
use duckdb_cog.TileCache.{Cache, TileCacheStats}
use duckdb_cog.Meta.{CogMeta, Bbox, TileRow, MetaError, crs}
use duckdb_cog.Meta.Tiles.{enumerate_tiles_filtered}
use duckdb_cog.Sql.{Cog}
use duckdb_cog.Sql.Open.{Opener}

-- `CHUNK`, the rows of one output chunk.
abbrev pub chunk_size : ℕ
chunk_size = 2048

-- One call of `func` of a cursor over rows: the position is advanced first, and the rows that it
-- stood at are the chunk, none behind the end. A `usize` has 64 bits.
module _ {R : Type 0} where
  unfoldable pub next_chunk : List R → ℕ → ℕ × List R
  next_chunk rows cursor = (
    (cursor + chunk_size) % 2 ^ 64,
    (if leb (length rows) cursor
        then []
        else take (min (cursor + chunk_size) (length rows) - cursor) (drop cursor rows)),
  )

-- `n as i64` of a `u64` and `n as i32` of a `u32`, which wrap.
unfoldable pub as_i64 : ℕ → ℤ
as_i64 n = let m = n % 2 ^ 64 in if ltb m (2 ^ 63) then pos m else negsuc (2 ^ 64 - 1 - m)

unfoldable pub as_i32 : ℕ → ℤ
as_i32 n = let m = n % 2 ^ 32 in if ltb m (2 ^ 31) then pos m else negsuc (2 ^ 32 - 1 - m)

-- The errors of a parameter `bbox`, and of `read_cog`.
pub data BboxError : Type 0 where
  not_a_list : BboxError
  bbox_elements : ℕ → BboxError

pub data ReadCogError : Type 0 where
  bad_bbox : BboxError → ReadCogError
  cannot_open : Text → ReadCogError
  tiles_failed : Text → MetaError → ReadCogError

-- The parameter `bbox` of the query: absent or NULL, no list, or a list of its elements.
pub data BboxParameter (F : Type 0) : Type 0 where
  absent : BboxParameter F
  no_list : BboxParameter F
  items : List (Option F) → BboxParameter F

-- A row of the output.
pub record CogRow (F : Type 0) : Type 0 where
  pub id : ℤ
  pub level : ℤ
  pub tile_x : ℤ
  pub tile_y : ℤ
  pub cols : ℤ
  pub rows : ℤ
  pub bbox : Option (Bbox F)
  pub crs : Option ℕ

module _ {F : Type 0} ⦃fl : Float F⦄ where
  -- `to_double`, NaN for a NULL element.
  to_double : Option F → F
  to_double none = fl.nan
  to_double (some x) = x

  box_of_items : List F → Option (Bbox F)
  box_of_items (a ∷ b ∷ c ∷ d ∷ []) = some (record { xmin = a; ymin = b; xmax = c; ymax = d })
  box_of_items l = none

  unfoldable pub bbox_filter : BboxParameter F → Result BboxError (Option (Bbox F))
  unfolding to_double box_of_items
  bbox_filter absent = ok none
  bbox_filter no_list = err not_a_list
  bbox_filter (items l) =
      if length l == 4 then ok (box_of_items (map to_double l)) else err (bbox_elements (length l))

module _ {F : Type 0} where
  -- The cells of a row, and the CRS of the file in each.
  unfoldable pub cog_row : Option ℕ → TileRow F → CogRow F
  unfolding as_i64 as_i32
  cog_row epsg t = record {
    id = as_i64 t.id;
    level = as_i32 t.level;
    tile_x = as_i32 t.tile_x;
    tile_y = as_i32 t.tile_y;
    cols = as_i32 t.cols;
    rows = as_i32 t.rows;
    bbox = t.bbox;
    crs = epsg;
  }

-- What `bind` of `read_cog` keeps for the query.
pub record ReadCogBindData (F : Type 0) : Type 0 where
  pub tiles : List (TileRow F)
  pub crs : Option ℕ

module _ {W F T : Type 0} ⦃fl : Float F⦄ (open_cog : Opener W (Cog F T)) where
  bound :
      Text
      → CogMeta F
      → Option (Result MetaError (List (TileRow F)))
      → Option (Result ReadCogError (ReadCogBindData F))
  bound path m none = none
  bound path m (some (err e)) = some (err (tiles_failed path e))
  bound path m (some (ok rows)) = some (ok (record { tiles = rows; crs = crs m }))

  enumerated :
      Text
      → Option (Bbox F)
      → W × Result Text (Cog F T)
      → W × Option (Result ReadCogError (ReadCogBindData F))
  unfolding bound
  enumerated path filter (w, err e) = (w, some (err (cannot_open e)))
  enumerated path filter (w, ok c) = (w, bound path c.0 (enumerate_tiles_filtered c.0 filter))

  -- `bind` of `read_cog`; the `none` is the panic of the enumeration.
  unfoldable pub read_cog_bind :
      W → Text → BboxParameter F → W × Option (Result ReadCogError (ReadCogBindData F))
  unfolding bbox_filter enumerated
  read_cog_bind w path bbox = elim (bbox_filter bbox) [
    | err e ↦ (w, some (err (bad_bbox e)))
    | ok filter ↦ enumerated path filter (open_cog w path)
  ]

module _ {F : Type 0} where
  -- `func` of `read_cog`: the cursor and the rows of the chunk.
  unfoldable pub read_cog_func : ReadCogBindData F → ℕ → ℕ × List (CogRow F)
  unfolding next_chunk cog_row
  read_cog_func b cursor = let c = next_chunk b.tiles cursor in (c.0, map (cog_row b.crs) c.1)

-- `cog_version`: one row on the first call, once the tile key of (0, 1, 2) comes back.
pub data VersionError : Type 0 where
  engine_broken roundtrip_failed : VersionError

unfoldable pub version_func : Bool → Bool × Result VersionError ℕ
unfolding pack_tile_key unpack_tile_key
version_func true = (true, ok 0)
version_func false = elim (pack_tile_key 0 1 2) [
  | none ↦ (true, err engine_broken)
  | some key ↦
      let (l, x, y) = unpack_tile_key key in
      if l == 0 && x == 1 && y == 2 then (true, ok 1) else (true, err roundtrip_failed)
]

-- `i64::try_from(v).unwrap_or(i64::MAX)`.
saturated : ℕ → ℕ
saturated n = if ltb n (2 ^ 63) then n else i64_max

no_stats : TileCacheStats
no_stats = record { hits = 0; misses = 0; evictions = 0; bytes = 0; max_bytes = 0 }

-- `func` of `cog_cache_stats`: one row of five counters on the first call, zeros without a cache.
module _ {ℓ} {V : Type ℓ} where
  unfoldable pub cache_stats_func : Option (Cache V) → Bool → Bool × List (List ℕ)
  unfolding saturated no_stats
  cache_stats_func cache true = (true, [])
  cache_stats_func cache false =
      let s : TileCacheStats = elim cache [ none ↦ no_stats | some c ↦ TileCache.stats c ] in
      (true, map saturated (s.hits ∷ s.misses ∷ s.evictions ∷ s.bytes ∷ s.max_bytes ∷ []) ∷ [])

-- Environment variables: a number, where the text is one.
module _ (parse_usize : Text → Option ℕ) where
  number_or : Option Text → ℕ → ℕ
  number_or none default = default
  number_or (some s) default = elim (parse_usize s) [ none ↦ default | some n ↦ n ]

  positive_or : Option Text → ℕ → ℕ
  positive_or none default = default
  positive_or (some s) default = elim (parse_usize s) [
    | none ↦ default
    | some n ↦ if leb 1 n then n else default
  ]

  -- `COG_FETCH_CONCURRENCY`, `COG_IO_THREADS`, `COG_REMOTE_CACHE_TTL_S`, `COG_TILE_CACHE_MB`.
  unfoldable pub zonal_concurrency : Option Text → ℕ
  unfolding positive_or
  zonal_concurrency v = positive_or v 16

  unfoldable pub io_workers : Option Text → Option ℕ → ℕ
  unfolding positive_or
  io_workers v parallelism = positive_or v (min (elim parallelism [ none ↦ 2 | some n ↦ n ]) 8)

  unfoldable pub remote_cache_ttl : Option Text → ℕ
  unfolding number_or
  remote_cache_ttl v = number_or v 60

  -- The product is a `usize`.
  unfoldable pub tile_cache_budget : Option Text → Option ℕ
  unfolding number_or
  tile_cache_budget v =
      let mb = number_or v 256 in if ltb 0 mb then some (mb * 1024 * 1024 % 2 ^ 64) else none
