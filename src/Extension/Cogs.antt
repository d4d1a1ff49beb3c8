-- ===== src/Extension/Cogs.antt =====
-- src/lib.rs: `open_cog_cached`, over the cache of readers and the tile cache of the process.
-- `open_engine` is what opening the source at a path and reading its metadata ends with.
pub mod Ids
use duckdb_cog.Base.{
  ℕ, ◌+◌, ◌||◌, Bool, true, false, Option, none, some, List, [], ◌∷◌, Result, ok, err, ◌==◌,
  if◌then◌else◌,
}
use duckdb_cog.Base.Texts.{Text}
use duckdb_cog.Meta.Text.{codes}
use duckdb_cog.TileCache
use duckdb_cog.TileCache.{Cache}
use duckdb_cog.ReaderCache.{ReaderCache, lookup_fresh, get_or_open}

abbrev starts_with : Text → Text → Bool
starts_with [] t = true
starts_with (c ∷ s) [] = false
starts_with (c ∷ s) (d ∷ t) = if c == d then starts_with s t else false

-- `path.contains("://")`.
unfoldable pub has_scheme : Text → Bool
has_scheme [] = false
has_scheme (c ∷ s) = starts_with (codes "://") (c ∷ s) || has_scheme s

-- Metadata with its reader, and the id under which the tile cache knows the reader.
pub record OpenCog (C : Type 0) : Type 0 where
  pub cog : C
  pub reader_id : Option ℕ

-- The caches of the process.
pub record Caches (C V : Type 0) : Type 0 where
  pub readers : ReaderCache (OpenCog C)
  pub tiles : Option (Cache V)

opened_local : {C : Type 0} → Result Text C → Result Text (OpenCog C)
opened_local (err e) = err e
opened_local (ok c) = ok (record { cog = c; reader_id = none })

module _ {C V : Type 0} where
  -- `attach_tile_cache` on a remote reader that was just opened.
  unfoldable pub attach : Option (Cache V) → C → Option (Cache V) × OpenCog C
  attach none c = (none, record { cog = c; reader_id = none })
  attach (some tiles) c =
      let (tiles', id) = TileCache.register tiles in
      (some tiles', record { cog = c; reader_id = some id })

  opened_remote : Option (Cache V) → Result Text C → Option (Cache V) × Result Text (OpenCog C)
  unfolding attach
  opened_remote tiles (err e) = (tiles, err e)
  opened_remote tiles (ok c) = let (tiles', cog) = attach tiles c in (tiles', ok cog)

  -- A fresh reader of the cache, or one that is opened, attached and kept. The caches are as `w` at
  -- the look-up and as `w'` when the metadata has been read.
  unfoldable pub open_remote :
      ℕ → Caches C V → ℕ → Caches C V → Text → Result Text C → Caches C V × Result Text (OpenCog C)
  unfolding opened_remote
  open_remote now w later w' path open_engine = elim (lookup_fresh now path w.readers) [
    | some cog ↦ (w, ok cog)
    | none ↦
        let (tiles, opener) = opened_remote w'.tiles open_engine in
        let (readers, r) = get_or_open now w.readers later w'.readers path opener in
        (record { readers = readers; tiles = tiles }, r)
  ]

  -- `open_cog_cached`; a local file is opened each time and has no cache.
  unfoldable pub open_cog_cached :
      ℕ → Caches C V → ℕ → Caches C V → Text → Result Text C → Caches C V × Result Text (OpenCog C)
  unfolding open_remote opened_local
  open_cog_cached now w later w' path open_engine =
      if has_scheme path
      then open_remote now w later w' path open_engine
      else (w', opened_local open_engine)
