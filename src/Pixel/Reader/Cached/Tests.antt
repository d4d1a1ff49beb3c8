-- ===== src/Pixel/Reader/Cached/Tests.antt =====
-- A read of two tiles of the image, of which the cache holds the first.
use duckdb_cog.Base.{ℕ, ◌≡◌, ◌↔◌, refl, sym, subst, false, some, List, [], ◌∷◌, ok}
use duckdb_cog.Base.Int.{ℤ}
use duckdb_cog.Float.Half.{half_float}
use duckdb_cog.TileCache.{Cache}
use duckdb_cog.TileCache.Tests.{holding, holding-first, holding-second, first-second}
use duckdb_cog.Pixel.{uint_8, Array}
use duckdb_cog.Pixel.Reader.{M, fetch_decoded}
use duckdb_cog.Pixel.Reader.Cached.{fetch_cached}
use duckdb_cog.Pixel.Reader.Cached.Transparency.{Faithful, Ready, Apart, fetch_cached-transparent}
use duckdb_cog.Pixel.Tests.{image_tile, image_reader, image_fetch, image_each}

abbrev first_array : Array ℤ
first_array = record { shape = (2, 2, 1); samples = uint_8 (0 ∷ 1 ∷ 2 ∷ 3 ∷ []) }

abbrev two_tiles : List (ℕ × ℕ)
two_tiles = (0, 0) ∷ (1, 0) ∷ []

two_tiles-Apart : Apart image_reader image_fetch image_tile image_each false 0 0 two_tiles
two_tiles-Apart = ((first-second, tt), (tt, tt))

holding-Ready :
    Ready image_reader image_fetch image_tile image_each false 0 0 (holding first_array) two_tiles
holding-Ready = (
  subst (Faithful image_reader image_fetch image_tile image_each false 0 0 (0, 0))
      (sym (holding-first first_array)) (0, refl, refl),
  (
    subst (Faithful image_reader image_fetch image_tile image_each false 0 0 (1, 0))
        (sym (holding-second first_array)) tt,
    tt,
  ),
)

fetch_cached-transparent_example :
    (c' : Cache (Array ℤ)) × (res : M (List (Array ℤ))) × (fetch_cached false 0 0 image_reader
        image_fetch two_tiles
        (holding first_array)
      ≡ some (c', res))
    × ((arrays : List (Array ℤ))
        → (res ≡ ok arrays) ↔ (fetch_decoded image_reader image_fetch two_tiles ≡ ok arrays))
fetch_cached-transparent_example =
    fetch_cached-transparent image_reader image_fetch image_tile image_each false 0 0 two_tiles
      (holding first_array) two_tiles-Apart holding-Ready
