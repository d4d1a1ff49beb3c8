-- ===== src/Extension/ReadCog.antt =====
-- A whole query of `read_cog`: the bind, and calls until there are no more rows.
use duckdb_cog.Base.{
  ℕ, zero, suc, ◌+◌, ◌*◌, ◌^◌, ◌≤◌, ◌<◌, ◌≡◌, refl, ap, ◌∙◌, Option, some, List, [], ◌∷◌, ◌++◌, map,
  ok, length,
}
use duckdb_cog.Base.Texts.{Text}
use duckdb_cog.Float.{Float}
use duckdb_cog.Meta.{Bbox, TileRow, crs}
use duckdb_cog.Meta.Tiles.{enumerate_tiles_filtered}
use duckdb_cog.Sql.{Cog}
use duckdb_cog.Sql.Open.{Opener}
use duckdb_cog.Extension.{
  chunk_size, next_chunk, BboxParameter, bbox_filter, cog_row, ReadCogBindData, bound, enumerated,
  read_cog_bind, read_cog_func,
}
use duckdb_cog.Extension.Scan.{chunks, scan_drains}

-- The rows of the first calls of `func`.
unfoldable pub called : {B : Type 0} → (ℕ → ℕ × List B) → ℕ → ℕ → List B
called func zero cursor = []
called func (suc k) cursor = (func cursor).1 ++ called func k (func cursor).0

map-append : {A B : Type 0} (f : A → B) (xs ys : List A) → map f (xs ++ ys) ≡ map f xs ++ map f ys
map-append f [] ys = refl
map-append f (x ∷ xs) ys = ap (λ l. f x ∷ l) (map-append f xs ys)

module _ {F : Type 0} where
  called-chunks :
      (b : ReadCogBindData F) (k c : ℕ)
      → called (read_cog_func b) k c ≡ map (cog_row b.crs) (chunks b.tiles k c)
  unfolding called chunks read_cog_func
  called-chunks b zero c = refl
  called-chunks b (suc k) c =
      rw
        (
          map-append (cog_row b.crs) (next_chunk b.tiles c).1
              (chunks b.tiles k (next_chunk b.tiles c).0),
          called-chunks b k (next_chunk b.tiles c).0,
        )
        refl

module _ {W F T : Type 0} ⦃fl : Float F⦄ (open_cog : Opener W (Cog F T)) where
  -- The path opens, and its tiles that the filter keeps are fewer than a 64-bit cursor can pass:
  -- the bind succeeds, and calls of `func` return a row for each of those tiles, in the order of the
  -- enumeration and each with the CRS of the file, and then no more.
  pub read_cog_lem :
      (w : W) (path : Text) (bbox : BboxParameter F) (filter : Option (Bbox F)) (w' : W)
      (c : Cog F T) (tiles : List (TileRow F)) (k : ℕ)
      → bbox_filter bbox ≡ ok filter
      → open_cog w path ≡ (w', ok c)
      → enumerate_tiles_filtered c.0 filter ≡ some (ok tiles)
      → length tiles ≤ k * chunk_size
      → (k + 1) * chunk_size < 2 ^ 64
      → (b : ReadCogBindData F) × (read_cog_bind open_cog w path bbox ≡ (w', some (ok b)))
        × (called (read_cog_func b) k 0 ≡ map (cog_row (crs c.0)) tiles)
        × ((read_cog_func b (k * chunk_size)).1 ≡ [])
  unfolding read_cog_bind enumerated bound read_cog_func
  read_cog_lem w path bbox filter w' c tiles k kept opened listed long small =
      let b : ReadCogBindData F = record { tiles = tiles; crs = crs c.0 } in
      let (first, fits, ends) = scan_drains tiles k small in
      let (all, over) = ends long in
      (
        b,
        rw (kept, read_cog_bind)
            (rw (opened, enumerated) (rw (listed, bound) (ap (λ x. (x.0, some (ok b))) opened))),
        called-chunks b k 0 ∙ ap (map (cog_row (crs c.0))) all,
        ap (map (cog_row (crs c.0))) over,
      )
