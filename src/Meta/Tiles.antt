-- ===== src/Meta/Tiles.antt =====
-- `tile_bbox`, `bbox_intersects`, `enumerate_tiles` and `enumerate_tiles_filtered`.
pub mod Shares
pub mod Filter
pub mod Tests
pub mod Keys
use duckdb_cog.Base.{
  ℕ, zero, suc, ◌+◌, ◌-◌, ◌*◌, min, ◌||◌, ◌&&◌, Bool, true, false, not, Option, none, some, List,
  [], ◌∷◌, ◌++◌, map, Result, ok, err, ltb, if◌then◌else◌, head?, flat_map, range,
}
use duckdb_cog.Float.{Float}
use duckdb_cog.TileKey.{pack_tile_key}
use duckdb_cog.Meta.{
  LevelMeta, Georef, CogMeta, Bbox, TileRow, MetaError, invalid_filter, filter_without_georef,
}

-- The tiles in the order of the three nested iterators: level, row, column.
unfoldable pub level_tiles : LevelMeta → List (LevelMeta × ℕ × ℕ)
level_tiles l = flat_map (λ y. map (λ x. (l, x, y)) (range 0 l.tiles_x)) (range 0 l.tiles_y)

module _ {F : Type 0} ⦃fl : Float F⦄ where
  -- The data extent of a tile; `base` is the size of level 0.
  unfoldable pub tile_bbox : Georef F → F × F → LevelMeta → ℕ → ℕ → Bbox F
  tile_bbox g base l tx ty =
      let sx = fl.mul g.pixel_x (fl.div base.0 (fl.of_nat l.image_width)) in
      let sy = fl.mul g.pixel_y (fl.div base.1 (fl.of_nat l.image_height)) in
      let px_min = fl.of_nat (tx * l.tile_width) in
      let px_max = fl.of_nat (min ((tx + 1) * l.tile_width) l.image_width) in
      let py_min = fl.of_nat (ty * l.tile_height) in
      let py_max = fl.of_nat (min ((ty + 1) * l.tile_height) l.image_height) in
      record {
        xmin = fl.add g.origin_x (fl.mul px_min sx);
        ymin = fl.sub g.origin_y (fl.mul py_max sy);
        xmax = fl.add g.origin_x (fl.mul px_max sx);
        ymax = fl.sub g.origin_y (fl.mul py_min sy);
      }

  unfoldable pub bbox_intersects : Bbox F → Bbox F → Bool
  bbox_intersects a b =
      fl.le a.xmin b.xmax && fl.le b.xmin a.xmax && fl.le a.ymin b.ymax && fl.le b.ymin a.ymax

  -- `!f.iter().all(is_finite) || f[0] > f[2] || f[1] > f[3]`.
  unfoldable pub bbox_invalid : Bbox F → Bool
  bbox_invalid f =
      not (fl.is_finite f.xmin && fl.is_finite f.ymin && fl.is_finite f.xmax && fl.is_finite f.ymax)
      || fl.lt f.xmax f.xmin
      || fl.lt f.ymax f.ymin

  base_size : CogMeta F → Option (F × F)
  base_size m = elim (head? m.levels) [
    | none ↦ none
    | some l ↦ some (fl.of_nat l.image_width, fl.of_nat l.image_height)
  ]

  pub row_bbox : CogMeta F → LevelMeta → ℕ → ℕ → Option (Bbox F)
  unfolding base_size
  row_bbox m l x y = elim m.georef [
    | none ↦ none
    | some g ↦ elim (base_size m) [ none ↦ none | some b ↦ some (tile_bbox g b l x y) ]
  ]

  -- The row of a tile, or `none` where the source's `expect` on the key panics.
  pub tile_row : CogMeta F → LevelMeta → ℕ → ℕ → Option (TileRow F)
  unfolding row_bbox
  tile_row m l x y = elim (pack_tile_key l.level x y) [
    | none ↦ none
    | some key ↦ some (record {
      id = key;
      level = l.level;
      tile_x = x;
      tile_y = y;
      cols = l.tile_width;
      rows = l.tile_height;
      bbox = row_bbox m l x y;
    })
  ]

  pub collect_rows : CogMeta F → List (LevelMeta × ℕ × ℕ) → Option (List (TileRow F))
  unfolding tile_row
  collect_rows m [] = some []
  collect_rows m ((l, x, y) ∷ ts) = elim (tile_row m l x y) [
    | none ↦ none
    | some r ↦ elim (collect_rows m ts) [ none ↦ none | some rs ↦ some (r ∷ rs) ]
  ]

  -- `enumerate_tiles`; `none` is its panic.
  unfoldable pub enumerate_tiles : CogMeta F → Option (List (TileRow F))
  unfolding collect_rows level_tiles
  enumerate_tiles m = collect_rows m (flat_map level_tiles m.levels)

  pub row_meets : Bbox F → TileRow F → Bool
  row_meets f r = elim r.bbox [ none ↦ false | some b ↦ bbox_intersects b f ]

  pub keep_rows : Bbox F → List (TileRow F) → List (TileRow F)
  unfolding row_meets
  keep_rows f [] = []
  keep_rows f (r ∷ rs) = if row_meets f r then r ∷ keep_rows f rs else keep_rows f rs

  -- `enumerate_tiles_filtered`; the outer `none` is the panic of `enumerate_tiles`.
  unfoldable pub enumerate_tiles_filtered :
      CogMeta F → Option (Bbox F) → Option (Result MetaError (List (TileRow F)))
  unfolding keep_rows
  enumerate_tiles_filtered m none = elim (enumerate_tiles m) [
    | none ↦ none
    | some rs ↦ some (ok rs)
  ]
  enumerate_tiles_filtered m (some f) =
      if bbox_invalid f then some (err invalid_filter) else elim m.georef [
        | none ↦ some (err filter_without_georef)
        | some g ↦ elim (enumerate_tiles m) [ none ↦ none | some rs ↦ some (ok (keep_rows f rs)) ]
      ]
