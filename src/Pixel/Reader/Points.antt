-- ===== src/Pixel/Reader/Points.antt =====
-- `read_pixels` and `read_pixel`.
pub mod Sorted
pub mod Single
use duckdb_cog.Base.{
  ℕ, zero, suc, ◌+◌, ◌-◌, ◌/◌, ◌%◌, ◌||◌, ◌&&◌, Bool, true, false, Option, none, some, List, [],
  ◌∷◌, map, Result, ok, err, ◌>>=◌, try_map, ltb, leb, ◌==◌, if◌then◌else◌, filter_map, head?,
  length, replicate,
}
use duckdb_cog.Base.Int.{ℤ, pos, negsuc, leb_ℤ, pos_part}
use duckdb_cog.Float.{Float}
use duckdb_cog.Meta.{CogMeta, LevelMeta, Georef, MetaError, not_georeferenced, world_to_raster}
use duckdb_cog.Pixel.{Array, Planar, apply_nodata}
use duckdb_cog.Pixel.Reader.{
  Failure, error, M, ok_or_panic, IfdReader, CogReader, tile_lookup, fetch_decoded, read_sample,
}
use duckdb_cog.Pixel.Reader.Zonal.{band_outside}

-- `sort_unstable` on pairs, in lexicographic order; equal pairs cannot be told apart.
pub tile_leb : ℕ × ℕ → ℕ × ℕ → Bool
tile_leb t u = ltb t.0 u.0 || (t.0 == u.0 && leb t.1 u.1)

pub sort_insert : ℕ × ℕ → List (ℕ × ℕ) → List (ℕ × ℕ)
unfolding tile_leb
sort_insert t [] = t ∷ []
sort_insert t (u ∷ us) =
    let rest = sort_insert t us in if tile_leb t u then t ∷ u ∷ us else u ∷ rest

pub sort_unstable : List (ℕ × ℕ) → List (ℕ × ℕ)
unfolding sort_insert
sort_unstable [] = []
sort_unstable (t ∷ ts) = sort_insert t (sort_unstable ts)

-- `dedup`: of equal neighbours the first stays.
pub dedup_from : ℕ × ℕ → List (ℕ × ℕ) → List (ℕ × ℕ)
dedup_from t [] = t ∷ []
dedup_from t (u ∷ us) =
    let same = dedup_from t us in
    let next = dedup_from u us in if t.0 == u.0 && t.1 == u.1 then same else t ∷ next

pub dedup : List (ℕ × ℕ) → List (ℕ × ℕ)
unfolding dedup_from
dedup [] = []
dedup (t ∷ ts) = dedup_from t ts

-- The unique tiles of the points inside, in ascending order.
pub point_tile : LevelMeta → Option (ℕ × ℕ) → Option (ℕ × ℕ)
point_tile l0 none = none
point_tile l0 (some c) = some (c.0 / l0.tile_width, c.1 / l0.tile_height)

pub tile_list : LevelMeta → List (Option (ℕ × ℕ)) → List (ℕ × ℕ)
unfolding point_tile
tile_list l0 coords = filter_map (point_tile l0) coords

pub unique_tiles : LevelMeta → List (Option (ℕ × ℕ)) → List (ℕ × ℕ)
unfolding tile_list sort_unstable dedup
unique_tiles l0 coords = dedup (sort_unstable (tile_list l0 coords))

module _ {F : Type 0} ⦃fl : Float F⦄ where
  -- The zero-based column and row of a point, or none outside the image.
  unfoldable pub pixel_at : Georef F → LevelMeta → F × F → Option (ℕ × ℕ)
  pixel_at g l0 p =
      let at = world_to_raster g p.0 p.1 in
      if leb_ℤ (pos 1) at.0
        && leb_ℤ (pos 1) at.1
        && leb_ℤ at.0 (pos l0.image_width)
        && leb_ℤ at.1 (pos l0.image_height)
      then some (pos_part at.0 - 1, pos_part at.1 - 1)
      else none

  -- The sample of one point.
  pub read_coord :
      (ℕ → ℕ → Option (Array F)) → Planar → LevelMeta → ℕ → Option F → Option (ℕ × ℕ) → M (Option F)
  read_coord by_tile layout l0 band nodata none = ok none
  read_coord by_tile layout l0 band nodata (some c) =
      ok_or_panic (by_tile (c.0 / l0.tile_width) (c.1 / l0.tile_height)) >>= λ array.
      read_sample array layout (c.1 % l0.tile_height) (c.0 % l0.tile_width) band >>= λ value.
      ok (apply_nodata value nodata)

  -- `pop().flatten()`.
  pub pop_flatten : List (Option F) → Option F
  pop_flatten [] = none
  pop_flatten (v ∷ []) = v
  pop_flatten (v ∷ w ∷ vs) = pop_flatten (w ∷ vs)

module _ {F T : Type 0} ⦃fl : Float F⦄ where
  unfoldable pub read_pixels : CogReader F T → CogMeta F → List (F × F) → ℕ → M (List (Option F))
  unfolding unique_tiles read_coord
  read_pixels r m points band = elim m.georef [
    | none ↦ err (error not_georeferenced)
    | some g ↦ elim (head? m.levels) [
      | none ↦ ok (replicate (length points) none)
      | some l0 ↦ elim (head? r.ifds) [
        | none ↦ ok (replicate (length points) none)
        | some ifd0 ↦
            if band_outside band m.num_bands
            then ok (replicate (length points) none)
            else let coords = map (pixel_at g l0) points in
              let tiles = unique_tiles l0 coords in
              fetch_decoded r ifd0 tiles >>= λ arrays.
              try_map (read_coord (tile_lookup tiles arrays) ifd0.layout l0 band m.nodata) coords
      ]
    ]
  ]

  unfoldable pub read_pixel : CogReader F T → CogMeta F → F → F → ℕ → M (Option F)
  unfolding pop_flatten
  read_pixel r m x y band = read_pixels r m ((x, y) ∷ []) band >>= λ vs. ok (pop_flatten vs)
