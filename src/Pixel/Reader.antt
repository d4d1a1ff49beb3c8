-- ===== src/Pixel/Reader.antt =====
-- `CogReader`: tile fetches, the accumulation of windows, point reads and band windows. The
-- fetch and the decoder of async-tiff are parameters; a read ends in a value or a failure.
pub mod Zonal
pub mod Points
pub mod Band
pub mod Cached
use duckdb_cog.Base.{
  ℕ, zero, suc, ◌+◌, ◌-◌, ◌*◌, ◌/◌, ◌%◌, min, max, ◌||◌, ◌&&◌, Bool, true, false, Option, none,
  some, List, [], ◌∷◌, map, Result, ok, err, ◌>>=◌, map_err, try_map, fold_m, ltb, ◌==◌,
  if◌then◌else◌, range, flat_map, get_elem?,
}
use duckdb_cog.Float.{Float}
use duckdb_cog.Meta.{MetaError, tiff, tiff_shape, CogMeta, LevelMeta}
use duckdb_cog.Pixel.{
  Array, Planar, PixelWindow, ZonalStats, empty_zonal, sample_array, apply_nodata, add_pixel,
}

-- An error of the source, or a panic: an index that a map does not hold.
pub data Failure : Type 0 where
  error : MetaError → Failure
  panic : Failure

abbrev pub M {ℓ} : Type ℓ → Type ℓ
M A = Result Failure A

abbrev pub ok_or_panic {ℓ} : {A : Type ℓ} → Option A → M A
ok_or_panic none = err panic
ok_or_panic (some a) = ok a

-- An IFD with its fetch, and the decoder: the outcomes of `fetch_tiles` and `Tile::decode`.
pub record IfdReader (T : Type 0) : Type 0 where
  pub layout : Planar
  pub fetch_tiles : List (ℕ × ℕ) → Result (List ℕ) (List T)

pub record CogReader (F T : Type 0) : Type 0 where
  pub ifds : List (IfdReader T)
  pub decode : T → Result (List ℕ) (Array F)

pub as_tiff : List ℕ → Failure
as_tiff e = error (tiff e)

-- A look-up in the map of decoded tiles that is zipped from the tiles and their arrays.
unfoldable pub tile_lookup {ℓ} : {A : Type ℓ} → List (ℕ × ℕ) → List A → ℕ → ℕ → Option A
tile_lookup [] arrays x y = none
tile_lookup (t ∷ tiles) [] x y = none
tile_lookup (t ∷ tiles) (a ∷ arrays) x y =
    if t.0 == x && t.1 == y then some a else tile_lookup tiles arrays x y

-- The tiles of a window in the order of the loops: row of tiles, column of tiles.
unfoldable pub window_tiles : ℕ → ℕ → PixelWindow → List (ℕ × ℕ)
window_tiles tw th w =
    flat_map
      (λ ty. map (λ tx. (tx, ty)) (range (w.col_min / tw) (w.col_max / tw + 1 - w.col_min / tw)))
      (range (w.row_min / th) (w.row_max / th + 1 - w.row_min / th))

-- The positions inside a tile, first and last, that a span of the image covers.
unfoldable pub span : ℕ → ℕ → ℕ → ℕ → List ℕ
span lo hi start size =
    let first = max lo start - start in
    let last = min hi (start + size - 1) - start in range first (last + 1 - first)

module _ {F T : Type 0} where
  -- `fetch_decoded` of a reader without a tile cache.
  unfoldable pub fetch_decoded : CogReader F T → IfdReader T → List (ℕ × ℕ) → M (List (Array F))
  unfolding as_tiff
  fetch_decoded r ifd tiles = do
    fetched ← map_err as_tiff (ifd.fetch_tiles tiles)
    try_map (λ t. map_err as_tiff (r.decode t)) fetched

module _ {F : Type 0} ⦃fl : Float F⦄ where
  -- `sample_array` with its error for a shape that lacks the pixel.
  unfoldable pub read_sample : Array F → Planar → ℕ → ℕ → ℕ → M F
  read_sample array layout r c band = elim (sample_array array layout r c (band - 1)) [
    | none ↦ err (error (tiff_shape r c band))
    | some v ↦ ok v
  ]

  pub add_valid : ZonalStats F → Option F → ZonalStats F
  add_valid acc none = acc
  add_valid acc (some v) = add_pixel acc v

  -- The body of the inner loop of `accumulate_tile`, at row `r` and column `c` of the tile.
  pub accumulate_pixel :
      Array F
      → Planar
      → ℕ
      → ℕ
      → ℕ
      → Option F
      → (ℕ → ℕ → Bool)
      → ZonalStats F
      → ℕ
      → ℕ
      → M (ZonalStats F)
  unfolding add_valid
  accumulate_pixel array layout tx0 ty0 band nodata keep acc r c =
      if keep (tx0 + c) (ty0 + r)
      then (read_sample array layout r c band >>= λ value.
          ok (add_valid acc (apply_nodata value nodata)))
      else ok acc

  unfoldable pub accumulate_tile :
      Array F
      → Planar
      → PixelWindow
      → ℕ × ℕ
      → ℕ × ℕ
      → ℕ
      → Option F
      → (ℕ → ℕ → Bool)
      → ZonalStats F
      → M (ZonalStats F)
  unfolding accumulate_pixel
  accumulate_tile array layout w (tx0, ty0) (tw, th) band nodata keep acc =
      fold_m
        (λ acc' r.
          fold_m (λ acc'' c. accumulate_pixel array layout tx0 ty0 band nodata keep acc'' r c) acc'
            (span w.col_min w.col_max tx0 tw))
        acc (span w.row_min w.row_max ty0 th)

  -- The loop of `accumulate_window` over the tiles and their arrays, zipped.
  pub accumulate_tiles :
      Planar
      → PixelWindow
      → ℕ × ℕ
      → ℕ
      → Option F
      → (ℕ → ℕ → Bool)
      → ZonalStats F
      → List (ℕ × ℕ)
      → List (Array F)
      → M (ZonalStats F)
  accumulate_tiles layout w size band nodata keep acc [] arrays = ok acc
  accumulate_tiles layout w size band nodata keep acc (t ∷ tiles) [] = ok acc
  accumulate_tiles layout w size band nodata keep acc (t ∷ tiles) (a ∷ arrays) =
      accumulate_tile a layout w (t.0 * size.0, t.1 * size.1) size band nodata keep acc >>= λ acc'.
      accumulate_tiles layout w size band nodata keep acc' tiles arrays

module _ {F T : Type 0} ⦃fl : Float F⦄ where
  unfoldable pub accumulate_window :
      CogReader F T → CogMeta F → ℕ → PixelWindow → ℕ → (ℕ → ℕ → Bool) → M (ZonalStats F)
  unfolding accumulate_tiles
  accumulate_window r m level w band keep = elim (get_elem? m.levels level) [
    | none ↦ ok empty_zonal
    | some lv ↦ elim (get_elem? r.ifds level) [
      | none ↦ ok empty_zonal
      | some ifd ↦
          let tiles = window_tiles lv.tile_width lv.tile_height w in
          fetch_decoded r ifd tiles >>= λ arrays.
          accumulate_tiles ifd.layout w (lv.tile_width, lv.tile_height) band m.nodata keep
            empty_zonal tiles arrays
    ]
  ]
