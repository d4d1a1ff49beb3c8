-- ===== src/Pixel/Reader/Band.antt =====
-- `band_window` and `band_window_polygon`.
pub mod Writes
pub mod Pixels
pub mod Shape
mod Tests
use duckdb_cog.Base.{
  ℕ, ◌+◌, ◌-◌, ◌*◌, ◌/◌, ◌%◌, ◌||◌, Option, none, some, List, [], ◌∷◌, ok, err, ◌>>=◌, fold_m, ltb,
  ◌==◌, if◌then◌else◌, set, head?, length, replicate,
}
use duckdb_cog.Float.{Float}
use duckdb_cog.Meta.{CogMeta, LevelMeta, Georef, Bbox, invalid_filter, not_georeferenced}
use duckdb_cog.Meta.Tiles.{bbox_invalid}
use duckdb_cog.Zone.{Zone, envelope}
use duckdb_cog.Pixel.{Array, Planar, PixelWindow, apply_nodata}
use duckdb_cog.Pixel.Window.{center_window}
use duckdb_cog.Pixel.Reader.{
  error, panic, M, IfdReader, CogReader, window_tiles, span, fetch_decoded, read_sample,
}
use duckdb_cog.Pixel.Reader.Zonal.{band_outside, center_in}

-- `(a_max - a_min + 1)`, the number of columns and of rows.
abbrev pub window_width : PixelWindow → ℕ
window_width w = w.col_max - w.col_min + 1

abbrev pub window_height : PixelWindow → ℕ
window_height w = w.row_max - w.row_min + 1

-- `out[i] = v`, which panics past the end.
pub store {ℓ} : {A : Type ℓ} → List A → ℕ → A → M (List A)
store out i v = if ltb i (length out) then ok (set out i v) else err panic

module _ {F : Type 0} ⦃fl : Float F⦄ where
  pub write_pixel :
      Array F
      → Planar
      → PixelWindow
      → ℕ × ℕ
      → ℕ
      → Option F
      → List (Option F)
      → ℕ
      → ℕ
      → M (List (Option F))
  unfolding store
  write_pixel array layout w (tx0, ty0) band nodata out r c =
      read_sample array layout r c band >>= λ value.
      store out ((ty0 + r - w.row_min) * window_width w + (tx0 + c - w.col_min))
        (apply_nodata value nodata)

  -- The two inner loops over the pixels of one tile.
  pub write_tile :
      Array F
      → Planar
      → PixelWindow
      → ℕ × ℕ
      → ℕ × ℕ
      → ℕ
      → Option F
      → List (Option F)
      → M (List (Option F))
  unfolding write_pixel
  write_tile array layout w (tx0, ty0) (tw, th) band nodata out =
      fold_m
        (λ out' r.
          fold_m (λ out'' c. write_pixel array layout w (tx0, ty0) band nodata out'' r c) out'
            (span w.col_min w.col_max tx0 tw))
        out (span w.row_min w.row_max ty0 th)

  pub write_tiles :
      Planar
      → PixelWindow
      → ℕ × ℕ
      → ℕ
      → Option F
      → List (Option F)
      → List (ℕ × ℕ)
      → List (Array F)
      → M (List (Option F))
  unfolding write_tile
  write_tiles layout w size band nodata out [] arrays = ok out
  write_tiles layout w size band nodata out (t ∷ tiles) [] = ok out
  write_tiles layout w size band nodata out (t ∷ tiles) (a ∷ arrays) =
      write_tile a layout w (t.0 * size.0, t.1 * size.1) size band nodata out >>= λ out'.
      write_tiles layout w size band nodata out' tiles arrays

  -- The `match bbox`: the window, none for an empty one.
  unfoldable pub bbox_window : CogMeta F → LevelMeta → Option (Bbox F) → M (Option PixelWindow)
  bbox_window m l0 none = ok (
      some (record {
        col_min = 0;
        col_max = l0.image_width - 1;
        row_min = 0;
        row_max = l0.image_height - 1;
      }))
  bbox_window m l0 (some b) = if bbox_invalid b then err (error invalid_filter) else elim m.georef [
    | none ↦ err (error not_georeferenced)
    | some g ↦ ok (center_window g l0 b)
  ]

module _ {F : Type 0} ⦃fl : Float F⦄ where
  -- The loop of `band_window_polygon` over the slots, from index `i`.
  pub mask : Georef F → Zone F → PixelWindow → ℕ → List (Option F) → List (Option F)
  mask g zone w i [] = []
  mask g zone w i (none ∷ slots) = none ∷ mask g zone w (i + 1) slots
  mask g zone w i (some v ∷ slots) =
      let rest = mask g zone w (i + 1) slots in
      if center_in g zone (w.col_min + i % window_width w) (w.row_min + i / window_width w)
      then some v ∷ rest
      else none ∷ rest

  -- What follows the read of the window.
  pub mask_window : CogMeta F → Zone F → Bbox F → List (Option F) → M (Option (List (Option F)))
  unfolding mask
  mask_window m zone env [] = ok (some [])
  mask_window m zone env (s ∷ win) = elim m.georef [
    | none ↦ ok (some (s ∷ win))
    | some g ↦ elim (head? m.levels) [
      | none ↦ ok (some (s ∷ win))
      | some l0 ↦ elim (center_window g l0 env) [
        | none ↦ ok (some [])
        | some w ↦ ok (some (mask g zone w 0 (s ∷ win)))
      ]
    ]
  ]

module _ {F T : Type 0} ⦃fl : Float F⦄ where
  -- The part after the window is known.
  pub read_window :
      CogReader F T → IfdReader T → LevelMeta → Option F → ℕ → PixelWindow → M (List (Option F))
  unfolding write_tiles
  read_window r ifd0 l0 nodata band w =
      let tiles = window_tiles l0.tile_width l0.tile_height w in
      fetch_decoded r ifd0 tiles >>= λ arrays.
      write_tiles ifd0.layout w (l0.tile_width, l0.tile_height) band nodata
        (replicate (window_width w * window_height w) none) tiles arrays

  read_found :
      CogReader F T
      → IfdReader T
      → LevelMeta
      → Option F
      → ℕ
      → Option PixelWindow
      → M (Option (List (Option F)))
  unfolding read_window
  read_found r ifd0 l0 nodata band none = ok (some [])
  read_found r ifd0 l0 nodata band (some w) = do
    out ← read_window r ifd0 l0 nodata band w
    ok (some out)

  unfoldable pub band_window :
      CogReader F T → CogMeta F → Option (Bbox F) → ℕ → M (Option (List (Option F)))
  unfolding read_found
  band_window r m bbox band = elim (head? m.levels) [
    | none ↦ ok none
    | some l0 ↦ elim (head? r.ifds) [
      | none ↦ ok none
      | some ifd0 ↦
          if band_outside band m.num_bands
          then ok none
          else if l0.image_width == 0 || l0.image_height == 0
          then ok (some [])
          else (bbox_window m l0 bbox >>= λ w. read_found r ifd0 l0 m.nodata band w)
    ]
  ]

  unfoldable pub band_window_polygon :
      CogReader F T → CogMeta F → Zone F → ℕ → M (Option (List (Option F)))
  unfolding mask_window
  band_window_polygon r m zone band = elim (envelope zone) [
    | none ↦ if band_outside band m.num_bands then ok none else ok (some [])
    | some env ↦ band_window r m (some env) band >>= λ found. elim found [
      | none ↦ ok none
      | some win ↦ mask_window m zone env win
    ]
  ]
