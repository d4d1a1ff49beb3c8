-- ===== src/Pixel/Select/Pixels.antt =====
-- `window_area` against the list of the pixels of a window.
use duckdb_cog.Base.{
  ℕ, zero, suc, ◌+◌, ◌-◌, ◌*◌, ◌≡◌, refl, arith, none, some, List, map, flat_map, range, length,
  length-append, length-map, length-range, Option-cases, inl, inr,
}
use duckdb_cog.Float.{Float}
use duckdb_cog.Meta.{LevelMeta, Georef, Bbox}
use duckdb_cog.Pixel.{PixelWindow, level_georef}
use duckdb_cog.Pixel.Window.{center_window}
use duckdb_cog.Pixel.Select.{window_area}

-- The pixels of a window, row by row from its first to its last.
abbrev pub pixels : PixelWindow → List (ℕ × ℕ)
pixels w =
    flat_map (λ row. map (λ col. (col, row)) (range w.col_min (suc (w.col_max - w.col_min))))
      (range w.row_min (suc (w.row_max - w.row_min)))

length-rows :
    (first width lo n : ℕ)
    → length {A = ℕ × ℕ}
        (flat_map (λ row. map (λ col. (col, row)) (range first width)) (range lo n))
      ≡ n * width
length-rows first width lo zero = omega arith
length-rows first width lo (suc n) = omega (
  arith,
  length-append {A = ℕ × ℕ} (map (λ col. (col, lo)) (range first width))
      (flat_map (λ row. map (λ col. (col, row)) (range first width)) (range (lo + 1) n)),
  length-map {B = ℕ × ℕ} (λ (col : ℕ). (col, lo)) (range first width),
  length-range first width,
  length-rows first width (lo + 1) n,
)

module _ {F : Type 0} ⦃fl : Float F⦄ where
  -- How many pixels of a level have their center in the box.
  abbrev pub pixels_in : Georef F → LevelMeta → Bbox F → LevelMeta → ℕ
  pixels_in g0 l0 b lv = elim (center_window (level_georef g0 l0 lv) lv b) [
    | none ↦ 0
    | some w ↦ length (pixels w)
  ]

  pub window_area-eq_pixels :
      (g0 : Georef F) (l0 lv : LevelMeta) (b : Bbox F)
      → window_area g0 l0 lv b ≡ pixels_in g0 l0 b lv
  unfolding window_area
  window_area-eq_pixels g0 l0 lv b =
      elim (Option-cases (center_window (level_georef g0 l0 lv) lv b)) [
        | inl e ↦ rw (window_area, pixels_in, e) refl
        | inr (w, e) ↦ rw (window_area, pixels_in, e) (counted w)
      ]
    where
      counted :
          (w : PixelWindow)
          → (w.col_max - w.col_min + 1) * (w.row_max - w.row_min + 1) ≡ length (pixels w)
      counted w = ground (
        arith,
        length-rows w.col_min (suc (w.col_max - w.col_min)) w.row_min (suc (w.row_max - w.row_min)),
      )
