-- ===== src/Pixel/Select.antt =====
-- `select_level`: the overview that fits a budget of pixels.
pub mod Pixels
pub mod Budget
use duckdb_cog.Base.{
  ℕ, zero, suc, ◌+◌, ◌-◌, ◌*◌, ◌||◌, Bool, true, false, Option, none, some, List, [], ◌∷◌, ltb, leb,
  ◌==◌, if◌then◌else◌, length, head?,
}
use duckdb_cog.Float.{Float}
use duckdb_cog.Meta.{LevelMeta, Georef, CogMeta, Bbox}
use duckdb_cog.Pixel.{PixelWindow, level_georef}
use duckdb_cog.Pixel.Window.{center_window}

module _ {F : Type 0} ⦃fl : Float F⦄ where
  -- The number of pixels of a level's window.
  pub window_area : Georef F → LevelMeta → LevelMeta → Bbox F → ℕ
  window_area g0 l0 lv envelope = elim (center_window (level_georef g0 l0 lv) lv envelope) [
    | none ↦ 0
    | some w ↦ (w.col_max - w.col_min + 1) * (w.row_max - w.row_min + 1)
  ]

  -- The loop, from index `i`; `last` is the index that is returned when no level fits.
  pub first_level : Georef F → LevelMeta → Bbox F → ℕ → ℕ → ℕ → List LevelMeta → ℕ
  unfolding window_area
  first_level g0 l0 envelope max_pixels last i [] = last
  first_level g0 l0 envelope max_pixels last i (lv ∷ lvs) =
      if leb (window_area g0 l0 lv envelope) max_pixels
      then i
      else first_level g0 l0 envelope max_pixels last (i + 1) lvs

  unfoldable pub select_level : CogMeta F → Bbox F → ℕ → ℕ
  unfolding first_level
  select_level m envelope max_pixels =
      if max_pixels == 0 || leb (length m.levels) 1 then 0 else elim m.georef [
        | none ↦ 0
        | some g0 ↦ elim (head? m.levels) [
          | none ↦ 0
          | some l0 ↦ first_level g0 l0 envelope max_pixels (length m.levels - 1) 0 m.levels
        ]
      ]
