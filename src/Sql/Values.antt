-- ===== src/Sql/Values.antt =====
-- Pixel values in SQL: `RS_Value`, `RS_NormalizedDifference`, `RS_Values` and `RS_BandAsArray`.
pub mod Elements
use duckdb_cog.Base.{
  ℕ, zero, suc, ◌+◌, ◌-◌, ◌*◌, max, Bool, true, false, ◌&&◌, Option, none, some, List, [], ◌∷◌, map,
  Result, ok, err, ◌>>=◌, map_err, ltb, ◌==◌, if◌then◌else◌, zip, length, get_elem?, set, try_map,
  replicate, range,
}
use duckdb_cog.Base.Int.{ℤ, pos, negsuc}
use duckdb_cog.Base.Texts.{Text}
use duckdb_cog.Float.{Float}
use duckdb_cog.Meta.{CogMeta, Bbox}
use duckdb_cog.Zone.{Zone, ZoneError}
use duckdb_cog.Pixel.{normalized_difference}
use duckdb_cog.Pixel.Reader.{CogReader}
use duckdb_cog.Pixel.Reader.Points.{read_pixel, read_pixels}
use duckdb_cog.Pixel.Reader.Band.{band_window, band_window_polygon}
use duckdb_cog.Sql.{
  SqlFailure, error, panic, length_mismatch, bbox_elements, S, at_path, zone_failed, Cog, and_then,
  try_u32, band_column, ListColumn, max_end,
}
use duckdb_cog.Sql.Open.{Opener, remember, rows_loop}

-- A loop that keeps nothing but its files.
abbrev pub stateless :
    {R J : Type 0} → (R → S (Option (Text × J))) → Unit {0} → R → S (Unit {0} × Option (Text × J))
stateless prepare z r = prepare r >>= λ o. ok (z, o)

-- `u32::try_from(band).unwrap_or(0)`.
unfoldable pub band_or_zero : ℤ → ℕ
band_or_zero (pos n) = n
band_or_zero (negsuc n) = 0

module _ {F : Type 0} where
  -- The arguments of `RS_Value`: with a NULL among them the row is NULL.
  unfoldable pub value_args :
      Option Text × (Option F × (Option F × Option ℤ)) → S (Option (Text × (F × F × Option ℕ)))
  value_args (some path, (some x, (some y, some b))) = ok (some (path, (x, y, try_u32 b)))
  value_args r = ok none

  unfoldable pub difference_args :
      Option Text × (Option F × (Option F × (Option ℤ × Option ℤ)))
      → S (Option (Text × (F × F × ℤ × ℤ)))
  difference_args (some path, (some x, (some y, (some b1, some b2)))) =
      ok (some (path, (x, y, b1, b2)))
  difference_args r = ok none

module _ {F T : Type 0} ⦃fl : Float F⦄ where
  -- The pixel of a band, NULL for a band that is no `u32`.
  unfoldable pub answer_value : Text → Cog F T → F × F × Option ℕ → S (Option F)
  answer_value path c (x, y, none) = ok none
  answer_value path c (x, y, some b) = map_err (at_path path) (read_pixel c.1 c.0 x y b)

  unfoldable pub answer_difference : Text → Cog F T → F × F × ℤ × ℤ → S (Option F)
  unfolding answer_value
  answer_difference path c (x, y, b1, b2) = answer_value path c (x, y, try_u32 b1) >>= λ v1.
      answer_value path c (x, y, try_u32 b2) >>= λ v2. ok (normalized_difference v1 v2)

-- The entries of both lists, which must be equally long.
unfoldable pub values_args :
    Option Text × (Option (ℕ × ℕ) × (Option (ℕ × ℕ) × Option ℤ))
    → S (Option (Text × (ℕ × ℕ × ℕ × Option ℕ)))
values_args (some path, (some (xo, xn), (some (yo, yn), some b))) =
    if xn == yn
    then ok (some (path, (xo, yo, xn, try_u32 b)))
    else err (error (length_mismatch xn yn))
values_args r = ok none

-- `result[k] = v`, which panics past the end.
unfoldable pub put_at : {A : Type 0} → List A → ℕ → A → S (List A)
put_at out k v = if ltb k (length out) then ok (set out k v) else err panic

unfoldable pub scatter : {A : Type 0} → List A → List ℕ → List A → S (List A)
unfolding put_at
scatter out [] vs = ok out
scatter out (k ∷ ks) [] = ok out
scatter out (k ∷ ks) (v ∷ vs) = put_at out k v >>= λ out'. scatter out' ks vs

module _ {F : Type 0} (xs ys : ListColumn F) where
  -- Element `k` of a row, none where it is NULL in a list; slices end at the largest end of a row.
  pub element : ℕ → ℕ → ℕ → S (Option (F × F))
  element xo yo k = elim (xs.child (xo + k)) [
    | none ↦ ok none
    | some x ↦ elim (ys.child (yo + k)) [
      | none ↦ ok none
      | some y ↦
          if ltb (xo + k) (max_end xs.entries) && ltb (yo + k) (max_end ys.entries)
          then ok (some (x, y))
          else err panic
    ]
  ]

  -- The elements that are not NULL, with their places.
  pub keep_element : ℕ → Option (F × F) → List (ℕ × F × F) → List (ℕ × F × F)
  keep_element k none rest = rest
  keep_element k (some p) rest = (k, p.0, p.1) ∷ rest

  unfoldable pub gather : ℕ → ℕ → List ℕ → S (List (ℕ × F × F))
  unfolding element keep_element
  gather xo yo [] = ok []
  gather xo yo (k ∷ ks) =
      element xo yo k >>= λ p. gather xo yo ks >>= λ rest. ok (keep_element k p rest)

module _ {F T : Type 0} ⦃fl : Float F⦄ (xs ys : ListColumn F) where
  pub batch : Text → Cog F T → List (F × F) → Option ℕ → S (List (Option F))
  batch path c points none = ok (replicate (length points) none)
  batch path c points (some b) = map_err (at_path path) (read_pixels c.1 c.0 points b)

  unfoldable pub answer_values :
      Text → Cog F T → ℕ × ℕ × ℕ × Option ℕ → S (Option (List (Option F)))
  unfolding gather batch scatter
  answer_values path c (xo, yo, n, band) = gather xs ys xo yo (range 0 n) >>= λ kept.
      batch path c (map (λ k. (k.1, k.2)) kept) band >>= λ values.
      scatter (replicate n none) (map (λ k. k.0) kept) values >>= λ result. ok (some result)

module _ {W F T : Type 0} ⦃fl : Float F⦄ (open_cog : Opener W (Cog F T)) where
  unfoldable pub rs_value :
      W
      → List (Option Text)
      → List (Option F)
      → List (Option F)
      → Option (List (Option ℤ))
      → W × S (List (Option F))
  unfolding value_args answer_value
  rs_value w paths xs ys bands =
      rows_loop open_cog (stateless value_args) answer_value tt w []
        (zip paths (zip xs (zip ys (band_column (length paths) bands))))

  unfoldable pub rs_normalized_difference :
      W
      → List (Option Text)
      → List (Option F)
      → List (Option F)
      → List (Option ℤ)
      → List (Option ℤ)
      → W × S (List (Option F))
  unfolding difference_args answer_difference
  rs_normalized_difference w paths xs ys b1s b2s =
      rows_loop open_cog (stateless difference_args) answer_difference tt w []
        (zip paths (zip xs (zip ys (zip b1s b2s))))

  unfoldable pub rs_values :
      W
      → List (Option Text)
      → ListColumn F
      → ListColumn F
      → Option (List (Option ℤ))
      → W × S (List (Option (List (Option F))))
  unfolding values_args answer_values
  rs_values w paths xs ys bands =
      rows_loop open_cog (stateless values_args) (answer_values xs ys) tt w []
        (zip paths (zip xs.entries (zip ys.entries (band_column (length paths) bands))))
