-- ===== src/Meta/Tiles/Filter.antt =====
-- `enumerate_tiles_filtered`: its errors, and which rows it keeps.
use duckdb_cog.Base.{
  ◌≡◌, ◌↔◌, ◌⊎◌, inl, inr, refl, sym, true, false, none, some, List, [], ◌∷◌, ok, err, In,
  Bool-cases, Option-cases, subst,
}
use duckdb_cog.Float.{Float}
use duckdb_cog.Meta.{CogMeta, Georef, Bbox, TileRow, invalid_filter, filter_without_georef}
use duckdb_cog.Meta.Tiles.{
  bbox_intersects, bbox_invalid, row_meets, keep_rows, enumerate_tiles, enumerate_tiles_filtered,
}
use duckdb_cog.Meta.Tiles.Shares.{
  LeLaws, Shares, IsOrdered, IsFilter, intersects-Shares, Shares-intersects, invalid_iff,
}

pub data Sublist {A : Type 0} : List A → List A → Type 0 where
  ends : Sublist [] []
  takes : {x : A} {xs ys : List A} → Sublist xs ys → Sublist (x ∷ xs) (x ∷ ys)
  skips : {y : A} {xs ys : List A} → Sublist xs ys → Sublist xs (y ∷ ys)

module _ {F : Type 0} ⦃fl : Float F⦄ where
  -- A georeferenced row whose box meets the filter.
  abbrev pub Meets : Bbox F → TileRow F → Type 0
  Meets f r = (b : Bbox F) × (r.bbox ≡ some b) × (bbox_intersects b f ≡ true)

  row_meets-Meets : (f : Bbox F) (r : TileRow F) → row_meets f r ≡ true → Meets f r
  unfolding row_meets
  row_meets-Meets f r h = elim (Option-cases r.bbox) [
    | inl e ↦ absurd (no_box (rw (e, row_meets) at h))
    | inr (b, e) ↦ (b, e, rw (e, row_meets) at h)
  ]
    where
      no_box : false ≡ true → ⊥
      no_box e = cc

  Meets-row_meets : (f : Bbox F) (r : TileRow F) → Meets f r → row_meets f r ≡ true
  unfolding row_meets
  Meets-row_meets f r (b, e, h) = rw (e, row_meets) h

  keep_rows-In :
      (f : Bbox F) (rows : List (TileRow F)) (r : TileRow F)
      → In r (keep_rows f rows) ↔ (In r rows × Meets f r)
  unfolding keep_rows
  keep_rows-In f [] r = (λ h. absurd h, λ h. absurd h.0)
  keep_rows-In f (s ∷ rows) r =
      let (to, from) = keep_rows-In f rows r in
      elim (Bool-cases (row_meets f s)) [
        | inl kept ↦ rw (kept, keep_rows) (λ h. kept_to kept to h, λ h. kept_from from h)
        | inr dropped ↦
            rw (dropped, keep_rows)
              (λ h. (inr (to h).0, (to h).1), λ h. dropped_from dropped from h)
      ]
    where
      kept_to :
          row_meets f s ≡ true
          → (In r (keep_rows f rows) → In r rows × Meets f r)
          → (r ≡ s) ⊎ In r (keep_rows f rows)
          → ((r ≡ s) ⊎ In r rows) × Meets f r
      kept_to kept to (inl e) = (inl e, subst (Meets f) (sym e) (row_meets-Meets f s kept))
      kept_to kept to (inr h) = (inr (to h).0, (to h).1)

      kept_from :
          (In r rows × Meets f r → In r (keep_rows f rows))
          → ((r ≡ s) ⊎ In r rows) × Meets f r
          → (r ≡ s) ⊎ In r (keep_rows f rows)
      kept_from from (inl e, m) = inl e
      kept_from from (inr h, m) = inr (from (h, m))

      absurd_meet : row_meets f s ≡ false → row_meets f s ≡ true → ⊥
      absurd_meet a b = cc

      dropped_from :
          row_meets f s ≡ false
          → (In r rows × Meets f r → In r (keep_rows f rows))
          → ((r ≡ s) ⊎ In r rows) × Meets f r
          → In r (keep_rows f rows)
      dropped_from dropped from (inl e, m) =
          absurd (absurd_meet dropped (Meets-row_meets f s (subst (Meets f) e m)))
      dropped_from dropped from (inr h, m) = from (h, m)

  -- The rows that are kept stand in the order of the enumeration.
  keep_rows-Sublist : (f : Bbox F) (rows : List (TileRow F)) → Sublist (keep_rows f rows) rows
  unfolding keep_rows
  keep_rows-Sublist f [] = ends
  keep_rows-Sublist f (r ∷ rows) = elim (Bool-cases (row_meets f r)) [
    | inl kept ↦ rw (kept, keep_rows) (takes (keep_rows-Sublist f rows))
    | inr dropped ↦ rw (dropped, keep_rows) (skips (keep_rows-Sublist f rows))
  ]

module _ {F : Type 0} ⦃fl : Float F⦄ (laws : LeLaws fl) where
  kept_iff :
      (f : Bbox F) (rows : List (TileRow F)) (r : TileRow F) (b : Bbox F)
      → IsFilter f
      → In r rows
      → r.bbox ≡ some b
      → IsOrdered b
      → In r (keep_rows f rows) ↔ Shares b f
  kept_iff f rows r b (_, _, _, _, fx, fy) held boxed ordered =
      let (to, from) = keep_rows-In f rows r in
      (λ h. meets (to h).1, λ shares. from (held, (b, boxed, Shares-intersects laws b f shares)))
    where
      meets : Meets f r → Shares b f
      meets (c, e, h) =
          let same : c ≡ b = cc in
          intersects-Shares laws b f ordered (fx, fy)
            (subst (λ d. bbox_intersects d f ≡ true) same h)

  kept-box :
      (f : Bbox F) (rows : List (TileRow F)) (r : TileRow F)
      → In r (keep_rows f rows)
      → (b : Bbox F) × (r.bbox ≡ some b)
  kept-box f rows r h = let (_, (b, e, _)) = (keep_rows-In f rows r).0 h in (b, e)

  -- Where `<=` and `<` order the numbers as in IEEE 754, with a filter, for metadata whose tiles can
  -- be listed: a filter that is not four finite numbers
  -- in order is refused first, then metadata without a georeference. Otherwise the rows are those of
  -- the enumeration, in its order, that have a box, and of those whose box is in order exactly the
  -- ones whose box has a point in common with the filter, borders included.
  pub enumerate_tiles_filtered_lem :
      (m : CogMeta F) (f : Bbox F) (rows : List (TileRow F))
      → enumerate_tiles m ≡ some rows
      → (¬ IsFilter f → enumerate_tiles_filtered m (some f) ≡ some (err invalid_filter))
        × (IsFilter f
            → m.georef ≡ none
            → enumerate_tiles_filtered m (some f) ≡ some (err filter_without_georef))
        × ((g : Georef F)
            → IsFilter f
            → m.georef ≡ some g
            → (kept : List (TileRow F)) × (enumerate_tiles_filtered m (some f) ≡ some (ok kept))
              × Sublist kept rows
              × ((r : TileRow F) → In r kept → (b : Bbox F) × (r.bbox ≡ some b))
              × ((r : TileRow F) (b : Bbox F)
                  → In r rows
                  → r.bbox ≡ some b
                  → IsOrdered b
                  → In r kept ↔ Shares b f))
  unfolding enumerate_tiles_filtered
  enumerate_tiles_filtered_lem m f rows e = (
    λ bad. elim (Bool-cases (bbox_invalid f)) [
      | inl invalid ↦ rw (invalid, enumerate_tiles_filtered) refl
      | inr valid ↦ absurd (bad ((invalid_iff laws f).0 valid))
    ],
    λ good missing.
        let valid : bbox_invalid f ≡ false = (invalid_iff laws f).1 good in
        rw (valid, missing, enumerate_tiles_filtered) refl,
    λ g good found.
        let valid : bbox_invalid f ≡ false = (invalid_iff laws f).1 good in
        (
          keep_rows f rows,
          rw (valid, found, e, enumerate_tiles_filtered) refl,
          keep_rows-Sublist f rows,
          λ r h. kept-box f rows r h,
          λ r b held boxed ordered. kept_iff f rows r b good held boxed ordered,
        ),
  )
