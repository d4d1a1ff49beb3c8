-- ===== src/Pixel/Reader/Band/Shape.antt =====
-- How many values a window has that is read: as many as the pixels of its window.
use duckdb_cog.Base.{
  ℕ, suc, ◌+◌, ◌-◌, ◌*◌, ◌≡◌, refl, sym, ap, subst, ◌∙◌, arith, ◌||◌, Option, none, some, List, [],
  ◌∷◌, ok, err, ◌>>=◌, bind-eq_ok, ltb, ◌==◌, set, head?, length, replicate, length-replicate,
  fold_m, ◌⊎◌, inl, inr, Bool-cases, Option-cases,
}
use duckdb_cog.Float.{Float}
use duckdb_cog.Meta.{LevelMeta, Georef, CogMeta, Bbox, invalid_filter, not_georeferenced}
use duckdb_cog.Meta.Tiles.{bbox_invalid}
use duckdb_cog.Zone.{Zone, envelope}
use duckdb_cog.Pixel.{Array, Planar, PixelWindow, apply_nodata}
use duckdb_cog.Pixel.Window.{center_window, envelope_window}
use duckdb_cog.Pixel.Reader.{
  error, panic, M, CogReader, IfdReader, window_tiles, span, fetch_decoded, read_sample,
}
use duckdb_cog.Pixel.Reader.Zonal.{band_outside}
use duckdb_cog.Pixel.Reader.Band.{
  window_width, window_height, store, write_pixel, write_tile, write_tiles, bbox_window, mask,
  mask_window, read_window, read_found, band_window, band_window_polygon,
}
use duckdb_cog.Pixel.Reader.Band.Writes.{length-set}

length-ok :
    {A : Type 0} (xs ys : List A) → ◌≡◌ {A = M (List A)} (ok xs) (ok ys) → length ys ≡ length xs
length-ok xs ys e = let same : xs ≡ ys = cc in ap length (sym same)

length-store :
    {A : Type 0} (out : List A) (i : ℕ) (v : A) (out' : List A)
    → store out i v ≡ ok out'
    → length out' ≡ length out
unfolding store
length-store out i v out' e = elim (Bool-cases (ltb i (length out))) [
  | inl inside ↦
      let written : ◌≡◌ {A = M (List _)} (ok (set out i v)) (ok out') = rw (inside) at e in
      length-ok (set out i v) out' written ∙ length-set out i v
  | inr outside ↦ let stopped : ◌≡◌ {A = M (List _)} (err panic) (ok out') = rw (outside) at e in cc
]

length-fold_m :
    {A B : Type 0} (f : List A → B → M (List A))
    → ((out : List A) (x : B) (out' : List A) → f out x ≡ ok out' → length out' ≡ length out)
    → (xs : List B) (out out' : List A) → fold_m f out xs ≡ ok out'
    → length out' ≡ length out
length-fold_m f step [] out out' e = length-ok out out' e
length-fold_m f step (x ∷ xs) out out' e =
    let (mid, first, rest) = bind-eq_ok (f out x) _ e in
    length-fold_m f step xs mid out' rest ∙ step out x mid first

module _ {F : Type 0} ⦃fl : Float F⦄ where
  length-write_pixel :
      (array : Array F) (layout : Planar) (w : PixelWindow) (origin : ℕ × ℕ) (band : ℕ)
      (nodata : Option F) (out : List (Option F)) (r c : ℕ) (out' : List (Option F))
      → write_pixel array layout w origin band nodata out r c ≡ ok out'
      → length out' ≡ length out
  unfolding write_pixel
  length-write_pixel array layout w (tx0, ty0) band nodata out r c out' e =
      let (value, _, stored) = bind-eq_ok (read_sample array layout r c band) _ e in
      length-store out ((ty0 + r - w.row_min) * window_width w + (tx0 + c - w.col_min))
        (apply_nodata value nodata) out' stored

  length-write_tile :
      (array : Array F) (layout : Planar) (w : PixelWindow) (origin size : ℕ × ℕ) (band : ℕ)
      (nodata : Option F) (out out' : List (Option F))
      → write_tile array layout w origin size band nodata out ≡ ok out'
      → length out' ≡ length out
  unfolding write_tile
  length-write_tile array layout w (tx0, ty0) (tw, th) band nodata out out' e =
      length-fold_m
        (λ o r.
          fold_m (λ o' c. write_pixel array layout w (tx0, ty0) band nodata o' r c) o
            (span w.col_min w.col_max tx0 tw))
        (λ o r o' written.
          length-fold_m (λ o' c. write_pixel array layout w (tx0, ty0) band nodata o' r c)
            (λ o' c. length-write_pixel array layout w (tx0, ty0) band nodata o' r c)
            (span w.col_min w.col_max tx0 tw) o o' written)
        (span w.row_min w.row_max ty0 th) out out' e

  length-write_tiles :
      (layout : Planar) (w : PixelWindow) (size : ℕ × ℕ) (band : ℕ) (nodata : Option F)
      (out : List (Option F)) (tiles : List (ℕ × ℕ)) (arrays : List (Array F))
      (out' : List (Option F))
      → write_tiles layout w size band nodata out tiles arrays ≡ ok out'
      → length out' ≡ length out
  unfolding write_tiles
  length-write_tiles layout w size band nodata out [] arrays out' e = length-ok out out' e
  length-write_tiles layout w size band nodata out (t ∷ tiles) [] out' e = length-ok out out' e
  length-write_tiles layout w size band nodata out (t ∷ tiles) (a ∷ arrays) out' e =
      let (mid, first, rest) =
        bind-eq_ok (write_tile a layout w (t.0 * size.0, t.1 * size.1) size band nodata out) _ e in
      length-write_tiles layout w size band nodata mid tiles arrays out' rest
      ∙ length-write_tile a layout w (t.0 * size.0, t.1 * size.1) size band nodata out mid first

  length-mask :
      (g : Georef F) (zone : Zone F) (w : PixelWindow) (i : ℕ) (slots : List (Option F))
      → length (mask g zone w i slots) ≡ length slots
  unfolding mask
  length-mask g zone w i [] = refl
  length-mask g zone w i (none ∷ slots) = ap suc (length-mask g zone w (i + 1) slots)
  length-mask g zone w i (some v ∷ slots) = ground (arith, length-mask g zone w (i + 1) slots)

module _ {F : Type 0} ⦃fl : Float F⦄ where
  -- A window of the image: none at all, or one for each pixel of the window of the box.
  abbrev pub Shaped : CogMeta F → Bbox F → List (Option F) → Type 0
  Shaped m b win =
      (win ≡ [])
      ⊎ ((w : PixelWindow) × (envelope_window m b ≡ some w)
          × (length win ≡ window_width w * window_height w))

  bbox_window_lem :
      (m : CogMeta F) (l0 : LevelMeta) (b : Bbox F) (w : Option PixelWindow)
      → head? m.levels ≡ some l0
      → bbox_window m l0 (some b) ≡ ok w
      → envelope_window m b ≡ w
  unfolding bbox_window envelope_window
  bbox_window_lem m l0 b w at e = elim (Bool-cases (bbox_invalid b)) [
    | inl invalid ↦
        let stopped : ◌≡◌ {A = M (Option PixelWindow)} (err (error invalid_filter)) (ok w) =
          rw (invalid) at e in
        cc
    | inr valid ↦ elim (Option-cases m.georef) [
      | inl absent ↦
          let stopped : ◌≡◌ {A = M (Option PixelWindow)} (err (error not_georeferenced)) (ok w) =
            rw (valid, absent) at e in
          cc
      | inr (g, placed) ↦
          let found : ◌≡◌ {A = M (Option PixelWindow)} (ok (center_window g l0 b)) (ok w) =
            rw (valid, placed) at e in
          let same : center_window g l0 b ≡ w = cc in rw (placed, envelope_window) (rw (at) same)
    ]
  ]

module _ {F T : Type 0} ⦃fl : Float F⦄ where
  length-read_window :
      (r : CogReader F T) (ifd : IfdReader T) (l0 : LevelMeta) (nodata : Option F) (band : ℕ)
      (w : PixelWindow) (out : List (Option F))
      → read_window r ifd l0 nodata band w ≡ ok out
      → length out ≡ window_width w * window_height w
  unfolding read_window
  length-read_window r ifd l0 nodata band w out e =
      let tiles = window_tiles l0.tile_width l0.tile_height w in
      let (arrays, _, written) = bind-eq_ok (fetch_decoded r ifd tiles) _ e in
      length-write_tiles ifd.layout w (l0.tile_width, l0.tile_height) band nodata
        (replicate (window_width w * window_height w) none) tiles arrays out written
      ∙ length-replicate (window_width w * window_height w) none

  found-Shaped :
      (r : CogReader F T) (m : CogMeta F) (ifd : IfdReader T) (l0 : LevelMeta) (band : ℕ)
      (b : Bbox F) (w : Option PixelWindow) (win : List (Option F))
      → envelope_window m b ≡ w
      → read_found r ifd l0 m.nodata band w ≡ ok (some win)
      → Shaped m b win
  unfolding read_found
  found-Shaped r m ifd l0 band b none win at e = inl cc
  found-Shaped r m ifd l0 band b (some w) win at e =
      let (out, read, e') = bind-eq_ok (read_window r ifd l0 m.nodata band w) _ e in
      let same : out ≡ win = cc in
      inr (
        w,
        at,
        subst (λ l. length l ≡ window_width w * window_height w) same
            (length-read_window r ifd l0 m.nodata band w out read),
      )

  -- A box window that is read, not for a band that the file lacks: it is empty, or has one value for
  -- each pixel of the window that `envelope_window` gives for the box.
  pub band_window-Shaped :
      (r : CogReader F T) (m : CogMeta F) (b : Bbox F) (band : ℕ) (win : List (Option F))
      → band_window r m (some b) band ≡ ok (some win)
      → Shaped m b win
  unfolding band_window
  band_window-Shaped r m b band win e = elim (Option-cases (head? m.levels)) [
    | inl no_level ↦
        let e0 : ◌≡◌ {A = M (Option (List (Option F)))} (ok none) (ok (some win)) =
          rw (no_level, band_window) at e in
        cc
    | inr (l0, at0) ↦ elim (Option-cases (head? r.ifds)) [
      | inl no_ifd ↦
          let e0 : ◌≡◌ {A = M (Option (List (Option F)))} (ok none) (ok (some win)) =
            rw (at0, no_ifd, band_window) at e in
          cc
      | inr (ifd, at1) ↦ elim (Bool-cases (band_outside band m.num_bands)) [
        | inl outside ↦
            let e0 : ◌≡◌ {A = M (Option (List (Option F)))} (ok none) (ok (some win)) =
              rw (at0, at1, outside, band_window) at e in
            cc
        | inr inside ↦ elim (Bool-cases (l0.image_width == 0 || l0.image_height == 0)) [
          | inl no_pixel ↦
              let e0 : ◌≡◌ {A = M (Option (List (Option F)))} (ok (some [])) (ok (some win)) =
                rw (at0, at1, inside, no_pixel, band_window) at e in
              inl cc
          | inr pixels ↦
              let e0 : (bbox_window m l0 (some b) >>= λ w. read_found r ifd l0 m.nodata band w)
                  ≡ ok (some win) =
                rw (at0, at1, inside, pixels, band_window) at e in
              let (w, boxed, read) = bind-eq_ok (bbox_window m l0 (some b)) _ e0 in
              found-Shaped r m ifd l0 band b w win (bbox_window_lem m l0 b w at0 boxed) read
        ]
      ]
    ]
  ]

module _ {F : Type 0} ⦃fl : Float F⦄ where
  kept_shape :
      (m : CogMeta F) (env : Bbox F) (win out : List (Option F))
      → ◌≡◌ {A = M (Option (List (Option F)))} (ok (some win)) (ok (some out))
      → Shaped m env win
      → Shaped m env out
  kept_shape m env win out e h = let same : win ≡ out = cc in subst (Shaped m env) same h

  mask_window-Shaped :
      (m : CogMeta F) (zone : Zone F) (env : Bbox F) (win out : List (Option F))
      → Shaped m env win
      → mask_window m zone env win ≡ ok (some out)
      → Shaped m env out
  unfolding mask_window
  mask_window-Shaped m zone env [] out h e = inl cc
  mask_window-Shaped m zone env (s ∷ win) out (inl empty) e = cc
  mask_window-Shaped m zone env (s ∷ win) out (inr (w, at, len)) e = elim (Option-cases m.georef) [
    | inl absent ↦ kept_shape m env (s ∷ win) out (rw (absent, mask_window) at e) (inr (w, at, len))
    | inr (g, placed) ↦ elim (Option-cases (head? m.levels)) [
      | inl no_level ↦
          kept_shape m env (s ∷ win) out (rw (placed, no_level, mask_window) at e)
            (inr (w, at, len))
      | inr (l0, at0) ↦ elim (Option-cases (center_window g l0 env)) [
        | inl apart ↦ kept_shape m env [] out (rw (placed, at0, apart, mask_window) at e) (inl refl)
        | inr (v, found) ↦
            kept_shape m env (mask g zone v 0 (s ∷ win)) out
              (rw (placed, at0, found, mask_window) at e)
              (inr (w, at, length-mask g zone v 0 (s ∷ win) ∙ len))
      ]
    ]
  ]

module _ {F T : Type 0} ⦃fl : Float F⦄ where
  -- A polygon window that is read, of a zone with an envelope: empty, or one value for each pixel of
  -- the window of the envelope.
  pub band_window_polygon-Shaped :
      (r : CogReader F T) (m : CogMeta F) (zone : Zone F) (env : Bbox F) (band : ℕ)
      (out : List (Option F))
      → envelope zone ≡ some env
      → band_window_polygon r m zone band ≡ ok (some out)
      → Shaped m env out
  unfolding band_window_polygon
  band_window_polygon-Shaped r m zone env band out covers e =
      let e0 : (band_window r m (some env) band >>= λ found. elim found [
        | none ↦ ok none
        | some win ↦ mask_window m zone env win
      ])
          ≡ ok (some out) =
        rw (covers, band_window_polygon) at e in
      let (found, read, masked) = bind-eq_ok (band_window r m (some env) band) _ e0 in
      by_found found read masked
    where
      by_found :
          (found : Option (List (Option F)))
          → band_window r m (some env) band ≡ ok found
          → elim found as (λ _. M (Option (List (Option F)))) [
            | none ↦ ok none
            | some win ↦ mask_window m zone env win
          ]
            ≡ ok (some out)
          → Shaped m env out
      by_found none read masked = cc
      by_found (some win) read masked =
          mask_window-Shaped m zone env win out (band_window-Shaped r m env band win read) masked
