-- ===== src/Pixel/Reader/Band/Pixels.antt =====
-- `band_window` by its pixels: which sample a position of the window holds.
use duckdb_cog.Base.{
  ℕ, ◌+◌, ◌-◌, ◌*◌, ◌/◌, ◌%◌, ◌≤◌, ◌<◌, ◌≡◌, inl, inr, refl, sym, ◌∙◌, subst, arith, min, max,
  Option, none, some, List, [], ◌∷◌, map, range, Result, ok, err, try_map, bind-eq_ok, fold_m,
  length, get_elem?, replicate, length-replicate, All, All-imp, All-range, All-map, All-flat_map,
  Option-cases,
}
use duckdb_cog.Float.{Float}
use duckdb_cog.Meta.{LevelMeta}
use duckdb_cog.Pixel.{Array, PixelWindow, sample_array, apply_nodata}
use duckdb_cog.Pixel.Reader.{
  M, IfdReader, CogReader, window_tiles, span, fetch_decoded, read_sample,
}
use duckdb_cog.Pixel.Reader.Zonal.Fetch.{Decodes, Fetched, fetch_decoded_total, fetch_decoded-Has}
use duckdb_cog.Pixel.Reader.Band.{
  window_width, window_height, write_pixel, write_tile, write_tiles, read_window,
}
use duckdb_cog.Pixel.Reader.Band.Writes.{
  row_major, Any, Any-range, Any-map, Any-flat_map, Writes, store-Writes, fold-Writes, ok-Writes,
  seq-Writes,
}
use native.Mathlib.Nat.{
  div-mul-le_self, div-add-mod, mod-lt, div-lt_iff_lt-mul, mul-le-mul_right, mul_comm,
}

-- Division is monotone.
div_mono : (a b n : ℕ) → 0 < n → a ≤ b → a / n ≤ b / n
div_mono a b n pos h =
    let (to, from) = div-lt_iff_lt-mul {k = n} {x = b} {y = b / n + 1} pos in
    let below : b < (b / n + 1) * n = to (omega arith) in
    let (to', from') = div-lt_iff_lt-mul {k = n} {x = a} {y = b / n + 1} pos in
    let result : a / n < b / n + 1 = from' (omega arith) in omega arith

module _ {F T : Type 0} ⦃fl : Float F⦄ (r : CogReader F T) (ifd : IfdReader T)
    (tile : ℕ × ℕ → Result (List ℕ) T)
    (each : (ts : List (ℕ × ℕ)) → ifd.fetch_tiles ts ≡ try_map tile ts) (l0 : LevelMeta)
    (nodata : Option F) (band : ℕ) (w : PixelWindow) (some_cols : 0 < l0.tile_width)
    (some_rows : 0 < l0.tile_height) where
  tw : ℕ
  tw = l0.tile_width

  th : ℕ
  th = l0.tile_height

  -- The value of the pixel at a column and a row: the sample of its tile at its place there.
  pub PixelIs : ℕ → ℕ → Option F → Type 0
  PixelIs col row s =
      (a : Array F) × (v : F) × Decodes r ifd tile each (col / l0.tile_width, row / l0.tile_height)
        a
      × (sample_array a ifd.layout (row % l0.tile_height) (col % l0.tile_width) (band - 1) ≡ some v)
      × (s ≡ apply_nodata v nodata)

  -- Position `k` of the row-major window.
  Right : ℕ → Option F → Type 0
  Right k s = PixelIs (w.col_min + k % window_width w) (w.row_min + k / window_width w) s

  read_sample_lem :
      (a : Array F) (rr c : ℕ) {v : F}
      → read_sample a ifd.layout rr c band ≡ ok v
      → sample_array a ifd.layout rr c (band - 1) ≡ some v
  unfolding read_sample
  read_sample_lem a rr c e = elim (Option-cases (sample_array a ifd.layout rr c (band - 1))) [
    | inl missing ↦ absurd (no_ok (rw (missing, read_sample) at e))
    | inr (u, found) ↦ found ∙ ok_some (rw (found, read_sample) at e)
  ]
    where
      no_ok : {m : _} {v : F} → ◌≡◌ {A = M F} (err m) (ok v) → ⊥
      no_ok h = cc

      ok_some : {u v : F} → ◌≡◌ {A = M F} (ok u) (ok v) → ◌≡◌ {A = Option F} (some u) (some v)
      ok_some h = cc

  -- The place of the pixel at (c, rr) of tile (tx, ty).
  place : ℕ × ℕ → ℕ → ℕ → ℕ
  place t rr c = (t.1 * th + rr - w.row_min) * window_width w + (t.0 * tw + c - w.col_min)

  InSpan : ℕ → ℕ → ℕ → ℕ → ℕ → Type 0
  InSpan lo hi start size i = (i < size) × (lo ≤ start + i) × (start + i ≤ hi)

  All-span :
      (lo hi start size : ℕ)
      → 0 < size
      → start ≤ hi
      → All (InSpan lo hi start size) (span lo hi start size)
  unfolding span InSpan
  All-span lo hi start size pos before =
      All-range (InSpan lo hi start size) (max lo start - start)
        (min hi (start + size - 1) - start + 1 - (max lo start - start))
        (λ i low high. ground arith)

  place-Right :
      (t : ℕ × ℕ) (a : Array F) (v : F) (rr c : ℕ)
      → Decodes r ifd tile each t a
      → InSpan w.col_min w.col_max (t.0 * tw) tw c
      → InSpan w.row_min w.row_max (t.1 * th) th rr
      → sample_array a ifd.layout rr c (band - 1) ≡ some v
      → Right (place t rr c) (apply_nodata v nodata)
  unfolding InSpan Right place PixelIs tw th
  place-Right t a v rr c d (c_in, c_low, c_high) (r_in, r_low, r_high) e =
      let (row_at, col_at) =
        row_major (t.1 * th + rr - w.row_min) (window_width w) (t.0 * tw + c - w.col_min)
          (omega arith) in
      let (tx, cx) = row_major t.0 tw c c_in in
      let (ty, ry) = row_major t.1 th rr r_in in
      let col_same : w.col_min + (t.0 * tw + c - w.col_min) ≡ t.0 * tw + c = omega arith in
      let row_same : w.row_min + (t.1 * th + rr - w.row_min) ≡ t.1 * th + rr = omega arith in
      rw (row_at, col_at, col_same, row_same) ((a, v, rw (tx, ty) d, rw (cx, ry) e, refl))

  positive_cols : 0 < tw
  unfolding tw
  positive_cols = some_cols

  positive_rows : 0 < th
  unfolding th
  positive_rows = some_rows

  pixel-Writes :
      (t : ℕ × ℕ) (a : Array F) (rr c : ℕ)
      → Decodes r ifd tile each t a
      → InSpan w.col_min w.col_max (t.0 * tw) tw c
      → InSpan w.row_min w.row_max (t.1 * th) th rr
      → Writes Right
          (λ out. write_pixel a ifd.layout w (t.0 * tw, t.1 * th) band nodata out rr c)
          (λ k. k ≡ place t rr c)
  unfolding write_pixel place
  pixel-Writes t a rr c d c_in r_in out out' e =
      let (v, q, e') = bind-eq_ok (read_sample a ifd.layout rr c band) _ e in
      store-Writes Right (place t rr c) (apply_nodata v nodata)
        (place-Right t a v rr c d c_in r_in (read_sample_lem a rr c q)) out out' e'

  -- The positions of the pixels that a tile shares with the window.
  TilePlaces : ℕ × ℕ → ℕ → Type 0
  TilePlaces t k =
      Any (λ rr. Any (λ c. k ≡ place t rr c) (span w.col_min w.col_max (t.0 * tw) tw))
        (span w.row_min w.row_max (t.1 * th) th)

  -- A tile that the loops reach begins inside the window.
  Begins : ℕ × ℕ → Type 0
  Begins t = (t.0 * tw ≤ w.col_max) × (t.1 * th ≤ w.row_max)

  tile-Writes :
      (t : ℕ × ℕ) (a : Array F)
      → Decodes r ifd tile each t a
      → Begins t
      → Writes Right
          (λ out. write_tile a ifd.layout w (t.0 * tw, t.1 * th) (tw, th) band nodata out)
          (TilePlaces t)
  unfolding write_tile TilePlaces Begins
  tile-Writes t a d (cols, rows) =
      let col_span = span w.col_min w.col_max (t.0 * tw) tw in
      let row_span = span w.row_min w.row_max (t.1 * th) th in
      fold-Writes Right
        (λ out' rr.
          fold_m (λ out'' c. write_pixel a ifd.layout w (t.0 * tw, t.1 * th) band nodata out'' rr c)
            out' col_span)
        (λ rr k. Any (λ c. k ≡ place t rr c) col_span) row_span
        (All-imp (InSpan w.row_min w.row_max (t.1 * th) th) _ row_span
          (λ rr r_in.
            fold-Writes Right
              (λ out'' c. write_pixel a ifd.layout w (t.0 * tw, t.1 * th) band nodata out'' rr c)
              (λ c k. k ≡ place t rr c) col_span
              (All-imp (InSpan w.col_min w.col_max (t.0 * tw) tw) _ col_span
                (λ c c_in. pixel-Writes t a rr c d c_in r_in)
                (All-span w.col_min w.col_max (t.0 * tw) tw positive_cols cols)))
          (All-span w.row_min w.row_max (t.1 * th) th positive_rows rows))

  tiles-Writes :
      (ts : List (ℕ × ℕ)) (arrays : List (Array F))
      → Fetched r ifd tile each ts arrays
      → All Begins ts
      → Writes Right
          (λ out. write_tiles ifd.layout w (tw, th) band nodata out ts arrays)
          (λ k. Any (λ t. TilePlaces t k) ts)
  unfolding write_tiles
  tiles-Writes [] arrays f b = ok-Writes Right
  tiles-Writes (t ∷ ts) [] f b = absurd f
  tiles-Writes (t ∷ ts) (a ∷ arrays) (d, f) (begins, b) =
      seq-Writes Right
        (λ out. write_tile a ifd.layout w (t.0 * tw, t.1 * th) (tw, th) band nodata out)
        (λ out. write_tiles ifd.layout w (tw, th) band nodata out ts arrays) (TilePlaces t)
        (λ k. Any (λ u. TilePlaces u k) ts) (tile-Writes t a d begins) (tiles-Writes ts arrays f b)

  tiles_begin : All Begins (window_tiles tw th w)
  unfolding window_tiles Begins
  tiles_begin =
      All-flat_map Begins _ (range (w.row_min / th) (w.row_max / th + 1 - w.row_min / th)) (
        All-range _ (w.row_min / th) (w.row_max / th + 1 - w.row_min / th) (λ ty low high.
          All-map Begins (λ tx. (tx, ty))
            (range (w.col_min / tw) (w.col_max / tw + 1 - w.col_min / tw))
            (All-range _ (w.col_min / tw) (w.col_max / tw + 1 - w.col_min / tw) (λ tx low' high'.
              (begins_at tx w.col_max tw (omega arith), begins_at ty w.row_max th (omega arith))))))
    where
      begins_at : (n hi size : ℕ) → n ≤ hi / size → n * size ≤ hi
      begins_at n hi size h =
          let whole = div-mul-le_self hi size in let scaled = mul-le-mul_right size h in omega arith

  span-covers :
      (lo hi at size : ℕ) (P : ℕ → Type 0)
      → 0 < size
      → lo ≤ at
      → at ≤ hi
      → P (at % size)
      → Any P (span lo hi (at / size * size) size)
  unfolding span
  span-covers lo hi at size P pos low high p =
      let split : size * (at / size) + at % size ≡ at = div-add-mod at size in
      let turn : at / size * size ≡ size * (at / size) = omega arith in
      let inside : at % size < size = mod-lt at pos in
      Any-range P _ _ (at % size) (omega arith) (omega arith) p

  -- Every position of the window is a place of one of its tiles.
  covers :
      (k : ℕ)
      → w.col_min ≤ w.col_max
      → w.row_min ≤ w.row_max
      → k < window_width w * window_height w
      → Any (λ t. TilePlaces t k) (window_tiles tw th w)
  unfolding window_tiles TilePlaces place
  covers k cols rows h =
      let W = window_width w in
      let col = w.col_min + k % W in
      let row = w.row_min + k / W in
      let col_left : k % W < W = mod-lt k (omega arith) in
      let (to, from) = div-lt_iff_lt-mul {k = W} {x = k} {y = window_height w} (omega arith) in
      let row_left : k / W < window_height w =
        from (subst (λ (n : ℕ). k < n) (swap W (window_height w)) h) in
      let c_high : col ≤ w.col_max = omega arith in
      let r_high : row ≤ w.row_max = omega arith in
      let c_low : w.col_min ≤ col = omega arith in
      let r_low : w.row_min ≤ row = omega arith in
      let tx_low = div_mono w.col_min col tw positive_cols c_low in
      let tx_high = div_mono col w.col_max tw positive_cols c_high in
      let ty_low = div_mono w.row_min row th positive_rows r_low in
      let ty_high = div_mono row w.row_max th positive_rows r_high in
      let t : ℕ × ℕ = (col / tw, row / th) in
      let here : k ≡ place t (row % th) (col % tw) =
        whole_place k (row / th * th + row % th) (col / tw * tw + col % tw) (parts row th)
          (parts col tw) in
      Any-flat_map (λ u. TilePlaces u k)
        (λ ty. map (λ tx. (tx, ty)) (range (w.col_min / tw) (w.col_max / tw + 1 - w.col_min / tw)))
        (range (w.row_min / th) (w.row_max / th + 1 - w.row_min / th))
        (Any-range _ (w.row_min / th) (w.row_max / th + 1 - w.row_min / th) (row / th) ty_low
          (omega arith)
          (Any-map (λ u. TilePlaces u k) (λ tx. (tx, row / th))
            (range (w.col_min / tw) (w.col_max / tw + 1 - w.col_min / tw))
            (Any-range _ (w.col_min / tw) (w.col_max / tw + 1 - w.col_min / tw) (col / tw) tx_low
              (omega arith)
              (span-covers w.row_min w.row_max row th
                (λ rr. Any (λ c. k ≡ place t rr c) (span w.col_min w.col_max (t.0 * tw) tw))
                positive_rows r_low r_high
                (span-covers w.col_min w.col_max col tw (λ c. k ≡ place t (row % th) c)
                  positive_cols c_low c_high here)))))
    where
      swap : (a b : ℕ) → a * b ≡ b * a
      swap a b = mul_comm a b

      parts : (a n : ℕ) → a / n * n + a % n ≡ a
      parts a n = let split = div-add-mod a n in let turn = mul_comm n (a / n) in omega arith

      whole_place :
          (k' row col : ℕ)
          → row ≡ w.row_min + k' / window_width w
          → col ≡ w.col_min + k' % window_width w
          → k' ≡ (row - w.row_min) * window_width w + (col - w.col_min)
      whole_place k' row col r_is c_is =
          let split = parts k' (window_width w) in
          let r_off : row - w.row_min ≡ k' / window_width w = omega arith in
          let c_off : col - w.col_min ≡ k' % window_width w = omega arith in
          rw (r_off, c_off) (sym split)

  -- For a fetch that answers tile by tile, positive tile sizes and a window whose first column and
  -- row come before its last: a read of the window that returns has one value for each pixel of the
  -- window, and the value at position k of the row-major order is the sample of the band, or the
  -- missing value where it is nodata, of the pixel at column col_min + k mod width and row
  -- row_min + k div width: read from the tile that holds the pixel, at its place in the tile.
  pub read_window_lem :
      (out : List (Option F))
      → w.col_min ≤ w.col_max
      → w.row_min ≤ w.row_max
      → read_window r ifd l0 nodata band w ≡ ok out
      → (length out ≡ window_width w * window_height w)
        × ((k : ℕ)
            → k < window_width w * window_height w
            → (s : Option F) × (get_elem? out k ≡ some s)
              × PixelIs (w.col_min + k % window_width w) (w.row_min + k / window_width w) s)
  unfolding read_window tw th Right
  read_window_lem out cols rows e =
      let ts = window_tiles l0.tile_width l0.tile_height w in
      let (arrays, q, e') = bind-eq_ok (fetch_decoded r ifd ts) _ e in
      let (arrays', q', f) =
        fetch_decoded_total r ifd tile each ts (fetch_decoded-Has r ifd tile each ts q) in
      let same = ok_inj (sym q' ∙ q) in
      let (len, held) =
        tiles-Writes ts arrays (subst (Fetched r ifd tile each ts) same f) tiles_begin
          (replicate (window_width w * window_height w) none) out e' in
      (
        len ∙ length-replicate (window_width w * window_height w) none,
        λ k h. held k (inr (covers k cols rows h)),
      )
    where
      ok_inj : {xs ys : List (Array F)} → ◌≡◌ {A = M (List (Array F))} (ok xs) (ok ys) → xs ≡ ys
      ok_inj h = cc
