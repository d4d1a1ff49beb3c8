-- ===== src/Pixel/Reader/Zonal/Fetch.antt =====
-- `fetch_decoded` over a fetch that answers tile by tile.
use duckdb_cog.Base.{
  ℕ, ◌*◌, ◌≡◌, inl, inr, refl, sym, ap, ◌∙◌, subst, fun_ext, arith, Bool, true, Option, some, List,
  [], ◌∷◌, Result, ok, ◌>>=◌, map_err, try_map, bind-eq_ok, map_err-eq_ok, ◌==◌, ◌&&◌, All, All-imp,
  Bool-cases,
}
use duckdb_cog.Float.{Float}
use duckdb_cog.Pixel.{Array, Planar, PixelWindow, ZonalStats}
use duckdb_cog.Pixel.Reader.{
  M, IfdReader, CogReader, as_tiff, tile_lookup, fetch_decoded, accumulate_tile, accumulate_tiles,
}
use duckdb_cog.Pixel.Reader.Zonal.{accumulate_union}

pub try_map_congr {ℓ κ μ} :
    {E : Type μ} {A : Type ℓ} {B : Type κ} (f g : A → Result E B) (xs : List A)
    → All (λ x. f x ≡ g x) xs
    → try_map f xs ≡ try_map g xs
try_map_congr f g [] a = refl
try_map_congr f g (x ∷ xs) a = rw (a.0, try_map_congr f g xs a.1) refl

pub try_map-All {κ μ} :
    {A : Type 0} {B : Type κ} {E : Type μ} (f : A → Result E B) (xs : List A) {ys : List B}
    → try_map f xs ≡ ok ys
    → All (λ x. (y : B) × (f x ≡ ok y)) xs
try_map-All f [] e = tt
try_map-All f (x ∷ xs) e =
    let (y, p, e') = bind-eq_ok (f x) _ e in
    let (zs, q, _) = bind-eq_ok (try_map f xs) _ e' in ((y, p), try_map-All f xs q)

module _ {F T : Type 0} ⦃fl : Float F⦄ (r : CogReader F T) (ifd : IfdReader T)
    (tile : ℕ × ℕ → Result (List ℕ) T)
    (each : (ts : List (ℕ × ℕ)) → ifd.fetch_tiles ts ≡ try_map tile ts) where
  -- The decoded array of a tile.
  abbrev pub Decodes : ℕ × ℕ → Array F → Type 0
  Decodes t a = (raw : T) × (tile t ≡ ok raw) × (r.decode raw ≡ ok a)

  abbrev pub Has : ℕ × ℕ → Type 0
  Has t = (a : Array F) × Decodes t a

  -- The arrays stand at the places of their tiles.
  abbrev pub Fetched : List (ℕ × ℕ) → List (Array F) → Type 0
  Fetched [] arrays = arrays ≡ []
  Fetched (t ∷ ts) [] = ⊥
  Fetched (t ∷ ts) (a ∷ arrays) = Decodes t a × Fetched ts arrays

  fetch_total :
      (ts : List (ℕ × ℕ))
      → All Has ts
      → (raws : List T) × (arrays : List (Array F)) × (try_map tile ts ≡ ok raws)
        × (try_map (λ t. map_err as_tiff (r.decode t)) raws ≡ ok arrays)
        × Fetched ts arrays
  fetch_total [] a = ([], [], refl, refl, refl)
  fetch_total (t ∷ ts) ((a, (raw, p, q)), rest) =
      let (raws, arrays, e, e', f) = fetch_total ts rest in
      (raw ∷ raws, a ∷ arrays, rw (p, e) refl, rw (q, e') refl, ((raw, p, q), f))

  pub fetch_decoded_total :
      (ts : List (ℕ × ℕ))
      → All Has ts
      → (arrays : List (Array F)) × (fetch_decoded r ifd ts ≡ ok arrays) × Fetched ts arrays
  unfolding fetch_decoded
  fetch_decoded_total ts a =
      let (raws, arrays, e, e', f) = fetch_total ts a in (arrays, rw (each ts, e) e', f)

  Has-tiles :
      (ts : List (ℕ × ℕ)) (raws : List T) {arrays : List (Array F)}
      → try_map tile ts ≡ ok raws
      → try_map (λ t. map_err as_tiff (r.decode t)) raws ≡ ok arrays
      → All Has ts
  Has-tiles [] raws e e' = tt
  Has-tiles (t ∷ ts) raws {arrays} e e' =
      let (raw, p, e1) = bind-eq_ok (tile t) _ e in
      let (rest, q, e2) = bind-eq_ok (try_map tile ts) _ e1 in
      let shape : try_map (λ t. map_err as_tiff (r.decode t)) (raw ∷ rest) ≡ ok arrays =
        subst (λ (l : List T). try_map (λ t. map_err as_tiff (r.decode t)) l ≡ ok arrays)
          (sym (ok_inj e2)) e' in
      let (a, d, e3) = bind-eq_ok (map_err as_tiff (r.decode raw)) _ shape in
      let (arrays', d', _) = bind-eq_ok (try_map (λ t. map_err as_tiff (r.decode t)) rest) _ e3 in
      ((a, (raw, p, map_err-eq_ok as_tiff (r.decode raw) d)), Has-tiles ts rest q d')
    where
      ok_inj : {l l' : List T} → ◌≡◌ {A = Result (List ℕ) (List T)} (ok l) (ok l') → l ≡ l'
      ok_inj h = cc

  pub fetch_decoded-Has :
      (ts : List (ℕ × ℕ)) {arrays : List (Array F)}
      → fetch_decoded r ifd ts ≡ ok arrays
      → All Has ts
  unfolding fetch_decoded
  fetch_decoded-Has ts e =
      let (raws, p, e') = bind-eq_ok (map_err as_tiff (ifd.fetch_tiles ts)) _ e in
      Has-tiles ts raws (sym (each ts) ∙ map_err-eq_ok as_tiff (ifd.fetch_tiles ts) p) e'

  pub decode_unique :
      (t : ℕ × ℕ) (a b : Array F) (w w' : T)
      → tile t ≡ ok w
      → r.decode w ≡ ok a
      → tile t ≡ ok w'
      → r.decode w' ≡ ok b
      → a ≡ b
  decode_unique t a b w w' e d e' d' = cc

  pub Fetched-unique :
      (ts : List (ℕ × ℕ)) (xs ys : List (Array F)) → Fetched ts xs → Fetched ts ys → xs ≡ ys
  Fetched-unique [] xs ys p q = p ∙ sym q
  Fetched-unique (t ∷ ts) [] ys p q = absurd p
  Fetched-unique (t ∷ ts) (a ∷ xs) [] p q = absurd q
  Fetched-unique (t ∷ ts) (a ∷ xs) (b ∷ ys) ((w, e, d), p) ((w', e', d'), q) =
      let rest : xs ≡ ys = Fetched-unique ts xs ys p q in
      let same : a ≡ b = decode_unique t a b w w' e d e' d' in ground arith

  -- The map that is zipped from the fetched tiles holds the array of each of them.
  abbrev pub Finds : (ℕ → ℕ → Option (Array F)) → ℕ × ℕ → Type 0
  Finds by_tile t = (a : Array F) × Decodes t a × (by_tile t.0 t.1 ≡ some a)

  Finds-behind :
      (t t' : ℕ × ℕ) (a : Array F) (ts : List (ℕ × ℕ)) (arrays : List (Array F))
      → Decodes t a
      → Finds (tile_lookup ts arrays) t'
      → Finds (tile_lookup (t ∷ ts) (a ∷ arrays)) t'
  unfolding tile_lookup
  Finds-behind t t' a ts arrays d (b, e, f) = elim (Bool-cases (t.0 == t'.0 && t.1 == t'.1)) [
    | inl same ↦
        (a, subst (λ (u : ℕ × ℕ). Decodes u a) (equal t t' same) d, rw (same, tile_lookup) refl)
    | inr other ↦ (b, e, rw (other, tile_lookup) f)
  ]
    where
      equal : (t u : ℕ × ℕ) → (t.0 == u.0 && t.1 == u.1) ≡ true → t ≡ u
      equal t u same = ground arith

  find_first :
      (t : ℕ × ℕ) (a : Array F) (ts : List (ℕ × ℕ)) (arrays : List (Array F))
      → tile_lookup (t ∷ ts) (a ∷ arrays) t.0 t.1 ≡ some a
  unfolding tile_lookup
  find_first t a ts arrays = ground arith

  pub Fetched-Finds :
      (ts : List (ℕ × ℕ)) (arrays : List (Array F))
      → Fetched ts arrays
      → All (Finds (tile_lookup ts arrays)) ts
  Fetched-Finds [] arrays f = tt
  Fetched-Finds (t ∷ ts) [] f = absurd f
  Fetched-Finds (t ∷ ts) (a ∷ arrays) (d, f) = (
    (a, d, find_first t a ts arrays),
    All-imp (Finds (tile_lookup ts arrays)) (Finds (tile_lookup (t ∷ ts) (a ∷ arrays))) ts
        (λ t' h. Finds-behind t t' a ts arrays d h) (Fetched-Finds ts arrays f),
  )

  -- Over tiles that the map holds, the loop with look-ups is the loop over the zipped arrays.
  pub accumulate_tiles-eq_union :
      (by_tile : ℕ → ℕ → Option (Array F)) (layout : Planar) (w : PixelWindow) (size : ℕ × ℕ)
      (band : ℕ) (nodata : Option F) (keep : ℕ → ℕ → Bool) (acc : ZonalStats F) (ts : List (ℕ × ℕ))
      (arrays : List (Array F))
      → Fetched ts arrays
      → All (Finds by_tile) ts
      → accumulate_union by_tile layout w size band nodata keep acc ts
        ≡ accumulate_tiles layout w size band nodata keep acc ts arrays
  unfolding accumulate_union accumulate_tiles
  accumulate_tiles-eq_union by_tile layout w size band nodata keep acc [] arrays f h = refl
  accumulate_tiles-eq_union by_tile layout w size band nodata keep acc (t ∷ ts) [] f h = absurd f
  accumulate_tiles-eq_union by_tile layout w size band nodata keep acc (t ∷ ts) (a ∷ arrays)
        ((raw, e, d), f) ((b, (raw', e', d'), found), h) =
      rw (found, accumulate_union)
        (rw (decode_unique t b a raw' raw e' d' e d) (
          ap
            (λ (k : ZonalStats F → M (ZonalStats F)).
              accumulate_tile a layout w (t.0 * size.0, t.1 * size.1) size band nodata keep acc
              >>= k)
            (fun_ext (λ acc'.
              accumulate_tiles-eq_union by_tile layout w size band nodata keep acc' ts arrays f
                h))))
