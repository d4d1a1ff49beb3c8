-- ===== src/Pixel/Reader/Points/Single.antt =====
-- `read_pixels` against one `read_pixel` for each point.
use duckdb_cog.Base.{
  ℕ, ◌/◌, ◌≡◌, ◌↔◌, refl, sym, ap, ◌∙◌, arith, false, Option, none, some, List, [], ◌∷◌, map,
  Result, ok, err, ◌>>=◌, try_map, bind-eq_ok, head?, All,
}
use duckdb_cog.Float.{Float}
use duckdb_cog.Meta.{CogMeta, LevelMeta, Georef}
use duckdb_cog.Pixel.{Array}
use duckdb_cog.Pixel.Reader.{M, IfdReader, CogReader, tile_lookup, fetch_decoded}
use duckdb_cog.Pixel.Reader.Zonal.{band_outside}
use duckdb_cog.Pixel.Reader.Zonal.Fetch.{
  Has, fetch_decoded_total, fetch_decoded-Has, decode_unique, Finds, Fetched-Finds,
}
use duckdb_cog.Pixel.Reader.Points.{
  pixel_at, point_tile, tile_list, unique_tiles, read_coord, pop_flatten, read_pixels, read_pixel,
}
use duckdb_cog.Pixel.Reader.Points.Sorted.{All-unique, unique-All}

-- The situation in which a read gets as far as the tiles.
pub record Reads {F T : Type 0} (r : CogReader F T) (m : CogMeta F) (band : ℕ) (g : Georef F)
    (l0 : LevelMeta) (ifd0 : IfdReader T) : Type 0 where
  pub georef : m.georef ≡ some g
  pub first : head? m.levels ≡ some l0
  pub ifd_at : head? r.ifds ≡ some ifd0
  pub band_inside : band_outside band m.num_bands ≡ false

module _ {F T : Type 0} ⦃fl : Float F⦄ (r : CogReader F T) (m : CogMeta F) (band : ℕ) (g : Georef F)
    (l0 : LevelMeta) (ifd0 : IfdReader T) (o : Reads r m band g l0 ifd0)
    (tile : ℕ × ℕ → Result (List ℕ) T)
    (each : (ts : List (ℕ × ℕ)) → ifd0.fetch_tiles ts ≡ try_map tile ts) where
  HasTile : ℕ × ℕ → Type 0
  HasTile = Has r ifd0 tile each

  FindsTile : (ℕ → ℕ → Option (Array F)) → ℕ × ℕ → Type 0
  FindsTile = Finds r ifd0 tile each

  coords : List (F × F) → List (Option (ℕ × ℕ))
  coords points = map (pixel_at g l0) points

  sample : (ℕ → ℕ → Option (Array F)) → Option (ℕ × ℕ) → M (Option F)
  sample by_tile c = read_coord by_tile ifd0.layout l0 band m.nodata c

  read_some :
      (points : List (F × F))
      → read_pixels r m points band ≡ (
          fetch_decoded r ifd0 (unique_tiles l0 (coords points)) >>= λ arrays.
          try_map (sample (tile_lookup (unique_tiles l0 (coords points)) arrays)) (coords points))
  unfolding read_pixels coords sample
  read_some points = ground (arith, o.georef, o.first, o.ifd_at, o.band_inside)

  abbrev Covers : (ℕ × ℕ → Type 0) → Option (ℕ × ℕ) → Type 0
  Covers P none = Unit
  Covers P (some c) = P (c.0 / l0.tile_width, c.1 / l0.tile_height)

  split :
      (P : ℕ × ℕ → Type 0) (cs : List (Option (ℕ × ℕ)))
      → All P (tile_list l0 cs)
      → All (Covers P) cs
  unfolding tile_list point_tile
  split P [] a = tt
  split P (none ∷ cs) a = (tt, split P cs a)
  split P (some c ∷ cs) a = (a.0, split P cs a.1)

  join :
      (P : ℕ × ℕ → Type 0) (cs : List (Option (ℕ × ℕ)))
      → All (Covers P) cs
      → All P (tile_list l0 cs)
  unfolding tile_list point_tile
  join P [] a = tt
  join P (none ∷ cs) a = join P cs a.1
  join P (some c ∷ cs) a = (a.0, join P cs a.1)

  -- Two maps that hold the tile of a point give the same sample.
  sample_eq :
      (by_tile by_tile' : ℕ → ℕ → Option (Array F)) (c : Option (ℕ × ℕ))
      → Covers (FindsTile by_tile) c
      → Covers (FindsTile by_tile') c
      → sample by_tile c ≡ sample by_tile' c
  unfolding sample read_coord FindsTile
  sample_eq by_tile by_tile' none h h' = refl
  sample_eq by_tile by_tile' (some c) (a, (w, e, d), q) (b, (w', e', d'), q') =
      rw (q, q', read_coord)
        (rw
          (decode_unique r ifd0 tile each (c.0 / l0.tile_width, c.1 / l0.tile_height) a b w w' e d
            e' d')
          refl)

  -- A fetch that returns: the map zipped from it holds the tiles of all points.
  finds-All :
      (cs : List (Option (ℕ × ℕ)))
      → All (Covers HasTile) cs
      → (arrays : List (Array F)) × (fetch_decoded r ifd0 (unique_tiles l0 cs) ≡ ok arrays)
        × All (Covers (FindsTile (tile_lookup (unique_tiles l0 cs) arrays))) cs
  unfolding HasTile FindsTile
  finds-All cs a =
      let has = All-unique HasTile l0 cs (join HasTile cs a) in
      let (arrays, e, f) = fetch_decoded_total r ifd0 tile each (unique_tiles l0 cs) has in
      let found = Fetched-Finds r ifd0 tile each (unique_tiles l0 cs) arrays f in
      let P = FindsTile (tile_lookup (unique_tiles l0 cs) arrays) in
      (arrays, e, split P cs (unique-All P l0 cs found))

  has-All :
      (cs : List (Option (ℕ × ℕ))) (arrays : List (Array F))
      → fetch_decoded r ifd0 (unique_tiles l0 cs) ≡ ok arrays
      → All (Covers HasTile) cs
  unfolding HasTile
  has-All cs arrays e =
      split HasTile cs
        (unique-All HasTile l0 cs (fetch_decoded-Has r ifd0 tile each (unique_tiles l0 cs) e))

  single : F × F → M (Option F)
  single p = read_pixel r m p.0 p.1 band

  pop_one :
      (f : Option (ℕ × ℕ) → M (Option F)) (c : Option (ℕ × ℕ))
      → (try_map f (c ∷ []) >>= λ vs. ok (pop_flatten vs)) ≡ f c
  unfolding pop_flatten
  pop_one f c = go (f c) refl
    where
      go : (v : M (Option F)) → f c ≡ v → (try_map f (c ∷ []) >>= λ vs. ok (pop_flatten vs)) ≡ f c
      go (ok v) e = rw (e) refl
      go (err x) e = rw (e) refl

  single_eq :
      (by_tile : ℕ → ℕ → Option (Array F)) (p : F × F)
      → Covers HasTile (pixel_at g l0 p)
      → Covers (FindsTile by_tile) (pixel_at g l0 p)
      → sample by_tile (pixel_at g l0 p) ≡ single p
  unfolding single read_pixel coords
  single_eq by_tile p has found =
      let (arrays, e, f) = finds-All (coords (p ∷ [])) (has, tt) in
      let here = tile_lookup (unique_tiles l0 (coords (p ∷ []))) arrays in
      let read : read_pixels r m (p ∷ []) band ≡ try_map (sample here) (coords (p ∷ [])) =
        read_some (p ∷ []) ∙ rw (e) refl in
      sample_eq by_tile here (pixel_at g l0 p) found f.0
      ∙ sym (pop_one (sample here) (pixel_at g l0 p))
      ∙ sym (ap (λ (v : M (List (Option F))). v >>= λ vs. ok (pop_flatten vs)) read)

  singles_eq :
      (by_tile : ℕ → ℕ → Option (Array F)) (points : List (F × F))
      → All (Covers HasTile) (coords points)
      → All (Covers (FindsTile by_tile)) (coords points)
      → try_map (sample by_tile) (coords points) ≡ try_map single points
  unfolding coords
  singles_eq by_tile [] has found = refl
  singles_eq by_tile (p ∷ points) has found =
      rw (single_eq by_tile p has.0 found.0, singles_eq by_tile points has.1 found.1) refl

  reads_singles :
      (points : List (F × F))
      → All (Covers HasTile) (coords points)
      → read_pixels r m points band ≡ try_map single points
  reads_singles points has =
      let (arrays, e, found) = finds-All (coords points) has in
      let by_tile = tile_lookup (unique_tiles l0 (coords points)) arrays in
      read_some points ∙ rw (e) (singles_eq by_tile points has found)

  single-Has : (p : F × F) {v : Option F} → single p ≡ ok v → Covers HasTile (pixel_at g l0 p)
  unfolding single read_pixel coords
  single-Has p e =
      let (vs, q, _) = bind-eq_ok (read_pixels r m (p ∷ []) band) _ e in
      let (arrays, q', _) =
        bind-eq_ok (fetch_decoded r ifd0 (unique_tiles l0 (coords (p ∷ [])))) _
          (sym (read_some (p ∷ [])) ∙ q) in
      let a = has-All (coords (p ∷ [])) arrays q' in a.0

  singles-Has :
      (points : List (F × F)) {vs : List (Option F)}
      → try_map single points ≡ ok vs
      → All (Covers HasTile) (coords points)
  unfolding coords
  singles-Has [] e = tt
  singles-Has (p ∷ points) e =
      let (v, q, e') = bind-eq_ok (single p) _ e in
      let (vs, q', _) = bind-eq_ok (try_map single points) _ e' in
      (single-Has p q, singles-Has points q')

  -- For a fetch that answers tile by tile, on a georeferenced image with a level and a band of
  -- the image: `read_pixels` returns a list of values exactly if `read_pixel` returns for every
  -- point, and the list holds their values in the order of the points, whatever tiles the points
  -- share and in whatever order they come.
  pub read_pixels-ok_iff :
      (points : List (F × F)) (vs : List (Option F))
      → (read_pixels r m points band ≡ ok vs)
        ↔ (try_map (λ p. read_pixel r m p.0 p.1 band) points ≡ ok vs)
  unfolding single
  read_pixels-ok_iff points vs = (
    (λ e.
        let (arrays, q, _) =
          bind-eq_ok (fetch_decoded r ifd0 (unique_tiles l0 (coords points))) _
            (sym (read_some points) ∙ e) in
        sym (reads_singles points (has-All (coords points) arrays q)) ∙ e),
    (λ e. reads_singles points (singles-Has points e) ∙ e),
  )
