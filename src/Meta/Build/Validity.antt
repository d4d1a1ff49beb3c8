-- ===== src/Meta/Build/Validity.antt =====
-- When `build_meta` succeeds, and what its levels then satisfy.
use duckdb_cog.Base.{
  ℕ, ◌+◌, ◌%◌, ◌^◌, ◌≤◌, ◌<◌, ◌≡◌, ◌↔◌, refl, arith, some, List, [], ◌∷◌, Result, ok, err, ◌>>=◌,
  length,
}
use duckdb_cog.Float.{Float}
use duckdb_cog.Meta.{LevelMeta, CogMeta, MetaError}
use duckdb_cog.Meta.Build.{Ifd, level_of, build_level, build_levels, meta_of, build_meta}

-- The level at each position: its number is the position and fits a byte, its tile indices fit
-- 24 bits.
abbrev pub LevelsFit : ℕ → List LevelMeta → Type 0
LevelsFit i [] = Unit
LevelsFit i (l ∷ ls) =
    (l.level ≡ i) × (i < 256) × (l.tiles_x ≤ 2 ^ 24) × (l.tiles_y ≤ 2 ^ 24) × LevelsFit (i + 1) ls

module _ {F : Type 0} where
  -- A tiled IFD whose grid fits, at a position that fits.
  abbrev pub IfdFits : ℕ → Ifd F → Type 0
  IfdFits i ifd =
      (i < 256)
      × ((w : ℕ) × (ifd.tile_width ≡ some w))
      × ((h : ℕ) × (ifd.tile_height ≡ some h))
      × ((n : ℕ × ℕ) × (ifd.tile_count ≡ some n)
          × (n.0 % 2 ^ 32 ≤ 2 ^ 24)
          × (n.1 % 2 ^ 32 ≤ 2 ^ 24))

  abbrev pub IfdsFit : ℕ → List (Ifd F) → Type 0
  IfdsFit i [] = Unit
  IfdsFit i (ifd ∷ ifds) = IfdFits i ifd × IfdsFit (i + 1) ifds

ok_nil :
    (ls : List LevelMeta) → ◌≡◌ {A = Result MetaError (List LevelMeta)} (ok []) (ok ls) → [] ≡ ls
ok_nil ls e = ground arith

module _ {F : Type 0} ⦃fl : Float F⦄ where
  build_level-IfdFits :
      (i : ℕ) (ifd : Ifd F) {l : LevelMeta} → build_level i ifd ≡ ok l → IfdFits i ifd
  unfolding build_level level_of
  build_level-IfdFits i ifd e = ground arith

  build_level_lem :
      (i : ℕ) (ifd : Ifd F) → IfdFits i ifd → (l : LevelMeta) × (build_level i ifd ≡ ok l)
  unfolding build_level level_of
  build_level_lem i ifd (small, (w, ew), (h, eh), (n, en, nx, ny)) = (
    record {
      level = i;
      image_width = ifd.image_width;
      image_height = ifd.image_height;
      tile_width = w;
      tile_height = h;
      tiles_x = n.0 % 2 ^ 32;
      tiles_y = n.1 % 2 ^ 32;
    },
    ground arith,
  )

  build_level_bounds :
      (i : ℕ) (ifd : Ifd F) {l : LevelMeta}
      → build_level i ifd ≡ ok l
      → (l.level ≡ i)
        × (i < 256)
        × (l.tiles_x ≤ 2 ^ 24)
        × (l.tiles_y ≤ 2 ^ 24)
        × (l.image_width ≡ ifd.image_width)
        × (l.image_height ≡ ifd.image_height)
  unfolding build_level level_of
  build_level_bounds i ifd e = ground arith

  build_levels-cons :
      (i : ℕ) (ifd : Ifd F) (ifds : List (Ifd F)) {ls : List LevelMeta}
      → build_levels i (ifd ∷ ifds) ≡ ok ls
      → (l : LevelMeta) × (rest : List LevelMeta) × (build_level i ifd ≡ ok l)
        × (build_levels (i + 1) ifds ≡ ok rest)
        × (ls ≡ l ∷ rest)
  unfolding build_levels
  build_levels-cons i ifd ifds {ls = ls} e =
      invert (build_level i ifd) (build_levels (i + 1) ifds) refl refl e
    where
      invert :
          (b : Result MetaError LevelMeta) (r : Result MetaError (List LevelMeta))
          → build_level i ifd ≡ b
          → build_levels (i + 1) ifds ≡ r
          → (b >>= λ l. r >>= λ rest. ok (l ∷ rest)) ≡ ok ls
          → (l : LevelMeta) × (rest : List LevelMeta) × (build_level i ifd ≡ ok l)
            × (build_levels (i + 1) ifds ≡ ok rest)
            × (ls ≡ l ∷ rest)
      invert (ok l) (ok rest) p q e = (l, rest, p, q, ground arith)
      invert (ok l) (err x) p q e = absurd (ground arith)
      invert (err x) r p q e = absurd (ground arith)

  build_levels-fit :
      (i : ℕ) (ifds : List (Ifd F)) (ls : List LevelMeta)
      → build_levels i ifds ≡ ok ls
      → LevelsFit i ls × (length ls ≡ length ifds) × IfdsFit i ifds
  unfolding build_levels
  build_levels-fit i [] ls e = rw (← ok_nil ls e) (tt, refl, tt)
  build_levels-fit i (ifd ∷ ifds) ls e =
      let (l, rest, p, q, shape) = build_levels-cons i ifd ifds e in
      let (fit, len, all) = build_levels-fit (i + 1) ifds rest q in
      let (a, b, c, d, _, _) = build_level_bounds i ifd p in
      rw shape ((a, b, c, d, fit), omega arith, (build_level-IfdFits i ifd p, all))

  build_levels_total :
      (i : ℕ) (ifds : List (Ifd F))
      → IfdsFit i ifds
      → (ls : List LevelMeta) × (build_levels i ifds ≡ ok ls)
  unfolding build_levels
  build_levels_total i [] fit = ([], refl)
  build_levels_total i (ifd ∷ ifds) fit =
      let (l, p) = build_level_lem i ifd fit.0 in
      let (ls, q) = build_levels_total (i + 1) ifds fit.1 in (l ∷ ls, rw (p, q) refl)

  build_meta-levels :
      (ifds : List (Ifd F)) {m : CogMeta F}
      → build_meta ifds ≡ ok m
      → build_levels 0 ifds ≡ ok m.levels
  unfolding build_meta
  build_meta-levels ifds e = ground arith

  -- Metadata that is built has one level for each IFD, at most 256 of them, numbered by their
  -- positions, with tile grids of at most 2^24 columns and rows.
  pub build_meta-LevelsFit :
      (ifds : List (Ifd F)) {m : CogMeta F}
      → build_meta ifds ≡ ok m
      → LevelsFit 0 m.levels × (length m.levels ≡ length ifds)
  build_meta-LevelsFit ifds {m} e =
      let (fit, len, _) = build_levels-fit 0 ifds m.levels (build_meta-levels ifds e) in (fit, len)

  -- Metadata is built exactly when every IFD is tiled, has a grid that fits the tile key and
  -- stands at a position below 256.
  pub build_meta-ok_iff :
      (ifds : List (Ifd F)) → ((m : CogMeta F) × (build_meta ifds ≡ ok m)) ↔ IfdsFit 0 ifds
  unfolding build_meta
  build_meta-ok_iff ifds = (
    λ (m, e). (build_levels-fit 0 ifds m.levels (build_meta-levels ifds e)).2,
    λ fit. let (ls, e) = build_levels_total 0 ifds fit in (meta_of ifds ls, rw e refl),
  )
