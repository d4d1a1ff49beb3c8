-- ===== src/Meta/Tiles/Keys.antt =====
-- The rows of `enumerate_tiles`: their number, their order and their keys.
use duckdb_cog.Base.{
  ℕ, zero, suc, ◌+◌, ◌*◌, ◌^◌, ◌≤◌, ◌<◌, ◌≡◌, refl, ap, ◌∙◌, arith, Option, some, List, [], ◌∷◌,
  ◌++◌, map, ok, length, get_elem?, get_elem?-map, flat_map, range, length-append, length-map,
  length-range, All, All-append, All-range, All-map, All-flat_map, subst,
}
use duckdb_cog.Float.{Float}
use duckdb_cog.TileKey.{pack_tile_key}
use duckdb_cog.TileKey.Bounds.{key_sum, pack_tile_key-eq_sum}
use duckdb_cog.Meta.{LevelMeta, CogMeta, TileRow}
use duckdb_cog.Meta.Build.{Ifd, build_meta}
use duckdb_cog.Meta.Build.Validity.{LevelsFit, build_meta-LevelsFit}
use duckdb_cog.Meta.Tiles.{tile_row, row_bbox, level_tiles, collect_rows, enumerate_tiles}

-- Indexing through the iterators.
get_elem?-append_left {ℓ} :
    {A : Type ℓ} (xs ys : List A) (i : ℕ) → i < length xs → get_elem? (xs ++ ys) i ≡ get_elem? xs i
get_elem?-append_left [] ys i h = absurd (omega arith)
get_elem?-append_left (x ∷ xs) ys zero h = refl
get_elem?-append_left (x ∷ xs) ys (suc i) h = get_elem?-append_left xs ys i (omega arith)

get_elem?-append_right {ℓ} :
    {A : Type ℓ} (xs ys : List A) (i : ℕ) → get_elem? (xs ++ ys) (length xs + i) ≡ get_elem? ys i
get_elem?-append_right [] ys i = ap (get_elem? ys) (omega arith)
get_elem?-append_right (x ∷ xs) ys i =
    ap (get_elem? (x ∷ (xs ++ ys))) (suc_sum (length xs) i) ∙ get_elem?-append_right xs ys i
  where
    suc_sum : (a b : ℕ) → suc a + b ≡ suc (a + b)
    suc_sum a b = omega arith

get_elem?-range : (lo n i : ℕ) → i < n → get_elem? (range lo n) i ≡ some (lo + i)
get_elem?-range lo zero i h = absurd (omega arith)
get_elem?-range lo (suc n) zero h = ap some (omega arith)
get_elem?-range lo (suc n) (suc i) h =
    get_elem?-range (lo + 1) n i (omega arith) ∙ ap some (omega arith)

-- A row of `width` entries for each of the numbers from `lo`: entry `y * width + x`.
get_elem?-grid {ℓ} :
    {A : Type ℓ} (f : ℕ → ℕ → A) (width lo n y x : ℕ)
    → y < n
    → x < width
    → get_elem? (flat_map (λ v. map (f v) (range 0 width)) (range lo n)) (y * width + x)
      ≡ some (f (lo + y) x)
get_elem?-grid f width lo zero y x hy hx = absurd (omega arith)
get_elem?-grid {A} f width lo (suc n) zero x hy hx =
    let here : 0 * width + x ≡ x = omega arith in
    let first : lo ≡ lo + 0 = omega arith in
    rw here (
      get_elem?-append_left (map (f lo) (range 0 width)) _ x
        (omega (arith, length-map (f lo) (range 0 width), length-range 0 width))
      ∙ get_elem?-map (f lo) (range 0 width) x
          (get_elem?-range 0 width x hx ∙ ap some (omega arith))
      ∙ ap (λ (t : ℕ). some (f t x)) first)
get_elem?-grid {A} f width lo (suc n) (suc y) x hy hx =
    let row = map (f lo) (range 0 width) in
    let behind : suc y * width + x ≡ length row + (y * width + x) =
      grid_index (length row) width y x
        (length-map (f lo) (range 0 width) ∙ length-range 0 width) in
    let shifted : lo + 1 + y ≡ lo + suc y = omega arith in
    rw behind (
      get_elem?-append_right row _ (y * width + x)
      ∙ get_elem?-grid f width (lo + 1) n y x (omega arith) hx
      ∙ ap (λ (t : ℕ). some (f t x)) shifted)
  where
    grid_index : (l width y x : ℕ) → l ≡ width → suc y * width + x ≡ l + (y * width + x)
    grid_index l width y x e = rw e (omega arith)

length-grid {ℓ} :
    {A : Type ℓ} (f : ℕ → ℕ → A) (width lo n : ℕ)
    → length (flat_map (λ v. map (f v) (range 0 width)) (range lo n)) ≡ n * width
length-grid f width lo zero = omega arith
length-grid f width lo (suc n) = omega (
  arith,
  length-append (map (f lo) (range 0 width))
      (flat_map (λ v. map (f v) (range 0 width)) (range (lo + 1) n)),
  length-map (f lo) (range 0 width),
  length-range 0 width,
  length-grid f width (lo + 1) n,
)

-- The number of tiles of the first `i` levels.
abbrev pub tiles_before : List LevelMeta → ℕ → ℕ
tiles_before ls zero = 0
tiles_before [] (suc i) = 0
tiles_before (l ∷ ls) (suc i) = l.tiles_y * l.tiles_x + tiles_before ls i

length-level_tiles : (l : LevelMeta) → length (level_tiles l) ≡ l.tiles_y * l.tiles_x
unfolding level_tiles
length-level_tiles l = length-grid (λ y x. (l, x, y)) l.tiles_x 0 l.tiles_y

length-all_tiles :
    (ls : List LevelMeta) → length (flat_map level_tiles ls) ≡ tiles_before ls (length ls)
length-all_tiles [] = refl
length-all_tiles (l ∷ ls) = omega (
  arith,
  length-append (level_tiles l) (flat_map level_tiles ls),
  length-level_tiles l,
  length-all_tiles ls,
)

tile_at :
    (ls : List LevelMeta) (i : ℕ) {l : LevelMeta} (x y : ℕ)
    → get_elem? ls i ≡ some l
    → x < l.tiles_x
    → y < l.tiles_y
    → get_elem? (flat_map level_tiles ls) (tiles_before ls i + (y * l.tiles_x + x)) ≡ some (l, x, y)
unfolding level_tiles
tile_at [] i x y e hx hy = absurd (ground arith)
tile_at (k ∷ ls) zero {l} x y e hx hy =
    let same : k ≡ l = ground arith in
    let index : tiles_before (k ∷ ls) zero + (y * l.tiles_x + x) ≡ y * l.tiles_x + x =
      omega arith in
    rw (index, same)
      (get_elem?-append_left (level_tiles l) (flat_map level_tiles ls) (y * l.tiles_x + x)
          (in_level l x y hx hy)
        ∙ get_elem?-grid (λ y x. (l, x, y)) l.tiles_x 0 l.tiles_y y x hy hx
        ∙ ap (λ (t : ℕ). some (l, x, t)) (omega arith))
  where
    in_level :
        (l : LevelMeta) (x y : ℕ)
        → x < l.tiles_x
        → y < l.tiles_y
        → y * l.tiles_x + x < length (level_tiles l)
    in_level l x y hx hy = grind (arith, length-level_tiles l)
tile_at (k ∷ ls) (suc i) {l} x y e hx hy =
    let index : tiles_before (k ∷ ls) (suc i) + (y * l.tiles_x + x)
        ≡ length (level_tiles k) + (tiles_before ls i + (y * l.tiles_x + x)) =
      omega (arith, length-level_tiles k) in
    rw index (
      get_elem?-append_right (level_tiles k) (flat_map level_tiles ls) _ ∙ tile_at ls i x y e hx hy)

-- A tile whose coordinates the key can hold.
abbrev Packs : LevelMeta × ℕ × ℕ → Type 0
Packs t = (t.1 < 2 ^ 24) × (t.2 < 2 ^ 24)

level_tiles-Packs :
    (l : LevelMeta) → l.tiles_x ≤ 2 ^ 24 → l.tiles_y ≤ 2 ^ 24 → All Packs (level_tiles l)
unfolding level_tiles
level_tiles-Packs l hx hy =
    All-flat_map Packs (λ y. map (λ x. (l, x, y)) (range 0 l.tiles_x)) (range 0 l.tiles_y)
      (All-range (λ y. All Packs (map (λ x. (l, x, y)) (range 0 l.tiles_x))) 0 l.tiles_y
        (λ y a b.
          All-map Packs (λ x. (l, x, y)) (range 0 l.tiles_x)
            (All-range (λ x. Packs (l, x, y)) 0 l.tiles_x (λ x c d. (omega arith, omega arith)))))

All-tiles-Packs :
    (i : ℕ) (ls : List LevelMeta) → LevelsFit i ls → All Packs (flat_map level_tiles ls)
All-tiles-Packs i [] fit = tt
All-tiles-Packs i (l ∷ ls) (_, _, hx, hy, fit) =
    All-append Packs (level_tiles l) (flat_map level_tiles ls) (level_tiles-Packs l hx hy)
      (All-tiles-Packs (i + 1) ls fit)

module _ {F : Type 0} ⦃fl : Float F⦄ where
  -- What the row of a tile says.
  pub record IsRowOf (m : CogMeta F) (l : LevelMeta) (x y : ℕ) (r : TileRow F) : Type 0 where
    pub key : pack_tile_key l.level x y ≡ some r.id
    pub level : r.level ≡ l.level
    pub column : r.tile_x ≡ x
    pub row : r.tile_y ≡ y
    pub physical_size : (r.cols ≡ l.tile_width) × (r.rows ≡ l.tile_height)

  tile_row-IsRowOf :
      (m : CogMeta F) (l : LevelMeta) (x y : ℕ)
      → Packs (l, x, y)
      → (r : TileRow F) × (tile_row m l x y ≡ some r) × IsRowOf m l x y r
  unfolding tile_row
  tile_row-IsRowOf m l x y (hx, hy) =
      let e = pack_tile_key-eq_sum l.level x y hx hy in
      (
        record {
          id = key_sum l.level x y;
          level = l.level;
          tile_x = x;
          tile_y = y;
          cols = l.tile_width;
          rows = l.tile_height;
          bbox = row_bbox m l x y;
        },
        rw (e, tile_row) refl,
        record { key = e; level = refl; column = refl; row = refl; physical_size = (refl, refl) },
      )

  -- The rows stand at the places of their tiles.
  abbrev RowsOf : CogMeta F → List (LevelMeta × ℕ × ℕ) → List (TileRow F) → Type 0
  RowsOf m [] rows = rows ≡ []
  RowsOf m ((l, x, y) ∷ ts) [] = ⊥
  RowsOf m ((l, x, y) ∷ ts) (r ∷ rows) = IsRowOf m l x y r × RowsOf m ts rows

  collect_rows_total :
      (m : CogMeta F) (ts : List (LevelMeta × ℕ × ℕ))
      → All Packs ts
      → (rows : List (TileRow F)) × (collect_rows m ts ≡ some rows) × RowsOf m ts rows
  unfolding collect_rows
  collect_rows_total m [] a = ([], refl, refl)
  collect_rows_total m ((l, x, y) ∷ ts) a =
      let (r, e, ok_row) = tile_row-IsRowOf m l x y a.0 in
      let (rows, e', ok_rows) = collect_rows_total m ts a.1 in
      (r ∷ rows, rw (e, e', collect_rows) refl, (ok_row, ok_rows))

  RowsOf-length :
      (m : CogMeta F) (ts : List (LevelMeta × ℕ × ℕ)) (rows : List (TileRow F))
      → RowsOf m ts rows
      → length rows ≡ length ts
  RowsOf-length m [] rows h = ap length h
  RowsOf-length m ((l, x, y) ∷ ts) [] h = absurd h
  RowsOf-length m ((l, x, y) ∷ ts) (r ∷ rows) h = ap suc (RowsOf-length m ts rows h.1)

  RowsOf-get :
      (m : CogMeta F) (ts : List (LevelMeta × ℕ × ℕ)) (rows : List (TileRow F)) (n : ℕ)
      (l : LevelMeta) (x y : ℕ)
      → RowsOf m ts rows
      → get_elem? ts n ≡ some (l, x, y)
      → (r : TileRow F) × (get_elem? rows n ≡ some r) × IsRowOf m l x y r
  RowsOf-get m [] rows n l x y h e = absurd (ground arith)
  RowsOf-get m (t ∷ ts) [] n l x y h e = absurd h
  RowsOf-get m ((k, u, v) ∷ ts) (r ∷ rows) zero l x y h e =
      (r, refl, subst (λ (t : LevelMeta × ℕ × ℕ). IsRowOf m t.0 t.1 t.2 r) (some_inj e) h.0)
    where
      some_inj :
          ◌≡◌ {A = Option (LevelMeta × ℕ × ℕ)} (some (k, u, v)) (some (l, x, y))
          → ◌≡◌ {A = LevelMeta × ℕ × ℕ} (k, u, v) (l, x, y)
      some_inj e = cc
  RowsOf-get m ((k, u, v) ∷ ts) (r ∷ rows) (suc n) l x y h e = RowsOf-get m ts rows n l x y h.1 e

  -- For metadata that `build_meta` returned the enumeration does not panic. It has one row for
  -- each tile of each level, and the row of tile (x, y) of level i stands behind the rows of the
  -- levels before it, at y times the width of the grid plus x; it has the level's number, the
  -- coordinates, the packed key and the physical tile size.
  pub enumerate_tiles_lem :
      (ifds : List (Ifd F)) (m : CogMeta F)
      → build_meta ifds ≡ ok m
      → (rows : List (TileRow F)) × (enumerate_tiles m ≡ some rows)
        × (length rows ≡ tiles_before m.levels (length m.levels))
        × ((i : ℕ) (l : LevelMeta) (x y : ℕ)
            → get_elem? m.levels i ≡ some l
            → x < l.tiles_x
            → y < l.tiles_y
            → (r : TileRow F) × (get_elem? rows (tiles_before m.levels i + (y * l.tiles_x + x))
                ≡ some r)
              × IsRowOf m l x y r)
  unfolding enumerate_tiles
  enumerate_tiles_lem ifds m e =
      let tiles = flat_map level_tiles m.levels in
      let (rows, enumerated, shape) =
        collect_rows_total m tiles (All-tiles-Packs 0 m.levels (build_meta-LevelsFit ifds e).0) in
      (
        rows,
        enumerated,
        RowsOf-length m tiles rows shape ∙ length-all_tiles m.levels,
        λ i l x y at hx hy. RowsOf-get m tiles rows _ l x y shape (tile_at m.levels i x y at hx hy),
      )
