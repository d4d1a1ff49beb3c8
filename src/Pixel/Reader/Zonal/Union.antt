-- ===== src/Pixel/Reader/Zonal/Union.antt =====
-- The set of tiles that the batch fetches and the tiles of its windows.
use duckdb_cog.Base.{
  ℕ, ◌≡◌, inl, inr, subst, arith, true, Option, none, some, List, [], ◌∷◌, ltb, ◌==◌, ◌&&◌, ◌||◌,
  All, Bool-cases,
}
use duckdb_cog.Pixel.{PixelWindow}
use duckdb_cog.Pixel.Reader.{window_tiles}
use duckdb_cog.Pixel.Reader.Zonal.{tile_insert, insert_tiles, union_tiles}

-- A property holds of the members of the set and of what is inserted exactly if it holds of all
-- members afterwards.
module _ (P : ℕ × ℕ → Type 0) where
  All-insert : (t : ℕ × ℕ) (us : List (ℕ × ℕ)) → P t → All P us → All P (tile_insert t us)
  unfolding tile_insert
  All-insert t [] p a = (p, tt)
  All-insert t (u ∷ us) p a = elim (Bool-cases (t.0 == u.0 && t.1 == u.1)) [
    | inl same ↦ rw (same, tile_insert) a
    | inr other ↦ elim (Bool-cases (ltb t.0 u.0 || (t.0 == u.0 && ltb t.1 u.1))) [
      | inl before ↦ rw (other, before, tile_insert) (p, a)
      | inr after ↦ rw (other, after, tile_insert) (a.0, All-insert t us p a.1)
    ]
  ]

  pair_eq : (t u : ℕ × ℕ) → (t.0 == u.0 && t.1 == u.1) ≡ true → P u → P t
  pair_eq t u same p = subst P (equal t u same) p
    where
      equal : (t u : ℕ × ℕ) → (t.0 == u.0 && t.1 == u.1) ≡ true → u ≡ t
      equal t u same = ground arith

  insert-All : (t : ℕ × ℕ) (us : List (ℕ × ℕ)) → All P (tile_insert t us) → P t × All P us
  unfolding tile_insert
  insert-All t [] a = (a.0, tt)
  insert-All t (u ∷ us) a = elim (Bool-cases (t.0 == u.0 && t.1 == u.1)) [
    | inl same ↦ let b : P u × All P us = rw (same, tile_insert) at a in (pair_eq t u same b.0, b)
    | inr other ↦ elim (Bool-cases (ltb t.0 u.0 || (t.0 == u.0 && ltb t.1 u.1))) [
      | inl before ↦ let b : P t × All P (u ∷ us) = rw (other, before, tile_insert) at a in b
      | inr after ↦
          let b : P u × All P (tile_insert t us) = rw (other, after, tile_insert) at a in
          let (p, rest) = insert-All t us b.1 in (p, (b.0, rest))
    ]
  ]

  All-insert_tiles : (ts us : List (ℕ × ℕ)) → All P ts → All P us → All P (insert_tiles ts us)
  unfolding insert_tiles
  All-insert_tiles [] us a b = b
  All-insert_tiles (t ∷ ts) us a b =
      All-insert_tiles ts (tile_insert t us) a.1 (All-insert t us a.0 b)

  insert_tiles-All : (ts us : List (ℕ × ℕ)) → All P (insert_tiles ts us) → All P ts × All P us
  unfolding insert_tiles
  insert_tiles-All [] us a = (tt, a)
  insert_tiles-All (t ∷ ts) us a =
      let (b, c) = insert_tiles-All ts (tile_insert t us) a in
      let (p, d) = insert-All t us c in ((p, b), d)

  -- The tiles of each window that is there.
  abbrev pub AllWindows : ℕ → ℕ → List (Option PixelWindow) → Type 0
  AllWindows tw th [] = Unit
  AllWindows tw th (none ∷ ws) = AllWindows tw th ws
  AllWindows tw th (some w ∷ ws) = All P (window_tiles tw th w) × AllWindows tw th ws

  pub All-union :
      (tw th : ℕ) (ws : List (Option PixelWindow)) (us : List (ℕ × ℕ))
      → AllWindows tw th ws
      → All P us
      → All P (union_tiles tw th ws us)
  unfolding union_tiles
  All-union tw th [] us a b = b
  All-union tw th (none ∷ ws) us a b = All-union tw th ws us a b
  All-union tw th (some w ∷ ws) us a b =
      All-union tw th ws _ a.1 (All-insert_tiles (window_tiles tw th w) us a.0 b)

  pub union-All :
      (tw th : ℕ) (ws : List (Option PixelWindow)) (us : List (ℕ × ℕ))
      → All P (union_tiles tw th ws us)
      → AllWindows tw th ws × All P us
  unfolding union_tiles
  union-All tw th [] us a = (tt, a)
  union-All tw th (none ∷ ws) us a = union-All tw th ws us a
  union-All tw th (some w ∷ ws) us a =
      let (b, c) = union-All tw th ws _ a in
      let (d, e) = insert_tiles-All (window_tiles tw th w) us c in ((d, b), e)
