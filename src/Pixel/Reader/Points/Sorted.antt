-- ===== src/Pixel/Reader/Points/Sorted.antt =====
-- The list of unique tiles of `read_pixels`: its order, and its members.
use duckdb_cog.Base.{
  ℕ, ◌≤◌, ◌<◌, ◌≡◌, ◌⊎◌, inl, inr, subst, arith, true, false, ◌&&◌, Option, List, [], ◌∷◌, ◌==◌,
  All, All-imp, Bool-cases,
}
use duckdb_cog.Meta.{LevelMeta}
use duckdb_cog.Pixel.Reader.Points.{
  tile_leb, sort_insert, sort_unstable, dedup_from, dedup, tile_list, unique_tiles,
}

same_tile : (t u : ℕ × ℕ) → (t.0 == u.0 && t.1 == u.1) ≡ true → t ≡ u
same_tile t u e = ground arith

module _ (P : ℕ × ℕ → Type 0) where
  All-sort_insert : (t : ℕ × ℕ) (us : List (ℕ × ℕ)) → P t → All P us → All P (sort_insert t us)
  unfolding sort_insert
  All-sort_insert t [] p a = (p, tt)
  All-sort_insert t (u ∷ us) p a = elim (Bool-cases (tile_leb t u)) [
    | inl e ↦ rw (e, sort_insert) (p, a)
    | inr e ↦ rw (e, sort_insert) (a.0, All-sort_insert t us p a.1)
  ]

  sort_insert-All : (t : ℕ × ℕ) (us : List (ℕ × ℕ)) → All P (sort_insert t us) → P t × All P us
  unfolding sort_insert
  sort_insert-All t [] a = a
  sort_insert-All t (u ∷ us) a = elim (Bool-cases (tile_leb t u)) [
    | inl e ↦ let b : P t × All P (u ∷ us) = rw (e, sort_insert) at a in b
    | inr e ↦
        let b : P u × All P (sort_insert t us) = rw (e, sort_insert) at a in
        let (p, rest) = sort_insert-All t us b.1 in (p, (b.0, rest))
  ]

  All-sort : (ts : List (ℕ × ℕ)) → All P ts → All P (sort_unstable ts)
  unfolding sort_unstable
  All-sort [] a = tt
  All-sort (t ∷ ts) a = All-sort_insert t (sort_unstable ts) a.0 (All-sort ts a.1)

  sort-All : (ts : List (ℕ × ℕ)) → All P (sort_unstable ts) → All P ts
  unfolding sort_unstable
  sort-All [] a = tt
  sort-All (t ∷ ts) a =
      let (p, rest) = sort_insert-All t (sort_unstable ts) a in (p, sort-All ts rest)

  All-dedup_from : (t : ℕ × ℕ) (us : List (ℕ × ℕ)) → P t → All P us → All P (dedup_from t us)
  unfolding dedup_from
  All-dedup_from t [] p a = (p, tt)
  All-dedup_from t (u ∷ us) p a = elim (Bool-cases (t.0 == u.0 && t.1 == u.1)) [
    | inl e ↦ rw (e, dedup_from) (All-dedup_from t us p a.1)
    | inr e ↦ rw (e, dedup_from) (p, All-dedup_from u us a.0 a.1)
  ]

  dedup_from-All : (t : ℕ × ℕ) (us : List (ℕ × ℕ)) → All P (dedup_from t us) → P t × All P us
  unfolding dedup_from
  dedup_from-All t [] a = a
  dedup_from-All t (u ∷ us) a = elim (Bool-cases (t.0 == u.0 && t.1 == u.1)) [
    | inl e ↦
        let b : All P (dedup_from t us) = rw (e, dedup_from) at a in
        let (p, rest) = dedup_from-All t us b in (p, (subst P (same_tile t u e) p, rest))
    | inr e ↦
        let b : P t × All P (dedup_from u us) = rw (e, dedup_from) at a in
        (b.0, dedup_from-All u us b.1)
  ]

  pub All-unique :
      (l0 : LevelMeta) (cs : List (Option (ℕ × ℕ)))
      → All P (tile_list l0 cs)
      → All P (unique_tiles l0 cs)
  unfolding unique_tiles dedup
  All-unique l0 cs a = go (sort_unstable (tile_list l0 cs)) (All-sort (tile_list l0 cs) a)
    where
      go : (ts : List (ℕ × ℕ)) → All P ts → All P (dedup ts)
      go [] b = tt
      go (t ∷ ts) b = All-dedup_from t ts b.0 b.1

  pub unique-All :
      (l0 : LevelMeta) (cs : List (Option (ℕ × ℕ)))
      → All P (unique_tiles l0 cs)
      → All P (tile_list l0 cs)
  unfolding unique_tiles dedup
  unique-All l0 cs a = sort-All (tile_list l0 cs) (go (sort_unstable (tile_list l0 cs)) a)
    where
      go : (ts : List (ℕ × ℕ)) → All P (dedup ts) → All P ts
      go [] b = tt
      go (t ∷ ts) b = dedup_from-All t ts b

-- The lexicographic order, and lists that ascend by it, weakly and strictly.
abbrev pub Before : ℕ × ℕ → ℕ × ℕ → Type 0
Before t u = (t.0 < u.0) ⊎ ((t.0 ≡ u.0) × (t.1 < u.1))

abbrev NotAfter : ℕ × ℕ → ℕ × ℕ → Type 0
NotAfter t u = (t.0 < u.0) ⊎ ((t.0 ≡ u.0) × (t.1 ≤ u.1))

unfoldable pub Ascending : List (ℕ × ℕ) → Type 0
Ascending [] = Unit
Ascending (t ∷ ts) = All (Before t) ts × Ascending ts

IsSorted : List (ℕ × ℕ) → Type 0
IsSorted [] = Unit
IsSorted (t ∷ ts) = All (NotAfter t) ts × IsSorted ts

not_after : (t u : ℕ × ℕ) → tile_leb t u ≡ true → NotAfter t u
unfolding tile_leb
not_after t u e = ground arith

NotAfter-flip : (t u : ℕ × ℕ) → tile_leb t u ≡ false → NotAfter u t
unfolding tile_leb
NotAfter-flip t u e = ground arith

NotAfter-trans : (t u v : ℕ × ℕ) → NotAfter t u → NotAfter u v → NotAfter t v
NotAfter-trans t u v a b = ground arith

Before-of : (t u : ℕ × ℕ) → NotAfter t u → (t.0 == u.0 && t.1 == u.1) ≡ false → Before t u
Before-of t u a e = ground arith

Before-trans : (t u v : ℕ × ℕ) → Before t u → NotAfter u v → Before t v
Before-trans t u v a b = ground arith

sort_insert-IsSorted : (t : ℕ × ℕ) (us : List (ℕ × ℕ)) → IsSorted us → IsSorted (sort_insert t us)
unfolding sort_insert IsSorted
sort_insert-IsSorted t [] s = (tt, tt)
sort_insert-IsSorted t (u ∷ us) s = elim (Bool-cases (tile_leb t u)) [
  | inl e ↦
      let first = not_after t u e in
      rw (e, sort_insert)
        ((first, All-imp (NotAfter u) (NotAfter t) us (λ v h. NotAfter-trans t u v first h) s.0), s)
  | inr e ↦
      rw (e, sort_insert)
        (All-sort_insert (NotAfter u) t us (NotAfter-flip t u e) s.0, sort_insert-IsSorted t us s.1)
]

sort-IsSorted : (ts : List (ℕ × ℕ)) → IsSorted (sort_unstable ts)
unfolding sort_unstable IsSorted
sort-IsSorted [] = tt
sort-IsSorted (t ∷ ts) = sort_insert-IsSorted t (sort_unstable ts) (sort-IsSorted ts)

dedup_from-Ascending :
    (t : ℕ × ℕ) (us : List (ℕ × ℕ))
    → All (NotAfter t) us
    → IsSorted us
    → Ascending (dedup_from t us)
unfolding dedup_from IsSorted Ascending
dedup_from-Ascending t [] a s = (tt, tt)
dedup_from-Ascending t (u ∷ us) a s = elim (Bool-cases (t.0 == u.0 && t.1 == u.1)) [
  | inl e ↦ rw (e, dedup_from) (dedup_from-Ascending t us a.1 s.1)
  | inr e ↦
      let first = Before-of t u a.0 e in
      rw (e, dedup_from)
        (
          All-dedup_from (Before t) u us first
              (All-imp (NotAfter u) (Before t) us (λ v h. Before-trans t u v first h) s.0),
          dedup_from-Ascending u us s.0 s.1,
        )
]

dedup-Ascending : (ts : List (ℕ × ℕ)) → IsSorted ts → Ascending (dedup ts)
unfolding dedup IsSorted Ascending
dedup-Ascending [] s = tt
dedup-Ascending (t ∷ ts) s = dedup_from-Ascending t ts s.0 s.1

-- The tiles that `read_pixels` fetches ascend strictly in lexicographic order, so that none is
-- fetched twice; and a property holds of all of them exactly if it holds of the tile of every
-- point inside the image, so that they are those tiles and no others.
pub unique_tiles-Ascending :
    (l0 : LevelMeta) (cs : List (Option (ℕ × ℕ)))
    → Ascending (unique_tiles l0 cs)
      × ((P : ℕ × ℕ → Type 0)
          → (All P (tile_list l0 cs) → All P (unique_tiles l0 cs))
            × (All P (unique_tiles l0 cs) → All P (tile_list l0 cs)))
unfolding unique_tiles
unique_tiles-Ascending l0 cs = (
  dedup-Ascending (sort_unstable (tile_list l0 cs)) (sort-IsSorted (tile_list l0 cs)),
  λ P. (All-unique P l0 cs, unique-All P l0 cs),
)
