-- ===== src/TileCache/Assoc.antt =====
-- The key of a tile, its order, and association lists over it: `HashMap::get`, `insert`, `remove`.
use duckdb_cog.Base.{
  ℕ, ◌+◌, ◌≡◌, refl, ◌&&◌, ◌||◌, Bool, true, Option, none, some, List, [], ◌∷◌, ltb, ◌==◌,
  if◌then◌else◌, length, arith,
}

-- `Key`: reader, level, column, row.
pub record Key : Type 0 where
  pub reader : ℕ
  pub level : ℕ
  pub tile_x : ℕ
  pub tile_y : ℕ

unfoldable pub key_eq : Key → Key → Bool
key_eq k j =
    k.reader == j.reader && k.level == j.level && k.tile_x == j.tile_x && k.tile_y == j.tile_y

-- The derived order of the tuple.
unfoldable pub key_ltb : Key → Key → Bool
key_ltb k j =
    ltb k.reader j.reader
    || (k.reader == j.reader
        && (ltb k.level j.level
            || (k.level == j.level
                && (ltb k.tile_x j.tile_x || (k.tile_x == j.tile_x && ltb k.tile_y j.tile_y)))))

pub key_eq→eq : (k j : Key) → key_eq k j ≡ true → k ≡ j
unfolding key_eq
key_eq→eq k j h = ground arith

pub key_eq_refl : (k : Key) → key_eq k k ≡ true
unfolding key_eq
key_eq_refl k = ground arith

pub key_eq-true_of_eq : (k j : Key) → k ≡ j → key_eq k j ≡ true
key_eq-true_of_eq k j e = subst_key k j e
  where
    subst_key : (k j : Key) → k ≡ j → key_eq k j ≡ true
    subst_key k j e = rw (e) (key_eq_refl j)

module _ {ℓ} {A : Type ℓ} where
  unfoldable pub lookup : Key → List (Key × A) → Option A
  lookup k [] = none
  lookup k ((j, a) ∷ m) = if key_eq j k then some a else lookup k m

  unfoldable pub insert : Key → A → List (Key × A) → List (Key × A)
  insert k a [] = (k, a) ∷ []
  insert k a ((j, b) ∷ m) = if key_eq j k then (k, a) ∷ m else (j, b) ∷ insert k a m

  unfoldable pub remove : Key → List (Key × A) → List (Key × A)
  remove k [] = []
  remove k ((j, b) ∷ m) = if key_eq j k then m else (j, b) ∷ remove k m

  -- No key twice.
  abbrev pub Distinct : List (Key × A) → Type ℓ
  Distinct [] = Unit
  Distinct ((j, b) ∷ m) = (lookup j m ≡ none) × Distinct m

  pub lookup-insert :
      (k q : Key) (a : A) (m : List (Key × A))
      → lookup q (insert k a m) ≡ (if key_eq k q then some a else lookup q m)
  unfolding lookup insert
  lookup-insert k q a [] = refl
  lookup-insert k q a ((j, b) ∷ m) = ground (
    arith,
    key_eq→eq j k,
    key_eq→eq j q,
    key_eq→eq k q,
    key_eq-true_of_eq j q,
    key_eq-true_of_eq k q,
    lookup-insert k q a m,
  )

  pub lookup-remove :
      (k q : Key) (m : List (Key × A))
      → Distinct m
      → lookup q (remove k m) ≡ (if key_eq k q then none else lookup q m)
  unfolding lookup remove
  lookup-remove k q [] d = ground arith
  lookup-remove k q ((j, b) ∷ m) d = ground (
    arith,
    key_eq→eq j k,
    key_eq→eq j q,
    key_eq→eq k q,
    key_eq-true_of_eq j q,
    key_eq-true_of_eq k q,
    lookup-remove k q m d.1,
  )

  pub insert-Distinct :
      (k : Key) (a : A) (m : List (Key × A)) → Distinct m → Distinct (insert k a m)
  unfolding lookup insert
  insert-Distinct k a [] d = (refl, tt)
  insert-Distinct k a ((j, b) ∷ m) d = ground (
    arith,
    key_eq→eq j k,
    key_eq-true_of_eq k j,
    key_eq→eq k j,
    lookup-insert k j a m,
    insert-Distinct k a m d.1,
  )

  pub remove-Distinct : (k : Key) (m : List (Key × A)) → Distinct m → Distinct (remove k m)
  unfolding lookup remove
  remove-Distinct k [] d = tt
  remove-Distinct k ((j, b) ∷ m) d =
      ground (arith, key_eq→eq k j, lookup-remove k j m d.1, remove-Distinct k m d.1)

  pub length-remove :
      (k : Key) (a : A) (m : List (Key × A))
      → lookup k m ≡ some a
      → length (remove k m) + 1 ≡ length m
  unfolding lookup remove
  length-remove k a [] h = ground arith
  length-remove k a ((j, b) ∷ m) h = ground (arith, length-remove k a m)
