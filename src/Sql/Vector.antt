-- ===== src/Sql/Vector.antt =====
-- Output vectors: `write_values` and `write_list_rows`. The vectors of the crate duckdb are an
-- interface; capacities are those of the chunk, which the rows do not exceed, and a child is
-- reserved large enough for its elements.
pub mod Flat
pub mod Columns
pub mod Lists
use duckdb_cog.Base.{
  ℕ, zero, suc, ◌+◌, ◌≡◌, Bool, true, false, Option, none, some, List, [], ◌∷◌, map, ◌==◌,
  if◌then◌else◌, length, range,
}

-- `FlatVector`: the slots of `as_mut_slice` and the validity bits.
pub record FlatVector (A V : Type 0) : Type 0 where
  pub slot : V → ℕ → A
  pub is_null : V → ℕ → Bool
  pub put : V → ℕ → A → V
  pub set_null : V → ℕ → V
  pub slot-put :
      (v : V) (i : ℕ) (a : A) (j : ℕ) → slot (put v i a) j ≡ (if i == j then a else slot v j)
  pub is_null-put : (v : V) (i : ℕ) (a : A) (j : ℕ) → is_null (put v i a) j ≡ is_null v j
  pub slot-set_null : (v : V) (i j : ℕ) → (i == j) ≡ false → slot (set_null v i) j ≡ slot v j
  pub is_null-set_null :
      (v : V) (i j : ℕ) → is_null (set_null v i) j ≡ (if i == j then true else is_null v j)

-- `ListVector` without its child: the entries, the validity bits and the length of the child.
pub record ListVector (L : Type 0) : Type 0 where
  pub entry : L → ℕ → ℕ × ℕ
  pub is_null : L → ℕ → Bool
  pub set_entry : L → ℕ → ℕ → ℕ → L
  pub set_null : L → ℕ → L
  pub entry-set_entry :
      (l : L) (i o n j : ℕ) → entry (set_entry l i o n) j ≡ (if i == j then (o, n) else entry l j)
  pub is_null-set_entry : (l : L) (i o n j : ℕ) → is_null (set_entry l i o n) j ≡ is_null l j
  pub entry-set_null : (l : L) (i j : ℕ) → (i == j) ≡ false → entry (set_null l i) j ≡ entry l j
  pub is_null-set_null :
      (l : L) (i j : ℕ) → is_null (set_null l i) j ≡ (if i == j then true else is_null l j)
  pub child_len : L → ℕ
  pub set_len : L → ℕ → L
  pub child_len-set_len : (l : L) (n : ℕ) → child_len (set_len l n) ≡ n
  pub entry-set_len : (l : L) (n j : ℕ) → entry (set_len l n) j ≡ entry l j
  pub is_null-set_len : (l : L) (n j : ℕ) → is_null (set_len l n) j ≡ is_null l j

module _ {A V : Type 0} (f : FlatVector A V) where
  -- What the engine reads of row `i`.
  unfoldable pub read : V → ℕ → Option A
  read v i = if f.is_null v i then none else some (f.slot v i)

  -- The first loop of `write_values`, from row `i`.
  pub put_values : V → ℕ → List (Option A) → V
  put_values v i [] = v
  put_values v i (none ∷ rows) = put_values v (i + 1) rows
  put_values v i (some a ∷ rows) = put_values (f.put v i a) (i + 1) rows

  -- Its second loop.
  pub put_nulls : V → ℕ → List (Option A) → V
  put_nulls v i [] = v
  put_nulls v i (none ∷ rows) = put_nulls (f.set_null v i) (i + 1) rows
  put_nulls v i (some a ∷ rows) = put_nulls v (i + 1) rows

  -- The one loop over a column of texts, from row `i`.
  unfoldable pub write_texts : V → ℕ → List (Option A) → V
  write_texts v i [] = v
  write_texts v i (none ∷ rows) = write_texts (f.set_null v i) (i + 1) rows
  write_texts v i (some s ∷ rows) = write_texts (f.put v i s) (i + 1) rows

  unfoldable pub write_values : V → List (Option A) → V
  unfolding put_values put_nulls
  write_values v rows = put_nulls (put_values v 0 rows) 0 rows

-- The offsets of the rows in the child, from `total` on.
unfoldable pub row_length : {A : Type 0} → Option (List A) → ℕ
row_length none = 0
row_length (some vals) = length vals

unfoldable pub offsets : {A : Type 0} → ℕ → List (Option (List A)) → List ℕ
unfolding row_length
offsets total [] = []
offsets total (row ∷ rows) = total ∷ offsets (total + row_length row) rows

-- `total` after the last row.
unfoldable pub total_length : {A : Type 0} → List (Option (List A)) → ℕ
unfolding row_length
total_length [] = 0
total_length (row ∷ rows) = row_length row + total_length rows

module _ {A V L : Type 0} (f : FlatVector A V) (lv : ListVector L) where
  -- What the engine reads of row `i`: the entry's elements of the child.
  unfoldable pub read_list : L → V → ℕ → Option (List (Option A))
  read_list l child i =
      if lv.is_null l i
      then none
      else some (map (read f child) (range (lv.entry l i).0 (lv.entry l i).1))

  -- The pass over the values, with the offset of each row.
  pub put_lists : V → List (Option (List (Option A))) → List ℕ → V
  put_lists child [] os = child
  put_lists child (row ∷ rows) [] = child
  put_lists child (none ∷ rows) (o ∷ os) = put_lists child rows os
  put_lists child (some vals ∷ rows) (o ∷ os) = put_lists (put_values f child o vals) rows os

  -- The pass over the entries and the NULLs, from row `i`.
  unfoldable pub put_entries : L → V → ℕ → List (Option (List (Option A))) → List ℕ → L × V
  put_entries l child i [] os = (l, child)
  put_entries l child i (row ∷ rows) [] = (l, child)
  put_entries l child i (none ∷ rows) (o ∷ os) =
      put_entries (lv.set_null (lv.set_entry l i o 0) i) child (i + 1) rows os
  put_entries l child i (some vals ∷ rows) (o ∷ os) =
      put_entries (lv.set_entry l i o (length vals)) (put_nulls f child o vals) (i + 1) rows os

  unfoldable pub write_list_rows : L → V → List (Option (List (Option A))) → L × V
  unfolding put_lists put_entries offsets total_length
  write_list_rows l child rows =
      let os = offsets 0 rows in
      let written = put_entries l (put_lists child rows os) 0 rows os in
      (lv.set_len written.0 (total_length rows), written.1)
