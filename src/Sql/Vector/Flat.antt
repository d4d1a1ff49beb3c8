-- ===== src/Sql/Vector/Flat.antt =====
-- `write_values`: the slots and validity bits that its two loops leave.
use duckdb_cog.Base.{
  ℕ, zero, suc, ◌+◌, ◌<◌, ◌≤◌, ◌≡◌, refl, ◌∙◌, subst, arith, Bool, true, false, Option, none, some,
  List, [], ◌∷◌, ◌==◌, if◌then◌else◌, length, get_elem?,
}
use duckdb_cog.Sql.Vector.{FlatVector, read, put_values, put_nulls, write_values}

module _ {A : Type 0} where
  -- The row that is written to slot `j` when the rows start at slot `i`.
  unfoldable pub row_at : ℕ → List (Option A) → ℕ → Option (Option A)
  row_at i [] j = none
  row_at i (row ∷ rows) j = if i == j then some row else row_at (i + 1) rows j

  unfoldable pub chosen : Option (Option A) → A → A
  chosen none s = s
  chosen (some none) s = s
  chosen (some (some a)) s = a

  unfoldable pub nulled : Option (Option A) → Bool → Bool
  nulled none b = b
  nulled (some none) b = true
  nulled (some (some a)) b = b

  pub row_at_before : (i : ℕ) (rows : List (Option A)) (j : ℕ) → j < i → row_at i rows j ≡ none
  unfolding row_at
  row_at_before i [] j before = refl
  row_at_before i (row ∷ rows) j before = ground (arith, row_at_before (i + 1) rows j)

  pub row_at_behind :
      (i : ℕ) (rows : List (Option A)) (j : ℕ) → i + length rows ≤ j → row_at i rows j ≡ none
  unfolding row_at
  row_at_behind i [] j behind = refl
  row_at_behind i (row ∷ rows) j behind = ground (arith, row_at_behind (i + 1) rows j)

  pub row_at-get_elem? :
      (i : ℕ) (rows : List (Option A)) (k : ℕ) → row_at i rows (i + k) ≡ get_elem? rows k
  unfolding row_at
  row_at-get_elem? i [] k = refl
  row_at-get_elem? i (row ∷ rows) zero = ground arith
  row_at-get_elem? i (row ∷ rows) (suc k) =
      let next : row_at (i + 1) rows (i + 1 + k) ≡ get_elem? rows k =
        row_at-get_elem? (i + 1) rows k in
      let place : i + 1 + k ≡ i + suc k = omega arith in ground (arith, next, place)

module _ {A V : Type 0} (f : FlatVector A V) where
  pub is_null-put_values :
      (v : V) (i : ℕ) (rows : List (Option A)) (j : ℕ)
      → f.is_null (put_values f v i rows) j ≡ f.is_null v j
  unfolding put_values
  is_null-put_values v i [] j = refl
  is_null-put_values v i (none ∷ rows) j = is_null-put_values v (i + 1) rows j
  is_null-put_values v i (some a ∷ rows) j =
      is_null-put_values (f.put v i a) (i + 1) rows j ∙ f.is_null-put v i a j

  pub slot-put_values :
      (v : V) (i : ℕ) (rows : List (Option A)) (j : ℕ)
      → f.slot (put_values f v i rows) j ≡ chosen (row_at i rows j) (f.slot v j)
  unfolding put_values row_at chosen
  slot-put_values v i [] j = refl
  slot-put_values v i (none ∷ rows) j =
      ground (arith, slot-put_values v (i + 1) rows j, row_at_before (i + 1) rows j)
  slot-put_values v i (some a ∷ rows) j = ground (
    arith,
    slot-put_values (f.put v i a) (i + 1) rows j,
    row_at_before (i + 1) rows j,
    f.slot-put v i a j,
  )

  pub is_null-put_nulls :
      (v : V) (i : ℕ) (rows : List (Option A)) (j : ℕ)
      → f.is_null (put_nulls f v i rows) j ≡ nulled (row_at i rows j) (f.is_null v j)
  unfolding put_nulls row_at nulled
  is_null-put_nulls v i [] j = refl
  is_null-put_nulls v i (none ∷ rows) j = ground (
    arith,
    is_null-put_nulls (f.set_null v i) (i + 1) rows j,
    row_at_before (i + 1) rows j,
    f.is_null-set_null v i j,
  )
  is_null-put_nulls v i (some a ∷ rows) j =
      ground (arith, is_null-put_nulls v (i + 1) rows j, row_at_before (i + 1) rows j)

  -- A slot that no NULL is set on keeps its value.
  pub slot-put_nulls :
      (v : V) (i : ℕ) (rows : List (Option A)) (j : ℕ)
      → nulled (row_at i rows j) false ≡ false
      → f.slot (put_nulls f v i rows) j ≡ f.slot v j
  unfolding put_nulls row_at nulled
  slot-put_nulls v i [] j h = refl
  slot-put_nulls v i (none ∷ rows) j h =
      ground (arith, slot-put_nulls (f.set_null v i) (i + 1) rows j, f.slot-set_null v i j)
  slot-put_nulls v i (some a ∷ rows) j h =
      ground (arith, slot-put_nulls v (i + 1) rows j, row_at_before (i + 1) rows j)

  -- The NULL pass over a vector that holds the values already.
  pub read-put_nulls :
      (w : V) (i : ℕ) (rows : List (Option A)) (j : ℕ) (row : Option A)
      → row_at i rows j ≡ some row
      → f.is_null w j ≡ false
      → ((a : A) → row ≡ some a → f.slot w j ≡ a)
      → read f (put_nulls f w i rows) j ≡ row
  unfolding read nulled
  read-put_nulls w i rows j none e fresh holds =
      let null : f.is_null (put_nulls f w i rows) j ≡ true =
        is_null-put_nulls w i rows j ∙ rw (e) refl in
      rw (null) refl
  read-put_nulls w i rows j (some a) e fresh holds =
      let valid : f.is_null (put_nulls f w i rows) j ≡ false =
        is_null-put_nulls w i rows j ∙ rw (e) fresh in
      let kept : f.slot (put_nulls f w i rows) j ≡ f.slot w j =
        slot-put_nulls w i rows j (rw (e) refl) in
      rw (valid) (rw (kept) (rw (holds a refl) refl))

  -- On a vector with no NULL yet, whatever its slots hold, the engine reads of every row what
  -- `write_values` was given: the value, or NULL.
  pub read-write_values :
      (v : V) (rows : List (Option A)) (i : ℕ) (row : Option A)
      → ((j : ℕ) → f.is_null v j ≡ false)
      → get_elem? rows i ≡ some row
      → read f (write_values f v rows) i ≡ row
  unfolding write_values chosen
  read-write_values v rows i row fresh e =
      let w : V = put_values f v 0 rows in
      let at : row_at 0 rows i ≡ some row =
        subst (λ k. row_at 0 rows k ≡ some row) (omega arith) (row_at-get_elem? 0 rows i ∙ e) in
      read-put_nulls w 0 rows i row at (is_null-put_values v 0 rows i ∙ fresh i)
        (λ a same. slot-put_values v 0 rows i ∙ rw (at, same) refl)
