-- ===== src/Sql/Vector/Lists.antt =====
-- `write_list_rows`: the child holds the elements of the rows one after another.
use duckdb_cog.Base.{
  ℕ, zero, suc, ◌+◌, ◌<◌, ◌≤◌, ◌≡◌, refl, sym, ap, ◌∙◌, subst, arith, true, false, Option, none,
  some, List, [], ◌∷◌, ◌++◌, map, length, get_elem?, range,
}
use duckdb_cog.Sql.Vector.{
  FlatVector, ListVector, read, put_values, put_nulls, row_length, offsets, total_length, read_list,
  put_lists, put_entries, write_list_rows,
}
use duckdb_cog.Sql.Vector.Flat.{
  row_at, chosen, is_null-put_values, slot-put_values, read-put_nulls, row_at-get_elem?,
}

module _ {A : Type 0} where
  -- The elements of all rows.
  pub flat : List (Option (List (Option A))) → List (Option A)
  flat [] = []
  flat (none ∷ rows) = flat rows
  flat (some vals ∷ rows) = vals ++ flat rows

  row_at-append_left :
      (i : ℕ) (xs ys : List (Option A)) (j : ℕ) (r : Option A)
      → row_at i xs j ≡ some r
      → row_at i (xs ++ ys) j ≡ some r
  unfolding row_at
  row_at-append_left i [] ys j r e = cc
  row_at-append_left i (x ∷ xs) ys j r e = ground (arith, row_at-append_left (i + 1) xs ys j r)

  row_at-append_right :
      (i : ℕ) (xs ys : List (Option A)) (j : ℕ)
      → i + length xs ≤ j
      → row_at i (xs ++ ys) j ≡ row_at (i + length xs) ys j
  unfolding row_at
  row_at-append_right i [] ys j h = ap (λ k. row_at k ys j) (omega arith)
  row_at-append_right i (x ∷ xs) ys j h =
      let next : row_at (i + 1) (xs ++ ys) j ≡ row_at (i + 1 + length xs) ys j =
        row_at-append_right (i + 1) xs ys j (omega arith) in
      let place : i + 1 + length xs ≡ i + suc (length xs) = omega arith in
      ground (arith, next, place)

  offsets-ge :
      (total : ℕ) (rows : List (Option (List (Option A)))) (k o : ℕ)
      → get_elem? (offsets total rows) k ≡ some o
      → total ≤ o
  unfolding offsets
  offsets-ge total [] k o e = cc
  offsets-ge total (row ∷ rows) zero o e = ground arith
  offsets-ge total (row ∷ rows) (suc k) o e =
      omega (arith, offsets-ge (total + row_length row) rows k o e)

  -- The elements of a row stand in the child from the row's offset on.
  row_at-flat :
      (total : ℕ) (rows : List (Option (List (Option A)))) (k o : ℕ) (vals : List (Option A))
      (m : ℕ) (x : Option A)
      → get_elem? rows k ≡ some (some vals)
      → get_elem? (offsets total rows) k ≡ some o
      → get_elem? vals m ≡ some x
      → row_at total (flat rows) (o + m) ≡ some x
  unfolding offsets flat row_length
  row_at-flat total [] k o vals m x e e' h = cc
  row_at-flat total (none ∷ rows) zero o vals m x e e' h = cc
  row_at-flat total (none ∷ rows) (suc k) o vals m x e e' h =
      let step : total + 0 ≡ total = omega arith in
      row_at-flat total rows k o vals m x e (rw step at e') h
  row_at-flat total (some first ∷ rows) zero o vals m x e e' h =
      let same : first ≡ vals = cc in
      let start : total ≡ o = ground arith in
      row_at-append_left total first (flat rows) (o + m) x
        (rw (← start) (row_at-get_elem? total first m ∙ rw (same) h))
  row_at-flat total (some first ∷ rows) (suc k) o vals m x e e' h =
      row_at-append_right total first (flat rows) (o + m)
        (omega (arith, offsets-ge (total + length first) rows k o e'))
      ∙ row_at-flat (total + length first) rows k o vals m x e e' h

module _ {A V L : Type 0} (f : FlatVector A V) (lv : ListVector L) where
  put_values-append :
      (v : V) (i : ℕ) (xs ys : List (Option A))
      → put_values f v i (xs ++ ys) ≡ put_values f (put_values f v i xs) (i + length xs) ys
  unfolding put_values
  put_values-append v i [] ys = ap (λ k. put_values f v k ys) (omega arith)
  put_values-append v i (none ∷ xs) ys =
      put_values-append v (i + 1) xs ys
      ∙ ap (λ k. put_values f (put_values f v (i + 1) xs) k ys) (omega arith)
  put_values-append v i (some a ∷ xs) ys =
      put_values-append (f.put v i a) (i + 1) xs ys
      ∙ ap (λ k. put_values f (put_values f (f.put v i a) (i + 1) xs) k ys) (omega arith)

  put_nulls-append :
      (v : V) (i : ℕ) (xs ys : List (Option A))
      → put_nulls f v i (xs ++ ys) ≡ put_nulls f (put_nulls f v i xs) (i + length xs) ys
  unfolding put_nulls
  put_nulls-append v i [] ys = ap (λ k. put_nulls f v k ys) (omega arith)
  put_nulls-append v i (none ∷ xs) ys =
      put_nulls-append (f.set_null v i) (i + 1) xs ys
      ∙ ap (λ k. put_nulls f (put_nulls f (f.set_null v i) (i + 1) xs) k ys) (omega arith)
  put_nulls-append v i (some a ∷ xs) ys =
      put_nulls-append v (i + 1) xs ys
      ∙ ap (λ k. put_nulls f (put_nulls f v (i + 1) xs) k ys) (omega arith)

  put_lists-flat :
      (child : V) (total : ℕ) (rows : List (Option (List (Option A))))
      → put_lists f lv child rows (offsets total rows) ≡ put_values f child total (flat rows)
  unfolding put_lists offsets flat put_values row_length
  put_lists-flat child total [] = refl
  put_lists-flat child total (none ∷ rows) =
      put_lists-flat child (total + 0) rows
      ∙ ap (λ k. put_values f child k (flat rows)) (omega arith)
  put_lists-flat child total (some vals ∷ rows) =
      put_lists-flat (put_values f child total vals) (total + length vals) rows
      ∙ sym (put_values-append child total vals (flat rows))

  put_entries_child :
      (l : L) (child : V) (i total : ℕ) (rows : List (Option (List (Option A))))
      → (put_entries f lv l child i rows (offsets total rows)).1
        ≡ put_nulls f child total (flat rows)
  unfolding put_entries offsets flat put_nulls row_length
  put_entries_child l child i total [] = refl
  put_entries_child l child i total (none ∷ rows) =
      put_entries_child (lv.set_null (lv.set_entry l i total 0) i) child (i + 1) (total + 0) rows
      ∙ ap (λ k. put_nulls f child k (flat rows)) (omega arith)
  put_entries_child l child i total (some vals ∷ rows) =
      put_entries_child (lv.set_entry l i total (length vals)) (put_nulls f child total vals)
        (i + 1) (total + length vals) rows
      ∙ sym (put_nulls-append child total vals (flat rows))

  -- Rows before the first are left alone.
  put_entries_before :
      (l : L) (child : V) (i : ℕ) (rows : List (Option (List (Option A)))) (os : List ℕ) (j : ℕ)
      → j < i
      → (lv.entry (put_entries f lv l child i rows os).0 j ≡ lv.entry l j)
        × (lv.is_null (put_entries f lv l child i rows os).0 j ≡ lv.is_null l j)
  unfolding put_entries
  put_entries_before l child i [] os j h = (refl, refl)
  put_entries_before l child i (row ∷ rows) [] j h = (refl, refl)
  put_entries_before l child i (none ∷ rows) (o ∷ os) j h =
      let l' : L = lv.set_entry l i o 0 in
      ground (
        arith,
        put_entries_before (lv.set_null l' i) child (i + 1) rows os j,
        lv.entry-set_null l' i j,
        lv.is_null-set_null l' i j,
        lv.entry-set_entry l i o 0 j,
        lv.is_null-set_entry l i o 0 j,
      )
  put_entries_before l child i (some vals ∷ rows) (o ∷ os) j h = ground (
    arith,
    put_entries_before (lv.set_entry l i o (length vals)) (put_nulls f child o vals) (i + 1) rows os
        j,
    lv.entry-set_entry l i o (length vals) j,
    lv.is_null-set_entry l i o (length vals) j,
  )

  abbrev Written : L → ℕ → ℕ → Option (List (Option A)) → Type 0
  Written l j o none = lv.is_null l j ≡ true
  Written l j o (some vals) = (lv.entry l j ≡ (o, length vals)) × (lv.is_null l j ≡ false)

  Written-set_len :
      (l : L) (n j o : ℕ) (row : Option (List (Option A)))
      → Written l j o row
      → Written (lv.set_len l n) j o row
  Written-set_len l n j o none w = lv.is_null-set_len l n j ∙ w
  Written-set_len l n j o (some vals) (w, w') =
      (lv.entry-set_len l n j ∙ w, lv.is_null-set_len l n j ∙ w')

  put_entries_here :
      (l : L) (child : V) (i : ℕ) (row : Option (List (Option A)))
      (rows : List (Option (List (Option A)))) (o : ℕ) (os : List ℕ)
      → lv.is_null l i ≡ false
      → Written (put_entries f lv l child i (row ∷ rows) (o ∷ os)).0 i o row
  unfolding put_entries
  put_entries_here l child i none rows o os fresh =
      let l' : L = lv.set_entry l i o 0 in
      ground (
        arith,
        put_entries_before (lv.set_null l' i) child (i + 1) rows os i,
        lv.is_null-set_null l' i i,
      )
  put_entries_here l child i (some vals) rows o os fresh =
      let l' : L = lv.set_entry l i o (length vals) in
      let after : (lv.entry (put_entries f lv l' (put_nulls f child o vals) (i + 1) rows os).0 i
            ≡ lv.entry l' i)
          × (lv.is_null (put_entries f lv l' (put_nulls f child o vals) (i + 1) rows os).0 i
              ≡ lv.is_null l' i) =
        put_entries_before l' (put_nulls f child o vals) (i + 1) rows os i (omega arith) in
      (
        after.0 ∙ ground (arith, lv.entry-set_entry l i o (length vals) i),
        after.1 ∙ lv.is_null-set_entry l i o (length vals) i ∙ fresh,
      )

  put_entries_at :
      (l : L) (child : V) (i : ℕ) (rows : List (Option (List (Option A)))) (os : List ℕ) (k o : ℕ)
      (row : Option (List (Option A)))
      → get_elem? rows k ≡ some row
      → get_elem? os k ≡ some o
      → lv.is_null l (i + k) ≡ false
      → Written (put_entries f lv l child i rows os).0 (i + k) o row
  unfolding put_entries
  put_entries_at l child i [] os k o row e e' fresh = cc
  put_entries_at l child i (r ∷ rows) [] k o row e e' fresh = cc
  put_entries_at l child i (r ∷ rows) (o' ∷ os) zero o row e e' fresh =
      let same : r ≡ row = cc in
      let start : o' ≡ o = ground arith in
      let place : i + 0 ≡ i = omega arith in
      rw place (
        rw (← same) (
          rw (← start) (
            put_entries_here l child i r rows o' os
              (subst (λ j. lv.is_null l j ≡ false) place fresh))))
  put_entries_at l child i (none ∷ rows) (o' ∷ os) (suc k) o row e e' fresh =
      let l' : L = lv.set_entry l i o' 0 in
      let place : i + 1 + k ≡ i + suc k = omega arith in
      rw (← place) (
        put_entries_at (lv.set_null l' i) child (i + 1) rows os k o row e e' (
          ground (
            arith,
            lv.is_null-set_null l' i (i + 1 + k),
            lv.is_null-set_entry l i o' 0 (i + 1 + k),
          )))
  put_entries_at l child i (some vals ∷ rows) (o' ∷ os) (suc k) o row e e' fresh =
      let place : i + 1 + k ≡ i + suc k = omega arith in
      rw (← place) (
        put_entries_at (lv.set_entry l i o' (length vals)) (put_nulls f child o' vals) (i + 1) rows
          os k o row e e' (ground (arith, lv.is_null-set_entry l i o' (length vals) (i + 1 + k))))

  -- A slice that holds the elements one after another is read as the list of them.
  read-range :
      (child : V) (o : ℕ) (vals : List (Option A))
      → ((m : ℕ) (x : Option A) → get_elem? vals m ≡ some x → read f child (o + m) ≡ x)
      → map (read f child) (range o (length vals)) ≡ vals
  read-range child o [] h = refl
  read-range child o (x ∷ vals) h =
      let first : read f child o ≡ x = subst (λ j. read f child j ≡ x) (omega arith) (h 0 x refl) in
      let rest : map (read f child) (range (o + 1) (length vals)) ≡ vals =
        read-range child (o + 1) vals
          (λ m y e. subst (λ j. read f child j ≡ y) (omega arith) (h (suc m) y e)) in
      rw (first, rest) refl

  offset_of :
      (total : ℕ) (rows : List (Option (List (Option A)))) (k : ℕ) (row : Option (List (Option A)))
      → get_elem? rows k ≡ some row
      → (o : ℕ) × (get_elem? (offsets total rows) k ≡ some o)
  unfolding offsets
  offset_of total [] k row e = cc
  offset_of total (r ∷ rows) zero row e = (total, refl)
  offset_of total (r ∷ rows) (suc k) row e = offset_of (total + row_length r) rows k row e

  read-Written :
      (l : L) (child : V) (j o : ℕ) (row : Option (List (Option A)))
      → Written l j o row
      → ((vals : List (Option A))
          → row ≡ some vals
          → map (read f child) (range o (length vals)) ≡ vals)
      → read_list f lv l child j ≡ row
  unfolding read_list
  read-Written l child j o none w h = rw (w) refl
  read-Written l child j o (some vals) w h = rw (w.1, w.0) (rw (h vals refl) refl)

  child_elements :
      (l : L) (child : V) (rows : List (Option (List (Option A)))) (i o : ℕ)
      (vals : List (Option A))
      → ((j : ℕ) → f.is_null child j ≡ false)
      → get_elem? rows i ≡ some (some vals)
      → get_elem? (offsets 0 rows) i ≡ some o
      → map (read f (write_list_rows f lv l child rows).1) (range o (length vals)) ≡ vals
  unfolding write_list_rows chosen
  child_elements l child rows i o vals fresh e e' =
      let v : V = put_values f child 0 (flat rows) in
      let whole : (put_entries f lv l (put_lists f lv child rows (offsets 0 rows)) 0 rows
            (offsets 0 rows)).1
          ≡ put_nulls f v 0 (flat rows) =
        put_entries_child l (put_lists f lv child rows (offsets 0 rows)) 0 0 rows
        ∙ ap (λ w. put_nulls f w 0 (flat rows)) (put_lists-flat child 0 rows) in
      rw (whole) (
        read-range (put_nulls f v 0 (flat rows)) o vals (λ m x h.
          let at : row_at 0 (flat rows) (o + m) ≡ some x = row_at-flat 0 rows i o vals m x e e' h in
          read-put_nulls f v 0 (flat rows) (o + m) x at
            (is_null-put_values f child 0 (flat rows) (o + m) ∙ fresh (o + m))
            (λ a same. slot-put_values f child 0 (flat rows) (o + m) ∙ rw (at, same) refl)))

  -- On vectors with no NULL yet the engine reads of every row the list that `write_list_rows` was
  -- given, with its elements in order and NULL where an element is missing, or NULL for a row that
  -- is none.
  pub read-write_list_rows :
      (l : L) (child : V) (rows : List (Option (List (Option A)))) (i : ℕ)
      (row : Option (List (Option A)))
      → ((j : ℕ) → lv.is_null l j ≡ false)
      → ((j : ℕ) → f.is_null child j ≡ false)
      → get_elem? rows i ≡ some row
      → read_list f lv (write_list_rows f lv l child rows).0 (write_list_rows f lv l child rows).1 i
        ≡ row
  unfolding write_list_rows
  read-write_list_rows l child rows i row fresh fresh' e =
      let (o, e') = offset_of 0 rows i row e in
      let at : Written (write_list_rows f lv l child rows).0 (0 + i) o row =
        Written-set_len
          (put_entries f lv l (put_lists f lv child rows (offsets 0 rows)) 0 rows
            (offsets 0 rows)).0
          (total_length rows) (0 + i) o row
          (put_entries_at l (put_lists f lv child rows (offsets 0 rows)) 0 rows (offsets 0 rows) i o
            row e e' (fresh (0 + i))) in
      read-Written (write_list_rows f lv l child rows).0 (write_list_rows f lv l child rows).1 i o
        row (subst (λ j. Written (write_list_rows f lv l child rows).0 j o row) (omega arith) at)
        (λ vals same. child_elements l child rows i o vals fresh' (e ∙ ap some same) e')
