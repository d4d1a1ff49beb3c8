-- ===== src/Extension/StacRows/Fields.antt =====
-- What the engine reads of one column, and of one field of the structs in a list column.
use duckdb_cog.Base.{
  ℕ, ◌+◌, ◌≡◌, refl, ap, ◌∙◌, subst, arith, true, false, Option, none, some, List, [], ◌∷◌, map,
  length, length-map, get_elem?, get_elem?-map,
}
use duckdb_cog.Sql.Vector.{
  FlatVector, ListVector, read, write_texts, put_nulls, put_lists, put_entries, row_length, offsets,
  total_length, read_list, write_list_rows,
}
use duckdb_cog.Sql.Vector.Flat.{row_at, chosen, nulled, row_at_before, row_at-get_elem?}
use duckdb_cog.Sql.Vector.Lists.{read-write_list_rows}
use duckdb_cog.Extension.StacRows.{map_option, null_lists, put_field, set_entries}

pub row_at_start :
    {A : Type 0} (rows : List (Option A)) (i : ℕ) (row : Option A)
    → get_elem? rows i ≡ some row
    → row_at 0 rows i ≡ some row
row_at_start rows i row e =
    subst (λ k. row_at 0 rows k ≡ some row) (omega arith) (row_at-get_elem? 0 rows i ∙ e)

module _ {A V : Type 0} (f : FlatVector A V) where
  -- No row is NULL yet.
  abbrev pub Blank : V → Type 0
  Blank v = (j : ℕ) → f.is_null v j ≡ false

  is_null-write_texts :
      (v : V) (i : ℕ) (rows : List (Option A)) (j : ℕ)
      → f.is_null (write_texts f v i rows) j ≡ nulled (row_at i rows j) (f.is_null v j)
  unfolding write_texts row_at nulled
  is_null-write_texts v i [] j = refl
  is_null-write_texts v i (none ∷ rows) j = ground (
    arith,
    is_null-write_texts (f.set_null v i) (i + 1) rows j,
    row_at_before (i + 1) rows j,
    f.is_null-set_null v i j,
  )
  is_null-write_texts v i (some a ∷ rows) j = ground (
    arith,
    is_null-write_texts (f.put v i a) (i + 1) rows j,
    row_at_before (i + 1) rows j,
    f.is_null-put v i a j,
  )

  slot-write_texts :
      (v : V) (i : ℕ) (rows : List (Option A)) (j : ℕ)
      → nulled (row_at i rows j) false ≡ false
      → f.slot (write_texts f v i rows) j ≡ chosen (row_at i rows j) (f.slot v j)
  unfolding write_texts row_at nulled chosen
  slot-write_texts v i [] j h = refl
  slot-write_texts v i (none ∷ rows) j h = ground (
    arith,
    slot-write_texts (f.set_null v i) (i + 1) rows j,
    row_at_before (i + 1) rows j,
    f.slot-set_null v i j,
  )
  slot-write_texts v i (some a ∷ rows) j h = ground (
    arith,
    slot-write_texts (f.put v i a) (i + 1) rows j,
    row_at_before (i + 1) rows j,
    f.slot-put v i a j,
  )

  pub read-write_texts :
      (v : V) (rows : List (Option A)) (i : ℕ) (row : Option A)
      → Blank v
      → get_elem? rows i ≡ some row
      → read f (write_texts f v 0 rows) i ≡ row
  unfolding read nulled chosen
  read-write_texts v rows i none fresh e =
      let at = row_at_start rows i none e in
      let null : f.is_null (write_texts f v 0 rows) i ≡ true =
        is_null-write_texts v 0 rows i ∙ rw (at) refl in
      rw (null) refl
  read-write_texts v rows i (some a) fresh e =
      let at = row_at_start rows i (some a) e in
      let valid : f.is_null (write_texts f v 0 rows) i ≡ false =
        is_null-write_texts v 0 rows i ∙ rw (at) (fresh i) in
      let slot : f.slot (write_texts f v 0 rows) i ≡ a =
        slot-write_texts v 0 rows i (rw (at) refl) ∙ rw (at) refl in
      rw (valid) (rw (slot) refl)

module _ {A V L : Type 0} (f : FlatVector A V) (lv : ListVector L) where
  -- Entries and NULLs in one pass or in two.
  put_entries-split :
      (l : L) (child : V) (i : ℕ) (rows : List (Option (List (Option A)))) (os : List ℕ)
      → put_entries f lv l child i rows os
        ≡ (set_entries lv l i rows os, null_lists f lv child rows os)
  unfolding put_entries set_entries null_lists
  put_entries-split l child i [] os = refl
  put_entries-split l child i (row ∷ rows) [] = refl
  put_entries-split l child i (none ∷ rows) (o ∷ os) =
      put_entries-split (lv.set_null (lv.set_entry l i o 0) i) child (i + 1) rows os
  put_entries-split l child i (some vals ∷ rows) (o ∷ os) =
      put_entries-split (lv.set_entry l i o (length vals)) (put_nulls f child o vals) (i + 1) rows
        os

  module _ {B : Type 0} (pick : B → Option A) where
    set_entries-map :
        (l : L) (i : ℕ) (rows : List (Option (List B))) (os : List ℕ)
        → set_entries lv l i (map (map_option (map pick)) rows) os ≡ set_entries lv l i rows os
    unfolding set_entries
    set_entries-map l i [] os = refl
    set_entries-map l i (none ∷ rows) [] = refl
    set_entries-map l i (some bands ∷ rows) [] = refl
    set_entries-map l i (none ∷ rows) (o ∷ os) =
        set_entries-map (lv.set_null (lv.set_entry l i o 0) i) (i + 1) rows os
    set_entries-map l i (some bands ∷ rows) (o ∷ os) =
        rw (length-map pick bands)
          (set_entries-map (lv.set_entry l i o (length bands)) (i + 1) rows os)

offsets-map :
    {A B : Type 0} (pick : B → A) (total : ℕ) (rows : List (Option (List B)))
    → offsets total (map (map_option (map pick)) rows) ≡ offsets total rows
unfolding offsets row_length
offsets-map pick total [] = refl
offsets-map pick total (none ∷ rows) = ap (λ os. total ∷ os) (offsets-map pick (total + 0) rows)
offsets-map pick total (some bands ∷ rows) =
    rw (length-map pick bands)
      (ap (λ os. total ∷ os) (offsets-map pick (total + length bands) rows))

total_length-map :
    {A B : Type 0} (pick : B → A) (rows : List (Option (List B)))
    → total_length (map (map_option (map pick)) rows) ≡ total_length rows
unfolding total_length row_length
total_length-map pick [] = refl
total_length-map pick (none ∷ rows) = rw (total_length-map pick rows) refl
total_length-map pick (some bands ∷ rows) =
    rw (length-map pick bands, total_length-map pick rows) refl

module _ {A B V L : Type 0} (f : FlatVector A V) (lv : ListVector L) (pick : B → Option A) where
  pub read-put_field :
      (l : L) (child : V) (rows : List (Option (List B))) (i : ℕ) (row : Option (List B))
      → ((j : ℕ) → lv.is_null l j ≡ false)
      → Blank f child
      → get_elem? rows i ≡ some row
      → read_list f lv
          (lv.set_len (set_entries lv l 0 rows (offsets 0 rows)) (total_length rows))
          (put_field f lv child (map (map_option (map pick)) rows))
          i
        ≡ map_option (map pick) row
  unfolding put_field write_list_rows
  read-put_field l child rows i row fresh fresh' e =
      let vals : List (Option (List (Option A))) = map (map_option (map pick)) rows in
      let os : offsets 0 vals ≡ offsets 0 rows = offsets-map pick 0 rows in
      let both : write_list_rows f lv l child vals ≡ (
        lv.set_len (set_entries lv l 0 rows (offsets 0 rows)) (total_length rows),
        put_field f lv child vals,
      ) =
        ap (λ (x : L × V). (lv.set_len x.0 (total_length vals), x.1))
          (put_entries-split f lv l (put_lists f lv child vals (offsets 0 vals)) 0 vals
              (offsets 0 vals)
            ∙ ap (λ x. (x, put_field f lv child vals))
                (ap (set_entries lv l 0 vals) os
                  ∙ set_entries-map f lv pick l 0 rows (offsets 0 rows)))
        ∙ ap
            (λ n.
              (lv.set_len (set_entries lv l 0 rows (offsets 0 rows)) n, put_field f lv child vals))
            (total_length-map pick rows) in
      subst (λ (x : L × V). read_list f lv x.0 x.1 i ≡ map_option (map pick) row) both
        (read-write_list_rows f lv l child vals i (map_option (map pick) row) fresh fresh'
          (get_elem?-map (map_option (map pick)) rows i e))
