-- ===== src/Stac/Search/Paging.antt =====
-- The loop over pages: its end, its cap, and the rows of its pages.
use duckdb_cog.Base.{
  ℕ, zero, suc, ◌+◌, ◌≤◌, ◌<◌, ◌≡◌, refl, sym, ◌∙◌, subst, arith, ◌||◌, ◌&&◌, Bool, true, false,
  not, Option, none, some, List, [], ◌++◌, Result, ok, err, ltb, leb, ◌==◌, length, take,
  length-append, length-take-le, append_assoc, take-all, inl, inr, Bool-cases, Option-cases,
}
use duckdb_cog.Meta.Text.{codes}
use duckdb_cog.Base.Texts.{Text}
use duckdb_cog.Stac.{Value, StacAssetRow, StacNext, StacPage}
use duckdb_cog.Stac.Body.{apply_next}
use duckdb_cog.Stac.Search.{SearchError, has_next, request, at_cap, search_loop, search}

module _ {F : Type 0} (from_slice : Text → Result Text (Value F))
    (fetch : ℕ → Text → Text → Option (Value F) → Result Text Text) (original : Value F)
    (explicit_cap : Bool) (max_rows : ℕ) where
  pub ask : ℕ → Text → Text → Option (Value F) → Result SearchError (StacPage F)
  ask = request from_slice fetch original explicit_cap max_rows

  loop :
      ℕ
      → ℕ
      → List (StacAssetRow F)
      → Text
      → Text
      → Option (Value F)
      → Option (Result SearchError (List (StacAssetRow F)))
  loop = search_loop from_slice fetch original explicit_cap max_rows

  cap : List (StacAssetRow F) → Option (StacNext F) → Result SearchError (List (StacAssetRow F))
  cap = at_cap from_slice fetch original explicit_cap max_rows

  -- The rounds after `k`, with the address, method and body of the next request, and all rows of
  -- their pages: up to a page without a next link, or to a page without rows.
  pub data Pages : ℕ → Text → Text → Option (Value F) → List (StacAssetRow F) → Type 0 where
    last_page :
        {k : ℕ} {href method : Text} {body : Option (Value F)} (page : StacPage F)
        → ask k href method body ≡ ok page
        → page.next ≡ none
        → Pages k href method body page.rows
    empty_page :
        {k : ℕ} {href method : Text} {body : Option (Value F)} (page : StacPage F)
        → ask k href method body ≡ ok page
        → length page.rows ≡ 0
        → Pages k href method body page.rows
    more_pages :
        {k : ℕ} {href method : Text} {body : Option (Value F)} (page : StacPage F)
        (next : StacNext F) {rest : List (StacAssetRow F)}
        → ask k href method body ≡ ok page
        → page.next ≡ some next
        → Pages
            (k + 1)
            (apply_next original next).0
            (apply_next original next).1
            (apply_next original next).2
            rest
        → Pages k href method body (page.rows ++ rest)

  -- What is owed of an outcome that the rounds from `k` on add to the rows at hand.
  Owed :
      ℕ
      → List (StacAssetRow F)
      → Text
      → Text
      → Option (Value F)
      → Result SearchError (List (StacAssetRow F))
      → Type 0
  Owed k rows href method body r =
      (out : List (StacAssetRow F))
      → r ≡ ok out
      → (length out ≤ max_rows)
        × (explicit_cap ≡ false
            → (more : List (StacAssetRow F)) × Pages k href method body more × (out ≡ rows ++ more))

  ok_inj :
      (xs ys : List (StacAssetRow F))
      → ◌≡◌ {A = Result SearchError (List (StacAssetRow F))} (ok xs) (ok ys)
      → xs ≡ ys
  ok_inj xs ys h = cc

  no_ok :
      {e : SearchError} {ys : List (StacAssetRow F)}
      → ◌≡◌ {A = Result SearchError (List (StacAssetRow F))} (err e) (ok ys)
      → ⊥
  no_ok h = cc

  -- Rows that are returned as they are.
  Owed-whole :
      (k : ℕ) (rows more : List (StacAssetRow F)) (href method : Text) (body : Option (Value F))
      → length (rows ++ more) ≤ max_rows
      → Pages k href method body more
      → Owed k rows href method body (ok (rows ++ more))
  unfolding Owed
  Owed-whole k rows more href method body fits pages out e =
      let same = ok_inj (rows ++ more) out e in
      (
        subst (λ (l : List (StacAssetRow F)). length l ≤ max_rows) same fits,
        λ default_cap. (more, pages, sym same),
      )

  no_next : (o : Option (StacNext F)) → has_next o ≡ false → o ≡ none
  unfolding has_next
  no_next none e = refl
  no_next (some n) e = absurd (ground arith)

  cap_open :
      (over next : Bool) → ((over || next) && not false) ≡ false → (over ≡ false) × (next ≡ false)
  cap_open true next e = absurd (ground arith)
  cap_open false true e = absurd (ground arith)
  cap_open false false e = (refl, refl)

  Owed-cap :
      (k : ℕ) (rows : List (StacAssetRow F)) (href method : Text) (body : Option (Value F))
      (page : StacPage F)
      → ask k href method body ≡ ok page
      → max_rows ≤ length (rows ++ page.rows)
      → Owed k rows href method body (cap (rows ++ page.rows) page.next)
  unfolding Owed cap at_cap
  Owed-cap k rows href method body page asked reached out e =
      elim (Bool-cases
        ((ltb max_rows (length (rows ++ page.rows)) || has_next page.next) && not explicit_cap)) [
          | inl refused ↦ absurd (no_ok (rw (refused, at_cap) at e))
          | inr open_end ↦
              let same =
                ok_inj (take max_rows (rows ++ page.rows)) out (rw (open_end, at_cap) at e) in
              (
                subst (λ (l : List (StacAssetRow F)). length l ≤ max_rows) same
                    (length-take-le max_rows (rows ++ page.rows)),
                λ default_cap.
                    let (inside, last) =
                      cap_open (ltb max_rows (length (rows ++ page.rows))) (has_next page.next)
                        (rw (default_cap) at open_end) in
                    (
                      page.rows,
                      last_page page asked (no_next page.next last),
                      sym same ∙ take-all (rows ++ page.rows) max_rows (ground arith),
                    ),
              )
        ]

  loop_lem :
      (fuel k : ℕ) (rows : List (StacAssetRow F)) (href method : Text) (body : Option (Value F))
      → length rows < max_rows
      → max_rows ≤ length rows + fuel
      → (r : Result SearchError (List (StacAssetRow F))) × (loop fuel k rows href method body
          ≡ some r)
        × Owed k rows href method body r
  unfolding loop search_loop ask cap Owed
  loop_lem zero k rows href method body few enough = absurd (omega arith)
  loop_lem (suc fuel) k rows href method body few enough =
      go (loop_lem fuel (k + 1)) (ask k href method body) refl
    where
      Rounds : Type 0
      Rounds =
          (rows' : List (StacAssetRow F)) (h m : Text) (b : Option (Value F))
          → length rows' < max_rows
          → max_rows ≤ length rows' + fuel
          → (r : Result SearchError (List (StacAssetRow F))) × (loop fuel (k + 1) rows' h m b
              ≡ some r)
            × Owed (k + 1) rows' h m b r

      Goal : Type 0
      Goal =
          (r : Result SearchError (List (StacAssetRow F))) × (loop (suc fuel) k rows href method
              body
            ≡ some r)
          × Owed k rows href method body r

      continue :
          Rounds
          → (page : StacPage F) (next : StacNext F) → ask k href method body ≡ ok page
          → leb max_rows (length (rows ++ page.rows)) ≡ false
          → page.next ≡ some next
          → Goal
      continue rounds page next asked below linked = elim (Bool-cases (length page.rows == 0)) [
        | inl none_here ↦ (
          ok (rows ++ page.rows),
          rw (asked, below, linked, none_here, search_loop) refl,
          Owed-whole k rows page.rows href method body (ground arith)
              (empty_page page asked (ground arith)),
        )
        | inr some_here ↦
            let count = length-append rows page.rows in
            let (r, e, owed) =
              rounds (rows ++ page.rows) (apply_next original next).0 (apply_next original next).1
                (apply_next original next).2 (ground arith) (ground arith) in
            (
              r,
              rw (asked, below, linked, some_here, search_loop) e,
              λ out is_ok.
                  let (fits, whole) = owed out is_ok in
                  (
                    fits,
                    λ default_cap.
                        let (more, pages, all) = whole default_cap in
                        (
                          page.rows ++ more,
                          more_pages page next asked linked pages,
                          all ∙ append_assoc rows page.rows more,
                        ),
                  ),
            )
      ]

      answered : Rounds → (page : StacPage F) → ask k href method body ≡ ok page → Goal
      answered rounds page asked = elim (Bool-cases (leb max_rows (length (rows ++ page.rows)))) [
        | inl reached ↦ (
          cap (rows ++ page.rows) page.next,
          rw (asked, reached, search_loop) refl,
          Owed-cap k rows href method body page asked (ground arith),
        )
        | inr below ↦ elim (Option-cases page.next) [
          | inl ends ↦ (
            ok (rows ++ page.rows),
            rw (asked, below, ends, search_loop) refl,
            Owed-whole k rows page.rows href method body (ground arith) (last_page page asked ends),
          )
          | inr (next, linked) ↦ continue rounds page next asked below linked
        ]
      ]

      go : Rounds → (a : Result SearchError (StacPage F)) → ask k href method body ≡ a → Goal
      go rounds (err e) failed =
          (err e, rw (failed, search_loop) refl, λ out is_ok. absurd (no_ok is_ok))
      go rounds (ok page) asked = answered rounds page asked

  -- For a cap of at least one row the search ends, whatever the server answers. A result has at
  -- most `max_rows` rows. Under the default cap, which the caller did not name, it is all rows of
  -- all pages in order, up to a page without a next link or a page without rows: nothing is cut.
  pub search_lem :
      (url : Text)
      → 0 < max_rows
      → (r : Result SearchError (List (StacAssetRow F))) × (search from_slice fetch original
            explicit_cap max_rows url
          ≡ some r)
        × ((out : List (StacAssetRow F))
            → r ≡ ok out
            → (length out ≤ max_rows)
              × (explicit_cap ≡ false → Pages 0 url (codes "POST") (some original) out))
  unfolding search loop Owed
  search_lem url positive =
      let (r, e, owed) =
        loop_lem max_rows 0 [] url (codes "POST") (some original) (omega arith) (omega arith) in
      (
        r,
        e,
        λ out is_ok.
            let (fits, whole) = owed out is_ok in
            (
              fits,
              λ default_cap.
                  let (more, pages, all) = whole default_cap in
                  subst (Pages 0 url (codes "POST") (some original)) (sym all) pages,
            ),
      )
