-- ===== src/Sql/Values/Elements.antt =====
-- A row of `RS_Values`: its elements without NULLs gathered, and the values put back.
pub mod Single
use duckdb_cog.Base.{
  ℕ, zero, suc, ◌+◌, ◌-◌, ◌≤◌, ◌<◌, ◌≡◌, ◌↔◌, refl, sym, ap, ◌∙◌, subst, arith, max, Bool, true,
  false, ◌&&◌, Option, none, some, List, [], ◌∷◌, ◌++◌, map, append_assoc, Result, ok, err, ◌>>=◌,
  map_err, map_err-eq_ok, try_map, bind-eq_ok, All, All-range, ltb, if◌then◌else◌, get_elem?,
  length, set, replicate, range, lt→ltb, length-append, length-map, fun_ext,
}
use duckdb_cog.Base.Texts.{Text}
use duckdb_cog.Float.{Float}
use duckdb_cog.Meta.{CogMeta, LevelMeta, Georef}
use duckdb_cog.Pixel.Reader.{IfdReader, CogReader}
use duckdb_cog.Pixel.Reader.Points.{read_pixel, read_pixels}
use duckdb_cog.Pixel.Reader.Points.Single.{Reads, read_pixels-ok_iff}
use duckdb_cog.Sql.{SqlFailure, S, at_path, Cog, ListColumn, max_end}
use duckdb_cog.Sql.Values.{
  answer_value, put_at, scatter, element, keep_element, gather, batch, answer_values,
}

pub max_end-ge :
    (es : List (Option (ℕ × ℕ))) (i o n : ℕ)
    → get_elem? es i ≡ some (some (o, n))
    → o + n ≤ max_end es
unfolding max_end
max_end-ge [] i o n e = cc
max_end-ge (none ∷ es) zero o n e = cc
max_end-ge (none ∷ es) (suc i) o n e = max_end-ge es i o n e
max_end-ge (some f ∷ es) zero o n e = ground arith
max_end-ge (some f ∷ es) (suc i) o n e = omega (arith, max_end-ge es i o n e)

module _ {A : Type 0} where
  put_at-append :
      (pre : List A) (x v : A) (rest : List A)
      → put_at (pre ++ x ∷ rest) (length pre) v ≡ ok (pre ++ v ∷ rest)
  unfolding put_at
  put_at-append pre x v rest =
      let inside : ltb (length pre) (length (pre ++ x ∷ rest)) ≡ true =
        lt→ltb (length pre) (length (pre ++ x ∷ rest))
          (rw (length-append pre (x ∷ rest)) (omega arith)) in
      rw (inside) (ap ok (set-append pre))
    where
      set-append : (pre : List A) → set (pre ++ x ∷ rest) (length pre) v ≡ pre ++ v ∷ rest
      set-append [] = refl
      set-append (y ∷ pre) = ap (λ l. y ∷ l) (set-append pre)

module _ {E E' A B : Type 0} (h : E → E') (f : A → Result E B) where
  pub try_map-map_err : (xs : List A) → try_map (λ x. map_err h (f x)) xs ≡ map_err h (try_map f xs)
  try_map-map_err [] = refl
  try_map-map_err (x ∷ xs) = rw (try_map-map_err xs) (go (f x) (try_map f xs))
    where
      go :
          (o : Result E B) (m : Result E (List B))
          → (map_err h o >>= λ y. map_err h m >>= λ ys. ok (y ∷ ys))
            ≡ map_err h (o >>= λ y. m >>= λ ys. ok (y ∷ ys))
      go (err e) m = refl
      go (ok y) (err e) = refl
      go (ok y) (ok ys) = refl

module _ {F : Type 0} (xs ys : ListColumn F) (xo yo : ℕ) where
  pub pair : Option F → Option F → Option (F × F)
  pair none y = none
  pair (some x) none = none
  pair (some x) (some y) = some (x, y)

  -- The elements without a NULL, with their places.
  pub kept : List ℕ → List (ℕ × F × F)
  kept [] = []
  kept (k ∷ ks) = keep_element xs ys k (pair (xs.child (xo + k)) (ys.child (yo + k))) (kept ks)

  element_lem :
      (k : ℕ)
      → xo + k < max_end xs.entries
      → yo + k < max_end ys.entries
      → element xs ys xo yo k ≡ ok (pair (xs.child (xo + k)) (ys.child (yo + k)))
  unfolding element pair
  element_lem k hx hy = ground (arith)

  pub gather_lem :
      (ks : List ℕ)
      → All (λ k. (xo + k < max_end xs.entries) × (yo + k < max_end ys.entries)) ks
      → gather xs ys xo yo ks ≡ ok (kept ks)
  unfolding gather kept
  gather_lem [] a = refl
  gather_lem (k ∷ ks) ((hx, hy), a) = rw (element_lem k hx hy, gather_lem ks a) refl

  place : Option (F × F) → List (Option F) → (List (Option F) → List (Option F)) → List (Option F)
  place none vs next = none ∷ next vs
  place (some p) [] next = none ∷ next []
  place (some p) (v ∷ vs) next = v ∷ next vs

  -- The values of the elements put back at their places.
  pub merged : List ℕ → List (Option F) → List (Option F)
  merged [] vs = []
  merged (k ∷ ks) vs =
      place (pair (xs.child (xo + k)) (ys.child (yo + k))) vs (λ vs'. merged ks vs')

  pub places : List ℕ → List ℕ
  places ks = map (λ k. k.0) (kept ks)

  pub scatter_lem :
      (pre : List (Option F)) (a m : ℕ) (vs : List (Option F))
      → length pre ≡ a
      → length vs ≡ length (kept (range a m))
      → scatter (pre ++ replicate m none) (places (range a m)) vs
        ≡ ok (pre ++ merged (range a m) vs)
  unfolding scatter places kept merged keep_element place
  scatter_lem pre a zero vs at fits = refl
  scatter_lem pre a (suc m) vs at fits =
      go (pair (xs.child (xo + a)) (ys.child (yo + a))) vs fits (λ v vs' fits'.
        subst
          (λ l.
            scatter l (places (range (a + 1) m)) vs'
            ≡ ok ((pre ++ v ∷ []) ++ merged (range (a + 1) m) vs'))
          (append_assoc pre (v ∷ []) (replicate m none))
          (scatter_lem (pre ++ v ∷ []) (a + 1) m vs' (length-append pre (v ∷ []) ∙ omega arith)
            fits'))
    where
      ks : List ℕ
      ks = range (a + 1) m

      Rest : Type 0
      Rest =
          (v : Option F) (vs' : List (Option F))
          → length vs' ≡ length (kept ks)
          → scatter (pre ++ v ∷ replicate m none) (places ks) vs'
            ≡ ok ((pre ++ v ∷ []) ++ merged ks vs')

      go :
          (p : Option (F × F)) (vs : List (Option F))
          → length vs ≡ length (keep_element xs ys a p (kept ks))
          → Rest
          → scatter
              (pre ++ none ∷ replicate m none)
              (map (λ k. k.0) (keep_element xs ys a p (kept ks)))
              vs
            ≡ ok (pre ++ place p vs (λ vs'. merged ks vs'))
      go none vs fits rest = rest none vs fits ∙ ap ok (append_assoc pre (none ∷ []) (merged ks vs))
      go (some p) [] fits rest = absurd (omega arith)
      go (some p) (v ∷ vs) fits rest =
          let put : put_at (pre ++ none ∷ replicate m none) a v ≡ ok (pre ++ v ∷ replicate m none) =
            subst
              (λ k. put_at (pre ++ none ∷ replicate m none) k v ≡ ok (pre ++ v ∷ replicate m none))
              at (put_at-append pre none v (replicate m none)) in
          rw (put) (rest v vs (omega arith) ∙ ap ok (append_assoc pre (v ∷ []) (merged ks vs)))

  -- One element: its value where both coordinates are present.
  module _ (single : F × F → S (Option F)) where
    pub one : Option (F × F) → S (Option F)
    one none = ok none
    one (some p) = single p

    pub points : List ℕ → List (F × F)
    points ks = map (λ k. (k.1, k.2)) (kept ks)

    pub one_by_one :
        (ks : List ℕ)
        → try_map (λ k. one (pair (xs.child (xo + k)) (ys.child (yo + k)))) ks
          ≡ (try_map single (points ks) >>= λ vs. ok (merged ks vs))
    unfolding one points kept merged keep_element place
    one_by_one [] = refl
    one_by_one (k ∷ ks) = go (pair (xs.child (xo + k)) (ys.child (yo + k))) (one_by_one ks)
      where
        Rest : Type 0
        Rest =
            try_map (λ k. one (pair (xs.child (xo + k)) (ys.child (yo + k)))) ks
            ≡ (try_map single (points ks) >>= λ vs. ok (merged ks vs))

        nulls :
            (m : S (List (Option F)))
            → ((m >>= λ vs. ok (merged ks vs)) >>= λ vs. ok (none ∷ vs))
              ≡ (m >>= λ vs. ok (none ∷ merged ks vs))
        nulls (ok vs) = refl
        nulls (err e) = refl

        values :
            (p : F × F) (o : S (Option F)) (m : S (List (Option F)))
            → (o >>= λ v. (m >>= λ vs. ok (merged ks vs)) >>= λ vs. ok (v ∷ vs)) ≡ (
                (o >>= λ v. m >>= λ vs. ok (v ∷ vs)) >>= λ vs.
                ok (place (some p) vs (λ vs'. merged ks vs')))
        values p (ok v) (ok vs) = refl
        values p (ok v) (err e) = refl
        values p (err e) m = refl

        go :
            (p : Option (F × F))
            → Rest
            → (one p >>= λ v.
                try_map (λ k. one (pair (xs.child (xo + k)) (ys.child (yo + k)))) ks >>= λ vs.
                ok (v ∷ vs))
              ≡ (try_map single (map (λ k. (k.1, k.2)) (keep_element xs ys k p (kept ks))) >>= λ vs.
                  ok (place p vs (λ vs'. merged ks vs')))
        go none ih = rw (ih) (nulls (try_map single (points ks)))
        go (some p) ih = rw (ih) (values p (single p) (try_map single (points ks)))
