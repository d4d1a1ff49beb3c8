-- ===== src/Sql/Values/Elements/Single.antt =====
-- A row of `RS_Values` against `RS_Value` at each of its elements.
use duckdb_cog.Base.{
  ℕ, ◌+◌, ◌<◌, ◌≡◌, ◌↔◌, refl, sym, ap, ◌∙◌, arith, Option, none, some, List, [], Result, ok, ◌>>=◌,
  map_err, map_err-eq_ok, map_err-ok, length-try_map, try_map, bind-eq_ok, All-range, get_elem?,
  length, replicate, range, length-map, fun_ext,
}
use duckdb_cog.Base.Texts.{Text}
use duckdb_cog.Float.{Float}
use duckdb_cog.Meta.{LevelMeta, Georef}
use duckdb_cog.Pixel.Reader.{IfdReader}
use duckdb_cog.Pixel.Reader.Points.{read_pixel, read_pixels}
use duckdb_cog.Pixel.Reader.Points.Single.{Reads, read_pixels-ok_iff}
use duckdb_cog.Sql.{S, at_path, Cog, ListColumn, max_end}
use duckdb_cog.Sql.Values.Elements.{
  max_end-ge, try_map-map_err, pair, kept, gather_lem, merged, places, scatter_lem, one, points,
  one_by_one,
}
use duckdb_cog.Sql.Values.{answer_value, scatter, gather, batch, answer_values}

module _ {F T : Type 0} ⦃fl : Float F⦄ (xs ys : ListColumn F) (path : Text) (c : Cog F T) (b : ℕ)
    (g : Georef F) (l0 : LevelMeta) (ifd0 : IfdReader T) (o : Reads c.1 c.0 b g l0 ifd0)
    (tile : ℕ × ℕ → Result (List ℕ) T)
    (each : (ts : List (ℕ × ℕ)) → ifd0.fetch_tiles ts ≡ try_map tile ts) where
  -- `RS_Value` of an element, NULL where a coordinate is.
  abbrev pub value_of : Option F → Option F → S (Option F)
  value_of none y = ok none
  value_of (some x) none = ok none
  value_of (some x) (some y) = answer_value path c (x, y, some b)

  single : F × F → S (Option F)
  single p = map_err (at_path path) (read_pixel c.1 c.0 p.0 p.1 b)

  value_of-one :
      (xo yo : ℕ) (x y : Option F) → value_of x y ≡ one xs ys xo yo single (pair xs ys xo yo x y)
  unfolding one pair single answer_value
  value_of-one xo yo none y = refl
  value_of-one xo yo (some x) none = refl
  value_of-one xo yo (some x) (some y) = refl

  batch-ok_iff :
      (ps : List (F × F)) (vs : List (Option F))
      → (batch xs ys path c ps (some b) ≡ ok vs) ↔ (try_map single ps ≡ ok vs)
  unfolding batch single
  batch-ok_iff ps vs =
      let same : try_map single ps
          ≡ map_err (at_path path) (try_map (λ p. read_pixel c.1 c.0 p.0 p.1 b) ps) =
        try_map-map_err (at_path path) (λ p. read_pixel c.1 c.0 p.0 p.1 b) ps in
      let iff = read_pixels-ok_iff c.1 c.0 b g l0 ifd0 o tile each ps vs in
      (
        λ e.
            same
            ∙ map_err-ok (at_path path) (try_map (λ p. read_pixel c.1 c.0 p.0 p.1 b) ps)
                (iff.0 (map_err-eq_ok (at_path path) (read_pixels c.1 c.0 ps b) e)),
        λ e. map_err-ok (at_path path) (read_pixels c.1 c.0 ps b) (
            iff.1 (
              map_err-eq_ok (at_path path) (try_map (λ p. read_pixel c.1 c.0 p.0 p.1 b) ps)
                (sym same ∙ e))),
      )

  fits :
      (xo yo n : ℕ) (vs : List (Option F))
      → try_map single (points xs ys xo yo single (range 0 n)) ≡ ok vs
      → length vs ≡ length (kept xs ys xo yo (range 0 n))
  unfolding points
  fits xo yo n vs e =
      length-try_map single (points xs ys xo yo single (range 0 n)) e
      ∙ length-map (λ k. (k.1, k.2)) (kept xs ys xo yo (range 0 n))

  -- On a georeferenced image with a level, a band of the image and a fetch that answers tile by
  -- tile, for the entries of a row in the two list columns: `RS_Values` returns a list exactly if
  -- `RS_Value` returns for every element without a NULL coordinate, and the list has their values
  -- at the places of the elements and NULL at the others. No element is read past the end of its
  -- slice.
  pub answer_values-elements :
      (i j xo yo n : ℕ) (result : List (Option F))
      → get_elem? xs.entries i ≡ some (some (xo, n))
      → get_elem? ys.entries j ≡ some (some (yo, n))
      → (answer_values xs ys path c (xo, yo, n, some b) ≡ ok (some result))
        ↔ (try_map (λ k. value_of (xs.child (xo + k)) (ys.child (yo + k))) (range 0 n) ≡ ok result)
  unfolding answer_values points places
  answer_values-elements i j xo yo n result ex ey =
      let gathered : gather xs ys xo yo (range 0 n) ≡ ok (kept xs ys xo yo (range 0 n)) =
        gather_lem xs ys xo yo (range 0 n) (
          All-range (λ k. (xo + k < max_end xs.entries) × (yo + k < max_end ys.entries)) 0 n
            (λ k h h'. (
              omega (arith, max_end-ge xs.entries i xo n ex),
              omega (arith, max_end-ge ys.entries j yo n ey),
            ))) in
      let ks : List ℕ = range 0 n in
      let ps : List (F × F) = points xs ys xo yo single ks in
      let reduce : answer_values xs ys path c (xo, yo, n, some b) ≡ (
          batch xs ys path c ps (some b) >>= λ vs.
          scatter (replicate n none) (places xs ys xo yo ks) vs >>= λ r. ok (some r)) =
        rw (gathered) refl in
      let each_one : try_map (λ k. value_of (xs.child (xo + k)) (ys.child (yo + k))) ks
          ≡ (try_map single ps >>= λ vs. ok (merged xs ys xo yo ks vs)) =
        ap (λ f. try_map f ks)
          (fun_ext (λ k. value_of-one xo yo (xs.child (xo + k)) (ys.child (yo + k))))
        ∙ one_by_one xs ys xo yo single ks in
      (
        λ e.
            let (vs, p, e1) = bind-eq_ok (batch xs ys path c ps (some b)) _ (sym reduce ∙ e) in
            let singles : try_map single ps ≡ ok vs = (batch-ok_iff ps vs).0 p in
            let placed : scatter (replicate n none) (places xs ys xo yo ks) vs
                ≡ ok (merged xs ys xo yo ks vs) =
              scatter_lem xs ys xo yo [] 0 n vs refl (fits xo yo n vs singles) in
            let done : ◌≡◌ {A = S (Option (List (Option F)))} (ok (some (merged xs ys xo yo ks vs)))
                (ok (some result)) =
              rw (placed) at e1 in
            let same : merged xs ys xo yo ks vs ≡ result = cc in
            each_one ∙ rw (singles) (ap ok same),
        λ e.
            let (vs, singles, e1) = bind-eq_ok (try_map single ps) _ (sym each_one ∙ e) in
            let placed : scatter (replicate n none) (places xs ys xo yo ks) vs
                ≡ ok (merged xs ys xo yo ks vs) =
              scatter_lem xs ys xo yo [] 0 n vs refl (fits xo yo n vs singles) in
            let same : merged xs ys xo yo ks vs ≡ result = cc in
            reduce ∙ rw ((batch-ok_iff ps vs).1 singles) (rw (placed) (ap (λ l. ok (some l)) same)),
      )
