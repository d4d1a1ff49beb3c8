-- ===== src/Pixel/Reader/Cached/Settled.antt =====
-- The loop over fetched tiles against what each tile decodes to.
use duckdb_cog.Base.{
  ℕ, ◌≡◌, refl, sym, subst, List, [], ◌∷◌, map, Result, ok, err, ◌>>=◌, try_map, bind-eq_ok, All,
}
use duckdb_cog.Float.{Float}
use duckdb_cog.TileCache.{Cache, fulfill}
use duckdb_cog.Pixel.{Array}
use duckdb_cog.Pixel.Reader.{M, Failure, IfdReader, CogReader, as_tiff}
use duckdb_cog.Pixel.Reader.Zonal.Fetch.{Has, Fetched}
use duckdb_cog.Pixel.Reader.Cached.{array_bytes, tile_key, settle_tiles}

module _ {F T : Type 0} ⦃fl : Float F⦄ (r : CogReader F T) (ifd : IfdReader T)
    (tile : ℕ × ℕ → Result (List ℕ) T)
    (each : (ts : List (ℕ × ℕ)) → ifd.fetch_tiles ts ≡ try_map tile ts) (reader level : ℕ) where
  abbrev HasTile : ℕ × ℕ → Type 0
  HasTile = Has r ifd tile each

  pub settle_total :
      (ms : List (ℕ × ℕ))
      → All HasTile ms
      → (raws : List T) × (try_map tile ms ≡ ok raws)
        × ((c : Cache (Array F))
            → (fetched : List (Array F)) × ((settle_tiles r.decode
                  (map (tile_key reader level) ms)
                  raws
                  c).1
                ≡ ok fetched)
              × Fetched r ifd tile each ms fetched)
  unfolding settle_tiles
  settle_total [] a = ([], refl, λ c. ([], refl, refl))
  settle_total (t ∷ ms) ((a, (raw, p, q)), rest) =
      let (raws, e, settled) = settle_total ms rest in
      (
        raw ∷ raws,
        rw (p, e) refl,
        λ c.
            let (fetched, e', f) =
              settled (fulfill (tile_key reader level t) a (array_bytes a.samples) c) in
            (a ∷ fetched, rw (q, settle_tiles) (rw (e') refl), ((raw, p, q), f)),
      )

  pub settle-Has :
      (ms : List (ℕ × ℕ)) (raws : List T) (c : Cache (Array F)) {fetched : List (Array F)}
      → try_map tile ms ≡ ok raws
      → (settle_tiles r.decode (map (tile_key reader level) ms) raws c).1 ≡ ok fetched
      → All HasTile ms
  unfolding settle_tiles
  settle-Has [] raws c e e' = tt
  settle-Has (t ∷ ms) raws c {fetched} e e' =
      let (raw, p, e1) = bind-eq_ok (tile t) _ e in
      let (rest, q, e2) = bind-eq_ok (try_map tile ms) _ e1 in
      let shape : (settle_tiles r.decode (map (tile_key reader level) (t ∷ ms)) (raw ∷ rest) c).1
          ≡ ok fetched =
        subst
          (λ (l : List T).
            (settle_tiles r.decode (map (tile_key reader level) (t ∷ ms)) l c).1 ≡ ok fetched)
          (sym (ok_inj e2)) e' in
      go raw rest p (r.decode raw) refl shape (λ c' f e3. settle-Has ms rest c' {fetched = f} q e3)
    where
      ok_inj : {l l' : List T} → ◌≡◌ {A = Result (List ℕ) (List T)} (ok l) (ok l') → l ≡ l'
      ok_inj h = cc

      no_ok : {m : Failure} → ◌≡◌ {A = M (List (Array F))} (err m) (ok fetched) → ⊥
      no_ok h = cc

      go :
          (raw : T) (rest : List T)
          → tile t ≡ ok raw
          → (d : Result (List ℕ) (Array F)) → r.decode raw ≡ d
          → (settle_tiles r.decode (map (tile_key reader level) (t ∷ ms)) (raw ∷ rest) c).1
            ≡ ok fetched
          → ((c' : Cache (Array F)) (f : List (Array F))
              → (settle_tiles r.decode (map (tile_key reader level) ms) rest c').1 ≡ ok f
              → All HasTile ms)
          → All HasTile (t ∷ ms)
      go raw rest p (err m) q shape again =
          let failed : ◌≡◌ {A = M (List (Array F))} (err (as_tiff m)) (ok fetched) =
            rw (q, settle_tiles) at shape in
          absurd (no_ok failed)
      go raw rest p (ok a) q shape again =
          let next : Cache (Array F) =
            fulfill (tile_key reader level t) a (array_bytes a.samples) c in
          let shape' : (settle_tiles r.decode (map (tile_key reader level) ms) rest next).1
                >>= (λ l. ok (a ∷ l))
              ≡ ok fetched =
            rw (q, settle_tiles) at shape in
          let (f, e3, e4) =
            bind-eq_ok (settle_tiles r.decode (map (tile_key reader level) ms) rest next).1 _
              shape' in
          ((a, (raw, p, q)), again next f e3)
