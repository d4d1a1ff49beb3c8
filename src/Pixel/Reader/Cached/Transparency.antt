-- ===== src/Pixel/Reader/Cached/Transparency.antt =====
-- Reads through a tile cache next to reads without one.
use duckdb_cog.Base.{
  ℕ, ◌+◌, ◌≡◌, ◌↔◌, refl, sym, ap, ◌∙◌, subst, Bool, false, Option, none, some, List, [], ◌∷◌, map,
  Result, ok, err, ◌>>=◌, try_map, bind-eq_ok, All,
}
use duckdb_cog.Float.{Float}
use duckdb_cog.TileCache.Assoc.{Key, key_eq, lookup, insert, lookup-insert}
use duckdb_cog.TileCache.{Slot, Cache, Claim, claim_one}
use duckdb_cog.TileCache.Claims.{claim_one-absent, claim_one-ready}
use duckdb_cog.Pixel.{Array}
use duckdb_cog.Pixel.Reader.{M, Failure, IfdReader, CogReader, as_tiff, fetch_decoded}
use duckdb_cog.Pixel.Reader.Zonal.Fetch.{
  Decodes, Has, Fetched, fetch_decoded_total, fetch_decoded-Has, Fetched-unique,
}
use duckdb_cog.Pixel.Reader.Cached.Settled.{settle_total, settle-Has}
use duckdb_cog.Pixel.Reader.Cached.{
  tile_key, claim_all, missed, fill, settle_tiles, fetch_missed, fetch_cached,
}

module _ {F T : Type 0} ⦃fl : Float F⦄ (r : CogReader F T) (ifd : IfdReader T)
    (tile : ℕ × ℕ → Result (List ℕ) T)
    (each : (ts : List (ℕ × ℕ)) → ifd.fetch_tiles ts ≡ try_map tile ts) (wasm : Bool)
    (reader level : ℕ) where
  key : ℕ × ℕ → Key
  key = tile_key reader level

  -- What the cache holds for a tile: nothing, or its decoded array.
  abbrev pub Faithful : ℕ × ℕ → Option (Slot (Array F)) → Type 0
  Faithful t none = Unit
  Faithful t (some (Slot.ready a bytes last_used)) = Decodes r ifd tile each t a
  Faithful t (some (Slot.pending sig)) = ⊥

  abbrev pub Ready : Cache (Array F) → List (ℕ × ℕ) → Type 0
  Ready c ts = All (λ t. Faithful t (lookup (tile_key reader level t) c.slots)) ts

  abbrev pub Apart : List (ℕ × ℕ) → Type 0
  Apart [] = Unit
  Apart (t ∷ ts) =
      All (λ u. key_eq (tile_key reader level t) (tile_key reader level u) ≡ false) ts × Apart ts

  -- Claims that are true: a hit is the array of its tile.
  Judged : List (ℕ × ℕ) → List (Claim (Array F)) → Type 0
  Judged [] [] = Unit
  Judged [] (a ∷ claims) = ⊥
  Judged (t ∷ ts) [] = ⊥
  Judged (t ∷ ts) (Claim.hit a ∷ claims) = Decodes r ifd tile each t a × Judged ts claims
  Judged (t ∷ ts) (Claim.mine ∷ claims) = Judged ts claims
  Judged (t ∷ ts) (Claim.wait sig ∷ claims) = ⊥

  Ready-insert :
      (t : ℕ × ℕ) (s : Slot (Array F)) (c c' : Cache (Array F)) (ts : List (ℕ × ℕ))
      → c'.slots ≡ insert (key t) s c.slots
      → All (λ u. key_eq (key t) (key u) ≡ false) ts
      → Ready c ts
      → Ready c' ts
  unfolding key
  Ready-insert t s c c' [] e a h = tt
  Ready-insert t s c c' (u ∷ ts) e (other, a) (f, h) =
      let same : lookup (tile_key reader level u) c'.slots
          ≡ lookup (tile_key reader level u) c.slots =
        ap (lookup (tile_key reader level u)) e
        ∙ lookup-insert (tile_key reader level t) (tile_key reader level u) s c.slots
        ∙ rw (other) refl in
      (subst (Faithful u) (sym same) f, Ready-insert t s c c' ts e a h)

  claim_all-Judged :
      (ts : List (ℕ × ℕ)) (c : Cache (Array F))
      → Apart ts
      → Ready c ts
      → (c' : Cache (Array F)) × (claims : List (Claim (Array F))) × (claim_all wasm
            (map (tile_key reader level) ts)
            c
          ≡ some (c', claims))
        × Judged ts claims
  unfolding claim_all Judged key
  claim_all-Judged [] c d h = (c, [], refl, tt)
  claim_all-Judged (t ∷ ts) c (apart, d) (f, h) =
      go (lookup (tile_key reader level t) c.slots) refl f (λ s e.
        claim_all-Judged ts (claim_one wasm (tile_key reader level t) c).0 d
          (Ready-insert t s c (claim_one wasm (tile_key reader level t) c).0 ts e apart h))
    where
      next : Cache (Array F)
      next = (claim_one wasm (tile_key reader level t) c).0

      Rest : Type 0
      Rest =
          (c' : Cache (Array F)) × (claims : List (Claim (Array F))) × (claim_all wasm
              (map (tile_key reader level) ts) next
            ≡ some (c', claims))
          × Judged ts claims

      Goal : Type 0
      Goal =
          (c' : Cache (Array F)) × (claims : List (Claim (Array F))) × (claim_all wasm
              (map (tile_key reader level) (t ∷ ts)) c
            ≡ some (c', claims))
          × Judged (t ∷ ts) claims

      go :
          (o : Option (Slot (Array F)))
          → lookup (tile_key reader level t) c.slots ≡ o
          → Faithful t o
          → ((s : Slot (Array F)) → next.slots ≡ insert (tile_key reader level t) s c.slots → Rest)
          → Goal
      go none e f' rest =
          let (mine, slots) = claim_one-absent wasm (tile_key reader level t) c e in
          let (c', claims, q, j) = rest (Slot.pending c.next_signal) slots in
          (c', Claim.mine ∷ claims, rw (mine, claim_all) (rw (q) refl), j)
      go (some (Slot.ready a bytes u)) e f' rest =
          let (hit, slots) = claim_one-ready wasm (tile_key reader level t) c a bytes u e in
          let (c', claims, q, j) = rest (Slot.ready a bytes (c.tick + 1)) slots in
          (c', Claim.hit a ∷ claims, rw (hit, claim_all) (rw (q) refl), (f', j))
      go (some (Slot.pending sig)) e f' rest = absurd f'

  abbrev HasTile : ℕ × ℕ → Type 0
  HasTile = Has r ifd tile each

  fill_lem :
      (ts : List (ℕ × ℕ)) (claims : List (Claim (Array F))) (fetched : List (Array F))
      → Judged ts claims
      → Fetched r ifd tile each (missed ts claims) fetched
      → (arrays : List (Array F)) × (fill claims fetched ≡ ok arrays)
        × Fetched r ifd tile each ts arrays
  unfolding Judged missed fill
  fill_lem [] [] fetched j f = ([], refl, refl)
  fill_lem [] (a ∷ claims) fetched j f = absurd j
  fill_lem (t ∷ ts) [] fetched j f = absurd j
  fill_lem (t ∷ ts) (Claim.hit a ∷ claims) fetched (d, j) f =
      let (arrays, e, g) = fill_lem ts claims fetched j f in (a ∷ arrays, rw (e) refl, (d, g))
  fill_lem (t ∷ ts) (Claim.mine ∷ claims) [] j f = absurd f
  fill_lem (t ∷ ts) (Claim.mine ∷ claims) (a ∷ fetched) j (d, f) =
      let (arrays, e, g) = fill_lem ts claims fetched j f in (a ∷ arrays, rw (e) refl, (d, g))
  fill_lem (t ∷ ts) (Claim.wait sig ∷ claims) fetched j f = absurd j

  Has-missed :
      (ts : List (ℕ × ℕ)) (claims : List (Claim (Array F)))
      → All HasTile ts
      → All HasTile (missed ts claims)
  unfolding missed
  Has-missed [] claims a = tt
  Has-missed (t ∷ ts) [] a = tt
  Has-missed (t ∷ ts) (Claim.hit x ∷ claims) a = Has-missed ts claims a.1
  Has-missed (t ∷ ts) (Claim.mine ∷ claims) a = (a.0, Has-missed ts claims a.1)
  Has-missed (t ∷ ts) (Claim.wait sig ∷ claims) a = Has-missed ts claims a.1

  missed-Has :
      (ts : List (ℕ × ℕ)) (claims : List (Claim (Array F)))
      → Judged ts claims
      → All HasTile (missed ts claims)
      → All HasTile ts
  unfolding missed Judged
  missed-Has [] [] j a = tt
  missed-Has [] (x ∷ claims) j a = absurd j
  missed-Has (t ∷ ts) [] j a = absurd j
  missed-Has (t ∷ ts) (Claim.hit x ∷ claims) (d, j) a = ((x, d), missed-Has ts claims j a)
  missed-Has (t ∷ ts) (Claim.mine ∷ claims) j (h, a) = (h, missed-Has ts claims j a)
  missed-Has (t ∷ ts) (Claim.wait sig ∷ claims) j a = absurd j

  missed_total :
      (ts ms : List (ℕ × ℕ)) (claims : List (Claim (Array F))) (c : Cache (Array F))
      → missed ts claims ≡ ms
      → Judged ts claims
      → All HasTile ts
      → (arrays : List (Array F)) × ((fetch_missed r ifd
            (map (tile_key reader level) ms)
            ms
            claims
            c).1
          ≡ ok arrays)
        × Fetched r ifd tile each ts arrays
  unfolding fetch_missed
  missed_total ts [] claims c m j a =
      fill_lem ts claims [] j (subst (λ l. Fetched r ifd tile each l []) (sym m) refl)
  missed_total ts (t ∷ ms) claims c m j a =
      let (raws, e, settled) =
        settle_total r ifd tile each reader level (t ∷ ms)
          (subst (λ l. All HasTile l) m (Has-missed ts claims a)) in
      let (fetched, e', f) = settled c in
      let (arrays, e2, g) =
        fill_lem ts claims fetched j (subst (λ l. Fetched r ifd tile each l fetched) (sym m) f) in
      (arrays, rw (each (t ∷ ms), e, fetch_missed) (rw (e') e2), g)

  missed_ok :
      (ts ms : List (ℕ × ℕ)) (claims : List (Claim (Array F))) (c : Cache (Array F))
      {arrays : List (Array F)}
      → missed ts claims ≡ ms
      → Judged ts claims
      → (fetch_missed r ifd (map (tile_key reader level) ms) ms claims c).1 ≡ ok arrays
      → All HasTile ts
  unfolding fetch_missed
  missed_ok ts [] claims c m j e = missed-Has ts claims j (subst (λ l. All HasTile l) (sym m) tt)
  missed_ok ts (t ∷ ms) claims c {arrays} m j e =
      missed-Has ts claims j
        (subst (λ l. All HasTile l) (sym m) (go (ifd.fetch_tiles (t ∷ ms)) refl))
    where
      failed : {w : Failure} → ◌≡◌ {A = M (List (Array F))} (err w) (ok arrays) → ⊥
      failed h = cc

      go : (m : Result (List ℕ) (List T)) → ifd.fetch_tiles (t ∷ ms) ≡ m → All HasTile (t ∷ ms)
      go (err w) q =
          let shape : ◌≡◌ {A = M (List (Array F))} (err (as_tiff w)) (ok arrays) =
            rw (q, fetch_missed) at e in
          absurd (failed shape)
      go (ok raws) q =
          let shape : (settle_tiles r.decode (map (tile_key reader level) (t ∷ ms)) raws c).1
                >>= (λ fetched. fill claims fetched)
              ≡ ok arrays =
            rw (q, fetch_missed) at e in
          let (fetched, e1, e2) =
            bind-eq_ok (settle_tiles r.decode (map (tile_key reader level) (t ∷ ms)) raws c).1 _
              shape in
          settle-Has r ifd tile each reader level (t ∷ ms) raws c {fetched = fetched}
            (sym (each (t ∷ ms)) ∙ q) e1

  agree :
      (ts : List (ℕ × ℕ)) (arrays : List (Array F)) (claims : List (Claim (Array F)))
      (c : Cache (Array F))
      → Judged ts claims
      → (fetch_missed r ifd
          (map (tile_key reader level) (missed ts claims))
          (missed ts claims)
          claims
          c).1
        ≡ ok arrays
      → All HasTile ts
      → fetch_decoded r ifd ts ≡ ok arrays
  agree ts arrays claims c j e a =
      let (xs, e1, f) = missed_total ts (missed ts claims) claims c refl j a in
      let (ys, e2, g) = fetch_decoded_total r ifd tile each ts a in
      let same : xs ≡ ys = Fetched-unique r ifd tile each ts xs ys f g in cc

  agree' :
      (ts : List (ℕ × ℕ)) (arrays : List (Array F)) (claims : List (Claim (Array F)))
      (c : Cache (Array F))
      → Judged ts claims
      → fetch_decoded r ifd ts ≡ ok arrays
      → All HasTile ts
      → (fetch_missed r ifd
          (map (tile_key reader level) (missed ts claims))
          (missed ts claims)
          claims
          c).1
        ≡ ok arrays
  agree' ts arrays claims c j e a =
      let (xs, e1, f) = missed_total ts (missed ts claims) claims c refl j a in
      let (ys, e2, g) = fetch_decoded_total r ifd tile each ts a in
      let same : xs ≡ ys = Fetched-unique r ifd tile each ts xs ys f g in cc

  -- For a fetch that answers each request as its tiles, fetched one by one, would: over a cache
  -- whose slots for the tiles, if any, hold the tiles' own arrays, with tiles of distinct keys, a
  -- read through the cache returns, and it succeeds with given arrays exactly when
  -- the read without a cache succeeds with them.
  pub fetch_cached-transparent :
      (ts : List (ℕ × ℕ)) (c : Cache (Array F))
      → Apart ts
      → Ready c ts
      → (c' : Cache (Array F)) × (res : M (List (Array F))) × (fetch_cached wasm reader level r ifd
            ts c
          ≡ some (c', res))
        × ((arrays : List (Array F)) → (res ≡ ok arrays) ↔ (fetch_decoded r ifd ts ≡ ok arrays))
  unfolding fetch_cached
  fetch_cached-transparent ts c d h =
      let (c', claims, q, j) = claim_all-Judged ts c d h in
      let keys : List Key = map (tile_key reader level) (missed ts claims) in
      let run : Cache (Array F) × M (List (Array F)) =
        fetch_missed r ifd keys (missed ts claims) claims c' in
      (
        run.0,
        run.1,
        rw (q, fetch_cached) refl,
        λ arrays. (
          (λ e. agree ts arrays claims c' j e (missed_ok ts (missed ts claims) claims c' refl j e)),
          (λ e. agree' ts arrays claims c' j e (fetch_decoded-Has r ifd tile each ts e)),
        ),
      )
