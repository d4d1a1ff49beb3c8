-- ===== src/Pixel/Reader/Cached.antt =====
-- `fetch_decoded` of a reader with a tile cache, with nothing between its claims and its outcome.
pub mod Settled
pub mod Transparency
mod Tests
use duckdb_cog.Base.{
  ℕ, zero, suc, ◌+◌, ◌*◌, Bool, true, false, Option, none, some, List, [], ◌∷◌, map, Result, ok,
  err, ◌>>=◌, length,
}
use duckdb_cog.TileCache.Assoc.{Key}
use duckdb_cog.TileCache.{Cache, Claim, claim_one, fulfill, abort}
use duckdb_cog.Pixel.{
  TypedArray, bool_data, uint_8, uint_16, uint_32, uint_64, int_8, int_16, int_32, int_64, float_32,
  float_64, Array,
}
use duckdb_cog.Pixel.Reader.{Failure, error, panic, M, IfdReader, CogReader, as_tiff}

module _ {F : Type 0} where
  -- `array_bytes`, by the sizes of the samples.
  unfoldable pub array_bytes : TypedArray F → ℕ
  array_bytes (bool_data d) = length d
  array_bytes (uint_8 d) = length d
  array_bytes (uint_16 d) = 2 * length d
  array_bytes (uint_32 d) = 4 * length d
  array_bytes (uint_64 d) = 8 * length d
  array_bytes (int_8 d) = length d
  array_bytes (int_16 d) = 2 * length d
  array_bytes (int_32 d) = 4 * length d
  array_bytes (int_64 d) = 8 * length d
  array_bytes (float_32 d) = 4 * length d
  array_bytes (float_64 d) = 8 * length d

-- The key of a tile for a reader and a level.
abbrev pub tile_key : ℕ → ℕ → ℕ × ℕ → Key
tile_key reader level t = record { reader = reader; level = level; tile_x = t.0; tile_y = t.1 }

abbrev with_claim {ℓ} :
    {V : Type ℓ} → Claim V → Option (Cache V × List (Claim V)) → Option (Cache V × List (Claim V))
with_claim a none = none
with_claim a (some (c, claims)) = some (c, a ∷ claims)

module _ {V : Type 0} where
  -- `TileCache::claim`; `none` where it blocks on a key that another call is fetching.
  pub claim_all : Bool → List Key → Cache V → Option (Cache V × List (Claim V))
  claim_all wasm [] c = some (c, [])
  claim_all wasm (k ∷ ks) c =
      let r = claim_one wasm k c in
      let rest = claim_all wasm ks r.0 in
      elim r.1 [
        | Claim.hit a ↦ with_claim (Claim.hit a) rest
        | Claim.mine ↦ with_claim Claim.mine rest
        | Claim.wait sig ↦ none
      ]

  -- The tiles that are this call's to fetch.
  pub missed : List (ℕ × ℕ) → List (Claim V) → List (ℕ × ℕ)
  missed [] claims = []
  missed (t ∷ ts) [] = []
  missed (t ∷ ts) (Claim.hit a ∷ claims) = missed ts claims
  missed (t ∷ ts) (Claim.mine ∷ claims) = t ∷ missed ts claims
  missed (t ∷ ts) (Claim.wait sig ∷ claims) = missed ts claims

  pub abort_all : List Key → Cache V → Cache V
  abort_all [] c = c
  abort_all (k ∷ ks) c = abort_all ks (abort k c)

  -- The slots of `out`, the fetched ones in their order; an empty slot is a panic.
  pub fill : List (Claim V) → List V → M (List V)
  fill [] fetched = ok []
  fill (Claim.hit a ∷ claims) fetched = do rest ← fill claims fetched; ok (a ∷ rest)
  fill (Claim.mine ∷ claims) (a ∷ fetched) = do rest ← fill claims fetched; ok (a ∷ rest)
  fill (Claim.mine ∷ claims) [] = err panic
  fill (Claim.wait sig ∷ claims) fetched = err panic

module _ {F T : Type 0} where
  -- The loop over the fetched tiles: publish each that decodes; at the first that does not,
  -- abort its key and those after it.
  pub settle_tiles :
      (T → Result (List ℕ) (Array F))
      → List Key
      → List T
      → Cache (Array F)
      → Cache (Array F) × M (List (Array F))
  unfolding abort_all
  settle_tiles decode [] [] c = (c, ok [])
  settle_tiles decode [] (raw ∷ raws) c = (c, err panic)
  settle_tiles decode (k ∷ ks) [] c = (c, ok [])
  settle_tiles decode (k ∷ ks) (raw ∷ raws) c = elim (decode raw) [
    | err e ↦ (abort_all (k ∷ ks) c, err (as_tiff e))
    | ok a ↦
        let next = settle_tiles decode ks raws (fulfill k a (array_bytes a.samples) c) in
        (next.0, next.1 >>= λ rest. ok (a ∷ rest))
  ]

  pub fetch_missed :
      CogReader F T
      → IfdReader T
      → List Key
      → List (ℕ × ℕ)
      → List (Claim (Array F))
      → Cache (Array F)
      → Cache (Array F) × M (List (Array F))
  unfolding settle_tiles abort_all fill
  fetch_missed r ifd keys [] claims c = (c, fill claims [])
  fetch_missed r ifd keys (t ∷ ts) claims c = elim (ifd.fetch_tiles (t ∷ ts)) [
    | err e ↦ (abort_all keys c, err (as_tiff e))
    | ok raws ↦
        let settled = settle_tiles r.decode keys raws c in
        (settled.0, settled.1 >>= λ fetched. fill claims fetched)
  ]

  -- `none` where the call blocks.
  unfoldable pub fetch_cached :
      Bool
      → ℕ
      → ℕ
      → CogReader F T
      → IfdReader T
      → List (ℕ × ℕ)
      → Cache (Array F)
      → Option (Cache (Array F) × M (List (Array F)))
  unfolding claim_all missed fetch_missed
  fetch_cached wasm reader level r ifd tiles c =
      elim (claim_all wasm (map (tile_key reader level) tiles) c) [
        | none ↦ none
        | some (c', claims) ↦
            let misses = missed tiles claims in
            some (fetch_missed r ifd (map (tile_key reader level) misses) misses claims c')
      ]
