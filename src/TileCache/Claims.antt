-- ===== src/TileCache/Claims.antt =====
-- What a claim answers and leaves behind, by what the cache holds for the key.
use duckdb_cog.Base.{ℕ, ◌+◌, ◌≡◌, refl, Bool, none, some}
use duckdb_cog.TileCache.Assoc.{Key, lookup, insert}
use duckdb_cog.TileCache.{Slot, Cache, Claim, claim_found, claim_one}

module _ {ℓ} {V : Type ℓ} where
  pub claim_one-absent :
      (wasm : Bool) (key : Key) (c : Cache V)
      → lookup key c.slots ≡ none
      → ((claim_one wasm key c).1 ≡ Claim.mine)
        × ((claim_one wasm key c).0.slots ≡ insert key (Slot.pending c.next_signal) c.slots)
  unfolding claim_one claim_found
  claim_one-absent wasm key c e = (rw (e, claim_found) refl, rw (e, claim_found) refl)

  pub claim_one-ready :
      (wasm : Bool) (key : Key) (c : Cache V) (arr : V) (bytes u : ℕ)
      → lookup key c.slots ≡ some (Slot.ready arr bytes u)
      → ((claim_one wasm key c).1 ≡ Claim.hit arr)
        × ((claim_one wasm key c).0.slots ≡ insert key (Slot.ready arr bytes (c.tick + 1)) c.slots)
  unfolding claim_one claim_found
  claim_one-ready wasm key c arr bytes u e = (rw (e, claim_found) refl, rw (e, claim_found) refl)
