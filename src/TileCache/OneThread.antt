-- ===== src/TileCache/OneThread.antt =====
-- The rows that `run_rows` (src/rs_meta.rs) polls on one thread, as far as they use the tile cache:
-- `fetch_decoded` (crates/engine/src/pixel.rs) claims its tiles in one go, awaits the fetch of those
-- that are its own, and publishes them or gives them up. A claim of a pending tile blocks the
-- thread. Rows beyond the cap of `buffered` are not among the rows.
pub mod Blocked
pub mod Settling
pub mod Claiming
pub mod Through
use duckdb_cog.Base.{ℕ, ◌||◌, Bool, true, false, List, [], ◌∷◌, ◌++◌, ◌≡◌, ◌==◌}
use duckdb_cog.TileCache.Assoc.{Key}
use duckdb_cog.TileCache.{Cache, Claim, claim_one, fulfill, abort}

-- A row that is not polled yet, one that awaits the fetch of its tiles, one that is done.
pub data Row : Type 0 where
  queued : List Key → Row
  fetching : List Key → Row
  finished : Row

-- The row that the thread is in: tiles to claim and tiles that are its own, or the signal that the
-- claim of the first of its tiles waits for.
pub data Poll : Type 0 where
  claiming : List Key → List Key → Poll
  waiting : ℕ → List Key → List Key → Poll

-- The thread between two rows, or in a row with rows before and behind it.
pub data Thread {ℓ} (V : Type ℓ) : Type ℓ where
  idle : Cache V → List Row → Thread V
  inside : Cache V → List Row → Poll → List Row → Thread V

unfoldable pub is_settled : ℕ → List ℕ → Bool
is_settled sig [] = false
is_settled sig (s ∷ settled) = s == sig || is_settled sig settled

-- With no tile to fetch the row runs to its end.
unfoldable pub suspended : List Key → Row
suspended [] = finished
suspended (k ∷ own) = fetching (k ∷ own)

module _ {ℓ} {V : Type ℓ} where
  unfoldable pub claimed : Claim V → Key → List Key → List Key → Poll
  claimed (Claim.hit arr) k ks own = claiming ks own
  claimed Claim.mine k ks own = claiming ks (own ++ k ∷ [])
  claimed (Claim.wait sig) k ks own = waiting sig (k ∷ ks) own

  -- Each tile that was fetched, with its bytes; those behind the list are given up.
  unfoldable pub publish_all : List Key → List (V × ℕ) → Cache V → Cache V
  publish_all [] tiles c = c
  publish_all (k ∷ own) [] c = publish_all own [] (abort k c)
  publish_all (k ∷ own) ((arr, bytes) ∷ tiles) c = publish_all own tiles (fulfill k arr bytes c)

  pub data Step : Thread V → Thread V → Type ℓ where
    polls :
        {c : Cache V} (before : List Row) (ks : List Key) (after : List Row)
        → Step (idle c (before ++ queued ks ∷ after)) (inside c before (claiming ks []) after)
    claims :
        {c : Cache V} {before after : List Row} {k : Key} {ks own : List Key}
        → Step
            (inside c before (claiming (k ∷ ks) own) after)
            (inside (claim_one false k c).0 before (claimed (claim_one false k c).1 k ks own) after)
    awaits :
        {c : Cache V} {before after : List Row} {own : List Key}
        → Step (inside c before (claiming [] own) after) (idle c (before ++ suspended own ∷ after))
    wakes :
        {c : Cache V} {before after : List Row} {sig : ℕ} {ks own : List Key}
        → is_settled sig c.settled ≡ true
        → Step
            (inside c before (waiting sig ks own) after)
            (inside c before (claiming ks own) after)
    fetched :
        {c : Cache V} (before : List Row) (own : List Key) (after : List Row) (tiles : List (V × ℕ))
        → Step
            (idle c (before ++ fetching own ∷ after))
            (idle (publish_all own tiles c) (before ++ finished ∷ after))

  pub data Steps (s : Thread V) : Thread V → Type ℓ where
    here : Steps s s
    next : {t u : Thread V} → Steps s t → Step t u → Steps s u
