-- ===== src/TileCache/OneThread/Blocked.antt =====
-- When the thread is blocked for good.
use duckdb_cog.Base.{ℕ, ◌+◌, ◌≡◌, refl, arith, false, Option, none, some, List, [], ◌∷◌, subst}
use duckdb_cog.TileCache.Assoc.{Key, key_eq_refl, lookup, lookup-insert}
use duckdb_cog.TileCache.{Slot, Cache, Claim, claim_found, claim_one}
use duckdb_cog.TileCache.Claims.{claim_one-absent}
use duckdb_cog.TileCache.OneThread.{
  Row, queued, fetching, claiming, waiting, Thread, idle, inside, is_settled, claimed, suspended,
  Step, polls, claims, awaits, wakes, Steps, here, next,
}

module _ {ℓ} {V : Type ℓ} where
  settled-claim :
      (key : Key) (c : Cache V) (s : Option (Slot V))
      → (claim_found false key c s).0.settled ≡ c.settled
  unfolding claim_found
  settled-claim key c (some (Slot.ready arr bytes last_used)) = refl
  settled-claim key c (some (Slot.pending sig)) = refl
  settled-claim key c none = refl

  settled-claim_one : (k : Key) (c : Cache V) → (claim_one false k c).0.settled ≡ c.settled
  unfolding claim_one
  settled-claim_one k c = settled-claim k (record c { tick = c.tick + 1 }) (lookup k c.slots)

  claim_one-pending :
      (k : Key) (c : Cache V) (sig : ℕ)
      → lookup k c.slots ≡ some (Slot.pending sig)
      → (claim_one false k c).1 ≡ Claim.wait sig
  unfolding claim_one claim_found
  claim_one-pending k c sig e = rw (e, claim_found) refl

  -- A claim whose answer is known.
  Step-claims :
      (c : Cache V) (before after : List Row) (k : Key) (ks own : List Key) (a : Claim V)
      → (claim_one false k c).1 ≡ a
      → Step
          (inside c before (claiming (k ∷ ks) own) after)
          (inside (claim_one false k c).0 before (claimed a k ks own) after)
  Step-claims c before after k ks own a e =
      subst
        (λ x.
          Step (inside c before (claiming (k ∷ ks) own) after)
            (inside (claim_one false k c).0 before (claimed x k ks own) after))
        e claims

  blocked_for_good :
      (c : Cache V) (before after : List Row) (sig : ℕ) (ks own : List Key)
      → is_settled sig c.settled ≡ false
      → (t : Thread V) → ¬ Step (inside c before (waiting sig ks own) after) t
  blocked_for_good c before after sig ks own fresh t (wakes settled) = absurd (ground arith)

  -- Two rows on one thread that need the same tile, which the cache does not hold, and no signal
  -- of the number that the cache allocates next is settled: the thread can come to a state, the
  -- first row awaiting the fetch of the tile and the thread blocked in the second one on the claim
  -- of it, from which there is no step.
  pub Step-blocked :
      (c : Cache V) (k : Key) (ks : List Key) (after : List Row)
      → lookup k c.slots ≡ none
      → is_settled c.next_signal c.settled ≡ false
      → (c' : Cache V) × Steps
          (idle c (queued (k ∷ []) ∷ queued (k ∷ ks) ∷ after))
          (inside c' (fetching (k ∷ []) ∷ []) (waiting c.next_signal (k ∷ ks) []) after)
        × ((t : Thread V)
            → ¬ Step
                (inside c' (fetching (k ∷ []) ∷ []) (waiting c.next_signal (k ∷ ks) []) after)
                t)
  unfolding claimed suspended
  Step-blocked c k ks after e fresh =
      let claimed_once : Cache V = (claim_one false k c).0 in
      let (mine, slots) = claim_one-absent false k c e in
      let pending : lookup k claimed_once.slots ≡ some (Slot.pending c.next_signal) =
        rw (slots)
          (rw (lookup-insert k k (Slot.pending c.next_signal) c.slots, key_eq_refl k) refl) in
      let behind : List Row = queued (k ∷ ks) ∷ after in
      let first : List Row = fetching (k ∷ []) ∷ [] in
      let steps =
        next
          (next
            (next
              (next (next here (polls [] (k ∷ []) behind))
                (Step-claims c [] behind k [] [] Claim.mine mine))
              (awaits {before = []} {after = behind} {own = k ∷ []}))
            (polls first (k ∷ ks) after))
          (Step-claims claimed_once first after k ks [] (Claim.wait c.next_signal)
            (claim_one-pending k claimed_once c.next_signal pending)) in
      (
        (claim_one false k claimed_once).0,
        steps,
        blocked_for_good (claim_one false k claimed_once).0 first after c.next_signal (k ∷ ks) []
            (rw (settled-claim_one k claimed_once, settled-claim_one k c) fresh),
      )
