-- ===== src/TileCache/Tests.antt =====
-- A tile cache of 100 bytes at work.
use duckdb_cog.Base.{ℕ, some, All, [], ◌∷◌, ◌≤◌, ◌≡◌, ◌⊎◌, refl, arith, false, none}
use duckdb_cog.TileCache.Assoc.{Key, key_eq, key_ltb, lookup, insert, remove, Distinct}
use duckdb_cog.TileCache.{
  Slot, Cache, Claim, new, stats, register, claim_found, claim_one, older, victim, evict_slot,
  enforce, settle, replaced_bytes, publish, fulfill,
}
use duckdb_cog.TileCache.Invariant.{IsValid, resident_bytes}
use duckdb_cog.TileCache.Eviction.{Resident}
use duckdb_cog.TileCache.Retention.{claim-fulfill, fulfill-EvictsOldest}
use duckdb_cog.TileCache.Reachable.{
  Reachable, start, step, claims, fulfills, reachable_lem, Reachable-within,
}
use duckdb_cog.TileCache.OneThread.{
  queued, fetching, finished, waiting, suspended, publish_all, Thread, idle, inside, is_settled,
  Step, Steps,
}
use duckdb_cog.TileCache.OneThread.Blocked.{Step-blocked}
use duckdb_cog.TileCache.OneThread.Settling.{Free}
use duckdb_cog.TileCache.OneThread.Claiming.{Apart, absent, claim_all}
use duckdb_cog.TileCache.OneThread.Through.{Unwaited, Step-through}

program : Unit {0}
unfolding new stats register claim_one claim_found older victim evict_slot enforce settle
    replaced_bytes publish fulfill key_eq key_ltb lookup insert remove
program = tt

abbrev pub first_key : Key
first_key = record { reader = 0; level = 0; tile_x = 0; tile_y = 0 }

abbrev pub second_key : Key
second_key = record { reader = 0; level = 0; tile_x = 1; tile_y = 0 }

-- The first tile is claimed and published with 60 bytes.
abbrev one_tile : Cache ℕ
one_tile = fulfill first_key 7 60 (claim_one false first_key (new 100)).0

one_tile-Reachable : Reachable false 100 one_tile
one_tile-Reachable = step (step start (claims first_key)) (fulfills first_key 7 60)

one_tile-IsValid : IsValid one_tile
one_tile-IsValid = (reachable_lem one_tile one_tile-Reachable).0

-- A second tile of 60 bytes evicts the first.
evicts :
    ((stats (fulfill second_key 8 60 one_tile)).evictions ≡ 1)
    × ((stats (fulfill second_key 8 60 one_tile)).bytes ≡ 60)
unfolding program
evicts = (refl, refl)

room : 60 ≤ one_tile.max_bytes
unfolding program
room = omega arith

other_key : key_eq second_key first_key ≡ false
unfolding program
other_key = refl

claim-fulfill_example :
    (claim_one false second_key (fulfill second_key 8 60 one_tile)).1 ≡ Claim.hit 8
claim-fulfill_example = claim-fulfill false second_key 8 60 one_tile one_tile-IsValid room

fulfill-EvictsOldest_example :
    (lookup first_key (fulfill second_key 8 60 one_tile).slots ≡ lookup first_key one_tile.slots)
    ⊎ ((lookup first_key (fulfill second_key 8 60 one_tile).slots ≡ none)
        × ((w : ℕ) × Resident one_tile.slots first_key w
            × ((r : Key) (w' : ℕ)
                → Resident (fulfill second_key 8 60 one_tile).slots r w'
                → w ≤ w')))
fulfill-EvictsOldest_example =
    fulfill-EvictsOldest second_key 8 60 one_tile one_tile-IsValid first_key other_key

Reachable-within_example :
    Distinct one_tile.slots
    × (one_tile.used ≡ resident_bytes one_tile.slots)
    × (one_tile.used ≤ 100)
Reachable-within_example = Reachable-within one_tile one_tile-Reachable

-- A cache that holds the first tile only.
abbrev pub holding : {V : Type 0} → V → Cache V
holding a = record {
  max_bytes = 100;
  next_id = 1;
  hits = 0;
  misses = 1;
  evictions = 0;
  slots = (first_key, Slot.ready a 4 1) ∷ [];
  used = 4;
  tick = 1;
  next_signal = 1;
  settled = 0 ∷ [];
}

pub holding-first :
    {V : Type 0} (a : V) → lookup first_key (holding a).slots ≡ some (Slot.ready a 4 1)
unfolding program
holding-first a = refl

pub holding-second : {V : Type 0} (a : V) → lookup second_key (holding a).slots ≡ none
unfolding program
holding-second a = refl

pub first-second : key_eq first_key second_key ≡ false
unfolding program
first-second = refl

absent_tile : lookup first_key (new {V = ℕ} 100).slots ≡ none
unfolding program
absent_tile = refl

fresh_signal : is_settled (new {V = ℕ} 100).next_signal (new {V = ℕ} 100).settled ≡ false
unfolding program is_settled
fresh_signal = refl

Step-blocked_example :
    (c' : Cache ℕ) × Steps
      (idle (new 100) (queued (first_key ∷ []) ∷ queued (first_key ∷ second_key ∷ []) ∷ []))
      (inside c'
        (fetching (first_key ∷ []) ∷ [])
        (waiting (new {V = ℕ} 100).next_signal (first_key ∷ second_key ∷ []) [])
        [])
    × ((t : Thread ℕ)
        → ¬ Step
            (inside c'
              (fetching (first_key ∷ []) ∷ [])
              (waiting (new {V = ℕ} 100).next_signal (first_key ∷ second_key ∷ []) [])
              [])
            t)
Step-blocked_example =
    Step-blocked (new 100) first_key (second_key ∷ []) [] absent_tile fresh_signal

two-Apart : Apart (first_key ∷ second_key ∷ [])
unfolding program
two-Apart = (refl, (refl, tt))

two-Free : All (Free one_tile) (first_key ∷ second_key ∷ [])
unfolding program
two-Free = (refl, (refl, tt))

Step-through_example :
    Unwaited (idle one_tile (queued (first_key ∷ second_key ∷ []) ∷ [])) (
      idle
        (claim_all (first_key ∷ second_key ∷ []) one_tile)
        (suspended (absent one_tile (first_key ∷ second_key ∷ [])) ∷ []))
    × Unwaited (idle one_tile (queued (first_key ∷ second_key ∷ []) ∷ [])) (
        idle
          (publish_all
            (absent one_tile (first_key ∷ second_key ∷ []))
            ((8, 60) ∷ [])
            (claim_all (first_key ∷ second_key ∷ []) one_tile))
          (finished ∷ []))
    × All
        (Free (
          publish_all
            (absent one_tile (first_key ∷ second_key ∷ []))
            ((8, 60) ∷ [])
            (claim_all (first_key ∷ second_key ∷ []) one_tile)))
        (first_key ∷ second_key ∷ [])
Step-through_example =
    Step-through one_tile [] (first_key ∷ second_key ∷ []) [] ((8, 60) ∷ []) one_tile-IsValid
      two-Apart two-Free
