-- ===== src/TileCache.antt =====
-- crates/engine/src/tile_cache.rs: the byte-bounded LRU cache of decoded tiles with single-flight
-- claims. One call that holds the lock is one function from state to state. A `HashMap` is an
-- association list without repeated keys, a `Signal` the number of its allocation, and its
-- done flag membership in `settled`. Sums of bytes and counters do not wrap.
pub mod Assoc
pub mod Invariant
pub mod Eviction
pub mod Preservation
pub mod Retention
pub mod Claims
pub mod Reachable
pub mod OneThread
pub mod Tests
use duckdb_cog.Base.{
  ℕ, zero, suc, ◌+◌, ◌-◌, ◌*◌, ◌&&◌, ◌||◌, Bool, true, false, Option, none, some, List, [], ◌∷◌,
  ltb, ◌==◌, if◌then◌else◌, length,
}
use Assoc.{Key, key_eq, key_ltb, lookup, insert, remove}

-- `Slot`. The bytes of a resident tile are those of `array_bytes` at its insertion.
pub data Slot {ℓ} (V : Type ℓ) : Type ℓ where
  ready : V → ℕ → ℕ → Slot V
  pending : ℕ → Slot V

-- `State` with the atomics of `Inner`.
pub record Cache {ℓ} (V : Type ℓ) : Type ℓ where
  pub max_bytes : ℕ
  pub next_id : ℕ
  pub hits : ℕ
  pub misses : ℕ
  pub evictions : ℕ
  pub slots : List (Key × Slot V)
  pub used : ℕ
  pub tick : ℕ
  pub next_signal : ℕ
  pub settled : List ℕ

-- `Claim`, or the signal on which `claim_one` goes to wait before it judges the key again.
pub data Claim {ℓ} (V : Type ℓ) : Type ℓ where
  hit : V → Claim V
  mine : Claim V
  wait : ℕ → Claim V

pub record TileCacheStats : Type 0 where
  pub hits : ℕ
  pub misses : ℕ
  pub evictions : ℕ
  pub bytes : ℕ
  pub max_bytes : ℕ

-- `.min()` over the pairs of last use and key.
pub older : ℕ × Key → Option (ℕ × Key) → Option (ℕ × Key)
older p none = some p
older (u, k) (some (v, j)) = if ltb u v || (u == v && key_ltb k j) then some (u, k) else some (v, j)

module _ {ℓ} {V : Type ℓ} where
  -- `TileCache::new`.
  unfoldable pub new : ℕ → Cache V
  new max_bytes = record {
    max_bytes = max_bytes;
    next_id = 0;
    hits = 0;
    misses = 0;
    evictions = 0;
    slots = [];
    used = 0;
    tick = 0;
    next_signal = 0;
    settled = [];
  }

  -- `TileCache::stats`.
  unfoldable pub stats : Cache V → TileCacheStats
  stats c = record {
    hits = c.hits;
    misses = c.misses;
    evictions = c.evictions;
    bytes = c.used;
    max_bytes = c.max_bytes;
  }

  -- `TileCache::register`.
  unfoldable pub register : Cache V → Cache V × ℕ
  register c = (record c { next_id = c.next_id + 1 }, c.next_id)

  pub claim_found : Bool → Key → Cache V → Option (Slot V) → Cache V × Claim V
  claim_found wasm key c (some (Slot.ready arr bytes last_used)) = (
    record c { hits = c.hits + 1; slots = insert key (Slot.ready arr bytes c.tick) c.slots },
    Claim.hit arr,
  )
  claim_found wasm key c (some (Slot.pending sig)) =
      if wasm then (record c { misses = c.misses + 1 }, Claim.mine) else (c, Claim.wait sig)
  claim_found wasm key c none = (
    record c {
      slots = insert key (Slot.pending c.next_signal) c.slots;
      misses = c.misses + 1;
      next_signal = c.next_signal + 1;
    },
    Claim.mine,
  )

  -- One round of the loop of `claim_one`, under the lock; `wasm` is the `cfg!` of the target.
  unfoldable pub claim_one : Bool → Key → Cache V → Cache V × Claim V
  unfolding claim_found
  claim_one wasm key c = claim_found wasm key (record c { tick = c.tick + 1 }) (lookup key c.slots)

  -- The resident entry with the least last use: the next victim.
  pub victim : List (Key × Slot V) → Option (ℕ × Key)
  unfolding older
  victim [] = none
  victim ((k, Slot.ready arr bytes last_used) ∷ m) = older (last_used, k) (victim m)
  victim ((k, Slot.pending sig) ∷ m) = victim m

  pub evict_slot : Key → Cache V → Option (Slot V) → Cache V
  evict_slot k c (some (Slot.ready arr bytes last_used)) = record c {
    slots = remove k c.slots;
    used = c.used - bytes;
    evictions = c.evictions + 1;
  }
  evict_slot k c (some (Slot.pending sig)) = record c { slots = remove k c.slots }
  evict_slot k c none = c

  -- `while st.used > self.0.max_bytes`: a round removes an entry, so the number of entries is
  -- fuel enough (`enforce_within`).
  pub enforce : ℕ → Cache V → Cache V
  unfolding victim evict_slot
  enforce zero c = c
  enforce (suc fuel) c =
      if ltb c.max_bytes c.used
      then elim (victim c.slots) [
        | none ↦ c
        | some (u, k) ↦ enforce fuel (evict_slot k c (lookup k c.slots))
      ]
      else c

  pub settle : Option (Slot V) → Cache V → Cache V
  settle (some (Slot.pending sig)) c = record c { settled = sig ∷ c.settled }
  settle (some (Slot.ready arr bytes last_used)) c = c
  settle none c = c

  -- The bytes that a replaced resident entry gives back.
  pub replaced_bytes : Option (Slot V) → ℕ
  replaced_bytes (some (Slot.ready arr bytes last_used)) = bytes
  replaced_bytes (some (Slot.pending sig)) = 0
  replaced_bytes none = 0

  -- The entry is published and the budget corrected, before the eviction loop.
  pub publish : Key → V → ℕ → Cache V → Cache V
  unfolding replaced_bytes
  publish key arr bytes c = record c {
    tick = c.tick + 1;
    slots = insert key (Slot.ready arr bytes (c.tick + 1)) c.slots;
    used = c.used + bytes - replaced_bytes (lookup key c.slots);
  }

  -- `TileCache::fulfill`; `bytes` is `array_bytes(&arr)`.
  unfoldable pub fulfill : Key → V → ℕ → Cache V → Cache V
  unfolding enforce settle publish
  fulfill key arr bytes c =
      let c' = publish key arr bytes c in settle (lookup key c.slots) (enforce (length c'.slots) c')

  pub abort_slot : Key → Cache V → Option (Slot V) → Cache V
  unfolding settle
  abort_slot key c (some (Slot.pending sig)) =
      settle (some (Slot.pending sig)) (record c { slots = remove key c.slots })
  abort_slot key c (some (Slot.ready arr bytes last_used)) = record c {
    slots = insert key (Slot.ready arr bytes last_used) (remove key c.slots);
  }
  abort_slot key c none = c

  -- `TileCache::abort`.
  unfoldable pub abort : Key → Cache V → Cache V
  unfolding abort_slot
  abort key c = abort_slot key c (lookup key c.slots)
