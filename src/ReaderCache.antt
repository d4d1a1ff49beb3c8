-- ===== src/ReaderCache.antt =====
-- crates/engine/src/cache.rs: the cache of open readers by address. A section that holds the lock
-- is a function of the state and of the time that it reads; an opener is the outcome it has.
pub mod Bounds
pub mod Kept
mod Tests
use duckdb_cog.Base.{
  ℕ, zero, suc, ◌+◌, ◌-◌, ◌||◌, ◌&&◌, Bool, true, false, not, Option, none, some, List, [], ◌∷◌,
  Result, ok, err, ltb, leb, if◌then◌else◌, length,
}
use duckdb_cog.Base.Texts.{Text, text_eq}

-- `Entry`, at the time of its insertion.
pub record Entry (V : Type 0) : Type 0 where
  pub cog : V
  pub inserted : ℕ

-- `ReaderCache`.
pub record ReaderCache (V : Type 0) : Type 0 where
  pub ttl : ℕ
  pub max_readers : ℕ
  pub entries : List (Text × Entry V)

module _ {V : Type 0} where
  -- `ReaderCache::new`.
  unfoldable pub new : ℕ → ℕ → ReaderCache V
  new ttl max_readers = record { ttl = ttl; max_readers = max_readers; entries = [] }

  -- `HashMap::get`, `insert` and `remove`.
  pub find : Text → List (Text × Entry V) → Option (Entry V)
  find k [] = none
  find k ((j, e) ∷ m) = if text_eq j k then some e else find k m

  pub put : Text → Entry V → List (Text × Entry V) → List (Text × Entry V)
  put k e [] = (k, e) ∷ []
  put k e ((j, f) ∷ m) = if text_eq j k then (k, e) ∷ m else (j, f) ∷ put k e m

  pub drop_key : Text → List (Text × Entry V) → List (Text × Entry V)
  drop_key k [] = []
  drop_key k ((j, f) ∷ m) = if text_eq j k then m else (j, f) ∷ drop_key k m

  -- `e.inserted.elapsed() < ttl` at a time.
  pub is_fresh : ℕ → ℕ → Entry V → Bool
  is_fresh now ttl e = ltb (now - e.inserted) ttl

  -- The first section: a hit that is fresh.
  unfoldable pub lookup_fresh : ℕ → Text → ReaderCache V → Option V
  unfolding find is_fresh
  lookup_fresh now key c =
      if ltb 0 c.ttl
      then elim (find key c.entries) [
        | none ↦ none
        | some e ↦ if is_fresh now c.ttl e then some e.cog else none
      ]
      else none

  -- `map.retain`.
  pub retain_fresh : ℕ → ℕ → List (Text × Entry V) → List (Text × Entry V)
  unfolding is_fresh
  retain_fresh now ttl [] = []
  retain_fresh now ttl ((k, e) ∷ m) =
      let rest = retain_fresh now ttl m in if is_fresh now ttl e then (k, e) ∷ rest else rest

  -- `min_by_key` on the times of insertion: the first least entry of the iteration.
  pub oldest : List (Text × Entry V) → Option (Text × ℕ)
  oldest [] = none
  oldest ((k, e) ∷ m) = elim (oldest m) [
    | none ↦ some (k, e.inserted)
    | some (j, t) ↦ if ltb t e.inserted then some (j, t) else some (k, e.inserted)
  ]

  is_missing : Option (Entry V) → Bool
  is_missing none = true
  is_missing (some e) = false

  pub make_room : ℕ → Text → List (Text × Entry V) → List (Text × Entry V)
  unfolding oldest drop_key is_missing find
  make_room max_readers key m =
      if leb max_readers (length m) && is_missing (find key m)
      then elim (oldest m) [ none ↦ m | some (k, t) ↦ drop_key k m ]
      else m

  -- The second section: the reader that was opened is kept.
  unfoldable pub keep : ℕ → Text → V → ReaderCache V → ReaderCache V
  unfolding retain_fresh make_room put
  keep now key cog c =
      if ltb 0 c.ttl
      then record c {
        entries =
            put key (record { cog = cog; inserted = now })
              (make_room c.max_readers key (retain_fresh now c.ttl c.entries));
      }
      else c

  -- `get_or_open`, which finds the cache as `c` and, after the opener, as `c'`.
  unfoldable pub get_or_open {ℓ} :
      {E : Type ℓ}
      → ℕ
      → ReaderCache V
      → ℕ
      → ReaderCache V
      → Text
      → Result E V
      → ReaderCache V × Result E V
  get_or_open now c later c' key opener = elim (lookup_fresh now key c) [
    | some cog ↦ (c, ok cog)
    | none ↦ elim opener [ err e ↦ (c', err e) | ok cog ↦ (keep later key cog c', ok cog) ]
  ]
