-- ===== src/TileCache/Reachable.antt =====
-- The states that any sequence of calls reaches, in any interleaving of the threads: each call
-- holds the lock from its first read of the state to its last write.
use duckdb_cog.Base.{
  ℕ, zero, suc, ◌+◌, ◌≤◌, ◌≡◌, refl, ◌∙◌, subst, inl, inr, Bool, true, false, Option, none, some,
  length, ltb, Option-cases, Bool-cases,
}
use duckdb_cog.TileCache.Assoc.{Key, lookup, remove, Distinct}
use duckdb_cog.TileCache.{
  Slot, Cache, new, register, claim_found, claim_one, victim, evict_slot, enforce, settle, publish,
  fulfill, abort_slot, abort,
}
use duckdb_cog.TileCache.Invariant.{IsValid, resident_bytes}
use duckdb_cog.TileCache.Preservation.{
  new-IsValid, register-IsValid, claim_one-IsValid, fulfill-IsValid, abort-IsValid,
}

module _ {ℓ} {V : Type ℓ} where
  -- The calls of `TileCache`, a claim being one round of its loop.
  pub data Step (wasm : Bool) : Cache V → Cache V → Type ℓ where
    registers : {c : Cache V} → Step wasm c (register c).0
    claims : (key : Key) {c : Cache V} → Step wasm c (claim_one wasm key c).0
    fulfills :
        (key : Key) (arr : V) (bytes : ℕ) {c : Cache V} → Step wasm c (fulfill key arr bytes c)
    aborts : (key : Key) {c : Cache V} → Step wasm c (abort key c)

  pub data Reachable (wasm : Bool) (max_bytes : ℕ) : Cache V → Type ℓ where
    start : Reachable wasm max_bytes (new max_bytes)
    step :
        {c c' : Cache V} → Reachable wasm max_bytes c → Step wasm c c' → Reachable wasm max_bytes c'

  Step-IsValid : (wasm : Bool) {c c' : Cache V} → Step wasm c c' → IsValid c → IsValid c'
  Step-IsValid wasm (registers {c}) v = register-IsValid c v
  Step-IsValid wasm (claims key {c}) v = claim_one-IsValid wasm key c v
  Step-IsValid wasm (fulfills key arr bytes {c}) v = fulfill-IsValid key arr bytes c v
  Step-IsValid wasm (aborts key {c}) v = abort-IsValid key c v

  max_bytes-evict :
      (k : _) (c : Cache V) (s : Option (Slot V)) → (evict_slot k c s).max_bytes ≡ c.max_bytes
  unfolding evict_slot
  max_bytes-evict k c (some (Slot.ready arr bytes last_used)) = refl
  max_bytes-evict k c (some (Slot.pending sig)) = refl
  max_bytes-evict k c none = refl

  max_bytes-enforce : (fuel : ℕ) (c : Cache V) → (enforce fuel c).max_bytes ≡ c.max_bytes
  unfolding enforce
  max_bytes-enforce zero c = refl
  max_bytes-enforce (suc fuel) c = elim (Bool-cases (ltb c.max_bytes c.used)) [
    | inr fits ↦ rw (fits, enforce) refl
    | inl over ↦ elim (Option-cases (victim c.slots)) [
      | inl all_pending ↦ rw (over, all_pending, enforce) refl
      | inr ((u, k), e) ↦
          rw (over, e, enforce)
            (max_bytes-enforce fuel (evict_slot k c (lookup k c.slots))
              ∙ max_bytes-evict k c (lookup k c.slots))
    ]
  ]

  max_bytes-settle : (s : Option (Slot V)) (c : Cache V) → (settle s c).max_bytes ≡ c.max_bytes
  unfolding settle
  max_bytes-settle (some (Slot.ready arr bytes last_used)) c = refl
  max_bytes-settle (some (Slot.pending sig)) c = refl
  max_bytes-settle none c = refl

  max_bytes-claim :
      (wasm : Bool) (key : Key) (c : Cache V) (s : Option (Slot V))
      → (claim_found wasm key c s).0.max_bytes ≡ c.max_bytes
  unfolding claim_found
  max_bytes-claim wasm key c (some (Slot.ready arr bytes last_used)) = refl
  max_bytes-claim true key c (some (Slot.pending sig)) = refl
  max_bytes-claim false key c (some (Slot.pending sig)) = refl
  max_bytes-claim wasm key c none = refl

  max_bytes-abort :
      (key : Key) (c : Cache V) (s : Option (Slot V)) → (abort_slot key c s).max_bytes ≡ c.max_bytes
  unfolding abort_slot
  max_bytes-abort key c (some (Slot.ready arr bytes last_used)) = refl
  max_bytes-abort key c (some (Slot.pending sig)) =
      max_bytes-settle (some (Slot.pending sig)) (record c { slots = remove key c.slots })
  max_bytes-abort key c none = refl

  max_bytes-Step : (wasm : Bool) {c c' : Cache V} → Step wasm c c' → c'.max_bytes ≡ c.max_bytes
  unfolding register claim_one fulfill abort publish
  max_bytes-Step wasm registers = refl
  max_bytes-Step wasm (claims key {c}) =
      max_bytes-claim wasm key (record c { tick = c.tick + 1 }) (lookup key c.slots)
  max_bytes-Step wasm (fulfills key arr bytes {c}) =
      max_bytes-settle (lookup key c.slots)
        (enforce (length (publish key arr bytes c).slots) (publish key arr bytes c))
      ∙ max_bytes-enforce (length (publish key arr bytes c).slots) (publish key arr bytes c)
  max_bytes-Step wasm (aborts key {c}) = max_bytes-abort key c (lookup key c.slots)

  pub reachable_lem :
      {wasm : Bool} {max_bytes : ℕ} (c : Cache V)
      → Reachable wasm max_bytes c
      → IsValid c × (c.max_bytes ≡ max_bytes)
  unfolding new
  reachable_lem {max_bytes = max_bytes} c start = (new-IsValid max_bytes, refl)
  reachable_lem {wasm} c (step {c = c'} r s) =
      let (v, e) = reachable_lem c' r in (Step-IsValid wasm s v, max_bytes-Step wasm s ∙ e)

  -- In every state that calls on a new cache reach, on either target and in any order: no key
  -- has two entries, `used` is the sum of the bytes of the resident tiles, and it is within the
  -- budget that the cache was made with.
  pub Reachable-within :
      {wasm : Bool} {max_bytes : ℕ} (c : Cache V)
      → Reachable wasm max_bytes c
      → Distinct c.slots × (c.used ≡ resident_bytes c.slots) × (c.used ≤ max_bytes)
  Reachable-within c r =
      let (v, e) = reachable_lem c r in
      (v.books.distinct, v.books.counted, subst (λ (n : ℕ). c.used ≤ n) e v.budget)
