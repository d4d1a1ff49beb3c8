-- ===== src/TileCache/Invariant.antt =====
-- The invariant of the tile cache: no key twice, `used` is the sum of the resident bytes and is
-- within the budget, no entry is newer than the clock.
use duckdb_cog.Base.{
  ℕ, ◌+◌, ◌≤◌, ◌≡◌, inl, inr, arith, Option, none, some, List, [], ◌∷◌, Bool-cases,
}
use duckdb_cog.TileCache.Assoc.{Key, key_eq, lookup, insert, remove, Distinct}
use duckdb_cog.TileCache.{Slot, Cache}

module _ {ℓ} {V : Type ℓ} where
  abbrev pub slot_bytes : Slot V → ℕ
  slot_bytes (Slot.ready arr bytes last_used) = bytes
  slot_bytes (Slot.pending sig) = 0

  abbrev pub resident_bytes : List (Key × Slot V) → ℕ
  resident_bytes [] = 0
  resident_bytes ((k, s) ∷ m) = slot_bytes s + resident_bytes m

  abbrev pub found_bytes : Option (Slot V) → ℕ
  found_bytes none = 0
  found_bytes (some s) = slot_bytes s

  abbrev pub UsedBy : ℕ → Slot V → Type 0
  UsedBy t (Slot.ready arr bytes last_used) = last_used ≤ t
  UsedBy t (Slot.pending sig) = Unit

  abbrev pub AllUsedBy : ℕ → List (Key × Slot V) → Type 0
  AllUsedBy t [] = Unit
  AllUsedBy t ((k, s) ∷ m) = UsedBy t s × AllUsedBy t m

  -- What holds also between the insertion of `fulfill` and its eviction loop.
  pub record IsCounted (c : Cache V) : Type ℓ where
    pub distinct : Distinct c.slots
    pub counted : c.used ≡ resident_bytes c.slots
    pub recent : AllUsedBy c.tick c.slots

  pub record IsValid (c : Cache V) : Type ℓ where
    pub books : IsCounted c
    pub budget : c.used ≤ c.max_bytes

  pub resident_bytes-insert :
      (k : Key) (s : Slot V) (m : List (Key × Slot V))
      → resident_bytes (insert k s m) + found_bytes (lookup k m) ≡ resident_bytes m + slot_bytes s
  unfolding lookup insert
  resident_bytes-insert k s [] = omega arith
  resident_bytes-insert k s ((j, b) ∷ m) = ground (arith, resident_bytes-insert k s m)

  pub resident_bytes-remove :
      (k : Key) (m : List (Key × Slot V))
      → resident_bytes (remove k m) + found_bytes (lookup k m) ≡ resident_bytes m
  unfolding lookup remove
  resident_bytes-remove k [] = omega arith
  resident_bytes-remove k ((j, b) ∷ m) = ground (arith, resident_bytes-remove k m)

  pub UsedBy-mono : (t t' : ℕ) (s : Slot V) → t ≤ t' → UsedBy t s → UsedBy t' s
  UsedBy-mono t t' (Slot.ready arr bytes last_used) h u = omega arith
  UsedBy-mono t t' (Slot.pending sig) h u = tt

  pub AllUsedBy-mono :
      (t t' : ℕ) (m : List (Key × Slot V)) → t ≤ t' → AllUsedBy t m → AllUsedBy t' m
  AllUsedBy-mono t t' [] h u = tt
  AllUsedBy-mono t t' ((k, s) ∷ m) h u = (UsedBy-mono t t' s h u.0, AllUsedBy-mono t t' m h u.1)

  pub AllUsedBy-insert :
      (t : ℕ) (k : Key) (s : Slot V) (m : List (Key × Slot V))
      → UsedBy t s
      → AllUsedBy t m
      → AllUsedBy t (insert k s m)
  unfolding insert
  AllUsedBy-insert t k s [] h u = (h, tt)
  AllUsedBy-insert t k s ((j, b) ∷ m) h u = elim (Bool-cases (key_eq j k)) [
    | inl e ↦ rw e (h, u.1)
    | inr e ↦ rw e (u.0, AllUsedBy-insert t k s m h u.1)
  ]

  pub AllUsedBy-remove :
      (t : ℕ) (k : Key) (m : List (Key × Slot V)) → AllUsedBy t m → AllUsedBy t (remove k m)
  unfolding remove
  AllUsedBy-remove t k [] u = tt
  AllUsedBy-remove t k ((j, b) ∷ m) u = elim (Bool-cases (key_eq j k)) [
    | inl e ↦ rw e u.1
    | inr e ↦ rw e (u.0, AllUsedBy-remove t k m u.1)
  ]

  UsedBy-ready :
      {t : ℕ} (s : Slot V) {arr : V} {bytes u : ℕ}
      → some s ≡ some (Slot.ready arr bytes u)
      → UsedBy t s
      → u ≤ t
  UsedBy-ready (Slot.ready arr bytes u) e h = ground arith
  UsedBy-ready (Slot.pending sig) e h = absurd (ground arith)

  pub AllUsedBy-lookup :
      (t : ℕ) (k : Key) (m : List (Key × Slot V)) (arr : V) (bytes u : ℕ)
      → lookup k m ≡ some (Slot.ready arr bytes u)
      → AllUsedBy t m
      → u ≤ t
  unfolding lookup
  AllUsedBy-lookup t k [] arr bytes u e a = absurd (ground arith)
  AllUsedBy-lookup t k ((j, s) ∷ m) arr bytes u e a = elim (Bool-cases (key_eq j k)) [
    | inl same ↦ used_of (rw same at e) a.0
    | inr other ↦ AllUsedBy-lookup t k m arr bytes u (rw other at e) a.1
  ]
    where
      used_of : some s ≡ some (Slot.ready arr bytes u) → UsedBy t s → u ≤ t
      used_of e h = UsedBy-ready s e h
