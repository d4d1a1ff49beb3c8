-- ===== src/TileCache/OneThread/Settling.antt =====
-- What the claims of a row and the publishing of its tiles leave pending.
use duckdb_cog.Base.{
  ℕ, ◌+◌, ◌≡◌, ◌⊎◌, inl, inr, refl, sym, ◌∙◌, arith, Bool, true, false, Option, none, some, List,
  [], ◌∷◌, ◌||◌, length, Bool-cases,
}
use duckdb_cog.TileCache.Assoc.{
  Key, key_eq, key_eq→eq, lookup, insert, remove, Distinct, lookup-insert, lookup-remove,
}
use duckdb_cog.TileCache.{
  Slot, Cache, claim_found, claim_one, publish, enforce, fulfill, abort_slot, abort, settle,
}
use duckdb_cog.TileCache.Invariant.{IsValid}
use duckdb_cog.TileCache.Eviction.{enforce-Kept, Resident}
use duckdb_cog.TileCache.Preservation.{publish-IsCounted, fulfill-IsValid, abort-IsValid}
use duckdb_cog.TileCache.Retention.{lookup-fulfill}
use duckdb_cog.TileCache.OneThread.{publish_all}

abbrev pub is_pending {ℓ} : {V : Type ℓ} → Option (Slot V) → Bool
is_pending none = false
is_pending (some (Slot.ready arr bytes last_used)) = false
is_pending (some (Slot.pending sig)) = true

abbrev pub member : Key → List Key → Bool
member k [] = false
member k (j ∷ ks) = key_eq j k || member k ks

module _ {ℓ} {V : Type ℓ} where
  -- A claim of the tile would not wait.
  abbrev pub Free : Cache V → Key → Type 0
  Free c k = is_pending (lookup k c.slots) ≡ false

  inserted :
      (key q : Key) (s : Slot V) (m : List (Key × Slot V))
      → is_pending (some s) ≡ false
      → (key_eq key q ≡ true) ⊎ (is_pending (lookup q m) ≡ false)
      → is_pending (lookup q (insert key s m)) ≡ false
  inserted key q s m ready h = rw (lookup-insert key q s m) (elim (Bool-cases (key_eq key q)) [
    | inl same ↦ rw (same) ready
    | inr other ↦ rw (other) (left other h)
  ])
    where
      left :
          key_eq key q ≡ false
          → (key_eq key q ≡ true) ⊎ (is_pending (lookup q m) ≡ false)
          → is_pending (lookup q m) ≡ false
      left other (inl same) = absurd (ground arith)
      left other (inr f) = f

  publish-Free :
      (key q : Key) (arr : V) (bytes : ℕ) (c : Cache V)
      → (key_eq key q ≡ true) ⊎ Free c q
      → Free (publish key arr bytes c) q
  unfolding publish
  publish-Free key q arr bytes c h =
      inserted key q (Slot.ready arr bytes (c.tick + 1)) c.slots refl h

  fulfill-Free :
      (key q : Key) (arr : V) (bytes : ℕ) (c : Cache V)
      → IsValid c
      → (key_eq key q ≡ true) ⊎ Free c q
      → Free (fulfill key arr bytes c) q
  fulfill-Free key q arr bytes c v h = rw (lookup-fulfill key q arr bytes c) (
      go (
        enforce-Kept (length (publish key arr bytes c).slots) (publish key arr bytes c)
          (publish-IsCounted key arr bytes c v.books) q))
    where
      published : Free (publish key arr bytes c) q
      published = publish-Free key q arr bytes c h

      go :
          (lookup q
                (enforce (length (publish key arr bytes c).slots) (publish key arr bytes c)).slots
              ≡ lookup q (publish key arr bytes c).slots)
            ⊎ ((lookup q
                    (enforce
                      (length (publish key arr bytes c).slots)
                      (publish key arr bytes c)).slots
                  ≡ none)
                × ((w : ℕ) × Resident (publish key arr bytes c).slots q w))
          → Free (enforce (length (publish key arr bytes c).slots) (publish key arr bytes c)) q
      go (inl same) = rw (same) published
      go (inr gone) = rw (gone.0) refl

  removed :
      (key q : Key) (m : List (Key × Slot V))
      → Distinct m
      → (key_eq key q ≡ true) ⊎ (is_pending (lookup q m) ≡ false)
      → is_pending (lookup q (remove key m)) ≡ false
  removed key q m d h = rw (lookup-remove key q m d) (elim (Bool-cases (key_eq key q)) [
    | inl same ↦ rw (same) refl
    | inr other ↦ rw (other) (left other h)
  ])
    where
      left :
          key_eq key q ≡ false
          → (key_eq key q ≡ true) ⊎ (is_pending (lookup q m) ≡ false)
          → is_pending (lookup q m) ≡ false
      left other (inl same) = absurd (ground arith)
      left other (inr f) = f

  abort_slot-Free :
      (key q : Key) (c : Cache V) (s : Option (Slot V))
      → lookup key c.slots ≡ s
      → IsValid c
      → (key_eq key q ≡ true) ⊎ Free c q
      → Free (abort_slot key c s) q
  unfolding abort_slot settle
  abort_slot-Free key q c none e v (inl same) = rw (← key_eq→eq key q same, e) refl
  abort_slot-Free key q c none e v (inr f) = f
  abort_slot-Free key q c (some (Slot.ready arr bytes u)) e v h =
      inserted key q (Slot.ready arr bytes u) (remove key c.slots) refl
        (inr (removed key q c.slots v.books.distinct h))
  abort_slot-Free key q c (some (Slot.pending sig)) e v h = removed key q c.slots v.books.distinct h

  abort-Free :
      (key q : Key) (c : Cache V)
      → IsValid c
      → (key_eq key q ≡ true) ⊎ Free c q
      → Free (abort key c) q
  unfolding abort
  abort-Free key q c v h = abort_slot-Free key q c (lookup key c.slots) refl v h

  -- Publishing the tiles of a row, or giving them up, leaves none of them pending.
  pub publish_all-Free :
      (own : List Key) (tiles : List (V × ℕ)) (c : Cache V) (q : Key)
      → IsValid c
      → (member q own ≡ true) ⊎ Free c q
      → Free (publish_all own tiles c) q
  unfolding publish_all
  publish_all-Free [] tiles c q v (inl m) = absurd (ground arith)
  publish_all-Free [] tiles c q v (inr f) = f
  publish_all-Free (k ∷ own) [] c q v h = elim (Bool-cases (member q own)) [
    | inl later ↦ publish_all-Free own [] (abort k c) q (abort-IsValid k c v) (inl later)
    | inr now ↦
        publish_all-Free own [] (abort k c) q (abort-IsValid k c v)
          (inr (abort-Free k q c v (head now h)))
  ]
    where
      head :
          member q own ≡ false
          → (member q (k ∷ own) ≡ true) ⊎ Free c q
          → (key_eq k q ≡ true) ⊎ Free c q
      head now (inl m) = inl (ground arith)
      head now (inr f) = inr f
  publish_all-Free (k ∷ own) ((arr, bytes) ∷ tiles) c q v h = elim (Bool-cases (member q own)) [
    | inl later ↦
        publish_all-Free own tiles (fulfill k arr bytes c) q (fulfill-IsValid k arr bytes c v)
          (inl later)
    | inr now ↦
        publish_all-Free own tiles (fulfill k arr bytes c) q (fulfill-IsValid k arr bytes c v)
          (inr (fulfill-Free k q arr bytes c v (head now h)))
  ]
    where
      head :
          member q own ≡ false
          → (member q (k ∷ own) ≡ true) ⊎ Free c q
          → (key_eq k q ≡ true) ⊎ Free c q
      head now (inl m) = inl (ground arith)
      head now (inr f) = inr f

  -- A tile that the cache holds stays held, whatever tile is claimed.
  abbrev pub Held : Cache V → Key → Type ℓ
  Held c q = (arr : V) × (bytes : ℕ) × (u : ℕ) × (lookup q c.slots ≡ some (Slot.ready arr bytes u))

  reinserted :
      (key q : Key) (arr : V) (bytes u : ℕ) (c : Cache V)
      → Held c q
      → Held (record c { hits = c.hits + 1; slots = insert key (Slot.ready arr bytes u) c.slots }) q
  reinserted key q arr bytes u c (a, b, w, e) = elim (Bool-cases (key_eq key q)) [
    | inl same ↦
        (arr, bytes, u, rw (lookup-insert key q (Slot.ready arr bytes u) c.slots, same) refl)
    | inr other ↦ (a, b, w, rw (lookup-insert key q (Slot.ready arr bytes u) c.slots, other) e)
  ]

  claim_found-Held :
      (key q : Key) (c : Cache V) (s : Option (Slot V))
      → lookup key c.slots ≡ s
      → Held c q
      → Held (claim_found false key c s).0 q
  unfolding claim_found
  claim_found-Held key q c (some (Slot.ready arr bytes u)) e h =
      reinserted key q arr bytes c.tick c h
  claim_found-Held key q c (some (Slot.pending sig)) e h = h
  claim_found-Held key q c none e (a, b, w, held) = elim (Bool-cases (key_eq key q)) [
    | inl same ↦
        let h : ◌≡◌ {A = Option (Slot V)} (some (Slot.ready a b w)) none =
          sym held ∙ (rw (← key_eq→eq key q same) e) in
        cc
    | inr other ↦
        (a, b, w, rw (lookup-insert key q (Slot.pending c.next_signal) c.slots, other) held)
  ]

  pub claim_one-Held : (key q : Key) (c : Cache V) → Held c q → Held (claim_one false key c).0 q
  unfolding claim_one
  claim_one-Held key q c h =
      claim_found-Held key q (record c { tick = c.tick + 1 }) (lookup key c.slots) refl h
