-- ===== src/TileCache/Retention.antt =====
-- What a claim finds after `fulfill`, and the order of eviction.
use duckdb_cog.Base.{
  ℕ, zero, suc, ◌+◌, ◌-◌, ◌≤◌, ◌<◌, ◌≡◌, ◌⊎◌, inl, inr, refl, sym, ap, ◌∙◌, arith, Bool, true,
  false, none, some, List, [], ◌∷◌, ltb, length, Bool-cases, Option-cases,
}
use duckdb_cog.TileCache.Assoc.{
  Key, key_eq, key_eq→eq, key_eq_refl, lookup, insert, remove, Distinct, lookup-insert,
  lookup-remove, remove-Distinct,
}
use duckdb_cog.TileCache.{
  Slot, Cache, Claim, claim_one, claim_found, victim, enforce, publish, fulfill,
}
use duckdb_cog.TileCache.Invariant.{
  resident_bytes, IsCounted, IsValid, resident_bytes-remove, AllUsedBy-lookup,
}
use duckdb_cog.TileCache.Eviction.{
  Resident, enforce-EvictsOldest, victim_least, victim-Resident, evict_resident, evict-IsCounted,
  same_use,
}
use duckdb_cog.TileCache.Preservation.{settle_same, publish-IsCounted}

module _ {ℓ} {V : Type ℓ} where
  none-Resident :
      (m : List (Key × Slot V))
      → Distinct m
      → ((q : Key) (w : ℕ) → ¬ Resident m q w)
      → resident_bytes m ≡ 0
  unfolding lookup
  none-Resident [] d h = refl
  none-Resident ((j, Slot.ready arr bytes u) ∷ m) d h =
      absurd (h j u (arr, bytes, rw (key_eq_refl j) refl))
  none-Resident ((j, Slot.pending sig) ∷ m) d h = omega (
    arith,
    none-Resident m d.1 (λ q w (arr, bytes, e). h q w (arr, bytes, behind q arr bytes w e)),
  )
    where
      behind :
          (q : Key) (arr : V) (bytes w : ℕ)
          → lookup q m ≡ some (Slot.ready arr bytes w)
          → lookup q ((j, Slot.pending sig) ∷ m) ≡ some (Slot.ready arr bytes w)
      behind q arr bytes w e = ground (arith, key_eq→eq j q)

  -- A resident entry with no other resident beside it accounts for all bytes.
  sole-Resident :
      (m : List (Key × Slot V)) (k : Key) (arr : V) (bytes u : ℕ)
      → Distinct m
      → lookup k m ≡ some (Slot.ready arr bytes u)
      → ((q : Key) (w : ℕ) → key_eq k q ≡ false → ¬ Resident m q w)
      → resident_bytes m ≡ bytes
  sole-Resident m k arr bytes u d e h =
      ground
        (arith, resident_bytes-remove k m, none-Resident (remove k m) (remove-Distinct k m d) gone)
    where
      gone : (q : Key) (w : ℕ) → ¬ Resident (remove k m) q w
      gone q w (a, b, f) = elim (Bool-cases (key_eq k q)) [
        | inl same ↦ ground (arith, lookup-remove k q m d)
        | inr other ↦ h q w other (a, b, sym (lookup-remove k q m d ∙ (rw other)) ∙ f)
      ]

  -- The key is resident and every other resident entry was used before it.
  record IsNewest (c : Cache V) (k : Key) (arr : V) (bytes u : ℕ) : Type ℓ where
    here : lookup k c.slots ≡ some (Slot.ready arr bytes u)
    newest : (q : Key) (w : ℕ) → key_eq k q ≡ false → Resident c.slots q w → w < u

  enforce_retains :
      (fuel : ℕ) (c : Cache V) (k : Key) (arr : V) (bytes u : ℕ)
      → IsCounted c
      → bytes ≤ c.max_bytes
      → IsNewest c k arr bytes u
      → lookup k (enforce fuel c).slots ≡ some (Slot.ready arr bytes u)
  unfolding enforce
  enforce_retains zero c k arr bytes u v fit n = n.here
  enforce_retains (suc fuel) c k arr bytes u v fit n = elim (Bool-cases (ltb c.max_bytes c.used)) [
    | inr fits ↦ rw fits n.here
    | inl over ↦ elim (Option-cases (victim c.slots)) [
      | inl e ↦ rw (over, e) n.here
      | inr ((w, j), e) ↦
          let (a, b, f) = victim-Resident c.slots w j v.distinct e in
          elim (Bool-cases (key_eq j k)) [
            | inl same ↦ absurd (
                budget_kept over (
                  sole-Resident c.slots k arr bytes u v.distinct n.here (λ q x other r.
                    older_than_newest (newest_is_least w j e same q x r) (n.newest q x other r))))
            | inr other ↦
                rw (over, e, evict_resident j c f)
                  (enforce_retains fuel _ k arr bytes u (evict-IsCounted c j a b w v f) fit
                    (still_newest (c.used - b) j other))
          ]
    ]
  ]
    where
      budget_kept : ltb c.max_bytes c.used ≡ true → resident_bytes c.slots ≡ bytes → ⊥
      budget_kept over sole = ground (arith, v.counted)

      newest_is_least :
          (w : ℕ) (j : Key)
          → victim c.slots ≡ some (w, j)
          → key_eq j k ≡ true
          → (q : Key) (x : ℕ) → Resident c.slots q x
          → u ≤ x
      newest_is_least w j e same q x (a, b, f) =
          let (a', b', found) = victim-Resident c.slots w j v.distinct e in
          let uw : u ≡ w =
            same_use c.slots k u w (arr, bytes, n.here)
              (a', b', rw (key_eq→eq j k same) at found) in
          let wx : w ≤ x = victim_least c.slots w j q x a b e f in omega arith

      older_than_newest : {x : ℕ} → u ≤ x → x < u → ⊥
      older_than_newest a b = omega arith

      still_newest :
          (used' : ℕ) (j : Key)
          → key_eq j k ≡ false
          → IsNewest
              (record c { slots = remove j c.slots; used = used'; evictions = c.evictions + 1 })
              k
              arr
              bytes
              u
      still_newest used' j other = record {
        here = lookup-remove j k c.slots v.distinct ∙ (rw other n.here);
        newest = λ q x ne (a, b, f). n.newest q x ne (a, b, unremoved q j a b x f);
      }
        where
          unremoved :
              (q j : Key) (a : V) (b x : ℕ)
              → lookup q (remove j c.slots) ≡ some (Slot.ready a b x)
              → lookup q c.slots ≡ some (Slot.ready a b x)
          unremoved q j a b x f = ground (arith, lookup-remove j q c.slots v.distinct)

  publish-IsNewest :
      (key : Key) (arr : V) (bytes : ℕ) (c : Cache V)
      → IsCounted c
      → IsNewest (publish key arr bytes c) key arr bytes (c.tick + 1)
  unfolding publish
  publish-IsNewest key arr bytes c v = record {
    here = lookup-insert key key _ c.slots ∙ (rw (key_eq_refl key));
    newest = λ q w other (a, b, e). newer q w other a b e;
  }
    where
      newer :
          (q : Key) (w : ℕ)
          → key_eq key q ≡ false
          → (a : V) (b : ℕ)
          → lookup q (insert key (Slot.ready arr bytes (c.tick + 1)) c.slots)
            ≡ some (Slot.ready a b w)
          → w < c.tick + 1
      newer q w other a b e =
          let kept : lookup q c.slots ≡ some (Slot.ready a b w) =
            sym (lookup-insert key q _ c.slots ∙ (rw other)) ∙ e in
          omega (arith, AllUsedBy-lookup c.tick q c.slots a b w kept v.recent)

  publish_budget :
      (key : Key) (arr : V) (bytes : ℕ) (c : Cache V)
      → bytes ≤ c.max_bytes
      → bytes ≤ (publish key arr bytes c).max_bytes
  unfolding publish
  publish_budget key arr bytes c h = h

  pub lookup-fulfill :
      (key q : Key) (arr : V) (bytes : ℕ) (c : Cache V)
      → let c' = publish key arr bytes c in
        lookup q (fulfill key arr bytes c).slots ≡ lookup q (enforce (length c'.slots) c').slots
  unfolding fulfill
  lookup-fulfill key q arr bytes c =
      ap (lookup q) (settle_same (lookup key c.slots) (enforce _ (publish key arr bytes c))).0

  -- A published tile that is no larger than the budget is resident when `fulfill` returns, and
  -- the next claim of its key is a hit on it.
  pub claim-fulfill :
      (wasm : Bool) (key : Key) (arr : V) (bytes : ℕ) (c : Cache V)
      → IsValid c
      → bytes ≤ c.max_bytes
      → (claim_one wasm key (fulfill key arr bytes c)).1 ≡ Claim.hit arr
  unfolding claim_one claim_found
  claim-fulfill wasm key arr bytes c v fit =
      rw
        (lookup-fulfill key key arr bytes c
          ∙ enforce_retains _ _ key arr bytes (c.tick + 1)
              (publish-IsCounted key arr bytes c v.books) (publish_budget key arr bytes c fit)
              (publish-IsNewest key arr bytes c v.books))
        refl

  publish_other :
      (key q : Key) (arr : V) (bytes : ℕ) (c : Cache V)
      → key_eq key q ≡ false
      → lookup q (publish key arr bytes c).slots ≡ lookup q c.slots
  unfolding publish
  publish_other key q arr bytes c other = lookup-insert key q _ c.slots ∙ (rw other)

  -- What `fulfill` does to any other key: the entry stays as it was, or it was resident and is
  -- evicted, and then it was used no later than any other entry that was resident and stays so.
  pub fulfill-EvictsOldest :
      (key : Key) (arr : V) (bytes : ℕ) (c : Cache V)
      → IsValid c
      → (q : Key) → key_eq key q ≡ false
      → (lookup q (fulfill key arr bytes c).slots ≡ lookup q c.slots)
        ⊎ ((lookup q (fulfill key arr bytes c).slots ≡ none)
            × ((w : ℕ) × Resident c.slots q w
                × ((r : Key) (w' : ℕ) → Resident (fulfill key arr bytes c).slots r w' → w ≤ w')))
  fulfill-EvictsOldest key arr bytes c v q other =
      let (kept, oldest) = enforce-EvictsOldest _ _ (publish-IsCounted key arr bytes c v.books) in
      from_kept (kept q) (oldest q)
    where
      before : lookup q (publish key arr bytes c).slots ≡ lookup q c.slots
      before = publish_other key q arr bytes c other

      d : Cache V
      d = enforce (length (publish key arr bytes c).slots) (publish key arr bytes c)

      from_kept :
          (lookup q d.slots ≡ lookup q (publish key arr bytes c).slots)
            ⊎ ((lookup q d.slots ≡ none) × ((w : ℕ) × Resident (publish key arr bytes c).slots q w))
          → ((r : Key) (w w' : ℕ)
              → Resident (publish key arr bytes c).slots q w
              → lookup q d.slots ≡ none
              → Resident d.slots r w'
              → w ≤ w')
          → (lookup q (fulfill key arr bytes c).slots ≡ lookup q c.slots)
            ⊎ ((lookup q (fulfill key arr bytes c).slots ≡ none)
                × ((w : ℕ) × Resident c.slots q w
                    × ((r : Key) (w' : ℕ)
                        → Resident (fulfill key arr bytes c).slots r w'
                        → w ≤ w')))
      from_kept (inl same) oldest = inl (lookup-fulfill key q arr bytes c ∙ same ∙ before)
      from_kept (inr (gone, (w, (a, b, e)))) oldest = inr (
        lookup-fulfill key q arr bytes c ∙ gone,
        (
          w,
          (a, b, sym before ∙ e),
          λ r w' (a', b', f).
              oldest r w w' (a, b, e) gone (a', b', sym (lookup-fulfill key r arr bytes c) ∙ f),
        ),
      )
