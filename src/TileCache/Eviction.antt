-- ===== src/TileCache/Eviction.antt =====
-- The eviction loop of `TileCache::fulfill`: its victims, and its end.
use duckdb_cog.Base.{
  ℕ, zero, suc, ◌+◌, ◌-◌, ◌≤◌, ◌≡◌, ◌≢◌, ◌⊎◌, inl, inr, refl, sym, ◌∙◌, arith, true, Option, none,
  some, List, [], ◌∷◌, ltb, length, Bool-cases, Option-cases,
}
use duckdb_cog.TileCache.Assoc.{
  Key, key_eq, key_eq→eq, key_eq-true_of_eq, lookup, remove, Distinct, lookup-remove,
  remove-Distinct, length-remove,
}
use duckdb_cog.TileCache.{Slot, Cache, older, victim, evict_slot, enforce}
use duckdb_cog.TileCache.Invariant.{
  resident_bytes, IsCounted, resident_bytes-remove, AllUsedBy-remove,
}

older_cases :
    (p : ℕ × Key) (o : Option (ℕ × Key))
    → (older p o ≡ some p) ⊎ ((q : ℕ × Key) × (o ≡ some q) × (older p o ≡ some q))
unfolding older
older_cases p none = inl refl
older_cases (u, k) (some (v, j)) = ground arith

older-le : (u v : ℕ) (k j : Key) (o : Option (ℕ × Key)) → older (v, j) o ≡ some (u, k) → u ≤ v
unfolding older
older-le u v k j none h = ground arith
older-le u v k j (some (x, y)) h = ground arith

older-le_rest : (u v x : ℕ) (k j y : Key) → older (v, j) (some (x, y)) ≡ some (u, k) → u ≤ x
unfolding older
older-le_rest u v x k j y h = ground arith

older-ne-none : (p : ℕ × Key) (o : Option (ℕ × Key)) → older p o ≢ none
unfolding older
older-ne-none p none h = cc
older-ne-none (u, k) (some (v, j)) h = ground arith

module _ {ℓ} {V : Type ℓ} where
  -- The slot under a key is a resident one, last used at the given time.
  abbrev pub Resident : List (Key × Slot V) → Key → ℕ → Type ℓ
  Resident m k u = (arr : V) × (bytes : ℕ) × (lookup k m ≡ some (Slot.ready arr bytes u))

  no_entries : (m : List (Key × Slot V)) → length m ≤ 0 → resident_bytes m ≡ 0
  no_entries [] h = refl
  no_entries (x ∷ m) h = absurd (omega arith)

  -- Nothing resident is left if there is no victim.
  victim-none : (m : List (Key × Slot V)) → victim m ≡ none → resident_bytes m ≡ 0
  unfolding victim older
  victim-none [] h = refl
  victim-none ((k, Slot.ready arr bytes last_used) ∷ m) h = ground arith
  victim-none ((k, Slot.pending sig) ∷ m) h = ground (arith, victim-none m)

  lookup-skip :
      (k q : Key) (s : Slot V) (m : List (Key × Slot V)) {t : Slot V}
      → lookup k m ≡ none
      → lookup q m ≡ some t
      → lookup q ((k, s) ∷ m) ≡ some t
  unfolding lookup
  lookup-skip k q s m a h = elim (Bool-cases (key_eq k q)) [
    | inl e ↦ absurd (absent_twice (rw (key_eq→eq k q e) at a) h)
    | inr e ↦ rw e h
  ]
    where
      absent_twice : {t : Slot V} → lookup q m ≡ none → lookup q m ≡ some t → ⊥
      absent_twice a h = cc

  lookup-head :
      (j k : Key) (arr : V) (bytes v u : ℕ) (m : List (Key × Slot V))
      → ◌≡◌ {A = Option (ℕ × Key)} (some (v, j)) (some (u, k))
      → lookup k ((j, Slot.ready arr bytes v) ∷ m) ≡ some (Slot.ready arr bytes u)
  unfolding lookup
  lookup-head j k arr bytes v u m e = ground (arith, key_eq-true_of_eq j k)

  -- The victim is resident.
  pub victim-Resident :
      (m : List (Key × Slot V)) (u : ℕ) (k : Key)
      → Distinct m
      → victim m ≡ some (u, k)
      → Resident m k u
  unfolding victim
  victim-Resident [] u k d h = cc
  victim-Resident ((j, Slot.pending sig) ∷ m) u k d h =
      let (arr, bytes, e) = victim-Resident m u k d.1 h in
      (arr, bytes, lookup-skip j k (Slot.pending sig) m d.0 e)
  victim-Resident ((j, Slot.ready arr bytes v) ∷ m) u k d h = elim (older_cases (v, j) (victim m)) [
    | inl e ↦ (arr, bytes, lookup-head j k arr bytes v u m (sym e ∙ h))
    | inr (q, e, e') ↦
        let (arr', bytes', f) = victim-Resident m u k d.1 (e ∙ sym e' ∙ h) in
        (arr', bytes', lookup-skip j k (Slot.ready arr bytes v) m d.0 f)
  ]

  no_victim-no_resident :
      (m : List (Key × Slot V)) (q : Key) (w : ℕ) (a : V) (b : ℕ)
      → victim m ≡ none
      → lookup q m ≢ some (Slot.ready a b w)
  unfolding victim lookup
  no_victim-no_resident [] q w a b h e = cc
  no_victim-no_resident ((j, Slot.ready arr bytes v) ∷ m) q w a b h e =
      older-ne-none (v, j) (victim m) h
  no_victim-no_resident ((j, Slot.pending sig) ∷ m) q w a b h e =
      ground (arith, no_victim-no_resident m q w a b)

  -- The victim is the least recently used of the resident entries.
  pub victim_least :
      (m : List (Key × Slot V)) (u : ℕ) (k q : Key) (w : ℕ) (a : V) (b : ℕ)
      → victim m ≡ some (u, k)
      → lookup q m ≡ some (Slot.ready a b w)
      → u ≤ w
  unfolding victim lookup
  victim_least [] u k q w a b h e = absurd (ground arith)
  victim_least ((j, Slot.pending sig) ∷ m) u k q w a b h e =
      ground (arith, victim_least m u k q w a b)
  victim_least ((j, Slot.ready arr bytes v) ∷ m) u k q w a b h e = elim (Bool-cases (key_eq j q)) [
    | inl same ↦ ground (arith, older-le u v k j (victim m))
    | inr other ↦ elim (Option-cases (victim m)) [
      | inl gone ↦ absurd (no_victim-no_resident m q w a b gone (rw other at e))
      | inr ((x, y), found) ↦
          let x_le : x ≤ w = victim_least m x y q w a b found (rw other at e) in
          let u_le : u ≤ x = older-le_rest u v x k j y (rw found at h) in omega arith
    ]
  ]

  -- One round on a victim.
  pub evict_resident :
      (k : Key) (c : Cache V) {arr : V} {bytes u : ℕ}
      → lookup k c.slots ≡ some (Slot.ready arr bytes u)
      → evict_slot k c (lookup k c.slots)
        ≡ record c { slots = remove k c.slots; used = c.used - bytes; evictions = c.evictions + 1 }
  unfolding evict_slot
  evict_resident k c e = rw e

  pub evict-IsCounted :
      (c : Cache V) (k : Key) (arr : V) (bytes u : ℕ)
      → IsCounted c
      → lookup k c.slots ≡ some (Slot.ready arr bytes u)
      → IsCounted (record c {
        slots = remove k c.slots;
        used = c.used - bytes;
        evictions = c.evictions + 1;
      })
  evict-IsCounted c k arr bytes u v e = record {
    distinct = remove-Distinct k c.slots v.distinct;
    counted = ground (arith, v.counted, resident_bytes-remove k c.slots);
    recent = AllUsedBy-remove c.tick k c.slots v.recent;
  }

  -- Induction over the eviction loop: a property that holds when the loop stops and that a round
  -- carries back from the smaller cache holds of every run.
  pub enforce_ind {κ} :
      (P : Cache V → Cache V → Type κ)
      → ((c : Cache V) → IsCounted c → P c c)
      → ((c d : Cache V) (k : Key) (arr : V) (bytes u : ℕ)
          → lookup k c.slots ≡ some (Slot.ready arr bytes u)
          → victim c.slots ≡ some (u, k)
          → IsCounted c
          → P
              (record c {
                slots = remove k c.slots;
                used = c.used - bytes;
                evictions = c.evictions + 1;
              })
              d
          → P c d)
      → (fuel : ℕ) (c : Cache V) → IsCounted c
      → P c (enforce fuel c)
  unfolding enforce
  enforce_ind P stop round zero c v = stop c v
  enforce_ind P stop round (suc fuel) c v = elim (Bool-cases (ltb c.max_bytes c.used)) [
    | inr fits ↦ rw fits (stop c v)
    | inl over ↦ elim (Option-cases (victim c.slots)) [
      | inl e ↦ rw (over, e) (stop c v)
      | inr ((u, k), e) ↦
          let (arr, bytes, f) = victim-Resident c.slots u k v.distinct e in
          rw (over, e, evict_resident k c f)
            (round c _ k arr bytes u f e v
              (enforce_ind P stop round fuel _ (evict-IsCounted c k arr bytes u v f)))
    ]
  ]

  -- The loop keeps the books, the budget and the clock.
  abbrev pub KeepsBooks : Cache V → Cache V → Type ℓ
  KeepsBooks c d = IsCounted d × (d.max_bytes ≡ c.max_bytes) × (d.tick ≡ c.tick)

  pub enforce-KeepsBooks : (fuel : ℕ) (c : Cache V) → IsCounted c → KeepsBooks c (enforce fuel c)
  enforce-KeepsBooks =
      enforce_ind KeepsBooks (λ c v. (v, refl, refl)) (λ c d k arr bytes u f e v keep. keep)

  -- An entry is left as it was, or it was resident and is gone.
  abbrev pub Kept : Cache V → Cache V → Type ℓ
  Kept c d =
      (q : Key)
      → (lookup q d.slots ≡ lookup q c.slots)
        ⊎ ((lookup q d.slots ≡ none) × ((w : ℕ) × Resident c.slots q w))

  Kept-round :
      (c d : Cache V) (k : Key) (arr : V) (bytes u : ℕ)
      → lookup k c.slots ≡ some (Slot.ready arr bytes u)
      → victim c.slots ≡ some (u, k)
      → IsCounted c
      → Kept
          (record c {
            slots = remove k c.slots;
            used = c.used - bytes;
            evictions = c.evictions + 1;
          })
          d
      → Kept c d
  Kept-round c d k arr bytes u f e v kept q = elim (Bool-cases (key_eq k q)) [
    | inl same ↦ inr (gone same (kept q), (u, (arr, bytes, rw (← key_eq→eq k q same) f)))
    | inr other ↦ rw (lookup-remove k q c.slots v.distinct, other) at (kept q)
  ]
    where
      gone :
          key_eq k q ≡ true
          → (lookup q d.slots ≡ lookup q (remove k c.slots))
            ⊎ ((lookup q d.slots ≡ none) × ((w : ℕ) × Resident (remove k c.slots) q w))
          → lookup q d.slots ≡ none
      gone same (inl g) = g ∙ lookup-remove k q c.slots v.distinct ∙ (rw same)
      gone same (inr g) = g.0

  pub enforce-Kept : (fuel : ℕ) (c : Cache V) → IsCounted c → Kept c (enforce fuel c)
  enforce-Kept = enforce_ind Kept (λ c v q. inl refl) Kept-round

  -- Whatever the loop evicts was used no later than whatever it leaves resident.
  abbrev pub EvictsOldest : Cache V → Cache V → Type ℓ
  EvictsOldest c d =
      (q r : Key) (w w' : ℕ)
      → Resident c.slots q w
      → lookup q d.slots ≡ none
      → Resident d.slots r w'
      → w ≤ w'

  Resident-ne-none :
      (q : Key) (w : ℕ) (m : List (Key × Slot V)) → Resident m q w → lookup q m ≢ none
  Resident-ne-none q w m (a, b, e) h = cc

  Resident-Kept :
      (c d : Cache V) (r : Key) (w : ℕ) → Kept c d → Resident d.slots r w → Resident c.slots r w
  Resident-Kept c d r w kept (a, b, e) = from_kept (kept r)
    where
      from_kept :
          (lookup r d.slots ≡ lookup r c.slots)
            ⊎ ((lookup r d.slots ≡ none) × ((w : ℕ) × Resident c.slots r w))
          → Resident c.slots r w
      from_kept (inl same) = (a, b, sym same ∙ e)
      from_kept (inr gone) = absurd (Resident-ne-none r w d.slots (a, b, e) gone.0)

  pub same_use :
      (m : List (Key × Slot V)) (k : Key) (u w : ℕ) → Resident m k u → Resident m k w → u ≡ w
  same_use m k u w (a, b, e) (a', b', e') = ground (arith, sym e ∙ e')

  oldest_round :
      (c d : Cache V) (k : Key) (arr : V) (bytes u : ℕ)
      → lookup k c.slots ≡ some (Slot.ready arr bytes u)
      → victim c.slots ≡ some (u, k)
      → IsCounted c
      → let c' = record c {
        slots = remove k c.slots;
        used = c.used - bytes;
        evictions = c.evictions + 1;
      } in
        Kept c' d × EvictsOldest c' d → Kept c d × EvictsOldest c d
  oldest_round c d k arr bytes u f e v (kept, oldest) =
      (Kept-round c d k arr bytes u f e v kept, rest)
    where
      rest : EvictsOldest c d
      rest q r w w' res gone left = elim (Bool-cases (key_eq k q)) [
        | inl same ↦
            let (a, b, found) =
              Resident-Kept c d r w' (Kept-round c d k arr bytes u f e v kept) left in
            let least : u ≤ w' = victim_least c.slots u k r w' a b e found in
            let mine : Resident c.slots k w = rw (key_eq→eq k q same) res in
            let eq : u ≡ w = same_use c.slots k u w (arr, bytes, f) mine in omega arith
        | inr other ↦
            let (a, b, found) = res in
            oldest q r w w' (a, b, lookup-remove k q c.slots v.distinct ∙ (rw other found)) gone
              left
      ]

  pub enforce-EvictsOldest :
      (fuel : ℕ) (c : Cache V)
      → IsCounted c
      → Kept c (enforce fuel c) × EvictsOldest c (enforce fuel c)
  enforce-EvictsOldest =
      enforce_ind (λ c d. Kept c d × EvictsOldest c d)
        (λ c v.
          (λ q. inl refl, λ q r w w' res gone left. absurd (Resident-ne-none q w c.slots res gone)))
        oldest_round

  -- With fuel for every entry the loop ends within the budget.
  pub enforce_within :
      (fuel : ℕ) (c : Cache V)
      → IsCounted c
      → length c.slots ≤ fuel
      → (enforce fuel c).used ≤ (enforce fuel c).max_bytes
  unfolding enforce
  enforce_within zero c v h = ground (arith, v.counted, no_entries c.slots)
  enforce_within (suc fuel) c v h = elim (Bool-cases (ltb c.max_bytes c.used)) [
    | inr fits ↦ rw fits (ground arith)
    | inl over ↦ elim (Option-cases (victim c.slots)) [
      | inl e ↦ absurd (ground (arith, v.counted, victim-none c.slots e))
      | inr ((u, k), e) ↦
          let (arr, bytes, f) = victim-Resident c.slots u k v.distinct e in
          rw (over, e, evict_resident k c f)
            (enforce_within fuel _ (evict-IsCounted c k arr bytes u v f)
              (omega (arith, length-remove k (Slot.ready arr bytes u) c.slots f)))
    ]
  ]
