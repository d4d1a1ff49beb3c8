-- ===== src/TileCache/Preservation.antt =====
-- The invariant of the tile cache across its operations, and what a look-up finds afterwards.
use duckdb_cog.Base.{
  ℕ, ◌+◌, ◌≤◌, ◌≡◌, refl, arith, Bool, true, false, Option, none, some, List, length,
}
use duckdb_cog.TileCache.Assoc.{
  Key, key_eq_refl, lookup, insert, remove, lookup-remove, insert-Distinct, remove-Distinct,
}
use duckdb_cog.TileCache.{
  Slot, Cache, new, register, claim_one, claim_found, settle, replaced_bytes, publish, fulfill,
  abort, abort_slot,
}
use duckdb_cog.TileCache.Invariant.{
  slot_bytes, found_bytes, UsedBy, AllUsedBy, IsCounted, IsValid, resident_bytes-insert,
  resident_bytes-remove, AllUsedBy-mono, AllUsedBy-insert, AllUsedBy-remove, AllUsedBy-lookup,
}
use duckdb_cog.TileCache.Eviction.{enforce-KeepsBooks, enforce_within}

module _ {ℓ} {V : Type ℓ} where
  pub new-IsValid : (max_bytes : ℕ) → IsValid (new {V = V} max_bytes)
  unfolding new
  new-IsValid max_bytes = record {
    books = record { distinct = tt; counted = refl; recent = tt };
    budget = omega arith;
  }

  pub register-IsValid : (c : Cache V) → IsValid c → IsValid (register c).0
  unfolding register
  register-IsValid c v = record {
    books = record {
      distinct = v.books.distinct;
      counted = v.books.counted;
      recent = v.books.recent;
    };
    budget = v.budget;
  }

  insert-IsValid :
      (c c' : Cache V) (key : Key) (s : Slot V)
      → IsValid c
      → UsedBy c'.tick s
      → slot_bytes s ≡ found_bytes (lookup key c.slots)
      → c.tick ≤ c'.tick
      → c'.slots ≡ insert key s c.slots
      → c'.used ≡ c.used
      → c'.max_bytes ≡ c.max_bytes
      → IsValid c'
  insert-IsValid c c' key s v u same later es eu em = record {
    books = record {
      distinct = rw es (insert-Distinct key s c.slots v.books.distinct);
      counted = rw es (omega (arith, v.books.counted, resident_bytes-insert key s c.slots));
      recent = rw es (
          AllUsedBy-insert c'.tick key s c.slots u
            (AllUsedBy-mono c.tick c'.tick c.slots later v.books.recent));
    };
    budget = omega (arith, v.budget);
  }

  ticked-IsValid :
      (c c' : Cache V)
      → IsValid c
      → c.tick ≤ c'.tick
      → c'.slots ≡ c.slots
      → c'.used ≡ c.used
      → c'.max_bytes ≡ c.max_bytes
      → IsValid c'
  ticked-IsValid c c' v later es eu em = record {
    books = record {
      distinct = rw es v.books.distinct;
      counted = rw es (omega (arith, v.books.counted));
      recent = rw es (AllUsedBy-mono c.tick c'.tick c.slots later v.books.recent);
    };
    budget = omega (arith, v.budget);
  }

  claim_found-IsValid :
      (wasm : Bool) (key : Key) (c : Cache V) (o : Option (Slot V))
      → lookup key c.slots ≡ o
      → IsValid c
      → IsValid (claim_found wasm key (record c { tick = c.tick + 1 }) o).0
  unfolding claim_found
  claim_found-IsValid wasm key c none e v =
      insert-IsValid c _ key (Slot.pending c.next_signal) v tt (rw e) (omega arith) refl refl refl
  claim_found-IsValid wasm key c (some (Slot.ready arr bytes u)) e v =
      insert-IsValid c _ key (Slot.ready arr bytes (c.tick + 1)) v (omega arith) (rw e)
        (omega arith) refl refl refl
  claim_found-IsValid true key c (some (Slot.pending sig)) e v =
      ticked-IsValid c _ v (omega arith) refl refl refl
  claim_found-IsValid false key c (some (Slot.pending sig)) e v =
      ticked-IsValid c _ v (omega arith) refl refl refl

  -- A round of `claim_one` keeps the invariant on either target, whatever it answers.
  pub claim_one-IsValid :
      (wasm : Bool) (key : Key) (c : Cache V) → IsValid c → IsValid (claim_one wasm key c).0
  unfolding claim_one
  claim_one-IsValid wasm key c v = claim_found-IsValid wasm key c (lookup key c.slots) refl v

  replaced-eq_found : (o : Option (Slot V)) → replaced_bytes o ≡ found_bytes o
  unfolding replaced_bytes
  replaced-eq_found none = refl
  replaced-eq_found (some (Slot.ready arr bytes u)) = refl
  replaced-eq_found (some (Slot.pending sig)) = refl

  pub publish-IsCounted :
      (key : Key) (arr : V) (bytes : ℕ) (c : Cache V)
      → IsCounted c
      → IsCounted (publish key arr bytes c)
  unfolding publish
  publish-IsCounted key arr bytes c v = record {
    distinct = insert-Distinct key _ c.slots v.distinct;
    counted = omega (
      arith,
      v.counted,
      replaced-eq_found (lookup key c.slots),
      resident_bytes-insert key (Slot.ready arr bytes (c.tick + 1)) c.slots,
    );
    recent =
        AllUsedBy-insert (c.tick + 1) key _ c.slots (omega arith)
          (AllUsedBy-mono c.tick (c.tick + 1) c.slots (omega arith) v.recent);
  }

  pub settle_same :
      (o : Option (Slot V)) (c : Cache V)
      → ((settle o c).slots ≡ c.slots)
        × ((settle o c).used ≡ c.used)
        × ((settle o c).max_bytes ≡ c.max_bytes)
        × ((settle o c).tick ≡ c.tick)
  unfolding settle
  settle_same none c = (refl, refl, refl, refl)
  settle_same (some (Slot.ready arr bytes u)) c = (refl, refl, refl, refl)
  settle_same (some (Slot.pending sig)) c = (refl, refl, refl, refl)

  settle-IsValid : (o : Option (Slot V)) (c : Cache V) → IsValid c → IsValid (settle o c)
  settle-IsValid o c v =
      let (es, eu, em, et) = settle_same o c in ticked-IsValid c _ v (omega arith) es eu em

  -- Publishing a tile keeps the invariant: the books stay right, also where a resident tile is
  -- replaced, and the eviction loop ends within the budget.
  pub fulfill-IsValid :
      (key : Key) (arr : V) (bytes : ℕ) (c : Cache V)
      → IsValid c
      → IsValid (fulfill key arr bytes c)
  unfolding fulfill
  fulfill-IsValid key arr bytes c v =
      let p = publish-IsCounted key arr bytes c v.books in
      let c' = publish key arr bytes c in
      settle-IsValid _ _ (record {
        books = (enforce-KeepsBooks (length c'.slots) c' p).0;
        budget = enforce_within (length c'.slots) c' p (omega arith);
      })

  abort_slot-IsValid :
      (key : Key) (c : Cache V) (o : Option (Slot V))
      → lookup key c.slots ≡ o
      → IsValid c
      → IsValid (abort_slot key c o)
  unfolding abort_slot
  abort_slot-IsValid key c none e v = v
  abort_slot-IsValid key c (some (Slot.pending sig)) e v =
      settle-IsValid (some (Slot.pending sig)) _ (record {
        books = record {
          distinct = remove-Distinct key c.slots v.books.distinct;
          counted = ground (arith, v.books.counted, resident_bytes-remove key c.slots);
          recent = AllUsedBy-remove c.tick key c.slots v.books.recent;
        };
        budget = v.budget;
      })
  abort_slot-IsValid key c (some (Slot.ready arr bytes u)) e v = record {
    books = record {
      distinct = insert-Distinct key _ _ (remove-Distinct key c.slots v.books.distinct);
      counted = ground (
        arith,
        v.books.counted,
        resident_bytes-remove key c.slots,
        resident_bytes-insert key (Slot.ready arr bytes u) (remove key c.slots),
        lookup-remove key key c.slots v.books.distinct,
        key_eq_refl key,
      );
      recent =
          AllUsedBy-insert c.tick key _ _ (used_by c.slots e v.books.recent)
            (AllUsedBy-remove c.tick key c.slots v.books.recent);
    };
    budget = v.budget;
  }
    where
      used_by :
          (m : List (Key × Slot V))
          → lookup key m ≡ some (Slot.ready arr bytes u)
          → AllUsedBy c.tick m
          → u ≤ c.tick
      used_by m e a = AllUsedBy-lookup c.tick key m arr bytes u e a

  -- Aborting keeps the invariant, whether the key is pending, resident or absent.
  pub abort-IsValid : (key : Key) (c : Cache V) → IsValid c → IsValid (abort key c)
  unfolding abort
  abort-IsValid key c v = abort_slot-IsValid key c (lookup key c.slots) refl v
