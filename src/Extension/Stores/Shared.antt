-- ===== src/Extension/Stores/Shared.antt =====
-- Addresses with one key share a store, and the map of stores is bounded.
use duckdb_cog.Base.{
  suc, ◌≤◌, ◌≡◌, refl, arith, leb, true, false, none, some, List, if◌then◌else◌, length, inl, inr,
  ◌⊎◌, Bool-cases, Option-cases,
}
use duckdb_cog.Base.Texts.{Text, text_eq_refl}
use duckdb_cog.Sql.Open.{find}
use duckdb_cog.Extension.Stores.{is_missing, or_insert, with_room, shared_store}

module _ {V : Type 0} where
  find-or_insert :
      (key : Text) (a : V) (m : List (Text × V))
      → find key (or_insert key a m (find key m)).0 ≡ some (or_insert key a m (find key m)).1
  unfolding or_insert find
  find-or_insert key a m = elim (Option-cases (find key m)) [
    | inl e ↦ rw (e, find, text_eq_refl key) refl
    | inr (v, e) ↦ rw (e, or_insert) e
  ]

  length-or_insert :
      (key : Text) (a : V) (m : List (Text × V))
      → length (or_insert key a m (find key m)).0
        ≡ (if is_missing (find key m) then suc (length m) else length m)
  unfolding or_insert is_missing
  length-or_insert key a m = ground arith

  with_room_found :
      (key : Text) (s : V) (m : List (Text × V)) → find key m ≡ some s → with_room key m ≡ m
  unfolding with_room is_missing
  with_room_found key s m e = ground arith

  shared_again :
      (key : Text) (s b : V) (m : List (Text × V))
      → find key m ≡ some s
      → shared_store key b m ≡ (m, s)
  unfolding shared_store or_insert
  shared_again key s b m e = rw (with_room_found key s m e, e) refl

  -- On a map of at most 32 stores: it keeps to that bound, and a later call with the same key gets
  -- the store that this call got, whatever it made itself, and leaves the map as it is; this call
  -- got the store of the map if there was one under the key, and otherwise its own.
  pub shared_store-shares :
      (key : Text) (a : V) (m : List (Text × V))
      → length m ≤ 32
      → (length (shared_store key a m).0 ≤ 32)
        × ((b : V)
            → shared_store key b (shared_store key a m).0
              ≡ ((shared_store key a m).0, (shared_store key a m).1))
        × ((shared_store key a m).1 ≡ elim (find key m) [ none ↦ a | some s ↦ s ])
  unfolding shared_store with_room is_missing or_insert find
  shared_store-shares key a m small = (
    ground (arith, length-or_insert key a (with_room key m)),
    (λ b.
        shared_again key (shared_store key a m).1 b (shared_store key a m).0
          (find-or_insert key a (with_room key m))),
    first (Bool-cases (leb 32 (length m))) (Option-cases (find key m)),
  )
    where
      first :
          (leb 32 (length m) ≡ true) ⊎ (leb 32 (length m) ≡ false)
          → (find key m ≡ none) ⊎ ((s : V) × (find key m ≡ some s))
          → (shared_store key a m).1 ≡ elim (find key m) [ none ↦ a | some s ↦ s ]
      first (inl full) (inl e) = rw (full, e) refl
      first (inr room) (inl e) = rw (room, e) refl
      first full (inr (s, e)) = rw (shared_again key s a m e, e) refl
