-- ===== src/ReaderCache/Bounds.antt =====
-- The number of readers that are kept, and hits on what was opened.
use duckdb_cog.Base.{
  ℕ, suc, ◌-◌, ◌≤◌, ◌<◌, ◌≡◌, refl, sym, subst, arith, none, some, List, [], ◌∷◌, ltb, leb,
  if◌then◌else◌, length, max, Result, ok, inl, inr, Bool-cases, Option-cases,
}
use duckdb_cog.Base.Texts.{Text, text_eq, text_eq_refl}
use duckdb_cog.ReaderCache.{
  Entry, ReaderCache, new, find, put, drop_key, is_fresh, lookup_fresh, retain_fresh, oldest,
  is_missing, make_room, keep, get_or_open,
}

module _ {V : Type 0} where
  find-put : (k : Text) (e : Entry V) (m : List (Text × Entry V)) → find k (put k e m) ≡ some e
  unfolding find put
  find-put k e [] = ground (arith, text_eq_refl k)
  find-put k e ((j, f) ∷ m) = ground (arith, text_eq_refl k, find-put k e m)

  length-put :
      (k : Text) (e : Entry V) (m : List (Text × Entry V))
      → length (put k e m) ≡ (if is_missing (find k m) then suc (length m) else length m)
  unfolding find put is_missing
  length-put k e [] = refl
  length-put k e ((j, f) ∷ m) = ground (arith, length-put k e m)

  length-drop_key :
      (k : Text) (e : Entry V) (m : List (Text × Entry V))
      → find k m ≡ some e
      → suc (length (drop_key k m)) ≡ length m
  unfolding find drop_key
  length-drop_key k e [] h = ground arith
  length-drop_key k e ((j, f) ∷ m) h = ground (arith, length-drop_key k e m)

  find-oldest :
      (m : List (Text × Entry V)) (k : Text) (t : ℕ)
      → oldest m ≡ some (k, t)
      → (e : Entry V) × (find k m ≡ some e)
  unfolding find oldest
  find-oldest [] k t h = absurd (ground arith)
  find-oldest ((j, f) ∷ m) k t h = elim (Bool-cases (text_eq j k)) [
    | inl same ↦ (f, rw (same, find) refl)
    | inr other ↦ elim (Option-cases (oldest m)) [
      | inl e ↦ absurd (ground (arith, text_eq_refl j))
      | inr ((i, u), e) ↦
          let behind : oldest m ≡ some (k, t) = ground (arith, text_eq_refl j) in
          let (x, found) = find-oldest m k t behind in (x, rw (other, find) found)
    ]
  ]

  length-retain :
      (now ttl : ℕ) (m : List (Text × Entry V)) → length (retain_fresh now ttl m) ≤ length m
  unfolding retain_fresh
  length-retain now ttl [] = omega arith
  length-retain now ttl ((k, e) ∷ m) = ground (arith, length-retain now ttl m)

  oldest-none : (m : List (Text × Entry V)) → oldest m ≡ none → length m ≡ 0
  unfolding oldest
  oldest-none [] e = refl
  oldest-none ((k, f) ∷ m) e = absurd (ground arith)

  find-drop_key :
      (k q : Text) (m : List (Text × Entry V)) → find q m ≡ none → find q (drop_key k m) ≡ none
  unfolding find drop_key
  find-drop_key k q [] e = refl
  find-drop_key k q ((j, f) ∷ m) e = ground (arith, find-drop_key k q m)

  put-make_room :
      (n : ℕ) (key : Text) (e : Entry V) (m : List (Text × Entry V))
      → length m ≤ max n 1
      → length (put key e (make_room n key m)) ≤ max n 1
  unfolding make_room is_missing
  put-make_room n key e m small = elim (Option-cases (find key m)) [
    | inr (f, found) ↦ ground (arith, length-put key e m)
    | inl absent ↦ elim (Bool-cases (leb n (length m))) [
      | inr room ↦ ground (arith, length-put key e m)
      | inl full ↦ elim (Option-cases (oldest m)) [
        | inl nothing ↦ ground (arith, length-put key e m, oldest-none m nothing)
        | inr ((k, t), old) ↦
            let (x, found) = find-oldest m k t old in
            let gone = find-drop_key k key m absent in
            ground (arith, length-drop_key k x m found, length-put key e (drop_key k m))
      ]
    ]
  ]

  -- The readers that are kept one after the other: at a time, under an address.
  unfoldable pub keep_all : List (ℕ × Text × V) → ReaderCache V → ReaderCache V
  keep_all [] c = c
  keep_all ((now, key, cog) ∷ calls) c = keep_all calls (keep now key cog c)

  keep-bound :
      (now : ℕ) (key : Text) (cog : V) (c : ReaderCache V)
      → length c.entries ≤ max c.max_readers 1
      → (length (keep now key cog c).entries ≤ max c.max_readers 1)
        × ((keep now key cog c).max_readers ≡ c.max_readers)
  unfolding keep
  keep-bound now key cog c small = elim (Bool-cases (ltb 0 c.ttl)) [
    | inr off ↦ rw (off, keep) (small, refl)
    | inl on ↦
        let retained = length-retain now c.ttl c.entries in
        rw (on, keep)
          (
            put-make_room c.max_readers key (record { cog = cog; inserted = now })
                (retain_fresh now c.ttl c.entries) (ground arith),
            refl,
          )
  ]

  keep_all-bound :
      (calls : List (ℕ × Text × V)) (c : ReaderCache V)
      → length c.entries ≤ max c.max_readers 1
      → length (keep_all calls c).entries ≤ max c.max_readers 1
  unfolding keep_all
  keep_all-bound [] c small = small
  keep_all-bound ((now, key, cog) ∷ calls) c small =
      let (fits, same) = keep-bound now key cog c small in
      subst (λ (n : ℕ). length (keep_all calls (keep now key cog c)).entries ≤ max n 1) same
        (keep_all-bound calls (keep now key cog c)
          (subst (λ (n : ℕ). length (keep now key cog c).entries ≤ max n 1) (sym same) fits))

  -- Whatever readers a new cache is given, at whatever times and under whatever addresses, it holds
  -- no more of them than its bound, or one where the bound is zero.
  pub keep_all-bounds :
      (ttl max_readers : ℕ) (calls : List (ℕ × Text × V))
      → length (keep_all calls (new ttl max_readers)).entries ≤ max max_readers 1
  unfolding new
  keep_all-bounds ttl max_readers calls = keep_all-bound calls (new ttl max_readers) (omega arith)

  kept_hit :
      (later again : ℕ) (key : Text) (cog : V) (c : ReaderCache V)
      → again - later < c.ttl
      → lookup_fresh again key (keep later key cog c) ≡ some cog
  unfolding lookup_fresh keep is_fresh
  kept_hit later again key cog c young = ground (
    arith,
    find-put key (record { cog = cog; inserted = later })
        (make_room c.max_readers key (retain_fresh later c.ttl c.entries)),
  )

  -- A miss whose opener succeeds: the reader is returned, and every later call for the address that
  -- comes before the time to live has passed, on the state that is left, returns the same reader and
  -- leaves the cache as it is, whatever its own opener would do.
  pub get_or_open-hit :
      {E : Type 0} (now later again : ℕ) (c c' : ReaderCache V) (key : Text) (cog : V)
      → lookup_fresh now key c ≡ none
      → again - later < c'.ttl
      → (after : ReaderCache V) × (get_or_open {E = E} now c later c' key (ok cog)
          ≡ (after, ok cog))
        × ((other : ReaderCache V) (t : ℕ) (opener : Result E V)
            → get_or_open again after t other key opener ≡ (after, ok cog))
  unfolding get_or_open
  get_or_open-hit now later again c c' key cog miss young = (
    keep later key cog c',
    rw (miss, get_or_open) refl,
    λ other t opener. rw (kept_hit later again key cog c' young, get_or_open) refl,
  )
