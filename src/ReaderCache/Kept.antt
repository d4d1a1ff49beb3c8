-- ===== src/ReaderCache/Kept.antt =====
-- A property of every reader that is kept.
use duckdb_cog.Base.{ℕ, ◌&&◌, List, [], ◌∷◌, ltb, leb, length, inl, inr, Bool-cases, Option-cases}
use duckdb_cog.Base.Texts.{Text, text_eq}
use duckdb_cog.ReaderCache.{
  Entry, ReaderCache, find, put, drop_key, is_fresh, retain_fresh, oldest, is_missing, make_room,
  keep,
}

module _ {V : Type 0} (P : V → Type 0) where
  abbrev pub Kept : List (Text × Entry V) → Type 0
  Kept [] = Unit
  Kept ((k, e) ∷ m) = P e.cog × Kept m

  put-Kept :
      (k : Text) (e : Entry V) (m : List (Text × Entry V)) → P e.cog → Kept m → Kept (put k e m)
  unfolding put
  put-Kept k e [] p h = (p, tt)
  put-Kept k e ((j, f) ∷ m) p h = elim (Bool-cases (text_eq j k)) [
    | inl same ↦ rw (same, put) (p, h.1)
    | inr other ↦ rw (other, put) (h.0, put-Kept k e m p h.1)
  ]

  drop_key-Kept : (k : Text) (m : List (Text × Entry V)) → Kept m → Kept (drop_key k m)
  unfolding drop_key
  drop_key-Kept k [] h = tt
  drop_key-Kept k ((j, f) ∷ m) h = elim (Bool-cases (text_eq j k)) [
    | inl same ↦ rw (same, drop_key) h.1
    | inr other ↦ rw (other, drop_key) (h.0, drop_key-Kept k m h.1)
  ]

  retain_fresh-Kept :
      (now ttl : ℕ) (m : List (Text × Entry V)) → Kept m → Kept (retain_fresh now ttl m)
  unfolding retain_fresh
  retain_fresh-Kept now ttl [] h = tt
  retain_fresh-Kept now ttl ((k, e) ∷ m) h = elim (Bool-cases (is_fresh now ttl e)) [
    | inl fresh ↦ rw (fresh, retain_fresh) (h.0, retain_fresh-Kept now ttl m h.1)
    | inr stale ↦ rw (stale, retain_fresh) (retain_fresh-Kept now ttl m h.1)
  ]

  make_room-Kept :
      (n : ℕ) (key : Text) (m : List (Text × Entry V)) → Kept m → Kept (make_room n key m)
  unfolding make_room
  make_room-Kept n key m h = elim (Bool-cases (leb n (length m) && is_missing (find key m))) [
    | inr room ↦ rw (room, make_room) h
    | inl full ↦ elim (Option-cases (oldest m)) [
      | inl nothing ↦ rw (full, nothing, make_room) h
      | inr ((k, t), old) ↦ rw (full, old, make_room) (drop_key-Kept k m h)
    ]
  ]

  pub keep-Kept :
      (now : ℕ) (key : Text) (cog : V) (c : ReaderCache V)
      → P cog
      → Kept c.entries
      → Kept (keep now key cog c).entries
  unfolding keep
  keep-Kept now key cog c p h = elim (Bool-cases (ltb 0 c.ttl)) [
    | inr off ↦ rw (off, keep) h
    | inl on ↦
        rw (on, keep)
          (put-Kept key (record { cog = cog; inserted = now })
            (make_room c.max_readers key (retain_fresh now c.ttl c.entries)) p
            (make_room-Kept c.max_readers key (retain_fresh now c.ttl c.entries)
              (retain_fresh-Kept now c.ttl c.entries h)))
  ]

pub Kept-weaken :
    {V : Type 0} (P Q : V → Type 0)
    → ((v : V) → P v → Q v)
    → (m : List (Text × Entry V)) → Kept P m
    → Kept Q m
Kept-weaken P Q f [] h = tt
Kept-weaken P Q f ((k, e) ∷ m) h = (f e.cog h.0, Kept-weaken P Q f m h.1)
