-- ===== src/Browser/Registry/Bounds.antt =====
-- The registry keeps what it has opened, up to its bound.
use duckdb_cog.Base.{
  suc, ◌≤◌, ◌≡◌, refl, sym, ap, ◌∙◌, subst, arith, none, some, List, [], ◌∷◌, Result, ok, err, leb,
  if◌then◌else◌, length, inl, inr, Bool-cases, Option-cases,
}
use duckdb_cog.Base.Texts.{Text, text_eq_refl}
use duckdb_cog.Sql.Open.{find}
use duckdb_cog.Extension.Cogs.{OpenCog, attach}
use duckdb_cog.Browser.Registry.{
  max_readers, Registry, put, register_reader, registered, open_cached,
}

module _ {A : Type 0} where
  find-put : (key : Text) (a : A) (m : List (Text × A)) → find key (put key a m) ≡ some a
  unfolding find put
  find-put key a [] = ground (arith, text_eq_refl key)
  find-put key a ((k, b) ∷ m) = ground (arith, text_eq_refl key, find-put key a m)

  length-put : (key : Text) (a : A) (m : List (Text × A)) → length (put key a m) ≤ suc (length m)
  unfolding put
  length-put key a [] = omega arith
  length-put key a ((k, b) ∷ m) = ground (arith, length-put key a m)

length-register_reader :
    {C : Type 0} (url : Text) (cog : OpenCog C) (m : List (Text × OpenCog C))
    → length m ≤ max_readers
    → length (register_reader url cog m) ≤ max_readers
unfolding register_reader
length-register_reader url cog m h = elim (Bool-cases (leb max_readers (length m))) [
  | inl full ↦ rw (full, register_reader) (ground (arith, length-put url cog []))
  | inr room ↦ rw (room, register_reader) (ground (arith, length-put url cog m))
]

find-register_reader :
    {C : Type 0} (url : Text) (cog : OpenCog C) (m : List (Text × OpenCog C))
    → find url (register_reader url cog m) ≡ some cog
unfolding register_reader
find-register_reader url cog m = find-put url cog (if leb max_readers (length m) then [] else m)

module _ {C V : Type 0} where
  open_cached-hit :
      {E : Type 0} (w w' : Registry C V) (url : Text) (o : Result E C) (hit : OpenCog C)
      → find url w.readers ≡ some hit
      → open_cached w w' url o ≡ (w, ok hit)
  unfolding open_cached
  open_cached-hit w w' url o hit held = rw (held, open_cached) refl

  open_cached-failed :
      {E : Type 0} (w w' : Registry C V) (url : Text) (e : E)
      → find url w.readers ≡ none
      → open_cached w w' url (err e) ≡ (w', err e)
  unfolding open_cached
  open_cached-failed w w' url e missed = rw (missed, open_cached) refl

  open_cached-opened :
      {E : Type 0} (w w' : Registry C V) (url : Text) (c : C)
      → find url w.readers ≡ none
      → open_cached {E = E} w w' url (ok c) ≡ (
        record {
          readers = register_reader url (attach w'.tiles c).1 w'.readers;
          tiles = (attach w'.tiles c).0;
        },
        ok (attach w'.tiles c).1,
      )
  unfolding open_cached registered
  open_cached-opened w w' url c missed = rw (missed, open_cached) refl

  -- At most 64 readers, and a reader that was returned is returned again by every later call for
  -- the address on the state that is left, which opens nothing and changes nothing.
  abbrev pub IsKept : {E : Type 0} → Text → Registry C V × Result E (OpenCog C) → Type 0
  IsKept {E} url r =
      (length r.0.readers ≤ max_readers)
      × ((cog : OpenCog C) (other : Registry C V) (again : Result E C)
          → r.1 ≡ ok cog
          → open_cached r.0 other url again ≡ (r.0, ok cog))

  -- Where the registry has at most 64 readers at the look-up and when the metadata has been read, it
  -- has at most 64 after the call, whatever its branch; and a reader that the call returns is the one
  -- that every later call for the address returns on the state that is left, without opening anything
  -- and without a change.
  pub open_cached-IsKept :
      {E : Type 0} (w w' : Registry C V) (url : Text) (open_engine : Result E C)
      → length w.readers ≤ max_readers
      → length w'.readers ≤ max_readers
      → IsKept url (open_cached w w' url open_engine)
  open_cached-IsKept {E} w w' url open_engine small small' =
      elim (Option-cases (find url w.readers)) [
        | inr (hit, held) ↦
            subst (IsKept url) (sym (open_cached-hit w w' url open_engine hit held))
              (small, λ cog other again same. again_hit w hit held cog other again same)
        | inl missed ↦ by_outcome open_engine missed
      ]
    where
      again_hit :
          (x : Registry C V) (hit : OpenCog C)
          → find url x.readers ≡ some hit
          → (cog : OpenCog C) (other : Registry C V) (again : Result E C)
          → ◌≡◌ {A = Result E (OpenCog C)} (ok hit) (ok cog)
          → open_cached x other url again ≡ (x, ok cog)
      again_hit x hit held cog other again same =
          open_cached-hit x other url again hit held ∙ ap (λ r. (x, r)) same

      by_outcome :
          (o : Result E C) → find url w.readers ≡ none → IsKept url (open_cached w w' url o)
      by_outcome (err e) missed =
          subst (IsKept url) (sym (open_cached-failed w w' url e missed))
            (small', λ cog other again same. cc)
      by_outcome (ok c) missed =
          let cog : OpenCog C = (attach w'.tiles c).1 in
          let x : Registry C V = record {
            readers = register_reader url cog w'.readers;
            tiles = (attach w'.tiles c).0;
          } in
          subst (IsKept url) (sym (open_cached-opened w w' url c missed)) (
            length-register_reader url cog w'.readers small',
            λ k other again same.
                again_hit x cog (find-register_reader url cog w'.readers) k other again same,
          )
