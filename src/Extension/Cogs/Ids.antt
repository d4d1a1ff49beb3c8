-- ===== src/Extension/Cogs/Ids.antt =====
-- The readers that are kept are known to the tile cache under ids that it has issued, so a reader
-- that is opened anew shares no tiles with them.
use duckdb_cog.Base.{
  ℕ, ◌+◌, ◌<◌, ◌≡◌, ◌≢◌, refl, arith, true, Option, none, some, subst, Result, ok, err, inl, inr,
  Bool-cases, Option-cases,
}
use duckdb_cog.Base.Texts.{Text}
use duckdb_cog.TileCache.{Cache, register}
use duckdb_cog.ReaderCache.{ReaderCache, lookup_fresh, keep, get_or_open}
use duckdb_cog.ReaderCache.Kept.{Kept, keep-Kept, Kept-weaken}
use duckdb_cog.Extension.Cogs.{
  has_scheme, OpenCog, Caches, attach, open_remote, opened_remote, open_cog_cached,
}

-- An id below a bound.
abbrev pub Below : ℕ → Option ℕ → Type 0
Below n none = Unit
Below n (some id) = id < n

abbrev pub next_of : {V : Type 0} → Option (Cache V) → ℕ
next_of none = 0
next_of (some c) = c.next_id

Below-suc : (n : ℕ) (id : Option ℕ) → Below n id → Below (n + 1) id
Below-suc n none h = tt
Below-suc n (some id) h = omega arith

Below-other : (n : ℕ) (id : Option ℕ) → Below n id → id ≢ some n
Below-other n none h e = absurd (ground arith)
Below-other n (some id) h e = absurd (ground arith)

module _ {C V : Type 0} where
  -- Every reader that is kept has no id, or one that the tile cache has issued.
  abbrev pub IsIssued : Caches C V → Type 0
  IsIssued w = Kept (λ (c : OpenCog C). Below (next_of w.tiles) c.reader_id) w.readers.entries

  open_remote-missed :
      (now : ℕ) (w : Caches C V) (later : ℕ) (w' : Caches C V) (path : Text) (c : C)
      → lookup_fresh now path w.readers ≡ none
      → open_remote now w later w' path (ok c) ≡ (
        record {
          readers = keep later path (attach w'.tiles c).1 w'.readers;
          tiles = (attach w'.tiles c).0;
        },
        ok (attach w'.tiles c).1,
      )
  unfolding open_remote opened_remote get_or_open
  open_remote-missed now w later w' path c missed =
      rw (missed, open_remote) (rw (missed, get_or_open) refl)

  open_remote-failed :
      (now : ℕ) (w : Caches C V) (later : ℕ) (w' : Caches C V) (path : Text) (e : Text)
      → lookup_fresh now path w.readers ≡ none
      → open_remote now w later w' path (err e) ≡ (w', err e)
  unfolding open_remote opened_remote get_or_open
  open_remote-failed now w later w' path e missed =
      rw (missed, open_remote) (rw (missed, get_or_open) refl)

  attached-IsIssued :
      (later : ℕ) (path : Text) (c : C) (r : ReaderCache (OpenCog C)) (tiles : Option (Cache V))
      → IsIssued (record { readers = r; tiles = tiles })
      → IsIssued
          (record { readers = keep later path (attach tiles c).1 r; tiles = (attach tiles c).0 })
  unfolding attach register
  attached-IsIssued later path c r none h =
      keep-Kept (λ (o : OpenCog C). Below 0 o.reader_id) later path
        (record { cog = c; reader_id = none }) r tt h
  attached-IsIssued later path c r (some t) h =
      keep-Kept (λ (o : OpenCog C). Below (t.next_id + 1) o.reader_id) later path
        (record { cog = c; reader_id = some t.next_id }) r (omega arith)
        (Kept-weaken (λ (o : OpenCog C). Below t.next_id o.reader_id)
          (λ (o : OpenCog C). Below (t.next_id + 1) o.reader_id)
          (λ o. Below-suc t.next_id o.reader_id) r.entries h)

  open_remote-IsIssued :
      (now : ℕ) (w : Caches C V) (later : ℕ) (w' : Caches C V) (path : Text) (o : Result Text C)
      → IsIssued w
      → IsIssued w'
      → IsIssued (open_remote now w later w' path o).0
  unfolding open_remote opened_remote get_or_open
  open_remote-IsIssued now w later w' path o h h' =
      elim (Option-cases (lookup_fresh now path w.readers)) [
        | inr (cog, hit) ↦ rw (hit, open_remote) h
        | inl missed ↦ by_outcome o missed
      ]
    where
      by_outcome :
          (o : Result Text C)
          → lookup_fresh now path w.readers ≡ none
          → IsIssued (open_remote now w later w' path o).0
      by_outcome (err e) missed = rw (open_remote-failed now w later w' path e missed) h'
      by_outcome (ok c) missed =
          rw (open_remote-missed now w later w' path c missed)
            (attached-IsIssued later path c w'.readers w'.tiles h')

  -- Where every reader that is kept, at the look-up and when the metadata has been read, has an id
  -- that the tile cache has issued or none, the same holds after the call, whatever its branch; and
  -- a remote reader that was missed and is opened, with a tile cache, has an id that none of the
  -- readers kept until then has, so no tile of theirs is served to it.
  pub open_cog_cached-IsIssued :
      (now : ℕ) (w : Caches C V) (later : ℕ) (w' : Caches C V) (path : Text) (o : Result Text C)
      → IsIssued w
      → IsIssued w'
      → IsIssued (open_cog_cached now w later w' path o).0
        × ((c : C) (t : Cache V)
            → has_scheme path ≡ true
            → lookup_fresh now path w.readers ≡ none
            → o ≡ ok c
            → w'.tiles ≡ some t
            → (id : ℕ) × ((open_cog_cached now w later w' path o).1
                ≡ ok (record { cog = c; reader_id = some id }))
              × Kept (λ (k : OpenCog C). k.reader_id ≢ some id) w'.readers.entries)
  unfolding open_cog_cached attach register
  open_cog_cached-IsIssued now w later w' path o h h' = (
    elim (Bool-cases (has_scheme path)) [
      | inl remote ↦ rw (remote, open_cog_cached) (open_remote-IsIssued now w later w' path o h h')
      | inr local ↦ rw (local, open_cog_cached) h'
    ],
    λ c t remote missed opened tiles. (
      t.next_id,
      rw (remote, opened, open_remote-missed now w later w' path c missed, tiles) refl,
      Kept-weaken (λ (k : OpenCog C). Below t.next_id k.reader_id)
          (λ (k : OpenCog C). k.reader_id ≢ some t.next_id) (λ k. Below-other t.next_id k.reader_id)
          w'.readers.entries
          (subst
            (λ (x : Option (Cache V)).
              Kept (λ (k : OpenCog C). Below (next_of x) k.reader_id) w'.readers.entries)
            tiles h'),
    ),
  )
