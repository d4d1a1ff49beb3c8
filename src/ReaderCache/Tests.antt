-- ===== src/ReaderCache/Tests.antt =====
-- A cache of two readers that live ten seconds.
use duckdb_cog.Base.{
  ℕ, ◌-◌, ◌≤◌, ◌<◌, ◌≡◌, refl, arith, none, List, [], ◌∷◌, Result, ok, length, max,
}
use duckdb_cog.Base.Texts.{Text, text_eq}
use duckdb_cog.Meta.Text.{codes}
use duckdb_cog.ReaderCache.{
  ReaderCache, new, find, put, drop_key, is_fresh, lookup_fresh, retain_fresh, oldest, is_missing,
  make_room, keep, get_or_open,
}
use duckdb_cog.ReaderCache.Bounds.{keep_all, keep_all-bounds, get_or_open-hit}

abbrev three_readers : List (ℕ × Text × ℕ)
three_readers = (1, codes "a", 10) ∷ (2, codes "b", 20) ∷ (3, codes "c", 30) ∷ []

-- The third reader drives the first one out.
first_gone : lookup_fresh 4 (codes "a") (keep_all three_readers (new 10 2)) ≡ none
unfolding new find put drop_key is_fresh lookup_fresh retain_fresh oldest is_missing make_room keep
    keep_all text_eq
first_gone = refl

keep_all-bounds_example : length (keep_all three_readers (new 10 2)).entries ≤ max 2 1
keep_all-bounds_example = keep_all-bounds 10 2 three_readers

empty_miss : lookup_fresh 1 (codes "a") (new {V = ℕ} 10 2) ≡ none
unfolding new find lookup_fresh
empty_miss = refl

still_young : 9 - 3 < (new {V = ℕ} 10 2).ttl
unfolding new
still_young = omega arith

get_or_open-hit_example :
    (after : ReaderCache ℕ) × (get_or_open {E = ℕ} 1 (new 10 2) 3 (new 10 2) (codes "a") (ok 7)
      ≡ (after, ok 7))
    × ((other : ReaderCache ℕ) (t : ℕ) (opener : Result ℕ ℕ)
        → get_or_open 9 after t other (codes "a") opener ≡ (after, ok 7))
get_or_open-hit_example =
    get_or_open-hit 1 3 9 (new 10 2) (new 10 2) (codes "a") 7 empty_miss still_young
