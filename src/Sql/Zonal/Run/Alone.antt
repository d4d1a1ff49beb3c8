-- ===== src/Sql/Zonal/Run/Alone.antt =====
-- The phases of `RS_ZonalStats` against the rows, each with its own opening.
use duckdb_cog.Base.{
  ◌≡◌, refl, sym, ap, ◌∙◌, Option, none, some, List, [], ◌∷◌, ◌++◌, map, append-nil, append_assoc,
  Result, ok, err, ◌>>=◌, try_map, All, if◌then◌else◌,
}
use duckdb_cog.Base.Texts.{Text}
use duckdb_cog.Sql.{SqlFailure, error, panic, cannot_open, S}
use duckdb_cog.Sql.Open.{Opener}
use duckdb_cog.Sql.Open.Alone.{Kept, find-Kept}
use duckdb_cog.Sql.Zonal.{Job}
use duckdb_cog.Sql.Open.Gather.{first_seen}
use duckdb_cog.Sql.Open.Gather.Firsts.{first_seen-fails_first}
use duckdb_cog.Sql.Open.Gather.Logged.{OpensOnce, first_seen-OpensOnce}
use duckdb_cog.Sql.Open.Once.{logged}
use duckdb_cog.Sql.Open.Gather.Steady.{
  first_seen-All, open_alone, collect_lem, Found, collect-Holds, collect_then,
}
use duckdb_cog.Sql.Zonal.Run.{run_loop, settle, any_panic, run_rows, job_paths, future, run_jobs}

module _ {E A : Type 0} where
  run_loop_failed :
      (out : List (Option A)) (e : E) (rs : List (Result E (Option A)))
      → run_loop out (some e) rs ≡ err e
  unfolding run_loop
  run_loop_failed out e [] = refl
  run_loop_failed out e (ok v ∷ rs) = run_loop_failed (out ++ v ∷ []) e rs
  run_loop_failed out e (err e' ∷ rs) = run_loop_failed (out ++ none ∷ []) e rs

  run_loop-none :
      (out : List (Option A)) (rs : List (Result E (Option A)))
      → run_loop out none rs ≡ (try_map (λ r. r) rs >>= λ vs. ok (out ++ vs))
  unfolding run_loop
  run_loop-none out [] = ap ok (sym (append-nil out))
  run_loop-none out (ok v ∷ rs) = run_loop-none (out ++ v ∷ []) rs ∙ moved (try_map (λ r. r) rs)
    where
      moved :
          (m : Result E (List (Option A)))
          → (m >>= λ vs. ok ((out ++ v ∷ []) ++ vs))
            ≡ ((m >>= λ vs. ok (v ∷ vs)) >>= λ vs. ok (out ++ vs))
      moved (ok vs) = ap ok (append_assoc out (v ∷ []) vs)
      moved (err e) = refl
  run_loop-none out (err e ∷ rs) = run_loop_failed (out ++ none ∷ []) e rs

module _ {X A : Type 0} (f : X → S A) where
  try_map-map : (xs : List X) → try_map (λ r. r) (map f xs) ≡ try_map f xs
  try_map-map [] = refl
  try_map-map (x ∷ xs) = rw (try_map-map xs) refl

-- A panic of any row, else all values in order or the error of the first row that has one.
abbrev first_failure : {A : Type 0} → List (S A) → S (List A)
first_failure rs = if any_panic rs then err panic else try_map (λ r. r) rs

module _ {A : Type 0} where
  -- Whatever other rows fail, the rows end with a panic if any row panics, and otherwise with all
  -- their values in order, none for a row without a future, or with the first row's error.
  run_rows-first : (rows : List (Option (S A))) → run_rows rows ≡ first_failure (map settle rows)
  unfolding run_rows
  run_rows-first rows =
      ap (λ (o : S (List (Option A))). if any_panic (map settle rows) then err panic else o)
        (run_loop-none [] (map settle rows) ∙ same (try_map (λ r. r) (map settle rows)))
    where
      same : (m : S (List (Option A))) → (m >>= λ vs. ok ([] ++ vs)) ≡ m
      same (ok vs) = refl
      same (err e) = refl

module _ {W C A B : Type 0} (open_cog : Opener W C) (run : Job A → C → S B)
    (now : Text → Result Text C)
    (steady : (w : W) (path : Text) → (open_cog w path).1 ≡ now path) where
  abbrev pub opened_alone : Text → S C
  opened_alone = open_alone (λ e. error (cannot_open e)) open_cog now steady

  abbrev pub job_alone : Option (Job A) → S (Option B)
  job_alone none = ok none
  job_alone (some j) = opened_alone j.path >>= λ c. run j c >>= λ v. ok (some v)

  futures :
      (m : List (Text × C)) (jobs : List (Option (Job A)))
      → Kept opened_alone m
      → All (Found m) (job_paths open_cog run jobs)
      → (futs : List (Option (S B))) × (try_map (future open_cog run m) jobs ≡ ok futs)
        × (map settle futs ≡ map job_alone jobs)
  unfolding future job_paths settle
  futures m [] kept found = ([], refl, refl)
  futures m (none ∷ jobs) kept found =
      let (futs, e, same) = futures m jobs kept found in (none ∷ futs, rw (e) refl, rw (same) refl)
  futures m (some j ∷ jobs) kept ((c, f), found) =
      let (futs, e, same) = futures m jobs kept found in
      let opened : opened_alone j.path ≡ ok c = find-Kept opened_alone j.path m c kept f in
      (
        some (run j c) ∷ futs,
        rw (f, future) (rw (e) refl),
        rw (opened, same) (settled (run j c) (map job_alone jobs)),
      )
    where
      settled :
          (o : S B) (rest : List (S (Option B)))
          → settle (some o) ∷ rest ≡ (o >>= λ v. ok (some v)) ∷ rest
      settled (ok v) rest = refl
      settled (err e) rest = refl

  -- Of the results of all jobs, each by itself: a panic before all else, then the first error.
  abbrev pub jobs_alone : List (Option (Job A)) → S (List (Option B))
  jobs_alone jobs = if any_panic (map job_alone jobs) then err panic else try_map job_alone jobs

  rows_alone :
      (m : List (Text × C)) (jobs : List (Option (Job A)))
      → Kept opened_alone m
      → All (Found m) (job_paths open_cog run jobs)
      → (try_map (future open_cog run m) jobs >>= λ futs. run_rows futs) ≡ jobs_alone jobs
  rows_alone m jobs kept found =
      let (futs, e, same) = futures m jobs kept found in
      rw (e) (
        run_rows-first futs
        ∙ ap (first_failure {A = Option B}) same
        ∙ ap (λ (o : S (List (Option B))). if any_panic (map job_alone jobs) then err panic else o)
            (try_map-map job_alone jobs))

  -- For rows whose futures end. Where opening a path answers the same whenever it is done, no row of
  -- a chunk misses its file, and the error of the first path that cannot be opened comes before all
  -- errors of rows; when all open, the result is that of each row by itself: a panic if any row
  -- panics, else all values in order or the first row's error. An opener that logs its paths has
  -- then logged exactly the paths of the jobs, each once.
  pub run_jobs-alone :
      (w : W) (jobs : List (Option (Job A)))
      → ((run_jobs open_cog run w jobs).1
          ≡ (try_map opened_alone (job_paths open_cog run jobs) >>= λ _. jobs_alone jobs))
        × OpensOnce (run_jobs (logged now) run [] jobs).0 (job_paths open_cog run jobs)
  unfolding run_jobs
  run_jobs-alone w jobs =
      let all : List Text = job_paths open_cog run jobs in
      let ps : List Text = first_seen [] all in
      let failure : Text → SqlFailure = λ e. error (cannot_open e) in
      (
        rw (collect_lem failure open_cog now steady w [] ps) (
            collect_then failure open_cog now steady [] ps
              (λ files. try_map (future open_cog run files) jobs >>= λ futs. run_rows futs)
              (jobs_alone jobs)
              (λ m e.
                let h = collect-Holds failure open_cog now steady [] ps m tt e in
                rows_alone m jobs h.kept (first_seen-All (Found m) [] all tt h.found))
            ∙ first_seen-fails_first opened_alone (jobs_alone jobs) all),
        first_seen-OpensOnce now all,
      )
