-- ===== src/Sql/Open/Once.antt =====
-- Which paths a chunk opens: the world is the log of the openings.
use duckdb_cog.Base.{
  ◌≡◌, refl, sym, ap, subst, false, Option, none, some, List, [], ◌∷◌, Result, ok, err, All, inl,
  inr, Bool-cases,
}
use duckdb_cog.Base.Texts.{Text, text_eq}
use duckdb_cog.Sql.{S}
use duckdb_cog.Sql.Open.{
  find, Opener, opened, open_once, opened_now, answered, opened_row, prepared, rows_loop,
}

-- Openings that write their path into a log.
abbrev pub logged : {C : Type 0} → (Text → Result Text C) → Opener (List Text) C
logged now log path = (path ∷ log, now path)

abbrev pub Unrepeated : List Text → Type 0
Unrepeated [] = Unit
Unrepeated (t ∷ ts) = All (λ u. text_eq u t ≡ false) ts × Unrepeated ts

module _ {C : Type 0} where
  paths : List (Text × C) → List Text
  paths [] = []
  paths ((path, c) ∷ seen) = path ∷ paths seen

  find-none :
      (path : Text) (seen : List (Text × C))
      → find path seen ≡ none
      → All (λ u. text_eq u path ≡ false) (paths seen)
  unfolding find paths
  find-none path [] e = tt
  find-none path ((k, c) ∷ seen) e = elim (Bool-cases (text_eq k path)) [
    | inl same ↦ let h : ◌≡◌ {A = Option C} (some c) none = rw (same) at e in cc
    | inr other ↦ let h : find path seen ≡ none = rw (other) at e in (other, find-none path seen h)
  ]

module _ {C Z R J B : Type 0} (now : Text → Result Text C)
    (prepare : Z → R → S (Z × Option (Text × J))) (answer : Text → C → J → S (Option B)) where
  -- The log is that of the files that the chunk holds.
  record Tracks (log : List Text) (seen : List (Text × C)) : Type 0 where
    same : log ≡ paths seen
    once : Unrepeated log

  Once : List Text × S (List (Text × C) × C) → Type 0
  Once (log, err e) = Unrepeated log
  Once (log, ok (seen, c)) = Tracks log seen

  open_once-Once :
      (log : List Text) (seen : List (Text × C)) (path : Text)
      → Tracks log seen
      → Once (open_once (logged now) log seen path)
  unfolding open_once opened opened_now Once paths
  open_once-Once log seen path t = go (find path seen) refl
    where
      new : find path seen ≡ none → Unrepeated (path ∷ log)
      new e =
          (subst (All (λ u. text_eq u path ≡ false)) (sym t.same) (find-none path seen e), t.once)

      fresh :
          (o : Result Text C)
          → find path seen ≡ none
          → Once (opened_now (logged now) path seen (path ∷ log, o))
      fresh (err e) h = new h
      fresh (ok c) h = record { same = ap (λ l. path ∷ l) t.same; once = new h }

      go : (o : Option C) → find path seen ≡ o → Once (opened (logged now) log seen path o)
      go (some c) e = t
      go none e = fresh (now path) e

  abbrev Next : Type 0
  Next = List Text → List (Text × C) → List Text × S (List (Option B))

  abbrev Goes : Next → Type 0
  Goes next =
      (log : List Text) (seen : List (Text × C)) → Tracks log seen → Unrepeated (next log seen).0

  on_answer :
      (o : S (Option B)) (log : List Text) (seen : List (Text × C)) (next : Next)
      → Tracks log seen
      → Goes next
      → Unrepeated (answered (logged now) prepare answer log seen o next).0
  unfolding answered
  on_answer (err e) log seen next t ih = t.once
  on_answer (ok v) log seen next t ih = ih log seen t

  on_opened :
      (path : Text) (j : J) (o : List Text × S (List (Text × C) × C)) (next : Next)
      → Once o
      → Goes next
      → Unrepeated (opened_row (logged now) prepare answer path j o next).0
  unfolding opened_row Once
  on_opened path j (log, err e) next t ih = t
  on_opened path j (log, ok (seen, c)) next t ih = on_answer (answer path c j) log seen next t ih

  on_row :
      (p : S (Z × Option (Text × J))) (log : List Text) (seen : List (Text × C)) (next : Z → Next)
      → Tracks log seen
      → ((z : Z) → Goes (next z))
      → Unrepeated (prepared (logged now) prepare answer p log seen next).0
  unfolding prepared
  on_row (err e) log seen next t ih = t.once
  on_row (ok (z, none)) log seen next t ih = ih z log seen t
  on_row (ok (z, some (path, j))) log seen next t ih =
      on_opened path j (open_once (logged now) log seen path) (next z)
        (open_once-Once log seen path t) (ih z)

  rows_loop-Tracks :
      (z : Z) (log : List Text) (seen : List (Text × C)) (rs : List R)
      → Tracks log seen
      → Unrepeated (rows_loop (logged now) prepare answer z log seen rs).0
  unfolding rows_loop
  rows_loop-Tracks z log seen [] t = t.once
  rows_loop-Tracks z log seen (r ∷ rs) t =
      on_row (prepare z r) log seen
        (λ z' log' seen'. rows_loop (logged now) prepare answer z' log' seen' rs) t
        (λ z' log' seen' t'. rows_loop-Tracks z' log' seen' rs t')

  -- Whatever the rows of a chunk are and however the chunk ends, no path is opened twice.
  pub rows_loop-Unrepeated :
      (z : Z) (rs : List R) → Unrepeated (rows_loop (logged now) prepare answer z [] [] rs).0
  unfolding paths
  rows_loop-Unrepeated z rs = rows_loop-Tracks z [] [] rs (record { same = refl; once = tt })
