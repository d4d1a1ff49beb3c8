-- ===== src/Sql/Open/Alone.antt =====
-- The loop that opens each path once against the rows, each opened by itself.
use duckdb_cog.Base.{
  ◌≡◌, refl, sym, ap, ◌∙◌, subst, Option, none, some, List, [], ◌∷◌, Result, ok, err, ◌>>=◌,
  map_err, try_map, inl, inr, Bool-cases,
}
use duckdb_cog.Base.Texts.{Text, text_eq, text_eq_sound}
use duckdb_cog.Sql.{error, cannot_open, S}
use duckdb_cog.Sql.Open.{
  find, Opener, remembered, remember, opened, open_once, opened_now, answered, opened_row, prepared,
  rows_loop,
}

-- Entries that are the values of their keys.
module _ {E V : Type 0} (value : Text → Result E V) where
  abbrev pub Kept : List (Text × V) → Type 0
  Kept [] = Unit
  Kept ((k, v) ∷ m) = (value k ≡ ok v) × Kept m

  pub find-Kept :
      (key : Text) (m : List (Text × V)) (v : V) → Kept m → find key m ≡ some v → value key ≡ ok v
  unfolding find
  find-Kept key [] v kept e = cc
  find-Kept key ((k, u) ∷ m) v kept e = elim (Bool-cases (text_eq k key)) [
    | inl same ↦
        let h : some u ≡ some v = rw (same) at e in
        let is : u ≡ v = cc in
        subst (λ t. value t ≡ ok v) (text_eq_sound k key same) (kept.0 ∙ ap ok is)
    | inr other ↦ let h : find key m ≡ some v = rw (other) at e in find-Kept key m v kept.1 h
  ]

-- A step that keeps something, and what it is to answer.
module _ {Z A : Type 0} (Good : Z → Type 0) where
  abbrev pub Agrees : S (Z × A) → S A → Type 0
  Agrees (err e) o = err e ≡ o
  Agrees (ok (z, a)) o = Good z × (ok a ≡ o)

module _ {V : Type 0} (parse : Text → S V) where
  pub remember-Agrees :
      (seen : List (Text × V)) (key : Text)
      → Kept parse seen
      → Agrees (Kept parse) (remember parse seen key) (parse key)
  unfolding remember remembered
  remember-Agrees seen key kept = go (find key seen) refl
    where
      parsed :
          (o : S V) → parse key ≡ o → Agrees (Kept parse) (o >>= λ v. ok ((key, v) ∷ seen, v)) o
      parsed (err e) h = refl
      parsed (ok v) h = ((h, kept), refl)

      go :
          (o : Option V)
          → find key seen ≡ o
          → Agrees (Kept parse) (remembered parse seen key o) (parse key)
      go (some v) e = (kept, sym (find-Kept parse key seen v kept e))
      go none e = parsed (parse key) refl

-- A loop that keeps nothing agrees with its own judgement of a row.
pub stateless-Agrees :
    {A : Type 0} (z : Unit {0}) (o : S A)
    → Agrees (λ (z' : Unit {0}). Unit {0}) (o >>= λ a. ok (z, a)) o
stateless-Agrees z (err e) = refl
stateless-Agrees z (ok a) = (tt, refl)

module _ {W C Z R J B : Type 0} (open_cog : Opener W C)
    (prepare : Z → R → S (Z × Option (Text × J))) (answer : Text → C → J → S (Option B))
    (now : Text → Result Text C) (steady : (w : W) (path : Text) → (open_cog w path).1 ≡ now path)
    (Good : Z → Type 0) (alone : R → S (Option (Text × J)))
    (agrees : (z : Z) (r : R) → Good z → Agrees Good (prepare z r) (alone r)) where
  abbrev pub open_alone : Text → S C
  open_alone path = map_err (λ e. error (cannot_open e)) (now path)

  abbrev pub answer_alone : Option (Text × J) → S (Option B)
  answer_alone none = ok none
  answer_alone (some (path, j)) = open_alone path >>= λ c. answer path c j

  open_once-Agrees :
      (w : W) (seen : List (Text × C)) (path : Text)
      → Kept open_alone seen
      → Agrees (Kept open_alone) (open_once open_cog w seen path).1 (open_alone path)
  unfolding open_once opened opened_now
  open_once-Agrees w seen path kept = go (find path seen) refl
    where
      fresh :
          (o : W × Result Text C)
          → o.1 ≡ now path
          → Agrees (Kept open_alone) (opened_now open_cog path seen o).1 (open_alone path)
      fresh (w', err e) h = rw (← h) refl
      fresh (w', ok c) h = ((rw (← h) refl, kept), rw (← h) refl)

      go :
          (o : Option C)
          → find path seen ≡ o
          → Agrees (Kept open_alone) (opened open_cog w seen path o).1 (open_alone path)
      go (some c) e = (kept, sym (find-Kept open_alone path seen c kept e))
      go none e = fresh (open_cog w path) (steady w path)

  abbrev Next : Type 0
  Next = W → List (Text × C) → W × S (List (Option B))

  -- The rest of the loop answers the same wherever it starts.
  abbrev Settled : Next → S (List (Option B)) → Type 0
  Settled next rest =
      (w : W) (seen : List (Text × C)) → Kept open_alone seen → (next w seen).1 ≡ rest

  abbrev with_rest : S (Option B) → S (List (Option B)) → S (List (Option B))
  with_rest v rest = v >>= λ v'. rest >>= λ vs. ok (v' ∷ vs)

  on_answer :
      (o : S (Option B)) (w : W) (seen : List (Text × C)) (next : Next) (rest : S (List (Option B)))
      → Kept open_alone seen
      → Settled next rest
      → (answered open_cog prepare answer w seen o next).1 ≡ with_rest o rest
  unfolding answered
  on_answer (err e) w seen next rest kept ih = refl
  on_answer (ok v) w seen next rest kept ih = rw (ih w seen kept) refl

  on_opened :
      (path : Text) (j : J) (o : W × S (List (Text × C) × C)) (next : Next)
      (rest : S (List (Option B)))
      → Agrees (Kept open_alone) o.1 (open_alone path)
      → Settled next rest
      → (opened_row open_cog prepare answer path j o next).1
        ≡ with_rest (answer_alone (some (path, j))) rest
  unfolding opened_row
  on_opened path j (w, err e) next rest a ih = rw (← a) refl
  on_opened path j (w, ok (seen, c)) next rest a ih =
      on_answer (answer path c j) w seen next rest a.0 ih
      ∙ ap (λ o. with_rest (o >>= λ c'. answer path c' j) rest) a.1

  on_row :
      (p : S (Z × Option (Text × J))) (o : S (Option (Text × J))) (w : W) (seen : List (Text × C))
      (next : Z → Next) (rest : S (List (Option B)))
      → Kept open_alone seen
      → Agrees Good p o
      → ((z : Z) → Good z → Settled (next z) rest)
      → (prepared open_cog prepare answer p w seen next).1 ≡ with_rest (o >>= answer_alone) rest
  unfolding prepared
  on_row (err e) o w seen next rest kept a ih = rw (← a) refl
  on_row (ok (z, none)) o w seen next rest kept a ih = rw (← a.1) (rw (ih z a.0 w seen kept) refl)
  on_row (ok (z, some (path, j))) o w seen next rest kept a ih = rw (← a.1) (
      on_opened path j (open_once open_cog w seen path) (next z) rest
        (open_once-Agrees w seen path kept) (ih z a.0))

  -- Where opening a path answers the same whenever it is done, and the rows' arguments are judged
  -- the same whatever rows came before: the loop that opens each path of the chunk once answers
  -- as one run of each row by itself, all values in the order of the rows or the first row's error.
  pub rows_loop-alone :
      (z : Z) (w : W) (seen : List (Text × C)) (rs : List R)
      → Good z
      → Kept open_alone seen
      → (rows_loop open_cog prepare answer z w seen rs).1
        ≡ try_map (λ r. alone r >>= answer_alone) rs
  unfolding rows_loop
  rows_loop-alone z w seen [] good kept = refl
  rows_loop-alone z w seen (r ∷ rs) good kept =
      on_row (prepare z r) (alone r) w seen
        (λ z' w' seen'. rows_loop open_cog prepare answer z' w' seen' rs)
        (try_map (λ r. alone r >>= answer_alone) rs) kept (agrees z r good)
        (λ z' good' w' seen' kept'. rows_loop-alone z' w' seen' rs good' kept')
