-- ===== src/Sql/Open/Gather/Logged.antt =====
-- Which paths a batch opens: the world is the log of the openings.
use duckdb_cog.Base.{
  ◌≡◌, ◌∙◌, arith, true, false, ◌||◌, List, [], ◌∷◌, Result, All, inl, inr, Bool-cases, subst,
}
use duckdb_cog.Base.Texts.{Text, text_eq, text_eq_sound}
use duckdb_cog.Sql.Open.Once.{logged, Unrepeated}
use duckdb_cog.Sql.Open.Gather.{text_in, first_seen, open_all}

text_in-false :
    (p : Text) (seen : List Text) → text_in p seen ≡ false → All (λ u. text_eq u p ≡ false) seen
unfolding text_in
text_in-false p [] e = tt
text_in-false p (q ∷ seen) e = elim (Bool-cases (text_eq q p)) [
  | inl same ↦ let h : true ≡ false = rw (same) at e in cc
  | inr other ↦ let h : text_in p seen ≡ false = rw (other) at e in (other, text_in-false p seen h)
]

-- The log of the openings names no path twice, and exactly the paths that are asked for.
abbrev pub OpensOnce : List Text → List Text → Type 0
OpensOnce log ps = Unrepeated log × ((p : Text) → text_in p log ≡ text_in p ps)

module _ {C : Type 0} (now : Text → Result Text C) where
  opens-Unrepeated :
      (log ps : List Text)
      → Unrepeated log
      → Unrepeated (open_all (logged now) log (first_seen log ps)).0
  unfolding open_all first_seen
  opens-Unrepeated log [] once = once
  opens-Unrepeated log (p ∷ ps) once = elim (Bool-cases (text_in p log)) [
    | inl old ↦ rw (old) (opens-Unrepeated log ps once)
    | inr new ↦ rw (new) (opens-Unrepeated (p ∷ log) ps (text_in-false p log new, once))
  ]

  opens-all :
      (q : Text) (log ps : List Text)
      → text_in q (open_all (logged now) log (first_seen log ps)).0
        ≡ (text_in q log || text_in q ps)
  unfolding open_all first_seen text_in
  opens-all q log [] = ground arith
  opens-all q log (p ∷ ps) = elim (Bool-cases (text_in p log)) [
    | inl old ↦ rw (old) (opens-all q log ps ∙ known q p log ps old)
    | inr new ↦ rw (new) (opens-all q (p ∷ log) ps ∙ ground arith)
  ]
    where
      known :
          (q p : Text) (log ps : List Text)
          → text_in p log ≡ true
          → (text_in q log || text_in q ps) ≡ (text_in q log || (text_eq p q || text_in q ps))
      known q p log ps old = elim (Bool-cases (text_eq p q)) [
        | inl same ↦
            let h : text_in q log ≡ true =
              subst (λ t. text_in t log ≡ true) (text_eq_sound p q same) old in
            ground arith
        | inr other ↦ ground arith
      ]

  pub first_seen-OpensOnce :
      (ps : List Text) → OpensOnce (open_all (logged now) [] (first_seen [] ps)).0 ps
  unfolding text_in
  first_seen-OpensOnce ps = (opens-Unrepeated [] ps tt, λ q. opens-all q [] ps)
