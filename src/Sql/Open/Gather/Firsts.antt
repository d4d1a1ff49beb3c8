-- ===== src/Sql/Open/Gather/Firsts.antt =====
-- The first path that does not open is the same with and without the repetitions.
use duckdb_cog.Base.{
  ◌≡◌, refl, sym, ◌∙◌, List, [], ◌∷◌, Result, ok, err, ◌>>=◌, try_map, All, inl, inr, Bool-cases,
}
use duckdb_cog.Base.Texts.{Text}
use duckdb_cog.Sql.Open.Gather.{text_in, first_seen}
use duckdb_cog.Sql.Open.Gather.Steady.{text_in-All}

module _ {E C B : Type 0} (opened : Text → Result E C) (rest : Result E B) where
  abbrev Opens : Text → Type 0
  Opens p = (c : C) × (opened p ≡ ok c)

  after : List Text → Result E B
  after ps = try_map opened ps >>= λ _. rest

  after-opens : (p : Text) (ps : List Text) (c : C) → opened p ≡ ok c → after (p ∷ ps) ≡ after ps
  unfolding after
  after-opens p ps c e = rw (e) (drop (try_map opened ps))
    where
      drop : (m : Result E (List C)) → ((m >>= λ cs. ok (c ∷ cs)) >>= λ _. rest) ≡ (m >>= λ _. rest)
      drop (ok cs) = refl
      drop (err e) = refl

  after-fails : (p : Text) (ps : List Text) (e : E) → opened p ≡ err e → after (p ∷ ps) ≡ err e
  unfolding after
  after-fails p ps e q = rw (q) refl

  from : (seen ps : List Text) → All Opens seen → after (first_seen seen ps) ≡ after ps
  unfolding first_seen
  from seen [] a = refl
  from seen (p ∷ ps) a = elim (Bool-cases (text_in p seen)) [
    | inl old ↦
        let (c, e) = text_in-All Opens p seen a old in
        rw (old) (from seen ps a ∙ sym (after-opens p ps c e))
    | inr new ↦ rw (new) (go (opened p) refl (λ a'. from (p ∷ seen) ps a'))
  ]
    where
      go :
          (o : Result E C)
          → opened p ≡ o
          → (All Opens (p ∷ seen) → after (first_seen (p ∷ seen) ps) ≡ after ps)
          → after (p ∷ first_seen (p ∷ seen) ps) ≡ after (p ∷ ps)
      go (err e) q ih = after-fails p (first_seen (p ∷ seen) ps) e q ∙ sym (after-fails p ps e q)
      go (ok c) q ih =
          after-opens p (first_seen (p ∷ seen) ps) c q ∙ ih ((c, q), a) ∙ sym (after-opens p ps c q)

  pub first_seen-fails_first :
      (ps : List Text)
      → (try_map opened (first_seen [] ps) >>= λ _. rest) ≡ (try_map opened ps >>= λ _. rest)
  unfolding after
  first_seen-fails_first ps = from [] ps tt
