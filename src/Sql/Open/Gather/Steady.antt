-- ===== src/Sql/Open/Gather/Steady.antt =====
-- Openings that answer the same whenever they are done, against each path by itself.
use duckdb_cog.Base.{
  ◌≡◌, refl, ◌∙◌, subst, true, some, List, [], ◌∷◌, Result, ok, err, ◌>>=◌, map_err, try_map, All,
  inl, inr, Bool-cases, bind-eq_ok,
}
use duckdb_cog.Base.Texts.{Text, text_eq, text_eq_sound, text_eq_refl}
use duckdb_cog.Sql.Open.{Opener, find}
use duckdb_cog.Sql.Open.Alone.{Kept}
use duckdb_cog.Sql.Open.Gather.{text_in, first_seen, open_all, gather}

-- Every path that has a property among those kept has it among those seen.
module _ (Q : Text → Type 0) where
  pub text_in-All : (p : Text) (seen : List Text) → All Q seen → text_in p seen ≡ true → Q p
  unfolding text_in
  text_in-All p [] a e = cc
  text_in-All p (q ∷ qs) a e = elim (Bool-cases (text_eq q p)) [
    | inl same ↦ subst Q (text_eq_sound q p same) a.0
    | inr other ↦ let h : text_in p qs ≡ true = rw (other) at e in text_in-All p qs a.1 h
  ]

  pub first_seen-All : (seen ps : List Text) → All Q seen → All Q (first_seen seen ps) → All Q ps
  unfolding first_seen
  first_seen-All seen [] s a = tt
  first_seen-All seen (p ∷ ps) s a = elim (Bool-cases (text_in p seen)) [
    | inl old ↦
        let b : All Q (first_seen seen ps) = rw (old) at a in
        (text_in-All p seen s old, first_seen-All seen ps s b)
    | inr new ↦
        let b : Q p × All Q (first_seen (p ∷ seen) ps) = rw (new) at a in
        (b.0, first_seen-All (p ∷ seen) ps (b.0, s) b.1)
  ]

module _ {C : Type 0} where
  -- The map has the path.
  abbrev pub Found : List (Text × C) → Text → Type 0
  Found files p = (c : C) × (find p files ≡ some c)

  Found-more :
      (files : List (Text × C)) (p q : Text) (c : C) → Found files q → Found ((p, c) ∷ files) q
  unfolding find
  Found-more files p q c (d, e) = elim (Bool-cases (text_eq p q)) [
    | inl same ↦ (c, rw (same) refl)
    | inr other ↦ (d, rw (other) e)
  ]

module _ {E W C : Type 0} (fail : Text → E) (open_cog : Opener W C) (now : Text → Result Text C)
    (steady : (w : W) (path : Text) → (open_cog w path).1 ≡ now path) where
  abbrev pub open_alone : Text → Result E C
  open_alone path = map_err fail (now path)

  pub collect_now : List (Text × C) → List Text → Result E (List (Text × C))
  collect_now files [] = ok files
  collect_now files (p ∷ ps) = open_alone p >>= λ c. collect_now ((p, c) ∷ files) ps

  pub collect_lem :
      (w : W) (files : List (Text × C)) (ps : List Text)
      → gather fail files (open_all open_cog w ps).1 ≡ collect_now files ps
  unfolding open_all gather collect_now
  collect_lem w files [] = refl
  collect_lem w files (p ∷ ps) =
      go (open_cog w p).1 (now p) (steady w p)
        (λ c. collect_lem (open_cog w p).0 ((p, c) ∷ files) ps)
    where
      go :
          (o n : Result Text C)
          → o ≡ n
          → ((c : C)
              → gather fail ((p, c) ∷ files) (open_all open_cog (open_cog w p).0 ps).1
                ≡ collect_now ((p, c) ∷ files) ps)
          → gather fail files ((p, o) ∷ (open_all open_cog (open_cog w p).0 ps).1)
            ≡ (map_err fail n >>= λ c. collect_now ((p, c) ∷ files) ps)
      go (err e) n h ih = rw (← h) refl
      go (ok c) n h ih = rw (← h) (ih c)

  -- What the map of the files holds once all paths are open.
  pub record Holds (m : List (Text × C)) (files : List (Text × C)) (ps : List Text) : Type 0 where
    pub kept : Kept open_alone m
    pub found : All (Found m) ps
    pub more : (q : Text) → Found files q → Found m q

  pub collect-Holds :
      (files : List (Text × C)) (ps : List Text) (m : List (Text × C))
      → Kept open_alone files
      → collect_now files ps ≡ ok m
      → Holds m files ps
  unfolding collect_now find
  collect-Holds files [] m kept e =
      let same : files ≡ m = cc in
      record {
        kept = subst (Kept open_alone) same kept;
        found = tt;
        more = λ q h. subst (λ l. Found l q) same h;
      }
  collect-Holds files (p ∷ ps) m kept e =
      let (c, now_ok, rest) = bind-eq_ok (open_alone p) _ e in
      let h : Holds m ((p, c) ∷ files) ps =
        collect-Holds ((p, c) ∷ files) ps m (now_ok, kept) rest in
      record {
        kept = h.kept;
        found = (h.more p (c, first p c), h.found);
        more = λ q f. h.more q (Found-more files p q c f);
      }
    where
      first : (p : Text) (c : C) → find p ((p, c) ∷ files) ≡ some c
      first p c = rw (find, text_eq_refl p) refl

  -- What does not depend on the map can be run after the openings, each by itself.
  pub collect_then :
      {B : Type 0} (files : List (Text × C)) (ps : List Text)
      (next : List (Text × C) → Result E (List B)) (rest : Result E (List B))
      → ((m : List (Text × C)) → collect_now files ps ≡ ok m → next m ≡ rest)
      → (collect_now files ps >>= next) ≡ (try_map open_alone ps >>= λ _. rest)
  unfolding collect_now
  collect_then {B} files [] next rest h = h files refl
  collect_then {B} files (p ∷ ps) next rest h =
      go (now p) refl (λ c. collect_then ((p, c) ∷ files) ps next rest)
    where
      go :
          (n : Result Text C)
          → now p ≡ n
          → ((c : C)
              → ((m : List (Text × C)) → collect_now ((p, c) ∷ files) ps ≡ ok m → next m ≡ rest)
              → (collect_now ((p, c) ∷ files) ps >>= next) ≡ (try_map open_alone ps >>= λ _. rest))
          → ((open_alone p >>= λ c. collect_now ((p, c) ∷ files) ps) >>= next)
            ≡ ((open_alone p >>= λ c. try_map open_alone ps >>= λ cs. ok (c ∷ cs)) >>= λ _. rest)
      go (err e) q ih = rw (q) refl
      go (ok c) q ih =
          rw (q) (ih c (λ m e. h m (rw (q, collect_now) e)) ∙ drop (try_map open_alone ps))
        where
          drop :
              (m : Result E (List C))
              → (m >>= λ _. rest) ≡ ((m >>= λ cs. ok (c ∷ cs)) >>= λ _. rest)
          drop (ok cs) = refl
          drop (err e) = refl
