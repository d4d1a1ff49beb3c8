-- ===== src/Pixel/Select/Budget.antt =====
-- What `select_level` chooses.
use duckdb_cog.Base.{
  ℕ, zero, suc, ◌+◌, ◌-◌, ◌≤◌, ◌<◌, ◌≡◌, ◌⊎◌, inl, inr, refl, sym, ◌∙◌, subst, arith, ◌||◌, Option,
  some, List, [], ◌∷◌, leb, ◌==◌, length, head?, get_elem?, Bool-cases, Option-cases,
}
use duckdb_cog.Float.{Float}
use duckdb_cog.Meta.{LevelMeta, Georef, CogMeta, Bbox}
use duckdb_cog.Pixel.Select.Pixels.{pixels_in, window_area-eq_pixels}
use duckdb_cog.Pixel.Select.{window_area, first_level, select_level}

get_elem?-bounds :
    {A : Type 0} (xs : List A) (i : ℕ) {a : A} → get_elem? xs i ≡ some a → i < length xs
get_elem?-bounds [] i e = ground arith
get_elem?-bounds (x ∷ xs) zero e = omega arith
get_elem?-bounds (x ∷ xs) (suc i) e = omega (arith, get_elem?-bounds xs i e)

-- The index of the first level within the budget, or that there is none, for given areas.
unfoldable pub FirstFit : (LevelMeta → ℕ) → ℕ → List LevelMeta → ℕ → Type 0
FirstFit area budget lvs i =
    (lv : LevelMeta) × (get_elem? lvs i ≡ some lv)
    × (area lv ≤ budget)
    × ((j : ℕ) (lv' : LevelMeta) → j < i → get_elem? lvs j ≡ some lv' → budget < area lv')

unfoldable pub NoFit : (LevelMeta → ℕ) → ℕ → List LevelMeta → Type 0
NoFit area budget lvs = (j : ℕ) (lv : LevelMeta) → get_elem? lvs j ≡ some lv → budget < area lv

FirstFit-same :
    (area area' : LevelMeta → ℕ) (budget : ℕ) (lvs : List LevelMeta) (i : ℕ)
    → ((lv : LevelMeta) → area lv ≡ area' lv)
    → FirstFit area budget lvs i
    → FirstFit area' budget lvs i
unfolding FirstFit
FirstFit-same area area' budget lvs i same (lv, at, fit, before) =
    (lv, at, omega (arith, same lv, fit), λ j lv' lt e. omega (arith, same lv', before j lv' lt e))

NoFit-same :
    (area area' : LevelMeta → ℕ) (budget : ℕ) (lvs : List LevelMeta)
    → ((lv : LevelMeta) → area lv ≡ area' lv)
    → NoFit area budget lvs
    → NoFit area' budget lvs
unfolding NoFit
NoFit-same area area' budget lvs same misses j lv e = omega (arith, same lv, misses j lv e)

module _ {F : Type 0} ⦃fl : Float F⦄ where
  abbrev area_of : Georef F → LevelMeta → Bbox F → LevelMeta → ℕ
  area_of g0 l0 b lv = window_area g0 l0 lv b

  -- Levels over budget, with one more in front.
  over_cons :
      (g0 : Georef F) (l0 : LevelMeta) (b : Bbox F) (budget k : ℕ) (lv : LevelMeta)
      (lvs : List LevelMeta)
      → budget < window_area g0 l0 lv b
      → ((j : ℕ) (lv' : LevelMeta)
          → j < k
          → get_elem? lvs j ≡ some lv'
          → budget < window_area g0 l0 lv' b)
      → (j : ℕ) (lv' : LevelMeta) → j < suc k
      → get_elem? (lv ∷ lvs) j ≡ some lv'
      → budget < window_area g0 l0 lv' b
  over_cons g0 l0 b budget k lv lvs over before zero lv' lt e =
      subst (λ (l : LevelMeta). budget < window_area g0 l0 l b) (some_inj e) over
    where
      some_inj : {l l' : LevelMeta} → ◌≡◌ {A = Option LevelMeta} (some l) (some l') → l ≡ l'
      some_inj h = cc
  over_cons g0 l0 b budget k lv lvs over before (suc j) lv' lt e = before j lv' (omega arith) e

  NoFit-cons :
      (g0 : Georef F) (l0 : LevelMeta) (b : Bbox F) (budget : ℕ) (lv : LevelMeta)
      (lvs : List LevelMeta)
      → budget < window_area g0 l0 lv b
      → NoFit (area_of g0 l0 b) budget lvs
      → NoFit (area_of g0 l0 b) budget (lv ∷ lvs)
  unfolding NoFit
  NoFit-cons g0 l0 b budget lv lvs over misses j lv' e =
      over_cons g0 l0 b budget j lv lvs over (λ i l lt e'. misses i l e') j lv' (omega arith) e

  NoFit-nil :
      (g0 : Georef F) (l0 : LevelMeta) (b : Bbox F) (budget : ℕ) → NoFit (area_of g0 l0 b) budget []
  unfolding NoFit
  NoFit-nil g0 l0 b budget j lv e = ground arith

  first_level_lem :
      (g0 : Georef F) (l0 : LevelMeta) (b : Bbox F) (budget last i : ℕ) (lvs : List LevelMeta)
      → ((k : ℕ) × (first_level g0 l0 b budget last i lvs ≡ i + k)
          × FirstFit (area_of g0 l0 b) budget lvs k)
        ⊎ ((first_level g0 l0 b budget last i lvs ≡ last) × NoFit (area_of g0 l0 b) budget lvs)
  unfolding first_level FirstFit
  first_level_lem g0 l0 b budget last i [] = inr (refl, NoFit-nil g0 l0 b budget)
  first_level_lem g0 l0 b budget last i (lv ∷ lvs) =
      elim (Bool-cases (leb (window_area g0 l0 lv b) budget)) [
        | inl fits ↦ inl (
          0,
          rw (fits, first_level) (omega arith),
          (lv, refl, ground arith, λ j lv' lt e. omega arith),
        )
        | inr over ↦ elim (first_level_lem g0 l0 b budget last (i + 1) lvs) [
          | inl (k, e, (lv', at, fit, before)) ↦ inl (
            suc k,
            rw (over, first_level) (omega (arith, e)),
            (lv', at, fit, over_cons g0 l0 b budget k lv lvs (ground arith) before),
          )
          | inr (e, misses) ↦
              inr (rw (over, first_level) e, NoFit-cons g0 l0 b budget lv lvs (ground arith) misses)
        ]
      ]

  select_level-eq_first :
      (m : CogMeta F) (b : Bbox F) (budget : ℕ) (g0 : Georef F) (l0 : LevelMeta)
      → 0 < budget
      → 1 < length m.levels
      → m.georef ≡ some g0
      → head? m.levels ≡ some l0
      → select_level m b budget ≡ first_level g0 l0 b budget (length m.levels - 1) 0 m.levels
  unfolding select_level
  select_level-eq_first m b budget g0 l0 some_budget several e e' = ground arith

  -- With a budget of at least one pixel, on a georeferenced image of two or more levels: the level
  -- chosen is the first whose window holds at most `budget` pixels while every finer level's window
  -- holds more, or no level is within the budget and the last level is chosen.
  pub select_level_lem :
      (m : CogMeta F) (b : Bbox F) (budget : ℕ) (g0 : Georef F) (l0 : LevelMeta)
      → 0 < budget
      → 1 < length m.levels
      → m.georef ≡ some g0
      → head? m.levels ≡ some l0
      → FirstFit (pixels_in g0 l0 b) budget m.levels (select_level m b budget)
        ⊎ ((select_level m b budget ≡ length m.levels - 1)
            × NoFit (pixels_in g0 l0 b) budget m.levels)
  select_level_lem m b budget g0 l0 some_budget several e e' =
      elim (first_level_lem g0 l0 b budget (length m.levels - 1) 0 m.levels) [
        | inl (k, q, fit) ↦ inl (
            subst (FirstFit (pixels_in g0 l0 b) budget m.levels) (sym (chosen ∙ q ∙ omega arith))
              (FirstFit-same (area_of g0 l0 b) (pixels_in g0 l0 b) budget m.levels k same fit))
        | inr (q, misses) ↦ inr (
          chosen ∙ q,
          NoFit-same (area_of g0 l0 b) (pixels_in g0 l0 b) budget m.levels same misses,
        )
      ]
    where
      same : (lv : LevelMeta) → area_of g0 l0 b lv ≡ pixels_in g0 l0 b lv
      same lv = window_area-eq_pixels g0 l0 lv b

      chosen : select_level m b budget ≡ first_level g0 l0 b budget (length m.levels - 1) 0 m.levels
      chosen = select_level-eq_first m b budget g0 l0 some_budget several e e'

  -- On an image that has a level, the level chosen exists, whatever the budget, the box and the
  -- georeference.
  pub select_level_bounds :
      (m : CogMeta F) (b : Bbox F) (budget : ℕ)
      → 0 < length m.levels
      → select_level m b budget < length m.levels
  unfolding select_level FirstFit
  select_level_bounds m b budget some_level =
      elim (Bool-cases (budget == 0 || leb (length m.levels) 1)) [
        | inl e ↦ rw (e, select_level) some_level
        | inr e ↦ elim (Option-cases m.georef) [
          | inl no_georef ↦ ground arith
          | inr (g0, at) ↦ elim (Option-cases (head? m.levels)) [
            | inl no_level ↦ ground arith
            | inr (l0, first) ↦
                elim (select_level_lem m b budget g0 l0 (ground arith) (ground arith) at first) [
                  | inl (lv, found, fit, before) ↦
                      get_elem?-bounds m.levels (select_level m b budget) found
                  | inr (q, _) ↦ omega arith
                ]
          ]
        ]
      ]
