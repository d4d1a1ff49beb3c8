-- ===== src/Sql/Open.antt =====
-- The loops over the rows of a chunk that open each path once: the maps that a chunk keeps of its
-- files and of its zones.
pub mod Alone
pub mod Gather
pub mod Once
use duckdb_cog.Base.{
  ℕ, Bool, true, false, Option, none, some, List, [], ◌∷◌, Result, ok, err, ◌>>=◌, if◌then◌else◌,
}
use duckdb_cog.Base.Texts.{Text, text_eq}
use duckdb_cog.Meta.{CogMeta}
use duckdb_cog.Zone.{Zone, ZoneError}
use duckdb_cog.Sql.{SqlFailure, error, cannot_open, zone_failed, S, Cog}

-- `HashMap<String, _>` of a chunk.
module _ {V : Type 0} where
  unfoldable pub find : Text → List (Text × V) → Option V
  find key [] = none
  find key ((k, v) ∷ m) = if text_eq k key then some v else find key m

-- What opening a path does to the world, and what it answers.
abbrev pub Opener : Type 0 → Type 0 → Type 0
Opener W C = W → Text → W × Result Text C

module _ {V : Type 0} where
  pub remembered : (Text → S V) → List (Text × V) → Text → Option V → S (List (Text × V) × V)
  remembered parse seen key (some v) = ok (seen, v)
  remembered parse seen key none = parse key >>= λ v. ok ((key, v) ∷ seen, v)

  -- A pure parse of a text whose results the chunk keeps.
  unfoldable pub remember : (Text → S V) → List (Text × V) → Text → S (List (Text × V) × V)
  unfolding find remembered
  remember parse seen key = remembered parse seen key (find key seen)

module _ {W C : Type 0} (open_cog : Opener W C) where
  pub opened_now : Text → List (Text × C) → W × Result Text C → W × S (List (Text × C) × C)
  opened_now path seen (w, err e) = (w, err (error (cannot_open e)))
  opened_now path seen (w, ok c) = (w, ok ((path, c) ∷ seen, c))

  pub opened : W → List (Text × C) → Text → Option C → W × S (List (Text × C) × C)
  unfolding opened_now
  opened w seen path (some c) = (w, ok (seen, c))
  opened w seen path none = opened_now path seen (open_cog w path)

  -- A look-up in the chunk's map, or an opening that is put there.
  unfoldable pub open_once : W → List (Text × C) → Text → W × S (List (Text × C) × C)
  unfolding find opened
  open_once w seen path = opened w seen path (find path seen)

abbrev pub push_row : {W B : Type 0} → Option B → W × S (List (Option B)) → W × S (List (Option B))
push_row v rest = (rest.0, rest.1 >>= λ vs. ok (v ∷ vs))

-- A loop over rows: `prepare` looks at the arguments, and at what it keeps of the rows before;
-- a row that it passes over is NULL; of another the path is opened and `answer` is its value.
module _ {W C Z R J B : Type 0} (open_cog : Opener W C)
    (prepare : Z → R → S (Z × Option (Text × J))) (answer : Text → C → J → S (Option B)) where
  pub answered :
      W
      → List (Text × C)
      → S (Option B)
      → (W → List (Text × C) → W × S (List (Option B)))
      → W × S (List (Option B))
  answered w seen (err e) next = (w, err e)
  answered w seen (ok v) next = push_row v (next w seen)

  pub opened_row :
      Text
      → J
      → W × S (List (Text × C) × C)
      → (W → List (Text × C) → W × S (List (Option B)))
      → W × S (List (Option B))
  unfolding answered
  opened_row path j (w, err e) next = (w, err e)
  opened_row path j (w, ok (seen, c)) next = answered w seen (answer path c j) next

  pub prepared :
      S (Z × Option (Text × J))
      → W
      → List (Text × C)
      → (Z → W → List (Text × C) → W × S (List (Option B)))
      → W × S (List (Option B))
  unfolding opened_row
  prepared (err e) w seen next = (w, err e)
  prepared (ok (z, none)) w seen next = push_row none (next z w seen)
  prepared (ok (z, some (path, j))) w seen next =
      opened_row path j (open_once open_cog w seen path) (next z)

  unfoldable pub rows_loop : Z → W → List (Text × C) → List R → W × S (List (Option B))
  unfolding prepared open_once
  rows_loop z w seen [] = (w, ok [])
  rows_loop z w seen (r ∷ rs) =
      prepared (prepare z r) w seen (λ z' w' seen'. rows_loop z' w' seen' rs)
