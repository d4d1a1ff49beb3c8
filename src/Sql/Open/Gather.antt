-- ===== src/Sql/Open/Gather.antt =====
-- Opening the paths of a batch together: `open_paths` of src/rs_meta.rs, and what the batches of
-- crates/engine-wasm/src/bindings.rs do alike.
pub mod Firsts
pub mod Logged
pub mod Steady
use duckdb_cog.Base.{◌||◌, Bool, true, false, List, [], ◌∷◌, Result, ok, err, if◌then◌else◌}
use duckdb_cog.Base.Texts.{Text, text_eq}
use duckdb_cog.Sql.Open.{Opener}

pub text_in : Text → List Text → Bool
text_in p [] = false
text_in p (q ∷ qs) = text_eq q p || text_in p qs

-- `open_paths`: the paths that come first.
unfoldable pub first_seen : List Text → List Text → List Text
unfolding text_in
first_seen seen [] = []
first_seen seen (p ∷ ps) =
    let rest = first_seen seen ps in
    let more = first_seen (p ∷ seen) ps in if text_in p seen then rest else p ∷ more

module _ {W C : Type 0} (open_cog : Opener W C) where
  -- All openings are made, in the order in which they are started.
  unfoldable pub open_all : W → List Text → W × List (Text × Result Text C)
  open_all w [] = (w, [])
  open_all w (p ∷ ps) =
      let o = open_cog w p in let rest = open_all o.0 ps in (rest.0, (p, o.1) ∷ rest.1)

-- The map of the files, or the failure of the first path that does not open.
module _ {E C : Type 0} (fail : Text → E) where
  unfoldable pub gather : List (Text × C) → List (Text × Result Text C) → Result E (List (Text × C))
  gather files [] = ok files
  gather files ((p, err e) ∷ os) = err (fail e)
  gather files ((p, ok c) ∷ os) = gather ((p, c) ∷ files) os
