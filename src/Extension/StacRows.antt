-- ===== src/Extension/StacRows.antt =====
-- src/lib.rs: `write_stac_batch`, the output of read_stac and read_stac_search, on vectors that are
-- an interface.
pub mod Fields
pub mod Read
mod Tests
use duckdb_cog.Base.{ℕ, ◌+◌, Bool, Option, none, some, List, [], ◌∷◌, map, length}
use duckdb_cog.Base.Texts.{Text}
use duckdb_cog.Meta.{Bbox, BandStats}
use duckdb_cog.Stac.{StacAssetRow}
use duckdb_cog.Sql.Vector.{
  FlatVector, ListVector, write_texts, put_values, put_nulls, put_lists, offsets, total_length,
}

abbrev pub map_option {ℓ κ} : {A : Type ℓ} {B : Type κ} → (A → B) → Option A → Option B
map_option f none = none
map_option f (some a) = some (f a)

-- The output chunk: text columns, the struct column with its children, and the list column with the
-- children of its structs.
pub record StacChunk (T D S L : Type 0) : Type 0 where
  pub item_id : T
  pub collection : T
  pub datetime : T
  pub asset_key : T
  pub href : T
  pub media_type : T
  pub bbox : S
  pub xmin : D
  pub ymin : D
  pub xmax : D
  pub ymax : D
  pub band_stats : L
  pub min_value : D
  pub max_value : D
  pub mean : D
  pub stddev : D
  pub len : ℕ

module _ {A V L : Type 0} (f : FlatVector A V) (lv : ListVector L) where
  -- The NULLs of a field, once its values are there.
  pub null_lists : V → List (Option (List (Option A))) → List ℕ → V
  null_lists child [] os = child
  null_lists child (row ∷ rows) [] = child
  null_lists child (none ∷ rows) (o ∷ os) = null_lists child rows os
  null_lists child (some vals ∷ rows) (o ∷ os) = null_lists (put_nulls f child o vals) rows os

  -- The two passes over a field of the structs in the list.
  unfoldable pub put_field : V → List (Option (List (Option A))) → V
  unfolding null_lists
  put_field child rows =
      let os = offsets 0 rows in null_lists (put_lists f lv child rows os) rows os

module _ {B L : Type 0} (lv : ListVector L) where
  -- The entries of the rows, from row `i`.
  pub set_entries : L → ℕ → List (Option (List B)) → List ℕ → L
  set_entries l i [] os = l
  set_entries l i (row ∷ rows) [] = l
  set_entries l i (none ∷ rows) (o ∷ os) =
      set_entries (lv.set_null (lv.set_entry l i o 0) i) (i + 1) rows os
  set_entries l i (some bands ∷ rows) (o ∷ os) =
      set_entries (lv.set_entry l i o (length bands)) (i + 1) rows os

module _ {F T D S L : Type 0} (texts : FlatVector Text T) (doubles : FlatVector F D)
    (structs : FlatVector (Bbox F) S) (lv : ListVector L) where
  -- `write_stac_batch`. A struct has no slot of its own: its children hold the values.
  unfoldable pub write_stac_batch : List (StacAssetRow F) → StacChunk T D S L → StacChunk T D S L
  unfolding put_field set_entries
  write_stac_batch rows c =
      let boxes = map (λ (r : StacAssetRow F). r.bbox) rows in
      let bands = map (λ (r : StacAssetRow F). r.band_stats) rows in
      let corner =
        λ (v : D) (pick : Bbox F → F). put_values doubles v 0 (map (map_option pick) boxes) in
      let field = λ (v : D) (pick : BandStats F → Option F).
        put_field doubles lv v (map (map_option (map pick)) bands) in
      record {
        item_id = write_texts texts c.item_id 0 (map (λ (r : StacAssetRow F). some r.item_id) rows);
        collection =
            write_texts texts c.collection 0 (map (λ (r : StacAssetRow F). r.collection) rows);
        datetime = write_texts texts c.datetime 0 (map (λ (r : StacAssetRow F). r.datetime) rows);
        asset_key =
            write_texts texts c.asset_key 0 (map (λ (r : StacAssetRow F). some r.asset_key) rows);
        href = write_texts texts c.href 0 (map (λ (r : StacAssetRow F). some r.href) rows);
        media_type =
            write_texts texts c.media_type 0 (map (λ (r : StacAssetRow F). r.media_type) rows);
        bbox = put_nulls structs c.bbox 0 boxes;
        xmin = corner c.xmin (λ b. b.xmin);
        ymin = corner c.ymin (λ b. b.ymin);
        xmax = corner c.xmax (λ b. b.xmax);
        ymax = corner c.ymax (λ b. b.ymax);
        band_stats =
            lv.set_len (set_entries lv c.band_stats 0 bands (offsets 0 bands)) (total_length bands);
        min_value = field c.min_value (λ b. b.min_value);
        max_value = field c.max_value (λ b. b.max_value);
        mean = field c.mean (λ b. b.mean);
        stddev = field c.stddev (λ b. b.stddev);
        len = length rows;
      }
