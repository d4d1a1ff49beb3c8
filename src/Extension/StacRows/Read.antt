-- ===== src/Extension/StacRows/Read.antt =====
-- What the engine reads of a chunk that `write_stac_batch` has written.
use duckdb_cog.Base.{
  ℕ, ◌≡◌, refl, ◌∙◌, true, false, Option, none, some, List, map, get_elem?, get_elem?-map,
  if◌then◌else◌,
}
use duckdb_cog.Base.Texts.{Text}
use duckdb_cog.Meta.{Bbox, BandStats}
use duckdb_cog.Stac.{StacAssetRow}
use duckdb_cog.Sql.Vector.{
  FlatVector, ListVector, read, write_texts, put_values, put_nulls, offsets, total_length,
  read_list,
}
use duckdb_cog.Sql.Vector.Flat.{row_at, chosen, nulled, is_null-put_nulls, slot-put_values}
use duckdb_cog.Extension.StacRows.{map_option, StacChunk, put_field, set_entries, write_stac_batch}
use duckdb_cog.Extension.StacRows.Fields.{Blank, row_at_start, read-write_texts, read-put_field}

module _ {F D S : Type 0} (doubles : FlatVector F D) (structs : FlatVector (Bbox F) S) where
  -- What the engine reads of a struct: NULL, or the values of its children.
  pub read_box : S → D → D → D → D → ℕ → Option (Bbox F)
  read_box v x0 y0 x1 y1 i =
      if structs.is_null v i
      then none
      else some (record {
        xmin = doubles.slot x0 i;
        ymin = doubles.slot y0 i;
        xmax = doubles.slot x1 i;
        ymax = doubles.slot y1 i;
      })

  corner_slot :
      (v : D) (pick : Bbox F → F) (boxes : List (Option (Bbox F))) (i : ℕ) (b : Bbox F)
      → get_elem? boxes i ≡ some (some b)
      → doubles.slot (put_values doubles v 0 (map (map_option pick) boxes)) i ≡ pick b
  unfolding chosen
  corner_slot v pick boxes i b e =
      let at : row_at 0 (map (map_option pick) boxes) i ≡ some (some (pick b)) =
        row_at_start (map (map_option pick) boxes) i (some (pick b))
          (get_elem?-map (map_option pick) boxes i e) in
      slot-put_values doubles v 0 (map (map_option pick) boxes) i ∙ rw (at) refl

  read_box_lem :
      (v : S) (x0 y0 x1 y1 : D) (boxes : List (Option (Bbox F))) (i : ℕ) (row : Option (Bbox F))
      → Blank structs v
      → get_elem? boxes i ≡ some row
      → read_box
          (put_nulls structs v 0 boxes)
          (put_values doubles x0 0 (map (map_option (λ b. b.xmin)) boxes))
          (put_values doubles y0 0 (map (map_option (λ b. b.ymin)) boxes))
          (put_values doubles x1 0 (map (map_option (λ b. b.xmax)) boxes))
          (put_values doubles y1 0 (map (map_option (λ b. b.ymax)) boxes))
          i
        ≡ row
  unfolding read_box nulled
  read_box_lem v x0 y0 x1 y1 boxes i none fresh e =
      let at = row_at_start boxes i none e in
      let null : structs.is_null (put_nulls structs v 0 boxes) i ≡ true =
        is_null-put_nulls structs v 0 boxes i ∙ rw (at) refl in
      rw (null) refl
  read_box_lem v x0 y0 x1 y1 boxes i (some b) fresh e =
      let at = row_at_start boxes i (some b) e in
      let valid : structs.is_null (put_nulls structs v 0 boxes) i ≡ false =
        is_null-put_nulls structs v 0 boxes i ∙ rw (at) (fresh i) in
      rw (valid) (
        rw
          (
            corner_slot x0 (λ (b : Bbox F). b.xmin) boxes i b e,
            corner_slot y0 (λ (b : Bbox F). b.ymin) boxes i b e,
            corner_slot x1 (λ (b : Bbox F). b.xmax) boxes i b e,
            corner_slot y1 (λ (b : Bbox F). b.ymax) boxes i b e,
          )
          refl)

module _ {F T D S L : Type 0} (texts : FlatVector Text T) (doubles : FlatVector F D)
    (structs : FlatVector (Bbox F) S) (lv : ListVector L) where
  -- A chunk with no NULL in any of its columns.
  abbrev pub IsBlank : StacChunk T D S L → Type 0
  IsBlank c =
      (Blank texts c.item_id
        × Blank texts c.collection
        × Blank texts c.datetime
        × Blank texts c.asset_key
        × Blank texts c.href
        × Blank texts c.media_type)
      × (Blank structs c.bbox × ((j : ℕ) → lv.is_null c.band_stats j ≡ false))
      × (Blank doubles c.min_value
          × Blank doubles c.max_value
          × Blank doubles c.mean
          × Blank doubles c.stddev)

  -- The engine reads row `r` at place `i` of the chunk.
  abbrev pub Reads : StacChunk T D S L → ℕ → StacAssetRow F → Type 0
  Reads w i r =
      ((read texts w.item_id i ≡ some r.item_id)
        × (read texts w.collection i ≡ r.collection)
        × (read texts w.datetime i ≡ r.datetime)
        × (read texts w.asset_key i ≡ some r.asset_key)
        × (read texts w.href i ≡ some r.href)
        × (read texts w.media_type i ≡ r.media_type))
      × (read_box doubles structs w.bbox w.xmin w.ymin w.xmax w.ymax i ≡ r.bbox)
      × ((read_list doubles lv w.band_stats w.min_value i
            ≡ map_option (map (λ (b : BandStats F). b.min_value)) r.band_stats)
          × (read_list doubles lv w.band_stats w.max_value i
              ≡ map_option (map (λ (b : BandStats F). b.max_value)) r.band_stats)
          × (read_list doubles lv w.band_stats w.mean i
              ≡ map_option (map (λ (b : BandStats F). b.mean)) r.band_stats)
          × (read_list doubles lv w.band_stats w.stddev i
              ≡ map_option (map (λ (b : BandStats F). b.stddev)) r.band_stats))

  -- On a chunk without NULLs, whatever its slots and entries hold, the engine reads of every row that
  -- `write_stac_batch` was given its texts, its box, and each statistic of each of its bands, and
  -- NULL exactly where the row has none.
  pub read-write_stac_batch :
      (rows : List (StacAssetRow F)) (c : StacChunk T D S L) (i : ℕ) (r : StacAssetRow F)
      → IsBlank c
      → get_elem? rows i ≡ some r
      → Reads (write_stac_batch texts doubles structs lv rows c) i r
  unfolding write_stac_batch
  read-write_stac_batch rows c i r ((b0, b1, b2, b3, b4, b5), (box, list), (d0, d1, d2, d3)) e =
      let column : (v : T) (pick : StacAssetRow F → Option Text)
          → Blank texts v
          → read texts (write_texts texts v 0 (map pick rows)) i ≡ pick r =
        λ v pick fresh.
          read-write_texts texts v (map pick rows) i (pick r) fresh (get_elem?-map pick rows i e) in
      let bands = map (λ (r : StacAssetRow F). r.band_stats) rows in
      let field : (v : D) (pick : BandStats F → Option F)
          → Blank doubles v
          → read_list doubles lv
              (lv.set_len (set_entries lv c.band_stats 0 bands (offsets 0 bands))
                (total_length bands))
              (put_field doubles lv v (map (map_option (map pick)) bands)) i
            ≡ map_option (map pick) r.band_stats =
        λ v pick fresh.
          read-put_field doubles lv pick c.band_stats v bands i r.band_stats list fresh
            (get_elem?-map (λ (r : StacAssetRow F). r.band_stats) rows i e) in
      (
        (
          column c.item_id (λ (r : StacAssetRow F). some r.item_id) b0,
          column c.collection (λ (r : StacAssetRow F). r.collection) b1,
          column c.datetime (λ (r : StacAssetRow F). r.datetime) b2,
          column c.asset_key (λ (r : StacAssetRow F). some r.asset_key) b3,
          column c.href (λ (r : StacAssetRow F). some r.href) b4,
          column c.media_type (λ (r : StacAssetRow F). r.media_type) b5,
        ),
        read_box_lem doubles structs c.bbox c.xmin c.ymin c.xmax c.ymax
            (map (λ (r : StacAssetRow F). r.bbox) rows) i r.bbox box
            (get_elem?-map (λ (r : StacAssetRow F). r.bbox) rows i e),
        (
          field c.min_value (λ (b : BandStats F). b.min_value) d0,
          field c.max_value (λ (b : BandStats F). b.max_value) d1,
          field c.mean (λ (b : BandStats F). b.mean) d2,
          field c.stddev (λ (b : BandStats F). b.stddev) d3,
        ),
      )
