-- ===== src/Sql/Tests.antt =====
-- Chunks over the image of four by four pixels: vectors that are functions, and a store that has
-- the image under one name.
use duckdb_cog.Base.{
  ℕ, ◌+◌, ◌≡◌, ◌↔◌, refl, Option, none, some, List, [], ◌∷◌, Result, ok, err, ◌>>=◌, try_map, range,
  ◌==◌, if◌then◌else◌,
}
use duckdb_cog.Base.Int.{ℤ, pos}
use duckdb_cog.Base.Texts.{Text, text_eq}
use duckdb_cog.Float.Half.{half_float}
use duckdb_cog.Meta.Build.Tests.{image_level, image_georef, image_meta}
use duckdb_cog.Pixel.Tests.{image_tile, image_reader, image_fetch, image_each, image-Reads}
use duckdb_cog.Sql.{Cog, ListColumn}
use duckdb_cog.Sql.Vector.{read_list, write_list_rows}
use duckdb_cog.Sql.Vector.Columns.{column, lists, blank_lists, blank}
use duckdb_cog.Sql.Vector.Lists.{read-write_list_rows}
use duckdb_cog.Sql.Open.{Opener, rows_loop}
use duckdb_cog.Sql.Open.Alone.{stateless-Agrees, answer_alone, rows_loop-alone}
use duckdb_cog.Sql.Open.Once.{logged, Unrepeated, rows_loop-Unrepeated}
use duckdb_cog.Meta.{Bbox}
use duckdb_cog.Pixel.{sum_stat}
use duckdb_cog.Sql.Zonal.{Job}
use duckdb_cog.Sql.Zonal.Run.{job_paths, run_jobs, run_box}
use duckdb_cog.Sql.Open.Gather.Logged.{OpensOnce}
use duckdb_cog.Sql.Zonal.Run.Alone.{opened_alone, jobs_alone, run_jobs-alone}
use duckdb_cog.Sql.Values.{stateless, value_args, answer_value, answer_values}
use duckdb_cog.Sql.Values.Elements.Single.{value_of, answer_values-elements}

abbrev three_rows : List (Option ℤ)
three_rows = some (pos 1) ∷ none ∷ some (pos 3) ∷ []

abbrev three_lists : List (Option (List (Option ℤ)))
three_lists = some (some (pos 1) ∷ none ∷ []) ∷ none ∷ some (some (pos 3) ∷ []) ∷ []

read-write_list_rows_example :
    read_list column lists
      (write_list_rows column lists blank_lists (blank (pos 7)) three_lists).0
      (write_list_rows column lists blank_lists (blank (pos 7)) three_lists).1
      0
    ≡ some (some (pos 1) ∷ none ∷ [])
read-write_list_rows_example =
    read-write_list_rows column lists blank_lists (blank (pos 7)) three_lists 0
      (some (some (pos 1) ∷ none ∷ [])) (λ j. refl) (λ j. refl) refl

-- A store with the image under the name "a".
abbrev a_path : Text
a_path = b'a' ∷ []

abbrev image : Cog ℤ ℕ
image = (image_meta, image_reader)

abbrev stored : Text → Result Text (Cog ℤ ℕ)
stored path = if text_eq path a_path then ok image else err (b'?' ∷ [])

abbrev store : Opener (Unit {0}) (Cog ℤ ℕ)
store w path = (w, stored path)

-- The same pixel twice, and a row without a path.
abbrev value_rows : List (Option Text × (Option ℤ × (Option ℤ × Option ℤ)))
value_rows =
    (some a_path, (some (pos 7), (some (pos 7), some (pos 1))))
    ∷ (none, (some (pos 7), (some (pos 7), some (pos 1))))
    ∷ (some a_path, (some (pos 7), (some (pos 7), some (pos 1))))
    ∷ []

rows_loop-alone_example :
    (rows_loop store (stateless value_args) answer_value tt tt [] value_rows).1
    ≡ try_map
        (λ r.
          value_args r
          >>= answer_alone store
              (stateless value_args)
              answer_value
              stored
              (λ w p. refl)
              (λ z. Unit {0})
              value_args
              (λ z r' good. stateless-Agrees z (value_args r')))
        value_rows
rows_loop-alone_example =
    rows_loop-alone store (stateless value_args) answer_value stored (λ w p. refl) (λ z. Unit {0})
      value_args (λ z r good. stateless-Agrees z (value_args r)) tt tt [] value_rows tt tt

rows_loop-Unrepeated_example :
    Unrepeated (rows_loop (logged stored) (stateless value_args) answer_value tt [] [] value_rows).0
rows_loop-Unrepeated_example =
    rows_loop-Unrepeated stored (stateless value_args) answer_value tt value_rows

-- Three points in one list row: two in the image and one without an x.
abbrev xs_column : ListColumn ℤ
xs_column = record {
  entries = some (0, 3) ∷ none ∷ [];
  child = λ k. if k == 1 then none else some (pos 7);
}

abbrev ys_column : ListColumn ℤ
ys_column = record { entries = some (0, 3) ∷ none ∷ []; child = λ k. some (pos 7) }

abbrev row_values : List (Option ℤ)
row_values = some (pos 10) ∷ none ∷ some (pos 10) ∷ []

answer_values-elements_example :
    (answer_values xs_column ys_column a_path image (0, 0, 3, some 1) ≡ ok (some row_values)) ↔ (
      try_map
        (λ k.
          value_of xs_column ys_column a_path image 1 image_georef image_level image_fetch
            image-Reads image_tile image_each
            (xs_column.child (0 + k))
            (ys_column.child (0 + k)))
        (range 0 3)
      ≡ ok row_values)
answer_values-elements_example =
    answer_values-elements xs_column ys_column a_path image 1 image_georef image_level image_fetch
      image-Reads image_tile image_each 0 0 0 0 3 row_values refl refl

-- Two rows over one file, a NULL row between them.
abbrev inner_job : Option (Job (Bbox ℤ))
inner_job = some (record {
  path = a_path;
  zone = record { xmin = pos 1; ymin = pos 4; xmax = pos 4; ymax = pos 8 };
  band = 1;
  stat = sum_stat;
  max_pixels = 0;
})

abbrev box_jobs : List (Option (Job (Bbox ℤ)))
box_jobs = inner_job ∷ none ∷ inner_job ∷ []

run_jobs-alone_example :
    ((run_jobs store run_box tt box_jobs).1 ≡ (
      try_map (opened_alone store run_box stored (λ w p. refl)) (job_paths store run_box box_jobs)
      >>= λ _. jobs_alone store run_box stored (λ w p. refl) box_jobs))
    × OpensOnce (run_jobs (logged stored) run_box [] box_jobs).0 (job_paths store run_box box_jobs)
run_jobs-alone_example = run_jobs-alone store run_box stored (λ w p. refl) tt box_jobs
