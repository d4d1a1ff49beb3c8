-- ===== src/Sql.antt =====
-- src/rs_meta.rs: the SQL functions over chunks of rows. A column of arguments is its rows, `none`
-- where a row is NULL; a list column has an entry for each row and one child vector. An error
-- keeps its kind, the path it names and its numbers.
pub mod Vector
pub mod Open
pub mod Accessors
pub mod Values
pub mod Bands
pub mod Zonal
mod Tests
use duckdb_cog.Base.{
  ℕ, ◌+◌, ◌^◌, max, Bool, true, false, Option, none, some, List, [], ◌∷◌, Result, ok, err, ◌>>=◌,
  map_err, try_map, ltb, ◌==◌, if◌then◌else◌, range, replicate,
}
use duckdb_cog.Base.Int.{ℤ, pos, negsuc, pos_part}
use duckdb_cog.Base.Texts.{Text}
use duckdb_cog.Meta.{MetaError, CogMeta, Bbox}
use duckdb_cog.Zone.{ZoneError}
use duckdb_cog.Pixel.Reader.{Failure, CogReader}

pub data SqlError : Type 0 where
  cannot_open : Text → SqlError
  read_failed : Text → MetaError → SqlError
  bad_zone : ZoneError → SqlError
  unknown_stat : Text → SqlError
  negative_max_pixels : SqlError
  length_mismatch : ℕ → ℕ → SqlError
  bbox_elements : ℕ → SqlError
  not_georeferenced : SqlError

-- An error that the query reports, or a panic.
pub data SqlFailure : Type 0 where
  error : SqlError → SqlFailure
  panic : SqlFailure

abbrev pub S {ℓ} : Type ℓ → Type ℓ
S A = Result SqlFailure A

-- A failure of the reader, in a message that names the path.
unfoldable pub at_path : Text → Failure → SqlFailure
at_path path (Failure.error e) = error (read_failed path e)
at_path path Failure.panic = panic

unfoldable pub zone_failed : ZoneError → SqlFailure
zone_failed e = error (bad_zone e)

-- `Option::and_then`.
abbrev pub and_then {ℓ κ} : {A : Type ℓ} {B : Type κ} → Option A → (A → Option B) → Option B
and_then none f = none
and_then (some a) f = f a

-- `SharedCog`.
abbrev pub Cog : Type 0 → Type 0 → Type 0
Cog F T = CogMeta F × CogReader F T

-- `u32::try_from` of an `i32`.
unfoldable pub try_u32 : ℤ → Option ℕ
try_u32 (pos n) = some n
try_u32 (negsuc n) = none

-- `i32::try_from` of an unsigned and of a signed number.
unfoldable pub try_i32 : ℕ → Option ℤ
try_i32 n = if ltb n (2 ^ 31) then some (pos n) else none

unfoldable pub try_i32_signed : ℤ → Option ℤ
try_i32_signed (pos n) = if ltb n (2 ^ 31) then some (pos n) else none
try_i32_signed (negsuc n) = if ltb n (2 ^ 31) then some (negsuc n) else none

-- A band argument: the column of the longer overload, or 1 in every row.
unfoldable pub band_column : ℕ → Option (List (Option ℤ)) → List (Option ℤ)
band_column n none = replicate n (some (pos 1))
band_column n (some bands) = bands

-- A list column: the offset and the length of each row that is not NULL, and the child vector.
pub record ListColumn (A : Type 0) : Type 0 where
  pub entries : List (Option (ℕ × ℕ))
  pub child : ℕ → Option A

-- The end of the child's slice that the rows need.
unfoldable pub max_end : List (Option (ℕ × ℕ)) → ℕ
max_end [] = 0
max_end (none ∷ es) = max_end es
max_end (some e ∷ es) = max (e.0 + e.1) (max_end es)

module _ {F : Type 0} where
  -- Four elements, none of them NULL.
  pub box_of : Option F → Option F → Option F → Option F → Option (Bbox F)
  box_of (some a) (some b) (some c) (some d) =
      some (record { xmin = a; ymin = b; xmax = c; ymax = d })
  box_of a b c d = none

  -- A box argument: four elements, or an error that counts them; NULL where an element is. The
  -- elements are read from a slice that ends at the largest end of a row.
  unfoldable pub box_at : ListColumn F → ℕ × ℕ → S (Option (Bbox F))
  unfolding box_of
  box_at boxes (o, n) =
      if n == 4
      then elim (box_of (boxes.child o) (boxes.child (o + 1)) (boxes.child (o + 2))
          (boxes.child (o + 3))) [
            | none ↦ ok none
            | some b ↦ if ltb (o + 3) (max_end boxes.entries) then ok (some b) else err panic
          ]
      else err (error (bbox_elements n))
