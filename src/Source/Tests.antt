-- ===== src/Source/Tests.antt =====
-- A document of four bytes behind each kind of source.
use duckdb_cog.Base.{
  ℕ, ◌+◌, ◌*◌, ◌≤◌, ◌<◌, ◌≡◌, refl, min, arith, Option, some, [], ◌∷◌, ok, err, length, take, drop,
}
use duckdb_cog.Source.{
  Bytes, SourceError, document_too_large, slice, memory_source, Server, fetch_range, fetch_all,
}
use duckdb_cog.Source.Contract.{memory_source-Serves, Behaves, fetch_range_serves}
use duckdb_cog.Source.Document.{fetch_all_lem}

abbrev document : Bytes
document = 10 ∷ 20 ∷ 30 ∷ 40 ∷ []

-- The read of a file, which a test can count on.
abbrev read_file : ℕ → ℕ → Option Bytes
read_file start n = some (take n (drop start document))

read_file_reads :
    (start n : ℕ)
    → start + n ≤ length document
    → read_file start n ≡ some (take n (drop start document))
read_file_reads start n h = refl

-- A server without ranges.
abbrev whole_server : Server
whole_server start last = some (200, document)

fetch_range_serves_example :
    (1 < length document
      → fetch_range whole_server 1 3 ≡ ok (slice document 1 (min 3 (length document))))
    × (length document ≤ 1 → (e : SourceError) × (fetch_range whole_server 1 3 ≡ err e))
fetch_range_serves_example =
    fetch_range_serves document whole_server (Behaves.whole (λ start last. refl)) 1 3 (omega arith)

fetch_all_lem_example :
    (length document ≡ 0 → (e : SourceError) × (fetch_all (memory_source document) ≡ some (err e)))
    × (0 < length document
        → length document < 256 * 1024 * 1024
        → fetch_all (memory_source document) ≡ some (ok document))
    × (256 * 1024 * 1024 ≤ length document
        → fetch_all (memory_source document) ≡ some (err document_too_large))
fetch_all_lem_example =
    fetch_all_lem document (memory_source document) (memory_source-Serves document)
