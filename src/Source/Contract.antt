-- ===== src/Source/Contract.antt =====
-- The contract of `ByteSource::fetch`, and three sources.
use duckdb_cog.Base.{
  ℕ, ◌+◌, ◌-◌, ◌≤◌, ◌<◌, ◌≡◌, ◌⊎◌, min, arith, Option, some, ok, err, length, take, drop,
}
use duckdb_cog.Source.{
  Bytes, ByteSource, SourceError, slice, memory_source, file_source, Server, fetch_range,
}

-- A request that starts inside the document and does not run backwards is answered, cut at the
-- end of the document; any other is an error.
pub record Serves (d : Bytes) (source : ByteSource) : Type 0 where
  pub answers :
      (start end : ℕ)
      → start < length d
      → start ≤ end
      → source start end ≡ ok (slice d start (min end (length d)))
  pub refuses :
      (start end : ℕ)
      → (length d ≤ start) ⊎ (end < start)
      → (e : SourceError) × (source start end ≡ err e)

-- The memory source keeps the contract for its bytes.
pub memory_source-Serves : (d : Bytes) → Serves d (memory_source d)
unfolding memory_source
memory_source-Serves d = record {
  answers = λ start end inside forward. ground arith;
  refuses = λ start end out. (SourceError.out_of_bounds start end (length d), ground arith);
}

-- A file source keeps the contract for the contents that its reads return, if it was opened at
-- their length and no read fails.
pub file_source-Serves :
    (d : Bytes) (read_exact : ℕ → ℕ → Option Bytes)
    → ((start n : ℕ) → start + n ≤ length d → read_exact start n ≡ some (take n (drop start d)))
    → Serves d (file_source (length d) read_exact)
unfolding file_source
file_source-Serves d read_exact reads = record {
  answers = λ start end inside forward. ground (arith, reads start (min end (length d) - start));
  refuses = λ start end out. (SourceError.out_of_bounds start end (length d), ground arith);
}

-- What HTTP promises of a server that knows ranges: 206 with the part that exists, 416 past the
-- end; one that does not know them sends the whole document with 200.
pub data Behaves (d : Bytes) (server : Server) : Type 0 where
  ranged :
      ((start last : ℕ)
        → start < length d
        → start ≤ last
        → server start last ≡ some (206, slice d start (min (last + 1) (length d))))
      → ((start last : ℕ)
          → length d ≤ start
          → (body : Bytes) × (server start last ≡ some (416, body)))
      → Behaves d server
  whole : ((start last : ℕ) → server start last ≡ some (200, d)) → Behaves d server

-- The browser source keeps the contract for every request that asks for at least one byte, on
-- either kind of server.
pub fetch_range_serves :
    (d : Bytes) (server : Server)
    → Behaves d server
    → (start end : ℕ) → start < end
    → (start < length d → fetch_range server start end ≡ ok (slice d start (min end (length d))))
      × (length d ≤ start → (e : SourceError) × (fetch_range server start end ≡ err e))
unfolding fetch_range
fetch_range_serves d server (Behaves.ranged part past) start end h = (
  λ inside. ground (arith, part start (end - 1) inside),
  λ out.
      let (body, e) = past start (end - 1) out in
      (SourceError.not_satisfiable start end, ground arith),
)
fetch_range_serves d server (Behaves.whole all) start end h = (
  λ inside. ground (arith, all start (end - 1)),
  λ out. (SourceError.out_of_bounds start end (length d), ground (arith, all start (end - 1))),
)
