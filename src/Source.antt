-- ===== src/Source.antt =====
-- crates/engine/src/source.rs, with the `FileSource` of src/lib.rs and the browser source of
-- crates/engine-wasm/src/fetch.rs: bytes by range, and a whole document by growing requests.
-- A future is the value that it ends with. An error keeps the numbers of its message.
pub mod Contract
pub mod Document
mod Tests
use duckdb_cog.Base.{
  ℕ, zero, suc, ◌+◌, ◌-◌, ◌*◌, ◌^◌, min, ◌||◌, Bool, Option, none, some, List, Result, ok, err,
  ◌>>=◌, map_err, ltb, leb, ◌==◌, if◌then◌else◌, length, take, drop,
}

pub data SourceError : Type 0 where
  out_of_bounds : ℕ → ℕ → ℕ → SourceError
  invalid_range : ℕ → ℕ → SourceError
  not_satisfiable : ℕ → ℕ → SourceError
  http_status : ℕ → SourceError
  document_too_large : SourceError
  io : SourceError

abbrev pub Bytes : Type 0
Bytes = List ℕ

-- `ByteSource`: the outcome of `fetch(start..end)`.
abbrev pub ByteSource : Type 0
ByteSource = ℕ → ℕ → Result SourceError Bytes

abbrev pub slice : Bytes → ℕ → ℕ → Bytes
slice d start end = take (end - start) (drop start d)

-- `MemorySource::fetch`.
unfoldable pub memory_source : Bytes → ByteSource
memory_source d start end =
    if leb (length d) start || ltb end start
    then err (out_of_bounds start end (length d))
    else ok (slice d start (min end (length d)))

-- `FileSource::fetch`: `len` is the size that `open` saw, `read_exact` the seek and the read of
-- that many bytes, or their failure.
unfoldable pub file_source : ℕ → (ℕ → ℕ → Option Bytes) → ByteSource
file_source len read_exact start end =
    if ltb end start || leb len start
    then err (out_of_bounds start end len)
    else elim (read_exact start (min end len - start)) [ none ↦ err io | some buf ↦ ok buf ]

-- What the server answers to a request with the header `Range: bytes=start-last`: a status and
-- a body, or no response.
abbrev pub Server : Type 0
Server = ℕ → ℕ → Option (ℕ × Bytes)

on_response : ℕ → ℕ → ℕ → Bytes → Result SourceError Bytes
on_response start end status body =
    if status == 206
    then ok body
    else if status == 200
    then if leb (length body) start
      then err (out_of_bounds start end (length body))
      else ok (slice body start (min end (length body)))
    else if status == 416
    then err (not_satisfiable start end)
    else err (http_status status)

-- `fetch_range`.
unfoldable pub fetch_range : Server → ByteSource
unfolding on_response
fetch_range server start end =
    if ltb end start then err (invalid_range start end) else elim (server start (end - 1)) [
      | none ↦ err io
      | some (status, body) ↦ on_response start end status body
    ]

abbrev pub first_cap : ℕ
first_cap = 64 * 1024

abbrev pub soft_limit : ℕ
soft_limit = 64 * 1024 * 1024

-- The loop of `fetch_all`; `none` means that the fuel ran out.
pub fetch_loop : ℕ → ByteSource → ℕ → Option (Result SourceError Bytes)
fetch_loop zero source cap = none
fetch_loop (suc fuel) source cap =
    let rest = fetch_loop fuel source (cap * 4) in
    elim (source 0 cap) [
      | err e ↦ some (err e)
      | ok bytes ↦
          if ltb (length bytes) cap
          then some (ok bytes)
          else if ltb soft_limit cap
          then some (err document_too_large)
          else rest
    ]

-- `fetch_all`: the cap passes the limit in the seventh round (`fetch_all_lem`).
unfoldable pub fetch_all : ByteSource → Option (Result SourceError Bytes)
unfolding fetch_loop
fetch_all source = fetch_loop 7 source first_cap
