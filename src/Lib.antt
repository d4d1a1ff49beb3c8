-- ===== src/Lib.antt =====
-- Models of duckdb-cog, a DuckDB extension that reads Cloud-Optimized GeoTIFFs: tiles of an image
-- by range requests, metadata as a table, and samples and aggregates of pixels.
--
-- The parts and how they interact. A byte source answers range requests; metadata is built from
-- the IFDs that the TIFF parser reads through it, and is enumerated as rows with packed tile
-- keys. A reader fetches and decodes tiles, through a shared tile cache where one is attached,
-- and samples or aggregates pixels in windows, boxes and polygon zones.
--
--   Base        results, lists over the native numbers, integers, bit operations
--   Float       64-bit floats as an interface: operations of the source, laws of the order, and a
--               fixed-point instance for the tests
--   TileKey     crates/engine/src/lib.rs: pack_tile_key, unpack_tile_key
--   TileCache   crates/engine/src/tile_cache.rs: TileCache (new, stats, register, claim_one,
--               fulfill, abort) as functions from state to state; Reachable has the step relation
--               of its calls, OneThread that of the rows that run_rows polls on one thread
--   Source      crates/engine/src/source.rs (MemorySource, fetch_all), FileSource of src/lib.rs,
--               fetch_range of crates/engine-wasm/src/fetch.rs; Contract states what a source owes
--   Meta        crates/engine/src/meta.rs: the records and accessors; Text the tags GDAL_METADATA
--               and GDAL_NODATA; Build is build_meta; Tiles the enumeration and its filter
--   Zone        crates/engine/src/zone.rs: parse_zone_wkt, Zone::envelope, Zone::contains
--   Pixel       crates/engine/src/pixel.rs: samples and nodata; Window is center_window, Select is
--               select_level, Reader the fetch and the loops over tiles, Reader/Zonal the
--               aggregates, Reader/Points read_pixels, Reader/Band band_window, Reader/Cached the
--               branch of fetch_decoded with a tile cache
--   Stac        crates/engine/src/stac.rs: Rows is item_rows, parse_stac, parse_stac_page; Body is
--               build_search_body and apply_next; Search the paging loop of src/stac_search.rs
--   Extension   src/lib.rs: bind and func of read_cog, cog_version and cog_cache_stats, the
--               numbers of the environment; Scan and ReadCog a query to its end; Stores is
--               shared_store and ObjectStoreSource::open; Cogs is open_cog_cached; StacRows is
--               write_stac_batch; ReadStac the binds of read_stac and of read_stac_search
--               (src/stac_search.rs)
--   Browser     crates/engine-wasm/src/bindings.rs: meta_to_js, window_result and the functions
--               that the page calls; Registry is crates/engine-wasm/src/registry.rs
--   ReaderCache crates/engine/src/cache.rs: get_or_open as its two locked sections
--   Sql         src/rs_meta.rs: Vector is write_values and write_list_rows; Open the loops over
--               the rows of a chunk with its map of files, Open/Gather the openings of a batch;
--               Accessors the functions of metadata; Values RS_Value, RS_NormalizedDifference and
--               RS_Values; Bands RS_BandAsArray; Zonal the arguments of RS_ZonalStats, Zonal/Run
--               open_paths, run_rows and the invocations
--
-- State and failure. A call that holds the lock of the tile cache is one function on its state,
-- and waiting for a signal is an answer of the claim. A read of the reader ends in a value, in an
-- error, or in a panic where a map lacks a key or a store is past the end. Errors keep their kind
-- and the numbers of their message. A future is the value that it ends with.
--
-- Numbers. Indices, sizes and counters are natural numbers; the casts to u32 of the tile counts
-- and the 24-bit fields of the key are written out, other sums do not wrap. Tile sizes of zero,
-- on which the divisions of the source panic, divide to zero here. Floats are abstract: theorems
-- on them hold for every arithmetic, and those on windows, on the filter of tiles and on zones
-- whose rings are boxes name the laws of IEEE 754 that they need.
--
-- Parameters. The TIFF parser (the IFDs), the fetch and the decoder of async-tiff, the WKT
-- parser, the JSON parser, the server behind the browser source, the requests of a search, the
-- reads of a file and the times of a clock are arguments. The JSON parser gives the members of an
-- object in its own order, which for serde_json as the repository builds it is that of their keys.
-- Equivalences of batched and single reads assume a fetch that answers each tile by itself.
--
-- SQL. A chunk of arguments is its columns, a column its rows, NULL where a row is. Output
-- vectors are an interface with laws for slots, validity bits and entries; the rows of a chunk do
-- not exceed their capacity, and a child is large enough for its elements. Opening a path is a parameter that may change a world and answers
-- with metadata and a reader; the theorems on whole chunks assume that its answers do not depend
-- on the world. Band numbers are i32; the decrement of the least one wraps, as in a build without
-- overflow checks.
--
-- Fuel. fetch_all has seven rounds, of which it never needs more; the eviction loop of fulfill
-- has one round for each entry of the map.
--
-- The search has one round for each row of its cap, and a round that goes on has found a row.
--
-- Not modelled: the registration and the signatures of the SQL functions, the number of futures
-- in flight (rows are taken to end, in their order whatever it is, which those that share a tile
-- that is not cached may never do: OneThread), the columns that the table
-- functions declare, the memory order of the cursors (a position is advanced atomically), and
-- values under interleaving: fetch_cached runs alone, and has no result where it would wait;
-- OneThread interleaves rows without their values. The key under which a store is shared, a hash
-- of its origin and options, is a parameter, as are the crates url and object_store. The
-- throughput benchmark src/io_bench.rs and the entry points for wasm hold no logic of the reader.
pub mod Base
pub mod Float
pub mod TileKey
pub mod TileCache
pub mod Source
pub mod Meta
pub mod Zone
pub mod Pixel
pub mod Stac
pub mod ReaderCache
pub mod Sql
pub mod Extension
pub mod Browser
