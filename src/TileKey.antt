-- ===== src/TileKey.antt =====
-- crates/engine/src/lib.rs: the packed tile key (level 8 bits, x 24 bits, y 24 bits).
pub mod Bounds
mod Tests
use duckdb_cog.Base.{ℕ, ◌+◌, ◌-◌, ◌*◌, ◌/◌, ◌%◌, ◌^◌, ◌||◌, bit_and, bit_or, ltb, if◌then◌else◌}
use duckdb_cog.Base.{Option, none, some}
use duckdb_cog.Base.Bits.{shl, shr}

-- `MAX_TILE_INDEX`.
abbrev pub max_tile_index : ℕ
max_tile_index = 2 ^ 24 - 1

-- The level is a `u8`, the coordinates are `u32`, the key is a `u64`.
unfoldable pub pack_tile_key : ℕ → ℕ → ℕ → Option ℕ
pack_tile_key level tile_x tile_y =
    if ltb max_tile_index tile_x || ltb max_tile_index tile_y
    then none
    else some (bit_or (bit_or (shl level 48) (shl tile_x 24)) tile_y)

unfoldable pub unpack_tile_key : ℕ → ℕ × ℕ × ℕ
unpack_tile_key key = (
  shr key 48 % 2 ^ 8,
  bit_and (shr key 24) (2 ^ 24 - 1) % 2 ^ 32,
  bit_and key (2 ^ 24 - 1) % 2 ^ 32,
)
