-- ===== src/TileKey/Tests.antt =====
-- Keys of concrete tiles.
use duckdb_cog.Base.{ℕ, ◌+◌, ◌*◌, ◌^◌, ◌<◌, ◌≡◌, ◌↔◌, ◌⊎◌, refl, arith, some}
use duckdb_cog.TileKey.{pack_tile_key, unpack_tile_key}
use duckdb_cog.TileKey.Bounds.{unpack_tile_key-pack, pack-unpack_tile_key, pack_tile_key-lt_iff}

packed : pack_tile_key 2 3 5 ≡ some (2 * 2 ^ 48 + 3 * 2 ^ 24 + 5)
unfolding pack_tile_key
packed = refl

packed_next : pack_tile_key 2 3 6 ≡ some (2 * 2 ^ 48 + 3 * 2 ^ 24 + 6)
unfolding pack_tile_key
packed_next = refl

unpack_tile_key-pack_example : unpack_tile_key (2 * 2 ^ 48 + 3 * 2 ^ 24 + 5) ≡ (2, 3, 5)
unpack_tile_key-pack_example = unpack_tile_key-pack 2 3 5 (omega arith) packed

pack-unpack_tile_key_example :
    let t = unpack_tile_key 70000000 in pack_tile_key t.0 t.1 t.2 ≡ some 70000000
pack-unpack_tile_key_example = pack-unpack_tile_key 70000000 (omega arith)

pack_tile_key-lt_iff_example :
    (2 * 2 ^ 48 + 3 * 2 ^ 24 + 5 < 2 * 2 ^ 48 + 3 * 2 ^ 24 + 6)
    ↔ ((2 < 2) ⊎ (◌≡◌ {A = ℕ} 2 2 × ((3 < 3) ⊎ (◌≡◌ {A = ℕ} 3 3 × (5 < 6)))))
pack_tile_key-lt_iff_example = pack_tile_key-lt_iff 2 3 5 2 3 6 packed packed_next
