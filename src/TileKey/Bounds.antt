-- ===== src/TileKey/Bounds.antt =====
-- The packed key on the tile coordinates in range and on the 56-bit numbers.
use duckdb_cog.Base.{ℕ, ◌+◌, ◌*◌, ◌^◌, ◌<◌, ◌≡◌, ◌↔◌, ◌⊎◌, ap, ◌∙◌, arith, none, some, bit_or}
use duckdb_cog.Base.Bits.{shl, shr, bit_or-shl, bit_and-mask}
use duckdb_cog.TileKey.{max_tile_index, pack_tile_key, unpack_tile_key}

-- The three fields of a key as digits.
abbrev pub key_sum : ℕ → ℕ → ℕ → ℕ
key_sum level x y = level * 2 ^ 48 + x * 2 ^ 24 + y

high_fields : (level x : ℕ) → level * 2 ^ 48 + x * 2 ^ 24 ≡ (level * 2 ^ 24 + x) * 2 ^ 24
high_fields level x = omega arith

fields_as_sum :
    (level x y : ℕ)
    → x < 2 ^ 24
    → y < 2 ^ 24
    → bit_or (bit_or (shl level 48) (shl x 24)) y ≡ key_sum level x y
fields_as_sum level x y hx hy =
    rw (bit_or-shl 48 level (x * 2 ^ 24) (omega arith))
      (rw (high_fields level x) (bit_or-shl 24 (level * 2 ^ 24 + x) y hy))

pub pack_tile_key-eq_sum :
    (level x y : ℕ) → x < 2 ^ 24 → y < 2 ^ 24 → pack_tile_key level x y ≡ some (key_sum level x y)
unfolding pack_tile_key
pack_tile_key-eq_sum level x y hx hy = ground (arith, fields_as_sum level x y hx hy)

unpack_sum :
    (level x y : ℕ)
    → level < 2 ^ 8
    → x < 2 ^ 24
    → y < 2 ^ 24
    → unpack_tile_key (key_sum level x y) ≡ (level, x, y)
unfolding unpack_tile_key
unpack_sum level x y hl hx hy =
    ground
      (arith, bit_and-mask 24 (shr (key_sum level x y) 24), bit_and-mask 24 (key_sum level x y))

-- Whatever `pack_tile_key` returns for a `u8` level, `unpack_tile_key` takes back into the
-- level and the two coordinates.
pub unpack_tile_key-pack :
    (level x y : ℕ) {key : ℕ}
    → level < 2 ^ 8
    → pack_tile_key level x y ≡ some key
    → unpack_tile_key key ≡ (level, x, y)
unfolding pack_tile_key
unpack_tile_key-pack level x y hl e = ground (arith, fields_as_sum level x y, unpack_sum level x y)

-- A key below 2^56 is the key of the tile that it unpacks to.
pub pack-unpack_tile_key :
    (key : ℕ) → key < 2 ^ 56 → let t = unpack_tile_key key in pack_tile_key t.0 t.1 t.2 ≡ some key
unfolding unpack_tile_key
pack-unpack_tile_key key h =
    rw (bit_and-mask 24 (shr key 24), bit_and-mask 24 key)
      (pack_tile_key-eq_sum _ _ _ (omega arith) (omega arith) ∙ ap some (omega arith))

-- Packing fails exactly when a coordinate is above the largest tile index, and what it returns
-- for a `u8` level is below 2^56.
pub pack_tile_key_bounds :
    (level x y : ℕ)
    → level < 2 ^ 8
    → ((pack_tile_key level x y ≡ none) ↔ ((max_tile_index < x) ⊎ (max_tile_index < y)))
      × ((key : ℕ) → pack_tile_key level x y ≡ some key → key < 2 ^ 56)
unfolding pack_tile_key
pack_tile_key_bounds level x y hl = (ground arith, λ key e. ground (arith, fields_as_sum level x y))

-- The keys are ordered as the tiles are by level, then by column, then by row.
pub pack_tile_key-lt_iff :
    (l x y l' x' y' : ℕ) {k k' : ℕ}
    → pack_tile_key l x y ≡ some k
    → pack_tile_key l' x' y' ≡ some k'
    → (k < k') ↔ ((l < l') ⊎ ((l ≡ l') × ((x < x') ⊎ ((x ≡ x') × (y < y')))))
unfolding pack_tile_key
pack_tile_key-lt_iff l x y l' x' y' e e' =
    ground (arith, fields_as_sum l x y, fields_as_sum l' x' y')
