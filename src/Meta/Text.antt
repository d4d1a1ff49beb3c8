-- ===== src/Meta/Text.antt =====
-- `parse_gdal_metadata_stats` and `parse_gdal_nodata` on the bytes of the tags' texts.
use duckdb_cog.Base.{
  ℕ, zero, suc, ◌+◌, ◌-◌, ◌*◌, ◌^◌, ◌||◌, ◌&&◌, Bool, true, false, Option, none, some, List, [],
  ◌∷◌, ltb, leb, ◌==◌, if◌then◌else◌, length, take, drop, set, get_elem?, replicate,
}
use Prim.Native.String.{String}
use Prim.Native.Char.{code}
use duckdb_cog.Base.Texts.{text_eq}
use duckdb_cog.Float.{Float}
use duckdb_cog.Meta.{BandStats}

-- The bytes of an ASCII literal.
abbrev pub codes : String → List ℕ
codes String.[] = []
codes (String.◌∷◌ c s) = code c ∷ codes s

unfoldable pub starts_with : List ℕ → List ℕ → Bool
starts_with s [] = true
starts_with [] (p ∷ ps) = false
starts_with (c ∷ s) (p ∷ ps) = c == p && starts_with s ps

-- `str::find`: the first position at which the pattern stands.
unfoldable pub find : List ℕ → List ℕ → Option ℕ
unfolding starts_with
find [] p = if starts_with [] p then some 0 else none
find (c ∷ s) p =
    let rest : Option ℕ = elim (find s p) [ none ↦ none | some i ↦ some (i + 1) ] in
    if starts_with (c ∷ s) p then some 0 else rest

-- The length in bytes of the white space character that a UTF-8 text starts with, zero for any other.
unfoldable pub space_length : List ℕ → ℕ
space_length [] = 0
space_length (c ∷ []) = if c == 32 || (leb 9 c && leb c 13) then 1 else 0
space_length (c ∷ d ∷ []) =
    if c == 32 || (leb 9 c && leb c 13)
    then 1
    else (if c == 194 && (d == 133 || d == 160) then 2 else 0)
space_length (c ∷ d ∷ e ∷ s) =
    let wide =
      (c == 225 && d == 154 && e == 128)
      || (c == 226 && d == 128 && (leb 128 e && leb e 138 || e == 168 || e == 169 || e == 175))
      || (c == 226 && d == 129 && e == 159)
      || (c == 227 && d == 128 && e == 128) in
    if c == 32 || (leb 9 c && leb c 13)
    then 1
    else (if c == 194 && (d == 133 || d == 160) then 2 else (if wide then 3 else 0))

-- `char::is_whitespace` at the start of the text, or within a character whose bytes are to be
-- skipped.
skip_spaces : ℕ → List ℕ → List ℕ
unfolding space_length
skip_spaces n [] = []
skip_spaces (suc n) (c ∷ s) = skip_spaces n s
skip_spaces zero (c ∷ s) =
    let n = space_length (c ∷ s) in
    let rest = skip_spaces (n - 1) s in if n == 0 then c ∷ s else rest

trim_start : List ℕ → List ℕ
unfolding skip_spaces
trim_start s = skip_spaces 0 s

-- The text up to the first place from which all is white space; no byte within a character starts
-- one.
trim_end : List ℕ → List ℕ
unfolding trim_start
trim_end [] = []
trim_end (c ∷ s) =
    let rest = trim_end s in elim (trim_start (c ∷ s)) [ [] ↦ [] | x ∷ xs ↦ c ∷ rest ]

-- `str::trim`.
unfoldable pub trim : List ℕ → List ℕ
unfolding trim_start trim_end
trim s = trim_end (trim_start s)

lower : ℕ → ℕ
lower c = if leb b'A' c && leb c b'Z' then c + 32 else c

unfoldable pub eq_ignore_case : List ℕ → List ℕ → Bool
unfolding lower
eq_ignore_case [] [] = true
eq_ignore_case [] (q ∷ t) = false
eq_ignore_case (c ∷ s) [] = false
eq_ignore_case (c ∷ s) (q ∷ t) = lower c == lower q && eq_ignore_case s t

pub parse_digits : ℕ → List ℕ → Option ℕ
parse_digits acc [] = some acc
parse_digits acc (c ∷ s) =
    let acc' = acc * 10 + (c - b'0') in
    let rest = parse_digits acc' s in
    if leb b'0' c && leb c b'9' && ltb acc' (2 ^ 64) then rest else none

-- `str::parse::<usize>`: one `+` at most, at least one digit, below 2^64.
unfoldable pub parse_usize : List ℕ → Option ℕ
unfolding parse_digits
parse_usize [] = none
parse_usize (c ∷ []) = if c == b'+' then none else parse_digits 0 (c ∷ [])
parse_usize (c ∷ d ∷ s) = if c == b'+' then parse_digits 0 (d ∷ s) else parse_digits 0 (c ∷ d ∷ s)

-- The pieces of `xml.split("<Item ")` behind the first; the fuel is the length of the text.
items_from : ℕ → List ℕ → List (List ℕ)
items_from zero s = []
items_from (suc fuel) s = elim (find s (codes "<Item ")) [
  | none ↦ s ∷ []
  | some i ↦ take i s ∷ items_from fuel (drop (i + 6) s)
]

unfoldable pub items : List ℕ → List (List ℕ)
unfolding items_from
items xml = elim (find xml (codes "<Item ")) [
  | none ↦ []
  | some i ↦ items_from (suc (length xml)) (drop (i + 6) xml)
]

-- The text between a marker and the next closing byte.
between : List ℕ → List ℕ → ℕ → Option (List ℕ)
between s marker close = elim (find s marker) [
  | none ↦ none
  | some i ↦
      let rest = drop (i + length marker) s in
      elim (find rest (close ∷ [])) [ none ↦ none | some j ↦ some (take j rest) ]
]

-- The 0-based band of an item: 0 if the attribute is missing or no number.
sample_of : List ℕ → ℕ
unfolding between
sample_of item = elim (between item (codes "sample=\"") b'"') [
  | none ↦ 0
  | some digits ↦ elim (parse_usize digits) [ none ↦ 0 | some n ↦ n ]
]

module _ {F : Type 0} ⦃fl : Float F⦄ where
  abbrev pub empty_stats : BandStats F
  empty_stats = record { min_value = none; max_value = none; mean = none; stddev = none }

  -- The `match` on the name: the band with the field set, or none for a name it does not know.
  store_stat : List ℕ → F → BandStats F → Option (BandStats F)
  unfolding text_eq
  store_stat name value b =
      if text_eq name (codes "STATISTICS_MINIMUM")
      then some (record b { min_value = some value })
      else if text_eq name (codes "STATISTICS_MAXIMUM")
      then some (record b { max_value = some value })
      else if text_eq name (codes "STATISTICS_MEAN")
      then some (record b { mean = some value })
      else if text_eq name (codes "STATISTICS_STDDEV")
      then some (record b { stddev = some value })
      else none

  put_stat : List ℕ → ℕ → F → List (BandStats F) → Option (List (BandStats F))
  unfolding store_stat
  put_stat name sample value bands = elim (get_elem? bands sample) [
    | none ↦ none
    | some b ↦ elim (store_stat name value b) [ none ↦ none | some b' ↦ some (set bands sample b') ]
  ]

  -- The value of an item: the text between the next `>` and the `<` behind it.
  item_value : List ℕ → Option F
  unfolding between
  item_value item = elim (between item (codes ">") b'<') [
    | none ↦ none
    | some v ↦ fl.parse (trim v)
  ]

  -- The body of the loop: the bands with the item stored, or none where it is passed over.
  unfoldable pub read_item : List (BandStats F) → List ℕ → Option (List (BandStats F))
  unfolding between sample_of put_stat item_value
  read_item bands item = elim (between item (codes "name=\"") b'"') [
    | none ↦ none
    | some name ↦
        if starts_with name (codes "STATISTICS_")
        then elim (item_value item) [
          | none ↦ none
          | some value ↦ put_stat name (sample_of item) value bands
        ]
        else none
  ]

  read_items : Bool → List (BandStats F) → List (List ℕ) → Bool × List (BandStats F)
  read_items found bands [] = (found, bands)
  read_items found bands (item ∷ rest) = elim (read_item bands item) [
    | none ↦ read_items found bands rest
    | some bands' ↦ read_items true bands' rest
  ]

  unfoldable pub parse_gdal_metadata_stats : List ℕ → ℕ → Option (List (BandStats F))
  unfolding read_items
  parse_gdal_metadata_stats xml num_bands =
      let r = read_items false (replicate num_bands empty_stats) (items xml) in
      if r.0 then some r.1 else none

  unfoldable pub parse_gdal_nodata : List ℕ → Option F
  parse_gdal_nodata s =
      let s' = trim s in if eq_ignore_case s' (codes "nan") then some fl.nan else fl.parse s'
