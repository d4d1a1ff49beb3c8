-- ===== src/Zone.antt =====
-- crates/engine/src/zone.rs: polygon zones. The crates `wkt` and `geo-types` are parameters: a
-- parser of the text and the conversion of what it returns.
pub mod Boxes
mod Tests
use duckdb_cog.Base.{
  ℕ, zero, suc, ◌||◌, ◌&&◌, Bool, true, false, not, Option, none, some, List, [], ◌∷◌, ◌++◌, Result,
  ok, err, ◌>>=◌, if◌then◌else◌, flat_map, ltb, length, map_err,
}
use duckdb_cog.Float.{Float}
use duckdb_cog.Meta.{Bbox}
use duckdb_cog.Meta.Text.{trim}

-- `Coord`, `LineString` and `Polygon` of geo-types.
pub record Coord (F : Type 0) : Type 0 where
  pub x : F
  pub y : F

abbrev pub Ring : Type 0 → Type 0
Ring F = List (Coord F)

pub record Polygon (F : Type 0) : Type 0 where
  pub exterior : List (Coord F)
  pub interiors : List (List (Coord F))

-- `Geometry` of geo-types; `line`, `rect` and `triangle` fall under the last arm of the match.
pub data Geometry (F : Type 0) : Type 0 where
  point line_string multi_point multi_line_string geometry_collection other : Geometry F
  polygon : Polygon F → Geometry F
  multi_polygon : List (Polygon F) → Geometry F

-- `Zone`: a multipolygon.
abbrev pub Zone : Type 0 → Type 0
Zone F = List (Polygon F)

-- `ZoneError`; `unsupported` keeps the text of the type's name.
pub data ZoneKind : Type 0 where
  point line_string multi_point multi_line_string geometry_collection geometry : ZoneKind

pub data ZoneError : Type 0 where
  parse : List ℕ → ZoneError
  unsupported : ZoneKind → ZoneError
  non_finite : ZoneError

module _ {F : Type 0} where
  -- `rings`: the exterior of each polygon before its interiors.
  unfoldable pub rings : Zone F → List (List (Coord F))
  rings z = flat_map (λ p. p.exterior ∷ p.interiors) z

  -- The `match geom`.
  polygons_of : Geometry F → Result ZoneError (Zone F)
  polygons_of (Geometry.polygon p) = ok (p ∷ [])
  polygons_of (Geometry.multi_polygon mp) = ok mp
  polygons_of Geometry.point = err (unsupported ZoneKind.point)
  polygons_of Geometry.line_string = err (unsupported ZoneKind.line_string)
  polygons_of Geometry.multi_point = err (unsupported ZoneKind.multi_point)
  polygons_of Geometry.multi_line_string = err (unsupported ZoneKind.multi_line_string)
  polygons_of Geometry.geometry_collection = err (unsupported ZoneKind.geometry_collection)
  polygons_of Geometry.other = err (unsupported ZoneKind.geometry)

module _ {F : Type 0} ⦃fl : Float F⦄ where
  coord_bad : Coord F → Bool
  coord_bad c = not (fl.is_finite c.x) || not (fl.is_finite c.y)

  any_bad : List (Coord F) → Bool
  unfolding coord_bad
  any_bad [] = false
  any_bad (c ∷ cs) = coord_bad c || any_bad cs

  check_finite : Zone F → Result ZoneError (Zone F)
  unfolding any_bad
  check_finite mp = if any_bad (flat_map (λ r. r) (rings mp)) then err non_finite else ok mp

  -- `parse_zone_wkt` over the two steps of the parser.
  unfoldable pub parse_zone_wkt {κ} :
      {W : Type κ}
      → (List ℕ → Result (List ℕ) W)
      → (W → Result (List ℕ) (Geometry F))
      → List ℕ
      → Result ZoneError (Zone F)
  unfolding polygons_of check_finite
  parse_zone_wkt parse_wkt to_geometry s = do
    parsed ← map_err ZoneError.parse (parse_wkt (trim s))
    geom ← map_err ZoneError.parse (to_geometry parsed)
    mp ← polygons_of geom
    check_finite mp

  widen : Bbox F → Coord F → Bbox F
  widen e c = record {
    xmin = fl.fmin e.xmin c.x;
    ymin = fl.fmin e.ymin c.y;
    xmax = fl.fmax e.xmax c.x;
    ymax = fl.fmax e.ymax c.y;
  }

  -- One vertex of the loop of `envelope`: `get_or_insert`, and the four updates.
  extend : Option (Bbox F) → Coord F → Option (Bbox F)
  unfolding widen
  extend none c = some (widen (record { xmin = c.x; ymin = c.y; xmax = c.x; ymax = c.y }) c)
  extend (some e) c = some (widen e c)

  extend_all : Option (Bbox F) → List (Coord F) → Option (Bbox F)
  unfolding extend
  extend_all env [] = env
  extend_all env (c ∷ cs) = extend_all (extend env c) cs

  -- The vertices of the exteriors, in order.
  pub outer_vertices : Zone F → List (Coord F)
  outer_vertices z = flat_map (λ p. p.exterior) z

  -- `Zone::envelope`; `none` for a zone without vertices.
  unfoldable pub envelope : Zone F → Option (Bbox F)
  unfolding extend_all outer_vertices
  envelope z = extend_all none (outer_vertices z)

  -- Whether the edge from `pj` to `pi` crosses the ray to the right of (x, y).
  unfoldable pub crosses : F → F → Coord F → Coord F → Bool
  crosses x y pi pj =
      let above_i = fl.lt y pi.y in
      let above_j = fl.lt y pj.y in
      let x_cross =
        fl.add pj.x (fl.div (fl.mul (fl.sub y pj.y) (fl.sub pi.x pj.x)) (fl.sub pi.y pj.y)) in
      (if above_i then not above_j else above_j) && fl.lt x x_cross

  -- The inner loop over the vertices, `pj` the one before.
  walk : F → F → Coord F → List (Coord F) → Bool → Bool
  walk x y pj [] inside = inside
  walk x y pj (pi ∷ pts) inside = walk x y pi pts (if crosses x y pi pj then not inside else inside)

  last : Coord F → List (Coord F) → Coord F
  last p [] = p
  last p (q ∷ pts) = last q pts

  -- One ring: fewer than two vertices are passed over, the first edge starts at the last vertex.
  ring_step : F → F → Bool → List (Coord F) → Bool
  unfolding walk last
  ring_step x y inside [] = inside
  ring_step x y inside (p ∷ []) = inside
  ring_step x y inside (p ∷ q ∷ pts) = walk x y (last q pts) (p ∷ q ∷ pts) inside

  rings_step : F → F → Bool → List (List (Coord F)) → Bool
  unfolding ring_step
  rings_step x y inside [] = inside
  rings_step x y inside (r ∷ rs) = rings_step x y (ring_step x y inside r) rs

  -- `Zone::contains`.
  unfoldable pub contains : Zone F → F → F → Bool
  unfolding rings_step
  contains z x y = rings_step x y false (rings z)
