-- ===== src/Zone/Boxes.antt =====
-- `Zone::contains` on polygons whose rings are boxes.
use duckdb_cog.Base.{
  ◌≡◌, refl, ◌∙◌, arith, Bool, true, false, not, ◌&&◌, ◌||◌, List, [], ◌∷◌, map, if◌then◌else◌, All,
  Bool-cases, inl, inr, append-nil,
}
use duckdb_cog.Float.{Float}
use duckdb_cog.Meta.{Bbox}
use duckdb_cog.Zone.{Coord, rings, crosses, walk, last, ring_step, rings_step, contains}

abbrev xor : Bool → Bool → Bool
xor true b = not b
xor false b = b

-- What IEEE 754 says of a vertical edge, unless a difference overflows: the product with zero is
-- zero, and its quotient too, so the edge meets the line of the point at its own place. And what it
-- says of the order.
pub record EdgeLaws {F : Type 0} (fl : Float F) : Type 0 where
  pub upright :
      (x y a b d : F)
      → fl.is_finite a ≡ true
      → fl.is_finite (fl.sub y b) ≡ true
      → fl.is_finite (fl.sub d b) ≡ true
      → fl.lt y d ≡ not (fl.lt y b)
      → fl.lt x (fl.add a (fl.div (fl.mul (fl.sub y b) (fl.sub a a)) (fl.sub d b))) ≡ fl.lt x a
  pub lt_le : (x a b : F) → fl.le a b ≡ true → fl.lt x a ≡ true → fl.lt x b ≡ true

module _ {F : Type 0} ⦃fl : Float F⦄ where
  -- The closed ring around a box.
  abbrev pub corners : Bbox F → List (Coord F)
  corners b =
      record { x = b.xmin; y = b.ymin }
      ∷ record { x = b.xmax; y = b.ymin }
      ∷ record { x = b.xmax; y = b.ymax }
      ∷ record { x = b.xmin; y = b.ymax }
      ∷ record { x = b.xmin; y = b.ymin }
      ∷ []

  -- A box without its right and its upper side has the point.
  abbrev pub within : F → F → Bbox F → Bool
  within x y b =
      (not (fl.lt x b.xmin) && fl.lt x b.xmax) && (not (fl.lt y b.ymin) && fl.lt y b.ymax)

  -- A box in order whose differences, also those from the line of the point, do not overflow.
  pub record IsBox (y : F) (b : Bbox F) : Type 0 where
    pub left : fl.is_finite b.xmin ≡ true
    pub right : fl.is_finite b.xmax ≡ true
    pub wide : fl.le b.xmin b.xmax ≡ true
    pub high : fl.le b.ymin b.ymax ≡ true
    pub up : fl.is_finite (fl.sub b.ymax b.ymin) ≡ true
    pub down : fl.is_finite (fl.sub b.ymin b.ymax) ≡ true
    pub from_low : fl.is_finite (fl.sub y b.ymin) ≡ true
    pub from_high : fl.is_finite (fl.sub y b.ymax) ≡ true

  level_edge :
      (x y a c d : F) → crosses x y (record { x = c; y = d }) (record { x = a; y = d }) ≡ false
  unfolding crosses
  level_edge x y a c d = elim (Bool-cases (fl.lt y d)) [ inl e ↦ rw (e) refl | inr e ↦ rw (e) refl ]

module _ {F : Type 0} ⦃fl : Float F⦄ (x y : F) where
  abbrev pub any_within : List (Bbox F) → Bool
  any_within [] = false
  any_within (h ∷ holes) = within x y h || any_within holes

  -- Holes apart: the point is in at most one of them.
  abbrev pub AtMostOne : List (Bbox F) → Type 0
  AtMostOne [] = Unit
  AtMostOne (h ∷ holes) = (within x y h ≡ true → any_within holes ≡ false) × AtMostOne holes

module _ {F : Type 0} ⦃fl : Float F⦄ (laws : EdgeLaws fl) (x y : F) where
  upright_edge :
      (a b d : F)
      → fl.is_finite a ≡ true
      → fl.is_finite (fl.sub y b) ≡ true
      → fl.is_finite (fl.sub d b) ≡ true
      → crosses x y (record { x = a; y = d }) (record { x = a; y = b })
        ≡ (xor (fl.lt y d) (fl.lt y b) && fl.lt x a)
  unfolding crosses
  upright_edge a b d p q r = elim (Bool-cases (fl.lt y d)) [
    | inl e ↦ elim (Bool-cases (fl.lt y b)) [
      | inl e' ↦ rw (e, e') refl
      | inr e' ↦
          let h : fl.lt y d ≡ not (fl.lt y b) = rw (e, e') refl in
          rw (laws.upright x y a b d p q r h) (rw (e, e') refl)
    ]
    | inr e ↦ elim (Bool-cases (fl.lt y b)) [
      | inl e' ↦
          let h : fl.lt y d ≡ not (fl.lt y b) = rw (e, e') refl in
          rw (laws.upright x y a b d p q r h) (rw (e, e') refl)
      | inr e' ↦ rw (e, e') refl
    ]
  ]

  toggle : Bool → Bool → Bool
  toggle edge inside = if edge then not inside else inside

  box_toggles :
      (l r lo hi inside : Bool)
      → (l ≡ true → r ≡ true)
      → (lo ≡ true → hi ≡ true)
      → toggle (xor lo hi && l) (toggle (xor hi lo && r) inside)
        ≡ xor inside ((not l && r) && (not lo && hi))
  unfolding toggle
  box_toggles l r lo hi inside across along = ground arith

  ring-box :
      (b : Bbox F) (inside : Bool)
      → IsBox y b
      → ring_step x y inside (corners b) ≡ xor inside (within x y b)
  unfolding ring_step last walk toggle
  ring-box b inside i =
      rw
        (
          level_edge x y b.xmin b.xmin b.ymin,
          level_edge x y b.xmin b.xmax b.ymin,
          level_edge x y b.xmax b.xmin b.ymax,
          upright_edge b.xmax b.ymin b.ymax i.right i.from_low i.up,
          upright_edge b.xmin b.ymax b.ymin i.left i.from_high i.down,
        )
        (box_toggles (fl.lt x b.xmin) (fl.lt x b.xmax) (fl.lt y b.ymin) (fl.lt y b.ymax) inside
          (laws.lt_le x b.xmin b.xmax i.wide) (laws.lt_le y b.ymin b.ymax i.high))

  rings-boxes :
      (bs : List (Bbox F)) (inside : Bool)
      → All (IsBox y) bs
      → AtMostOne x y bs
      → (any_within x y bs ≡ true → inside ≡ true)
      → rings_step x y inside (map corners bs) ≡ (inside && not (any_within x y bs))
  unfolding rings_step
  rings-boxes [] inside h one in_outer = ground arith
  rings-boxes (b ∷ bs) inside (i, h) (alone, one) in_outer =
      let ih : rings_step x y (xor inside (within x y b)) (map corners bs)
          ≡ (xor inside (within x y b) && not (any_within x y bs)) =
        rings-boxes bs (xor inside (within x y b)) h one (λ e. still alone in_outer e) in
      rw (rings_step, ring-box b inside i)
        (ih ∙ combined (within x y b) (any_within x y bs) alone in_outer)
    where
      still :
          (within x y b ≡ true → any_within x y bs ≡ false)
          → ((within x y b || any_within x y bs) ≡ true → inside ≡ true)
          → any_within x y bs ≡ true
          → xor inside (within x y b) ≡ true
      still alone in_outer e = ground arith

      combined :
          (w a : Bool)
          → (w ≡ true → a ≡ false)
          → ((w || a) ≡ true → inside ≡ true)
          → (xor inside w && not a) ≡ (inside && not (w || a))
      combined w a alone in_outer = ground arith

  -- Where vertical edges meet the line of the point at their own place, as they do in IEEE 754
  -- unless a difference overflows, for a polygon whose exterior and holes are boxes in order, with
  -- finite sides and finite differences, and a point that is in at most one hole and in the
  -- exterior if it is in one: the polygon contains the point exactly if it is in the exterior and
  -- in no hole. The left and the lower side count as part of a box, the right and the upper side do
  -- not.
  pub contains-boxes :
      (outer : Bbox F) (holes : List (Bbox F))
      → All (IsBox y) (outer ∷ holes)
      → AtMostOne x y holes
      → (any_within x y holes ≡ true → within x y outer ≡ true)
      → contains (record { exterior = corners outer; interiors = map corners holes } ∷ []) x y
        ≡ (within x y outer && not (any_within x y holes))
  unfolding contains rings rings_step
  contains-boxes outer holes (i, h) one in_outer =
      rw (append-nil (map corners holes), rings_step, ring-box outer false i)
        (rings-boxes holes (within x y outer) h one in_outer)
