-- ===== src/Meta/Tiles/Shares.antt =====
-- `bbox_intersects` and `bbox_invalid` against the points of boxes.
use duckdb_cog.Base.{◌≡◌, ◌↔◌, arith, not, inl, inr, refl, true, false, Bool-cases}
use duckdb_cog.Float.{Float}
use duckdb_cog.Meta.{Bbox}
use duckdb_cog.Meta.Tiles.{bbox_intersects, bbox_invalid}

-- What IEEE 754 says of `<=` and `<`: what compares is a number, finite values are numbers, and
-- numbers are in a total order.
pub record LeLaws {F : Type 0} (fl : Float F) : Type 0 where
  pub le_trans : (a b c : F) → fl.le a b ≡ true → fl.le b c ≡ true → fl.le a c ≡ true
  pub le_numbers : (a b : F) → fl.le a b ≡ true → (fl.le a a ≡ true) × (fl.le b b ≡ true)
  pub le_total :
      (a b : F) → fl.le a a ≡ true → fl.le b b ≡ true → fl.le a b ≡ false → fl.le b a ≡ true
  pub finite-le : (a : F) → fl.is_finite a ≡ true → fl.le a a ≡ true
  pub le-lt : (a b : F) → fl.le a a ≡ true → fl.le b b ≡ true → fl.le a b ≡ not (fl.lt b a)

module _ {F : Type 0} ⦃fl : Float F⦄ where
  -- The points of a box, its border included.
  abbrev pub HasPoint : Bbox F → F → F → Type 0
  HasPoint b x y =
      (fl.le b.xmin x ≡ true)
      × (fl.le x b.xmax ≡ true)
      × (fl.le b.ymin y ≡ true)
      × (fl.le y b.ymax ≡ true)

  -- Two boxes that have a point in common.
  abbrev pub Shares : Bbox F → Bbox F → Type 0
  Shares b f = (x : F) × (y : F) × HasPoint b x y × HasPoint f x y

  abbrev pub IsOrdered : Bbox F → Type 0
  IsOrdered b = (fl.le b.xmin b.xmax ≡ true) × (fl.le b.ymin b.ymax ≡ true)

  -- Four finite numbers in order.
  abbrev pub IsFilter : Bbox F → Type 0
  IsFilter f =
      (fl.is_finite f.xmin ≡ true)
      × (fl.is_finite f.ymin ≡ true)
      × (fl.is_finite f.xmax ≡ true)
      × (fl.is_finite f.ymax ≡ true)
      × (fl.le f.xmin f.xmax ≡ true)
      × (fl.le f.ymin f.ymax ≡ true)

module _ {F : Type 0} ⦃fl : Float F⦄ (laws : LeLaws fl) where
  -- Two intervals of which the first bounds do not exceed the second ones of the other.
  meeting :
      (a b c d : F)
      → fl.le a b ≡ true
      → fl.le c d ≡ true
      → fl.le a d ≡ true
      → fl.le c b ≡ true
      → (x : F) × (fl.le a x ≡ true) × (fl.le x b ≡ true) × (fl.le c x ≡ true) × (fl.le x d ≡ true)
  meeting a b c d ab cd ad cb = elim (Bool-cases (fl.le a c)) [
    | inl ac ↦ (c, ac, cb, (laws.le_numbers c d cd).0, cd)
    | inr ca ↦ (
      a,
      (laws.le_numbers a b ab).0,
      ab,
      laws.le_total a c (laws.le_numbers a b ab).0 (laws.le_numbers c d cd).0 ca,
      ad,
    )
  ]

  pub intersects-Shares :
      (b f : Bbox F) → IsOrdered b → IsOrdered f → bbox_intersects b f ≡ true → Shares b f
  unfolding bbox_intersects
  intersects-Shares b f (bx, by) (fx, fy) h =
      let (x, x1, x2, x3, x4) =
        meeting b.xmin b.xmax f.xmin f.xmax bx fx (ground arith) (ground arith) in
      let (y, y1, y2, y3, y4) =
        meeting b.ymin b.ymax f.ymin f.ymax by fy (ground arith) (ground arith) in
      (x, y, (x1, x2, y1, y2), (x3, x4, y3, y4))

  pub Shares-intersects : (b f : Bbox F) → Shares b f → bbox_intersects b f ≡ true
  unfolding bbox_intersects
  Shares-intersects b f (x, y, (b1, b2, b3, b4), (f1, f2, f3, f4)) =
      rw
        (
          laws.le_trans b.xmin x f.xmax b1 f2,
          laws.le_trans f.xmin x b.xmax f1 b2,
          laws.le_trans b.ymin y f.ymax b3 f4,
          laws.le_trans f.ymin y b.ymax f3 b4,
        )
        refl

  pub invalid_iff : (f : Bbox F) → (bbox_invalid f ≡ false) ↔ IsFilter f
  unfolding bbox_invalid
  invalid_iff f = (valid, λ (a, b, c, d, x, y). judged a b c d x y)
    where
      ordered :
          (a b : F) → fl.is_finite a ≡ true → fl.is_finite b ≡ true → fl.le a b ≡ not (fl.lt b a)
      ordered a b p q = laws.le-lt a b (laws.finite-le a p) (laws.finite-le b q)

      valid : bbox_invalid f ≡ false → IsFilter f
      valid h =
          let a : fl.is_finite f.xmin ≡ true = ground arith in
          let b : fl.is_finite f.ymin ≡ true = ground arith in
          let c : fl.is_finite f.xmax ≡ true = ground arith in
          let d : fl.is_finite f.ymax ≡ true = ground arith in
          (
            a,
            b,
            c,
            d,
            ground (arith, ordered f.xmin f.xmax a c),
            ground (arith, ordered f.ymin f.ymax b d),
          )

      judged :
          fl.is_finite f.xmin ≡ true
          → fl.is_finite f.ymin ≡ true
          → fl.is_finite f.xmax ≡ true
          → fl.is_finite f.ymax ≡ true
          → fl.le f.xmin f.xmax ≡ true
          → fl.le f.ymin f.ymax ≡ true
          → bbox_invalid f ≡ false
      judged a b c d x y = ground (arith, ordered f.xmin f.xmax a c, ordered f.ymin f.ymax b d)
