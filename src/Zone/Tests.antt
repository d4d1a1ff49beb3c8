-- ===== src/Zone/Tests.antt =====
-- A square with a hole.
use duckdb_cog.Base.{
  ℕ, zero, suc, ◌≤◌, ◌≡◌, refl, ap, ◌∙◌, arith, true, false, not, ◌&&◌, [], ◌∷◌, map, All,
}
use duckdb_cog.Base.Int.{ℤ, pos, negsuc, ltb_ℤ, ◌+ℤ◌, ◌-ℤ◌, ◌*ℤ◌}
use duckdb_cog.Float.Half.{half_float, halve, div_half}
use duckdb_cog.Meta.{Bbox}
use duckdb_cog.Zone.{Coord, Zone, rings, crosses, walk, last, ring_step, rings_step, contains}
use duckdb_cog.Zone.Boxes.{EdgeLaws, IsBox, corners, within, any_within, contains-boxes}

abbrev corner : ℕ → ℕ → Coord ℤ
corner x y = record { x = pos x; y = pos y }

abbrev square : Zone ℤ
square =
    record {
      exterior = corner 0 0 ∷ corner 8 0 ∷ corner 8 8 ∷ corner 0 8 ∷ corner 0 0 ∷ [];
      interiors = (corner 2 2 ∷ corner 4 2 ∷ corner 4 4 ∷ corner 2 4 ∷ []) ∷ [];
    }
    ∷ []

square_inside : contains square (pos 1) (pos 1) ≡ true
unfolding contains rings_step ring_step walk last crosses rings half_float ◌+ℤ◌ ◌-ℤ◌ ◌*ℤ◌
square_inside = refl

square_hole : contains square (pos 3) (pos 3) ≡ false
unfolding contains rings_step ring_step walk last crosses rings half_float ◌+ℤ◌ ◌-ℤ◌ ◌*ℤ◌
square_hole = refl

self_sub : (a : ℤ) → a -ℤ a ≡ pos 0
unfolding ◌-ℤ◌
self_sub (pos n) = ground arith
self_sub (negsuc n) = ground arith

mul_zero : (t : ℤ) → t *ℤ pos 0 ≡ pos 0
unfolding ◌*ℤ◌
mul_zero (pos n) = ground arith
mul_zero (negsuc n) = ground arith

zero_div : (h : ℤ) → div_half (pos 0) h ≡ pos 0
zero_div (pos zero) = refl
zero_div (pos (suc m)) = ground arith
zero_div (negsuc m) = refl

add_zero : (a : ℤ) → a +ℤ pos 0 ≡ a
unfolding ◌+ℤ◌
add_zero (pos n) = ground arith
add_zero (negsuc n) = ground arith

half_edges : EdgeLaws half_float
unfolding half_float
half_edges = record {
  upright = λ x y a b d p q r h. ap (ltb_ℤ x) (
      ap (λ z. a +ℤ div_half (halve ((y -ℤ b) *ℤ z)) (d -ℤ b)) (self_sub a)
      ∙ ap (λ z. a +ℤ div_half (halve z) (d -ℤ b)) (mul_zero (y -ℤ b))
      ∙ ap (λ z. a +ℤ z) (zero_div (d -ℤ b))
      ∙ add_zero a);
  lt_le = λ x a b h h'. ground arith;
}

abbrev box_of : ℕ → ℕ → Bbox ℤ
box_of low high = record { xmin = pos low; ymin = pos low; xmax = pos high; ymax = pos high }

box_of-IsBox : (low high : ℕ) → low ≤ high → IsBox (pos 3) (box_of low high)
unfolding half_float
box_of-IsBox low high h = record {
  left = refl;
  right = refl;
  wide = ground arith;
  high = ground arith;
  up = refl;
  down = refl;
  from_low = refl;
  from_high = refl;
}

two-IsBox : All (IsBox (pos 3)) (box_of 0 8 ∷ box_of 2 4 ∷ [])
two-IsBox = (box_of-IsBox 0 8 (omega arith), (box_of-IsBox 2 4 (omega arith), tt))

hole_in_outer :
    any_within (pos 3) (pos 3) (box_of 2 4 ∷ []) ≡ true → within (pos 3) (pos 3) (box_of 0 8) ≡ true
unfolding half_float
hole_in_outer h = refl

contains-boxes_example :
    contains
      (record { exterior = corners (box_of 0 8); interiors = map corners (box_of 2 4 ∷ []) } ∷ [])
      (pos 3)
      (pos 3)
    ≡ (within (pos 3) (pos 3) (box_of 0 8) && not (any_within (pos 3) (pos 3) (box_of 2 4 ∷ [])))
contains-boxes_example =
    contains-boxes half_edges (pos 3) (pos 3) (box_of 0 8) (box_of 2 4 ∷ []) two-IsBox
      ((λ e. refl), tt) hole_in_outer
