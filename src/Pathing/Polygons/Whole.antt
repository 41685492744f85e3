-- ===== src/Pathing/Polygons/Whole.antt =====
-- Whole numbers in place of the doubles of src/pathing, for examples. The quotients are those of the
-- positive parts, which is enough for edges that are upright or level.
use obcpp.Base.{◌/◌, not}
use obcpp.Base.Int.{ℤ, pos, pos_part, ◌+ℤ◌, ◌-ℤ◌, ◌*ℤ◌, ltb_ℤ}
use obcpp.Pathing.Polygons.{Double, XyzCoord}

abbrev pub whole : Double ℤ
whole = record {
  plus = λ a b. a +ℤ b;
  minus = λ a b. a -ℤ b;
  times = λ a b. a *ℤ b;
  over = λ a b. pos (pos_part a / pos_part b);
  less = λ a b. ltb_ℤ a b;
  at_most = λ a b. not (ltb_ℤ b a);
  of_int = λ n. n;
  truncated = λ n. n;
}

abbrev pub at : ℤ → ℤ → XyzCoord ℤ
at x y = record { x = x; y = y; z = pos 0 }
