-- ===== src/Pathing/DropLocation/Examples.antt =====
-- A drop with wind (src/pathing/static.cpp), whose constant is cut to 0 here. Cosines are 1, sines 0,
-- and the norm is the part to the east.
use obcpp.Base.{◌≡◌, refl}
use obcpp.Base.Int.{ℤ, pos, negsuc, ◌+ℤ◌, ◌-ℤ◌, ◌*ℤ◌}
use obcpp.Pathing.Polygons.Whole.{whole, at}
use obcpp.Pathing.DropLocation.{
  AirdropDropMethod, guided, unguided, AirdropApproachConfig, get_drop_location,
}

abbrev config : AirdropDropMethod → AirdropApproachConfig ℤ
config method = record {
  drop_method = method;
  drop_angle_rad = pos 0;
  drop_altitude_m = pos 25;
  guided_drop_distance_m = pos 50;
  unguided_drop_distance_m = pos 20;
}

guided_drop :
    get_drop_location whole
      (λ a. pos 1)
      (λ a. pos 0)
      (λ y x. x)
      (λ p. p.x)
      (config guided)
      (at (pos 100) (pos 7))
      (at (pos 3) (pos 0))
    ≡ (record { x = pos 150; y = pos 7; z = pos 25 }, negsuc 49)
unfolding get_drop_location ◌+ℤ◌ ◌-ℤ◌ ◌*ℤ◌
guided_drop = refl

unguided_drop :
    get_drop_location whole
      (λ a. pos 1)
      (λ a. pos 0)
      (λ y x. x)
      (λ p. p.x)
      (config unguided)
      (at (pos 100) (pos 7))
      (at (pos 3) (pos 0))
    ≡ (record { x = pos 120; y = pos 7; z = pos 25 }, negsuc 19)
unfolding get_drop_location ◌+ℤ◌ ◌-ℤ◌ ◌*ℤ◌
unguided_drop = refl
