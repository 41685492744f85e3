-- ===== src/Pathing/DropLocation.antt =====
-- Where the plane drops from (`AirdropApproachPathing::getDropLocation` of src/pathing/static.cpp). The
-- trigonometry is a parameter.
mod Examples
use obcpp.Base.Int.{pos}
use obcpp.Pathing.Polygons.{Double, XyzCoord}

pub data AirdropDropMethod : Type 0 where
  guided unguided : AirdropDropMethod

-- The configuration of the approach.
pub record AirdropApproachConfig (R : Type 0) : Type 0 where
  pub drop_method : AirdropDropMethod
  pub drop_angle_rad : R
  pub drop_altitude_m : R
  pub guided_drop_distance_m : R
  pub unguided_drop_distance_m : R

abbrev pub drop_distance : {R : Type 0} → AirdropDropMethod → AirdropApproachConfig R → R
drop_distance guided config = config.guided_drop_distance_m
drop_distance unguided config = config.unguided_drop_distance_m

module _ {R : Type 0} (d : Double R) (cos sin : R → R) (atan2 : R → R → R)
    (norm : XyzCoord R → R) where
  -- WIND_CONST_PER_ALTITUDE.
  abbrev pub wind_const_per_altitude : R
  wind_const_per_altitude = d.over (d.of_int (pos 3)) (d.of_int (pos 10))

  abbrev pub offset : (distance angle : R) → XyzCoord R
  offset distance angle = record {
    x = d.times distance (cos angle);
    y = d.times distance (sin angle);
    z = d.of_int (pos 0);
  }

  -- The place, and the angle from there to the goal.
  pub get_drop_location : AirdropApproachConfig R → (goal wind : XyzCoord R) → XyzCoord R × R
  get_drop_location config goal wind =
      let drop_offset = offset (drop_distance config.drop_method config) config.drop_angle_rad in
      let wind_offset =
        offset (d.times (norm wind) wind_const_per_altitude) (atan2 wind.y wind.x) in
      let drop_location : XyzCoord R = record {
        x = d.plus (d.plus goal.x drop_offset.x) wind_offset.x;
        y = d.plus (d.plus goal.y drop_offset.y) wind_offset.y;
        z = config.drop_altitude_m;
      } in
      (drop_location, atan2 (d.minus goal.y drop_location.y) (d.minus goal.x drop_location.x))
