-- ===== src/Pathing/MissionPath.antt =====
-- The waypoint missions that are uploaded to the flight controller (src/pathing/mission_path.cpp,
-- include/pathing/mission_path.hpp). Floating point numbers and coordinates are parameters. An
-- access out of range throws: `none`.
pub mod Items
mod Examples
use obcpp.Base.{
  ℕ, ◌+◌, ◌-◌, List, [], ◌∷◌, ◌++◌, Option, none, some, length, get_elem?, ◌==◌, if◌then◌else◌,
}
use obcpp.Base.Int.{ℤ}

-- The numbers of the commands' fields, and how a coordinate is written in them: `x` and `y` are the
-- rounded degrees times 1e7.
pub record Geo (Gps Float : Type 0) : Type 0 where
  pub of_int : ℕ → Float
  pub nan : Float
  pub scaled_latitude : Gps → ℤ
  pub scaled_longitude : Gps → ℤ
  pub altitude : Gps → Float

pub data Kind : Type 0 where
  forward hover hover_at_final unknown : Kind

pub data Command : Type 0 where
  nav_waypoint nav_loiter_time : Command

pub data Frame : Type 0 where
  global_relative_alt : Frame

pub data MissionType : Type 0 where
  mission : MissionType

pub record MissionItem (Float : Type 0) : Type 0 where
  pub seq : ℕ
  pub frame : Frame
  pub command : Command
  pub current : ℕ
  pub autocontinue : ℕ
  pub param1 : Float
  pub param2 : Float
  pub param3 : Float
  pub param4 : Float
  pub x : ℤ
  pub y : ℤ
  pub z : Float
  pub mission_type : MissionType

pub record MissionPath (Gps Float : Type 0) : Type 0 where
  pub kind : Kind
  pub path : List Gps
  pub path_mav : List (MissionItem Float)
  pub hover_wait_s : ℕ

module _ {Gps Float : Type 0} (g : Geo Gps Float) where
  open g use {of_int, nan, scaled_latitude, scaled_longitude, altitude}

  -- The point that the forward mission names twice, since a simulator skips the first one.
  pub first_item : Gps → MissionItem Float
  first_item coord = record {
    seq = 0;
    frame = global_relative_alt;
    command = nav_waypoint;
    current = 1;
    autocontinue = 1;
    param1 = of_int 0;
    param2 = of_int 1;
    param3 = of_int 1;
    param4 = nan;
    x = scaled_latitude coord;
    y = scaled_longitude coord;
    z = altitude coord;
    mission_type = mission;
  }

  pub waypoint_item : ℕ → ℕ → Gps → MissionItem Float
  waypoint_item seq current coord = record {
    seq = seq;
    frame = global_relative_alt;
    command = nav_waypoint;
    current = current;
    autocontinue = 1;
    param1 = of_int 0;
    param2 = of_int 7;
    param3 = of_int 0;
    param4 = nan;
    x = scaled_latitude coord;
    y = scaled_longitude coord;
    z = altitude coord;
    mission_type = mission;
  }

  pub loiter_item : ℕ → ℕ → ℕ → Gps → MissionItem Float
  loiter_item wait seq current coord = record {
    seq = seq;
    frame = global_relative_alt;
    command = nav_loiter_time;
    current = current;
    autocontinue = 1;
    param1 = of_int wait;
    param2 = of_int 0;
    param3 = of_int 0;
    param4 = of_int 0;
    x = scaled_latitude coord;
    y = scaled_longitude coord;
    z = altitude coord;
    mission_type = mission;
  }

  -- The loop over the path from index `i` on.
  forward_from : ℕ → List Gps → List (MissionItem Float)
  unfolding waypoint_item
  forward_from i [] = []
  forward_from i (coord ∷ rest) = waypoint_item (i + 1) 0 coord ∷ forward_from (i + 1) rest

  pub generate_forward_commands : List Gps → Option (List (MissionItem Float))
  unfolding forward_from first_item
  generate_forward_commands path = elim (get_elem? path 0) [
    | none ↦ none
    | some coord ↦ some (first_item coord ∷ forward_from 0 path)
  ]

  hover_from : ℕ → ℕ → List Gps → List (MissionItem Float)
  unfolding loiter_item
  hover_from wait i [] = []
  hover_from wait i (coord ∷ rest) =
      loiter_item wait i (if i == 0 then 1 else 0) coord ∷ hover_from wait (i + 1) rest

  pub generate_hover_commands : ℕ → List Gps → List (MissionItem Float)
  unfolding hover_from
  generate_hover_commands wait path = hover_from wait 0 path

  -- The loop breaks before the last point; it also gives the index where it stops.
  before_final : ℕ → ℕ → List Gps → List (MissionItem Float) × ℕ
  unfolding waypoint_item
  before_final total i [] = ([], i)
  before_final total i (coord ∷ rest) =
      let later = before_final total (i + 1) rest in
      if i + 1 == total
      then ([], i)
      else (waypoint_item i (if i == 0 then 1 else 0) coord ∷ later.0, later.1)

  pub generate_hover_at_final_commands : ℕ → List Gps → Option (List (MissionItem Float))
  unfolding before_final loiter_item
  generate_hover_at_final_commands wait path =
      let (items, i) = before_final (length path) 0 path in
      elim (get_elem? path (length path - 1)) [
        | none ↦ none
        | some coord ↦ some (items ++ loiter_item wait i 0 coord ∷ [])
      ]

  -- The constructor; a type that is none of the three is taken for a forward path.
  pub commands : Kind → List Gps → ℕ → Option (List (MissionItem Float))
  unfolding generate_forward_commands generate_hover_commands generate_hover_at_final_commands
  commands forward path wait = generate_forward_commands path
  commands hover path wait = some (generate_hover_commands wait path)
  commands hover_at_final path wait = generate_hover_at_final_commands wait path
  commands unknown path wait = generate_forward_commands path

  pub mission_path : Kind → List Gps → ℕ → Option (MissionPath Gps Float)
  unfolding commands
  mission_path kind path wait = elim (commands kind path wait) [
    | none ↦ none
    | some items ↦ some (record { kind = kind; path = path; path_mav = items; hover_wait_s = wait })
  ]
