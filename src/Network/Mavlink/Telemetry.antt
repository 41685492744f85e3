-- ===== src/Network/Mavlink/Telemetry.antt =====
-- What the client keeps of the telemetry (the subscriptions of the constructor in
-- src/network/mavlink.cpp). The getters are the fields. Numbers are a parameter, with the length of
-- the velocity over ground from its two components.

pub record Data (Num Mode Flag : Type 0) : Type 0 where
  pub lat_deg : Num
  pub lng_deg : Num
  pub altitude_agl_m : Num
  pub altitude_msl_m : Num
  pub groundspeed_m_s : Num
  pub airspeed_m_s : Num
  pub heading_deg : Num
  pub yaw_deg : Num
  pub pitch_deg : Num
  pub roll_deg : Num
  pub wind_x : Num
  pub wind_y : Num
  pub wind_z : Num
  pub flight_mode : Mode
  pub armed : Flag

-- A message of one of the subscriptions.
pub data Message (Num Mode Flag : Type 0) : Type 0 where
  position : Num → Num → Num → Num → Message Num Mode Flag
  mode_changed : Mode → Message Num Mode Flag
  fixedwing_metrics : Num → Message Num Mode Flag
  velocity_ned : Num → Num → Message Num Mode Flag
  armed_changed : Flag → Message Num Mode Flag
  wind_changed : Num → Num → Num → Message Num Mode Flag
  heading_changed : Num → Message Num Mode Flag
  attitude_euler : Num → Num → Num → Message Num Mode Flag

-- `position` has the latitude, the longitude, the relative and the absolute altitude, `velocity_ned` the
-- east and the north component.
pub on_message :
    {Num Mode Flag : Type 0}
    → (Num → Num → Num)
    → Data Num Mode Flag
    → Message Num Mode Flag
    → Data Num Mode Flag
on_message speed d (position lat lng relative absolute) = record d {
  altitude_agl_m = relative;
  altitude_msl_m = absolute;
  lat_deg = lat;
  lng_deg = lng;
}
on_message speed d (mode_changed mode) = record d { flight_mode = mode }
on_message speed d (fixedwing_metrics airspeed) = record d { airspeed_m_s = airspeed }
on_message speed d (velocity_ned east north) = record d { groundspeed_m_s = speed east north }
on_message speed d (armed_changed armed) = record d { armed = armed }
on_message speed d (wind_changed x y z) = record d { wind_x = x; wind_y = y; wind_z = z }
on_message speed d (heading_changed heading) = record d { heading_deg = heading }
on_message speed d (attitude_euler yaw pitch roll) = record d {
  yaw_deg = yaw;
  pitch_deg = pitch;
  roll_deg = roll;
}
