-- ===== src/Network/GcsRoutes.antt =====
-- The handlers of src/network/gcs_routes.cpp that steer the mission: they change the tick on hand,
-- the matched airdrops and the mission. The body of a request is taken as it is parsed.
pub mod Safety
mod Examples
use obcpp.Base.{ℕ, List, [], ◌∷◌, Option, none, some, Bool, true, ◌==◌, if◌then◌else◌}
use obcpp.Ticks.Tick.{Tick, ValidateStatus, TakeoffStatus, path_validate, wait_for_takeoff}
use obcpp.Ticks.State.{MissionState, Config, Readings, CvStatus}
use obcpp.Ticks.Flight.{◌>>=◌}
use obcpp.Ticks.Schedule.{do_tick}
use obcpp.Network.Matches.{put_all}
use obcpp.Network.GcsServices.{Camera, run_pipeline_route, rtl_route}

pub data Response : Type 0 where
  ok bad_request : Response

-- `targets_matched` has the airdrops of the request, each with its index; `mission accepted` says
-- whether the parameters took the mission.
pub data Request (Target : Type 0) : Type 0 where
  path_initial_new path_initial_validate takeoff_manual takeoff_autonomous : Request Target
  targets_matched : List (ℕ × Target) → Request Target
  mission : Bool → Request Target

module _ {Route Target : Type 0} where
  -- `setStatus` of the tick on hand, if it is of the class that the handler asks for.
  set_validate_status :
      MissionState Route Target → ValidateStatus → Tick Route → MissionState Route Target × Response
  set_validate_status s status (path_validate old) = (record s { tick = path_validate status }, ok)
  set_validate_status s status _ = (s, bad_request)

  set_takeoff_status :
      MissionState Route Target → TakeoffStatus → Tick Route → MissionState Route Target × Response
  set_takeoff_status s status (wait_for_takeoff old) =
      (record s { tick = wait_for_takeoff status }, ok)
  set_takeoff_status s status _ = (s, bad_request)

  -- The matched airdrops are written over the dummies, and the status lets the flight go on.
  match_targets :
      MissionState Route Target
      → List (ℕ × Target)
      → Option (List (ℕ × Target))
      → MissionState Route Target × Response
  unfolding put_all
  match_targets s found none = (s, bad_request)
  match_targets s found (some table) =
      (record s { cv = some (put_all found table); cv_status = CvStatus.validated }, ok)

  -- `is_empty` says whether a path has no points.
  pub handle :
      (Route → Bool)
      → MissionState Route Target
      → Request Target
      → MissionState Route Target × Response
  unfolding set_validate_status set_takeoff_status match_targets
  handle is_empty s path_initial_new = set_validate_status s ValidateStatus.rejected s.tick
  handle is_empty s path_initial_validate =
      let validated = set_validate_status s ValidateStatus.validated s.tick in
      if is_empty s.init_path then (s, bad_request) else validated
  handle is_empty s takeoff_manual = set_takeoff_status s TakeoffStatus.manual s.tick
  handle is_empty s takeoff_autonomous = set_takeoff_status s TakeoffStatus.autonomous s.tick
  handle is_empty s (targets_matched found) = match_targets s found s.cv
  handle is_empty s (mission accepted) =
      if accepted then (record s { has_mission = true }, ok) else (s, bad_request)

-- The requests that may fault: POST /rtl, and POST /camera/runpipeline with the camera, if there is
-- one, and the dictionary that is made for the new aggregator.
pub data Service (Target Photo : Type 0) : Type 0 where
  rtl : Service Target Photo
  run_pipeline : Option (Camera Photo) → List (ℕ × Target) → Service Target Photo

module _ {Route Target Photo : Type 0} (c : Config) where
  -- The aggregator of the mission is replaced; a null client, a null camera and an empty photo that is
  -- saved are `none`.
  pub serve : MissionState Route Target → Service Target Photo → Option (MissionState Route Target)
  serve s rtl = elim (rtl_route {Photo = Photo} s.mav) [ none ↦ none | some reply ↦ some s ]
  serve s (run_pipeline cam stage) =
      elim (run_pipeline_route cam c.pictures_per_stop c.save_images_to_file) [
        | none ↦ none
        | some reply ↦ some (record s { cv = some stage })
      ]

-- What happens to the mission: the loop of `OBC::run` makes a tick, or a request comes between two.
pub data Event (Route Target Photo : Type 0) : Type 0 where
  ticked : Readings Route Target Photo → Readings Route Target Photo → Event Route Target Photo
  requested : Request Target → Event Route Target Photo
  served : Service Target Photo → Event Route Target Photo

module _ {Route Target Photo : Type 0} (is_empty : Route → Bool) (c : Config) where
  pub happen :
      MissionState Route Target → Event Route Target Photo → Option (MissionState Route Target)
  unfolding handle serve
  happen s (ticked r r') = do (t, acts, wait) ← do_tick s c r r'; some t
  happen s (requested q) = some (handle is_empty s q).0
  happen s (served q) = serve c s q

  -- The events one after the other; `none` if one of them faults.
  pub run :
      MissionState Route Target
      → List (Event Route Target Photo)
      → Option (MissionState Route Target)
  unfolding happen
  run s [] = some s
  run s (e ∷ es) = do t ← happen s e; run t es
