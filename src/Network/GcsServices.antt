-- ===== src/Network/GcsServices.antt =====
-- The handlers of src/network/gcs_routes.cpp that ask the clients and the camera for something. A
-- handler that dereferences a null pointer or an empty optional faults; images and the texts made of
-- them are parameters, and the body of a request is taken as it is parsed.
pub mod Targets
mod Examples
use obcpp.Base.{
  ℕ, zero, suc, ◌+◌, ◌%◌, ◌^◌, Bool, true, false, Option, none, some, List, [], ◌∷◌, ◌++◌, map,
  ◌==◌, if◌then◌else◌, length,
}
use obcpp.Base.Int.{ℤ, pos, ◌-ℤ◌}
use obcpp.Network.Matches.{put}

pub data Status : Type 0 where
  ok bad_request not_found internal_server_error : Status

-- What is asked of the camera, the client of the flight controller and the vision pipeline.
pub data Asked (Photo : Type 0) : Type 0 where
  connect start_streaming take_picture stop_taking_pictures make_aggregator kill rtl : Asked Photo
  start_taking_pictures : ℕ → Asked Photo
  save run_pipeline : Photo → Asked Photo
  trigger_airdrop : ℕ → Asked Photo

-- The camera: whether it is connected, and whether an attempt to connect it works. `pictures i` is
-- what the i-th picture gives.
pub record Camera (Photo : Type 0) : Type 0 where
  pub is_connected : Bool
  pub connects : Bool
  pub pictures : ℕ → Option Photo
  pub all_images : List Photo

-- GET /connections: the lost airdrops with the time since their last heartbeat, the state of the
-- radio, and of the camera.
pub record ConnInfo (Strength : Type 0) : Type 0 where
  pub lost : List (ℕ × ℕ)
  pub mav_rc_good : Bool
  pub mav_rc_strength : Strength
  pub camera_good : Bool

module _ {Photo Strength : Type 0} where
  pub connections :
      (water beacon : ℕ)
      → Strength
      → (airdrop : Option (List (ℕ × ℕ))) → (mav : Option (Bool × Strength)) → Option (Camera Photo)
      → ConnInfo Strength
  connections water beacon zero_strength airdrop mav cam = record {
    lost = elim airdrop [ none ↦ (water, 99999) ∷ (beacon, 99999) ∷ [] | some lost ↦ lost ];
    mav_rc_good = elim mav [ none ↦ false | some rc ↦ rc.0 ];
    mav_rc_strength = elim mav [ none ↦ zero_strength | some rc ↦ rc.1 ];
    camera_good = elim cam [ none ↦ false | some c ↦ c.is_connected ];
  }

-- GET /path/initial and GET /path/coverage: the path, if it has items.
abbrev pub get_path : {Item : Type 0} → List Item → Option (List Item) × Status
get_path [] = (none, bad_request)
get_path (item ∷ rest) = (some (item ∷ rest), ok)

-- GET /mission
abbrev pub get_mission : {Mission : Type 0} → Option Mission → Option Mission × Status
get_mission none = (none, bad_request)
get_mission (some mission) = (some mission, ok)

module _ {Photo : Type 0} where
  -- The connection that three handlers try for first; false where they give up.
  abbrev ensure_connected : Camera Photo → List (Asked Photo) × Bool
  ensure_connected cam =
      if cam.is_connected
      then ([], true)
      else if cam.connects
      then (connect ∷ [], true)
      else (connect ∷ [], false)

  -- GET /camera/capture: faults without a camera, and where an empty photo is to be saved.
  pub capture :
      Option (Camera Photo)
      → (save_images_to_file : Bool) → Option (List (Asked Photo) × Option Photo × Status)
  capture none save_images_to_file = none
  capture (some cam) save_images_to_file =
      let asked =
        (if cam.is_connected then [] else connect ∷ []) ++ start_streaming ∷ take_picture ∷ [] in
      elim (cam.pictures 0) [
        | none ↦ if save_images_to_file then none else some (asked, none, internal_server_error)
        | some photo ↦
            some (asked ++ (if save_images_to_file then save photo ∷ [] else []), some photo, ok)
      ]

  -- POST /camera/startstream, with the interval of the request.
  pub start_stream : Option (Camera Photo) → ℕ → Option (List (Asked Photo) × Status)
  start_stream none interval = none
  start_stream (some cam) interval =
      let (asked, there) = ensure_connected cam in
      some (
        if there
        then (asked ++ start_streaming ∷ start_taking_pictures (interval % 2 ^ 32) ∷ [], ok)
        else (asked, not_found))

  -- POST /camera/endstream
  pub end_stream : Option (Camera Photo) → Option (List (Asked Photo) × Status)
  end_stream none = none
  end_stream (some cam) =
      let (asked, there) = ensure_connected cam in
      some (
        if there
        then (asked ++ stop_taking_pictures ∷ map save cam.all_images, ok)
        else (asked, not_found))

  -- The loop of POST /camera/runpipeline over the pictures.
  unfoldable pub run_pictures :
      (pictures_per_stop i : ℕ)
      → (ℕ → Option Photo)
      → (save_images_to_file : Bool) → Option (List (Asked Photo))
  run_pictures zero i pictures save_images_to_file = some []
  run_pictures (suc left) i pictures save_images_to_file =
      let later = run_pictures left (i + 1) pictures save_images_to_file in
      elim (pictures i) [
        | none ↦
            if save_images_to_file
            then none
            else elim later [ none ↦ none | some asked ↦ some (take_picture ∷ asked) ]
        | some photo ↦ elim later [
          | none ↦ none
          | some asked ↦ some (
              take_picture ∷ (if save_images_to_file then save photo ∷ [] else [])
              ++ run_pipeline photo ∷ asked)
        ]
      ]

  -- POST /camera/runpipeline: the aggregator is made before the camera is asked.
  unfoldable pub run_pipeline_route :
      Option (Camera Photo)
      → (pictures_per_stop : ℕ) (save_images_to_file : Bool) → Option (List (Asked Photo) × Status)
  unfolding run_pictures
  run_pipeline_route none pictures_per_stop save_images_to_file = none
  run_pipeline_route (some cam) pictures_per_stop save_images_to_file =
      let (asked, there) = ensure_connected cam in
      let done : Option (List (Asked Photo) × Status) =
        elim (run_pictures pictures_per_stop 0 cam.pictures save_images_to_file) [
          | none ↦ none
          | some pictures ↦ some (make_aggregator ∷ asked ++ start_streaming ∷ pictures, ok)
        ] in
      if there then done else some (make_aggregator ∷ asked, not_found)

  -- POST /dodropnow drops the airdrop with the number 2.
  pub do_drop_now : (mav succeeds : Bool) → List (Asked Photo) × Status
  do_drop_now mav succeeds =
      if mav
      then (trigger_airdrop 2 ∷ [], (if succeeds then ok else internal_server_error))
      else ([], bad_request)

  -- POST /kill/kill/kill
  pub kill_route : (mav : Bool) → List (Asked Photo) × Status
  kill_route mav = if mav then (kill ∷ [], ok) else ([], bad_request)

  -- POST /rtl does not ask for the client.
  unfoldable pub rtl_route : (mav : Bool) → Option (List (Asked Photo) × Status)
  rtl_route mav = if mav then some (rtl ∷ [], ok) else none

-- GET /obcstate: the number of the lap and how many there are.
abbrev pub current_lap : (laps : ℕ) → (laps_remaining : ℤ) → ℤ
current_lap laps laps_remaining = pos laps -ℤ laps_remaining

-- A run of the pipeline.
pub record AggregatedRun (Image Box Coord : Type 0) : Type 0 where
  pub run_id : ℕ
  pub annotated_image : Image
  pub bboxes : List Box
  pub coords : List Coord

pub record IdentifiedTarget (Picture Box Coord : Type 0) : Type 0 where
  pub run_id : ℕ
  pub picture : Picture
  pub coordinates : List Coord
  pub bboxes : List Box

-- The aggregator's runs that have not been asked for, and its record of targets.
pub record Runs (Image Picture Box Coord : Type 0) : Type 0 where
  pub new_runs : List (AggregatedRun Image Box Coord)
  pub records : List (ℕ × IdentifiedTarget Picture Box Coord)

module _ {Image Picture Box Coord : Type 0} (compress : Image → Option Image)
    (encode : Image → Picture) where
  pub identify : AggregatedRun Image Box Coord → IdentifiedTarget Picture Box Coord
  identify run = record {
    run_id = run.run_id;
    picture = encode (elim (compress run.annotated_image) [
      | none ↦ run.annotated_image
      | some smaller ↦ smaller
    ]);
    coordinates = run.coords;
    bboxes = run.bboxes;
  }

  -- The loop over the runs: the records, and the targets of the answer.
  unfoldable pub identify_all :
      List (AggregatedRun Image Box Coord)
      → List (ℕ × IdentifiedTarget Picture Box Coord)
      → List (ℕ × IdentifiedTarget Picture Box Coord) × List (IdentifiedTarget Picture Box Coord)
  unfolding identify
  identify_all [] records = (records, [])
  identify_all (run ∷ rest) records =
      let counts_agree = length run.coords == length run.bboxes in
      let target = identify run in
      let (later, out) =
        identify_all rest (if counts_agree then put run.run_id target records else records) in
      (later, (if counts_agree then target ∷ out else out))

  -- GET /targets/all: none where there is no aggregator.
  pub targets_all :
      Option (Runs Image Picture Box Coord)
      → Option (Runs Image Picture Box Coord) × List (IdentifiedTarget Picture Box Coord) × Status
  unfolding identify_all
  targets_all none = (none, [], bad_request)
  targets_all (some s) =
      let (records, out) = identify_all s.new_runs s.records in
      (some record { new_runs = []; records = records }, out, ok)
