-- ===== src/Lib.antt =====
-- obcpp, the onboard computer of an unmanned plane: what is modelled of it and what is proved.
--
-- The program flies a mission in ticks. `OBC::run` (src/core/obc.cpp) calls `MissionState::doTick`
-- (src/core/mission_state.cpp) again and again; the tick on hand (src/ticks) looks at the flight
-- controller, the camera and the futures it has started, and may hand over to another tick. The
-- ground station steers it by HTTP requests (src/network/gcs_routes.cpp): it uploads the mission
-- (src/core/mission_parameters.cpp), accepts the path, picks the kind of takeoff and matches the
-- targets. The paths become lists of commands for the flight controller
-- (src/pathing/mission_path.cpp). Photos go to a pool of threads that run the vision pipeline
-- (src/cv/aggregator.cpp), and those of a search are stitched to a map in the end
-- (src/cv/mapping.cpp). The payloads talk over UDP (src/network/airdrop_client.cpp), the flight
-- controller over a library (src/network/mavlink.cpp).
--
-- The files.
-- - Base: names that all share, natural numbers and integers, lists, Boolean tests.
-- - Ticks/Tick, Ticks/State: the tick objects with their fields, and the part of MissionState that
--   the ticks use; what the rest of the system answers is a record of readings, what they make it
--   do a list of actions.
-- - Ticks/Ground, Ticks/Flight: one function per `tick()`. Ticks/Schedule: the `init()` functions,
--   `_setTick` and `doTick`. A null pointer, an empty optional that is read and a missing key are
--   `none`, and so is a generation of a path that aborts, throws or does not end: whether it does is a
--   reading. Ticks/Ready has the states in which no tick faults otherwise; the children of the files
--   above have the lemmas for each tick.
-- - Network/GcsRoutes: the requests that steer the mission, and runs of ticks and requests, with
--   POST /rtl and POST /camera/runpipeline. Network/Matches: the dictionary of matched airdrops.
-- - Network/GcsUploads: POST /mission and POST /targets/locations.
-- - Network/GcsServices: the routes that ask the clients, the camera and the vision pipeline for
--   something (src/network/gcs_routes.cpp).
-- - Network/Mavlink: the client of the flight controller, with its telemetry.
-- - Network/AirdropClient: the setup, the receive thread, the heartbeats and the sending.
-- - Core/MissionParameters: the upload of a mission.
-- - Pathing/MissionPath: the commands of a path.
-- - Pathing/Environment: the bounds checks of points and paths (src/pathing/environment.cpp).
-- - Pathing/Polygons: the tests of polygons and segments, the random points, the lines over the
--   airdrop zone and the estimate of the area covered (src/pathing/environment.cpp).
--   Pathing/ForwardCoverage, Pathing/HoverCoverage: the coverage of that zone in lines and by stops
--   (src/pathing/static.cpp).
-- - Pathing/RrtStore: the tree of the path search as a store of shared nodes, its traversals and
--   the moves of RRT* (src/pathing/tree.cpp).
-- - Pathing/Rrt: the search through the goals (src/pathing/static.cpp). Pathing/GoalLists: the
--   lists of goals with one more goal. Pathing/Plans: the paths that the ticks ask for.
--   Pathing/DropLocation: the place to drop from.
-- - Cv/Aggregator: the pool; an event is one critical section or one atomic operation of one
--   thread, so a list of events is an interleaving. Cv/Records: the record of identified targets.
-- - Cv/Mapping: the stitching of images (src/cv/mapping.cpp, src/cv/preprocess.cpp).
-- Functions have the names of the source in lower case. Each Examples file applies the theorems at
-- concrete inputs.
--
-- Bounds and fuel. A walk along a path has as much fuel as the path has points, and moves five
-- points at a time. The two loops of the payload client run on fuel: each pass takes at least one
-- outcome of the socket, so as much fuel as there are outcomes is enough, and the theorems ask for
-- just that. A traversal of the tree of the path search goes no deeper than there are nodes, and
-- the search for the path to a node takes two steps for each node; the iterations of the search
-- that have to be repeated, and the loops that wait for the flight controller, run on fuel too,
-- since nothing bounds them: the theorems say when they end. The chunks of images start at least
-- one image apart, so the number of images is fuel enough. The wait for a path is 25 steps, 2500 ms
-- in steps of 100 ms. The pool has two workers at most. Counters are natural numbers, the
-- numbers of pipeline runs modulo 2^32; the laps are
-- an integer, since they can fall below zero. The times of the client are milliseconds, and their
-- differences integers.
--
-- Parameters. The packet library, the protobuf messages, coordinates, floating point numbers,
-- images, curves, paths, the stitcher, the library of the flight controller and the vision
-- pipeline are types and functions that the definitions take. The loops over doubles run on fuel,
-- and their theorems say how often they go round. Where the source sorts, the model sorts by
-- insertion, which is one of the orders that `std::sort` may give. Not modelled: the
-- geometry of curves and of coordinates on the globe, the vision models, the
-- cameras, the sockets, the configuration and the logging; and the locks of MissionState, whose
-- ticks run one at a time.
pub mod Base
pub mod Core
pub mod Cv
pub mod Network
pub mod Pathing
pub mod Ticks
