-- ===== src/Cv/Aggregator.antt =====
-- The pool of threads that run the vision pipeline (src/cv/aggregator.cpp, include/cv/aggregator.hpp).
-- Each event is one critical section or one atomic operation of one thread, so a list of events is
-- an interleaving of the callers and the workers. `num_worker_threads` grows only under the lock,
-- so the body of `runPipeline` is one event. The pipeline itself is a parameter.
pub mod Bounds
pub mod Accounts
pub mod Finish
mod Examples
pub mod RunIds
pub mod Race
use obcpp.Base.{
  ℕ, ◌+◌, ◌-◌, ◌%◌, ◌^◌, List, [], ◌∷◌, ◌++◌, map, Option, none, some, Bool, true, false, not, leb,
  length, get_elem?, set, if◌then◌else◌,
}

-- What a detection carries that the aggregator reads.
pub record DetectedTarget (Box Coord : Type 0) : Type 0 where
  pub bbox : Box
  pub coord : Coord

pub record PipelineResults (Mat Box Coord : Type 0) : Type 0 where
  pub image_data : Mat
  pub targets : List (DetectedTarget Box Coord)

pub record AggregatedRun (Mat Box Coord : Type 0) : Type 0 where
  pub run_id : ℕ
  pub annotated_image : Mat
  pub bboxes : List Box
  pub coords : List Coord

abbrev pub max_cv_pipelines : ℕ
max_cv_pipelines = 2

-- Where a worker stands: the pipeline runs on an image; its run waits for the lock; the queue is
-- looked at next; the loop is left and the count not yet lowered; the thread has returned.
pub data Phase (Image Run : Type 0) : Type 0 where
  detecting : Image → Phase Image Run
  publishing : Run → Phase Image Run
  polling leaving returned : Phase Image Run

-- `std::atomic<int>` wraps around: the next of its 2 ^ 32 values, taken as a number.
abbrev pub next_run_id : ℕ → ℕ
next_run_id id = (id + 1) % 2 ^ 32

-- `global_run_id` is shared by all aggregators of the program, which are there one after the other.
-- `terminating` holds the threads that a call of `terminate` still has to join.
pub record Aggregator (Image Run : Type 0) : Type 0 where
  pub accepting_images : Bool
  pub num_worker_threads : ℕ
  pub threads : List (Phase Image Run)
  pub worker_threads : List ℕ
  pub terminating : List ℕ
  pub overflow_queue : List Image
  pub runs : List Run
  pub global_run_id : ℕ

-- `submit image spawned` is a call of `runPipeline`; `spawned` says whether the system can start a
-- thread. The workers' events name the thread.
pub data Event (Image : Type 0) : Type 0 where
  submit : Image → Bool → Event Image
  detect publish poll leave : ℕ → Event Image
  terminate join pop_all : Event Image

module _ {Image Run : Type 0} where
  pub init : Aggregator Image Run
  init = record {
    accepting_images = true;
    num_worker_threads = 0;
    threads = [];
    worker_threads = [];
    terminating = [];
    overflow_queue = [];
    runs = [];
    global_run_id = 0;
  }

  -- `emplace_back` may throw, and the catch lowers the count again.
  spawn : Aggregator Image Run → Image → Bool → Aggregator Image Run
  spawn s image spawned =
      if spawned
      then record s {
        num_worker_threads = s.num_worker_threads + 1;
        threads = s.threads ++ detecting image ∷ [];
        worker_threads = s.worker_threads ++ length s.threads ∷ [];
      }
      else record s { num_worker_threads = s.num_worker_threads + 1 - 1 }

  pub run_pipeline : Aggregator Image Run → Image → Bool → Aggregator Image Run
  unfolding spawn
  run_pipeline s image spawned =
      if not s.accepting_images
      then s
      else if leb max_cv_pipelines s.num_worker_threads
      then record s { overflow_queue = s.overflow_queue ++ image ∷ [] }
      else spawn s image spawned

  -- Stop accepting, discard the queue, and take the threads over to be joined.
  pub stop : Aggregator Image Run → Aggregator Image Run
  stop s = elim s.worker_threads [
    | [] ↦ record s { accepting_images = false; overflow_queue = [] }
    | t ∷ ts ↦ record s {
      accepting_images = false;
      overflow_queue = [];
      worker_threads = [];
      terminating = s.terminating ++ t ∷ ts;
    }
  ]

  set_phase : Aggregator Image Run → ℕ → Phase Image Run → Aggregator Image Run
  set_phase s i ph = record s { threads = set s.threads i ph }

  -- The first thread to be joined has returned: `join` comes back.
  join_next : Aggregator Image Run → List ℕ → Option (Aggregator Image Run)
  join_next s [] = none
  join_next s (t ∷ ts) = elim (get_elem? s.threads t) [
    | some returned ↦ some (record s { terminating = ts })
    | _ ↦ none
  ]

  -- The queue is looked at under the lock: the loop ends, or goes on with the front image.
  pub poll_queue : Aggregator Image Run → ℕ → List Image → Aggregator Image Run
  unfolding set_phase
  poll_queue s i [] = set_phase s i leaving
  poll_queue s i (image ∷ rest) = set_phase (record s { overflow_queue = rest }) i (detecting image)

  pub pop_all_runs : Aggregator Image Run → Aggregator Image Run × List Run
  pop_all_runs s = (record s { runs = [] }, s.runs)

module _ {Image Mat Box Coord : Type 0} (pipeline : Image → PipelineResults Mat Box Coord) where
  abbrev Run : Type 0
  Run = AggregatedRun Mat Box Coord

  -- One run for all detections of an image.
  pub build_run : ℕ → Image → AggregatedRun Mat Box Coord
  build_run id image =
      let results = pipeline image in
      record {
        run_id = id;
        annotated_image = results.image_data;
        bboxes = map (λ d. d.bbox) results.targets;
        coords = map (λ d. d.coord) results.targets;
      }

  -- One pass of the worker's loop, at the place where the thread stands.
  pub worker :
      Aggregator Image Run → ℕ → Event Image → Phase Image Run → Option (Aggregator Image Run)
  unfolding set_phase poll_queue build_run
  worker s i (detect _) (detecting image) = some (
      set_phase (record s { global_run_id = next_run_id s.global_run_id }) i
        (publishing (build_run s.global_run_id image)))
  worker s i (publish _) (publishing run) =
      some (set_phase (record s { runs = s.runs ++ run ∷ [] }) i polling)
  worker s i (poll _) polling = some (poll_queue s i s.overflow_queue)
  worker s i (leave _) leaving =
      some (set_phase (record s { num_worker_threads = s.num_worker_threads - 1 }) i returned)
  worker s i _ _ = none

  at : Aggregator Image Run → ℕ → Event Image → Option (Aggregator Image Run)
  unfolding worker
  at s i e = elim (get_elem? s.threads i) [ none ↦ none | some ph ↦ worker s i e ph ]

  -- `none`: the event cannot happen in this state.
  pub step : Aggregator Image Run → Event Image → Option (Aggregator Image Run)
  unfolding at run_pipeline stop join_next pop_all_runs
  step s (submit image spawned) = some (run_pipeline s image spawned)
  step s (detect i) = at s i (detect i)
  step s (publish i) = at s i (publish i)
  step s (poll i) = at s i (poll i)
  step s (leave i) = at s i (leave i)
  step s terminate = some (stop s)
  step s join = join_next s s.terminating
  step s pop_all = some (pop_all_runs s).0

  pub run_events : Aggregator Image Run → List (Event Image) → Option (Aggregator Image Run)
  run_events s [] = some s
  run_events s (e ∷ es) = elim (step s e) [ none ↦ none | some t ↦ run_events t es ]
