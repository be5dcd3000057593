-- ===== src/Inference.antt =====
-- The inference engine of src/inference: the types of inference_engine.h and the state of
-- `OnnxInferenceEngine`, with what its threads do to it.
pub mod Nms
pub mod Preprocess
pub mod Postprocess
pub mod Engine
mod Examples
use zero_latency_yolo.Base.{
  ℕ, zero, suc, Bool, true, false, List, [], ◌∷◌, ◌++◌, length, ltb, if◌then◌else◌, not,
}
use zero_latency_yolo.Protocol.{GameState, ErrorCode, not_initialized, inference_error}
use zero_latency_yolo.Udp.Server.{Result, success, failure}

pub record InferenceRequest : Type 0 where
  pub client_id : ℕ
  pub frame_id : ℕ
  pub timestamp : ℕ
  pub width : ℕ
  pub height : ℕ
  pub pixels : List ℕ
  pub is_keyframe : Bool

-- `InferenceTask`, less its promise, whose future nobody takes.
pub record InferenceTask : Type 0 where
  pub request : InferenceRequest
  pub enqueue_time : ℕ
  pub priority : ℕ

-- The members of `ServerConfig` that the engine reads. The thresholds are of type `float`.
pub record EngineConfig : Type 0 where
  pub worker_threads : ℕ
  pub model_width : ℕ
  pub model_height : ℕ
  pub confidence_threshold : ℕ
  pub nms_threshold : ℕ
  pub use_priority_scheduling : Bool

-- `tasks` is the queue of `WorkQueue`, the oldest first. `workers` counts the worker threads.
pub record OnnxInferenceEngine : Type 0 where
  pub config : EngineConfig
  pub running : Bool
  pub simulation_mode : Bool
  pub workers : ℕ
  pub tasks : List InferenceTask
  pub queue_high_water_mark : ℕ
  pub has_callback : Bool
  pub inference_count : ℕ
  pub inference_errors : ℕ
  pub total_inference_time_ms : ℕ
  pub latency_history : List ℕ
  pub avg_inference_latency_ms : ℕ
  pub p99_inference_latency_ms : ℕ

-- What reaches the outside: the callback with a result, and events.
pub data Notice : Type 0 where
  called_back : ℕ → GameState → Notice
  inference_requested inference_completed : ℕ → ℕ → Notice
  engine_started engine_stopped : Notice

-- The constructor.
unfoldable pub new_engine : EngineConfig → OnnxInferenceEngine
new_engine config = record {
  config = config;
  running = false;
  simulation_mode = false;
  workers = 0;
  tasks = [];
  queue_high_water_mark = 0;
  has_callback = false;
  inference_count = 0;
  inference_errors = 0;
  total_inference_time_ms = 0;
  latency_history = [];
  avg_inference_latency_ms = 0;
  p99_inference_latency_ms = 0;
}

-- What `initialize` meets: no model file, a model that does not load, a model that loads, or an
-- exception of the runtime before. The threads are taken to start.
pub data ModelAnswer : Type 0 where
  missing load_failed loaded threw : ModelAnswer

-- `initialize`.
unfoldable pub initialize :
    ModelAnswer → OnnxInferenceEngine → OnnxInferenceEngine × Result (Unit {0}) × List Notice
initialize missing e = (record e { simulation_mode = true }, success tt, [])
initialize load_failed e = (record e { simulation_mode = true }, success tt, [])
initialize loaded e = (
  record e { running = true; workers = e.config.worker_threads },
  success tt,
  engine_started ∷ [],
)
initialize threw e = (e, failure inference_error, [])

-- The tasks that wake the worker threads, made by the default constructor. The request's numbers,
-- which C++ leaves unset, are 0 here.
unfoldable pub wake_tasks : ℕ → List InferenceTask
wake_tasks zero = []
wake_tasks (suc n) =
    record {
      request = record {
        client_id = 0;
        frame_id = 0;
        timestamp = 0;
        width = 0;
        height = 0;
        pixels = [];
        is_keyframe = false;
      };
      enqueue_time = 0;
      priority = 0;
    }
    ∷ wake_tasks n

-- `shutdown`.
unfoldable pub shutdown :
    OnnxInferenceEngine → OnnxInferenceEngine × Result (Unit {0}) × List Notice
shutdown e = if not e.running then (e, success tt, []) else (
  record e { running = false; workers = 0; tasks = e.tasks ++ wake_tasks e.workers },
  success tt,
  engine_stopped ∷ [],
)

-- `setCallback`, with a callback that is not empty.
unfoldable pub set_callback : OnnxInferenceEngine → OnnxInferenceEngine
set_callback e = record e { has_callback = true }

-- `getQueueSize`.
unfoldable pub get_queue_size : OnnxInferenceEngine → ℕ
get_queue_size e = length e.tasks

unfoldable pub new_task : EngineConfig → InferenceRequest → ℕ → InferenceTask
new_task config request now = record {
  request = request;
  enqueue_time = now;
  priority = if config.use_priority_scheduling then if request.is_keyframe then 10 else 5 else 0;
}

-- `submitInference`.
unfoldable pub submit_inference :
    OnnxInferenceEngine
    → InferenceRequest
    → ℕ
    → OnnxInferenceEngine × Result (Unit {0}) × List Notice
submit_inference e request now =
    let tasks = e.tasks ++ new_task e.config request now ∷ [] in
    let mark =
      if ltb e.queue_high_water_mark (length tasks)
      then length tasks
      else e.queue_high_water_mark in
    if not e.running then (e, failure not_initialized, []) else (
      record e { tasks = tasks; queue_high_water_mark = mark },
      success tt,
      inference_requested request.client_id request.frame_id ∷ [],
    )
