-- ===== src/Inference/Engine.antt =====
-- `runInference` and the threads of the inference engine of src/inference/onnx_engine.cpp. A thread's
-- turn is one task, or none where the queue is empty; the turns of the threads stand in one order.
pub mod Laws
use zero_latency_yolo.Base.{
  ℕ, ◌+◌, ◌*◌, ◌/◌, Bool, true, false, List, [], ◌∷◌, ◌++◌, Option, none, some, length, get_elem?,
  not, ltb, leb, ◌==◌, if◌then◌else◌, u64,
}
use zero_latency_yolo.Float.{Float}
use zero_latency_yolo.Protocol.{Detection, GameState, invalid_input, inference_error}
use zero_latency_yolo.Udp.Server.{Result, success, failure}
use zero_latency_yolo.Inference.{
  InferenceRequest, InferenceTask, OnnxInferenceEngine, Notice, called_back, inference_completed,
}
use zero_latency_yolo.Inference.Preprocess.{prepared, invalid_size, undefined_size, pre_process}
use zero_latency_yolo.Inference.Postprocess.{Tensor, post_process}

-- What the engine calls outside the repository: `session` is the run of the model on a tensor, where
-- `none` is an exception; `random` are the detections of the simulation for a width and a height;
-- `sort` and `sort_latencies` are `std::sort`; `clock` is the system clock as it is read per box.
pub record Outside : Type 0 where
  pub fp : Float
  pub session : List ℕ → Option (List Tensor)
  pub random : ℕ → ℕ → List Detection
  pub sort : List Detection → List Detection
  pub sort_latencies : List ℕ → List ℕ
  pub clock : ℕ → ℕ

-- What `runInference` comes to: a result, with one more error counted or not, or a step that C++
-- leaves undefined.
pub data Ran : Type 0 where
  ran : Result GameState → Bool → Ran
  undefined : Ran

unfoldable pub state_of : InferenceRequest → List Detection → GameState
state_of request ds = record {
  frame_id = request.frame_id;
  timestamp = request.timestamp;
  detections = ds;
}

-- After the run of the model.
unfoldable pub postprocessed :
    Outside → OnnxInferenceEngine → InferenceRequest → Option (List Tensor) → Ran
postprocessed o e request none = ran (failure inference_error) true
postprocessed o e request (some []) = ran (failure inference_error) false
postprocessed o e request (some (t ∷ [])) =
    elim (post_process o.fp o.sort e.config t request.width request.height o.clock) [
      | none ↦ undefined
      | some ds ↦ ran (success (state_of request ds)) false
    ]
postprocessed o e request (some (t ∷ u ∷ ts)) = ran (failure inference_error) false

-- `runInference`.
unfoldable pub run_inference : Outside → OnnxInferenceEngine → InferenceRequest → Ran
run_inference o e request =
    if e.simulation_mode
    then ran (success (state_of request (o.random request.width request.height))) false
    else elim (pre_process o.fp e.config request.pixels request.width request.height) [
      | undefined_size ↦ undefined
      | invalid_size ↦ ran (failure invalid_input) false
      | prepared values ↦ postprocessed o e request (o.session values)
    ]

unfoldable pub count_error : Bool → OnnxInferenceEngine → OnnxInferenceEngine
count_error counted e =
    if counted then record e { inference_errors = u64 (e.inference_errors + 1) } else e

-- What a turn comes to: the engine, the task taken, and what reaches the outside.
pub data Turn : Type 0 where
  turn : OnnxInferenceEngine → Option InferenceTask → List Notice → Turn
  undefined_turn : Turn

-- The callback, and the event after it.
unfoldable pub notify : OnnxInferenceEngine → InferenceRequest → Result GameState → List Notice
notify e request (success state) =
    if e.has_callback
    then called_back request.client_id state
      ∷ inference_completed request.client_id request.frame_id
      ∷ []
    else []
notify e request (failure code) = []

-- A turn of `inferenceThreadFunc` while the engine runs, for a task at a time; a batch is a number of
-- turns.
unfoldable pub inference_turn : Outside → OnnxInferenceEngine → Turn
inference_turn o e = elim e.tasks [
  | [] ↦ turn e none []
  | task ∷ tasks ↦ elim (run_inference o e task.request) [
    | undefined ↦ undefined_turn
    | ran result counted ↦
        turn (count_error counted (record e { tasks = tasks })) (some task)
          (notify e task.request result)
  ]
]

-- `pop_front` of a queue that is not empty.
unfoldable pub drop_front : List ℕ → List ℕ
drop_front [] = []
drop_front (oldest ∷ rest) = rest

-- The last 100 latencies.
unfoldable pub remember : List ℕ → ℕ → List ℕ
remember history elapsed =
    let longer = history ++ elapsed ∷ [] in
    if ltb 100 (length longer) then drop_front longer else longer

unfoldable pub sum : List ℕ → ℕ
sum [] = 0
sum (n ∷ ns) = n + sum ns

-- The latency at the 99th place of a hundred; there are as many as the length says, so the 0 is not
-- reached.
unfoldable pub p99 : (List ℕ → List ℕ) → List ℕ → ℕ
p99 sort history = elim (get_elem? (sort history) (99 * length history / 100)) [
  | none ↦ 0
  | some n ↦ n
]

unfoldable pub with_latency : (List ℕ → List ℕ) → OnnxInferenceEngine → ℕ → OnnxInferenceEngine
with_latency sort e elapsed =
    let history = remember e.latency_history elapsed in
    record e {
      latency_history = history;
      avg_inference_latency_ms = u64 (sum history) / length history;
      p99_inference_latency_ms =
          if leb 100 (length history) then p99 sort history else e.p99_inference_latency_ms;
    }

unfoldable pub is_failure : Result GameState → Bool
is_failure (success state) = false
is_failure (failure code) = true

-- A turn of `workerThreadFunc` while the engine runs, whose run takes `elapsed` milliseconds.
unfoldable pub worker_turn : Outside → OnnxInferenceEngine → ℕ → Turn
worker_turn o e elapsed = elim e.tasks [
  | [] ↦ turn e none []
  | task ∷ tasks ↦ elim (run_inference o e task.request) [
    | undefined ↦ undefined_turn
    | ran result counted ↦
        let timed = with_latency o.sort_latencies (record e { tasks = tasks }) elapsed in
        turn
          (count_error (is_failure result) (
            count_error counted (record timed {
              inference_count = u64 (e.inference_count + 1);
              total_inference_time_ms = u64 (e.total_inference_time_ms + elapsed);
            })))
          (some task) []
  ]
]
