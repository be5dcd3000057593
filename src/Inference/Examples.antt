-- ===== src/Inference/Examples.antt =====
-- The theorems on the inference engine at concrete inputs.
use mathlib.Core.List.Permᴰ
use zero_latency_yolo.Base.{
  ℕ, zero, suc, ◌<◌, ◌≤◌, ◌≡◌, refl, true, false, List, [], ◌∷◌, some, arith, All, length,
}
use zero_latency_yolo.Float.{pattern_float}
use zero_latency_yolo.Protocol.{Detection, not_initialized}
use zero_latency_yolo.Udp.Server.{success, failure}
use zero_latency_yolo.Inference.{
  EngineConfig, InferenceRequest, OnnxInferenceEngine, new_engine, initialize, missing, loaded,
  submit_inference,
}
use zero_latency_yolo.Inference.Nms.{apply_nms, comes_first, int_lt}
use zero_latency_yolo.Inference.Nms.Laws.{AreApart, InOrder, IsCovered, apply_nms_lem}
use zero_latency_yolo.Inference.Postprocess.{Tensor, post_process, dimensions}
use zero_latency_yolo.Inference.Postprocess.Laws.{IsSound, post_process_lem}
use zero_latency_yolo.Inference.Engine.{remember}
use zero_latency_yolo.Inference.Engine.Laws.{IsSorted, submit_inference-simulation}

abbrev box_at : ℕ → ℕ → ℕ → Detection
box_at x class_id confidence = record {
  box = record { x = x; y = 40; width = 20; height = 20 };
  confidence = confidence;
  class_id = class_id;
  track_id = 0;
  padding = 0;
  timestamp = 5;
}

abbrev three : List Detection
three = box_at 40 0 9 ∷ box_at 42 0 7 ∷ box_at 40 1 8 ∷ []

abbrev as_is : List Detection → List Detection
as_is ds = ds

three-InOrder : InOrder pattern_float three
unfolding comes_first int_lt
three-InOrder = ((refl, (refl, tt)), ((refl, tt), (tt, tt)))

apply_nms_lem_example :
    AreApart pattern_float 30 (apply_nms pattern_float as_is three 30)
    × All (IsCovered pattern_float 30 (apply_nms pattern_float as_is three 30)) three
    × All (λ d. d.class_id < 3) (apply_nms pattern_float as_is three 30)
apply_nms_lem_example =
    apply_nms_lem pattern_float as_is three 30 (λ d. d.class_id < 3) (Permᴰ.refl three)
      three-InOrder (omega arith, (omega arith, (omega arith, tt)))

abbrev config : EngineConfig
config = record {
  worker_threads = 2;
  model_width = 416;
  model_height = 416;
  confidence_threshold = 3;
  nms_threshold = 30;
  use_priority_scheduling = false;
}

-- Two boxes and two classes.
abbrev output : Tensor
output = record {
  shape = 1 ∷ 6 ∷ 2 ∷ [];
  values = 40 ∷ 60 ∷ 40 ∷ 60 ∷ 20 ∷ 20 ∷ 20 ∷ 20 ∷ 9 ∷ 1 ∷ 2 ∷ 2 ∷ [];
}

output-dimensions : dimensions output ≡ some (2, 2)
unfolding dimensions
output-dimensions = refl

post_process_lem_example :
    (ds : List Detection) × (post_process pattern_float as_is config output 10 10 (λ i. i)
      ≡ some (apply_nms pattern_float as_is ds 30))
    × All (IsSound pattern_float config 2) ds
    × (length ds ≤ 2)
post_process_lem_example =
    post_process_lem pattern_float as_is config output 10 10 (λ i. i) 2 2 output-dimensions
      (omega arith)

abbrev request : InferenceRequest
request = record {
  client_id = 1;
  frame_id = 4;
  timestamp = 9;
  width = 1;
  height = 1;
  pixels = 1 ∷ 2 ∷ 3 ∷ [];
  is_keyframe = true;
}

simulated : (initialize missing (new_engine config)).0.simulation_mode ≡ true
unfolding initialize
simulated = refl

stopped : ((new_engine config).running ≡ false) × ((new_engine config).simulation_mode ≡ false)
unfolding new_engine
stopped = (refl, refl)

submit_inference-simulation_example :
    let e' = (initialize missing (new_engine config)).0 in
    let e'' = (initialize loaded e').0 in
    ((initialize missing (new_engine config)).1 ≡ success tt)
    × ((submit_inference e' request 12).1 ≡ failure not_initialized)
    × ((submit_inference e'' request 12).1 ≡ success tt)
    × (e''.simulation_mode ≡ true)
submit_inference-simulation_example =
    submit_inference-simulation missing (new_engine config) request 12 stopped.0 stopped.1 simulated

abbrev sevens : ℕ → List ℕ
sevens zero = []
sevens (suc n) = 7 ∷ sevens n

All-sevens : (n : ℕ) → All (λ m. 7 ≤ m) (sevens n)
All-sevens zero = tt
All-sevens (suc n) = (omega arith, All-sevens n)

sevens-IsSorted : (n : ℕ) → IsSorted (sevens n)
sevens-IsSorted zero = tt
sevens-IsSorted (suc n) = (All-sevens n, sevens-IsSorted n)

abbrev worked : OnnxInferenceEngine
worked = record (new_engine config) { latency_history = sevens 99 }

remembered : remember (sevens 99) 7 ≡ sevens 100
unfolding remember
remembered = refl

remembered-IsSorted : IsSorted (remember (sevens 99) 7)
unfolding remember
remembered-IsSorted = sevens-IsSorted 100
