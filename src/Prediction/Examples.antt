-- ===== src/Prediction/Examples.antt =====
-- The theorems on the prediction engine at concrete inputs.
use zero_latency_yolo.Base.{ℕ, ◌≡◌, refl, [], ◌∷◌, true, arith, ltb, sub64, if◌then◌else◌}
use zero_latency_yolo.Float.{pattern_float}
use zero_latency_yolo.Protocol.{Detection, GameState}
use zero_latency_yolo.Prediction.{
  PredictionEngine, PredictionParams, TrackingHistory, KalmanFilter, new_engine, no_motion,
}
use zero_latency_yolo.Prediction.Motion.{update, prune_old_tracks}
use zero_latency_yolo.Prediction.Predict.{predict_state, target_of}
use zero_latency_yolo.Prediction.Invariant.{IsEngine, add, tick, calls, calls-IsEngine}
use zero_latency_yolo.Prediction.Shape.{predict_state-update}
use zero_latency_yolo.Prediction.Dual.{Engines, update_engines, update_engines-silent}

abbrev params : PredictionParams
params = record {
  max_prediction_time = 200;
  position_uncertainty = 1036831949;
  velocity_uncertainty = 1045220557;
  acceleration_uncertainty = 1050253722;
  min_confidence_threshold = 1056964608;
}

abbrev seen : ℕ → ℕ → Detection
seen x timestamp = record {
  box = record { x = x; y = 5; width = 2; height = 3 };
  confidence = 1063675494;
  class_id = 1;
  track_id = 7;
  padding = 0;
  timestamp = timestamp;
}

abbrev seen_twice : TrackingHistory
seen_twice = record {
  history = seen 10 1000 ∷ (seen 12 1020 ∷ []);
  velocity = no_motion;
  acceleration = no_motion;
  last_update_time = 1020;
  confidence_decay = 1028443341;
}

abbrev filter : KalmanFilter
filter = record {
  state = record { x = 12; y = 5; vx = 1; vy = 0; w = 2; h = 3 };
  position_uncertainty = 4;
  velocity_uncertainty = 4;
  initialized = true;
}

abbrev engine : PredictionEngine
engine = record {
  params = params;
  tracks = (7, seen_twice) ∷ [];
  max_track_age_ms = 500;
  prediction_horizon_ms = 200;
  filters = (7, filter) ∷ [];
}

engine-IsEngine : IsEngine engine
engine-IsEngine = record {
  keys = (tt, tt);
  tracked = ((omega arith, omega arith, omega arith, (refl, (refl, tt))), tt);
  paired = (refl, refl, tt);
}

calls-IsEngine_example : IsEngine (
    calls pattern_float
      (new_engine pattern_float params)
      (add (seen 10 1000) ∷ (tick 1010 ∷ (add (seen 12 1020) ∷ []))))
calls-IsEngine_example =
    calls-IsEngine pattern_float params
      (add (seen 10 1000) ∷ (tick 1010 ∷ (add (seen 12 1020) ∷ [])))

predict_state-update_example :
    predict_state pattern_float (update pattern_float engine 1100) 1150 1100
    ≡ predict_state pattern_float (prune_old_tracks engine 1100) 1150 1100
predict_state-update_example =
    predict_state-update pattern_float engine 1100 1150 1100 engine-IsEngine

test_target : target_of engine 1150 1100 ≡ 1150
unfolding target_of
test_target = refl

abbrev server_state : GameState
server_state = record { frame_id = 4; timestamp = 900; detections = seen 12 1020 ∷ [] }

abbrev engines : Engines
engines = record {
  dual = record {
    last_server_state = server_state;
    current_state = record server_state { detections = [] };
    last_server_update_time = 1030;
    server_correction_weight = 1050253722;
    detection_count = 1;
    prediction_count = 0;
  };
  prediction = engine;
}

update_engines-silent_example :
    (update_engines pattern_float
      (λ l. l)
      engines
      1300
      1300
      1301
      1302).dual.current_state.detections
    ≡ (if ltb 500 (sub64 1302 900) then [] else seen 12 1020 ∷ [])
update_engines-silent_example =
    update_engines-silent pattern_float (λ l. l) engines 1300 1300 1301 1302 (omega arith)
      (omega arith) ((omega arith, (omega arith, tt)), tt)
