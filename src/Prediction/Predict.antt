-- ===== src/Prediction/Predict.antt =====
-- `predictState` of src/client/prediction_engine.cpp.
use zero_latency_yolo.Base.{
  ℕ, ◌+◌, List, [], ◌∷◌, Option, none, some, ltb, if◌then◌else◌, sub64, u64,
}
use zero_latency_yolo.Base.Table.{lookup}
use zero_latency_yolo.Float.{Float}
use zero_latency_yolo.Protocol.{BoundingBox, Detection}
use zero_latency_yolo.Inference.Nms.{float_max}
use zero_latency_yolo.Prediction.{
  PredictionEngine, TrackingHistory, KalmanFilter, Vector2D, seconds, back,
}

-- 0.5, and the milliseconds of a frame, 16.67.
abbrev pub half : ℕ
half = 1056964608

abbrev pub frame_ms : ℕ
frame_ms = 1099258921

-- `predictMotion`.
unfoldable pub predict_motion : Float → BoundingBox → Vector2D → Vector2D → ℕ → BoundingBox
predict_motion fp box velocity acceleration time_delta =
    let dt = seconds fp time_delta in
    record box {
      x =
          fp.add (fp.add box.x (fp.mul velocity.x dt))
            (fp.mul (fp.mul (fp.mul half acceleration.x) dt) dt);
      y =
          fp.add (fp.add box.y (fp.mul velocity.y dt))
            (fp.mul (fp.mul (fp.mul half acceleration.y) dt) dt);
    }

-- The box where a filter's state moves on.
unfoldable pub filtered_box : Float → KalmanFilter → ℕ → BoundingBox
filtered_box fp f time_delta =
    let dt = seconds fp time_delta in
    record {
      x = fp.add f.state.x (fp.mul f.state.vx dt);
      y = fp.add f.state.y (fp.mul f.state.vy dt);
      width = f.state.w;
      height = f.state.h;
    }

unfoldable pub decayed : Float → ℕ → ℕ → ℕ → ℕ
decayed fp decay confidence time_delta =
    float_max fp (fp.sub confidence (fp.mul decay (fp.div (fp.of_uint64 time_delta) frame_ms))) 0

-- The box of a prediction, by the filter where there is one that is initialised.
unfoldable pub predicted_box :
    Float → Option KalmanFilter → TrackingHistory → Detection → ℕ → BoundingBox
predicted_box fp none t latest time_delta =
    predict_motion fp latest.box t.velocity t.acceleration time_delta
predicted_box fp (some f) t latest time_delta =
    if f.initialized
    then filtered_box fp f time_delta
    else predict_motion fp latest.box t.velocity t.acceleration time_delta

-- What one track gives at a time, or nothing.
unfoldable pub prediction_of :
    Float → ℕ → ℕ → Option KalmanFilter → TrackingHistory → Option Detection
prediction_of fp horizon target filter t = elim (back t.history) [
  | none ↦ none
  | some latest ↦
      let time_delta = sub64 target latest.timestamp in
      if ltb horizon time_delta
      then none
      else some (record latest {
        timestamp = target;
        box = predicted_box fp filter t latest time_delta;
        confidence = decayed fp t.confidence_decay latest.confidence time_delta;
      })
]

-- `push_back`, where there is something.
abbrev pub prepend : Option Detection → List Detection → List Detection
prepend none ds = ds
prepend (some d) ds = d ∷ ds

-- The loop over the tracks.
unfoldable pub predictions :
    Float → ℕ → ℕ → List (ℕ × KalmanFilter) → List (ℕ × TrackingHistory) → List Detection
predictions fp horizon target filters [] = []
predictions fp horizon target filters ((id, t) ∷ ts) =
    prepend (prediction_of fp horizon target (lookup id filters) t)
      (predictions fp horizon target filters ts)

-- The time that is asked for, cut to the horizon.
unfoldable pub target_of : PredictionEngine → ℕ → ℕ → ℕ
target_of s asked now =
    let limit = u64 (now + s.prediction_horizon_ms) in if ltb limit asked then limit else asked

-- `predictState`.
unfoldable pub predict_state : Float → PredictionEngine → ℕ → ℕ → List Detection
predict_state fp s asked now =
    predictions fp s.prediction_horizon_ms (target_of s asked now) s.filters s.tracks
