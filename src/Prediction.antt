-- ===== src/Prediction.antt =====
-- `PredictionEngine` of src/client/prediction_engine.cpp: its state, and the constructor, `addDetection`,
-- `clearTracks`, `getTrackCount` and `getTrackConfidence`.
pub mod Motion
pub mod Predict
pub mod Invariant
pub mod Shape
pub mod Dual
mod Examples
use zero_latency_yolo.Base.{
  ℕ, ◌-◌, ◌+◌, List, [], ◌∷◌, ◌++◌, Option, none, some, Bool, true, false, get_elem?, length, drop,
  ltb, leb, ◌==◌, if◌then◌else◌, sub64,
}
use zero_latency_yolo.Base.Table.{lookup, insert, erase}
use zero_latency_yolo.Float.{Float}
use zero_latency_yolo.Protocol.{BoundingBox, Detection}
use zero_latency_yolo.Tracker.{one, new_share}

pub record Vector2D : Type 0 where
  pub x : ℕ
  pub y : ℕ

pub record TrackingHistory : Type 0 where
  pub history : List Detection
  pub velocity : Vector2D
  pub acceleration : Vector2D
  pub last_update_time : ℕ
  pub confidence_decay : ℕ

pub record KalmanState : Type 0 where
  pub x : ℕ
  pub y : ℕ
  pub vx : ℕ
  pub vy : ℕ
  pub w : ℕ
  pub h : ℕ

pub record KalmanFilter : Type 0 where
  pub state : KalmanState
  pub position_uncertainty : ℕ
  pub velocity_uncertainty : ℕ
  pub initialized : Bool

pub record PredictionParams : Type 0 where
  pub max_prediction_time : ℕ
  pub position_uncertainty : ℕ
  pub velocity_uncertainty : ℕ
  pub acceleration_uncertainty : ℕ
  pub min_confidence_threshold : ℕ

pub record PredictionEngine : Type 0 where
  pub params : PredictionParams
  pub tracks : List (ℕ × TrackingHistory)
  pub max_track_age_ms : ℕ
  pub prediction_horizon_ms : ℕ
  pub filters : List (ℕ × KalmanFilter)

-- 1000.0, 0.001 and 0.016.
abbrev pub thousand : ℕ
thousand = 1148846080

abbrev pub thousandth : ℕ
thousandth = 981668463

abbrev pub sixteen_thousandths : ℕ
sixteen_thousandths = 1015222895

abbrev pub no_motion : Vector2D
no_motion = record { x = 0; y = 0 }

-- `LOCAL_CONFIDENCE_DECAY`, which is 0.05.
abbrev pub local_confidence_decay : ℕ
local_confidence_decay = 1028443341

-- The constructor.
unfoldable pub new_engine : Float → PredictionParams → PredictionEngine
new_engine fp params = record {
  params = params;
  tracks = [];
  max_track_age_ms = 500;
  prediction_horizon_ms = fp.to_uint64 params.max_prediction_time;
  filters = [];
}

-- `vector::back`.
unfoldable pub back {ℓ} : {A : Type ℓ} → List A → Option A
back [] = none
back (x ∷ xs) = elim (back xs) [ none ↦ some x | some y ↦ some y ]

-- Milliseconds as seconds.
unfoldable pub seconds : Float → ℕ → ℕ
seconds fp ms = fp.div (fp.of_uint64 ms) thousand

unfoldable pub first_track : Detection → TrackingHistory
first_track d = record {
  history = d ∷ [];
  velocity = no_motion;
  acceleration = no_motion;
  last_update_time = d.timestamp;
  confidence_decay = local_confidence_decay;
}

unfoldable pub first_filter : PredictionParams → Detection → KalmanFilter
first_filter params d = record {
  state = record { x = d.box.x; y = d.box.y; vx = 0; vy = 0; w = d.box.width; h = d.box.height };
  position_uncertainty = params.position_uncertainty;
  velocity_uncertainty = params.velocity_uncertainty;
  initialized = true;
}

-- The step of `applyKalmanFilter` from the detection before, which is `prev`.
unfoldable pub kalman_step :
    Float → PredictionParams → KalmanFilter → Detection → Detection → KalmanFilter
kalman_step fp params f prev d =
    let elapsed = seconds fp (sub64 d.timestamp prev.timestamp) in
    let dt = if fp.lt elapsed thousandth then sixteen_thousandths else elapsed in
    let predicted_x = fp.add f.state.x (fp.mul f.state.vx dt) in
    let predicted_y = fp.add f.state.y (fp.mul f.state.vy dt) in
    let measured_vx = fp.div (fp.sub d.box.x prev.box.x) dt in
    let measured_vy = fp.div (fp.sub d.box.y prev.box.y) dt in
    let position = fp.add f.position_uncertainty (fp.mul (fp.mul f.velocity_uncertainty dt) dt) in
    let position_gain = fp.div position (fp.add position params.position_uncertainty) in
    let velocity_gain =
      fp.div f.velocity_uncertainty (fp.add f.velocity_uncertainty params.velocity_uncertainty) in
    record f {
      state = record {
        x = fp.add predicted_x (fp.mul position_gain (fp.sub d.box.x predicted_x));
        y = fp.add predicted_y (fp.mul position_gain (fp.sub d.box.y predicted_y));
        vx = fp.add f.state.vx (fp.mul velocity_gain (fp.sub measured_vx f.state.vx));
        vy = fp.add f.state.vy (fp.mul velocity_gain (fp.sub measured_vy f.state.vy));
        w = fp.add (fp.mul new_share d.box.width) (fp.mul (fp.sub one new_share) f.state.w);
        h = fp.add (fp.mul new_share d.box.height) (fp.mul (fp.sub one new_share) f.state.h);
      };
      position_uncertainty = fp.mul (fp.sub one position_gain) position;
      velocity_uncertainty = fp.mul (fp.sub one velocity_gain) f.velocity_uncertainty;
    }

-- `applyKalmanFilter`, on a history that ends in the detection. The index is in range.
unfoldable pub apply_kalman_filter :
    Float → PredictionParams → List Detection → Detection → KalmanFilter → KalmanFilter
apply_kalman_filter fp params history d f =
    if leb (length history) 1
    then record f {
      state = record {
        x = d.box.x;
        y = d.box.y;
        vx = 0;
        vy = 0;
        w = d.box.width;
        h = d.box.height;
      };
      initialized = true;
    }
    else elim (get_elem? history (length history - 2)) [
      | none ↦ f
      | some prev ↦ kalman_step fp params f prev d
    ]

-- A history with the detection at its end, cut to the last ten.
unfoldable pub extended : List Detection → Detection → List Detection
extended history d =
    let longer = history ++ (d ∷ []) in if ltb 10 (length longer) then drop 1 longer else longer

-- The filter of a track that is updated, where there is one.
unfoldable pub update_filter :
    Float
    → PredictionParams
    → List Detection
    → Detection
    → List (ℕ × KalmanFilter)
    → List (ℕ × KalmanFilter)
update_filter fp params history d filters = elim (lookup d.track_id filters) [
  | none ↦ filters
  | some f ↦ insert d.track_id (apply_kalman_filter fp params history d f) filters
]

-- `addDetection`.
unfoldable pub add_detection : Float → PredictionEngine → Detection → PredictionEngine
add_detection fp s d = if d.track_id == 0 then s else elim (lookup d.track_id s.tracks) [
  | none ↦ record s {
    tracks = insert d.track_id (first_track d) s.tracks;
    filters = insert d.track_id (first_filter s.params d) s.filters;
  }
  | some t ↦
      let history = extended t.history d in
      record s {
        tracks =
            insert d.track_id (record t { history = history; last_update_time = d.timestamp })
              s.tracks;
        filters = update_filter fp s.params history d s.filters;
      }
]

-- `clearTracks`.
unfoldable pub clear_tracks : PredictionEngine → PredictionEngine
clear_tracks s = record s { tracks = []; filters = [] }

-- `getTrackCount`.
unfoldable pub get_track_count : PredictionEngine → ℕ
get_track_count s = length s.tracks

-- `getTrackConfidence`.
unfoldable pub get_track_confidence : PredictionEngine → ℕ → ℕ
get_track_confidence s track_id = elim (lookup track_id s.tracks) [
  | none ↦ 0
  | some t ↦ elim (back t.history) [ none ↦ 0 | some d ↦ d.confidence ]
]
